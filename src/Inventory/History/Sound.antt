-- ===== src/Inventory/History/Sound.antt =====
-- What the tables of src/modules/inventories keep between two transactions.
use ikiot_be.Inventory.Tables.{Db}
use ikiot_be.Inventory.Consistent.{IsConsistent}
use ikiot_be.Inventory.Return.Home.{IsTraced}
use ikiot_be.Inventory.Lines.Keep.{IsIndexed}

-- Lots, ledger and stock agree; the ledger names lots of its goods; rows have their primary key.
pub record IsSound (db : Db) : Type 0 where
  pub consistent : IsConsistent db
  pub traced : IsTraced db
  pub indexed : IsIndexed db
