-- ===== src/Inventory/History.antt =====
-- Every way in which the primitives of src/modules/inventories/inventories.service.ts change the
-- tables, in any order: one step is one primitive that returns, inside the transaction of some caller.
pub mod Indexed
pub mod Traced
pub mod Sound
pub mod Keep
pub mod Refines
use Prim.Native.String.{String}
use ikiot_be.Prelude.{ℕ, ◌≡◌, Option, List, [], ◌∷◌, ok}
use ikiot_be.Inventory.Tables.{StockKey, Inventory, LedgerRef, LotSource, Db}
use ikiot_be.Inventory.Stock.{
  LotOrigin, StockLine, LockedLine, open_lot, deduct_stock, lock_stock, ship_locked_stock,
  release_locked_stock,
}
use ikiot_be.Inventory.Return.{DrawnBy, return_drawn}
use ikiot_be.Inventory.Lines.{
  Catalogue, update_min_stock, add_product_to_location, remove_product_from_location,
}

-- What a step means for the shelves.
pub data ShelfEvent : Type 0 where
  arrive take hand_over unpack : StockKey → ℕ → ShelfEvent
  pack : List StockLine → ShelfEvent
  relabel : ShelfEvent

pub data Step (db db' : Db) : ShelfEvent → Type 0 where
  opened :
      (k : StockKey) (q : ℕ) (cost : Option ℕ) (origin : LotOrigin) (at : Option ℕ) (now : ℕ)
      (ledger : LedgerRef) (row : Inventory) (lot : ℕ)
      → open_lot db k q cost origin at now ledger ≡ ok (db', row, lot)
      → Step db db' (arrive k q)
  returned :
      (k : StockKey) (q : ℕ) (drawn_by : DrawnBy) (ledger : LedgerRef)
      (if_never_drawn : Option LotSource) (now : ℕ) (row : Inventory)
      → return_drawn db k q drawn_by ledger if_never_drawn now ≡ ok (db', row)
      → Step db db' (arrive k q)
  deducted :
      (k : StockKey) (q : ℕ) (label : String) (ledger : LedgerRef) (row : Inventory)
      → deduct_stock db k q label ledger ≡ ok (db', row)
      → Step db db' (take k q)
  locked :
      (lines : List StockLine) (rows : List LockedLine)
      → lock_stock db lines ≡ ok (db', rows)
      → Step db db' (pack lines)
  shipped :
      (k : StockKey) (q : ℕ) (ledger : LedgerRef) (row : Inventory)
      → ship_locked_stock db k q ledger ≡ ok (db', row)
      → Step db db' (hand_over k q)
  released :
      (k : StockKey) (q : ℕ) (row : Inventory)
      → release_locked_stock db k q ≡ ok (db', row)
      → Step db db' (unpack k q)
  threshold_set :
      (tenant i n : ℕ) (row : Inventory)
      → update_min_stock db tenant i n ≡ ok (db', row)
      → Step db db' relabel
  line_added :
      (catalogue : Catalogue) (k : StockKey) (row : Inventory)
      → add_product_to_location catalogue db k ≡ ok (db', row)
      → Step db db' relabel
  line_removed :
      (tenant i : ℕ) → remove_product_from_location db tenant i ≡ ok db' → Step db db' relabel

-- The tables after a history, the first event first.
pub data Reach : Db → List ShelfEvent → Db → Type 0 where
  here : {db : Db} → Reach db [] db
  then :
      {db db' db'' : Db} {event : ShelfEvent} {events : List ShelfEvent}
      → Step db db' event
      → Reach db' events db''
      → Reach db (event ∷ events) db''
