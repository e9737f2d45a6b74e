-- ===== src/Inventory/Stock.antt =====
-- The stock primitives of InventoryService (src/modules/inventories/inventories.service.ts) that
-- orders, stock movements and production requests call inside their transactions. An error rolls
-- the transaction back, so it carries no tables.
pub mod Steps
pub mod Keep
pub mod Lock
pub mod Exact
pub mod Open
use Prim.Native.String.{String}
use ikiot_be.Prelude.{
  ℕ, ◌+◌, Option, none, some, List, [], ◌∷◌, ◌++◌, any, if◌then◌else◌, Result, ok, err, ◌>>=◌, ◌>>◌,
}
use ikiot_be.Prelude.Int.{pos}
use ikiot_be.Inventory.Tables.{
  StockKey, Inventory, InventoryLot, LotSource, LedgerRef, Db, Outcome, ShortStockLine,
  inventory_lock_mismatch, insufficient_stock,
}
use ikiot_be.Inventory.Rows.{
  assert_positive, guarded_update, find_row_or_throw, shelf_of, shelf_covers, lock_covers,
  take_stock, add_lock, drop_lock, ship_lock, increment_stock, update_where, with_rows,
}
use ikiot_be.Inventory.Rows.Ledger.{ledger_row, write_ledger, draw_lots}

-- The optional arguments of `openLot`.
pub record LotOrigin : Type 0 where
  pub source_type : LotSource
  pub supplier_id : Option ℕ
  pub import_item_id : Option ℕ
  pub production_request_item_id : Option ℕ
  pub order_item_id : Option ℕ

-- `now` is the time that `receivedAt` defaults to.
abbrev pub opened_lot : StockKey → ℕ → LotOrigin → ℕ → ℕ → ℕ → InventoryLot
opened_lot k q origin cost at i = record {
  id = i;
  key = k;
  source_type = origin.source_type;
  supplier_id = origin.supplier_id;
  import_item_id = origin.import_item_id;
  production_request_item_id = origin.production_request_item_id;
  order_item_id = origin.order_item_id;
  parent_lot_id = none;
  unit_cost = cost;
  received_quantity = q;
  remaining_quantity = q;
  received_at = at;
}

abbrev pub or_else {ℓ} : {A : Type ℓ} → Option A → A → A
or_else none d = d
or_else (some a) d = a

abbrev pub add_lot : Db → InventoryLot → Db
add_lot db lot = record db { lots = db.lots ++ (lot ∷ []); next_id = db.next_id + 1 }

unfoldable pub open_lot :
    Db
    → StockKey
    → ℕ
    → Option ℕ
    → LotOrigin
    → Option ℕ
    → ℕ
    → LedgerRef
    → Outcome (Db × Inventory × ℕ)
open_lot db k q unit_cost origin received_at now ledger = do
  assert_positive q
  let cost = or_else unit_cost (db.cost_price k.product_item_id)
  let db₁ = increment_stock db k q
  row ← find_row_or_throw k db₁.inventories
  let db₂ = add_lot db₁ (opened_lot k q origin cost (or_else received_at now) db₁.next_id)
  ok (
    write_ledger db₂ (ledger_row k ledger db₁.next_id (pos q) (pos row.stock) cost ∷ []),
    row,
    db₁.next_id,
  )

abbrev pub short_line : String → ℕ → StockKey → List Inventory → ShortStockLine
short_line label q k rows = record { label = label; needed = q; on_shelf = shelf_of k rows }

unfoldable pub deduct_stock : Db → StockKey → ℕ → String → LedgerRef → Outcome (Db × Inventory)
deduct_stock db k q label ledger = do
  assert_positive q
  (db₁, row) ←
      guarded_update k (shelf_covers k q) (take_stock q)
        (insufficient_stock (short_line label q k db.inventories ∷ [])) db
  db₂ ← draw_lots db₁ k q row.stock ledger
  ok (db₂, row)

pub record StockLine : Type 0 where
  pub key : StockKey
  pub quantity : ℕ
  pub label : String

pub record LockedLine : Type 0 where
  pub row : Inventory
  pub quantity : ℕ

-- The loop of `lockStock`: the lines that are locked, and those that the shelf does not cover.
unfoldable pub lock_lines :
    Db → List StockLine → Outcome (Db × List LockedLine × List ShortStockLine)
lock_lines db [] = ok (db, [], [])
lock_lines db (line ∷ lines) =
    let k = line.key in
    let q = line.quantity in
    let rows = update_where (shelf_covers k q) (add_lock q) db.inventories in
    let skip = lock_lines db lines in
    let go = lock_lines (with_rows db rows) lines in
    assert_positive q
    >> (if any (shelf_covers k q) db.inventories
        then (do
          row ← find_row_or_throw k rows
          (db', locked, short) ← go
          ok (db', record { row = row; quantity = q } ∷ locked, short))
        else (do
          (db', locked, short) ← skip
          ok (db', locked, short_line line.label q k db.inventories ∷ short)))

unfoldable pub lock_stock : Db → List StockLine → Outcome (Db × List LockedLine)
lock_stock db lines = do
  (db', locked, short) ← lock_lines db lines
  elim short [ [] ↦ ok (db', locked) | s ∷ ss ↦ err (insufficient_stock (s ∷ ss)) ]

unfoldable pub ship_locked_stock : Db → StockKey → ℕ → LedgerRef → Outcome (Db × Inventory)
ship_locked_stock db k q ledger = do
  assert_positive q
  (db₁, row) ← guarded_update k (lock_covers k q) (ship_lock q) inventory_lock_mismatch db
  db₂ ← draw_lots db₁ k q row.stock ledger
  ok (db₂, row)

unfoldable pub release_locked_stock : Db → StockKey → ℕ → Outcome (Db × Inventory)
release_locked_stock db k q = do
  assert_positive q
  guarded_update k (lock_covers k q) (drop_lock q) inventory_lock_mismatch db
