-- ===== src/Tests/Stock.antt =====
-- Runs of src/modules/inventories: a shop that receives goods, sells, packs and ships them.
use ikiot_be.Prelude.{
  ℕ, ◌+◌, ◌-◌, ◌≤◌, ◌<◌, ◌≡◌, ◌≢◌, ◌⊎◌, ◌++◌, refl, Option, none, some, List, [], ◌∷◌, map, length,
  All, ok, err, sort_by,
}
use ikiot_be.Inventory.Allocation.{
  LotSlice, DrawableLot, DrawnLot, plan_draw, plan_return, draw_queue, take_slices, offer,
}
use ikiot_be.Inventory.Allocation.Greedy.{total, taken}
use ikiot_be.Inventory.Allocation.Draw.{
  eligible_total, eligible_of, outstanding_total, outstanding_of, plan_draw_outcome,
  plan_return_outcome,
}
use ikiot_be.Inventory.Allocation.Fifo.{IsQueue, plan_draw_fifo}
use ikiot_be.Inventory.Tables.Keys.{key_eq}
use ikiot_be.Inventory.Tables.{
  StockKey, quantity_must_be_positive, insufficient_stock, inventory_lot_shortage, Outcome, TxType,
  RefType, LotSource, LedgerRef, Db, Inventory,
}
use ikiot_be.Inventory.Consistent.{IsConsistent, stock_at, locked_at}
use ikiot_be.Inventory.Stock.{
  LotOrigin, StockLine, LockedLine, open_lot, deduct_stock, lock_lines, lock_stock,
  ship_locked_stock, release_locked_stock, short_line,
}
use ikiot_be.Inventory.Stock.Keep.{
  Moves, deduct_stock-IsConsistent, ship_locked_stock-IsConsistent,
  release_locked_stock-IsConsistent,
}
use ikiot_be.Inventory.Stock.Lock.{lock_stock-IsConsistent, demand}
use ikiot_be.Inventory.Stock.Open.{Receives, open_lot-IsConsistent}
use ikiot_be.Inventory.Stock.Exact.{deduct_stock_outcome}
use ikiot_be.Inventory.Rows.{increment_stock, guarded_update, update_where}
use ikiot_be.Inventory.Rows.Ledger.{offered, write_ledger, draw_lots}
use ikiot_be.Inventory.Rows.Guarded.{entry}

abbrev drawable : ℕ → ℕ → ℕ → Option ℕ → DrawableLot
drawable i left at own = record {
  id = i;
  remaining_quantity = left;
  received_at = at;
  order_item_id = own;
}

-- A lot made for line 5, one for line 6 and two that are shared.
abbrev lots : List DrawableLot
lots =
    drawable 1 4 30 none
    ∷ drawable 2 3 10 (some 6)
    ∷ drawable 3 2 20 none
    ∷ drawable 4 1 40 (some 5)
    ∷ []

plan_draw_outcome_example :
    ((plan_draw lots 5 (some 5) ≡ none) × (eligible_total (some 5) lots < 5))
    ⊎ ((slices : List LotSlice) × (plan_draw lots 5 (some 5) ≡ some slices)
        × (total slices ≡ 5)
        × All (λ s. 0 < s.quantity) slices
        × ((i : ℕ) → taken i slices ≤ eligible_of i (some 5) lots))
plan_draw_outcome_example = plan_draw_outcome lots 5 (some 5)

abbrev drawn : List DrawnLot
drawn =
    record { lot_id = 1; drawn = 3; returned = 1 }
    ∷ record { lot_id = 2; drawn = 2; returned = 0 }
    ∷ []

plan_return_outcome_example :
    ((plan_return drawn 3 ≡ none) × (outstanding_total drawn < 3))
    ⊎ ((slices : List LotSlice) × (plan_return drawn 3 ≡ some slices)
        × (total slices ≡ 3)
        × All (λ s. 0 < s.quantity) slices
        × ((i : ℕ) → taken i slices ≤ outstanding_of i drawn))
plan_return_outcome_example = plan_return_outcome drawn 3

abbrev front : List DrawableLot
front = drawable 4 1 40 (some 5) ∷ []

abbrev back : List DrawableLot
back = drawable 3 2 20 none ∷ drawable 1 4 30 none ∷ []

abbrev slices : List LotSlice
slices =
    record { lot_id = 4; quantity = 1 }
    ∷ record { lot_id = 3; quantity = 2 }
    ∷ record { lot_id = 1; quantity = 2 }
    ∷ []

plan_draw_fifo_example :
    let from_front = (take_slices (map offer front) 5).0 in
    let held = total (map offer front) in
    (slices ≡ from_front ++ (take_slices (map offer back) (5 - held)).0)
    × ((5 ≤ held) ⊎ (total from_front ≡ held))
    × IsQueue lots (some 5) (front ++ back)
unfolding draw_queue sort_by plan_draw take_slices
plan_draw_fifo_example = plan_draw_fifo lots front back 5 (some 5) slices refl refl

abbrev pub empty_shop : Db
empty_shop = record {
  inventories = [];
  lots = [];
  transactions = [];
  next_id = 1;
  cost_price = λ p. 100;
  unit_cost_price = λ i. none;
}

pub empty_shop-IsConsistent : IsConsistent empty_shop
empty_shop-IsConsistent = record {
  lots_hold_stock = λ k. refl;
  ledger_sums_to_stock = λ k. refl;
  rows_unique = tt;
  locks_fit = tt;
  lots_ok = record { unique = tt; known = tt; within = tt };
}

abbrev pub key : StockKey
key = record { tenant_id = 1; product_item_id = 3; location_id = 9 }

abbrev blank_row : Inventory
blank_row = record { id = 0; key = key; stock = 0; locked_stock = 0; min_stock = 0 }

abbrev pub ledger : TxType → LedgerRef
ledger type = record {
  tx_type = type;
  reference_type = RefType.order;
  reference_id = 1;
  created_by_id = none;
  note = none;
  order_item_id = none;
}

abbrev pub origin : LotOrigin
origin = record {
  source_type = LotSource.supplier;
  supplier_id = none;
  import_item_id = none;
  production_request_item_id = none;
  order_item_id = none;
}

-- The tables and the row of a run, or the empty shop's.
abbrev pub tables_of : Outcome (Db × Inventory) → Db
tables_of (ok (db, row)) = db
tables_of (err e) = empty_shop

abbrev pub row_of : Outcome (Db × Inventory) → Inventory
row_of (ok (db, row)) = row
row_of (err e) = blank_row

abbrev pub opened : Outcome (Db × Inventory × ℕ) → Outcome (Db × Inventory)
opened (ok (db, row, lot)) = ok (db, row)
opened (err e) = err e

abbrev pub receipt : Outcome (Db × Inventory × ℕ)
receipt = open_lot empty_shop key 5 (some 700) origin none 10 (ledger TxType.import)

abbrev pub stocked_shop : Db
stocked_shop = tables_of (opened receipt)

open_lot-IsConsistent_example :
    IsConsistent stocked_shop
    × (0 < 5)
    × All (λ l. l.id ≢ 2) empty_shop.lots
    × ((j : StockKey)
        → (stock_at j stocked_shop.inventories ≡ stock_at j empty_shop.inventories + entry key j 5)
          × (locked_at j stocked_shop.inventories ≡ locked_at j empty_shop.inventories))
    × Receives empty_shop stocked_shop key 5 origin (ledger TxType.import) 2
unfolding open_lot increment_stock key_eq
open_lot-IsConsistent_example =
    open_lot-IsConsistent empty_shop stocked_shop key 5 (some 700) origin none 10
      (ledger TxType.import) (row_of (opened receipt)) 2 empty_shop-IsConsistent refl

stocked_shop-IsConsistent : IsConsistent stocked_shop
unfolding open_lot increment_stock key_eq
stocked_shop-IsConsistent =
    (open_lot-IsConsistent empty_shop stocked_shop key 5 (some 700) origin none 10
      (ledger TxType.import) (row_of (opened receipt)) 2 empty_shop-IsConsistent refl).0

abbrev pub sale : Outcome (Db × Inventory)
sale = deduct_stock stocked_shop key 2 "table" (ledger TxType.sale)

deduct_stock-IsConsistent_example :
    IsConsistent (tables_of sale) × Moves key 2 0 0 stocked_shop (tables_of sale)
unfolding deduct_stock open_lot increment_stock key_eq guarded_update write_ledger update_where
    draw_lots plan_draw take_slices draw_queue sort_by
deduct_stock-IsConsistent_example =
    deduct_stock-IsConsistent stocked_shop (tables_of sale) key 2 "table" (ledger TxType.sale)
      (row_of sale) stocked_shop-IsConsistent refl

abbrev nine : ℕ
nine = 9

deduct_stock_outcome_example :
    let held = eligible_total none (offered stocked_shop key none) in
    let in_stock = stock_at key stocked_shop.inventories in
    let locked = locked_at key stocked_shop.inventories in
    ((nine ≡ 0)
      × (deduct_stock stocked_shop key 9 "table" (ledger TxType.sale)
          ≡ err quantity_must_be_positive))
    ⊎ ((0 < 9)
        × (in_stock < locked + 9)
        × (deduct_stock stocked_shop key 9 "table" (ledger TxType.sale)
            ≡ err (insufficient_stock (short_line "table" 9 key stocked_shop.inventories ∷ []))))
    ⊎ ((0 < 9)
        × (locked + 9 ≤ in_stock)
        × (held < 9)
        × (deduct_stock stocked_shop key 9 "table" (ledger TxType.sale)
            ≡ err inventory_lot_shortage))
    ⊎ ((0 < 9)
        × (locked + 9 ≤ in_stock)
        × (9 ≤ held)
        × (db' : Db) × (row : Inventory) × (deduct_stock stocked_shop key 9 "table"
              (ledger TxType.sale)
            ≡ ok (db', row)))
deduct_stock_outcome_example =
    deduct_stock_outcome stocked_shop key 9 "table" (ledger TxType.sale) stocked_shop-IsConsistent

abbrev pub lines : List StockLine
lines =
    record { key = key; quantity = 2; label = "table" }
    ∷ record { key = key; quantity = 1; label = "table" }
    ∷ []

abbrev pub packing : Outcome (Db × List LockedLine)
packing = lock_stock stocked_shop lines

abbrev pub locked_tables : Outcome (Db × List LockedLine) → Db
locked_tables (ok (db, rows)) = db
locked_tables (err e) = empty_shop

abbrev pub locked_rows : Outcome (Db × List LockedLine) → List LockedLine
locked_rows (ok (db, rows)) = rows
locked_rows (err e) = []

abbrev pub packed_shop : Db
packed_shop = locked_tables packing

lock_stock-IsConsistent_example :
    IsConsistent packed_shop
    × ((j : StockKey) → stock_at j packed_shop.inventories ≡ stock_at j stocked_shop.inventories)
    × (length (locked_rows packing) ≡ 2)
    × ((j : StockKey)
        → locked_at j packed_shop.inventories
          ≡ locked_at j stocked_shop.inventories + demand j lines)
unfolding lock_stock open_lot increment_stock key_eq lock_lines write_ledger update_where
lock_stock-IsConsistent_example =
    lock_stock-IsConsistent lines stocked_shop packed_shop (locked_rows packing)
      stocked_shop-IsConsistent refl

packed_shop-IsConsistent : IsConsistent packed_shop
unfolding lock_stock open_lot increment_stock key_eq lock_lines write_ledger update_where
packed_shop-IsConsistent =
    (lock_stock-IsConsistent lines stocked_shop packed_shop (locked_rows packing)
      stocked_shop-IsConsistent refl).0

abbrev shipment : Outcome (Db × Inventory)
shipment = ship_locked_stock packed_shop key 2 (ledger TxType.sale)

ship_locked_stock-IsConsistent_example :
    IsConsistent (tables_of shipment) × Moves key 2 2 0 packed_shop (tables_of shipment)
unfolding ship_locked_stock lock_stock open_lot increment_stock key_eq guarded_update lock_lines
    write_ledger update_where draw_lots plan_draw take_slices draw_queue sort_by
ship_locked_stock-IsConsistent_example =
    ship_locked_stock-IsConsistent packed_shop (tables_of shipment) key 2 (ledger TxType.sale)
      (row_of shipment) packed_shop-IsConsistent refl

abbrev release : Outcome (Db × Inventory)
release = release_locked_stock packed_shop key 2

release_locked_stock-IsConsistent_example :
    IsConsistent (tables_of release) × Moves key 0 2 0 packed_shop (tables_of release)
unfolding release_locked_stock lock_stock open_lot increment_stock key_eq guarded_update lock_lines
    write_ledger update_where
release_locked_stock-IsConsistent_example =
    release_locked_stock-IsConsistent packed_shop (tables_of release) key 2 (row_of release)
      packed_shop-IsConsistent refl
