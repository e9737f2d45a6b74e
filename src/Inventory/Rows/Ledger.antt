-- ===== src/Inventory/Rows/Ledger.antt =====
-- Writing ledger rows, drawing lots and the cost of an order line: `writeLedger`, `ledgerRow`,
-- `drawLots`, `refreshLineCost` of InventoryService.
use ikiot_be.Prelude.{
  ℕ, ◌+◌, ◌-◌, Bool, true, false, ◌&&◌, ◌||◌, Option, none, some, List, [], ◌∷◌, ◌++◌, map, filter,
  find?, if◌then◌else◌, ltb, ◌==◌, ok, err,
}
use ikiot_be.Prelude.Int.{ℤ, pos, neg}
use ikiot_be.Inventory.Allocation.{
  LotSlice, DrawableLot, CostRow, plan_draw, running_balances, average_unit_cost,
}
use ikiot_be.Inventory.Tables.{
  StockKey, key_eq, InventoryLot, InventoryTransaction, LedgerRef, is_sale, is_sale_reversal, Db,
  Outcome, inventory_lot_shortage,
}
use ikiot_be.Inventory.Rows.{update_where}

abbrev pub ledger_row : StockKey → LedgerRef → ℕ → ℤ → ℤ → ℕ → InventoryTransaction
ledger_row k ledger lot quantity balance cost = record {
  key = k;
  ledger = ledger;
  lot_id = lot;
  quantity = quantity;
  balance_after = balance;
  unit_cost = cost;
}

unfoldable pub write_ledger : Db → List InventoryTransaction → Db
write_ledger db rows = record db { transactions = db.transactions ++ rows }

-- `orderItemId` of a row, where it has one.
abbrev pub is_line : ℕ → Option ℕ → Bool
is_line i none = false
is_line i (some j) = j == i

cost_row : InventoryTransaction → CostRow
cost_row t = record { quantity = t.quantity; unit_cost = t.unit_cost }

line_rows : Db → ℕ → List InventoryTransaction
line_rows db i =
    filter
      (λ t.
        is_line i t.ledger.order_item_id
        && (is_sale t.ledger.tx_type || is_sale_reversal t.ledger.tx_type))
      db.transactions

unfoldable pub refresh_line_cost : Db → ℕ → Db
unfolding cost_row line_rows
refresh_line_cost db i =
    let cost = average_unit_cost (map cost_row (line_rows db i)) in
    record db { unit_cost_price = λ j. if j == i then cost else db.unit_cost_price j }

-- The SELECT … FOR UPDATE of `drawLots`.
abbrev pub is_selected : StockKey → Option ℕ → InventoryLot → Bool
is_selected k for_item lot =
    key_eq lot.key k && ltb 0 lot.remaining_quantity && elim lot.order_item_id [
      | none ↦ true
      | some j ↦ elim for_item [ none ↦ false | some i ↦ j == i ]
    ]

abbrev pub drawable : InventoryLot → DrawableLot
drawable lot = record {
  id = lot.id;
  remaining_quantity = lot.remaining_quantity;
  received_at = lot.received_at;
  order_item_id = lot.order_item_id;
}

abbrev pub take_from_lot : ℕ → InventoryLot → InventoryLot
take_from_lot q lot = record lot { remaining_quantity = lot.remaining_quantity - q }

abbrev pub has_id : ℕ → InventoryLot → Bool
has_id i lot = lot.id == i

-- One UPDATE for each slice.
unfoldable pub take_from_lots : List LotSlice → List InventoryLot → List InventoryLot
take_from_lots [] lots = lots
take_from_lots (s ∷ slices) lots =
    take_from_lots slices (update_where (has_id s.lot_id) (take_from_lot s.quantity) lots)

abbrev pub cost_of : ℕ → List InventoryLot → ℕ
cost_of i lots = elim (find? (has_id i) lots) [ none ↦ 0 | some lot ↦ lot.unit_cost ]

-- The ledger rows of a draw, each slice beside its balance.
unfoldable pub draw_rows :
    StockKey → LedgerRef → List InventoryLot → List LotSlice → List ℤ → List InventoryTransaction
draw_rows k ledger lots (s ∷ slices) (balance ∷ balances) =
    ledger_row k ledger s.lot_id (neg (pos s.quantity)) balance (cost_of s.lot_id lots)
    ∷ draw_rows k ledger lots slices balances
draw_rows k ledger lots _ _ = []

-- `if (ledger.type === SALE && orderItemId) refreshLineCost`.
abbrev pub refresh_if : Bool → Option ℕ → Db → Db
refresh_if test none db = db
refresh_if test (some i) db = if test then refresh_line_cost db i else db

-- The writes of `drawLots`, once the slices are planned.
unfoldable pub write_draw : Db → StockKey → ℕ → ℕ → LedgerRef → List LotSlice → Db
write_draw db k quantity stock_after ledger slices =
    let lots = filter (is_selected k ledger.order_item_id) db.lots in
    let balances =
      running_balances (pos (stock_after + quantity)) (map (λ s. neg (pos s.quantity)) slices) in
    let drawn = record db { lots = take_from_lots slices db.lots } in
    refresh_if (is_sale ledger.tx_type) ledger.order_item_id
      (write_ledger drawn (draw_rows k ledger lots slices balances))

-- The lots of the SELECT, as `planDraw` takes them.
abbrev pub offered : Db → StockKey → Option ℕ → List DrawableLot
offered db k for_item = map drawable (filter (is_selected k for_item) db.lots)

unfoldable pub draw_lots : Db → StockKey → ℕ → ℕ → LedgerRef → Outcome Db
draw_lots db k quantity stock_after ledger =
    elim (plan_draw (offered db k ledger.order_item_id) quantity ledger.order_item_id) [
      | none ↦ err inventory_lot_shortage
      | some slices ↦ ok (write_draw db k quantity stock_after ledger slices)
    ]
