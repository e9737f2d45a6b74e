-- ===== src/Movements/Lines.antt =====
-- The loops of `ship`, `receive`, `approveAdjust` and `cancel` over the lines of a movement, each
-- inside the transaction of its action.
use ikiot_be.Prelude.{
  ℕ, ◌+◌, ◌-◌, ◌*◌, Bool, true, false, Option, none, some, List, [], ◌∷◌, if◌then◌else◌, ltb, ◌==◌,
  ok, err, ◌>>=◌,
}
use ikiot_be.Inventory.Tables.{StockKey, Inventory, TxType, RefType, LotSource, LedgerRef, Db}
use ikiot_be.Inventory.Rows.{find_row}
use ikiot_be.Inventory.Stock.{LotOrigin, or_else, open_lot, deduct_stock}
use ikiot_be.Inventory.Return.{DrawnBy, return_drawn}
use ikiot_be.Movements.Tables.{
  Movement, MovementItem, MovementType, LocationEnd, Outcome, of_stock, adjust_negative,
  no_such_end,
}

abbrev pub key_of : ℕ → ℕ → MovementItem → StockKey
key_of tenant location line = record {
  tenant_id = tenant;
  product_item_id = line.product_item.id;
  location_id = location;
}

-- The ledger rows of movement `i`, written for `user`. The note of a cancellation is left out.
abbrev pub movement_ledger : ℕ → ℕ → TxType → LedgerRef
movement_ledger i user type = record {
  tx_type = type;
  reference_type = RefType.stock_movement;
  reference_id = i;
  created_by_id = some user;
  note = none;
  order_item_id = none;
}

-- `.id` of an end that the code takes to be there.
abbrev pub end_id : Option LocationEnd → Outcome ℕ
end_id none = err no_such_end
end_id (some location) = ok location.id

-- The loop of `ship`.
unfoldable pub send_lines : Db → ℕ → Option LocationEnd → LedgerRef → List MovementItem → Outcome Db
send_lines db tenant source ledger [] = ok db
send_lines db tenant source ledger (line ∷ lines) = do
  from ← end_id source
  (db₁, after) ←
      of_stock (deduct_stock db (key_of tenant from line) line.quantity line.label ledger)
  send_lines db₁ tenant source ledger lines

-- `new Map(dto.details.map(…))`: of two entries for an item the later one counts.
pub record ReceivedLine : Type 0 where
  pub product_item_id : ℕ
  pub received_quantity : ℕ

unfoldable pub received_of : ℕ → List ReceivedLine → Option ℕ
received_of i [] = none
received_of i (line ∷ lines) = elim (received_of i lines) [
  | some q ↦ some q
  | none ↦ if line.product_item_id == i then some line.received_quantity else none
]

abbrev pub received_or_zero : List ReceivedLine → MovementItem → ℕ
received_or_zero dto line = or_else (received_of line.product_item.id dto) 0

abbrev pub import_origin : Movement → MovementItem → LotOrigin
import_origin m line = record {
  source_type = LotSource.supplier;
  supplier_id = m.from_supplier_id;
  import_item_id = some line.id;
  production_request_item_id = none;
  order_item_id = none;
}

abbrev pub is_import : MovementType → Bool
is_import MovementType.import = true
is_import MovementType.export = false
is_import MovementType.return = false
is_import MovementType.adjust = false

-- What one line with a quantity above 0 writes when it is received.
unfoldable pub receive_line : Db → Movement → ℕ → ℕ → ℕ → MovementItem → ℕ → Outcome Db
receive_line db m to user now line quantity =
    let k = key_of m.tenant_id to line in
    if is_import m.movement_type
    then (do
      (db₁, row, lot) ← of_stock (
          open_lot db k quantity line.import_price (import_origin m line) none now
            (movement_ledger m.id user TxType.import))
      ok db₁)
    else (do
      (db₁, row) ← of_stock (
          return_drawn db k quantity (DrawnBy.document RefType.stock_movement m.id)
            (movement_ledger m.id user TxType.transfer_in) (some LotSource.opening) now)
      ok db₁)

-- The loop of `receive` over the stock, and the cost of what an import brought.
unfoldable pub receive_lines :
    Db → Movement → ℕ → ℕ → List ReceivedLine → List MovementItem → Outcome Db
receive_lines db m user now dto [] = ok db
receive_lines db m user now dto (line ∷ lines) =
    let quantity = received_or_zero dto line in
    let skip = receive_lines db m user now dto lines in
    if quantity == 0 then skip else (do
      to ← end_id m.to_location
      db₁ ← receive_line db m to user now line quantity
      receive_lines db₁ m user now dto lines)

unfoldable pub import_cost : List ReceivedLine → List MovementItem → ℕ
import_cost dto [] = 0
import_cost dto (line ∷ lines) =
    received_or_zero dto line * or_else line.import_price 0 + import_cost dto lines

-- `receivedQuantity` of every line.
unfoldable pub record_received : List ReceivedLine → List MovementItem → List MovementItem
record_received dto [] = []
record_received dto (line ∷ lines) =
    record line { received_quantity = some (received_or_zero dto line) } ∷ record_received dto lines

-- The loop of `cancel` over a transfer on its way: the whole of every line comes back.
unfoldable pub bring_lines_back : Db → Movement → ℕ → ℕ → List MovementItem → Outcome Db
bring_lines_back db m user now [] = ok db
bring_lines_back db m user now (line ∷ lines) = do
  from ← end_id m.from_location
  (db₁, row) ← of_stock (
      return_drawn db (key_of m.tenant_id from line) line.quantity
        (DrawnBy.document RefType.stock_movement m.id)
        (movement_ledger m.id user TxType.transfer_in) (some LotSource.opening) now)
  bring_lines_back db₁ m user now lines

abbrev pub adjustment_origin : LotOrigin
adjustment_origin = record {
  source_type = LotSource.adjustment;
  supplier_id = none;
  import_item_id = none;
  production_request_item_id = none;
  order_item_id = none;
}

-- What is in stock at a key, packed goods included.
abbrev pub stock_of : StockKey → List Inventory → ℕ
stock_of k rows = elim (find_row k rows) [ none ↦ 0 | some r ↦ r.stock ]

-- One line of a stocktake: `counted` pieces were found where `line.quantity` were recorded.
unfoldable pub adjust_line : Db → Movement → ℕ → ℕ → ℕ → MovementItem → ℕ → Outcome Db
adjust_line db m from user now line counted =
    let k = key_of m.tenant_id from line in
    let ledger = movement_ledger m.id user TxType.adjust in
    if ltb line.quantity counted
    then (do
      (db₁, row, lot) ←
          of_stock (open_lot db k (counted - line.quantity) none adjustment_origin none now ledger)
      ok db₁)
    else (if ltb (stock_of k db.inventories) (line.quantity - counted)
        then err adjust_negative
        else (do
          (db₁, row) ← of_stock (deduct_stock db k (line.quantity - counted) line.label ledger)
          ok db₁))

-- The loop of `approveAdjust`, over lines that all have a count.
unfoldable pub adjust_lines : Db → Movement → ℕ → ℕ → List (MovementItem × ℕ) → Outcome Db
adjust_lines db m user now [] = ok db
adjust_lines db m user now ((line, counted) ∷ lines) =
    let skip = adjust_lines db m user now lines in
    if counted == line.quantity then skip else (do
      from ← end_id m.from_location
      db₁ ← adjust_line db m from user now line counted
      adjust_lines db₁ m user now lines)
