-- ===== src/Orders/StockCheck.antt =====
-- src/modules/orders/stock-check.ts, with the severities of src/modules/orders/order-read.constants.ts.
pub mod Worst
pub mod Line
use ikiot_be.Prelude.{
  ℕ, ◌+◌, ◌-◌, Bool, true, false, not, ◌&&◌, ◌||◌, Option, none, some, List, [], ◌∷◌, ◌++◌, find?,
  any, if◌then◌else◌, ◌==◌,
}
use ikiot_be.Inventory.Tables.{Inventory}
use ikiot_be.Inventory.Tables.Keys.{StockKey, key_eq}
use ikiot_be.Orders.Journey.{
  OrderStatus, packed, picked_up, among, unshipped_order_statuses, OrderItemStatus, item_pending,
  shipped, item_cancelled, item_returned, waiting_stock, ready, item_packed, item_delivered,
  OrderLineType, is_stocked,
}

pub data StockCheckStatus : Type 0 where
  enough partial out : StockCheckStatus

pub record StockCheck : Type 0 where
  pub status : StockCheckStatus
  pub stock : ℕ
  pub short_quantity : ℕ

pub record StockCheckLine : Type 0 where
  pub id : ℕ
  pub product_item_id : ℕ
  pub source_location_id : Option ℕ
  pub line_type : OrderLineType
  pub status : OrderItemStatus
  pub quantity : ℕ

pub record StockCheckOrder : Type 0 where
  pub status : OrderStatus
  pub items : List StockCheckLine

-- The shelf is no less than 0, for `locked_stock <= stock` is a CHECK of the table.
unfoldable pub classify_stock : ℕ → ℕ → StockCheck
classify_stock quantity on_shelf =
    let short_quantity = quantity - on_shelf in
    let status = if short_quantity == 0 then enough else (if on_shelf == 0 then out else partial) in
    record { status = status; stock = on_shelf; short_quantity = short_quantity }

abbrev pub severity : StockCheckStatus → ℕ
severity out = 0
severity partial = 1
severity enough = 2

abbrev pub stock_check_severity : List StockCheckStatus
stock_check_severity = out ∷ partial ∷ enough ∷ []

-- `present.has(status)`: a line without a check is `none`.
abbrev pub has_status : StockCheckStatus → Option StockCheck → Bool
has_status s none = false
has_status s (some check) = severity check.status == severity s

unfoldable pub summarize_stock : List (Option StockCheck) → Option StockCheckStatus
summarize_stock checks = find? (λ s. any (has_status s) checks) stock_check_severity

abbrev pub is_pending_item : OrderItemStatus → Bool
is_pending_item item_pending = true
is_pending_item shipped = false
is_pending_item item_cancelled = false
is_pending_item item_returned = false
is_pending_item waiting_stock = false
is_pending_item ready = false
is_pending_item item_packed = false
is_pending_item item_delivered = false

-- A checkable line's source, the place whose shelf is counted.
unfoldable pub checkable_source : StockCheckOrder → StockCheckLine → Option ℕ
checkable_source order line =
    if among unshipped_order_statuses order.status
      && (is_stocked line.line_type && is_pending_item line.status)
    then line.source_location_id
    else none

abbrev pub packed_order_statuses : List OrderStatus
packed_order_statuses = packed ∷ picked_up ∷ []

-- A row that the query reads for the tenant, and that the Map has at the location and the item.
abbrev pub is_at : ℕ → ℕ → ℕ → Inventory → Bool
is_at tenant location item row =
    row.key.tenant_id == tenant
    && row.key.product_item_id == item
    && row.key.location_id == location

-- `onShelf.get(...) ?? 0`.
unfoldable pub shelf_at : List Inventory → ℕ → ℕ → ℕ → ℕ
shelf_at inventories tenant location item = elim (find? (is_at tenant location item) inventories) [
  | none ↦ 0
  | some row ↦ row.stock - row.locked_stock
]

abbrev pub as_enough : StockCheck → StockCheck
as_enough check = record { status = enough; stock = check.stock; short_quantity = 0 }

-- The check of one line, `none` where the Map has none.
unfoldable pub line_check :
    List Inventory → ℕ → StockCheckOrder → StockCheckLine → Option StockCheck
unfolding shelf_at classify_stock checkable_source
line_check inventories tenant order line = elim (checkable_source order line) [
  | none ↦ none
  | some location ↦
      let check =
        classify_stock line.quantity (shelf_at inventories tenant location line.product_item_id) in
      if among packed_order_statuses order.status then some (as_enough check) else some check
]

pub record CheckEntry : Type 0 where
  pub line_id : ℕ
  pub check : StockCheck

unfoldable pub check_lines :
    List Inventory → ℕ → StockCheckOrder → List StockCheckLine → List CheckEntry
unfolding line_check
check_lines inventories tenant order [] = []
check_lines inventories tenant order (line ∷ lines) =
    elim (line_check inventories tenant order line) [
      | none ↦ check_lines inventories tenant order lines
      | some check ↦
          record { line_id = line.id; check = check } ∷ check_lines inventories tenant order lines
    ]

-- The Map's entries in order; line identifiers are primary keys.
unfoldable pub compute_stock_checks : List Inventory → ℕ → List StockCheckOrder → List CheckEntry
unfolding check_lines
compute_stock_checks inventories tenant [] = []
compute_stock_checks inventories tenant (order ∷ orders) =
    check_lines inventories tenant order order.items
    ++ compute_stock_checks inventories tenant orders
