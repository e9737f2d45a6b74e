-- ===== src/Movements/Actions.antt =====
-- The actions of StockMovementService: `open`, `close`, `ship`, `receive`, `approveAdjust` and
-- `cancel`, with `charge` of src/modules/suppliers/suppliers.service.ts and credit-warning.ts. Stock,
-- status and debt change in one transaction; the notifications sent after it are left out.
use ikiot_be.Prelude.{
  ℕ, ◌+◌, ◌-◌, ◌*◌, Bool, true, false, not, ◌&&◌, ◌||◌, Option, none, some, List, [], ◌∷◌, map, all,
  any, find?, unique, sum_by, if◌then◌else◌, leb, ltb, ◌==◌, ok, err, ◌>>=◌, ◌>>◌, throw_if,
}
use ikiot_be.Inventory.Tables.{TxType, Db}
use ikiot_be.Inventory.Rows.{update_where, shelf_of}
use ikiot_be.Inventory.Stock.{or_else}
use ikiot_be.Inventory.Lines.{assert_holds_stock}
use ikiot_be.Movements.Tables.{
  MovementType, MovementStatus, draft, pending, opening, closed, in_transit, received, cancelled,
  completed, is_among, final_movement_statuses, LocationEnd, MovementItem, Movement, Supplier, Shop,
  Outcome, of_stock, movement_not_found, location_denied, status_invalid, movement_empty,
  cancel_denied, cancel_status_invalid, received_quantity_required, received_quantity_exceeds,
  receive_empty, not_adjust, counted_quantity_required, no_adjustment, insufficient_on_shelf,
  supplier_not_found, supplier_credit_limit_exceeded,
}
use ikiot_be.Movements.Access.{ShopUser, can_act_at}
use ikiot_be.Movements.Lines.{
  key_of, movement_ledger, end_id, send_lines, ReceivedLine, received_of, received_or_zero,
  is_import, receive_lines, import_cost, record_received, bring_lines_back, adjust_lines,
}

abbrev pub has_movement_id : ℕ → Movement → Bool
has_movement_id i m = m.id == i

-- `findRow`.
abbrev pub find_movement : ℕ → ℕ → List Movement → Option Movement
find_movement tenant i = find? (λ m. m.id == i && m.tenant_id == tenant)

unfoldable pub find_movement_or_throw : ShopUser → Shop → ℕ → Outcome Movement
find_movement_or_throw user shop i = elim (find_movement user.tenant_id i shop.movements) [
  | none ↦ err movement_not_found
  | some m ↦ ok m
]

abbrev pub assert_status : Movement → List MovementStatus → Outcome (Unit {0})
assert_status m allowed = throw_if (not (is_among m.status allowed)) status_invalid

abbrev pub assert_can_act_at : ShopUser → Option LocationEnd → Outcome (Unit {0})
assert_can_act_at user end = throw_if (not (can_act_at user end)) location_denied

-- `isTransferType`.
abbrev pub is_transfer : MovementType → Bool
is_transfer MovementType.import = false
is_transfer MovementType.export = true
is_transfer MovementType.return = true
is_transfer MovementType.adjust = false

abbrev pub put_status : MovementStatus → Movement → Movement
put_status status m = record m { status = status }

-- The UPDATE of a movement by its primary key.
abbrev pub update_movement : Shop → ℕ → (Movement → Movement) → Shop
update_movement shop i f = record shop {
  movements = update_where (has_movement_id i) f shop.movements;
}

-- `assertSourceStock`: a check for the user's sake; the guard of `deductStock` is what holds.
abbrev pub is_covered : Db → ℕ → ℕ → MovementItem → Bool
is_covered db tenant from line =
    leb line.quantity (shelf_of (key_of tenant from line) db.inventories)

unfoldable pub assert_source_stock : Db → Movement → Outcome (Unit {0})
assert_source_stock db m =
    if is_transfer m.movement_type
    then elim m.details [
      | [] ↦ ok tt
      | line ∷ lines ↦ end_id m.from_location >>= λ from.
          throw_if (not (all (is_covered db m.tenant_id from) m.details)) insufficient_on_shelf
    ]
    else ok tt

unfoldable pub open_movement : ShopUser → Shop → ℕ → Outcome Shop
open_movement user shop i = do
  m ← find_movement_or_throw user shop i
  assert_can_act_at user m.from_location
  assert_status m (draft ∷ [])
  assert_source_stock shop.db m
  ok (update_movement shop i (put_status opening))

unfoldable pub close_movement : ShopUser → Shop → ℕ → Outcome Shop
close_movement user shop i = do
  m ← find_movement_or_throw user shop i
  assert_can_act_at user m.from_location
  assert_status m (opening ∷ [])
  elim m.details [ [] ↦ err movement_empty | line ∷ lines ↦ ok tt ]
  assert_source_stock shop.db m
  ok (update_movement shop i (put_status closed))

unfoldable pub ship_movement : ShopUser → Shop → ℕ → Outcome Shop
ship_movement user shop i = do
  m ← find_movement_or_throw user shop i
  assert_can_act_at user m.from_location
  assert_status m (closed ∷ pending ∷ [])
  of_stock (assert_holds_stock (map (λ line. line.product_item) m.details))
  db ←
      if is_transfer m.movement_type
      then send_lines shop.db m.tenant_id m.from_location
          (movement_ledger m.id user.user_id TxType.transfer_out) m.details
      else ok shop.db
  ok (record (update_movement shop i (put_status in_transit)) { db = db })

-- `receivedByItem.values()`, added up.
abbrev pub total_received : List ReceivedLine → ℕ
total_received dto =
    sum_by (λ i. or_else (received_of i dto) 0) (unique (map (λ line. line.product_item_id) dto))

abbrev pub is_reported : List ReceivedLine → MovementItem → Bool
is_reported dto line = elim (received_of line.product_item.id dto) [ none ↦ false | some q ↦ true ]

abbrev pub is_over : List ReceivedLine → MovementItem → Bool
is_over dto line = ltb line.quantity (received_or_zero dto line)

-- `CREDIT_WARNING_RATIO` is 0.75.
unfoldable pub crossed_credit_warning : ℕ → ℕ → ℕ → Bool
crossed_credit_warning debt_after amount credit_limit =
    if credit_limit == 0 || amount == 0
    then false
    else leb (3 * credit_limit) (4 * debt_after)
      && ltb (4 * (debt_after - amount)) (3 * credit_limit)

-- `charge`: the suppliers, and the debt and limit of a warning. The links of items to suppliers that
-- it also writes are left out.
abbrev pub add_debt : ℕ → Supplier → Supplier
add_debt amount s = record s { outstanding_debt = s.outstanding_debt + amount }

unfoldable pub charge : List Supplier → ℕ → ℕ → ℕ → Outcome (List Supplier × Option (ℕ × ℕ))
charge suppliers tenant i amount =
    if amount == 0 then ok (suppliers, none) else elim (find? (λ s. s.id == i) suppliers) [
      | none ↦ err supplier_not_found
      | some s ↦
          let debt = s.outstanding_debt + amount in
          let charged = update_where (λ s. s.id == i) (add_debt amount) suppliers in
          if not (s.tenant_id == tenant)
          then err supplier_not_found
          else (if ltb 0 s.credit_limit && ltb s.credit_limit debt
              then err supplier_credit_limit_exceeded
              else ok (
                charged,
                if crossed_credit_warning debt amount s.credit_limit
                    then some (debt, s.credit_limit)
                    else none,
              ))
    ]

-- The charge of `receive`: for imports that have a supplier.
unfoldable pub charge_import : Shop → Movement → List ReceivedLine → Outcome (List Supplier)
charge_import shop m dto =
    if is_import m.movement_type
    then elim m.from_supplier_id [
      | none ↦ ok shop.suppliers
      | some i ↦ charge shop.suppliers m.tenant_id i (import_cost dto m.details) >>= λ charged.
          ok charged.0
    ]
    else ok shop.suppliers

abbrev pub receivable : MovementType → List MovementStatus
receivable type = if is_import type then pending ∷ in_transit ∷ [] else in_transit ∷ []

abbrev pub put_received : List ReceivedLine → Movement → Movement
put_received dto m = record m { status = received; details = record_received dto m.details }

unfoldable pub receive_movement : ShopUser → Shop → ℕ → List ReceivedLine → ℕ → Outcome Shop
receive_movement user shop i dto now = do
  m ← find_movement_or_throw user shop i
  assert_can_act_at user m.to_location
  assert_status m (receivable m.movement_type)
  of_stock (assert_holds_stock (map (λ line. line.product_item) m.details))
  throw_if (not (all (is_reported dto) m.details)) received_quantity_required
  throw_if (any (is_over dto) m.details) received_quantity_exceeds
  throw_if (total_received dto == 0) receive_empty
  db ← receive_lines shop.db m user.user_id now dto m.details
  suppliers ← charge_import shop m dto
  ok (record (update_movement shop i (put_received dto)) { db = db; suppliers = suppliers })

unfoldable pub counted_lines : List MovementItem → Outcome (List (MovementItem × ℕ))
counted_lines [] = ok []
counted_lines (line ∷ lines) = elim line.received_quantity [
  | none ↦ err counted_quantity_required
  | some counted ↦ counted_lines lines >>= λ rest. ok ((line, counted) ∷ rest)
]

abbrev pub is_adjust : MovementType → Bool
is_adjust MovementType.import = false
is_adjust MovementType.export = false
is_adjust MovementType.return = false
is_adjust MovementType.adjust = true

unfoldable pub approve_adjust : ShopUser → Shop → ℕ → ℕ → Outcome Shop
approve_adjust user shop i now = do
  m ← find_movement_or_throw user shop i
  assert_can_act_at user m.from_location
  throw_if (not (is_adjust m.movement_type)) not_adjust
  assert_status m (pending ∷ [])
  of_stock (assert_holds_stock (map (λ line. line.product_item) m.details))
  changes ← counted_lines m.details
  throw_if (all (λ change. change.1 == change.0.quantity) changes) no_adjustment
  db ← adjust_lines shop.db m user.user_id now changes
  ok (record (update_movement shop i (put_status completed)) { db = db })

abbrev pub returns_stock : Movement → Bool
returns_stock m = is_among m.status (in_transit ∷ []) && is_transfer m.movement_type

unfoldable pub cancel_movement : ShopUser → Shop → ℕ → ℕ → Outcome Shop
cancel_movement user shop i now = do
  m ← find_movement_or_throw user shop i
  throw_if (not (can_act_at user m.from_location) && not (can_act_at user m.to_location))
      cancel_denied
  throw_if (is_among m.status final_movement_statuses) cancel_status_invalid
  db ← if returns_stock m then bring_lines_back shop.db m user.user_id now m.details else ok shop.db
  ok (record (update_movement shop i (put_status cancelled)) { db = db })
