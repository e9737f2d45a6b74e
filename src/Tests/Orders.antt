-- ===== src/Tests/Orders.antt =====
-- Runs of src/modules/orders: the journey, the combos, the stock check and the access rules.
use ikiot_be.Prelude.{
  ℕ, ◌+◌, ◌≤◌, ◌≡◌, ◌≢◌, ◌↔◌, ◌⊎◌, refl, true, Option, none, some, List, [], ◌∷◌, length, any, All,
  sum_by, ok, err, arith, suc, if◌then◌else◌, ◌==◌,
}
use ikiot_be.Orders.Journey.{
  OrderStatus, confirmed, packed, picked_up, shipping, received, completed, cancelled, returned,
  assert_transition, follow, item_pending, product, combo, service, OrderLineType,
}
use ikiot_be.Orders.Journey.Walks.{
  steps_left, has_left, is_locked, follow_terminates, follow-has_left, follow_locks_first,
}
use ikiot_be.Orders.Pricing.{PricedLine, line_total_of}
use ikiot_be.Orders.Combo.{
  ComboItem, ComboEdge, ComboLeaf, ComboError, out_of_fuel, ChildrenOf, SourcedLine, flatten_combo,
  walk, visit, visit_all, add_leaf, max_combo_depth, build_order_item_rows, combo_sets_available,
}
use ikiot_be.Orders.Combo.Pieces.{pieces, pieces_in, flatten_combo-pieces, flatten_combo_terminates}
use ikiot_be.Orders.Combo.Rows.{taken_by, sold_by, build_order_item_rows-taken}
use ikiot_be.Orders.Combo.Sets.{stocked, Covers, combo_sets_available_iff}
use ikiot_be.Inventory.Tables.{Inventory}
use ikiot_be.Orders.StockCheck.{
  StockCheck, StockCheckStatus, StockCheckLine, StockCheckOrder, enough, partial, line_check,
}
use ikiot_be.Orders.StockCheck.Line.{Packed, Checkable, Available, key_at, line_check_sound}
use ikiot_be.Orders.Access.{
  AuthUser, staff, orders_pack, pack, ship, OrderStepAccess, assignee, assert_order_step_access,
  assignee_claim, claims, is_id,
}
use ikiot_be.Orders.Access.Rights.{Entitled, assert_order_step_access_iff, access_claims}

-- An order that is delivered, paid for and later returned.
abbrev delivery : List OrderStatus
delivery = packed ∷ picked_up ∷ shipping ∷ received ∷ completed ∷ returned ∷ []

follow_terminates_example : length delivery + steps_left returned ≤ steps_left confirmed
unfolding follow assert_transition
follow_terminates_example = follow_terminates confirmed delivery refl

follow-has_left_example : (has_left completed ≡ true) × (completed ≢ cancelled)
unfolding follow assert_transition
follow-has_left_example = follow-has_left shipping (received ∷ completed ∷ []) refl refl

follow_locks_first_example : any is_locked (confirmed ∷ delivery) ≡ true
unfolding follow assert_transition
follow_locks_first_example = follow_locks_first confirmed delivery refl refl refl

-- A bedroom: two bedside tables (3) and a bed set (2), which is a bed (4), a bedside table and the
-- fitting (5).
abbrev item : ℕ → OrderLineType → ComboItem
item i type = record { id = i; sku = none; product_name = i; vat = none; item_type = type }

abbrev edge : ℕ → ComboItem → ComboEdge
edge q child = record { quantity = q; component_item = child }

abbrev bedroom : ChildrenOf
bedroom n =
    if n == 1
    then some (edge 2 (item 3 product) ∷ edge 1 (item 2 combo) ∷ [])
    else (if n == 2
        then some (edge 1 (item 4 product) ∷ edge 1 (item 3 product) ∷ edge 1 (item 5 service) ∷ [])
        else none)

abbrev leaf : ℕ → ComboItem → ComboLeaf
leaf q child = record { item = child; quantity = q }

abbrev bedroom_leaves : List ComboLeaf
bedroom_leaves = leaf 3 (item 3 product) ∷ leaf 1 (item 4 product) ∷ leaf 1 (item 5 service) ∷ []

flatten_bedroom : flatten_combo 1 bedroom ≡ ok bedroom_leaves
unfolding flatten_combo walk visit_all visit add_leaf
flatten_bedroom = refl

flatten_combo-pieces_example : pieces_in 3 bedroom_leaves ≡ pieces (suc max_combo_depth) bedroom 3 1
flatten_combo-pieces_example = flatten_combo-pieces 1 bedroom bedroom_leaves 3 flatten_bedroom

-- A combo that contains itself.
abbrev loop_ : ChildrenOf
loop_ n = some (edge 1 (item n combo) ∷ [])

flatten_loop : flatten_combo 1 loop_ ≡ err ComboError.contains_itself
unfolding flatten_combo walk visit_all visit
flatten_loop = refl

flatten_combo_terminates_example :
    ((leaves : List ComboLeaf) × (flatten_combo 1 loop_ ≡ ok leaves))
    ⊎ ((e : ComboError) × (flatten_combo 1 loop_ ≡ err e) × (e ≢ out_of_fuel))
flatten_combo_terminates_example = flatten_combo_terminates 1 loop_

abbrev shelf : ℕ → ℕ
shelf n = if n == 3 then 10 else 7

combo_sets_available_iff_example :
    (3 ≤ combo_sets_available bedroom_leaves shelf) ↔ All (Covers 3 shelf) (stocked bedroom_leaves)
combo_sets_available_iff_example =
    combo_sets_available_iff 3 shelf bedroom_leaves (leaf 3 (item 3 product))
      (leaf 1 (item 4 product) ∷ []) refl (omega arith, (omega arith, tt))

abbrev priced : ℕ → OrderLineType → ℕ → PricedLine
priced i type q = record {
  product_item_id = i;
  product_name = i;
  sku = none;
  item_type = type;
  vat_rate = none;
  quantity = q;
  list_unit_price = 100_000;
  unit_price = 100_000;
  discount_amount = 0;
}

-- Two bedrooms and one more bedside table.
abbrev sold : List SourcedLine
sold =
    record { line = priced 1 combo 2; source_location_id = some 9 }
    ∷ record { line = priced 3 product 1; source_location_id = some 9 }
    ∷ []

abbrev leaves_of : ℕ → List ComboLeaf
leaves_of n = bedroom_leaves

build_order_item_rows-taken_example :
    sum_by (taken_by 3) (build_order_item_rows (λ n. n) 0 sold leaves_of line_total_of)
    ≡ sum_by (sold_by 3 leaves_of) sold
build_order_item_rows-taken_example =
    build_order_item_rows-taken 3 (λ n. n) 0 sold leaves_of line_total_of

seven_tables : sum_by (sold_by 3 leaves_of) sold ≡ 7
seven_tables = refl

abbrev check : StockCheckStatus → StockCheck
check s = record { status = s; stock = 1; short_quantity = 0 }

abbrev checks : List (Option StockCheck)
checks = some (check enough) ∷ none ∷ some (check partial) ∷ []

abbrev table_line : StockCheckLine
table_line = record {
  id = 1;
  product_item_id = 3;
  source_location_id = some 9;
  line_type = product;
  status = item_pending;
  quantity = 4;
}

abbrev confirmed_order : StockCheckOrder
confirmed_order = record { status = confirmed; items = table_line ∷ [] }

-- Five in stock, of which two are locked.
abbrev on_hand : List Inventory
on_hand =
    record {
      id = 1;
      key = record { tenant_id = 1; product_item_id = 3; location_id = 9 };
      stock = 5;
      locked_stock = 2;
      min_stock = 0;
    }
    ∷ []

line_check_sound_example :
    ((line_check on_hand 1 confirmed_order table_line ≡ none)
      × ¬ ((location : ℕ) × Checkable confirmed_order table_line location))
    ⊎ ((location : ℕ) × Checkable confirmed_order table_line location
        × (c : StockCheck) × (line_check on_hand 1 confirmed_order table_line ≡ some c)
        × ((Packed confirmed × (c.status ≡ enough))
            ⊎ ((confirmed ≡ confirmed)
                × ((c.status ≡ enough) ↔ Available on_hand (key_at 1 location 3) 4))))
line_check_sound_example = line_check_sound on_hand 1 confirmed_order table_line

abbrev packer : AuthUser
packer = record {
  user_id = 7;
  system_role = staff;
  branch_id = none;
  warehouse_id = some 9;
  permissions = orders_pack ∷ [];
}

assert_order_step_access_iff_example :
    ((access : OrderStepAccess) × (assert_order_step_access packer (some 8) pack 9 ≡ ok access))
    ↔ Entitled packer (some 8) pack 9
assert_order_step_access_iff_example = assert_order_step_access_iff packer (some 8) pack 9

access_claims_example :
    (claims (assignee_claim assignee packer) (some 7) ≡ true)
    × ((assignee ≢ assignee)
        ⊎ ((pack ≢ ship) × (claims (assignee_claim assignee packer) (some 8) ≡ is_id (some 8) 7)))
unfolding assert_order_step_access
access_claims_example = access_claims packer (some 7) (some 8) pack 3 assignee refl
