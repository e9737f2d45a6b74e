-- ===== src/Orders/Combo.antt =====
-- src/modules/orders/combo-expansion.ts, `buildOrderItemRows` of src/modules/orders/order-combo.ts and
-- src/modules/products/combo-availability.ts. `walk` mutates one Map of leaves: here it is passed on.
pub mod Pieces
pub mod Rows
pub mod Sets
use ikiot_be.Prelude.{
  ℕ, zero, suc, ◌+◌, ◌-◌, ◌*◌, ◌/◌, Bool, true, false, not, ◌&&◌, ◌||◌, Option, none, some, List,
  [], ◌∷◌, ◌++◌, filter, includes, length, min, if◌then◌else◌, ltb, ◌==◌, Result, ok, err, ◌>>=◌,
  ◌>>◌, throw_if,
}
use ikiot_be.Orders.Journey.{OrderLineType, product, combo, combo_component, service}
use ikiot_be.Orders.Pricing.{PricedLine}

abbrev pub max_combo_depth : ℕ
max_combo_depth = 5

pub record ComboItem : Type 0 where
  pub id : ℕ
  pub sku : Option ℕ
  pub product_name : ℕ
  pub vat : Option ℕ
  pub item_type : OrderLineType

pub record ComboEdge : Type 0 where
  pub quantity : ℕ
  pub component_item : ComboItem

pub record ComboLeaf : Type 0 where
  pub item : ComboItem
  pub quantity : ℕ

-- `out_of_fuel` is no error of the source: `flatten_combo` never returns it.
pub data ComboError : Type 0 where
  nests_too_deep no_components contains_itself out_of_fuel : ComboError

-- `childrenOf`.
abbrev pub ChildrenOf : Type 0
ChildrenOf = ℕ → Option (List ComboEdge)

abbrev pub is_combo : OrderLineType → Bool
is_combo combo = true
is_combo product = false
is_combo combo_component = false
is_combo service = false

abbrev pub is_service : OrderLineType → Bool
is_service service = true
is_service combo = false
is_service product = false
is_service combo_component = false

-- `seen.quantity += quantity`, or a new leaf at the end.
unfoldable pub add_leaf : ComboItem → ℕ → List ComboLeaf → List ComboLeaf
add_leaf child quantity [] = record { item = child; quantity = quantity } ∷ []
add_leaf child quantity (l ∷ ls) =
    if l.item.id == child.id
    then record { item = l.item; quantity = l.quantity + quantity } ∷ ls
    else l ∷ add_leaf child quantity ls

abbrev pub Walk : Type 0
Walk = ℕ → ℕ → List ℕ → List ComboLeaf → Result ComboError (List ComboLeaf)

-- The body of the loop over the edges; `deeper` is the recursive call of `walk`.
unfoldable pub visit :
    Walk → ℕ → List ℕ → ComboEdge → List ComboLeaf → Result ComboError (List ComboLeaf)
visit deeper multiplier path edge leaves =
    let quantity = multiplier * edge.quantity in
    let child = edge.component_item in
    if is_combo child.item_type
    then (throw_if (includes path child.id) contains_itself
        >> deeper child.id quantity (path ++ child.id ∷ []) leaves)
    else ok (add_leaf child quantity leaves)

unfoldable pub visit_all :
    Walk → ℕ → List ℕ → List ComboEdge → List ComboLeaf → Result ComboError (List ComboLeaf)
visit_all deeper multiplier path [] leaves = ok leaves
visit_all deeper multiplier path (edge ∷ edges) leaves =
    visit deeper multiplier path edge leaves >>= visit_all deeper multiplier path edges

abbrev pub components_of : Option (List ComboEdge) → Result ComboError (List ComboEdge)
components_of none = err no_components
components_of (some []) = err no_components
components_of (some (edge ∷ edges)) = ok (edge ∷ edges)

unfoldable pub walk : ℕ → ChildrenOf → Walk
walk zero children_of id multiplier path leaves =
    throw_if (ltb max_combo_depth (length path)) nests_too_deep >> err out_of_fuel
walk (suc fuel) children_of id multiplier path leaves = do
  throw_if (ltb max_combo_depth (length path)) nests_too_deep
  edges ← components_of (children_of id)
  visit_all (walk fuel children_of) multiplier path edges leaves

-- A path has one more combo at each level, and one of more than `max_combo_depth` is refused.
unfoldable pub flatten_combo : ℕ → ChildrenOf → Result ComboError (List ComboLeaf)
flatten_combo combo_id children_of =
    walk (suc max_combo_depth) children_of combo_id 1 (combo_id ∷ []) []

-- A row of `order_items`, all of them `PENDING`.
pub record OrderItemRow : Type 0 where
  pub id : Option ℕ
  pub parent_item_id : Option ℕ
  pub product_item_id : ℕ
  pub line_type : OrderLineType
  pub source_location_id : Option ℕ
  pub quantity : ℕ
  pub list_unit_price : ℕ
  pub unit_price : ℕ
  pub discount_amount : ℕ
  pub line_total : ℕ

pub record SourcedLine : Type 0 where
  pub line : PricedLine
  pub source_location_id : Option ℕ

unfoldable pub line_row : ℕ → (PricedLine → ℕ) → SourcedLine → OrderItemRow
line_row id line_total_of sourced =
    let line = sourced.line in
    let sourceless = is_combo line.item_type || is_service line.item_type in
    record {
      id = some id;
      parent_item_id = none;
      product_item_id = line.product_item_id;
      line_type = line.item_type;
      source_location_id = if sourceless then none else sourced.source_location_id;
      quantity = line.quantity;
      list_unit_price = line.list_unit_price;
      unit_price = line.unit_price;
      discount_amount = line.discount_amount;
      line_total = line_total_of line;
    }

unfoldable pub leaf_row : ℕ → SourcedLine → ComboLeaf → OrderItemRow
leaf_row parent sourced leaf =
    let serves = is_service leaf.item.item_type in
    record {
      id = none;
      parent_item_id = some parent;
      product_item_id = leaf.item.id;
      line_type = if serves then service else combo_component;
      source_location_id = if serves then none else sourced.source_location_id;
      quantity = sourced.line.quantity * leaf.quantity;
      list_unit_price = 0;
      unit_price = 0;
      discount_amount = 0;
      line_total = 0;
    }

unfoldable pub leaf_rows : ℕ → SourcedLine → List ComboLeaf → List OrderItemRow
unfolding leaf_row
leaf_rows parent sourced [] = []
leaf_rows parent sourced (leaf ∷ leaves) =
    leaf_row parent sourced leaf ∷ leaf_rows parent sourced leaves

-- `uuid n` is the identifier drawn for the n-th line; `components` the leaves of each combo.
unfoldable pub build_order_item_rows :
    (ℕ → ℕ) → ℕ → List SourcedLine → (ℕ → List ComboLeaf) → (PricedLine → ℕ) → List OrderItemRow
unfolding line_row leaf_rows
build_order_item_rows uuid n [] components line_total_of = []
build_order_item_rows uuid n (sourced ∷ others) components line_total_of =
    let rest = build_order_item_rows uuid (suc n) others components line_total_of in
    let row = line_row (uuid n) line_total_of sourced in
    if is_combo sourced.line.item_type
    then row ∷ (leaf_rows (uuid n) sourced (components sourced.line.product_item_id) ++ rest)
    else row ∷ rest

-- `holdsStock` of src/common/constants/product-status.ts.
abbrev pub holds_stock : OrderLineType → Bool
holds_stock product = true
holds_stock combo = false
holds_stock combo_component = false
holds_stock service = false

abbrev pub service_only_combo_sets : ℕ
service_only_combo_sets = 9999

-- The least of the quotients, of a list that is not empty.
unfoldable pub min_sets : ComboLeaf → List ComboLeaf → (ℕ → ℕ) → ℕ
min_sets leaf [] shelf = shelf leaf.item.id / leaf.quantity
min_sets leaf (other ∷ others) shelf =
    min (shelf leaf.item.id / leaf.quantity) (min_sets other others shelf)

unfoldable pub combo_sets_available : List ComboLeaf → (ℕ → ℕ) → ℕ
unfolding min_sets
combo_sets_available leaves shelf = elim (filter (λ l. holds_stock l.item.item_type) leaves) [
  | [] ↦ service_only_combo_sets
  | leaf ∷ others ↦ min_sets leaf others shelf
]
