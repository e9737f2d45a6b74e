-- ===== src/Inventory/Lines.antt =====
-- The lines that a location keeps: `updateMinStock`, `addProductToLocation` and
-- `removeProductFromLocation` of src/modules/inventories/inventories.service.ts, with
-- `assertHoldsStock` of stockable.ts and `resolveLocations` of src/common/dto/location-ref.dto.ts.
pub mod Keep
pub mod Remove
use ikiot_be.Prelude.{
  ℕ, ◌+◌, ◌≡◌, Bool, true, false, not, ◌&&◌, Option, none, some, List, [], ◌∷◌, ◌++◌, filter, find?,
  any, includes, length, unique, if◌then◌else◌, ltb, ◌==◌, Result, ok, err, ◌>>=◌, ◌>>◌, throw_if,
}
use ikiot_be.Inventory.Tables.{
  StockKey, Inventory, Db, Outcome, location_not_found, product_item_not_found, item_holds_no_stock,
  inventory_already_at_location, inventory_still_has_stock,
}
use ikiot_be.Inventory.Rows.{
  at_key, find_row, find_by_id_or_throw, new_row, update_where, with_rows,
}

-- `locations` and `product_items`, as far as these routes read them.
pub data ProductItemType : Type 0 where
  product combo service : ProductItemType

pub record Location : Type 0 where
  pub id : ℕ
  pub tenant_id : ℕ

pub record ProductItem : Type 0 where
  pub id : ℕ
  pub tenant_id : ℕ
  pub item_type : ProductItemType

pub record Catalogue : Type 0 where
  pub locations : List Location
  pub product_items : List ProductItem

-- `holdsStock` of src/common/constants/product-status.ts.
abbrev pub holds_stock : ProductItemType → Bool
holds_stock product = true
holds_stock combo = false
holds_stock service = false

-- `assertHoldsStock`.
abbrev pub assert_holds_stock : List ProductItem → Outcome (Unit {0})
assert_holds_stock items = elim (filter (λ item. not (holds_stock item.item_type)) items) [
  | [] ↦ ok tt
  | item ∷ others ↦ err item_holds_no_stock
]

-- `ids.filter((id) => !!id)`.
unfoldable pub given_ids : List (Option ℕ) → List ℕ
given_ids [] = []
given_ids (none ∷ ids) = given_ids ids
given_ids (some i ∷ ids) = i ∷ given_ids ids

unfoldable pub resolve_locations : List Location → ℕ → List (Option ℕ) → Outcome (List Location)
resolve_locations locations tenant ids =
    let wanted = unique (given_ids ids) in
    let rows = filter (λ l. l.tenant_id == tenant && includes wanted l.id) locations in
    if length wanted == 0
    then ok []
    else (if length rows == length wanted then ok rows else err location_not_found)

abbrev pub find_item : ℕ → ℕ → List ProductItem → Option ProductItem
find_item tenant i = find? (λ item. item.id == i && item.tenant_id == tenant)

abbrev pub has_row_id : ℕ → Inventory → Bool
has_row_id i row = row.id == i

abbrev pub set_min_stock : ℕ → Inventory → Inventory
set_min_stock n row = record row { min_stock = n }

unfoldable pub update_min_stock : Db → ℕ → ℕ → ℕ → Outcome (Db × Inventory)
update_min_stock db tenant i n = do
  row ← find_by_id_or_throw tenant i db.inventories
  ok (
    with_rows db (update_where (has_row_id i) (set_min_stock n) db.inventories),
    set_min_stock n row,
  )

unfoldable pub add_product_to_location : Catalogue → Db → StockKey → Outcome (Db × Inventory)
add_product_to_location catalogue db k = do
  locations ← resolve_locations catalogue.locations k.tenant_id (some k.location_id ∷ [])
  item ← elim (find_item k.tenant_id k.product_item_id catalogue.product_items) [
    | none ↦ err product_item_not_found
    | some item ↦ ok item
  ]
  assert_holds_stock (item ∷ [])
  elim (find_row k db.inventories) [
    | some existing ↦ err inventory_already_at_location
    | none ↦
        let row = new_row k 0 db.next_id in
        ok (record db { inventories = db.inventories ++ (row ∷ []); next_id = db.next_id + 1 }, row)
  ]

unfoldable pub remove_product_from_location : Db → ℕ → ℕ → Outcome Db
remove_product_from_location db tenant i = do
  existing ← find_by_id_or_throw tenant i db.inventories
  throw_if (ltb 0 existing.stock) (inventory_still_has_stock existing.stock)
  ok (with_rows db (filter (λ row. not (has_row_id i row)) db.inventories))
