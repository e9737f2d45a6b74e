-- ===== src/Inventory/Lines/Keep.antt =====
-- The routes of a location's lines on consistent tables.
use ikiot_be.Prelude.{
  ◌≢◌, ℕ, ◌+◌, ◌≤◌, ◌<◌, ◌≡◌, refl, Bool, false, none, some, List, [], ◌∷◌, ◌++◌, any, All,
  All-append, arith, ok, Bool-cases, Option-cases, Result-cases, inl, inr,
}
use ikiot_be.Inventory.Tables.{StockKey, key_eq, Inventory, Db}
use ikiot_be.Inventory.Rows.{at_key, update_where, with_rows, find_by_id, find_row, new_row}
use ikiot_be.Inventory.Rows.Guarded.{UniqueKeys, sum_at-append}
use ikiot_be.Inventory.Rows.Lots.{later-IsLots}
use ikiot_be.Inventory.Consistent.{IsConsistent, stock_at, locked_at}
use ikiot_be.Inventory.Stock.Open.{UniqueKeys-append}
use ikiot_be.Inventory.Lines.{
  Catalogue, has_row_id, set_min_stock, update_min_stock, add_product_to_location,
  resolve_locations, find_item, holds_stock,
}

-- The identifiers of the rows of `inventories`: its primary key.
abbrev pub UniqueRowIds : List Inventory → Type 0
UniqueRowIds [] = Unit
UniqueRowIds (r ∷ rs) = All (λ s. s.id ≢ r.id) rs × UniqueRowIds rs

pub record IsIndexed (db : Db) : Type 0 where
  pub ids_unique : UniqueRowIds db.inventories
  pub ids_given : All (λ r. r.id < db.next_id) db.inventories

-- Stock and locks of every key as they were.
abbrev pub SameStock : Db → Db → Type 0
SameStock db db' =
    (j : StockKey)
    → (stock_at j db'.inventories ≡ stock_at j db.inventories)
      × (locked_at j db'.inventories ≡ locked_at j db.inventories)

-- An UPDATE of columns that no sum reads.
module _ (guard : Inventory → Bool) (f : Inventory → Inventory)
    (same : (r : Inventory)
      → ((f r).key ≡ r.key) × ((f r).stock ≡ r.stock) × ((f r).locked_stock ≡ r.locked_stock)) where
  keys_apart :
      (r : Inventory) (rs : List Inventory)
      → All (λ s. key_eq s.key r.key ≡ false) rs
      → All (λ s. key_eq s.key r.key ≡ false) (update_where guard f rs)
  unfolding update_where
  keys_apart r [] h = tt
  keys_apart r (s ∷ ss) h = (ground (arith, h.0, (same s).0), keys_apart r ss h.1)

  pub keeps_keys :
      (rows : List Inventory) → UniqueKeys rows → UniqueKeys (update_where guard f rows)
  unfolding update_where
  keeps_keys [] u = tt
  keeps_keys (r ∷ rs) u = elim (Bool-cases (guard r)) [
    | inl g ↦ rw (g, (same r).0) (keys_apart r rs u.0, keeps_keys rs u.1)
    | inr g ↦ rw g (keys_apart r rs u.0, keeps_keys rs u.1)
  ]

  pub keeps_locks :
      (rows : List Inventory)
      → All (λ r. r.locked_stock ≤ r.stock) rows
      → All (λ r. r.locked_stock ≤ r.stock) (update_where guard f rows)
  unfolding update_where
  keeps_locks [] h = tt
  keeps_locks (r ∷ rs) h = (ground (arith, h.0, same r), keeps_locks rs h.1)

  pub keeps_sums :
      (j : StockKey) (rows : List Inventory)
      → (stock_at j (update_where guard f rows) ≡ stock_at j rows)
        × (locked_at j (update_where guard f rows) ≡ locked_at j rows)
  unfolding update_where
  keeps_sums j [] = (refl, refl)
  keeps_sums j (r ∷ rs) = ground (arith, keeps_sums j rs, same r)

-- Rows whose sums are those of consistent tables.
pub replace_rows :
    (db : Db) (rows : List Inventory) (next : ℕ)
    → IsConsistent db
    → db.next_id ≤ next
    → UniqueKeys rows
    → All (λ r. r.locked_stock ≤ r.stock) rows
    → ((j : StockKey)
        → (stock_at j rows ≡ stock_at j db.inventories)
          × (locked_at j rows ≡ locked_at j db.inventories))
    → IsConsistent (record db { inventories = rows; next_id = next })
replace_rows db rows next c le u fit same = record {
  lots_hold_stock = λ j. omega (arith, c.lots_hold_stock j, (same j).0);
  ledger_sums_to_stock = λ j. rw (same j).0 (c.ledger_sums_to_stock j);
  rows_unique = u;
  locks_fit = fit;
  lots_ok = later-IsLots db.next_id next db.lots le c.lots_ok;
}

threshold_same :
    (n : ℕ) (r : Inventory)
    → ((set_min_stock n r).key ≡ r.key)
      × ((set_min_stock n r).stock ≡ r.stock)
      × ((set_min_stock n r).locked_stock ≡ r.locked_stock)
threshold_same n r = (refl, refl, refl)

-- A new threshold leaves the tables consistent, and changes no stock and no lock.
pub update_min_stock-IsConsistent :
    (db db' : Db) (tenant i n : ℕ) (row : Inventory)
    → IsConsistent db
    → update_min_stock db tenant i n ≡ ok (db', row)
    → IsConsistent db' × SameStock db db'
unfolding update_min_stock
update_min_stock-IsConsistent db db' tenant i n row c e =
    let rows = update_where (has_row_id i) (set_min_stock n) db.inventories in
    let same = threshold_same n in
    let sums =
      λ (j : StockKey). keeps_sums (has_row_id i) (set_min_stock n) same j db.inventories in
    let kept =
      replace_rows db rows db.next_id c (omega arith)
        (keeps_keys (has_row_id i) (set_min_stock n) same db.inventories c.rows_unique)
        (keeps_locks (has_row_id i) (set_min_stock n) same db.inventories c.locks_fit) sums in
    elim (Option-cases (find_by_id tenant i db.inventories)) [
      | inl missing ↦ ground arith
      | inr (r, found) ↦
          let result : with_rows db rows ≡ db' = ground arith in rw (← result) (kept, sums)
    ]

pub add_parts :
    (catalogue : Catalogue) (db db' : Db) (k : StockKey) (row : Inventory)
    → add_product_to_location catalogue db k ≡ ok (db', row)
    → let new = new_row k 0 db.next_id in
      (find_row k db.inventories ≡ none)
      × (row ≡ new)
      × (record db { inventories = db.inventories ++ (new ∷ []); next_id = db.next_id + 1 } ≡ db')
unfolding add_product_to_location
add_parts catalogue db db' k row e =
    elim (Result-cases
      (resolve_locations catalogue.locations k.tenant_id (some k.location_id ∷ []))) [
        | inr (x, refused) ↦ ground arith
        | inl (ls, resolved) ↦
            elim (Option-cases (find_item k.tenant_id k.product_item_id catalogue.product_items)) [
              | inl missing ↦ ground arith
              | inr (item, found) ↦ elim (Bool-cases (holds_stock item.item_type)) [
                | inr refused ↦ ground arith
                | inl holds ↦ elim (Option-cases (find_row k db.inventories)) [
                  | inl fresh ↦ (fresh, ground arith, ground arith)
                  | inr (r, taken) ↦ ground arith
                ]
              ]
            ]
      ]

missing_row :
    (k : StockKey) (rows : List Inventory) → find_row k rows ≡ none → any (at_key k) rows ≡ false
missing_row k [] e = refl
missing_row k (r ∷ rs) e = ground (arith, missing_row k rs)

-- A product that is added to a location leaves the tables consistent; it starts there with no stock
-- and no lock, in a row that no other row shares its goods with, and no other stock changes.
pub add_product_to_location-IsConsistent :
    (catalogue : Catalogue) (db db' : Db) (k : StockKey) (row : Inventory)
    → IsConsistent db
    → add_product_to_location catalogue db k ≡ ok (db', row)
    → IsConsistent db'
      × SameStock db db'
      × (row.stock ≡ 0)
      × (any (at_key k) db.inventories ≡ false)
add_product_to_location-IsConsistent catalogue db db' k row c e =
    let new = new_row k 0 db.next_id in
    let (fresh, added, result) = add_parts catalogue db db' k row e in
    let sums : (j : StockKey)
        → (stock_at j (db.inventories ++ (new ∷ [])) ≡ stock_at j db.inventories)
          × (locked_at j (db.inventories ++ (new ∷ [])) ≡ locked_at j db.inventories) =
      λ j. (
        ground (arith, sum_at-append j (λ r. r.stock) db.inventories new),
        ground (arith, sum_at-append j (λ r. r.locked_stock) db.inventories new),
      ) in
    let miss = missing_row k db.inventories fresh in
    let kept =
      replace_rows db (db.inventories ++ (new ∷ [])) (db.next_id + 1) c (omega arith)
        (UniqueKeys-append k db.inventories new refl miss c.rows_unique)
        (All-append (λ r. r.locked_stock ≤ r.stock) db.inventories (new ∷ []) c.locks_fit
          (omega arith, tt))
        sums in
    rw (← result) (kept, sums, ground arith, miss)
