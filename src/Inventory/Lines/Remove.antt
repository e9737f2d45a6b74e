-- ===== src/Inventory/Lines/Remove.antt =====
-- `removeProductFromLocation` on consistent tables.
use ikiot_be.Prelude.{
  ◌≢◌, ℕ, ◌≤◌, ◌<◌, ◌≡◌, refl, ap, ◌∙◌, true, false, not, none, some, List, [], ◌∷◌, filter, All,
  arith, ltb, ok, Bool-cases, Option-cases, inl, inr,
}
use ikiot_be.Inventory.Tables.{StockKey, key_eq, Inventory, Db}
use ikiot_be.Inventory.Rows.{with_rows, find_by_id}
use ikiot_be.Inventory.Rows.Guarded.{UniqueKeys}
use ikiot_be.Inventory.Consistent.{IsConsistent, stock_at, locked_at}
use ikiot_be.Inventory.Lines.{has_row_id, remove_product_from_location}
use ikiot_be.Inventory.Lines.Keep.{UniqueRowIds, IsIndexed, SameStock, replace_rows}

-- Removing one row by its identifier, where it holds nothing.
module _ (i : ℕ) where
  others_stay :
      (rows : List Inventory)
      → All (λ s. s.id ≢ i) rows
      → filter (λ row. not (has_row_id i row)) rows ≡ rows
  others_stay [] h = refl
  others_stay (r ∷ rs) h = ground (arith, others_stay rs h.1, h.0)

  removed_All {κ} :
      (P : Inventory → Type κ) (rows : List Inventory)
      → All P rows
      → All P (filter (λ row. not (has_row_id i row)) rows)
  removed_All P [] h = tt
  removed_All P (r ∷ rs) h = elim (Bool-cases (has_row_id i r)) [
    | inl hit ↦ rw hit (removed_All P rs h.1)
    | inr miss ↦ rw miss (h.0, removed_All P rs h.1)
  ]

  removed-UniqueKeys :
      (rows : List Inventory)
      → UniqueKeys rows
      → UniqueKeys (filter (λ row. not (has_row_id i row)) rows)
  removed-UniqueKeys [] u = tt
  removed-UniqueKeys (r ∷ rs) u = elim (Bool-cases (has_row_id i r)) [
    | inl hit ↦ rw hit (removed-UniqueKeys rs u.1)
    | inr miss ↦
        rw miss (removed_All (λ s. key_eq s.key r.key ≡ false) rs u.0, removed-UniqueKeys rs u.1)
  ]

  removed-UniqueRowIds :
      (rows : List Inventory)
      → UniqueRowIds rows
      → UniqueRowIds (filter (λ row. not (has_row_id i row)) rows)
  removed-UniqueRowIds [] u = tt
  removed-UniqueRowIds (r ∷ rs) u = elim (Bool-cases (has_row_id i r)) [
    | inl hit ↦ rw hit (removed-UniqueRowIds rs u.1)
    | inr miss ↦ rw miss (removed_All (λ s. s.id ≢ r.id) rs u.0, removed-UniqueRowIds rs u.1)
  ]

  removed_sums :
      (tenant : ℕ) (j : StockKey) (rows : List Inventory) (r : Inventory)
      → UniqueRowIds rows
      → All (λ r. r.locked_stock ≤ r.stock) rows
      → find_by_id tenant i rows ≡ some r
      → r.stock ≡ 0
      → (stock_at j (filter (λ row. not (has_row_id i row)) rows) ≡ stock_at j rows)
        × (locked_at j (filter (λ row. not (has_row_id i row)) rows) ≡ locked_at j rows)
  removed_sums tenant j [] r u fit found z = (refl, refl)
  removed_sums tenant j (x ∷ xs) r u fit found z = elim (Bool-cases (has_row_id i x)) [
    | inl hit ↦
        let mine : x.id ≡ i = ground arith in
        let others : All (λ s. s.id ≢ i) xs = rw mine at u.0 in
        let same : x ≡ r = first_hit tenant x xs r hit others found in
        let nothing : x.stock ≡ 0 = ap (λ y. y.stock) same ∙ z in
        rw (hit, others_stay xs others) (ground (arith, fit.0), ground (arith, fit.0))
    | inr miss ↦ ground (arith, removed_sums tenant j xs r u.1 fit.1 (ground arith) z)
  ]
    where
      absent :
          (tenant : ℕ) (rows : List Inventory)
          → All (λ s. s.id ≢ i) rows
          → find_by_id tenant i rows ≡ none
      absent tenant [] h = refl
      absent tenant (y ∷ ys) h = ground (arith, absent tenant ys h.1, h.0)

      first_hit :
          (tenant : ℕ) (x : Inventory) (xs : List Inventory) (r : Inventory)
          → has_row_id i x ≡ true
          → All (λ s. s.id ≢ i) xs
          → find_by_id tenant i (x ∷ xs) ≡ some r
          → x ≡ r
      first_hit tenant x xs r hit others found = ground (arith, absent tenant xs others)

pub remove_parts :
    (db db' : Db) (tenant i : ℕ)
    → remove_product_from_location db tenant i ≡ ok db'
    → (r : Inventory) × (find_by_id tenant i db.inventories ≡ some r)
      × (r.stock ≡ 0)
      × (with_rows db (filter (λ row. not (has_row_id i row)) db.inventories) ≡ db')
unfolding remove_product_from_location
remove_parts db db' tenant i e = elim (Option-cases (find_by_id tenant i db.inventories)) [
  | inl missing ↦ ground arith
  | inr (r, found) ↦ elim (Bool-cases (ltb 0 r.stock)) [
    | inl left ↦ ground arith
    | inr empty ↦ (r, found, ground arith, ground arith)
  ]
]

-- A product is removed from a location only while no stock is left there, which leaves the tables
-- consistent and every stock and lock as it was.
pub remove_product_from_location-IsConsistent :
    (db db' : Db) (tenant i : ℕ)
    → IsConsistent db
    → IsIndexed db
    → remove_product_from_location db tenant i ≡ ok db'
    → IsConsistent db' × IsIndexed db' × SameStock db db'
remove_product_from_location-IsConsistent db db' tenant i c x e =
    let (r, found, empty, result) = remove_parts db db' tenant i e in
    let rows = filter (λ row. not (has_row_id i row)) db.inventories in
    let sums = λ (j : StockKey).
      removed_sums i tenant j db.inventories r x.ids_unique c.locks_fit found empty in
    let kept =
      replace_rows db rows db.next_id c (omega arith)
        (removed-UniqueKeys i db.inventories c.rows_unique)
        (removed_All i (λ r. r.locked_stock ≤ r.stock) db.inventories c.locks_fit) sums in
    rw (← result) (
      kept,
      record {
        ids_unique = removed-UniqueRowIds i db.inventories x.ids_unique;
        ids_given = removed_All i (λ r. r.id < db.next_id) db.inventories x.ids_given;
      },
      sums,
    )
