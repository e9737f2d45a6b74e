-- ===== src/Inventory/History/Indexed.antt =====
-- The primary key of `inventories` under the statements of inventories.service.ts.
use ikiot_be.Prelude.{
  ◌≢◌, ℕ, ◌+◌, ◌≤◌, ◌<◌, ◌≡◌, refl, Bool, List, [], ◌∷◌, ◌++◌, any, All, All-append, arith, ok,
  Bool-cases, Option-cases, inl, inr,
}
use ikiot_be.Inventory.Tables.{StockKey, Inventory, Db, InventoryError}
use ikiot_be.Inventory.Rows.{
  update_where, guarded_update, with_rows, find_row, increment_stock, at_key, add_stock, new_row,
}
use ikiot_be.Inventory.Rows.Guarded.{All-update_where}
use ikiot_be.Inventory.Lines.Keep.{UniqueRowIds, IsIndexed}

module _ (guard : Inventory → Bool) (f : Inventory → Inventory)
    (same_id : (r : Inventory) → (f r).id ≡ r.id) where
  ids_apart :
      (i : ℕ) (rows : List Inventory)
      → All (λ s. s.id ≢ i) rows
      → All (λ s. s.id ≢ i) (update_where guard f rows)
  unfolding update_where
  ids_apart i [] h = tt
  ids_apart i (r ∷ rs) h = (ground (arith, h.0, same_id r), ids_apart i rs h.1)

  update_where-UniqueRowIds :
      (rows : List Inventory) → UniqueRowIds rows → UniqueRowIds (update_where guard f rows)
  unfolding update_where
  update_where-UniqueRowIds [] u = tt
  update_where-UniqueRowIds (r ∷ rs) u = elim (Bool-cases (guard r)) [
    | inl g ↦ rw (g, same_id r) (ids_apart r.id rs u.0, update_where-UniqueRowIds rs u.1)
    | inr g ↦ rw g (ids_apart r.id rs u.0, update_where-UniqueRowIds rs u.1)
  ]

  pub update_where-IsIndexed :
      (db : Db) → IsIndexed db → IsIndexed (with_rows db (update_where guard f db.inventories))
  update_where-IsIndexed db x = record {
    ids_unique = update_where-UniqueRowIds db.inventories x.ids_unique;
    ids_given =
        All-update_where (λ r. r.id < db.next_id) guard f db.inventories
          (λ r g known. rw (same_id r) known) x.ids_given;
  }

  pub guarded_update_rows :
      (k : StockKey) (refusal : InventoryError) (db db' : Db) (row : Inventory)
      → guarded_update k guard f refusal db ≡ ok (db', row)
      → with_rows db (update_where guard f db.inventories) ≡ db'
  unfolding guarded_update
  guarded_update_rows k refusal db db' row e = elim (Bool-cases (any guard db.inventories)) [
    | inr miss ↦ ground arith
    | inl hit ↦ elim (Option-cases (find_row k (update_where guard f db.inventories))) [
      | inl none_found ↦ ground arith
      | inr (r, found) ↦ ground arith
    ]
  ]

-- A row with the next identifier.
module _ (next : ℕ) (new : Inventory) (fresh : new.id ≡ next) where
  append-UniqueRowIds :
      (rows : List Inventory)
      → UniqueRowIds rows
      → All (λ r. r.id < next) rows
      → UniqueRowIds (rows ++ (new ∷ []))
  append-UniqueRowIds [] u a = (tt, tt)
  append-UniqueRowIds (r ∷ rs) u a = (
    All-append (λ s. s.id ≢ r.id) rs (new ∷ []) u.0 (omega arith, tt),
    append-UniqueRowIds rs u.1 a.1,
  )

  older :
      (m : ℕ) (rows : List Inventory)
      → next ≤ m
      → All (λ r. r.id < next) rows
      → All (λ r. r.id < m) rows
  older m [] le a = tt
  older m (r ∷ rs) le a = (omega arith, older m rs le a.1)

  pub ids-append :
      (rows : List Inventory)
      → UniqueRowIds rows
      → All (λ r. r.id < next) rows
      → UniqueRowIds (rows ++ (new ∷ [])) × All (λ r. r.id < next + 1) (rows ++ (new ∷ []))
  ids-append rows u a = (
    append-UniqueRowIds rows u a,
    All-append (λ r. r.id < next + 1) rows (new ∷ []) (older (next + 1) rows (omega arith) a)
        (omega arith, tt),
  )

pub later-IsIndexed :
    (db : Db) (rows : List Inventory) (n m : ℕ)
    → n ≤ m
    → UniqueRowIds rows × All (λ r. r.id < n) rows
    → UniqueRowIds rows × All (λ r. r.id < m) rows
later-IsIndexed db rows n m le h = (h.0, later rows h.1)
  where
    later : (rs : List Inventory) → All (λ r. r.id < n) rs → All (λ r. r.id < m) rs
    later [] a = tt
    later (r ∷ rs) a = (omega arith, later rs a.1)

pub increment_stock-IsIndexed :
    (db : Db) (k : StockKey) (q : ℕ) → IsIndexed db → IsIndexed (increment_stock db k q)
unfolding increment_stock
increment_stock-IsIndexed db k q x = elim (Bool-cases (any (at_key k) db.inventories)) [
  | inl hit ↦ rw hit (update_where-IsIndexed (at_key k) (add_stock q) (λ r. refl) db x)
  | inr miss ↦
      let grown =
        ids-append db.next_id (new_row k q db.next_id) refl db.inventories x.ids_unique
          x.ids_given in
      rw miss (record { ids_unique = grown.0; ids_given = grown.1 })
]
