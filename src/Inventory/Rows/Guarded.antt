-- ===== src/Inventory/Rows/Guarded.antt =====
-- A guarded UPDATE under the unique key of `inventories`: it changes one row, the one that the
-- read after it finds.
use ikiot_be.Prelude.{
  ℕ, ◌+◌, ◌≡◌, refl, Bool, true, false, some, List, [], ◌∷◌, ◌++◌, any, sum_by, All, arith,
  if◌then◌else◌, Bool-cases, inl, inr,
}
use ikiot_be.Inventory.Tables.{StockKey, key_eq, key_eq_sound, Inventory}
use ikiot_be.Inventory.Rows.{update_where, find_row}

-- The unique index on tenant, location and product item.
abbrev pub UniqueKeys : List Inventory → Type 0
UniqueKeys [] = Unit
UniqueKeys (r ∷ rs) = All (λ s. key_eq s.key r.key ≡ false) rs × UniqueKeys rs

-- A column added up over the rows of a key.
abbrev pub sum_at : StockKey → (Inventory → ℕ) → List Inventory → ℕ
sum_at k column = sum_by (λ r. if key_eq r.key k then column r else 0)

abbrev pub entry : StockKey → StockKey → ℕ → ℕ
entry k j n = if key_eq k j then n else 0

pub sum_at-append :
    (k : StockKey) (column : Inventory → ℕ) (rows : List Inventory) (r : Inventory)
    → sum_at k column (rows ++ (r ∷ [])) ≡ sum_at k column rows + entry r.key k (column r)
sum_at-append k column [] r = omega arith
sum_at-append k column (x ∷ xs) r = omega (arith, sum_at-append k column xs r)

module _ (k : StockKey) (guard : Inventory → Bool) (f : Inventory → Inventory)
    (implies : (r : Inventory) → guard r ≡ true → key_eq r.key k ≡ true)
    (same_key : (r : Inventory) → (f r).key ≡ r.key) where
  absent :
      (rows : List Inventory)
      → All (λ s. key_eq s.key k ≡ false) rows
      → (update_where guard f rows ≡ rows) × (any guard rows ≡ false)
  unfolding update_where
  absent [] h = (refl, refl)
  absent (r ∷ rs) h = ground (arith, absent rs h.1, implies r)

  apart :
      (r : Inventory) (rs : List Inventory)
      → All (λ s. key_eq s.key r.key ≡ false) rs
      → any guard rs ≡ true
      → key_eq r.key k ≡ false
  apart r rs u h = elim (Bool-cases (key_eq r.key k)) [
    | inl e ↦
        let others : All (λ s. key_eq s.key k ≡ false) rs = rw (key_eq_sound r.key k e) at u in
        ground (arith, absent rs others)
    | inr e ↦ e
  ]

  abbrev pub Changes : List Inventory → Inventory → Type 0
  Changes rows r =
      (guard r ≡ true)
      × (r.key ≡ k)
      × (find_row k rows ≡ some r)
      × (find_row k (update_where guard f rows) ≡ some (f r))
      × ((j : StockKey) (column : Inventory → ℕ)
          → sum_at j column (update_where guard f rows) + entry k j (column r)
            ≡ sum_at j column rows + entry k j (column (f r)))

  pub guarded_update_lem :
      (rows : List Inventory)
      → UniqueKeys rows
      → any guard rows ≡ true
      → (r : Inventory) × Changes rows r
  unfolding update_where
  guarded_update_lem [] u h = cc
  guarded_update_lem (r ∷ rs) u h = elim (Bool-cases (guard r)) [
    | inl g ↦
        let key : r.key ≡ k = key_eq_sound r.key k (implies r g) in
        let others : All (λ s. key_eq s.key k ≡ false) rs = rw key at u.0 in
        let gone = absent rs others in
        (
          r,
          (
            g,
            key,
            ground (arith, implies r g),
            ground (arith, implies r g, same_key r),
            λ j column. ground (arith, gone, key, same_key r),
          ),
        )
    | inr g ↦
        let other = apart r rs u.0 (ground arith) in
        let (s, found) = guarded_update_lem rs u.1 (ground arith) in
        (
          s,
          (
            found.0,
            found.1,
            ground arith,
            ground arith,
            λ j column. ground (arith, found.4 j column),
          ),
        )
  ]

  keys_apart :
      (r : Inventory) (rs : List Inventory)
      → All (λ s. key_eq s.key r.key ≡ false) rs
      → All (λ s. key_eq s.key r.key ≡ false) (update_where guard f rs)
  unfolding update_where
  keys_apart r [] h = tt
  keys_apart r (s ∷ ss) h = (ground (arith, same_key s), keys_apart r ss h.1)

  pub update_where-UniqueKeys :
      (rows : List Inventory) → UniqueKeys rows → UniqueKeys (update_where guard f rows)
  unfolding update_where
  update_where-UniqueKeys [] u = tt
  update_where-UniqueKeys (r ∷ rs) u = elim (Bool-cases (guard r)) [
    | inl g ↦ rw (g, same_key r) (keys_apart r rs u.0, update_where-UniqueKeys rs u.1)
    | inr g ↦ rw g (keys_apart r rs u.0, update_where-UniqueKeys rs u.1)
  ]

pub All-update_where {ℓ κ} :
    {A : Type ℓ} (P : A → Type κ) (guard : A → Bool) (f : A → A) (rows : List A)
    → ((r : A) → guard r ≡ true → P r → P (f r))
    → All P rows
    → All P (update_where guard f rows)
unfolding update_where
All-update_where P guard f [] keep h = tt
All-update_where P guard f (r ∷ rs) keep h = elim (Bool-cases (guard r)) [
  | inl g ↦ rw g (keep r g h.0, All-update_where P guard f rs keep h.1)
  | inr g ↦ rw g (h.0, All-update_where P guard f rs keep h.1)
]
