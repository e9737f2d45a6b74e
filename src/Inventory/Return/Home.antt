-- ===== src/Inventory/Return/Home.antt =====
-- Where a slice of `returnDrawn` comes back: into a lot of the same goods.
use ikiot_be.Prelude.{
  ◌≢◌, ℕ, ◌+◌, ◌≤◌, ◌<◌, ◌≡◌, refl, Bool, true, false, ◌&&◌, some, List, [], ◌∷◌, ◌++◌, any, find?,
  All, arith, ◌==◌, Bool-cases, inl, inr,
}
use ikiot_be.Inventory.Tables.{
  StockKey, key_eq, key_eq_refl, key_eq_sound, InventoryLot, InventoryTransaction, Db,
}
use ikiot_be.Inventory.Rows.{update_where}
use ikiot_be.Inventory.Rows.Guarded.{entry, All-update_where}
use ikiot_be.Inventory.Rows.Ledger.{has_id}
use ikiot_be.Inventory.Rows.Lots.{UniqueIds, lot_sum, IsLots}
use ikiot_be.Inventory.Return.{same_item, put_back, overfills}

-- Lot `i` holds goods of key `k`.
abbrev pub lot_known : ℕ → StockKey → List InventoryLot → Bool
lot_known i k = any (λ l. has_id i l && key_eq l.key k)

pub lot_known-append :
    (i : ℕ) (k : StockKey) (lots more : List InventoryLot)
    → lot_known i k lots ≡ true
    → lot_known i k (lots ++ more) ≡ true
lot_known-append i k [] more h = cc
lot_known-append i k (l ∷ ls) more h = ground (arith, lot_known-append i k ls more)

pub lot_known-last :
    (lots : List InventoryLot) (l : InventoryLot) → lot_known l.id l.key (lots ++ (l ∷ [])) ≡ true
lot_known-last [] l = ground (arith, key_eq_refl l.key)
lot_known-last (m ∷ ms) l = ground (arith, lot_known-last ms l)

-- An UPDATE that changes neither identifiers nor keys.
module _ (guard : InventoryLot → Bool) (f : InventoryLot → InventoryLot)
    (same_id : (l : InventoryLot) → (f l).id ≡ l.id)
    (same_key : (l : InventoryLot) → (f l).key ≡ l.key) where
  pub lot_known-update_where :
      (i : ℕ) (k : StockKey) (lots : List InventoryLot)
      → lot_known i k lots ≡ true
      → lot_known i k (update_where guard f lots) ≡ true
  unfolding update_where
  lot_known-update_where i k [] h = cc
  lot_known-update_where i k (l ∷ ls) h =
      ground (arith, lot_known-update_where i k ls, same_id l, same_key l)

  ids_apart :
      (n : ℕ) (lots : List InventoryLot)
      → All (λ m. m.id ≢ n) lots
      → All (λ m. m.id ≢ n) (update_where guard f lots)
  unfolding update_where
  ids_apart n [] h = tt
  ids_apart n (l ∷ ls) h = (ground (arith, h.0, same_id l), ids_apart n ls h.1)

  pub update_where-UniqueIds :
      (lots : List InventoryLot) → UniqueIds lots → UniqueIds (update_where guard f lots)
  unfolding update_where
  update_where-UniqueIds [] u = tt
  update_where-UniqueIds (l ∷ ls) u = elim (Bool-cases (guard l)) [
    | inl e ↦ rw (e, same_id l) (ids_apart l.id ls u.0, update_where-UniqueIds ls u.1)
    | inr e ↦ rw e (ids_apart l.id ls u.0, update_where-UniqueIds ls u.1)
  ]

-- The lot that a read by identifier finds.
pub found_known :
    (i : ℕ) (lots : List InventoryLot) (o : InventoryLot)
    → find? (has_id i) lots ≡ some o
    → (o.id ≡ i) × (lot_known o.id o.key lots ≡ true)
found_known i [] o e = ground arith
found_known i (l ∷ ls) o e = elim (Bool-cases (has_id i l)) [
  | inl hit ↦
      let same : l ≡ o = ground arith in
      rw (← same) (ground arith, ground (arith, key_eq_refl l.key))
  | inr miss ↦ let rest = found_known i ls o (ground arith) in (rest.0, ground (arith, rest.1))
]

-- Some lot `i` holds the goods that come to `k`, here or elsewhere.
abbrev pub comes_home : StockKey → List InventoryLot → ℕ → Bool
comes_home k lots i = any (λ l. has_id i l && same_item l.key k) lots

absent_home :
    (k : StockKey) (i : ℕ) (lots : List InventoryLot)
    → All (λ m. m.id ≢ i) lots
    → comes_home k lots i ≡ false
absent_home k i [] h = refl
absent_home k i (l ∷ ls) h = ground (arith, absent_home k i ls h.1, h.0)

pub found_same_item :
    (k : StockKey) (i : ℕ) (lots : List InventoryLot) (o : InventoryLot)
    → UniqueIds lots
    → comes_home k lots i ≡ true
    → find? (has_id i) lots ≡ some o
    → same_item o.key k ≡ true
found_same_item k i [] o u h e = ground arith
found_same_item k i (l ∷ ls) o u h e = elim (Bool-cases (has_id i l)) [
  | inl hit ↦
      let same : l ≡ o = ground arith in
      let mine : l.id ≡ i = ground arith in
      let others : All (λ m. m.id ≢ i) ls = rw mine at u.0 in
      rw (← same) (ground (arith, absent_home k i ls others))
  | inr miss ↦ found_same_item k i ls o u.1 (ground arith) (ground arith)
]

pub known_home :
    (k j : StockKey) (i : ℕ) (lots : List InventoryLot)
    → same_item j k ≡ true
    → lot_known i j lots ≡ true
    → comes_home k lots i ≡ true
known_home k j i [] s h = h
known_home k j i (l ∷ ls) s h = elim (Bool-cases (key_eq l.key j)) [
  | inl e ↦ let same : l.key ≡ j = key_eq_sound l.key j e in ground (arith, known_home k j i ls s)
  | inr e ↦ ground (arith, known_home k j i ls s)
]

-- What comes back to a lot of `k` raises what the lots of `k` hold, and of no other key.
put_absent :
    (i q : ℕ) (k j : StockKey) (lots : List InventoryLot)
    → All (λ m. m.id ≢ i) lots
    → (update_where (has_id i) (put_back q) lots ≡ lots) × (lot_known i k lots ≡ false)
unfolding update_where
put_absent i q k j [] h = (refl, refl)
put_absent i q k j (l ∷ ls) h = ground (arith, put_absent i q k j ls h.1, h.0)

pub put_one :
    (i q : ℕ) (k j : StockKey) (lots : List InventoryLot)
    → UniqueIds lots
    → lot_known i k lots ≡ true
    → lot_sum j (update_where (has_id i) (put_back q) lots) ≡ lot_sum j lots + entry k j q
unfolding update_where
put_one i q k j [] u h = ground arith
put_one i q k j (l ∷ ls) u h = elim (Bool-cases (l.id == i)) [
  | inl e ↦
      let same : l.id ≡ i = ground arith in
      let others : All (λ m. m.id ≢ i) ls = rw same at u.0 in
      ground (arith, put_absent i q k j ls others, key_eq_sound l.key k)
  | inr e ↦ ground (arith, put_one i q k j ls u.1)
]

-- The CHECK of the table: where no lot overflows, every lot still has no more than it received.
put_within :
    (i q : ℕ) (lots : List InventoryLot)
    → any (overfills i q) lots ≡ false
    → All (λ l. l.remaining_quantity ≤ l.received_quantity) lots
    → All
        (λ l. l.remaining_quantity ≤ l.received_quantity)
        (update_where (has_id i) (put_back q) lots)
unfolding update_where
put_within i q [] e h = tt
put_within i q (l ∷ ls) e h = elim (Bool-cases (has_id i l)) [
  | inl hit ↦ rw hit (ground arith, put_within i q ls (ground arith) h.1)
  | inr miss ↦ rw miss (h.0, put_within i q ls (ground arith) h.1)
]

pub put-IsLots :
    (i q n : ℕ) (lots : List InventoryLot)
    → any (overfills i q) lots ≡ false
    → IsLots n lots
    → IsLots n (update_where (has_id i) (put_back q) lots)
put-IsLots i q n lots e h = record {
  unique = update_where-UniqueIds _ _ (λ l. refl) (λ l. refl) lots h.unique;
  known = All-update_where (λ l. l.id < n) _ _ lots (λ r g p. p) h.known;
  within = put_within i q lots e h.within;
}

-- The lots that are named before are named after.
abbrev pub KeepsLots : List InventoryLot → List InventoryLot → Type 0
KeepsLots lots lots' =
    (i : ℕ) (k : StockKey) → lot_known i k lots ≡ true → lot_known i k lots' ≡ true

pub All_keeps :
    (lots lots' : List InventoryLot) (rows : List InventoryTransaction)
    → KeepsLots lots lots'
    → All (λ t. lot_known t.lot_id t.key lots ≡ true) rows
    → All (λ t. lot_known t.lot_id t.key lots' ≡ true) rows
All_keeps lots lots' [] keeps h = tt
All_keeps lots lots' (t ∷ ts) keeps h =
    (keeps t.lot_id t.key h.0, All_keeps lots lots' ts keeps h.1)

-- Every ledger row names a lot of its goods.
abbrev pub IsTraced : Db → Type 0
IsTraced db = All (λ t. lot_known t.lot_id t.key db.lots ≡ true) db.transactions
