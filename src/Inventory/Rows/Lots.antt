-- ===== src/Inventory/Rows/Lots.antt =====
-- Taking slices out of the lots.
use ikiot_be.Prelude.{
  ℕ, ◌+◌, ◌≤◌, ◌<◌, ◌≡◌, ◌≢◌, refl, Option, none, some, List, [], ◌∷◌, filter, map, sum_by, All,
  arith, if◌then◌else◌, ◌==◌, Bool-cases, inl, inr,
}
use ikiot_be.Inventory.Allocation.{LotSlice}
use ikiot_be.Inventory.Allocation.Greedy.{total, taken}
use ikiot_be.Inventory.Allocation.Draw.{eligible_of}
use ikiot_be.Inventory.Tables.{StockKey, key_eq, key_eq_sound, InventoryLot}
use ikiot_be.Inventory.Rows.{update_where}
use ikiot_be.Inventory.Rows.Guarded.{entry, All-update_where}
use ikiot_be.Inventory.Rows.Ledger.{has_id, take_from_lot, take_from_lots, is_selected, drawable}

abbrev pub UniqueIds : List InventoryLot → Type 0
UniqueIds [] = Unit
UniqueIds (l ∷ ls) = All (λ m. m.id ≢ l.id) ls × UniqueIds ls

-- What the lots of a key hold, in all and in lot `i`.
abbrev pub lot_sum : StockKey → List InventoryLot → ℕ
lot_sum k = sum_by (λ l. if key_eq l.key k then l.remaining_quantity else 0)

abbrev pub lot_of : ℕ → StockKey → List InventoryLot → ℕ
lot_of i k =
    sum_by (λ l. if key_eq l.key k then (if l.id == i then l.remaining_quantity else 0) else 0)

take_absent :
    (i q : ℕ) (k : StockKey) (lots : List InventoryLot)
    → All (λ m. m.id ≢ i) lots
    → (update_where (has_id i) (take_from_lot q) lots ≡ lots) × (lot_of i k lots ≡ 0)
unfolding update_where
take_absent i q k [] h = (refl, refl)
take_absent i q k (l ∷ ls) h = ground (arith, take_absent i q k ls h.1, h.0)

-- Taking a slice that lot `i` of the key holds lowers the sum of that key, and of no other.
take_one :
    (i q : ℕ) (k j : StockKey) (lots : List InventoryLot)
    → UniqueIds lots
    → q ≤ lot_of i k lots
    → lot_sum j (update_where (has_id i) (take_from_lot q) lots) + entry k j q ≡ lot_sum j lots
unfolding update_where
take_one i q k j [] u h = ground arith
take_one i q k j (l ∷ ls) u h = elim (Bool-cases (l.id == i)) [
  | inl e ↦
      let same : l.id ≡ i = ground arith in
      let others : All (λ m. m.id ≢ i) ls = rw same at u.0 in
      ground (arith, take_absent i q k ls others, key_eq_sound l.key k)
  | inr e ↦ ground (arith, take_one i q k j ls u.1)
]

take_one_of :
    (i q m : ℕ) (k : StockKey) (lots : List InventoryLot)
    → UniqueIds lots
    → q ≤ lot_of i k lots
    → lot_of m k (update_where (has_id i) (take_from_lot q) lots) + (if i == m then q else 0)
      ≡ lot_of m k lots
unfolding update_where
take_one_of i q m k [] u h = ground arith
take_one_of i q m k (l ∷ ls) u h = elim (Bool-cases (l.id == i)) [
  | inl e ↦
      let same : l.id ≡ i = ground arith in
      let others : All (λ m. m.id ≢ i) ls = rw same at u.0 in
      ground (arith, take_absent i q k ls others)
  | inr e ↦ ground (arith, take_one_of i q m k ls u.1)
]

ids_apart :
    (i q n : ℕ) (lots : List InventoryLot)
    → All (λ m. m.id ≢ n) lots
    → All (λ m. m.id ≢ n) (update_where (has_id i) (take_from_lot q) lots)
unfolding update_where
ids_apart i q n [] h = tt
ids_apart i q n (l ∷ ls) h = (ground (arith, h.0), ids_apart i q n ls h.1)

take-UniqueIds :
    (i q : ℕ) (lots : List InventoryLot)
    → UniqueIds lots
    → UniqueIds (update_where (has_id i) (take_from_lot q) lots)
unfolding update_where
take-UniqueIds i q [] u = tt
take-UniqueIds i q (l ∷ ls) u = elim (Bool-cases (l.id == i)) [
  | inl e ↦ rw e (ids_apart i q l.id ls u.0, take-UniqueIds i q ls u.1)
  | inr e ↦ rw e (ids_apart i q l.id ls u.0, take-UniqueIds i q ls u.1)
]

-- What a row of lots must keep while slices are taken out of it.
pub record IsLots (next : ℕ) (lots : List InventoryLot) : Type 0 where
  pub unique : UniqueIds lots
  pub known : All (λ l. l.id < next) lots
  pub within : All (λ l. l.remaining_quantity ≤ l.received_quantity) lots

take-IsLots :
    (i q n : ℕ) (lots : List InventoryLot)
    → IsLots n lots
    → IsLots n (update_where (has_id i) (take_from_lot q) lots)
take-IsLots i q n lots h = record {
  unique = take-UniqueIds i q lots h.unique;
  known = All-update_where (λ l. l.id < n) _ _ lots (λ r g p. p) h.known;
  within =
      All-update_where (λ l. l.remaining_quantity ≤ l.received_quantity) _ _ lots
        (λ r g p. omega arith) h.within;
}

-- Slices that no lot of the key is too small for come out of that key, and of no other.
pub take_from_lots_sum :
    (slices : List LotSlice) (k j : StockKey) (n : ℕ) (lots : List InventoryLot)
    → IsLots n lots
    → ((i : ℕ) → taken i slices ≤ lot_of i k lots)
    → (lot_sum j (take_from_lots slices lots) + entry k j (total slices) ≡ lot_sum j lots)
      × IsLots n (take_from_lots slices lots)
unfolding take_from_lots
take_from_lots_sum [] k j n lots h fits = (ground arith, h)
take_from_lots_sum (s ∷ slices) k j n lots h fits =
    let i = s.lot_id in
    let q = s.quantity in
    let room : q ≤ lot_of i k lots = ground (arith, fits i) in
    let rest =
      take_from_lots_sum slices k j n (update_where (has_id i) (take_from_lot q) lots)
        (take-IsLots i q n lots h)
        (λ m. ground (arith, fits m, take_one_of i q m k lots h.unique)) in
    (ground (arith, take_one i q k j lots h.unique), rest.1)

-- The lots that the SELECT of `drawLots` offers hold no more than the lots of the key.
pub eligible_of-le :
    (i : ℕ) (k : StockKey) (for_item : Option ℕ) (lots : List InventoryLot)
    → eligible_of i for_item (map drawable (filter (is_selected k for_item) lots)) ≤ lot_of i k lots
eligible_of-le i k for_item [] = omega arith
eligible_of-le i k none (l ∷ ls) = ground (arith, eligible_of-le i k none ls)
eligible_of-le i k (some m) (l ∷ ls) = ground (arith, eligible_of-le i k (some m) ls)

-- Identifiers that were given stay given.
pub later-IsLots : (n m : ℕ) (lots : List InventoryLot) → n ≤ m → IsLots n lots → IsLots m lots
later-IsLots n m lots le h = record {
  unique = h.unique;
  known = older lots h.known;
  within = h.within;
}
  where
    older : (ls : List InventoryLot) → All (λ l. l.id < n) ls → All (λ l. l.id < m) ls
    older [] a = tt
    older (l ∷ ls) a = (omega arith, older ls a.1)
