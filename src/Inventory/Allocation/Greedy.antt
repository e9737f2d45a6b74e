-- ===== src/Inventory/Allocation/Greedy.antt =====
-- The loop of lot-allocation.ts: what it takes in all, from each lot, and in which order.
use ikiot_be.Prelude.{
  ℕ, ◌+◌, ◌-◌, ◌≤◌, ◌<◌, ◌≡◌, refl, List, [], ◌∷◌, ◌++◌, min, sum_by, All, arith, if◌then◌else◌,
  ◌==◌,
}
use ikiot_be.Inventory.Allocation.{LotSlice, take_slices}

abbrev pub total : List LotSlice → ℕ
total = sum_by (λ s. s.quantity)

-- What the slices take from one lot.
abbrev pub taken : ℕ → List LotSlice → ℕ
taken i = sum_by (λ s. if s.lot_id == i then s.quantity else 0)

pub total-take_slices :
    (lots : List LotSlice) (q : ℕ)
    → (total (take_slices lots q).0 + (take_slices lots q).1 ≡ q)
      × ((take_slices lots q).1 ≡ q - total lots)
unfolding take_slices
total-take_slices [] q = omega arith
total-take_slices (l ∷ ls) q = ground (arith, total-take_slices ls (q - min q l.quantity))

pub taken-take_slices :
    (i : ℕ) (lots : List LotSlice) (q : ℕ) → taken i (take_slices lots q).0 ≤ taken i lots
unfolding take_slices
taken-take_slices i [] q = omega arith
taken-take_slices i (l ∷ ls) q = ground (arith, taken-take_slices i ls (q - min q l.quantity))

pub All-take_slices_pos :
    (lots : List LotSlice) (q : ℕ) → All (λ s. 0 < s.quantity) (take_slices lots q).0
unfolding take_slices
All-take_slices_pos [] q = tt
All-take_slices_pos (l ∷ ls) q = ground (arith, All-take_slices_pos ls (q - min q l.quantity))

take_slices-zero : (lots : List LotSlice) → take_slices lots 0 ≡ ([], 0)
unfolding take_slices
take_slices-zero [] = refl
take_slices-zero (l ∷ ls) = ground arith

-- A later lot is reached only with what the earlier ones leave.
pub take_slices-append :
    (xs ys : List LotSlice) (q : ℕ)
    → let (first, left) = take_slices xs q in
      take_slices (xs ++ ys) q ≡ (first ++ (take_slices ys left).0, (take_slices ys left).1)
unfolding take_slices
take_slices-append [] ys q = refl
take_slices-append (x ∷ xs) ys q =
    ground (arith, take_slices-append xs ys (q - min q x.quantity), take_slices-zero ys)
