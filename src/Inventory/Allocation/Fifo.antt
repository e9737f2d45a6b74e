-- ===== src/Inventory/Allocation/Fifo.antt =====
-- The order in which `planDraw` empties the lots.
use ikiot_be.Prelude.{
  ℕ, ◌-◌, ◌≤◌, ◌<◌, ◌≡◌, ◌⊎◌, ◌↔◌, inl, inr, refl, ap, ◌∙◌, Bool, true, false, Option, none, some,
  List, [], ◌∷◌, ◌++◌, map, filter, All, sort_by, IsSorted, sort_by-IsSorted, sort_by-perm, arith,
  Bool-cases, Option-cases,
}
use mathlib.Core.List.{Perm, map-append}
use mathlib.Core.Path.{subst}
use ikiot_be.Inventory.Allocation.{
  LotSlice, DrawableLot, take_slices, is_own, is_shared, older, offer, draw_queue, plan_draw,
}
use ikiot_be.Inventory.Allocation.Greedy.{total, total-take_slices, take_slices-append}

older_neg_trans : (a b c : DrawableLot) → older c b ≡ false → older b a ≡ false → older c a ≡ false
older_neg_trans a b c h k = ground arith

older_asym : (a b : DrawableLot) → older a b ≡ true → older b a ≡ false
older_asym a b h = ground arith

-- `ys` has exactly the elements of `xs` that are as `P` says, in their order.
abbrev pub Kept : (DrawableLot → Type 0) → List DrawableLot → List DrawableLot → Type 0
Kept P [] ys = ys ≡ []
Kept P (x ∷ xs) ys =
    (P x × (zs : List DrawableLot) × (ys ≡ x ∷ zs) × Kept P xs zs) ⊎ ((¬ P x) × Kept P xs ys)

filter-Kept :
    (p : DrawableLot → Bool) (P : DrawableLot → Type 0)
    → ((lot : DrawableLot) → (p lot ≡ true) ↔ P lot)
    → (lots : List DrawableLot) → Kept P lots (filter p lots)
filter-Kept p P same [] = refl
filter-Kept p P same (x ∷ xs) = elim (Bool-cases (p x)) [
  | inl e ↦ inl ((same x).0 e, filter p xs, rw e refl, filter-Kept p P same xs)
  | inr e ↦
      inr ((λ h. let hit = (same x).1 h in absurd (ground arith)), rw e (filter-Kept p P same xs))
]

abbrev pub IsMadeFor : Option ℕ → DrawableLot → Type 0
IsMadeFor for_item lot = (i : ℕ) × (for_item ≡ some i) × (lot.order_item_id ≡ some i)

abbrev pub IsUnowned : DrawableLot → Type 0
IsUnowned lot = lot.order_item_id ≡ none

is_own_iff :
    (for_item : Option ℕ) (lot : DrawableLot)
    → (is_own for_item lot ≡ true) ↔ IsMadeFor for_item lot
is_own_iff none lot = (λ h. absurd (ground arith), λ (i, e, _). absurd (ground arith))
is_own_iff (some i) lot = elim (Option-cases lot.order_item_id) [
  | inl e ↦ (λ h. absurd (ground arith), λ (j, _, f). absurd (ground arith))
  | inr (j, e) ↦ (
    λ h. let same : j ≡ i = ground arith in (i, refl, e ∙ ap some same),
    λ (k, f, g). ground arith,
  )
]

is_shared_iff : (lot : DrawableLot) → (is_shared lot ≡ true) ↔ IsUnowned lot
is_shared_iff lot = elim (Option-cases lot.order_item_id) [
  | inl e ↦ (λ h. e, λ h. ground arith)
  | inr (j, e) ↦ (λ h. absurd (ground arith), λ h. absurd (ground arith))
]

-- Of any two the one in front was received no later, and has the smaller identifier where both were
-- received at the same time.
abbrev pub InOrder : DrawableLot → DrawableLot → Type 0
InOrder a b = (a.received_at < b.received_at) ⊎ ((a.received_at ≡ b.received_at) × (a.id ≤ b.id))

abbrev pub OldestFirst : List DrawableLot → Type 0
OldestFirst [] = Unit
OldestFirst (x ∷ xs) = All (InOrder x) xs × OldestFirst xs

IsSorted-OldestFirst : (lots : List DrawableLot) → IsSorted older lots → OldestFirst lots
IsSorted-OldestFirst [] s = tt
IsSorted-OldestFirst (x ∷ xs) s = (all_after xs s.0, IsSorted-OldestFirst xs s.1)
  where
    all_after : (ys : List DrawableLot) → All (λ y. older y x ≡ false) ys → All (InOrder x) ys
    all_after [] a = tt
    all_after (y ∷ ys) a = (ground (arith, a.0), all_after ys a.1)

-- The lots of the line in their order, and after them those of no line from the oldest on.
abbrev pub IsQueue : List DrawableLot → Option ℕ → List DrawableLot → Type 0
IsQueue lots for_item queue =
    (own : List DrawableLot) × (unowned : List DrawableLot) × (shared : List DrawableLot) × (queue
      ≡ own ++ shared)
    × Kept (IsMadeFor for_item) lots own
    × Kept IsUnowned lots unowned
    × Perm shared unowned
    × OldestFirst shared

draw_queue-IsQueue :
    (lots : List DrawableLot) (for_item : Option ℕ)
    → IsQueue lots for_item (draw_queue lots for_item)
unfolding draw_queue
draw_queue-IsQueue lots for_item =
    let unowned = filter is_shared lots in
    (
      filter (is_own for_item) lots,
      unowned,
      sort_by older unowned,
      refl,
      filter-Kept (is_own for_item) (IsMadeFor for_item) (is_own_iff for_item) lots,
      filter-Kept is_shared IsUnowned is_shared_iff lots,
      sort_by-perm older unowned,
      IsSorted-OldestFirst (sort_by older unowned)
          (sort_by-IsSorted older older_neg_trans older_asym unowned),
    )

-- The lots are drawn in one order: first those made for the line, as they are given, then those of no
-- line, by the time they were received and at equal times by identifier; lots of other lines are not
-- drawn. Wherever that order is cut in two, either the front covers the quantity or the front is
-- emptied, and the back gives only what the front does not.
pub plan_draw_fifo :
    (lots front back : List DrawableLot) (q : ℕ) (for_item : Option ℕ) (slices : List LotSlice)
    → draw_queue lots for_item ≡ front ++ back
    → plan_draw lots q for_item ≡ some slices
    → let from_front = (take_slices (map offer front) q).0 in
      let held = total (map offer front) in
      (slices ≡ from_front ++ (take_slices (map offer back) (q - held)).0)
      × ((q ≤ held) ⊎ (total from_front ≡ held))
      × IsQueue lots for_item (front ++ back)
unfolding plan_draw
plan_draw_fifo lots front back q for_item slices e h =
    let sums = total-take_slices (map offer front) q in
    (
      ground (
        arith,
        map-append offer front back,
        take_slices-append (map offer front) (map offer back) q,
      ),
      ground arith,
      subst (IsQueue lots for_item) e (draw_queue-IsQueue lots for_item),
    )
