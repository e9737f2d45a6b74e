-- ===== src/Inventory/Allocation/Draw.antt =====
-- What `planDraw` and `planReturn` promise: the whole quantity or nothing, from the lots that the
-- line may touch, its own first and then the oldest.
use ikiot_be.Prelude.{
  ℕ, ◌+◌, ◌-◌, ◌≤◌, ◌<◌, ◌≡◌, ◌↔◌, refl, Bool, ◌||◌, Option, none, some, List, [], ◌∷◌, map, filter,
  sum_by, sum_by-append, sum_by-sort_by, sort_by, All, arith, if◌then◌else◌, ◌==◌, ◌∙◌, ◌⊎◌, inl,
  inr, Option-cases,
}
use ikiot_be.Inventory.Allocation.{
  LotSlice, DrawableLot, DrawnLot, is_own, is_shared, older, offer, draw_queue, plan_draw,
  outstanding, plan_return,
}
use ikiot_be.Inventory.Allocation.Greedy.{
  total, taken, total-take_slices, taken-take_slices, All-take_slices_pos,
}

-- What the line may draw in all: its own lots and the shared ones.
abbrev pub eligible : Option ℕ → DrawableLot → Bool
eligible for_item lot = is_own for_item lot || is_shared lot

abbrev pub eligible_total : Option ℕ → List DrawableLot → ℕ
eligible_total for_item = sum_by (λ l. if eligible for_item l then l.remaining_quantity else 0)

-- What the line may draw from lot `i`.
abbrev pub eligible_of : ℕ → Option ℕ → List DrawableLot → ℕ
eligible_of i for_item =
    sum_by (λ l. if eligible for_item l then (if l.id == i then l.remaining_quantity else 0) else 0)

pub sum_by-map {ℓ} :
    {A : Type ℓ} (f : LotSlice → ℕ) (g : A → LotSlice) (xs : List A)
    → sum_by f (map g xs) ≡ sum_by (λ x. f (g x)) xs
sum_by-map f g [] = refl
sum_by-map f g (x ∷ xs) = omega (arith, sum_by-map f g xs)

-- Own and shared lots are apart, so no lot is counted twice.
split-eligible :
    (f : DrawableLot → ℕ) (for_item : Option ℕ) (lots : List DrawableLot)
    → sum_by f (filter (is_own for_item) lots) + sum_by f (filter is_shared lots)
      ≡ sum_by (λ l. if eligible for_item l then f l else 0) lots
split-eligible f for_item [] = refl
split-eligible f none (l ∷ ls) = ground (arith, split-eligible f none ls)
split-eligible f (some i) (l ∷ ls) = ground (arith, split-eligible f (some i) ls)

-- The queue holds each lot that the line may touch once, and no other.
pub sum_by-draw_queue :
    (f : DrawableLot → ℕ) (lots : List DrawableLot) (for_item : Option ℕ)
    → sum_by f (draw_queue lots for_item)
      ≡ sum_by (λ l. if eligible for_item l then f l else 0) lots
unfolding draw_queue
sum_by-draw_queue f lots for_item =
    let shared = filter is_shared lots in
    omega (
      arith,
      sum_by-append f (filter (is_own for_item) lots) (sort_by older shared),
      sum_by-sort_by older f shared,
      split-eligible f for_item lots,
    )

total-offers :
    (lots : List DrawableLot) (for_item : Option ℕ)
    → total (map offer (draw_queue lots for_item)) ≡ eligible_total for_item lots
total-offers lots for_item =
    sum_by-map (λ s. s.quantity) offer (draw_queue lots for_item)
    ∙ sum_by-draw_queue (λ l. l.remaining_quantity) lots for_item

taken-offers :
    (i : ℕ) (lots : List DrawableLot) (for_item : Option ℕ)
    → taken i (map offer (draw_queue lots for_item)) ≡ eligible_of i for_item lots
taken-offers i lots for_item =
    sum_by-map (λ s. if s.lot_id == i then s.quantity else 0) offer (draw_queue lots for_item)
    ∙ sum_by-draw_queue (λ l. if l.id == i then l.remaining_quantity else 0) lots for_item

-- The same, read off a plan that is given.
pub plan_draw_exact :
    (lots : List DrawableLot) (q : ℕ) (for_item : Option ℕ)
    → ((plan_draw lots q for_item ≡ none) ↔ (eligible_total for_item lots < q))
      × ((slices : List LotSlice)
          → plan_draw lots q for_item ≡ some slices
          → (total slices ≡ q)
            × All (λ s. 0 < s.quantity) slices
            × ((i : ℕ) → taken i slices ≤ eligible_of i for_item lots))
unfolding plan_draw
plan_draw_exact lots q for_item =
    let offers = map offer (draw_queue lots for_item) in
    let sums = total-take_slices offers q in
    let have = total-offers lots for_item in
    (
      (ground arith, ground arith),
      λ slices h. (
        ground arith,
        ground (arith, All-take_slices_pos offers q),
        λ i. ground (arith, taken-take_slices i offers q, taken-offers i lots for_item),
      ),
    )

-- What may still come back in all, and to lot `i`.
abbrev pub outstanding_total : List DrawnLot → ℕ
outstanding_total = sum_by (λ l. l.drawn - l.returned)

abbrev pub outstanding_of : ℕ → List DrawnLot → ℕ
outstanding_of i = sum_by (λ l. if l.lot_id == i then l.drawn - l.returned else 0)

-- The same, read off a plan that is given.
pub plan_return_exact :
    (lots : List DrawnLot) (q : ℕ)
    → ((plan_return lots q ≡ none) ↔ (outstanding_total lots < q))
      × ((slices : List LotSlice)
          → plan_return lots q ≡ some slices
          → (total slices ≡ q)
            × All (λ s. 0 < s.quantity) slices
            × ((i : ℕ) → taken i slices ≤ outstanding_of i lots))
unfolding plan_return
plan_return_exact lots q =
    let offers = map outstanding lots in
    let sums = total-take_slices offers q in
    let have = sum_by-map (λ s. s.quantity) outstanding lots in
    (
      (ground arith, ground arith),
      λ slices h. (
        ground arith,
        ground (arith, All-take_slices_pos offers q),
        λ i. ground (
          arith,
          taken-take_slices i offers q,
          sum_by-map (λ s. if s.lot_id == i then s.quantity else 0) outstanding lots,
        ),
      ),
    )

-- A plan is made exactly when the lots that the line may touch hold the quantity, and then its
-- slices add up to the quantity, none of them is empty, and none takes more from a lot than the
-- line may draw from it: from a lot made for another line, nothing.
pub plan_draw_outcome :
    (lots : List DrawableLot) (q : ℕ) (for_item : Option ℕ)
    → ((plan_draw lots q for_item ≡ none) × (eligible_total for_item lots < q))
      ⊎ ((slices : List LotSlice) × (plan_draw lots q for_item ≡ some slices)
          × (total slices ≡ q)
          × All (λ s. 0 < s.quantity) slices
          × ((i : ℕ) → taken i slices ≤ eligible_of i for_item lots))
plan_draw_outcome lots q for_item =
    let exact = plan_draw_exact lots q for_item in
    elim (Option-cases (plan_draw lots q for_item)) [
      | inl e ↦ inl (e, exact.0.0 e)
      | inr (slices, e) ↦ let plan = exact.1 slices e in inr (slices, e, plan.0, plan.1, plan.2)
    ]

-- A return is planned exactly when the document has that much out that has not come back; each
-- unit goes to a lot that it left, and no lot gets back more than is still out.
pub plan_return_outcome :
    (lots : List DrawnLot) (q : ℕ)
    → ((plan_return lots q ≡ none) × (outstanding_total lots < q))
      ⊎ ((slices : List LotSlice) × (plan_return lots q ≡ some slices)
          × (total slices ≡ q)
          × All (λ s. 0 < s.quantity) slices
          × ((i : ℕ) → taken i slices ≤ outstanding_of i lots))
plan_return_outcome lots q =
    let exact = plan_return_exact lots q in
    elim (Option-cases (plan_return lots q)) [
      | inl e ↦ inl (e, exact.0.0 e)
      | inr (slices, e) ↦ let plan = exact.1 slices e in inr (slices, e, plan.0, plan.1, plan.2)
    ]
