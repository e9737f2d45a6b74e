-- ===== src/Promotions/Engine/Resolve.antt =====
-- What `resolveSelectedPromotions` accepts, and the money of its result.
use ikiot_be.Prelude.{
  ◌⊎◌, ℕ, ◌+◌, ◌-◌, ◌%◌, ◌≤◌, ◌≡◌, refl, true, ◌||◌, none, some, List, [], ◌∷◌, map, all, All, min,
  length, arith, unique, ltb, ◌==◌, Bool-cases, Option-cases, Result-cases, inl, inr, sum_by, ok,
}
use ikiot_be.Prelude.Rounding.{round_div}
use ikiot_be.Promotions.Engine.{
  PricingPromotion, CartContext, CartItem, Applied, matched_lines, PerLine, PricingResult, put,
  share, add_shares, add_all_shares, clamp_line, clamp_lines, matched_subtotal, round,
  allocate_per_item_discount, compute, price, break_down, empty_result, resolve_one, resolve_ids,
  resolve_selected_promotions, max_stacked_promotions, evaluate_eligibility, by_id,
}
use ikiot_be.Promotions.Engine.Allocate.{allocate-le_total, All-matched_lines}

-- Whole dong, in hundredths.
abbrev pub IsWhole : ℕ → Type 0
IsWhole n = n % 100 ≡ 0

share-IsWhole : (t s d : ℕ) → IsWhole (share t s d)
unfolding share
share-IsWhole t s d = omega arith

abbrev AllWhole : PerLine → Type 0
AllWhole m = (j : ℕ) → IsWhole (m j)

put-AllWhole : (i v : ℕ) (m : PerLine) → IsWhole v → AllWhole m → AllWhole (put i v m)
put-AllWhole i v m w h j = ground (arith, h j)

add_shares-AllWhole :
    (s d : ℕ) (items : List CartItem) (m : PerLine) → AllWhole m → AllWhole (add_shares s d items m)
unfolding add_shares
add_shares-AllWhole s d [] m h = h
add_shares-AllWhole s d (i ∷ is) m h =
    let w = share-IsWhole i.line_total s d in
    add_shares-AllWhole s d is (put i.line_id (m i.line_id + share i.line_total s d) m) (
      put-AllWhole i.line_id (m i.line_id + share i.line_total s d) m (omega (arith, h i.line_id))
        h)

add_all_shares-AllWhole :
    (applied : List Applied) (m : PerLine) → AllWhole m → AllWhole (add_all_shares applied m)
unfolding add_all_shares
add_all_shares-AllWhole [] m h = h
add_all_shares-AllWhole (a ∷ others) m h =
    let s = matched_subtotal a.matched_items in
    elim (Bool-cases (s == 0 || a.discount == 0)) [
      | inl e ↦ rw e (add_all_shares-AllWhole others m h)
      | inr e ↦ rw e (
          add_all_shares-AllWhole others (add_shares s a.discount a.matched_items m)
            (add_shares-AllWhole s a.discount a.matched_items m h))
    ]

clamp_lines-AllWhole :
    (items : List CartItem) (m : PerLine)
    → All (λ i. IsWhole i.line_total) items
    → AllWhole m
    → AllWhole (clamp_lines items m)
unfolding clamp_lines
clamp_lines-AllWhole [] m w h = h
clamp_lines-AllWhole (i ∷ is) m w h =
    clamp_lines-AllWhole is (clamp_line i m) w.1
      (elim (Bool-cases (ltb i.line_total (m i.line_id))) [
        | inl e ↦ rw e (put-AllWhole i.line_id i.line_total m w.0 h)
        | inr e ↦ rw e h
      ])

sum-IsWhole :
    (m : PerLine) (items : List CartItem)
    → AllWhole m
    → IsWhole (sum_by (λ d. d.discount_amount) (map (break_down m) items))
sum-IsWhole m [] h = refl
sum-IsWhole m (i ∷ is) h = omega (arith, h i.line_id, sum-IsWhole m is h)

sum-le :
    (m : PerLine) (items : List CartItem)
    → All (λ i. m i.line_id ≤ i.line_total) items
    → sum_by (λ d. d.discount_amount) (map (break_down m) items) ≤ matched_subtotal items
sum-le m [] h = omega arith
sum-le m (i ∷ is) h = omega (arith, h.0, sum-le m is h.1)

totals-IsWhole :
    (items : List CartItem)
    → All (λ i. IsWhole i.line_total) items
    → IsWhole (matched_subtotal items)
totals-IsWhole [] w = refl
totals-IsWhole (i ∷ is) w = omega (arith, totals-IsWhole is w.1, w.0)

split_subtotal :
    (x s : ℕ)
    → IsWhole x
    → IsWhole s
    → x ≤ s
    → (x ≡ round (min x s)) × (round (min x s) + round (s - min x s) ≡ s)
unfolding round_div
split_subtotal x s wx ws le = (omega arith, omega arith)

-- Lines that their numbers identify, in whole dong, with the subtotal that they add up to.
pub record IsCart (cart : CartContext) : Type 0 where
  pub total_of : ℕ → ℕ
  pub identified : All (λ i. i.line_total ≡ total_of i.line_id) cart.items
  pub whole : All (λ i. IsWhole i.line_total) cart.items
  pub adds_up : cart.subtotal ≡ matched_subtotal cart.items

-- What the till relies on: one entry for each line, none above the line's total, the entries add up to
-- the total discount, that and the grand total add up to the subtotal, and the grand total is whole dong.
abbrev pub IsSound : CartContext → PricingResult → Type 0
IsSound cart r =
    (m : PerLine) × (r.item_breakdown ≡ map (break_down m) cart.items)
    × All (λ i. m i.line_id ≤ i.line_total) cart.items
    × (sum_by (λ d. d.discount_amount) r.item_breakdown ≡ r.total_discount)
    × (r.total_discount + r.grand_total ≡ cart.subtotal)
    × IsWhole r.grand_total

bounds :
    (total_of : ℕ → ℕ) (m : PerLine) (items : List CartItem)
    → ((j : ℕ) → m j ≤ total_of j)
    → All (λ i. i.line_total ≡ total_of i.line_id) items
    → All (λ i. m i.line_id ≤ i.line_total) items
bounds total_of m [] h same = tt
bounds total_of m (i ∷ is) h same =
    (omega (arith, h i.line_id, same.0), bounds total_of m is h same.1)

price-IsSound :
    (cart : CartContext) (ps : List PricingPromotion)
    → IsCart cart
    → IsSound cart (price cart (map (compute cart) ps))
unfolding price allocate_per_item_discount
price-IsSound cart ps c =
    let applied = map (compute cart) ps in
    let m = allocate_per_item_discount applied in
    let same = All-matched_lines (λ i. i.line_total ≡ c.total_of i.line_id) cart ps c.identified in
    let whole = All-matched_lines (λ i. IsWhole i.line_total) cart ps c.whole in
    let fit : All (λ i. m i.line_id ≤ i.line_total) cart.items =
      bounds c.total_of m cart.items (λ j. allocate-le_total c.total_of applied j same)
        c.identified in
    let shares = add_all_shares-AllWhole applied (λ _. 0) (λ j. refl) in
    let sum : ℕ = sum_by (λ d. d.discount_amount) (map (break_down m) cart.items) in
    let sums_whole : IsWhole sum =
      sum-IsWhole m cart.items (clamp_lines-AllWhole (matched_lines applied) _ whole shares) in
    let below : sum ≤ cart.subtotal = omega (arith, sum-le m cart.items fit, c.adds_up) in
    let goods : IsWhole cart.subtotal = rw c.adds_up (totals-IsWhole cart.items c.whole) in
    let halves = split_subtotal sum cart.subtotal sums_whole goods below in
    (m, refl, fit, halves.0, halves.1, omega arith)

empty_result-IsSound : (cart : CartContext) → IsCart cart → IsSound cart (empty_result cart)
unfolding empty_result
empty_result-IsSound cart c =
    let goods : IsWhole cart.subtotal = rw c.adds_up (totals-IsWhole cart.items c.whole) in
    let halves = split_subtotal 0 cart.subtotal refl goods (omega arith) in
    (
      (λ _. 0),
      refl,
      no_discount cart.items,
      zeros cart.items,
      ground (arith, halves.1),
      omega arith,
    )
  where
    no_discount : (items : List CartItem) → All (λ i. 0 ≤ i.line_total) items
    no_discount [] = tt
    no_discount (i ∷ is) = (omega arith, no_discount is)

    zeros :
        (items : List CartItem)
        → sum_by (λ d. d.discount_amount) (map (break_down (λ _. 0)) items) ≡ 0
    zeros [] = refl
    zeros (i ∷ is) = omega (arith, zeros is)

-- The promotions that were picked, each a candidate that is eligible.
abbrev pub Picked :
    List PricingPromotion → CartContext → ℕ → (ℕ → ℕ) → ℕ → PricingPromotion → Type 0
Picked ps cart now usage i p =
    (by_id i ps ≡ some p) × (evaluate_eligibility p cart now usage ≡ none)

abbrev pub AllPicked :
    List PricingPromotion → CartContext → ℕ → (ℕ → ℕ) → List ℕ → List PricingPromotion → Type 0
AllPicked ps cart now usage [] [] = Unit
AllPicked ps cart now usage (i ∷ is) (p ∷ qs) =
    Picked ps cart now usage i p × AllPicked ps cart now usage is qs
AllPicked ps cart now usage _ _ = ⊥

resolve_one-Picked :
    (ps : List PricingPromotion) (cart : CartContext) (now : ℕ) (usage : ℕ → ℕ) (i : ℕ)
    (p : PricingPromotion)
    → resolve_one ps cart now usage i ≡ ok p
    → Picked ps cart now usage i p
unfolding resolve_one
resolve_one-Picked ps cart now usage i p e = elim (Option-cases (by_id i ps)) [
  | inl none_found ↦ ground arith
  | inr (q, found) ↦ elim (Option-cases (evaluate_eligibility q cart now usage)) [
    | inl fine ↦ ground arith
    | inr (reason, refused) ↦ ground arith
  ]
]

resolve_ids-AllPicked :
    (ps : List PricingPromotion) (cart : CartContext) (now : ℕ) (usage : ℕ → ℕ) (ids : List ℕ)
    (resolved : List PricingPromotion)
    → resolve_ids ps cart now usage ids ≡ ok resolved
    → AllPicked ps cart now usage ids resolved
unfolding resolve_ids
resolve_ids-AllPicked ps cart now usage [] [] e = tt
resolve_ids-AllPicked ps cart now usage [] (p ∷ qs) e = ground arith
resolve_ids-AllPicked ps cart now usage (i ∷ is) resolved e =
    elim (Result-cases (resolve_one ps cart now usage i)) [
      | inr (x, threw) ↦ absurd (ground arith)
      | inl (q, one) ↦ elim (Result-cases (resolve_ids ps cart now usage is)) [
        | inr (x, threw) ↦ absurd (ground arith)
        | inl (qs, rest) ↦
            let both : (q ∷ qs) ≡ resolved = ground arith in
            rw (← both) (
              resolve_one-Picked ps cart now usage i q one,
              resolve_ids-AllPicked ps cart now usage is qs rest,
            )
      ]
    ]

-- How a selection was accepted: nothing was picked, or at most two promotions, each an eligible
-- candidate, and all of them stackable if there are two.
abbrev pub Accepted :
    List PricingPromotion → List ℕ → CartContext → ℕ → (ℕ → ℕ) → PricingResult → Type 0
Accepted ps selected cart now usage r =
    ((unique selected ≡ []) × (r ≡ empty_result cart))
    ⊎ ((resolved : List PricingPromotion) × AllPicked ps cart now usage (unique selected) resolved
        × (length (unique selected) ≤ max_stacked_promotions)
        × ((length resolved ≤ 1) ⊎ (all (λ p. p.stackable) resolved ≡ true))
        × (r ≡ price cart (map (compute cart) resolved)))

resolve_selected-Accepted :
    (ps : List PricingPromotion) (selected : List ℕ) (cart : CartContext) (now : ℕ) (usage : ℕ → ℕ)
    (r : PricingResult)
    → resolve_selected_promotions ps selected cart now usage ≡ ok r
    → Accepted ps selected cart now usage r
unfolding resolve_selected_promotions
resolve_selected-Accepted ps selected cart now usage r e = accept (unique selected) refl
  where
    accept : (ids : List ℕ) → unique selected ≡ ids → Accepted ps selected cart now usage r
    accept [] same = inl (same, ground arith)
    accept (i ∷ is) same = elim (Result-cases (resolve_ids ps cart now usage (i ∷ is))) [
      | inr (x, threw) ↦ absurd (ground arith)
      | inl (resolved, ran) ↦ inr (
        resolved,
        rw same (resolve_ids-AllPicked ps cart now usage (i ∷ is) resolved ran),
        ground arith,
        ground arith,
        ground arith,
      )
    ]

-- Whatever the engine returns for a cart was picked by its rules, and the money of the result is
-- sound.
pub resolve_selected-IsSound :
    (ps : List PricingPromotion) (selected : List ℕ) (cart : CartContext) (now : ℕ) (usage : ℕ → ℕ)
    (r : PricingResult)
    → IsCart cart
    → resolve_selected_promotions ps selected cart now usage ≡ ok r
    → Accepted ps selected cart now usage r × IsSound cart r
resolve_selected-IsSound ps selected cart now usage r c e =
    let how = resolve_selected-Accepted ps selected cart now usage r e in (how, sound how)
  where
    sound : Accepted ps selected cart now usage r → IsSound cart r
    sound (inl (nothing, same)) = rw same (empty_result-IsSound cart c)
    sound (inr (resolved, picked, few, stack, same)) = rw same (price-IsSound cart resolved c)
