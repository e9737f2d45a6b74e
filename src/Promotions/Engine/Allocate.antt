-- ===== src/Promotions/Engine/Allocate.antt =====
-- No line of the cart is discounted by more than it costs.
use ikiot_be.Prelude.{
  ℕ, ◌+◌, ◌≤◌, ◌≡◌, refl, Bool, true, false, ◌||◌, List, [], ◌∷◌, ◌++◌, map, All, All-append, arith,
  any, ◌==◌, Bool-cases, inl, inr,
}
use native.Mathlib.Nat.{le_trans}
use ikiot_be.Promotions.Engine.{
  PricingPromotion, CartContext, CartItem, Applied, matched_lines, PerLine, put, share, add_shares,
  add_all_shares, clamp_line, clamp_lines, matched_subtotal, allocate_per_item_discount, compute,
  get_matched_items, rule_matches_item,
}

clamp_line-le : (i : CartItem) (m : PerLine) (j : ℕ) → clamp_line i m j ≤ m j
unfolding clamp_line
clamp_line-le i m j = ground arith

clamp_line-le_total : (i : CartItem) (m : PerLine) → clamp_line i m i.line_id ≤ i.line_total
unfolding clamp_line
clamp_line-le_total i m = ground arith

-- The clamp only lowers, and it lowers each matched line to its total.
clamp_lines-le : (items : List CartItem) (m : PerLine) (j : ℕ) → clamp_lines items m j ≤ m j
unfolding clamp_lines
clamp_lines-le [] m j = omega arith
clamp_lines-le (i ∷ is) m j = le_trans (clamp_lines-le is (clamp_line i m) j) (clamp_line-le i m j)

clamp_lines-le_total :
    (items : List CartItem) (m : PerLine)
    → All (λ i. clamp_lines items m i.line_id ≤ i.line_total) items
unfolding clamp_lines
clamp_lines-le_total [] m = tt
clamp_lines-le_total (i ∷ is) m = (
  le_trans (clamp_lines-le is (clamp_line i m) i.line_id) (clamp_line-le_total i m),
  clamp_lines-le_total is (clamp_line i m),
)

abbrev pub has_line : ℕ → List CartItem → Bool
has_line j = any (λ i. i.line_id == j)

-- A line that no promotion matches gets nothing.
add_shares_other :
    (s d : ℕ) (items : List CartItem) (m : PerLine) (j : ℕ)
    → has_line j items ≡ false
    → add_shares s d items m j ≡ m j
unfolding add_shares
add_shares_other s d [] m j h = refl
add_shares_other s d (i ∷ is) m j h =
    ground
      (arith, add_shares_other s d is (put i.line_id (m i.line_id + share i.line_total s d) m) j)

any-append :
    (j : ℕ) (xs ys : List CartItem) → has_line j (xs ++ ys) ≡ (has_line j xs || has_line j ys)
any-append j [] ys = refl
any-append j (x ∷ xs) ys = ground (arith, any-append j xs ys)

add_all_shares_other :
    (applied : List Applied) (m : PerLine) (j : ℕ)
    → has_line j (matched_lines applied) ≡ false
    → add_all_shares applied m j ≡ m j
unfolding add_all_shares
add_all_shares_other [] m j h = refl
add_all_shares_other (a ∷ others) m j h =
    let s = matched_subtotal a.matched_items in
    ground (
      arith,
      any-append j a.matched_items (matched_lines others),
      add_shares_other s a.discount a.matched_items m j,
      add_all_shares_other others m j,
      add_all_shares_other others (add_shares s a.discount a.matched_items m) j,
    )

-- A matched line, with the bound of its total.
line_bound :
    (total_of : ℕ → ℕ) (m : PerLine) (items : List CartItem) (j : ℕ)
    → All (λ i. m i.line_id ≤ i.line_total) items
    → All (λ i. i.line_total ≡ total_of i.line_id) items
    → has_line j items ≡ true
    → m j ≤ total_of j
line_bound total_of m [] j bound same h = cc
line_bound total_of m (i ∷ is) j bound same h = elim (Bool-cases (i.line_id == j)) [
  | inl e ↦ let here : i.line_id ≡ j = ground arith in rw (← here) (omega arith)
  | inr e ↦ line_bound total_of m is j bound.1 same.1 (ground arith)
]

-- Where the matched lines are lines of a cart whose line numbers identify its lines, no line of the
-- cart is discounted by more than its total.
pub allocate-le_total :
    (total_of : ℕ → ℕ) (applied : List Applied) (j : ℕ)
    → All (λ i. i.line_total ≡ total_of i.line_id) (matched_lines applied)
    → allocate_per_item_discount applied j ≤ total_of j
unfolding allocate_per_item_discount
allocate-le_total total_of applied j same =
    let lines = matched_lines applied in
    let m = add_all_shares applied (λ _. 0) in
    elim (Bool-cases (has_line j lines)) [
      | inl e ↦
          line_bound total_of (clamp_lines lines m) lines j (clamp_lines-le_total lines m) same e
      | inr e ↦ omega (arith, clamp_lines-le lines m j, add_all_shares_other applied (λ _. 0) j e)
    ]

All-filter_matched :
    (P : CartItem → Type 0) (p : PricingPromotion) (items : List CartItem)
    → All P items
    → All P (get_matched_items p items)
unfolding get_matched_items
All-filter_matched P p [] h = tt
All-filter_matched P p (i ∷ is) h = elim (Bool-cases (rule_matches_item p i)) [
  | inl e ↦ rw e (h.0, All-filter_matched P p is h.1)
  | inr e ↦ rw e (All-filter_matched P p is h.1)
]

pub All-matched_lines :
    (P : CartItem → Type 0) (cart : CartContext) (ps : List PricingPromotion)
    → All P cart.items
    → All P (matched_lines (map (compute cart) ps))
All-matched_lines P cart [] h = tt
All-matched_lines P cart (p ∷ ps) h =
    All-append P (get_matched_items p cart.items) (matched_lines (map (compute cart) ps))
      (All-filter_matched P p cart.items h) (All-matched_lines P cart ps h)
