-- ===== src/Promotions/Engine/Eligible.antt =====
-- When a promotion may be used, and how much it may take off by itself.
use ikiot_be.Prelude.{
  ℕ, ◌*◌, ◌≤◌, ◌<◌, ◌≡◌, ◌↔◌, ◌⊎◌, inl, inr, refl, Bool-cases, true, false, Option, none, some,
  List, [], ◌∷◌, min, arith, Any, includes_iff,
}
use native.Mathlib.Nat.{mul-le-mul_left}
use ikiot_be.Prelude.Rounding.{round_div}
use ikiot_be.Promotions.Engine.{
  PricingPromotion, CartContext, CartItem, active, percent, evaluate_eligibility, get_matched_items,
  at_branch, matched_subtotal, raw_discount, percent_discount, round, limit_reached,
  customer_reason, includes?, rule_matches_item, is_empty, ApplicableRuleType, all_products,
  category, product, other,
}

-- What each rule asks.
abbrev pub LimitLeft : Option ℕ → ℕ → Type 0
LimitLeft none used = Unit
LimitLeft (some limit) used = used < limit

abbrev pub CustomerLeft : Option ℕ → Option ℕ → ℕ → Type 0
CustomerLeft none customer used = Unit
CustomerLeft (some limit) none used = ⊥
CustomerLeft (some limit) (some _) used = used < limit

-- The promotion is for every branch, or for that of the cart.
abbrev pub ForBranch : List ℕ → Option ℕ → Type 0
ForBranch branch_ids branch =
    (branch_ids ≡ []) ⊎ ((b : ℕ) × (branch ≡ some b) × Any (λ x. x ≡ b) branch_ids)

-- The item is one that the promotion is about.
abbrev pub IsMeant : ApplicableRuleType → List ℕ → List ℕ → CartItem → Type 0
IsMeant all_products categories products item = Unit
IsMeant category categories products item =
    (c : ℕ) × (item.category_id ≡ some c) × Any (λ x. x ≡ c) categories
IsMeant product categories products item = Any (λ x. x ≡ item.product_item_id) products
IsMeant other categories products item = ⊥

pub record IsUsable (p : PricingPromotion) (cart : CartContext) (now : ℕ) (usage : ℕ → ℕ)
    : Type 0 where
  pub running : p.status ≡ active
  pub started : p.start_date ≤ now
  pub not_over : now ≤ p.end_date
  pub here : ForBranch p.branch_ids cart.branch_id
  pub enough : p.min_order_value ≤ cart.subtotal
  pub not_used_up : LimitLeft p.usage_limit p.used_count
  pub customer_may : CustomerLeft p.usage_limit_per_customer cart.customer_id (usage p.id)
  pub matches :
      Any (IsMeant p.applicable_rule_type p.rule_category_ids p.rule_product_item_ids) cart.items

limit_iff :
    (limit : Option ℕ) (used : ℕ) → (limit_reached limit used ≡ false) ↔ LimitLeft limit used
limit_iff none used = ground arith
limit_iff (some n) used = ground arith

customer_iff :
    (limit customer : Option ℕ) (used : ℕ)
    → (customer_reason limit customer used ≡ none) ↔ CustomerLeft limit customer used
customer_iff none customer used = ground arith
customer_iff (some n) none used = ground arith
customer_iff (some n) (some c) used = ground arith

includes?-iff :
    (xs : List ℕ) (a : Option ℕ)
    → (includes? xs a ≡ true) ↔ ((b : ℕ) × (a ≡ some b) × Any (λ x. x ≡ b) xs)
includes?-iff xs none = (λ h. absurd (ground arith), λ (b, e, _). absurd (ground arith))
includes?-iff xs (some a) = (
  λ h. (a, refl, (includes_iff xs a).0 h),
  λ (b, e, there). let same : a ≡ b = ground arith in rw same ((includes_iff xs b).1 there),
)

at_branch_iff :
    (ids : List ℕ) (branch : Option ℕ) → (at_branch ids branch ≡ true) ↔ ForBranch ids branch
at_branch_iff [] branch = (λ h. inl refl, λ h. refl)
at_branch_iff (b ∷ bs) branch =
    let listed = includes?-iff (b ∷ bs) branch in
    (
      λ h. inr (listed.0 h),
      λ h. elim h [ inl e ↦ absurd (ground arith) | inr there ↦ listed.1 there ],
    )

rule_matches_item_iff :
    (type : ApplicableRuleType) (p : PricingPromotion) (item : CartItem)
    → p.applicable_rule_type ≡ type
    → (rule_matches_item p item ≡ true)
      ↔ IsMeant type p.rule_category_ids p.rule_product_item_ids item
unfolding rule_matches_item
rule_matches_item_iff all_products p item e = (λ h. tt, λ h. rw e refl)
rule_matches_item_iff category p item e =
    let listed = includes?-iff p.rule_category_ids item.category_id in
    (λ h. listed.0 (ground arith), λ h. rw e (listed.1 h))
rule_matches_item_iff product p item e =
    let listed = includes_iff p.rule_product_item_ids item.product_item_id in
    (λ h. listed.0 (ground arith), λ h. rw e (listed.1 h))
rule_matches_item_iff other p item e = (λ h. absurd (ground arith), λ h. absurd h)

matched_iff :
    (p : PricingPromotion) (items : List CartItem)
    → (is_empty (get_matched_items p items) ≡ false)
      ↔ Any (IsMeant p.applicable_rule_type p.rule_category_ids p.rule_product_item_ids) items
unfolding get_matched_items
matched_iff p [] = (λ h. absurd (ground arith), λ h. absurd h)
matched_iff p (i ∷ is) =
    let rest = matched_iff p is in
    let one = rule_matches_item_iff p.applicable_rule_type p i refl in
    elim (Bool-cases (rule_matches_item p i)) [
      | inl e ↦ (λ h. inl (one.0 e), λ h. rw e refl)
      | inr e ↦ (
        λ h. inr (rest.0 (ground arith)),
        λ h. elim h [
          | inl meant ↦ absurd (let hit = one.1 meant in ground arith)
          | inr there ↦ rw e (rest.1 there)
        ],
      )
    ]

-- The tests of `evaluateEligibility`, all passed.
record Passes (p : PricingPromotion) (cart : CartContext) (now : ℕ) (usage : ℕ → ℕ) : Type 0 where
  running : p.status ≡ active
  started : p.start_date ≤ now
  not_over : now ≤ p.end_date
  here : at_branch p.branch_ids cart.branch_id ≡ true
  enough : p.min_order_value ≤ cart.subtotal
  not_used_up : LimitLeft p.usage_limit p.used_count
  customer_may : CustomerLeft p.usage_limit_per_customer cart.customer_id (usage p.id)
  matches : is_empty (get_matched_items p cart.items) ≡ false

evaluate_eligibility-Passes :
    (p : PricingPromotion) (cart : CartContext) (now : ℕ) (usage : ℕ → ℕ)
    → (evaluate_eligibility p cart now usage ≡ none) ↔ Passes p cart now usage
unfolding evaluate_eligibility
evaluate_eligibility-Passes p cart now usage = (
  ground (
    arith,
    limit_iff p.usage_limit p.used_count,
    customer_iff p.usage_limit_per_customer cart.customer_id (usage p.id),
  ),
  ground (
    arith,
    limit_iff p.usage_limit p.used_count,
    customer_iff p.usage_limit_per_customer cart.customer_id (usage p.id),
  ),
)

-- A promotion is eligible exactly when it is active, the time is within its dates, it is for every
-- branch or lists the cart's, the subtotal reaches its minimum, its uses are below its limit, the
-- customer is known and below the limit for each customer where there is one, and some item of the
-- cart is one that it is about: any item, or one of a listed category, or a listed product, by the
-- type of its rule, and none by a rule of another type.
pub evaluate_eligibility_iff :
    (p : PricingPromotion) (cart : CartContext) (now : ℕ) (usage : ℕ → ℕ)
    → (evaluate_eligibility p cart now usage ≡ none) ↔ IsUsable p cart now usage
evaluate_eligibility_iff p cart now usage =
    let tests = evaluate_eligibility-Passes p cart now usage in
    let branch = at_branch_iff p.branch_ids cart.branch_id in
    let matched = matched_iff p cart.items in
    (
      λ h.
          let t = tests.0 h in
          record {
            running = t.running;
            started = t.started;
            not_over = t.not_over;
            here = branch.0 t.here;
            enough = t.enough;
            not_used_up = t.not_used_up;
            customer_may = t.customer_may;
            matches = matched.0 t.matches;
          },
      λ u. tests.1 (record {
        running = u.running;
        started = u.started;
        not_over = u.not_over;
        here = branch.1 u.here;
        enough = u.enough;
        not_used_up = u.not_used_up;
        customer_may = u.customer_may;
        matches = matched.1 u.matches;
      }),
    )

percent-le : (s v : ℕ) → v ≤ 10_000 → round_div (s * v) 1_000_000 ≤ round_div s 100
unfolding round_div
percent-le s v h = omega (arith, mul-le-mul_left s h)

round_div_mono : (a b : ℕ) → a ≤ b → round_div a 100 ≤ round_div b 100
unfolding round_div
round_div_mono a b h = omega arith

percent_discount-le :
    (s v : ℕ) (limit : Option ℕ) → v ≤ 10_000 → percent_discount s v limit ≤ round s
unfolding percent_discount
percent_discount-le s v none h = omega (arith, percent-le s v h)
percent_discount-le s v (some cap) h =
    ground (arith, percent-le s v h, mul-le-mul_left s h, round_div_mono cap s)

percent_discount-le_cap : (s v cap : ℕ) → percent_discount s v (some cap) ≤ round cap
unfolding percent_discount round_div
percent_discount-le_cap s v cap = ground arith

-- The two bounds of a discount.
raw_discount-le :
    (p : PricingPromotion) (items : List CartItem)
    → (p.discount_type ≡ percent → p.discount_value ≤ 10_000)
    → (raw_discount p items ≤ round (matched_subtotal items))
      × ((cap : ℕ)
          → p.discount_type ≡ percent
          → p.max_discount_amount ≡ some cap
          → raw_discount p items ≤ round cap)
unfolding raw_discount
raw_discount-le p items h =
    let s = matched_subtotal items in
    (
      ground (
        arith,
        percent_discount-le s p.discount_value p.max_discount_amount,
        round_div_mono (min p.discount_value s) s,
      ),
      λ cap is_percent capped. ground (arith, percent_discount-le_cap s p.discount_value cap),
    )

-- A discount is never more than the matched goods are worth, rounded to a whole dong, if a percentage
-- is at most 100.
pub raw_discount-le_matched :
    (p : PricingPromotion) (items : List CartItem)
    → (p.discount_type ≡ percent → p.discount_value ≤ 10_000)
    → raw_discount p items ≤ round (matched_subtotal items)
raw_discount-le_matched p items h = (raw_discount-le p items h).0

-- A percentage of at most 100 never gives more than its cap, rounded to a whole dong.
pub raw_discount-le_cap :
    (p : PricingPromotion) (items : List CartItem) (cap : ℕ)
    → p.discount_type ≡ percent
    → p.discount_value ≤ 10_000
    → p.max_discount_amount ≡ some cap
    → raw_discount p items ≤ round cap
raw_discount-le_cap p items cap kind bound capped =
    (raw_discount-le p items (λ _. bound)).1 cap kind capped
