-- ===== src/Promotions/Engine.antt =====
-- src/modules/promotions/pricing-engine.ts, with src/modules/promotions/promotion.constants.ts.
-- Amounts are hundredths of a dong, which the Decimal(14,2) columns hold exactly, and no less than 0;
-- a percentage is in hundredths too. Quotients are exact where the source has floats. Identifiers
-- and times are numbers; the texts of the reasons are data.
pub mod Eligible
pub mod Allocate
pub mod Resolve
use ikiot_be.Prelude.{
  ℕ, suc, ◌+◌, ◌-◌, ◌*◌, ◌≤◌, ◌≡◌, Bool, true, false, not, ◌&&◌, ◌||◌, Option, none, some, List, [],
  ◌∷◌, ◌++◌, map, filter, find?, all, includes, unique, length, sum_by, min, if◌then◌else◌, ltb,
  leb, ◌==◌, Result, ok, err, ◌>>=◌, ◌>>◌, throw_if,
}
use ikiot_be.Prelude.Rounding.{round_div}

pub data PromotionStatus : Type 0 where
  active inactive : PromotionStatus

pub data DiscountType : Type 0 where
  percent fixed_amount : DiscountType

-- `other` is any text that is none of the three.
pub data ApplicableRuleType : Type 0 where
  all_products category product other : ApplicableRuleType

abbrev pub max_stacked_promotions : ℕ
max_stacked_promotions = 2

pub record PricingPromotion : Type 0 where
  pub id : ℕ
  pub promo_name : ℕ
  pub status : PromotionStatus
  pub start_date : ℕ
  pub end_date : ℕ
  pub discount_type : DiscountType
  pub discount_value : ℕ
  pub max_discount_amount : Option ℕ
  pub min_order_value : ℕ
  pub stackable : Bool
  pub usage_limit : Option ℕ
  pub usage_limit_per_customer : Option ℕ
  pub used_count : ℕ
  pub branch_ids : List ℕ
  pub applicable_rule_type : ApplicableRuleType
  pub rule_category_ids : List ℕ
  pub rule_product_item_ids : List ℕ

pub record CartItem : Type 0 where
  pub line_id : ℕ
  pub product_item_id : ℕ
  pub category_id : Option ℕ
  pub quantity : ℕ
  pub unit_price : ℕ
  pub line_total : ℕ

pub record CartContext : Type 0 where
  pub branch_id : Option ℕ
  pub customer_id : Option ℕ
  pub subtotal : ℕ
  pub items : List CartItem

pub data Reason : Type 0 where
  not_active out_of_dates wrong_branch usage_used_up customer_needed customer_used_up : Reason
  no_matching_item : Reason
  below_minimum : ℕ → Reason

-- `eligible: true, reason: null`, or a reason.
abbrev pub Verdict : Type 0
Verdict = Option Reason

abbrev pub includes? : List ℕ → Option ℕ → Bool
includes? xs none = false
includes? xs (some a) = includes xs a

unfoldable pub rule_matches_item : PricingPromotion → CartItem → Bool
rule_matches_item p item = elim p.applicable_rule_type [
  | all_products ↦ true
  | category ↦ includes? p.rule_category_ids item.category_id
  | product ↦ includes p.rule_product_item_ids item.product_item_id
  | other ↦ false
]

unfoldable pub get_matched_items : PricingPromotion → List CartItem → List CartItem
get_matched_items p = filter (rule_matches_item p)

abbrev pub is_within_date_range : PricingPromotion → ℕ → Bool
is_within_date_range p now = leb p.start_date now && leb now p.end_date

abbrev pub matched_subtotal : List CartItem → ℕ
matched_subtotal = sum_by (λ i. i.line_total)

-- `Math.round` to a whole dong of an amount in hundredths, in hundredths.
abbrev pub round : ℕ → ℕ
round amount = 100 * round_div amount 100

-- The percentage is subtotal * value / 100 with both in hundredths: subtotal * value / 10_000
-- hundredths.
unfoldable pub percent_discount : ℕ → ℕ → Option ℕ → ℕ
percent_discount subtotal value none = 100 * round_div (subtotal * value) 1_000_000
percent_discount subtotal value (some cap) =
    if leb (subtotal * value) (cap * 10_000)
    then 100 * round_div (subtotal * value) 1_000_000
    else round cap

unfoldable pub raw_discount : PricingPromotion → List CartItem → ℕ
unfolding percent_discount
raw_discount p items =
    let subtotal = matched_subtotal items in
    elim p.discount_type [
      | percent ↦ percent_discount subtotal p.discount_value p.max_discount_amount
      | fixed_amount ↦ round (min p.discount_value subtotal)
    ]

-- `usageLimit !== null && used >= usageLimit`.
abbrev pub limit_reached : Option ℕ → ℕ → Bool
limit_reached none used = false
limit_reached (some limit) used = leb limit used

abbrev pub at_branch : List ℕ → Option ℕ → Bool
at_branch [] branch = true
at_branch (b ∷ bs) branch = includes? (b ∷ bs) branch

-- The limit for each customer: a cart with no customer is refused.
abbrev pub customer_reason : Option ℕ → Option ℕ → ℕ → Option Reason
customer_reason none customer used = none
customer_reason (some limit) none used = some customer_needed
customer_reason (some limit) (some _) used = if leb limit used then some customer_used_up else none

abbrev pub is_active : PromotionStatus → Bool
is_active active = true
is_active inactive = false

abbrev pub is_empty {ℓ} : {A : Type ℓ} → List A → Bool
is_empty [] = true
is_empty (x ∷ xs) = false

abbrev pub or_then {ℓ} : {A : Type ℓ} → Option A → Option A → Option A
or_then none d = d
or_then (some a) d = some a

-- The early returns of `evaluateEligibility`, in their order. `usage` counts the uses of the cart's
-- customer, 0 where it has no entry.
unfoldable pub evaluate_eligibility : PricingPromotion → CartContext → ℕ → (ℕ → ℕ) → Verdict
evaluate_eligibility p cart now usage =
    if not (is_active p.status)
    then some not_active
    else (if not (is_within_date_range p now)
        then some out_of_dates
        else (if not (at_branch p.branch_ids cart.branch_id)
            then some wrong_branch
            else (if ltb cart.subtotal p.min_order_value
                then some (below_minimum p.min_order_value)
                else (if limit_reached p.usage_limit p.used_count
                    then some usage_used_up
                    else or_then
                        (customer_reason p.usage_limit_per_customer cart.customer_id (usage p.id))
                        (if is_empty (get_matched_items p cart.items)
                          then some no_matching_item
                          else none)))))

pub record CandidateEntry : Type 0 where
  pub promotion : PricingPromotion
  pub reason : Verdict
  pub matched_items : List CartItem
  pub preview_discount : ℕ

abbrev candidate : CartContext → ℕ → (ℕ → ℕ) → PricingPromotion → CandidateEntry
candidate cart now usage p =
    let reason = evaluate_eligibility p cart now usage in
    let matched = get_matched_items p cart.items in
    record {
      promotion = p;
      reason = reason;
      matched_items = matched;
      preview_discount = elim reason [ none ↦ raw_discount p matched | some _ ↦ 0 ];
    }

unfoldable pub build_candidate_list :
    List PricingPromotion → CartContext → ℕ → (ℕ → ℕ) → List CandidateEntry
build_candidate_list ps cart now usage = map (candidate cart now usage) ps

pub record Applied : Type 0 where
  pub promotion_id : ℕ
  pub promo_name : ℕ
  pub matched_items : List CartItem
  pub discount : ℕ

-- `perLine`: a Map from line to amount, where a missing line reads as 0.
abbrev pub PerLine : Type 0
PerLine = ℕ → ℕ

abbrev pub put : ℕ → ℕ → PerLine → PerLine
put i v m j = if i == j then v else m j

-- `round((lineTotal / subtotal) * discount)`, all in hundredths.
unfoldable pub share : ℕ → ℕ → ℕ → ℕ
share line_total subtotal discount = 100 * round_div (line_total * discount) (100 * subtotal)

unfoldable pub add_shares : ℕ → ℕ → List CartItem → PerLine → PerLine
add_shares subtotal discount [] m = m
add_shares subtotal discount (item ∷ items) m =
    add_shares subtotal discount items
      (put item.line_id (m item.line_id + share item.line_total subtotal discount) m)

unfoldable pub add_all_shares : List Applied → PerLine → PerLine
add_all_shares [] m = m
add_all_shares (a ∷ others) m =
    let subtotal = matched_subtotal a.matched_items in
    let rest = add_all_shares others in
    if subtotal == 0 || a.discount == 0
    then rest m
    else rest (add_shares subtotal a.discount a.matched_items m)

unfoldable pub clamp_line : CartItem → PerLine → PerLine
clamp_line item m =
    if ltb item.line_total (m item.line_id) then put item.line_id item.line_total m else m

unfoldable pub clamp_lines : List CartItem → PerLine → PerLine
unfolding clamp_line
clamp_lines [] m = m
clamp_lines (item ∷ items) m = clamp_lines items (clamp_line item m)

-- `applied.flatMap((entry) => entry.matchedItems)`.
abbrev pub matched_lines : List Applied → List CartItem
matched_lines [] = []
matched_lines (a ∷ others) = a.matched_items ++ matched_lines others

unfoldable pub allocate_per_item_discount : List Applied → PerLine
unfolding add_all_shares add_shares clamp_lines share
allocate_per_item_discount applied =
    clamp_lines (matched_lines applied) (add_all_shares applied (λ _. 0))

pub record ItemDiscount : Type 0 where
  pub product_item_id : ℕ
  pub discount_amount : ℕ

pub record PricingResult : Type 0 where
  pub applied_promotions : List Applied
  pub total_discount : ℕ
  pub item_breakdown : List ItemDiscount
  pub grand_total : ℕ

abbrev pub break_down : PerLine → CartItem → ItemDiscount
break_down m item = record {
  product_item_id = item.product_item_id;
  discount_amount = m item.line_id;
}

unfoldable pub empty_result : CartContext → PricingResult
empty_result cart = record {
  applied_promotions = [];
  total_discount = 0;
  item_breakdown = map (break_down (λ _. 0)) cart.items;
  grand_total = round cart.subtotal;
}

pub data PricingError : Type 0 where
  promotion_stack_limit promotion_not_applicable promotion_not_stackable : PricingError
  promotion_not_eligible : ℕ → Reason → PricingError

-- `byId.get`: of two candidates with one id the Map keeps the last.
abbrev pub by_id : ℕ → List PricingPromotion → Option PricingPromotion
by_id i [] = none
by_id i (p ∷ ps) = or_then (by_id i ps) (if p.id == i then some p else none)

unfoldable pub resolve_one :
    List PricingPromotion → CartContext → ℕ → (ℕ → ℕ) → ℕ → Result PricingError PricingPromotion
resolve_one ps cart now usage i = elim (by_id i ps) [
  | none ↦ err promotion_not_applicable
  | some p ↦ elim (evaluate_eligibility p cart now usage) [
    | none ↦ ok p
    | some reason ↦ err (promotion_not_eligible p.promo_name reason)
  ]
]

unfoldable pub resolve_ids :
    List PricingPromotion
    → CartContext
    → ℕ
    → (ℕ → ℕ)
    → List ℕ
    → Result PricingError (List PricingPromotion)
unfolding resolve_one
resolve_ids ps cart now usage [] = ok []
resolve_ids ps cart now usage (i ∷ is) = do
  p ← resolve_one ps cart now usage i
  rest ← resolve_ids ps cart now usage is
  ok (p ∷ rest)

abbrev pub compute : CartContext → PricingPromotion → Applied
compute cart p =
    let matched = get_matched_items p cart.items in
    record {
      promotion_id = p.id;
      promo_name = p.promo_name;
      matched_items = matched;
      discount = raw_discount p matched;
    }

-- The result, from the promotions that are applied.
unfoldable pub price : CartContext → List Applied → PricingResult
unfolding allocate_per_item_discount
price cart applied =
    let per_line = allocate_per_item_discount applied in
    let breakdown = map (break_down per_line) cart.items in
    let total = min (sum_by (λ d. d.discount_amount) breakdown) cart.subtotal in
    record {
      applied_promotions = applied;
      total_discount = round total;
      item_breakdown = breakdown;
      grand_total = round (cart.subtotal - total);
    }

unfoldable pub resolve_selected_promotions :
    List PricingPromotion → List ℕ → CartContext → ℕ → (ℕ → ℕ) → Result PricingError PricingResult
unfolding resolve_ids price empty_result
resolve_selected_promotions ps selected cart now usage = elim (unique selected) [
  | [] ↦ ok (empty_result cart)
  | i ∷ is ↦ do
    throw_if (ltb max_stacked_promotions (length (i ∷ is))) promotion_stack_limit
    resolved ← resolve_ids ps cart now usage (i ∷ is)
    throw_if (ltb 1 (length resolved) && not (all (λ p. p.stackable) resolved))
        promotion_not_stackable
    ok (price cart (map (compute cart) resolved))
]
