-- ===== src/Tests/Money.antt =====
-- Runs of the promotion engine, the order's pricing, the refunds and the cash reconciliation.
use ikiot_be.Prelude.{
  ℕ, ◌+◌, ◌*◌, ◌≤◌, ◌<◌, ◌≡◌, ◌↔◌, ◌⊎◌, ◌++◌, refl, true, Option, none, some, List, [], ◌∷◌, map,
  length, All, sum_by, ok, err, if◌then◌else◌, ◌==◌, sort_by, unique,
}
use ikiot_be.Prelude.Int.{pos}
use ikiot_be.Prelude.Rounding.{round_div}
use ikiot_be.Prelude.Sums.{sum_ℤ}
use ikiot_be.Orders.Journey.{product}
use ikiot_be.Promotions.Engine.{
  PricingPromotion, PromotionStatus, DiscountType, ApplicableRuleType, CartItem, CartContext,
  Applied, PricingResult, evaluate_eligibility, raw_discount, round, resolve_selected_promotions,
  get_matched_items, rule_matches_item, compute, price,
}
use ikiot_be.Promotions.Engine.Eligible.{IsUsable, evaluate_eligibility_iff}
use ikiot_be.Promotions.Engine.Resolve.{IsCart, IsSound, Accepted, resolve_selected-IsSound}
use ikiot_be.Orders.Pricing.{
  Shop, PricedLine, PricingInput, PricedOrder, price_order, price_lines, calculate, grand_total_of,
  to_cart_item, promotion,
}
use ikiot_be.Orders.Pricing.Preview.{price_order-eq-preview}
use ikiot_be.Orders.Payments.{
  Payment, OrderPaymentStatus, PaymentKind, PaymentMethod, paid, ResolvedRefund, RefundError,
  resolve_refund, received_rows,
}
use ikiot_be.Orders.Payments.Refund.{
  refund_row, held_of, Refunds, resolve_refund-conserves, resolve_refund_outcome,
}
use ikiot_be.Cash.Reconcile.{
  FlowType, ShiftLogType, CashMovement, ShiftLogEntry, ReconcileInput, amount_in, amount_out,
  split_at_log, summarize_variance, reconcile_session,
}
use ikiot_be.Cash.Reconcile.Chain.{variance_of, summarize_variance-eq-totals, split_at_log_bounds}
use ikiot_be.Cash.Reconcile.Windows.{Counts}
use ikiot_be.Cash.Reconcile.Account.{reconcile_session_accounts}
use ikiot_be.Orders.Pickup.{pickup_amount_due}
use ikiot_be.Orders.Pickup.Due.{counter_row, pickup_amount_due-settles}

-- 10 % off product 3, up to 150 dong.
abbrev tenth : PricingPromotion
tenth = record {
  id = 1;
  promo_name = 1;
  status = PromotionStatus.active;
  start_date = 0;
  end_date = 100;
  discount_type = DiscountType.percent;
  discount_value = 1_000;
  max_discount_amount = some 15_000;
  min_order_value = 0;
  stackable = true;
  usage_limit = none;
  usage_limit_per_customer = none;
  used_count = 0;
  branch_ids = [];
  applicable_rule_type = ApplicableRuleType.product;
  rule_category_ids = [];
  rule_product_item_ids = 3 ∷ [];
}

abbrev cart_item : ℕ → ℕ → ℕ → CartItem
cart_item i p total = record {
  line_id = i;
  product_item_id = p;
  category_id = none;
  quantity = 1;
  unit_price = total;
  line_total = total;
}

abbrev cart_lines : List CartItem
cart_lines = cart_item 0 3 100_000 ∷ cart_item 1 4 50_000 ∷ []

abbrev cart : CartContext
cart = record { branch_id = some 2; customer_id = none; subtotal = 150_000; items = cart_lines }

abbrev no_use : ℕ → ℕ
no_use p = 0

evaluate_eligibility_iff_example :
    (evaluate_eligibility tenth cart 50 no_use ≡ none) ↔ IsUsable tenth cart 50 no_use
evaluate_eligibility_iff_example = evaluate_eligibility_iff tenth cart 50 no_use

abbrev applied : List Applied
applied =
    record {
      promotion_id = 1;
      promo_name = 1;
      matched_items = cart_item 0 3 100_000 ∷ [];
      discount = 10_000;
    }
    ∷ []

abbrev totals : ℕ → ℕ
totals j = if j == 0 then 100_000 else 50_000

cart-IsCart_run : IsCart cart
cart-IsCart_run = record {
  total_of = totals;
  identified = (refl, (refl, tt));
  whole = (refl, (refl, tt));
  adds_up = refl;
}

abbrev cart_result : PricingResult
cart_result = price cart (map (compute cart) (tenth ∷ []))

resolve_selected-IsSound_example :
    Accepted (tenth ∷ []) (1 ∷ []) cart 50 no_use cart_result × IsSound cart cart_result
unfolding resolve_selected_promotions unique evaluate_eligibility get_matched_items
    rule_matches_item
resolve_selected-IsSound_example =
    resolve_selected-IsSound (tenth ∷ []) (1 ∷ []) cart 50 no_use cart_result cart-IsCart_run refl

abbrev shop : Shop
shop = record {
  product_items = λ p. some (record {
    sku = none;
    product_name = p;
    retail_price = if p == 3 then 100_000 else 50_000;
    vat = none;
    item_type = product;
    product_category_id = none;
  });
  branches = 2 ∷ [];
  customers = [];
  promotions = tenth ∷ [];
  usage_counts = λ c p. 0;
}

abbrev input : PricingInput
input = record {
  branch_id = 2;
  customer_id = none;
  items =
      record { product_item_id = 3; quantity = 1; unit_price = none; discount_amount = none }
      ∷ record { product_item_id = 4; quantity = 1; unit_price = none; discount_amount = none }
      ∷ [];
  promotion_ids = 1 ∷ [];
  discount_type = none;
  discount_value = none;
}

abbrev sold_line : ℕ → ℕ → ℕ → PricedLine
sold_line p price discount = record {
  product_item_id = p;
  product_name = p;
  sku = none;
  item_type = product;
  vat_rate = none;
  quantity = 1;
  list_unit_price = price;
  unit_price = price;
  discount_amount = discount;
}

abbrev order : PricedOrder
order = record {
  lines = sold_line 3 100_000 10_000 ∷ sold_line 4 50_000 0 ∷ [];
  applied_promotions = applied;
  discount_type = some promotion;
  discount_value = 10_000;
}

price_order-eq-preview_example :
    (ls : List PricedLine) × (r : PricingResult) × (price_lines shop input.items ≡ ok ls)
    × (calculate shop 50 2 none (map to_cart_item ls) (1 ∷ []) ≡ ok r)
    × (grand_total_of order.lines (some promotion) 10_000 ≡ r.grand_total)
    × (10_000 ≡ r.total_discount)
    × (r.total_discount + r.grand_total ≡ sum_by (λ l. round (l.quantity * l.list_unit_price)) ls)
unfolding price_order unique round_div resolve_selected_promotions evaluate_eligibility
    get_matched_items rule_matches_item raw_discount
price_order-eq-preview_example = price_order-eq-preview shop 50 input 1 [] order refl refl

abbrev payment : ℕ → PaymentKind → ℕ → ℕ → Payment
payment i kind amount at = record {
  id = i;
  kind = kind;
  status = paid;
  method = PaymentMethod.sepay;
  amount = amount;
  created_at = at;
}

abbrev payments : List Payment
payments = payment 1 PaymentKind.deposit 200_000 5 ∷ payment 2 PaymentKind.balance 300_000 9 ∷ []

abbrev refund_result : ResolvedRefund
refund_result = record {
  held = 500_000;
  amount = 100_000;
  method = PaymentMethod.bank_transfer;
  refund_of_payment_id = 2;
  payment_status = some OrderPaymentStatus.partially_refunded;
}

resolve_refund-conserves_example :
    (0 < 500_000)
    × (500_000 ≡ held_of payments)
    × (100_000 ≤ 500_000)
    × (held_of (refund_row 3 10 refund_result ∷ payments) + 100_000 ≡ 500_000)
    × ((latest : Payment) × (others : List Payment) × (received_rows payments ≡ latest ∷ others)
        × (2 ≡ latest.id)
        × All (λ p. p.created_at ≤ latest.created_at) others)
unfolding resolve_refund sort_by round_div
resolve_refund-conserves_example =
    resolve_refund-conserves payments (some 100_000) none 3 10 refund_result refl

abbrev part : Option ℕ
part = some 100_000

resolve_refund_outcome_example :
    ((held_of payments ≡ 0)
      × ((part ≡ none) ⊎ (part ≡ some 0))
      × (resolve_refund payments part none ≡ ok none))
    ⊎ ((held_of payments ≡ 0)
        × (amount : ℕ) × (part ≡ some amount)
        × (0 < amount)
        × (resolve_refund payments part none ≡ err RefundError.refund_exceeds_deposit))
    ⊎ ((0 < held_of payments)
        × (part ≡ none)
        × (resolve_refund payments part none ≡ err RefundError.refund_amount_required))
    ⊎ ((0 < held_of payments)
        × (amount : ℕ) × (part ≡ some amount)
        × (held_of payments < round amount)
        × (resolve_refund payments part none ≡ err RefundError.refund_exceeds_deposit))
    ⊎ ((0 < held_of payments)
        × (amount : ℕ) × (part ≡ some amount)
        × (round amount ≤ held_of payments)
        × (r : ResolvedRefund) × (resolve_refund payments part none ≡ ok (some r))
        × Refunds (received_rows payments) (held_of payments) (round amount) none r)
resolve_refund_outcome_example = resolve_refund_outcome payments part none

pickup_amount_due-settles_example :
    pickup_amount_due 800_000
      (counter_row 4 11 PaymentMethod.cash (pickup_amount_due 800_000 payments) ∷ payments)
    ≡ 0
pickup_amount_due-settles_example =
    pickup_amount_due-settles 800_000 payments 4 11 PaymentMethod.cash

-- A day that one shift ends and whose second half lacks 10 dong.
abbrev moved : ℕ → FlowType → ℕ → CashMovement
moved at flow amount = record { at = at; flow_type = flow; amount = pos amount }

abbrev shift_end : ShiftLogEntry
shift_end = record {
  log_type = ShiftLogType.end;
  staff_id = 4;
  amount = pos 60_000;
  logged_at = 20;
}

abbrev day : ReconcileInput
day = record {
  opening_amount = pos 50_000;
  final_amount = some (pos 64_000);
  shift_logs = shift_end ∷ [];
  movements = moved 30 FlowType.income 5_000 ∷ moved 10 FlowType.income 10_000 ∷ [];
}

reconcile_session_accounts_example :
    let r = reconcile_session day in
    (length r.segments ≡ 2)
    × All (Counts day.movements) r.segments
    × (sum_ℤ (λ s. s.cash_in) r.segments ≡ r.totals.cash_in)
    × (sum_ℤ (λ s. s.cash_out) r.segments ≡ r.totals.cash_out)
    × (sum_by (λ s. s.movement_count) r.segments ≡ 2)
    × (r.totals.variance ≡ some (sum_ℤ variance_of r.segments))
reconcile_session_accounts_example = reconcile_session_accounts day

summarize_variance-eq-totals_example :
    summarize_variance
      (pos 50_000)
      (some (pos 64_000))
      (sum_ℤ amount_in day.movements)
      (sum_ℤ amount_out day.movements)
    ≡ (reconcile_session day).totals
summarize_variance-eq-totals_example = summarize_variance-eq-totals day

abbrev in_order : List CashMovement
in_order = moved 10 FlowType.income 10_000 ∷ moved 20 FlowType.income 5_000 ∷ []

split_at_log_bounds_example :
    let (here, later) = split_at_log (some shift_end) in_order in
    (here ++ later ≡ in_order) × All (λ m. m.at < 20) here × All (λ m. 20 ≤ m.at) later
split_at_log_bounds_example = split_at_log_bounds shift_end in_order ((refl, tt), (tt, tt))
