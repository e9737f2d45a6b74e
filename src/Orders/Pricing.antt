-- ===== src/Orders/Pricing.antt =====
-- src/modules/orders/order-pricing.service.ts, with the cart that
-- src/modules/promotions/promotions.service.ts builds for the engine. Amounts are hundredths of a
-- dong; the product table is the function of its primary key.
pub mod Preview
use ikiot_be.Prelude.{
  ℕ, suc, ◌+◌, ◌-◌, ◌*◌, ◌≡◌, Bool, true, false, not, ◌&&◌, ◌||◌, Option, none, some, List, [], ◌∷◌,
  map, filter, any, includes, unique, length, sum_by, min, if◌then◌else◌, ltb, leb, ◌==◌, Result,
  ok, err, ◌>>=◌, ◌>>◌, throw_if,
}
use ikiot_be.Orders.Journey.{OrderLineType}
use ikiot_be.Promotions.Engine.{
  PricingPromotion, PromotionStatus, CartItem, CartContext, PricingError, PricingResult, Applied,
  ItemDiscount, round, is_within_date_range, resolve_selected_promotions,
}

-- `ORDER`, `PROMOTION`, or another text.
pub data OrderDiscountType : Type 0 where
  whole_order promotion other_discount : OrderDiscountType

pub record ProductItem : Type 0 where
  pub sku : Option ℕ
  pub product_name : ℕ
  pub retail_price : ℕ
  pub vat : Option ℕ
  pub item_type : OrderLineType
  pub product_category_id : Option ℕ

pub record PricingLineInput : Type 0 where
  pub product_item_id : ℕ
  pub quantity : ℕ
  pub unit_price : Option ℕ
  pub discount_amount : Option ℕ

pub record PricingInput : Type 0 where
  pub branch_id : ℕ
  pub customer_id : Option ℕ
  pub items : List PricingLineInput
  pub promotion_ids : List ℕ
  pub discount_type : Option OrderDiscountType
  pub discount_value : Option ℕ

pub record PricedLine : Type 0 where
  pub product_item_id : ℕ
  pub product_name : ℕ
  pub sku : Option ℕ
  pub item_type : OrderLineType
  pub vat_rate : Option ℕ
  pub quantity : ℕ
  pub list_unit_price : ℕ
  pub unit_price : ℕ
  pub discount_amount : ℕ

pub record PricedOrder : Type 0 where
  pub lines : List PricedLine
  pub applied_promotions : List Applied
  pub discount_type : Option OrderDiscountType
  pub discount_value : ℕ

pub data OrderPricingError : Type 0 where
  product_item_not_found line_discount_exceeds_total discount_value_required discount_conflict
        promotion_allocation_mismatch branch_not_found customer_not_found :
      OrderPricingError
  promotion_error : PricingError → OrderPricingError

-- What the pricing reads: the tenant's products, branches, customers and promotions, and how often a
-- customer has used each promotion.
pub record Shop : Type 0 where
  pub product_items : ℕ → Option ProductItem
  pub branches : List ℕ
  pub customers : List ℕ
  pub promotions : List PricingPromotion
  pub usage_counts : ℕ → ℕ → ℕ

abbrev pub is_some : {A : Type 0} → Option A → Bool
is_some none = false
is_some (some a) = true

abbrev pub get_or {ℓ} : {A : Type ℓ} → A → Option A → A
get_or d none = d
get_or d (some a) = a

-- `variants.length !== ids.length`.
abbrev pub all_found : Shop → List ℕ → Bool
all_found shop ids = length (filter (λ i. is_some (shop.product_items i)) ids) == length ids

unfoldable pub price_line : ProductItem → PricingLineInput → Result OrderPricingError PricedLine
price_line variant item =
    let unit_price = get_or variant.retail_price item.unit_price in
    let discount_amount = get_or 0 item.discount_amount in
    let line_total = round (item.quantity * unit_price) in
    throw_if (ltb line_total discount_amount) line_discount_exceeds_total
    >> ok (record {
      product_item_id = item.product_item_id;
      product_name = variant.product_name;
      sku = variant.sku;
      item_type = variant.item_type;
      vat_rate = variant.vat;
      quantity = item.quantity;
      list_unit_price = variant.retail_price;
      unit_price = unit_price;
      discount_amount = discount_amount;
    })

unfoldable pub price_each :
    Shop → List PricingLineInput → Result OrderPricingError (List PricedLine)
unfolding price_line
price_each shop [] = ok []
price_each shop (item ∷ items) = elim (shop.product_items item.product_item_id) [
  | none ↦ err product_item_not_found
  | some variant ↦ do
    line ← price_line variant item
    lines ← price_each shop items
    ok (line ∷ lines)
]

unfoldable pub price_lines :
    Shop → List PricingLineInput → Result OrderPricingError (List PricedLine)
unfolding price_each
price_lines shop items =
    let ids = unique (map (λ i. i.product_item_id) items) in
    throw_if (not (all_found shop ids)) product_item_not_found >> price_each shop items

-- `lineTotalOf`.
unfoldable pub line_total_of : PricedLine → ℕ
line_total_of line = round (line.quantity * line.unit_price) - line.discount_amount

abbrev pub is_whole_order : Option OrderDiscountType → Bool
is_whole_order none = false
is_whole_order (some whole_order) = true
is_whole_order (some promotion) = false
is_whole_order (some other_discount) = false

-- `grandTotalOf`.
unfoldable pub grand_total_of : List PricedLine → Option OrderDiscountType → ℕ → ℕ
grand_total_of lines discount_type discount_value =
    let after_line_discounts = sum_by line_total_of lines in
    let order_discount =
      if is_whole_order discount_type then min discount_value after_line_discounts else 0 in
    round (after_line_discounts - order_discount)

-- A line of `PriceCartDto`.
pub record PriceCartItem : Type 0 where
  pub item_id : ℕ
  pub item_quantity : ℕ

abbrev pub cart_line : ℕ → PriceCartItem → ProductItem → CartItem
cart_line line_id item variant = record {
  line_id = line_id;
  product_item_id = item.item_id;
  category_id = variant.product_category_id;
  quantity = item.item_quantity;
  unit_price = variant.retail_price;
  line_total = round (item.item_quantity * variant.retail_price);
}

-- The lines of `buildCartContext`, the index as the line's identity.
unfoldable pub cart_items : Shop → ℕ → List PriceCartItem → Result OrderPricingError (List CartItem)
cart_items shop line_id [] = ok []
cart_items shop line_id (item ∷ items) = elim (shop.product_items item.item_id) [
  | none ↦ err product_item_not_found
  | some variant ↦ do
    rest ← cart_items shop (suc line_id) items
    ok (cart_line line_id item variant ∷ rest)
]

unfoldable pub build_cart_context :
    Shop → ℕ → Option ℕ → List PriceCartItem → Result OrderPricingError CartContext
unfolding cart_items
build_cart_context shop branch_id customer_id items = do
  throw_if (not (all_found shop (unique (map (λ i. i.item_id) items)))) product_item_not_found
  lines ← cart_items shop 0 items
  ok (record {
    branch_id = some branch_id;
    customer_id = customer_id;
    subtotal = sum_by (λ i. i.line_total) lines;
    items = lines;
  })

abbrev pub is_active : PromotionStatus → Bool
is_active PromotionStatus.active = true
is_active PromotionStatus.inactive = false

abbrev pub is_candidate : ℕ → ℕ → PricingPromotion → Bool
is_candidate branch_id now p =
    is_active p.status
    && (is_within_date_range p now && (length p.branch_ids == 0 || includes p.branch_ids branch_id))

-- `customerUsageCounts`: an uncapped promotion is not counted.
abbrev pub customer_usage_counts : Shop → Option ℕ → List PricingPromotion → ℕ → ℕ
customer_usage_counts shop none candidates p = 0
customer_usage_counts shop (some customer) candidates p =
    if any (λ c. c.id == p && is_some c.usage_limit_per_customer) candidates
    then shop.usage_counts customer p
    else 0

abbrev pub known_customer : Shop → Option ℕ → Bool
known_customer shop none = true
known_customer shop (some customer) = includes shop.customers customer

abbrev pub lift_pricing : Result PricingError PricingResult → Result OrderPricingError PricingResult
lift_pricing (ok r) = ok r
lift_pricing (err e) = err (promotion_error e)

-- `PromotionService.calculate` for a cart with a branch, as `priceOrder` calls it. A call without a
-- branch and one on an existing order (`dto.orderId`) are left out.
unfoldable pub calculate :
    Shop → ℕ → ℕ → Option ℕ → List PriceCartItem → List ℕ → Result OrderPricingError PricingResult
unfolding build_cart_context
calculate shop now branch_id customer_id items promotion_ids = do
  throw_if (not (includes shop.branches branch_id)) branch_not_found
  throw_if (not (known_customer shop customer_id)) customer_not_found
  cart ← build_cart_context shop branch_id customer_id items
  let candidates = filter (is_candidate branch_id now) shop.promotions in
      lift_pricing (
        resolve_selected_promotions candidates promotion_ids cart now
          (customer_usage_counts shop customer_id candidates))

abbrev pub to_cart_item : PricedLine → PriceCartItem
to_cart_item line = record { item_id = line.product_item_id; item_quantity = line.quantity }

abbrev pub with_discount : PricedLine → ℕ → PricedLine
with_discount line d = record {
  product_item_id = line.product_item_id;
  product_name = line.product_name;
  sku = line.sku;
  item_type = line.item_type;
  vat_rate = line.vat_rate;
  quantity = line.quantity;
  list_unit_price = line.list_unit_price;
  unit_price = line.unit_price;
  discount_amount = d;
}

-- The lines with the engine's discounts, matched by position.
unfoldable pub put_discounts : List PricedLine → List ItemDiscount → List PricedLine
put_discounts [] ds = []
put_discounts (line ∷ lines) [] = line ∷ lines
put_discounts (line ∷ lines) (d ∷ ds) =
    with_discount line d.discount_amount ∷ put_discounts lines ds

-- `!input.discountValue`.
abbrev pub is_zero : Option ℕ → Bool
is_zero none = true
is_zero (some v) = v == 0

unfoldable pub price_order : Shop → ℕ → PricingInput → Result OrderPricingError PricedOrder
unfolding price_lines calculate put_discounts
price_order shop now input = do
  lines ← price_lines shop input.items
  elim (unique input.promotion_ids) [
    | [] ↦
        throw_if (is_whole_order input.discount_type && is_zero input.discount_value)
          discount_value_required
        >> ok (record {
          lines = lines;
          applied_promotions = [];
          discount_type = input.discount_type;
          discount_value = get_or 0 input.discount_value;
        })
    | i ∷ is ↦ do
      throw_if (is_whole_order input.discount_type) discount_conflict
      throw_if (any (λ l. not (l.unit_price == l.list_unit_price)) lines) discount_conflict
      pricing ←
          calculate shop now input.branch_id input.customer_id (map to_cart_item lines) (i ∷ is)
      throw_if (not (length pricing.item_breakdown == length lines)) promotion_allocation_mismatch
      ok (record {
        lines = put_discounts lines pricing.item_breakdown;
        applied_promotions = pricing.applied_promotions;
        discount_type = some promotion;
        discount_value = pricing.total_discount;
      })
  ]
