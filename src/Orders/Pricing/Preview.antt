-- ===== src/Orders/Pricing/Preview.antt =====
-- The order's money is the money that the promotion engine previewed.
use ikiot_be.Prelude.{
  ℕ, suc, ◌+◌, ◌-◌, ◌*◌, ◌≤◌, ◌≡◌, refl, ap, ◌∙◌, Bool, false, not, ◌||◌, Option, some, List, [],
  ◌∷◌, map, filter, any, All, includes, unique, length, sum_by, if◌then◌else◌, ltb, ◌==◌,
  Bool-cases, Option-cases, Result-cases, inl, inr, ok, arith, throw_if, >>=-eq-ok,
}
use mathlib.Core.Path.{subst}
use ikiot_be.Prelude.Rounding.{round_div}
use ikiot_be.Promotions.Engine.{
  CartItem, CartContext, PerLine, PricingResult, break_down, round, resolve_selected_promotions,
  matched_subtotal,
}
use ikiot_be.Promotions.Engine.Resolve.{IsCart, IsSound, IsWhole, resolve_selected-IsSound}
use ikiot_be.Orders.Pricing.{
  Shop, ProductItem, PricedLine, PricingLineInput, PricingInput, PricedOrder, PriceCartItem,
  promotion, price_line, price_each, price_lines, price_order, line_total_of, grand_total_of,
  cart_items, cart_line, build_cart_context, calculate, to_cart_item, put_discounts,
  product_item_not_found, known_customer, is_whole_order, get_or, all_found, is_candidate,
  customer_usage_counts,
}

-- The total of the cart's line with identity `j`, of lines numbered from `k`.
abbrev total_at : ℕ → List CartItem → ℕ → ℕ
total_at k [] j = 0
total_at k (c ∷ cs) j = if j == k then c.line_total else total_at (suc k) cs j

abbrev Numbered : (ℕ → ℕ) → ℕ → CartItem → Type 0
Numbered f k c = (k ≤ c.line_id) × (c.line_total ≡ f c.line_id) × IsWhole c.line_total

number_from :
    (k : ℕ) (c : CartItem) (cs ds : List CartItem)
    → All (Numbered (total_at (suc k) cs) (suc k)) ds
    → All (Numbered (total_at k (c ∷ cs)) k) ds
number_from k c cs [] h = tt
number_from k c cs (d ∷ ds) h =
    ((omega (arith, h.0.0), ground arith, h.0.2), number_from k c cs ds h.1)

round-IsWhole : (n : ℕ) → IsWhole (round n)
round-IsWhole n = omega arith

cart_items-cons :
    (shop : Shop) (k : ℕ) (i : PriceCartItem) (is : List PriceCartItem) {cs : List CartItem}
    → cart_items shop k (i ∷ is) ≡ ok cs
    → (v : ProductItem) × (shop.product_items i.item_id ≡ some v)
      × (rest : List CartItem) × (cart_items shop (suc k) is ≡ ok rest)
      × (cs ≡ cart_line k i v ∷ rest)
unfolding cart_items
cart_items-cons shop k i is h = elim (Option-cases (shop.product_items i.item_id)) [
  | inl e ↦ absurd (ground arith)
  | inr (v, e) ↦ elim (Result-cases (cart_items shop (suc k) is)) [
    | inl (rest, ran) ↦ (v, e, rest, ran, ground arith)
    | inr (x, threw) ↦ absurd (ground arith)
  ]
]

cart_items-Numbered :
    (shop : Shop) (k : ℕ) (items : List PriceCartItem) {cs : List CartItem}
    → cart_items shop k items ≡ ok cs
    → All (Numbered (total_at k cs) k) cs
unfolding cart_items
cart_items-Numbered shop k [] {cs} h =
    let e : [] ≡ cs = cc in subst (λ ds. All (Numbered (total_at k ds) k) ds) e tt
cart_items-Numbered shop k (i ∷ is) {cs} h =
    let (v, found, rest, ran, same) = cart_items-cons shop k i is h in
    let c = cart_line k i v in
    rw same (
      (omega arith, ground arith, round-IsWhole (i.item_quantity * v.retail_price)),
      number_from k c rest rest (cart_items-Numbered shop (suc k) is ran),
    )

-- A cart that the service builds is one that the engine's theorems are about.
subtotal-IsCart :
    (cart : CartContext) (cs : List CartItem)
    → All (Numbered (total_at 0 cs) 0) cs
    → cart.items ≡ cs
    → cart.subtotal ≡ matched_subtotal cs
    → IsCart cart
subtotal-IsCart cart cs h items sum = record {
  total_of = total_at 0 cs;
  identified = rw items (totals cs h);
  whole = rw items (wholes cs h);
  adds_up = rw items sum;
}
  where
    totals :
        (ds : List CartItem)
        → All (Numbered (total_at 0 cs) 0) ds
        → All (λ c. c.line_total ≡ total_at 0 cs c.line_id) ds
    totals [] a = tt
    totals (d ∷ ds) a = (a.0.1, totals ds a.1)

    wholes :
        (ds : List CartItem)
        → All (Numbered (total_at 0 cs) 0) ds
        → All (λ c. IsWhole c.line_total) ds
    wholes [] a = tt
    wholes (d ∷ ds) a = (a.0.2, wholes ds a.1)

build_cart_context-IsCart :
    (shop : Shop) (branch : ℕ) (customer : Option ℕ) (items : List PriceCartItem)
    {cart : CartContext}
    → build_cart_context shop branch customer items ≡ ok cart
    → IsCart cart × (cart_items shop 0 items ≡ ok cart.items)
unfolding build_cart_context
build_cart_context-IsCart shop branch customer items {cart} h =
    elim (Bool-cases (all_found shop (unique (map (λ i. i.item_id) items)))) [
      | inr e ↦ absurd (ground arith)
      | inl e ↦ elim (Result-cases (cart_items shop 0 items)) [
        | inr (x, threw) ↦ absurd (ground arith)
        | inl (cs, ran) ↦
            let lines : cart.items ≡ cs = ground arith in
            let sum : cart.subtotal ≡ matched_subtotal cs = ground arith in
            (subtotal-IsCart cart cs (cart_items-Numbered shop 0 items ran) lines sum, rw lines ran)
      ]
    ]

calculate-resolves :
    (shop : Shop) (now branch : ℕ) (customer : Option ℕ) (items : List PriceCartItem) (ids : List ℕ)
    {r : PricingResult}
    → calculate shop now branch customer items ids ≡ ok r
    → (cart : CartContext) × IsCart cart
      × (cart_items shop 0 items ≡ ok cart.items)
      × IsSound cart r
unfolding calculate build_cart_context
calculate-resolves shop now branch customer items ids {r} h =
    elim (Bool-cases (includes shop.branches branch)) [
      | inr e ↦ absurd (ground arith)
      | inl e ↦ elim (Bool-cases (known_customer shop customer)) [
        | inr f ↦ absurd (ground arith)
        | inl f ↦ elim (Result-cases (build_cart_context shop branch customer items)) [
          | inr (x, threw) ↦ absurd (ground arith)
          | inl (cart, built) ↦
              let candidates = filter (is_candidate branch now) shop.promotions in
              let usage = customer_usage_counts shop customer candidates in
              let c = build_cart_context-IsCart shop branch customer items built in
              elim (Result-cases (resolve_selected_promotions candidates ids cart now usage)) [
                | inr (x, threw) ↦ absurd (ground arith)
                | inl (s, ran) ↦
                    let same : s ≡ r = ground arith in
                    let sound = resolve_selected-IsSound candidates ids cart now usage s c.0 ran in
                    (cart, c.0, c.1, subst (IsSound cart) same sound.1)
              ]
        ]
      ]
    ]

-- A line at the price of its product.
abbrev Listed : Shop → PricedLine → Type 0
Listed shop l =
    (v : ProductItem) × (shop.product_items l.product_item_id ≡ some v)
    × (l.list_unit_price ≡ v.retail_price)

price_line-Listed :
    (shop : Shop) (v : ProductItem) (item : PricingLineInput) {line : PricedLine}
    → shop.product_items item.product_item_id ≡ some v
    → price_line v item ≡ ok line
    → Listed shop line
unfolding price_line
price_line-Listed shop v item {line} found h =
    elim (Bool-cases (
      ltb (round (item.quantity * get_or v.retail_price item.unit_price))
        (get_or 0 item.discount_amount))) [
          | inl e ↦ absurd (ground arith)
          | inr e ↦ (v, ground arith, ground arith)
        ]

price_each-Listed :
    (shop : Shop) (items : List PricingLineInput) {ls : List PricedLine}
    → price_each shop items ≡ ok ls
    → All (Listed shop) ls
unfolding price_each
price_each-Listed shop [] {ls} h = let e : [] ≡ ls = cc in subst (All (Listed shop)) e tt
price_each-Listed shop (i ∷ is) {ls} h =
    elim (Option-cases (shop.product_items i.product_item_id)) [
      | inl e ↦ absurd (ground arith)
      | inr (v, e) ↦ elim (Result-cases (price_line v i)) [
        | inr (x, threw) ↦ absurd (ground arith)
        | inl (line, priced) ↦ elim (Result-cases (price_each shop is)) [
          | inr (x, threw) ↦ absurd (ground arith)
          | inl (rest, ran) ↦
              let same : ls ≡ line ∷ rest = ground arith in
              rw same (price_line-Listed shop v i e priced, price_each-Listed shop is ran)
        ]
      ]
    ]

price_lines-Listed :
    (shop : Shop) (items : List PricingLineInput) {ls : List PricedLine}
    → price_lines shop items ≡ ok ls
    → All (Listed shop) ls
unfolding price_lines
price_lines-Listed shop items {ls} h =
    let ids = unique (map (λ i. i.product_item_id) items) in
    let step = >>=-eq-ok (throw_if (not (all_found shop ids)) product_item_not_found) _ h in
    price_each-Listed shop items step.2

plain_cons : (a b : ℕ) (rest : Bool) → not (a == b) || rest ≡ false → (a ≡ b) × (rest ≡ false)
plain_cons a b rest h = elim (Bool-cases (a == b)) [
  | inl e ↦ (ground arith, ground arith)
  | inr e ↦ absurd (ground arith)
]

retail_price_agrees :
    (shop : Shop) (l : PricedLine) {w : ProductItem}
    → Listed shop l
    → shop.product_items l.product_item_id ≡ some w
    → l.list_unit_price ≡ w.retail_price
retail_price_agrees shop l (v, found, price) again = ground arith

one_line :
    (q u p d s ds t : ℕ)
    → u ≡ p
    → d ≤ round (q * p)
    → s + ds ≡ t
    → round (q * u) - d + s + (d + ds) ≡ round (q * p) + t
one_line q u p d s ds t same le rest = rw same (omega (arith, le, rest))

-- The lines' totals after the engine's discounts, with the discounts, are the cart's subtotal.
lines-add_up :
    (shop : Shop) (k : ℕ) (m : PerLine) (ls : List PricedLine) (cs : List CartItem)
    → All (Listed shop) ls
    → any (λ l. not (l.unit_price == l.list_unit_price)) ls ≡ false
    → cart_items shop k (map to_cart_item ls) ≡ ok cs
    → All (λ c. m c.line_id ≤ c.line_total) cs
    → sum_by line_total_of (put_discounts ls (map (break_down m) cs))
        + sum_by (λ d. d.discount_amount) (map (break_down m) cs)
      ≡ matched_subtotal cs
unfolding put_discounts cart_items line_total_of
lines-add_up shop k m [] cs listed plain h fit = let e : cs ≡ [] = cc in rw e refl
lines-add_up shop k m (l ∷ ls) cs listed plain h fit =
    let (v, found, rest, ran, same) =
      cart_items-cons shop k (to_cart_item l) (map to_cart_item ls) h in
    let plains = plain_cons l.unit_price l.list_unit_price _ plain in
    let fits = subst (All (λ c. m c.line_id ≤ c.line_total)) same fit in
    let rest_sum = lines-add_up shop (suc k) m ls rest listed.1 plains.1 ran fits.1 in
    let same_price : l.unit_price ≡ v.retail_price =
      plains.0 ∙ retail_price_agrees shop l listed.0 found in
    rw same (one_line l.quantity l.unit_price v.retail_price (m k) _ _ _ same_price fits.0 rest_sum)

cart-list_total :
    (shop : Shop) (k : ℕ) (ls : List PricedLine) (cs : List CartItem)
    → All (Listed shop) ls
    → cart_items shop k (map to_cart_item ls) ≡ ok cs
    → matched_subtotal cs ≡ sum_by (λ l. round (l.quantity * l.list_unit_price)) ls
unfolding cart_items
cart-list_total shop k [] cs listed h = let e : cs ≡ [] = cc in rw e refl
cart-list_total shop k (l ∷ ls) cs listed h =
    let (v, found, rest, ran, same) =
      cart_items-cons shop k (to_cart_item l) (map to_cart_item ls) h in
    let price = retail_price_agrees shop l listed.0 found in
    rw same (
      rw (← price) (
        ap (λ t. round (l.quantity * l.list_unit_price) + t)
          (cart-list_total shop (suc k) ls rest listed.1 ran)))

-- What `grandTotalOf` computes for lines that carry the engine's discounts.
grand_total-IsSound :
    (shop : Shop) (cart : CartContext) (r : PricingResult) (ls : List PricedLine)
    → All (Listed shop) ls
    → any (λ l. not (l.unit_price == l.list_unit_price)) ls ≡ false
    → cart_items shop 0 (map to_cart_item ls) ≡ ok cart.items
    → IsCart cart
    → IsSound cart r
    → (grand_total_of (put_discounts ls r.item_breakdown) (some promotion) r.total_discount
        ≡ r.grand_total)
      × (r.total_discount + r.grand_total ≡ cart.subtotal)
unfolding grand_total_of round_div
grand_total-IsSound shop cart r ls listed plain ran c (m, shown, fit, given, money, whole) =
    let sum = lines-add_up shop 0 m ls cart.items listed plain ran fit in
    let given' : sum_by (λ d. d.discount_amount) (map (break_down m) cart.items)
        ≡ r.total_discount =
      subst (λ b. sum_by (λ d. d.discount_amount) b ≡ r.total_discount) shown given in
    rw shown (omega (arith, sum, given', money, whole, c.adds_up), money)

-- An order that is priced with promotions costs what the promotion engine previewed: for the result `r`
-- of `calculate` on the same lines, the order's `grandTotalOf` is the grand total of `r`, the discount
-- it stores is the total discount of `r`, and the two add up to the lines' total at the list prices.
pub price_order-eq-preview :
    (shop : Shop) (now : ℕ) (input : PricingInput) (i : ℕ) (is : List ℕ) (o : PricedOrder)
    → unique input.promotion_ids ≡ i ∷ is
    → price_order shop now input ≡ ok o
    → (ls : List PricedLine) × (r : PricingResult) × (price_lines shop input.items ≡ ok ls)
      × (calculate shop now input.branch_id input.customer_id (map to_cart_item ls) (i ∷ is) ≡ ok r)
      × (grand_total_of o.lines o.discount_type o.discount_value ≡ r.grand_total)
      × (o.discount_value ≡ r.total_discount)
      × (r.total_discount + r.grand_total ≡ sum_by (λ l. round (l.quantity * l.list_unit_price)) ls)
unfolding price_order
price_order-eq-preview shop now input i is o ids h =
    elim (Result-cases (price_lines shop input.items)) [
      | inr (x, threw) ↦ absurd (ground arith)
      | inl (ls, priced) ↦ elim (Bool-cases (is_whole_order input.discount_type)) [
        | inl e ↦ absurd (ground arith)
        | inr e ↦ elim (Bool-cases (any (λ l. not (l.unit_price == l.list_unit_price)) ls)) [
          | inl f ↦ absurd (ground arith)
          | inr f ↦
              elim (Result-cases (
                calculate shop now input.branch_id input.customer_id (map to_cart_item ls)
                  (i ∷ is))) [
                    | inr (x, threw) ↦ absurd (ground arith)
                    | inl (r, ran) ↦ elim (Bool-cases (length r.item_breakdown == length ls)) [
                      | inr g ↦ absurd (ground arith)
                      | inl g ↦
                          let listed = price_lines-Listed shop input.items priced in
                          let (cart, c, lines, sound) =
                            calculate-resolves shop now input.branch_id input.customer_id
                              (map to_cart_item ls) (i ∷ is) ran in
                          let total = grand_total-IsSound shop cart r ls listed f lines c sound in
                          let o_lines : o.lines ≡ put_discounts ls r.item_breakdown =
                            ground arith in
                          let o_type : o.discount_type ≡ some promotion = ground arith in
                          let o_value : o.discount_value ≡ r.total_discount = ground arith in
                          (
                            ls,
                            r,
                            priced,
                            ran,
                            rw o_lines (rw o_type (rw o_value total.0)),
                            o_value,
                            total.1
                                ∙ (c.adds_up ∙ cart-list_total shop 0 ls cart.items listed lines),
                          )
                    ]
                  ]
        ]
      ]
    ]
