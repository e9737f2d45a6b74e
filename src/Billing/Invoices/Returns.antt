-- ===== src/Billing/Invoices/Returns.antt =====
-- The sale invoice after returns.
use native.Mathlib.Nat.{mul-le-mul_left}
use ikiot_be.Prelude.{
  ℕ, ◌+◌, ◌*◌, ◌%◌, ◌≤◌, ◌<◌, ◌≡◌, refl, ap, ◌∙◌, false, ◌||◌, List, [], ◌∷◌, All, sum_by, arith,
  ltb, leb, ◌/◌, ◌==◌, Bool-cases, inl, inr,
}
use ikiot_be.Prelude.Rounding.{round_div, round_div_nearest}
use ikiot_be.Billing.Invoices.{
  InvoiceableLine, returned_value, line_returned_value, sale_lines, sale_total,
}

-- A quotient of at most `k` wholes rounds to at most `k`.
round_div-le : (n d k : ℕ) → 0 < d → n ≤ k * d → round_div n d ≤ k
round_div-le n d k pos_d le =
    let near = round_div_nearest n d pos_d in
    elim (Bool-cases (leb (round_div n d) k)) [
      | inl e ↦ ground arith
      | inr e ↦
          let above : k + 1 ≤ round_div n d = ground arith in
          absurd (omega (arith, near.0, le, pos_d, mul-le-mul_left d above))
    ]

round_div-exact : (d k : ℕ) → 0 < d → round_div (k * d) d ≡ k
round_div-exact d k pos_d =
    let near = round_div_nearest (k * d) d pos_d in
    elim (Bool-cases (leb k (round_div (k * d) d))) [
      | inl e ↦
          let low : k ≤ round_div (k * d) d = ground arith in
          omega (arith, low, round_div-le (k * d) d k pos_d (omega arith))
      | inr e ↦
          let below : round_div (k * d) d + 1 ≤ k = ground arith in
          absurd (omega (arith, near.1, pos_d, mul-le-mul_left d below))
    ]

-- A line of some goods, of which no more came back than was sold, with a total in whole dong.
abbrev pub IsReturnable : InvoiceableLine → Type 0
IsReturnable l = (0 < l.quantity) × (l.returned_quantity ≤ l.quantity) × (l.line_total % 100 ≡ 0)

whole_part : (t : ℕ) → t % 100 ≡ 0 → t ≡ 100 * (t / 100)
whole_part t h = omega (arith, h)

whole_times : (t q : ℕ) → t % 100 ≡ 0 → t * q ≡ t / 100 * (100 * q)
whole_times t q h =
    let scaled : t * q ≡ 100 * (t / 100) * q = ap (λ x. x * q) (whole_part t h) in
    omega (arith, scaled)

returned_value-le : (q t r : ℕ) → r ≤ q → t % 100 ≡ 0 → returned_value q t r ≤ t
unfolding returned_value
returned_value-le q t r le whole = elim (Bool-cases (q == 0 || r == 0)) [
  | inl e ↦ rw e (omega arith)
  | inr e ↦
      let k = t / 100 in
      let sold : 0 < q = ground arith in
      let bound =
        round_div-le (t * r) (100 * q) k (omega (arith, sold))
          (omega (arith, mul-le-mul_left t le, whole_times t q whole)) in
      rw e (omega (arith, bound, whole_part t whole))
]

returned_value-all : (q t : ℕ) → 0 < q → t % 100 ≡ 0 → returned_value q t q ≡ t
unfolding returned_value
returned_value-all q t sold whole =
    let k = t / 100 in
    let none_zero : q == 0 || q == 0 ≡ false = ground arith in
    let exact = round_div-exact (100 * q) k (omega (arith, sold)) in
    let same : t * q ≡ k * (100 * q) = whole_times t q whole in
    rw none_zero (rw same (rw exact (omega (arith, whole))))

sum_amounts :
    (lines : List InvoiceableLine)
    → All IsReturnable lines
    → sum_by (λ l. l.amount) (sale_lines lines) + sum_by line_returned_value lines
      ≡ sum_by (λ l. l.line_total) lines
unfolding sale_lines
sum_amounts [] h = refl
sum_amounts (l ∷ ls) h =
    let rest = sum_amounts ls h.1 in
    let within = returned_value-le l.quantity l.line_total l.returned_quantity h.0.1 h.0.2 in
    elim (Bool-cases (ltb l.returned_quantity l.quantity)) [
      | inl e ↦ rw e (omega (arith, rest, within))
      | inr e ↦
          let all_back : l.returned_quantity ≡ l.quantity = ground (arith, h.0.1) in
          let back : line_returned_value l ≡ l.line_total =
            ap (returned_value l.quantity l.line_total) all_back
            ∙ returned_value-all l.quantity l.line_total h.0.0 h.0.2 in
          rw e (omega (arith, rest, back))
    ]

-- For an order whose total is the sum of its line totals, with nothing charged for shipping, and whose
-- lines each sold at least one piece, took back at most what they sold and have a total in whole dong,
-- the amounts of the sale invoice's lines add up to the invoice's total, which is the order's less what
-- came back.
pub sale_lines-sum :
    (lines : List InvoiceableLine)
    → All IsReturnable lines
    → sum_by (λ l. l.amount) (sale_lines lines)
      ≡ sale_total (sum_by (λ l. l.line_total) lines) lines
unfolding sale_total
sale_lines-sum lines h = omega (arith, sum_amounts lines h)
