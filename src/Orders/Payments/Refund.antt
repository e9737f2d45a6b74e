-- ===== src/Orders/Payments/Refund.antt =====
-- What a cancellation may pay back.
use ikiot_be.Prelude.{
  ℕ, ◌+◌, ◌-◌, ◌≤◌, ◌<◌, ◌≡◌, ◌≢◌, ◌==◌, ap, refl, true, false, ◌&&◌, Option, none, some, List, [],
  ◌∷◌, filter, All, arith, ltb, leb, ok, err, Bool-cases, Option-cases, inl, inr, sort_by-IsSorted,
  IsSorted, ◌⊎◌,
}
use mathlib.Core.Path.{subst}
use ikiot_be.Promotions.Engine.{round}
use ikiot_be.Orders.Payments.{
  Payment, PaymentMethod, paid, refund, ResolvedRefund, RefundError, resolve_refund, refund_against,
  refund_of, status_after_refund, received_rows, refunded_total, total_amount, is_paid,
  is_refundable, newer, asks_refund, refund_method_of, OrderPaymentStatus, refunded,
  partially_refunded, cash, bank_transfer, momo, vnpay, sepay,
}

-- The row that the cancellation writes for the refund.
abbrev pub refund_row : ℕ → ℕ → ResolvedRefund → Payment
refund_row id at r = record {
  id = id;
  kind = refund;
  status = paid;
  method = r.method;
  amount = r.amount;
  created_at = at;
}

-- The money the order holds: received and not paid back.
abbrev pub held_of : List Payment → ℕ
held_of payments = total_amount (received_rows payments) - refunded_total payments

refund_of-held :
    (rows : List Payment) (held amount : ℕ) (method : Option PaymentMethod) {r : ResolvedRefund}
    → refund_of rows held amount method ≡ ok (some r)
    → (latest : Payment) × (others : List Payment) × (rows ≡ latest ∷ others)
      × (r.refund_of_payment_id ≡ latest.id)
      × (r.held ≡ held)
      × (r.amount ≡ amount)
      × (amount ≤ held)
      × (r.payment_status ≡ status_after_refund amount held)
unfolding refund_of
refund_of-held [] held amount method h = absurd (ground arith)
refund_of-held (p ∷ ps) held amount method h = elim (Bool-cases (ltb held amount)) [
  | inl e ↦ absurd (ground arith)
  | inr e ↦ (p, ps, refl, ground arith, ground arith, ground arith, ground arith, ground arith)
]

-- How the refund is paid: as asked, else as the newest payment was, but SePay, which only reports
-- incoming money, by bank transfer.
abbrev pub PaidBy : Option PaymentMethod → PaymentMethod → PaymentMethod → Type 0
PaidBy asked latest used =
    (asked ≡ some used)
    ⊎ ((asked ≡ none) × (latest ≡ sepay) × (used ≡ bank_transfer))
    ⊎ ((asked ≡ none) × (latest ≢ sepay) × (used ≡ latest))

refund_method_of-PaidBy :
    (asked : Option PaymentMethod) (latest : PaymentMethod)
    → PaidBy asked latest (refund_method_of asked latest)
refund_method_of-PaidBy (some m) latest = inl refl
refund_method_of-PaidBy none sepay = inr (inl (refl, refl, refl))
refund_method_of-PaidBy none cash = inr (inr (refl, (λ e. ground arith), refl))
refund_method_of-PaidBy none bank_transfer = inr (inr (refl, (λ e. ground arith), refl))
refund_method_of-PaidBy none momo = inr (inr (refl, (λ e. ground arith), refl))
refund_method_of-PaidBy none vnpay = inr (inr (refl, (λ e. ground arith), refl))

-- The payment status that a refund puts the order in, if any.
abbrev pub Leaves : ℕ → ℕ → Option OrderPaymentStatus → Type 0
Leaves amount held status =
    ((amount ≡ 0) × (status ≡ none))
    ⊎ ((0 < amount) × (amount ≡ held) × (status ≡ some refunded))
    ⊎ ((0 < amount) × (amount ≢ held) × (status ≡ some partially_refunded))

status_after_refund-Leaves :
    (amount held : ℕ) → Leaves amount held (status_after_refund amount held)
status_after_refund-Leaves amount held = elim (Bool-cases (amount == 0)) [
  | inl e ↦ inl (ground arith, ground arith)
  | inr e ↦ elim (Bool-cases (amount == held)) [
    | inl f ↦ inr (inl (ground arith, ground arith, ground arith))
    | inr f ↦ inr (inr (ground arith, ground arith, ground arith))
  ]
]

newer_trans : (a b c : Payment) → newer c b ≡ false → newer b a ≡ false → newer c a ≡ false
newer_trans a b c h k = ground arith

newer_asym : (a b : Payment) → newer a b ≡ true → newer b a ≡ false
newer_asym a b h = ground arith

none_newer :
    (latest : Payment) (others : List Payment)
    → All (λ p. newer p latest ≡ false) others
    → All (λ p. p.created_at ≤ latest.created_at) others
none_newer latest [] h = tt
none_newer latest (p ∷ ps) h = (ground (arith, h.0), none_newer latest ps h.1)

-- The refund of the amount out of what is held, booked on the first of the rows, which is the newest.
abbrev pub Refunds : List Payment → ℕ → ℕ → Option PaymentMethod → ResolvedRefund → Type 0
Refunds rows held amount method r =
    (latest : Payment) × (others : List Payment) × (rows ≡ latest ∷ others)
    × All (λ p. p.created_at ≤ latest.created_at) others
    × (r.refund_of_payment_id ≡ latest.id)
    × (r.held ≡ held)
    × (r.amount ≡ amount)
    × PaidBy method latest.method r.method
    × Leaves amount held r.payment_status

refund_of_outcome :
    (rows : List Payment) (held amount : ℕ) (method : Option PaymentMethod)
    → IsSorted newer rows
    → 0 < total_amount rows
    → ((held < amount)
        × (refund_of rows held amount method ≡ err RefundError.refund_exceeds_deposit))
      ⊎ ((amount ≤ held)
          × (r : ResolvedRefund) × (refund_of rows held amount method ≡ ok (some r))
          × Refunds rows held amount method r)
unfolding refund_of
refund_of_outcome [] held amount method sorted some_rows = absurd (omega (arith, some_rows))
refund_of_outcome (p ∷ ps) held amount method sorted some_rows =
    elim (Bool-cases (ltb held amount)) [
      | inl e ↦ inl (ground arith, ground arith)
      | inr e ↦ inr (
        ground arith,
        refund_against p held amount method,
        ground arith,
        (
          p,
          ps,
          refl,
          none_newer p ps sorted.0,
          refl,
          refl,
          refl,
          refund_method_of-PaidBy method p.method,
          status_after_refund-Leaves amount held,
        ),
      )
    ]

asks_refund-cases :
    (asked : Option ℕ)
    → ((asks_refund asked ≡ false) × ((asked ≡ none) ⊎ (asked ≡ some 0)))
      ⊎ ((asks_refund asked ≡ true) × (amount : ℕ) × (asked ≡ some amount) × (0 < amount))
asks_refund-cases none = inl (refl, inl refl)
asks_refund-cases (some amount) = elim (Bool-cases (amount == 0)) [
  | inl e ↦ let nothing : amount ≡ 0 = ground arith in inl (ground arith, inr (ap some nothing))
  | inr e ↦ inr (ground arith, amount, refl, ground arith)
]

-- A refund that a cancellation resolves is at most what the order holds, which is not nothing; it is
-- booked on the newest of the paid deposits and balances; and once its row is written the order holds
-- exactly that much less, so repeated refunds never pay back more than was received.
pub resolve_refund-conserves :
    (payments : List Payment) (asked : Option ℕ) (method : Option PaymentMethod) (id at : ℕ)
    (r : ResolvedRefund)
    → resolve_refund payments asked method ≡ ok (some r)
    → (0 < r.held)
      × (r.held ≡ held_of payments)
      × (r.amount ≤ r.held)
      × (held_of (refund_row id at r ∷ payments) + r.amount ≡ r.held)
      × ((latest : Payment) × (others : List Payment) × (received_rows payments ≡ latest ∷ others)
          × (r.refund_of_payment_id ≡ latest.id)
          × All (λ p. p.created_at ≤ latest.created_at) others)
unfolding resolve_refund
resolve_refund-conserves payments asked method id at r h =
    elim (Bool-cases (leb (total_amount (received_rows payments)) (refunded_total payments))) [
      | inl e ↦ elim (Bool-cases (asks_refund asked)) [
        | inl f ↦ absurd (ground arith)
        | inr f ↦ absurd (ground arith)
      ]
      | inr e ↦ elim (Option-cases asked) [
        | inl f ↦ absurd (ground arith)
        | inr (amount, f) ↦
            let ran : refund_of (received_rows payments) (held_of payments) (round amount) method
                ≡ ok (some r) =
              ground arith in
            let (latest, others, rows, booked, held, given, fits, status) =
              refund_of-held (received_rows payments) (held_of payments) (round amount) method
                ran in
            let newest =
              sort_by-IsSorted newer newer_trans newer_asym
                (filter (λ p. is_paid p && is_refundable p) payments) in
            let sorted : IsSorted newer (latest ∷ others) = subst (IsSorted newer) rows newest in
            let some_held : 0 < held_of payments = ground arith in
            let fits' : r.amount ≤ held_of payments = omega (arith, given, fits) in
            (
              omega (arith, held, some_held),
              held,
              omega (arith, held, fits'),
              omega (arith, held, fits'),
              (latest, others, rows, booked, none_newer latest others sorted.0),
            )
      ]
    ]

-- With nothing held the call returns `null` when no amount or 0 is asked for, and refuses any other.
-- With money held it asks for an amount where none is given, and refuses one whose whole dong are more
-- than is held; any other is refunded: the result is booked on the newest received payment, has the
-- money held and the amount in whole dong, pays by the asked method, else by that payment's (SePay by
-- bank transfer), and sets the order to refunded if it pays all back, to partially refunded if less,
-- and to nothing new if it pays 0.
pub resolve_refund_outcome :
    (payments : List Payment) (asked : Option ℕ) (method : Option PaymentMethod)
    → ((held_of payments ≡ 0)
        × ((asked ≡ none) ⊎ (asked ≡ some 0))
        × (resolve_refund payments asked method ≡ ok none))
      ⊎ ((held_of payments ≡ 0)
          × (amount : ℕ) × (asked ≡ some amount)
          × (0 < amount)
          × (resolve_refund payments asked method ≡ err RefundError.refund_exceeds_deposit))
      ⊎ ((0 < held_of payments)
          × (asked ≡ none)
          × (resolve_refund payments asked method ≡ err RefundError.refund_amount_required))
      ⊎ ((0 < held_of payments)
          × (amount : ℕ) × (asked ≡ some amount)
          × (held_of payments < round amount)
          × (resolve_refund payments asked method ≡ err RefundError.refund_exceeds_deposit))
      ⊎ ((0 < held_of payments)
          × (amount : ℕ) × (asked ≡ some amount)
          × (round amount ≤ held_of payments)
          × (r : ResolvedRefund) × (resolve_refund payments asked method ≡ ok (some r))
          × Refunds (received_rows payments) (held_of payments) (round amount) method r)
unfolding resolve_refund
resolve_refund_outcome payments asked method =
    let rows = received_rows payments in
    let newest =
      sort_by-IsSorted newer newer_trans newer_asym
        (filter (λ p. is_paid p && is_refundable p) payments) in
    elim (Bool-cases (leb (total_amount rows) (refunded_total payments))) [
      | inl e ↦ elim (asks_refund-cases asked) [
        | inl (f, quiet) ↦ inl (ground arith, quiet, ground arith)
        | inr (f, amount, g, more) ↦ inr (inl (ground arith, amount, g, more, ground arith))
      ]
      | inr e ↦
          let some_held : 0 < held_of payments = ground arith in
          elim (Option-cases asked) [
            | inl f ↦ inr (inr (inl (some_held, f, ground arith)))
            | inr (amount, f) ↦
                elim (refund_of_outcome rows (held_of payments) (round amount) method newest
                  (ground arith)) [
                    | inl x ↦ inr (inr (inr (inl (some_held, amount, f, x.0, ground arith))))
                    | inr (fits, r, ran, given) ↦
                        inr (inr (inr (inr (some_held, amount, f, fits, r, ground arith, given))))
                  ]
          ]
    ]
