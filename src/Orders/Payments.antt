-- ===== src/Orders/Payments.antt =====
-- The payments of an order: src/common/constants/payment-method.ts and the refund rules of
-- src/modules/orders/order-cancel.service.ts. Amounts are hundredths of a dong, no less than 0.
pub mod Refund
use ikiot_be.Prelude.{
  ℕ, ◌-◌, Bool, true, false, not, ◌&&◌, ◌||◌, Option, none, some, List, [], ◌∷◌, filter, sum_by,
  sort_by, if◌then◌else◌, ltb, leb, ◌==◌, Result, ok, err, ◌>>=◌, ◌>>◌, throw_if,
}
use ikiot_be.Prelude.Int.{ℤ, pos, ◌-ℤ◌}
use ikiot_be.Promotions.Engine.{round}

pub data PaymentMethod : Type 0 where
  cash bank_transfer momo vnpay sepay : PaymentMethod

pub data PaymentKind : Type 0 where
  full deposit balance refund : PaymentKind

pub data PaymentRecordStatus : Type 0 where
  payment_pending paid failed payment_cancelled : PaymentRecordStatus

pub data OrderPaymentStatus : Type 0 where
  unpaid partially_paid fully_paid partially_refunded refunded : OrderPaymentStatus

pub record Payment : Type 0 where
  pub id : ℕ
  pub kind : PaymentKind
  pub status : PaymentRecordStatus
  pub method : PaymentMethod
  pub amount : ℕ
  pub created_at : ℕ

pub record ResolvedRefund : Type 0 where
  pub held : ℕ
  pub amount : ℕ
  pub method : PaymentMethod
  pub refund_of_payment_id : ℕ
  pub payment_status : Option OrderPaymentStatus

abbrev pub is_paid : Payment → Bool
is_paid p = elim p.status [
  | paid ↦ true
  | payment_pending ↦ false
  | failed ↦ false
  | payment_cancelled ↦ false
]

abbrev pub is_deposit : Payment → Bool
is_deposit p = elim p.kind [ deposit ↦ true | full ↦ false | balance ↦ false | refund ↦ false ]

abbrev pub is_balance : Payment → Bool
is_balance p = elim p.kind [ balance ↦ true | full ↦ false | deposit ↦ false | refund ↦ false ]

abbrev pub is_full : Payment → Bool
is_full p = elim p.kind [ full ↦ true | deposit ↦ false | balance ↦ false | refund ↦ false ]

abbrev pub is_refund : Payment → Bool
is_refund p = elim p.kind [ refund ↦ true | full ↦ false | deposit ↦ false | balance ↦ false ]

abbrev pub total_amount : List Payment → ℕ
total_amount = sum_by (λ p. p.amount)

-- The paid deposits less the paid refunds.
unfoldable pub deposit_held : List Payment → ℤ
deposit_held payments =
    let paid_rows = filter is_paid payments in
    pos (total_amount (filter is_deposit paid_rows))
    -ℤ pos (total_amount (filter is_refund paid_rows))

-- `REFUNDABLE_KINDS`.
abbrev pub is_refundable : Payment → Bool
is_refundable p = is_deposit p || is_balance p

abbrev pub newer : Payment → Payment → Bool
newer a b = ltb b.created_at a.created_at

abbrev pub received_rows : List Payment → List Payment
received_rows payments = sort_by newer (filter (λ p. is_paid p && is_refundable p) payments)

abbrev pub refunded_total : List Payment → ℕ
refunded_total payments = total_amount (filter (λ p. is_paid p && is_refund p) payments)

pub data RefundError : Type 0 where
  refund_exceeds_deposit refund_amount_required : RefundError

-- SePay only reports incoming money: it is refunded by bank transfer.
abbrev pub refund_method_of : Option PaymentMethod → PaymentMethod → PaymentMethod
refund_method_of (some m) latest = m
refund_method_of none sepay = bank_transfer
refund_method_of none cash = cash
refund_method_of none bank_transfer = bank_transfer
refund_method_of none momo = momo
refund_method_of none vnpay = vnpay

abbrev pub status_after_refund : ℕ → ℕ → Option OrderPaymentStatus
status_after_refund amount held =
    if amount == 0
    then none
    else (if amount == held then some refunded else some partially_refunded)

abbrev pub refund_against : Payment → ℕ → ℕ → Option PaymentMethod → ResolvedRefund
refund_against latest held amount method = record {
  held = held;
  amount = amount;
  method = refund_method_of method latest.method;
  refund_of_payment_id = latest.id;
  payment_status = status_after_refund amount held;
}

-- The part of `resolveRefund` for an amount that is given. The caller holds money, so there is a row
-- that it was received by; with none the source would read a field of `undefined`.
unfoldable pub refund_of :
    List Payment → ℕ → ℕ → Option PaymentMethod → Result RefundError (Option ResolvedRefund)
refund_of [] held amount method = ok none
refund_of (latest ∷ others) held amount method =
    throw_if (ltb held amount) refund_exceeds_deposit
    >> ok (some (refund_against latest held amount method))

-- `if (refundAmount)`.
abbrev pub asks_refund : Option ℕ → Bool
asks_refund none = false
asks_refund (some amount) = not (amount == 0)

unfoldable pub resolve_refund :
    List Payment → Option ℕ → Option PaymentMethod → Result RefundError (Option ResolvedRefund)
unfolding refund_of
resolve_refund payments refund_amount refund_method =
    let received = received_rows payments in
    let received_total = total_amount received in
    let refunded_sum = refunded_total payments in
    if leb received_total refunded_sum
    then throw_if (asks_refund refund_amount) refund_exceeds_deposit >> ok none
    else (elim refund_amount [
      | none ↦ err refund_amount_required
      | some amount ↦
          refund_of received (received_total - refunded_sum) (round amount) refund_method
    ])
