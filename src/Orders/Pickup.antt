-- ===== src/Orders/Pickup.antt =====
-- src/modules/orders/order-pickup.rules.ts. Amounts are hundredths of a dong; times are milliseconds
-- since 1970 and a date is its midnight UTC. Days are compared by their numbers, which order the
-- texts YYYY-MM-DD of four-digit years.
pub mod Due
use ikiot_be.Prelude.{
  ℕ, suc, ◌+◌, ◌-◌, ◌*◌, ◌/◌, Bool, true, false, not, ◌&&◌, ◌||◌, Option, none, some, List, [], ◌∷◌,
  filter, any, if◌then◌else◌, ltb, leb, ◌==◌, Result, ok, err, throw_if,
}
use ikiot_be.Prelude.Int.{ℤ, pos, pos_part, ◌-ℤ◌, ◌*ℤ◌}
use ikiot_be.Prelude.Rounding.{round_div_ℤ}
use ikiot_be.Orders.Journey.{
  OrderStatus, confirmed, packed, code, FulfillmentType, takeaway, store_pickup, home_delivery,
}
use ikiot_be.Orders.Payments.{
  Payment, PaymentMethod, PaymentRecordStatus, payment_pending, paid, failed, payment_cancelled,
  cash, bank_transfer, momo, vnpay, sepay, is_paid, is_balance, is_deposit, is_full, is_refund,
  total_amount,
}

pub data PickupError : Type 0 where
  order_not_store_pickup shipment_not_for_pickup pickup_no_shipping_fee pickup_already_collected :
      PickupError
  pickup_not_ready fulfillment_type_locked : OrderStatus → PickupError

abbrev pub is_store_pickup : FulfillmentType → Bool
is_store_pickup store_pickup = true
is_store_pickup takeaway = false
is_store_pickup home_delivery = false

abbrev pub same_type : FulfillmentType → FulfillmentType → Bool
same_type takeaway takeaway = true
same_type takeaway store_pickup = false
same_type takeaway home_delivery = false
same_type store_pickup takeaway = false
same_type store_pickup store_pickup = true
same_type store_pickup home_delivery = false
same_type home_delivery takeaway = false
same_type home_delivery store_pickup = false
same_type home_delivery home_delivery = true

unfoldable pub assert_store_pickup : FulfillmentType → Result PickupError (Unit {0})
assert_store_pickup type = throw_if (not (is_store_pickup type)) order_not_store_pickup

unfoldable pub assert_not_store_pickup : FulfillmentType → Result PickupError (Unit {0})
assert_not_store_pickup type = throw_if (is_store_pickup type) shipment_not_for_pickup

unfoldable pub assert_pickup_ready : OrderStatus → Result PickupError (Unit {0})
assert_pickup_ready s = throw_if (not (code s == code packed)) (pickup_not_ready s)

unfoldable pub assert_no_pickup_shipping_fee : ℕ → Result PickupError (Unit {0})
assert_no_pickup_shipping_fee fee = throw_if (not (fee == 0)) pickup_no_shipping_fee

unfoldable pub assert_fulfillment_type_change_allowed :
    OrderStatus → FulfillmentType → FulfillmentType → ℕ → Result PickupError (Unit {0})
assert_fulfillment_type_change_allowed status type next_type open_shipments =
    let involves_pickup = is_store_pickup next_type || is_store_pickup type in
    let open_ =
      code status == code confirmed || (code status == code packed && open_shipments == 0) in
    if same_type next_type type
    then ok tt
    else (if not involves_pickup
        then ok tt
        else throw_if (not open_) (fulfillment_type_locked status))

unfoldable pub assert_no_counter_payment : List Payment → Result PickupError (Unit {0})
assert_no_counter_payment payments =
    throw_if (any (λ p. is_balance p && is_paid p) payments) pickup_already_collected

abbrev pub is_sepay : PaymentMethod → Bool
is_sepay sepay = true
is_sepay cash = false
is_sepay bank_transfer = false
is_sepay momo = false
is_sepay vnpay = false

abbrev pub is_pending_record : PaymentRecordStatus → Bool
is_pending_record payment_pending = true
is_pending_record paid = false
is_pending_record failed = false
is_pending_record payment_cancelled = false

unfoldable pub pending_counter_qr : List Payment → List Payment
pending_counter_qr = filter (λ p. is_balance p && (is_sepay p.method && is_pending_record p.status))

-- `Math.round` of a signed amount to whole dong.
abbrev pub round_ℤ : ℤ → ℤ
round_ℤ x = pos 100 *ℤ round_div_ℤ x 100

-- `received` of `pickupAmountDue`.
unfoldable pub received_net : List Payment → ℤ
received_net payments =
    let paid_rows = filter is_paid payments in
    pos (total_amount (filter (λ p. is_deposit p || (is_balance p || is_full p)) paid_rows))
    -ℤ pos (total_amount (filter is_refund paid_rows))

unfoldable pub pickup_amount_due : ℕ → List Payment → ℕ
unfolding received_net
pickup_amount_due grand_total payments =
    pos_part (round_ℤ (pos grand_total -ℤ received_net payments))

abbrev pub day_ms : ℕ
day_ms = 86_400_000

-- The day's number in Vietnam, at UTC+7 all year.
unfoldable pub vietnam_day : ℕ → ℕ
vietnam_day at = (at + 25_200_000) / day_ms

unfoldable pub is_pickup_overdue : FulfillmentType → OrderStatus → Option ℕ → ℕ → Bool
unfolding vietnam_day
is_pickup_overdue type status none now = false
is_pickup_overdue type status (some date) now =
    if not (is_store_pickup type) || not (code status == code packed)
    then false
    else ltb (date / day_ms) (vietnam_day now)
