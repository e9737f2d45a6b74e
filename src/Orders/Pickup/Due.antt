-- ===== src/Orders/Pickup/Due.antt =====
-- What a customer who picks up still owes, and when the pickup is late.
use ikiot_be.Prelude.{ℕ, ◌+◌, ◌-◌, ◌*◌, ◌/◌, ◌≤◌, ◌≡◌, ◌↔◌, refl, ◌∙◌, true, some, List, ◌∷◌, arith}
use ikiot_be.Prelude.Int.{ℤ, pos, negsuc, pos_part, neg_part, ◌-ℤ◌, ◌+ℤ◌, ◌*ℤ◌, int_laws}
use ikiot_be.Prelude.Rounding.{div_floor, round_div_ℤ}
use ikiot_be.Orders.Journey.{packed, store_pickup}
use ikiot_be.Orders.Payments.{Payment, PaymentMethod, balance, paid}
use ikiot_be.Orders.Pickup.{
  received_net, pickup_amount_due, round_ℤ, vietnam_day, day_ms, is_pickup_overdue,
}

-- The row for money collected at the counter.
abbrev pub counter_row : ℕ → ℕ → PaymentMethod → ℕ → Payment
counter_row id at method amount = record {
  id = id;
  kind = balance;
  status = paid;
  method = method;
  amount = amount;
  created_at = at;
}

received_net-counter_row :
    (id at : ℕ) (method : PaymentMethod) (amount : ℕ) (payments : List Payment)
    → received_net (counter_row id at method amount ∷ payments)
      ≡ received_net payments +ℤ pos amount
unfolding received_net
received_net-counter_row id at method amount payments = omega int_laws

*ℤ-pos_part : (a : ℤ) → pos_part (pos 100 *ℤ a) ≡ 100 * pos_part a
unfolding ◌*ℤ◌
*ℤ-pos_part (pos n) = ground arith
*ℤ-pos_part (negsuc n) = ground arith

doubled : (a : ℤ) → pos_part (pos 2 *ℤ a +ℤ pos 100) ≤ 2 * pos_part a + 100
unfolding ◌*ℤ◌ ◌+ℤ◌
doubled (pos n) = ground arith
doubled (negsuc n) = ground arith

doubled_pos : (n : ℕ) → pos 2 *ℤ pos n +ℤ pos 100 ≡ pos (2 * n + 100)
unfolding ◌*ℤ◌ ◌+ℤ◌
doubled_pos n = ground arith

div_floor-le : (a : ℤ) (m : ℕ) → pos_part a ≤ m → pos_part (div_floor a 200) ≤ m / 200
div_floor-le (pos n) m h = omega (arith, h)
div_floor-le (negsuc n) m h = omega arith

-- Rounding gives no more than the nearest whole dong of what is above 0, and exactly that of a number
-- that is not negative.
round_ℤ-le : (a : ℤ) → pos_part (round_ℤ a) ≤ 100 * ((2 * pos_part a + 100) / 200)
unfolding round_div_ℤ
round_ℤ-le a =
    rw (*ℤ-pos_part (round_div_ℤ a 100))
      (omega (arith, div_floor-le (pos 2 *ℤ a +ℤ pos 100) (2 * pos_part a + 100) (doubled a)))

round_ℤ-pos : (n : ℕ) → pos_part (round_ℤ (pos n)) ≡ 100 * ((2 * n + 100) / 200)
unfolding round_div_ℤ
round_ℤ-pos n = *ℤ-pos_part (round_div_ℤ (pos n) 100) ∙ rw (doubled_pos n) refl

small-rounds : (x : ℤ) → pos_part x ≤ 49 → pos_part (round_ℤ x) ≡ 0
small-rounds x h = omega (arith, h, round_ℤ-le x)

pos_part_sub : (a b : ℤ) → pos_part (a -ℤ b) ≡ pos_part a + neg_part b - (neg_part a + pos_part b)
unfolding ◌-ℤ◌
pos_part_sub a b = ground arith

rest-small : (x : ℤ) → pos_part (x -ℤ pos (pos_part (round_ℤ x))) ≤ 49
rest-small (pos n) =
    let due = pos_part (round_ℤ (pos n)) in
    omega (arith, round_ℤ-pos n, pos_part_sub (pos n) (pos due))
rest-small (negsuc n) =
    let due = pos_part (round_ℤ (negsuc n)) in omega (arith, pos_part_sub (negsuc n) (pos due))

-- Collecting the amount that is due settles the order: with the row of that payment, paid, nothing is
-- due any more.
pub pickup_amount_due-settles :
    (grand_total : ℕ) (payments : List Payment) (id at : ℕ) (method : PaymentMethod)
    → pickup_amount_due grand_total
        (counter_row id at method (pickup_amount_due grand_total payments) ∷ payments)
      ≡ 0
unfolding pickup_amount_due
pickup_amount_due-settles grand_total payments id at method =
    let x = pos grand_total -ℤ received_net payments in
    let due = pos_part (round_ℤ x) in
    let rest : pos grand_total -ℤ (received_net payments +ℤ pos due) ≡ x -ℤ pos due =
      omega int_laws in
    rw (received_net-counter_row id at method due payments)
      (rw rest (small-rounds (x -ℤ pos due) (rest-small x)))

-- A packed pickup order is overdue exactly from midnight in Vietnam after the day it was promised for:
-- seven hours before the next midnight UTC. `d` is that day's number.
pub is_pickup_overdue_iff :
    (d now : ℕ)
    → (is_pickup_overdue store_pickup packed (some (d * day_ms)) now ≡ true)
      ↔ ((d + 1) * day_ms ≤ now + 25_200_000)
unfolding is_pickup_overdue vietnam_day
is_pickup_overdue_iff d now = (λ h. ground arith, λ h. ground arith)
