-- ===== src/Orders/Journey.antt =====
-- src/common/constants/order-status.ts, src/modules/orders/order-status.ts and the counter's table
-- in src/modules/orders/order.constants.ts.
pub mod Walks
use ikiot_be.Prelude.{
  ℕ, Bool, true, false, List, [], ◌∷◌, not, Result, ok, throw_if, ◌>>=◌, includes, map,
}

pub data OrderStatus : Type 0 where
  pending_confirmation confirmed packed picked_up shipping received completed cancelled returned
        pending draft ready_to_pack delivered :
      OrderStatus

pub data OrderItemStatus : Type 0 where
  item_pending shipped item_cancelled item_returned waiting_stock ready item_packed item_delivered :
      OrderItemStatus

pub data OrderLineType : Type 0 where
  product combo combo_component service : OrderLineType

pub data FulfillmentType : Type 0 where
  takeaway store_pickup home_delivery : FulfillmentType

-- The position of a status in `ORDER_STATUSES`; two statuses are equal when it is.
abbrev pub code : OrderStatus → ℕ
code pending_confirmation = 0
code confirmed = 1
code packed = 2
code picked_up = 3
code shipping = 4
code received = 5
code completed = 6
code cancelled = 7
code returned = 8
code pending = 9
code draft = 10
code ready_to_pack = 11
code delivered = 12

abbrev pub order_statuses : List OrderStatus
order_statuses =
    pending_confirmation ∷ confirmed ∷ packed ∷ picked_up ∷ shipping ∷ received ∷ completed
    ∷ cancelled ∷ returned ∷ pending ∷ draft ∷ ready_to_pack ∷ delivered ∷ []

-- `list.includes(status)`.
abbrev pub among : List OrderStatus → OrderStatus → Bool
among statuses s = includes (map code statuses) (code s)

abbrev pub unassigned_order_statuses : List OrderStatus
unassigned_order_statuses = pending_confirmation ∷ []

abbrev pub unshipped_order_statuses : List OrderStatus
unshipped_order_statuses = confirmed ∷ packed ∷ picked_up ∷ []

abbrev pub final_order_statuses : List OrderStatus
final_order_statuses = completed ∷ cancelled ∷ returned ∷ []

abbrev pub is_stocked : OrderLineType → Bool
is_stocked product = true
is_stocked combo_component = true
is_stocked combo = false
is_stocked service = false

-- A status that is no key of the table leads nowhere.
abbrev pub order_journey_transitions : OrderStatus → List OrderStatus
order_journey_transitions pending_confirmation = confirmed ∷ cancelled ∷ []
order_journey_transitions confirmed = packed ∷ cancelled ∷ []
order_journey_transitions packed = picked_up ∷ completed ∷ cancelled ∷ []
order_journey_transitions picked_up = shipping ∷ cancelled ∷ []
order_journey_transitions shipping = received ∷ completed ∷ returned ∷ []
order_journey_transitions received = completed ∷ returned ∷ []
order_journey_transitions completed = returned ∷ []
order_journey_transitions cancelled = []
order_journey_transitions returned = []
order_journey_transitions pending = []
order_journey_transitions draft = []
order_journey_transitions ready_to_pack = []
order_journey_transitions delivered = []

abbrev pub can_transition : OrderStatus → OrderStatus → Bool
can_transition from to = among (order_journey_transitions from) to

pub data JourneyError : Type 0 where
  order_status_transition_invalid : OrderStatus → OrderStatus → JourneyError

unfoldable pub assert_transition : OrderStatus → OrderStatus → Result JourneyError (Unit {0})
assert_transition from to =
    throw_if (not (can_transition from to)) (order_status_transition_invalid from to)

-- The routes' steps of one order in the order they run, each checked by `assert_transition`.
unfoldable pub follow : OrderStatus → List OrderStatus → Result JourneyError OrderStatus
follow from [] = ok from
follow from (to ∷ rest) = assert_transition from to >>= λ _. follow to rest

-- `VALID_ORDER_TRANSITIONS`, the counter's table.
abbrev pub valid_order_transitions : OrderStatus → List OrderStatus
valid_order_transitions pending = completed ∷ cancelled ∷ []
valid_order_transitions completed = returned ∷ []
valid_order_transitions cancelled = []
valid_order_transitions returned = []
valid_order_transitions pending_confirmation = []
valid_order_transitions confirmed = []
valid_order_transitions packed = []
valid_order_transitions picked_up = []
valid_order_transitions shipping = []
valid_order_transitions received = []
valid_order_transitions draft = []
valid_order_transitions ready_to_pack = []
valid_order_transitions delivered = []
