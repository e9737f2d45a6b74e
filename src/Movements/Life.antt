-- ===== src/Movements/Life.antt =====
-- The life of a movement: which actions its status lets through, and what each does to the stock.
pub mod Start
pub mod End
pub mod Every
pub mod Goods
pub mod Transfer
use ikiot_be.Prelude.{
  ◌≢◌, ℕ, ◌+◌, ◌-◌, ◌≤◌, ◌≡◌, refl, ap, Bool, true, false, not, ◌&&◌, Option, none, some, List, [],
  ◌∷◌, map, all, any, find?, All, if◌then◌else◌, ltb, ◌==◌, arith, ok, err, Bool-cases,
  Option-cases, Result-cases, inl, inr, ◌>>=◌, throw_if, sum_by,
}
use ikiot_be.Inventory.Tables.{Db, TxType}
use ikiot_be.Inventory.Rows.{update_where}
use ikiot_be.Inventory.Lines.{assert_holds_stock}
use ikiot_be.Inventory.History.{ShelfEvent, Reach}
use ikiot_be.Inventory.History.Sound.{IsSound}
use ikiot_be.Inventory.History.Refines.{Reach-IsSound}
use ikiot_be.Movements.Tables.{
  MovementStatus, draft, pending, opening, closed, in_transit, received, cancelled, completed,
  is_among, final_movement_statuses, MovementItem, Movement, Supplier, Shop, Outcome, of_stock,
}
use ikiot_be.Movements.Access.{ShopUser, can_act_at}
use ikiot_be.Movements.Lines.{
  ReceivedLine, received_or_zero, movement_ledger, send_lines, receive_lines, bring_lines_back,
  adjust_lines,
}
use ikiot_be.Movements.Actions.{
  has_movement_id, find_movement, find_movement_or_throw, assert_source_stock, open_movement,
  close_movement, ship_movement, receive_movement, approve_adjust, cancel_movement, is_transfer,
  is_adjust, receivable, returns_stock, put_status, put_received, update_movement, is_over,
  is_reported, total_received, charge_import, counted_lines,
}
use ikiot_be.Movements.Reach.{
  sent, arrived, brought_back, adjusted, send_lines-Reach, receive_lines-Reach,
  bring_lines_back-Reach, adjust_lines-Reach,
}

pub data MovementAction : Type 0 where
  open_it close_it ship_it approve_it cancel_it : MovementAction
  receive_it : List ReceivedLine → MovementAction

unfoldable pub act : ShopUser → Shop → ℕ → ℕ → MovementAction → Outcome Shop
act user shop i now open_it = open_movement user shop i
act user shop i now close_it = close_movement user shop i
act user shop i now ship_it = ship_movement user shop i
act user shop i now approve_it = approve_adjust user shop i now
act user shop i now cancel_it = cancel_movement user shop i now
act user shop i now (receive_it dto) = receive_movement user shop i dto now

-- The statuses that an action starts from.
unfoldable pub starts : MovementAction → Movement → List MovementStatus
starts open_it m = draft ∷ []
starts close_it m = opening ∷ []
starts ship_it m = closed ∷ pending ∷ []
starts approve_it m = pending ∷ []
starts cancel_it m = draft ∷ pending ∷ opening ∷ closed ∷ in_transit ∷ []
starts (receive_it dto) m = receivable m.movement_type

-- The row that an action leaves.
unfoldable pub left_by : MovementAction → Movement → Movement
left_by open_it = put_status opening
left_by close_it = put_status closed
left_by ship_it = put_status in_transit
left_by approve_it = put_status completed
left_by cancel_it = put_status cancelled
left_by (receive_it dto) = put_received dto

-- Who may do it: `receive` is for those at the destination, `cancel` for either end.
unfoldable pub may_act : ShopUser → MovementAction → Movement → Bool
may_act user open_it m = can_act_at user m.from_location
may_act user close_it m = can_act_at user m.from_location
may_act user ship_it m = can_act_at user m.from_location
may_act user approve_it m = can_act_at user m.from_location
may_act user cancel_it m =
    not (not (can_act_at user m.from_location) && not (can_act_at user m.to_location))
may_act user (receive_it dto) m = can_act_at user m.to_location

-- The counts of a stocktake, once every line has one.
unfoldable pub counts_of : List MovementItem → List (MovementItem × ℕ)
counts_of lines = elim (counted_lines lines) [ err e ↦ [] | ok changes ↦ changes ]

pub counts_lem :
    (lines : List MovementItem) (changes : List (MovementItem × ℕ))
    → counted_lines lines ≡ ok changes
    → counts_of lines ≡ changes
unfolding counts_of
counts_lem lines changes e = ap (λ r. elim r [ err x ↦ [] | ok cs ↦ cs ]) e

-- What an action does to the stock.
unfoldable pub events_of : MovementAction → Movement → List ShelfEvent
events_of open_it m = []
events_of close_it m = []
events_of ship_it m =
    if is_transfer m.movement_type then sent m.tenant_id m.from_location m.details else []
events_of approve_it m = adjusted m.tenant_id m.from_location (counts_of m.details)
events_of cancel_it m =
    if returns_stock m then brought_back m.tenant_id m.from_location m.details else []
events_of (receive_it dto) m = arrived m.tenant_id m.to_location dto m.details

-- What an accepted action shows.
abbrev pub Follows : ShopUser → Shop → Shop → ℕ → MovementAction → Movement → Type 0
Follows user shop shop' i action m =
    (find_movement user.tenant_id i shop.movements ≡ some m)
    × (may_act user action m ≡ true)
    × (is_among m.status (starts action m) ≡ true)
    × Reach shop.db (events_of action m) shop'.db
    × (shop'.movements ≡ update_where (has_movement_id i) (left_by action) shop.movements)

abbrev pub Accepted : ShopUser → Shop → Shop → ℕ → MovementAction → Type 0
Accepted user shop shop' i action = (m : Movement) × Follows user shop shop' i action m
