-- ===== src/Movements/Life/Every.antt =====
-- Every action on a movement.
use ikiot_be.Prelude.{ℕ, ◌≡◌, ok}
use ikiot_be.Inventory.History.Sound.{IsSound}
use ikiot_be.Inventory.History.Refines.{Reach-IsSound}
use ikiot_be.Movements.Tables.{Shop}
use ikiot_be.Movements.Access.{ShopUser}
use ikiot_be.Movements.Life.{
  MovementAction, open_it, close_it, ship_it, approve_it, cancel_it, receive_it, act, events_of,
  Accepted,
}
use ikiot_be.Movements.Life.Start.{open-Accepted, close-Accepted, ship-Accepted}
use ikiot_be.Movements.Life.End.{receive-Accepted, approve-Accepted, cancel-Accepted}

pub act-Accepted :
    (user : ShopUser) (shop shop' : Shop) (i now : ℕ) (action : MovementAction)
    → act user shop i now action ≡ ok shop'
    → Accepted user shop shop' i action
act-Accepted user shop shop' i now open_it e = open-Accepted user shop shop' i now e
act-Accepted user shop shop' i now close_it e = close-Accepted user shop shop' i now e
act-Accepted user shop shop' i now ship_it e = ship-Accepted user shop shop' i now e
act-Accepted user shop shop' i now approve_it e = approve-Accepted user shop shop' i now e
act-Accepted user shop shop' i now cancel_it e = cancel-Accepted user shop shop' i now e
act-Accepted user shop shop' i now (receive_it dto) e =
    (receive-Accepted user shop shop' i now dto e).0

-- An action that is accepted is on a movement of the user's shop, by someone who may act at its
-- ends, and from a status where the life cycle has it. The movement is left as the action leaves it,
-- the stock changes by just that action's history of arrivals and takings, and tables that were
-- sound stay so.
pub act-follows :
    (user : ShopUser) (shop shop' : Shop) (i now : ℕ) (action : MovementAction)
    → IsSound shop.db
    → act user shop i now action ≡ ok shop'
    → IsSound shop'.db × Accepted user shop shop' i action
act-follows user shop shop' i now action h e =
    let (m, follows) = act-Accepted user shop shop' i now action e in
    (Reach-IsSound shop.db shop'.db (events_of action m) h follows.3, (m, follows))
