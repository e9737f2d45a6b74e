-- ===== src/Movements/Life/Goods.antt =====
-- What an action on a movement can never do to goods.
use ikiot_be.Prelude.{
  ℕ, ◌+◌, ◌-◌, ◌≡◌, ◌∙◌, ap, sym, true, false, Option, some, List, [], ◌∷◌, sum_by, leb, arith, ok,
  err, Bool-cases, Result-cases, inl, inr,
}
use ikiot_be.Inventory.Tables.{StockKey}
use ikiot_be.Inventory.Rows.{update_where}
use ikiot_be.Inventory.Rows.Guarded.{entry}
use ikiot_be.Inventory.Consistent.{stock_at, locked_at}
use ikiot_be.Inventory.History.Sound.{IsSound}
use ikiot_be.Inventory.History.Refines.{
  Counters, count_event, count_events, counters_at, Reach-refines, Reach-IsSound,
}
use ikiot_be.Movements.Tables.{
  in_transit, is_among, final_movement_statuses, MovementItem, Movement, LocationEnd, Shop,
  MovementError,
}
use ikiot_be.Movements.Access.{ShopUser}
use ikiot_be.Movements.Lines.{key_of}
use ikiot_be.Movements.Actions.{has_movement_id, find_movement, is_transfer, put_status}
use ikiot_be.Movements.Reach.{place, sent, brought_back}
use ikiot_be.Movements.Life.{
  MovementAction, ship_it, cancel_it, receive_it, act, starts, left_by, events_of, open_it,
  close_it, approve_it,
}
use ikiot_be.Movements.Life.Every.{act-Accepted}

starts_alive :
    (action : MovementAction) (m : Movement)
    → is_among m.status (starts action m) ≡ true
    → is_among m.status final_movement_statuses ≡ false
unfolding starts
starts_alive open_it m h = ground arith
starts_alive close_it m h = ground arith
starts_alive ship_it m h = ground arith
starts_alive approve_it m h = ground arith
starts_alive cancel_it m h = ground arith
starts_alive (receive_it dto) m h = ground arith

-- Once a movement is received, completed or cancelled, every action on it is refused.
pub final-act :
    (user : ShopUser) (shop : Shop) (i now : ℕ) (action : MovementAction) (m : Movement)
    → find_movement user.tenant_id i shop.movements ≡ some m
    → is_among m.status final_movement_statuses ≡ true
    → (refusal : MovementError) × (act user shop i now action ≡ err refusal)
final-act user shop i now action m found final = elim (Result-cases (act user shop i now action)) [
  | inr refused ↦ refused
  | inl (shop', accepted) ↦
      let (n, follows) = act-Accepted user shop shop' i now action accepted in
      let alive = starts_alive action n follows.2 in
      let same : n ≡ m = ground (arith, follows.0) in
      let dead : is_among n.status final_movement_statuses ≡ true = rw same final in ground arith
]

-- Goods that are taken and brought back in the same order leave the counters as they were.
module _ (j : StockKey) (tenant : ℕ) (from : Option LocationEnd) where
  abbrev amount : List MovementItem → ℕ
  amount = sum_by (λ line. entry (key_of tenant (place from) line) j line.quantity)

  pub taken_counters :
      (lines : List MovementItem) (c d : Counters)
      → count_events j (sent tenant from lines) c ≡ some d
      → (d.stock + amount lines ≡ c.stock) × (d.locked ≡ c.locked)
  unfolding count_events count_event
  taken_counters [] c d e = ground arith
  taken_counters (line ∷ lines) c d e =
      let n = entry (key_of tenant (place from) line) j line.quantity in
      elim (Bool-cases (leb (c.locked + n) c.stock)) [
        | inr short ↦ ground arith
        | inl fits ↦
            let rest = taken_counters lines (record c { stock = c.stock - n }) d (ground arith) in
            (ground (arith, rest.0), ground (arith, rest.1))
      ]

  back_counters :
      (lines : List MovementItem) (c d : Counters)
      → count_events j (brought_back tenant from lines) c ≡ some d
      → (d.stock ≡ c.stock + amount lines) × (d.locked ≡ c.locked)
  unfolding count_events count_event
  back_counters [] c d e = ground arith
  back_counters (line ∷ lines) c d e =
      let n = entry (key_of tenant (place from) line) j line.quantity in
      let rest = back_counters lines (record c { stock = c.stock + n }) d (ground arith) in
      (ground (arith, rest.0), ground (arith, rest.1))

pub found_shipped :
    (tenant i : ℕ) (movements : List Movement) (m : Movement)
    → find_movement tenant i movements ≡ some m
    → find_movement tenant i (update_where (has_movement_id i) (put_status in_transit) movements)
      ≡ some (put_status in_transit m)
unfolding update_where
found_shipped tenant i [] m e = ground arith
found_shipped tenant i (x ∷ xs) m e = ground (arith, found_shipped tenant i xs m)

undone_counters :
    (j : StockKey) (m : Movement) (c d f : Counters)
    → count_events j (events_of ship_it m) c ≡ some d
    → count_events j (events_of cancel_it (put_status in_transit m)) d ≡ some f
    → (f.stock ≡ c.stock) × (f.locked ≡ c.locked)
unfolding events_of count_events
undone_counters j m c d f out back = elim (Bool-cases (is_transfer m.movement_type)) [
  | inl transfer ↦
      let taken = taken_counters j m.tenant_id m.from_location m.details c d (rw transfer at out) in
      let again = back_counters j m.tenant_id m.from_location m.details d f (rw transfer at back) in
      (omega (arith, taken.0, again.0), again.1 ∙ taken.1)
  | inr stays ↦ (ground arith, ground arith)
]

-- A movement that is shipped and then cancelled on its way leaves the stock and the locks of every
-- key as they were before it was shipped, and the tables sound, whoever of the shop cancels it.
pub ship-cancel_restores :
    (user other : ShopUser) (shop shop₁ shop₂ : Shop) (i now later : ℕ) (j : StockKey)
    → other.tenant_id ≡ user.tenant_id
    → IsSound shop.db
    → act user shop i now ship_it ≡ ok shop₁
    → act other shop₁ i later cancel_it ≡ ok shop₂
    → IsSound shop₂.db
      × (stock_at j shop₂.db.inventories ≡ stock_at j shop.db.inventories)
      × (locked_at j shop₂.db.inventories ≡ locked_at j shop.db.inventories)
unfolding left_by
ship-cancel_restores user other shop shop₁ shop₂ i now later j same_shop h e₁ e₂ =
    let (m, shipped) = act-Accepted user shop shop₁ i now ship_it e₁ in
    let (n, cancelled) = act-Accepted other shop₁ shop₂ i later cancel_it e₂ in
    let sound = Reach-IsSound shop.db shop₁.db _ h shipped.3 in
    let done = Reach-IsSound shop₁.db shop₂.db _ sound cancelled.3 in
    let out = Reach-refines j shop.db shop₁.db _ h shipped.3 in
    let back = Reach-refines j shop₁.db shop₂.db _ sound cancelled.3 in
    let moved : find_movement user.tenant_id i shop₁.movements ≡ some (put_status in_transit m) =
      ap (find_movement user.tenant_id i) shipped.4
      ∙ found_shipped user.tenant_id i shop.movements m shipped.0 in
    let same : n ≡ put_status in_transit m = ground (arith, moved, cancelled.0) in
    let restored = undone_counters j m _ _ _ out (
      ap (λ x. count_events j (events_of cancel_it x) (counters_at j shop₁.db)) (sym same)
      ∙ back) in
    (done, restored.0, restored.1)
