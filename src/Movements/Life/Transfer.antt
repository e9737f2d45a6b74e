-- ===== src/Movements/Life/Transfer.antt =====
-- A transfer between two locations, from its shipment to its receipt.
use ikiot_be.Prelude.{
  ◌==◌, ℕ, ◌+◌, ◌≤◌, ◌≡◌, ◌∙◌, ap, sym, true, false, Option, some, List, [], ◌∷◌, any, sum_by, All,
  arith, ok, Bool-cases, inl, inr,
}
use ikiot_be.Inventory.Tables.{StockKey}
use ikiot_be.Inventory.Rows.Guarded.{entry}
use ikiot_be.Inventory.Consistent.{stock_at, locked_at}
use ikiot_be.Inventory.History.Sound.{IsSound}
use ikiot_be.Inventory.History.Refines.{
  Counters, count_event, count_events, counters_at, Reach-refines, Reach-IsSound,
}
use ikiot_be.Movements.Tables.{in_transit, MovementItem, Movement, LocationEnd, Shop}
use ikiot_be.Movements.Access.{ShopUser}
use ikiot_be.Movements.Lines.{key_of, ReceivedLine, received_or_zero}
use ikiot_be.Movements.Actions.{find_movement, is_transfer, put_status, is_over}
use ikiot_be.Movements.Reach.{place, arrived}
use ikiot_be.Movements.Life.{ship_it, receive_it, act, left_by, events_of}
use ikiot_be.Movements.Life.Every.{act-Accepted}
use ikiot_be.Movements.Life.End.{receive-Accepted}
use ikiot_be.Movements.Life.Goods.{taken_counters, found_shipped}

within_lines :
    (dto : List ReceivedLine) (lines : List MovementItem)
    → any (is_over dto) lines ≡ false
    → All (λ line. received_or_zero dto line ≤ line.quantity) lines
within_lines dto [] h = tt
within_lines dto (line ∷ lines) h = (ground arith, within_lines dto lines (ground arith))

-- What the lines of a movement add up to at a key, as sent and as reported received.
abbrev pub sent_to : StockKey → ℕ → Option LocationEnd → List MovementItem → ℕ
sent_to j tenant from = sum_by (λ line. entry (key_of tenant (place from) line) j line.quantity)

abbrev pub received_at :
    StockKey → ℕ → Option LocationEnd → List ReceivedLine → List MovementItem → ℕ
received_at j tenant to dto =
    sum_by (λ line. entry (key_of tenant (place to) line) j (received_or_zero dto line))

arrived_counters :
    (j : StockKey) (tenant : ℕ) (to : Option LocationEnd) (dto : List ReceivedLine)
    (lines : List MovementItem) (c d : Counters)
    → count_events j (arrived tenant to dto lines) c ≡ some d
    → (d.stock ≡ c.stock + received_at j tenant to dto lines) × (d.locked ≡ c.locked)
unfolding count_events count_event
arrived_counters j tenant to dto [] c d e = ground arith
arrived_counters j tenant to dto (line ∷ lines) c d e =
    let q = received_or_zero dto line in
    let n = entry (key_of tenant (place to) line) j q in
    elim (Bool-cases (q == 0)) [
      | inl nothing ↦
          let rest = arrived_counters j tenant to dto lines c d (ground arith) in
          (ground (arith, rest.0), rest.1)
      | inr more ↦
          let rest =
            arrived_counters j tenant to dto lines (record c { stock = c.stock + n }) d
              (ground arith) in
          (ground (arith, rest.0), ground (arith, rest.1))
    ]

transfer_counters :
    (j : StockKey) (m : Movement) (dto : List ReceivedLine) (c d f : Counters)
    → is_transfer m.movement_type ≡ true
    → count_events j (events_of ship_it m) c ≡ some d
    → count_events j (events_of (receive_it dto) (put_status in_transit m)) d ≡ some f
    → (f.stock + sent_to j m.tenant_id m.from_location m.details
        ≡ c.stock + received_at j m.tenant_id m.to_location dto m.details)
      × (f.locked ≡ c.locked)
unfolding events_of
transfer_counters j m dto c d f transfer out back =
    let taken = taken_counters j m.tenant_id m.from_location m.details c d (rw transfer at out) in
    let came = arrived_counters j m.tenant_id m.to_location dto m.details d f back in
    (omega (arith, taken.0, came.0), came.1 ∙ taken.1)

-- Where a transfer is shipped and then received, the stock of every key has changed by what the
-- lines took from it and by what was reported received at it, and by nothing else; no line has more
-- received than it sent, no lock has changed and the tables are sound.
pub ship-receive_accounts :
    (user other : ShopUser) (shop shop₁ shop₂ : Shop) (i now later : ℕ) (dto : List ReceivedLine)
    (m : Movement) (j : StockKey)
    → other.tenant_id ≡ user.tenant_id
    → IsSound shop.db
    → find_movement user.tenant_id i shop.movements ≡ some m
    → is_transfer m.movement_type ≡ true
    → act user shop i now ship_it ≡ ok shop₁
    → act other shop₁ i later (receive_it dto) ≡ ok shop₂
    → IsSound shop₂.db
      × (stock_at j shop₂.db.inventories + sent_to j m.tenant_id m.from_location m.details
          ≡ stock_at j shop.db.inventories + received_at j m.tenant_id m.to_location dto m.details)
      × (locked_at j shop₂.db.inventories ≡ locked_at j shop.db.inventories)
      × All (λ line. received_or_zero dto line ≤ line.quantity) m.details
unfolding left_by
ship-receive_accounts user other shop shop₁ shop₂ i now later dto m j same_shop h found transfer e₁
      e₂ =
    let (m₁, shipped) = act-Accepted user shop shop₁ i now ship_it e₁ in
    let (n, came) = act-Accepted other shop₁ shop₂ i later (receive_it dto) e₂ in
    let sound = Reach-IsSound shop.db shop₁.db _ h shipped.3 in
    let done = Reach-IsSound shop₁.db shop₂.db _ sound came.3 in
    let one : m₁ ≡ m = ground (arith, shipped.0) in
    let moved : find_movement user.tenant_id i shop₁.movements ≡ some (put_status in_transit m) =
      ap (find_movement user.tenant_id i) shipped.4
      ∙ found_shipped user.tenant_id i shop.movements m found in
    let same : n ≡ put_status in_transit m = ground (arith, moved, came.0) in
    let out =
      ap (λ x. count_events j (events_of ship_it x) (counters_at j shop.db)) (sym one)
      ∙ Reach-refines j shop.db shop₁.db _ h shipped.3 in
    let back =
      ap (λ x. count_events j (events_of (receive_it dto) x) (counters_at j shop₁.db)) (sym same)
      ∙ Reach-refines j shop₁.db shop₂.db _ sound came.3 in
    let sums = transfer_counters j m dto _ _ _ transfer out back in
    let theirs : find_movement other.tenant_id i shop₁.movements ≡ some (put_status in_transit m) =
      rw same_shop moved in
    let within =
      (receive-Accepted other shop₁ shop₂ i later dto e₂).1 (put_status in_transit m) theirs in
    (done, sums.0, sums.1, within_lines dto m.details within)
