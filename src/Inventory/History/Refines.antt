-- ===== src/Inventory/History/Refines.antt =====
-- The tables implement a pair of counters for each key: what is in stock, and what of it is packed.
use ikiot_be.Prelude.{
  ℕ, ◌+◌, ◌-◌, ◌≤◌, ◌≡◌, refl, ap, ◌∙◌, Option, none, some, List, [], ◌∷◌, arith, All,
  if◌then◌else◌, leb,
}
use ikiot_be.Inventory.Tables.{StockKey, Inventory, Db}
use ikiot_be.Inventory.Rows.Guarded.{entry}
use ikiot_be.Inventory.Consistent.{stock_at, locked_at}
use ikiot_be.Inventory.Stock.Keep.{
  deduct_stock-IsConsistent, ship_locked_stock-IsConsistent, release_locked_stock-IsConsistent,
}
use ikiot_be.Inventory.Stock.Lock.{lock_stock-IsConsistent, demand}
use ikiot_be.Inventory.Return.Arrive.{open_lot-Arrives, return_drawn-IsSound}
use ikiot_be.Inventory.Lines.Keep.{
  update_min_stock-IsConsistent, add_product_to_location-IsConsistent,
}
use ikiot_be.Inventory.Lines.Remove.{remove_product_from_location-IsConsistent}
use ikiot_be.Inventory.History.{ShelfEvent, Step, Reach}
use ikiot_be.Inventory.History.Sound.{IsSound}
use ikiot_be.Inventory.History.Keep.{
  deduct_stock-IsSound, ship_locked_stock-IsSound, release_locked_stock-IsSound, lock_stock-IsSound,
  update_min_stock-IsSound, add_product_to_location-IsSound, remove_product_from_location-IsSound,
}

pub record Counters : Type 0 where
  pub stock : ℕ
  pub locked : ℕ

-- What a shelf event does to the counters of key `j`, and when it may not happen.
unfoldable pub count_event : StockKey → ShelfEvent → Counters → Option Counters
count_event j (ShelfEvent.arrive k q) c = some (record c { stock = c.stock + entry k j q })
count_event j (ShelfEvent.take k q) c =
    if leb (c.locked + entry k j q) c.stock
    then some (record c { stock = c.stock - entry k j q })
    else none
count_event j (ShelfEvent.pack lines) c =
    if leb (c.locked + demand j lines) c.stock
    then some (record c { locked = c.locked + demand j lines })
    else none
count_event j (ShelfEvent.hand_over k q) c =
    if leb (entry k j q) c.locked
    then some (record { stock = c.stock - entry k j q; locked = c.locked - entry k j q })
    else none
count_event j (ShelfEvent.unpack k q) c =
    if leb (entry k j q) c.locked then some (record c { locked = c.locked - entry k j q }) else none
count_event j ShelfEvent.relabel c = some c

unfoldable pub count_events : StockKey → List ShelfEvent → Counters → Option Counters
count_events j [] c = some c
count_events j (event ∷ events) c = elim (count_event j event c) [
  | none ↦ none
  | some d ↦ count_events j events d
]

abbrev pub counters_at : StockKey → Db → Counters
counters_at j db = record { stock = stock_at j db.inventories; locked = locked_at j db.inventories }

sums_fit :
    (j : StockKey) (rows : List Inventory)
    → All (λ r. r.locked_stock ≤ r.stock) rows
    → locked_at j rows ≤ stock_at j rows
sums_fit j [] h = omega arith
sums_fit j (r ∷ rs) h = ground (arith, h.0, sums_fit j rs h.1)

module _ (j : StockKey) (db db' : Db) where
  abbrev Counts : ShelfEvent → Type 0
  Counts event = count_event j event (counters_at j db) ≡ some (counters_at j db')

  step-Counts : (event : ShelfEvent) → IsSound db → Step db db' event → IsSound db' × Counts event
  unfolding count_event
  step-Counts event h (Step.opened k q cost origin at now ledger row lot e) =
      let done = open_lot-Arrives db db' k q cost origin at now ledger row lot h e in
      (done.0, ground (arith, done.1 j))
  step-Counts event h (Step.returned k q drawn_by ledger never now row e) =
      let done = return_drawn-IsSound db db' k q drawn_by ledger never now row h e in
      (done.0, ground (arith, done.1 j))
  step-Counts event h (Step.deducted k q label ledger row e) =
      let done = deduct_stock-IsConsistent db db' k q label ledger row h.consistent e in
      let fit = sums_fit j db'.inventories done.0.locks_fit in
      (deduct_stock-IsSound db db' k q label ledger row h e, ground (arith, done.1 j))
  step-Counts event h (Step.locked lines rows e) =
      let done = lock_stock-IsConsistent lines db db' rows h.consistent e in
      let fit = sums_fit j db'.inventories done.0.locks_fit in
      (lock_stock-IsSound lines db db' rows h e, ground (arith, done.1 j, done.3 j))
  step-Counts event h (Step.shipped k q ledger row e) =
      let done = ship_locked_stock-IsConsistent db db' k q ledger row h.consistent e in
      (ship_locked_stock-IsSound db db' k q ledger row h e, ground (arith, done.1 j))
  step-Counts event h (Step.released k q row e) =
      let done = release_locked_stock-IsConsistent db db' k q row h.consistent e in
      (release_locked_stock-IsSound db db' k q row h e, ground (arith, done.1 j))
  step-Counts event h (Step.threshold_set tenant i n row e) =
      let done = update_min_stock-IsConsistent db db' tenant i n row h.consistent e in
      (update_min_stock-IsSound db db' tenant i n row h e, ground (arith, done.1 j))
  step-Counts event h (Step.line_added catalogue k row e) =
      let done = add_product_to_location-IsConsistent catalogue db db' k row h.consistent e in
      (add_product_to_location-IsSound catalogue db db' k row h e, ground (arith, done.1 j))
  step-Counts event h (Step.line_removed tenant i e) =
      let done =
        remove_product_from_location-IsConsistent db db' tenant i h.consistent h.indexed e in
      (remove_product_from_location-IsSound db db' tenant i h e, ground (arith, done.2 j))

-- Whatever the primitives do, in any order, the tables stay sound: lots, ledger and stock of every
-- key agree, nothing is locked that is not in stock, each ledger row names a lot of its goods.
pub Reach-IsSound :
    (db db' : Db) (events : List ShelfEvent) → IsSound db → Reach db events db' → IsSound db'
Reach-IsSound db db' events h Reach.here = h
Reach-IsSound db db' events h (Reach.then {db' = mid} {event = event} {events = rest} s r) =
    Reach-IsSound mid db' rest (step-Counts any_key db mid event h s).0 r
  where
    any_key : StockKey
    any_key = record { tenant_id = 0; product_item_id = 0; location_id = 0 }

count_cons :
    (j : StockKey) (event : ShelfEvent) (events : List ShelfEvent) (c d : Counters)
    → count_event j event c ≡ some d
    → count_events j (event ∷ events) c ≡ count_events j events d
unfolding count_events
count_cons j event events c d e =
    ap (λ found. elim found [ none ↦ none | some d ↦ count_events j events d ]) e

-- Every history of the primitives on sound tables is, at each key, a run of two counters: goods
-- arrive, leave the shelf, are packed, handed over or unpacked, where a counter machine that lets
-- nothing packed be taken and nothing unpacked be handed over accepts every step, and ends with the
-- stock and the locked part that the tables have.
pub Reach-refines :
    (j : StockKey) (db db' : Db) (events : List ShelfEvent)
    → IsSound db
    → Reach db events db'
    → count_events j events (counters_at j db) ≡ some (counters_at j db')
unfolding count_events
Reach-refines j db db' events h Reach.here = refl
Reach-refines j db db' events h (Reach.then {db' = mid} {event = event} {events = rest} s r) =
    let step = step-Counts j db mid event h s in
    count_cons j event rest _ _ step.1 ∙ Reach-refines j mid db' rest step.0 r
