-- ===== src/Inventory/Return/Distinct.antt =====
-- A draw takes from each lot once.
use ikiot_be.Prelude.{
  ◌≢◌, ℕ, ◌-◌, ◌≤◌, ◌≡◌, refl, min, Option, none, some, List, [], ◌∷◌, map, filter, sum_by, All,
  arith, if◌then◌else◌, ◌==◌, Bool-cases, inl, inr,
}
use ikiot_be.Inventory.Allocation.{LotSlice, take_slices, draw_queue, offer, plan_draw}
use ikiot_be.Inventory.Allocation.Draw.{eligible, sum_by-map, sum_by-draw_queue}
use ikiot_be.Inventory.Tables.{StockKey, InventoryLot, Db}
use ikiot_be.Inventory.Rows.Ledger.{is_selected, drawable, offered}
use ikiot_be.Inventory.Rows.Lots.{UniqueIds}

abbrev pub Distinct : List LotSlice → Type 0
Distinct [] = Unit
Distinct (s ∷ slices) = All (λ t. t.lot_id ≢ s.lot_id) slices × Distinct slices

-- How many slices, and how many lots, have an identifier.
abbrev visits : ℕ → List LotSlice → ℕ
visits i = sum_by (λ s. if s.lot_id == i then 1 else 0)

abbrev occurs : ℕ → List InventoryLot → ℕ
occurs i = sum_by (λ l. if l.id == i then 1 else 0)

visits-take_slices :
    (i : ℕ) (lots : List LotSlice) (q : ℕ) → visits i (take_slices lots q).0 ≤ visits i lots
unfolding take_slices
visits-take_slices i [] q = omega arith
visits-take_slices i (l ∷ ls) q = ground (arith, visits-take_slices i ls (q - min q l.quantity))

eligible-le :
    (i : ℕ) (for_item : Option ℕ) (k : StockKey) (lots : List InventoryLot)
    → sum_by
        (λ l. if eligible for_item l then (if l.id == i then 1 else 0) else 0)
        (map drawable (filter (is_selected k for_item) lots))
      ≤ occurs i lots
eligible-le i for_item k [] = omega arith
eligible-le i none k (l ∷ ls) = ground (arith, eligible-le i none k ls)
eligible-le i (some m) k (l ∷ ls) = ground (arith, eligible-le i (some m) k ls)

absent_occurs : (i : ℕ) (lots : List InventoryLot) → All (λ m. m.id ≢ i) lots → occurs i lots ≡ 0
absent_occurs i [] h = refl
absent_occurs i (l ∷ ls) h = ground (arith, absent_occurs i ls h.1, h.0)

occurs-le_one : (i : ℕ) (lots : List InventoryLot) → UniqueIds lots → occurs i lots ≤ 1
occurs-le_one i [] u = omega arith
occurs-le_one i (l ∷ ls) u = elim (Bool-cases (l.id == i)) [
  | inl e ↦
      let same : l.id ≡ i = ground arith in
      let others : All (λ m. m.id ≢ i) ls = rw same at u.0 in
      ground (arith, absent_occurs i ls others)
  | inr e ↦ ground (arith, occurs-le_one i ls u.1)
]

unvisited : (i : ℕ) (slices : List LotSlice) → visits i slices ≡ 0 → All (λ t. t.lot_id ≢ i) slices
unvisited i [] h = tt
unvisited i (s ∷ slices) h = (ground arith, unvisited i slices (ground arith))

once-Distinct : (slices : List LotSlice) → ((i : ℕ) → visits i slices ≤ 1) → Distinct slices
once-Distinct [] h = tt
once-Distinct (s ∷ slices) h = (
  unvisited s.lot_id slices (ground (arith, h s.lot_id)),
  once-Distinct slices (λ i. omega (arith, h i)),
)

pub plan_draw-Distinct :
    (db : Db) (k : StockKey) (q : ℕ) (for_item : Option ℕ) (slices : List LotSlice)
    → UniqueIds db.lots
    → plan_draw (offered db k for_item) q for_item ≡ some slices
    → Distinct slices
unfolding plan_draw
plan_draw-Distinct db k q for_item slices u e =
    let lots = offered db k for_item in
    let offers = map offer (draw_queue lots for_item) in
    let same : (take_slices offers q).0 ≡ slices = ground arith in
    once-Distinct slices (λ i. rw (← same) (
      omega (
        arith,
        visits-take_slices i offers q,
        sum_by-map (λ s. if s.lot_id == i then 1 else 0) offer (draw_queue lots for_item),
        sum_by-draw_queue (λ l. if l.id == i then 1 else 0) lots for_item,
        eligible-le i for_item k db.lots,
        occurs-le_one i db.lots u,
      )))
