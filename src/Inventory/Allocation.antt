-- ===== src/Inventory/Allocation.antt =====
-- src/modules/inventories/lot-allocation.ts: which lots a quantity is drawn from or returned to.
-- Identifiers and times (milliseconds) are numbers; the order of identifiers is that of
-- `localeCompare`. Costs are in hundredths of a dong, as the Decimal(14,2) columns are.
pub mod Greedy
pub mod Draw
pub mod Fifo
use ikiot_be.Prelude.{
  ℕ, ◌+◌, ◌-◌, ◌*◌, ◌<◌, ◌≡◌, Bool, true, false, ◌&&◌, ◌||◌, Option, none, some, List, [], ◌∷◌,
  ◌++◌, map, filter, min, sort_by, if◌then◌else◌, ltb, leb, ◌==◌,
}
use ikiot_be.Prelude.Int.{ℤ, pos, ◌+ℤ◌, ◌-ℤ◌, ◌*ℤ◌, ltb_ℤ, pos_part}
use ikiot_be.Prelude.Rounding.{round_div_ℤ}

pub record LotSlice : Type 0 where
  pub lot_id : ℕ
  pub quantity : ℕ

pub record DrawableLot : Type 0 where
  pub id : ℕ
  pub remaining_quantity : ℕ
  pub received_at : ℕ
  pub order_item_id : Option ℕ

abbrev pub slice : ℕ → ℕ → LotSlice
slice i q = record { lot_id = i; quantity = q }

-- The loop of `planDraw` and `planReturn` over what each lot can give, with the part of `left`
-- that the lots do not cover.
unfoldable pub take_slices : List LotSlice → ℕ → List LotSlice × ℕ
take_slices [] left = ([], left)
take_slices (lot ∷ lots) left =
    let take = min left lot.quantity in
    let rest = take_slices lots (left - take) in
    if left == 0
    then ([], 0)
    else (if take == 0 then rest else (slice lot.lot_id take ∷ rest.0, rest.1))

abbrev pub or_null : List LotSlice × ℕ → Option (List LotSlice)
or_null (slices, left) = if ltb 0 left then none else some slices

-- `lot.orderItemId === forOrderItemId`, and the lots that no line owns.
abbrev pub is_own : Option ℕ → DrawableLot → Bool
is_own none lot = false
is_own (some i) lot = elim lot.order_item_id [ none ↦ false | some j ↦ j == i ]

abbrev pub is_shared : DrawableLot → Bool
is_shared lot = elim lot.order_item_id [ none ↦ true | some _ ↦ false ]

-- The comparator of the sort: the older lot first, then the smaller identifier.
abbrev pub older : DrawableLot → DrawableLot → Bool
older a b =
    if a.received_at == b.received_at then ltb a.id b.id else ltb a.received_at b.received_at

abbrev pub offer : DrawableLot → LotSlice
offer lot = slice lot.id lot.remaining_quantity

-- The lots in the order in which they are drawn.
unfoldable pub draw_queue : List DrawableLot → Option ℕ → List DrawableLot
draw_queue lots for_item = filter (is_own for_item) lots ++ sort_by older (filter is_shared lots)

unfoldable pub plan_draw : List DrawableLot → ℕ → Option ℕ → Option (List LotSlice)
plan_draw lots quantity for_item =
    or_null (take_slices (map offer (draw_queue lots for_item)) quantity)

pub record DrawnLot : Type 0 where
  pub lot_id : ℕ
  pub drawn : ℕ
  pub returned : ℕ

-- What may still come back to the lot. Where more has come back than went out it is nothing, as
-- the loop skips a `take` that is not positive.
abbrev pub outstanding : DrawnLot → LotSlice
outstanding lot = slice lot.lot_id (lot.drawn - lot.returned)

unfoldable pub plan_return : List DrawnLot → ℕ → Option (List LotSlice)
plan_return lots quantity = or_null (take_slices (map outstanding lots) quantity)

unfoldable pub running_balances : ℤ → List ℤ → List ℤ
running_balances before [] = []
running_balances before (q ∷ qs) = (before +ℤ q) ∷ running_balances (before +ℤ q) qs

pub record CostRow : Type 0 where
  pub quantity : ℤ
  pub unit_cost : ℕ

units_and_cost : ℤ × ℤ → List CostRow → ℤ × ℤ
units_and_cost acc [] = acc
units_and_cost (units, cost) (row ∷ rows) =
    units_and_cost (units -ℤ row.quantity, cost -ℤ row.quantity *ℤ pos row.unit_cost) rows

unfoldable pub average_unit_cost : List CostRow → Option ℤ
unfolding units_and_cost
average_unit_cost rows =
    let (units, cost) = units_and_cost (pos 0, pos 0) rows in
    if ltb_ℤ (pos 0) units then some (round_div_ℤ cost (pos_part units)) else none
