-- ===== src/Inventory/Shelf.antt =====
-- src/modules/inventories/low-stock.ts and the shelf of combo-availability.ts.
use ikiot_be.Prelude.{
  ℕ, ◌+◌, ◌-◌, ◌≤◌, ◌<◌, ◌≡◌, ◌↔◌, ◌&&◌, Option, none, some, arith, if◌then◌else◌, ◌==◌,
}
use ikiot_be.Prelude.Int.{ℤ, pos, ◌-ℤ◌, ltb_ℤ, leb_ℤ}
use ikiot_be.Inventory.Tables.{Inventory}

-- `actualStockOf`: `locked_stock <= stock` is a CHECK of the table.
abbrev pub actual_stock_of : Inventory → ℕ
actual_stock_of row = row.stock - row.locked_stock

-- Did a change of the shelf by `delta` carry it through the threshold?
unfoldable pub crossed_low_stock : Option Inventory → ℤ → Option Inventory
crossed_low_stock none delta = none
crossed_low_stock (some after) delta =
    let actual_after = pos (actual_stock_of after) in
    let actual_before = actual_after -ℤ delta in
    let crossed =
      ltb_ℤ (pos after.min_stock) actual_before && leb_ℤ actual_after (pos after.min_stock) in
    if leb_ℤ (pos 0) delta
    then none
    else (if after.min_stock == 0 then none else (if crossed then some after else none))

-- A sale or a lock of `q` pieces warns exactly when the alert is on and the shelf was above the
-- threshold before it and is not above it after: at the crossing, and not again below it.
pub crossed_low_stock_iff :
    (after : Inventory) (q : ℕ)
    → (crossed_low_stock (some after) (pos 0 -ℤ pos q) ≡ some after) ↔ (
        (0 < after.min_stock)
        × (after.min_stock < actual_stock_of after + q)
        × (actual_stock_of after ≤ after.min_stock))
unfolding crossed_low_stock ◌-ℤ◌
crossed_low_stock_iff after q = (ground arith, ground arith)
