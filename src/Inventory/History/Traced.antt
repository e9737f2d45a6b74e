-- ===== src/Inventory/History/Traced.antt =====
-- The ledger names the lots of its goods: a draw keeps it so.
use ikiot_be.Prelude.{
  ℕ, ◌+◌, ◌≤◌, ◌<◌, ◌≡◌, refl, true, List, [], ◌∷◌, ◌++◌, map, filter, All, All-append, arith, ok,
  inl, inr,
}
use ikiot_be.Prelude.Int.{ℤ, pos, neg}
use ikiot_be.Inventory.Allocation.{LotSlice, running_balances}
use ikiot_be.Inventory.Allocation.Greedy.{taken}
use ikiot_be.Inventory.Allocation.Draw.{plan_draw_outcome}
use ikiot_be.Inventory.Tables.{StockKey, InventoryLot, LedgerRef, Db, is_sale}
use ikiot_be.Inventory.Rows.Ledger.{
  has_id, take_from_lot, take_from_lots, draw_rows, draw_lots, write_draw, write_ledger, offered,
  is_selected,
}
use ikiot_be.Inventory.Rows.Lots.{lot_of, eligible_of-le}
use ikiot_be.Inventory.Consistent.{refresh_if_same}
use ikiot_be.Inventory.Return.Home.{
  KeepsLots, lot_known, lot_known-update_where, All_keeps, IsTraced,
}

held_known :
    (i : ℕ) (k : StockKey) (lots : List InventoryLot)
    → 0 < lot_of i k lots
    → lot_known i k lots ≡ true
held_known i k [] h = absurd (omega arith)
held_known i k (l ∷ ls) h = ground (arith, held_known i k ls)

pub slices_known :
    (k : StockKey) (lots : List InventoryLot) (slices : List LotSlice)
    → All (λ s. 0 < s.quantity) slices
    → ((i : ℕ) → taken i slices ≤ lot_of i k lots)
    → All (λ s. lot_known s.lot_id k lots ≡ true) slices
slices_known k lots [] p fits = tt
slices_known k lots (s ∷ slices) p fits = (
  held_known s.lot_id k lots (ground (arith, p.0, fits s.lot_id)),
  slices_known k lots slices p.1 (λ i. omega (arith, fits i)),
)

pub take_from_lots-KeepsLots :
    (slices : List LotSlice) (lots : List InventoryLot)
    → KeepsLots lots (take_from_lots slices lots)
unfolding take_from_lots
take_from_lots-KeepsLots [] lots i k h = h
take_from_lots-KeepsLots (s ∷ slices) lots i k h = take_from_lots-KeepsLots slices _ i k (
    lot_known-update_where (has_id s.lot_id) (take_from_lot s.quantity) (λ l. refl) (λ l. refl) i k
      lots h)

draw_rows-known :
    (k : StockKey) (ledger : LedgerRef) (read lots : List InventoryLot) (slices : List LotSlice)
    (balances : List ℤ)
    → All (λ s. lot_known s.lot_id k lots ≡ true) slices
    → All (λ t. lot_known t.lot_id t.key lots ≡ true) (draw_rows k ledger read slices balances)
unfolding draw_rows
draw_rows-known k ledger read lots [] balances h = tt
draw_rows-known k ledger read lots (s ∷ slices) [] h = tt
draw_rows-known k ledger read lots (s ∷ slices) (b ∷ balances) h =
    (h.0, draw_rows-known k ledger read lots slices balances h.1)

pub slices_kept :
    (k : StockKey) (lots lots' : List InventoryLot) (slices : List LotSlice)
    → KeepsLots lots lots'
    → All (λ s. lot_known s.lot_id k lots ≡ true) slices
    → All (λ s. lot_known s.lot_id k lots' ≡ true) slices
slices_kept k lots lots' [] keeps h = tt
slices_kept k lots lots' (s ∷ slices) keeps h =
    (keeps s.lot_id k h.0, slices_kept k lots lots' slices keeps h.1)

write_draw-IsTraced :
    (db : Db) (k : StockKey) (q after : ℕ) (ledger : LedgerRef) (slices : List LotSlice)
    → IsTraced db
    → All (λ s. lot_known s.lot_id k db.lots ≡ true) slices
    → IsTraced (write_draw db k q after ledger slices)
unfolding write_draw write_ledger
write_draw-IsTraced db k q after ledger slices t known =
    let read = filter (is_selected k ledger.order_item_id) db.lots in
    let balances = running_balances (pos (after + q)) (map (λ s. neg (pos s.quantity)) slices) in
    let rows = draw_rows k ledger read slices balances in
    let lots = take_from_lots slices db.lots in
    let written : Db = record db { lots = lots; transactions = db.transactions ++ rows } in
    let same = refresh_if_same (is_sale ledger.tx_type) ledger.order_item_id written in
    let keeps = take_from_lots-KeepsLots slices db.lots in
    let traced : All (λ t. lot_known t.lot_id t.key lots ≡ true) (db.transactions ++ rows) =
      All-append _ db.transactions rows (All_keeps db.lots lots db.transactions keeps t) (
        draw_rows-known k ledger read lots slices balances
          (slices_kept k db.lots lots slices keeps known)) in
    rw (same.2, same.3) traced

pub draw_lots-IsTraced :
    (db db' : Db) (k : StockKey) (q after : ℕ) (ledger : LedgerRef)
    → IsTraced db
    → draw_lots db k q after ledger ≡ ok db'
    → IsTraced db'
unfolding draw_lots
draw_lots-IsTraced db db' k q after ledger t e =
    let i = ledger.order_item_id in
    let lots = offered db k i in
    elim (plan_draw_outcome lots q i) [
      | inl refused ↦ ground (arith, refused.0)
      | inr (slices, plan, sum, positive, within) ↦
          let known =
            slices_known k db.lots slices positive
              (λ m. omega (arith, within m, eligible_of-le m k i db.lots)) in
          let result : write_draw db k q after ledger slices ≡ db' = ground arith in
          rw (← result) (write_draw-IsTraced db k q after ledger slices t known)
    ]
