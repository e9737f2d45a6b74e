-- ===== src/Inventory/Consistent.antt =====
-- The invariant that inventories.service.ts states of its tables: the lots of a key hold its stock,
-- the ledger accounts for it, and nothing is locked that is not in stock.
use ikiot_be.Prelude.{
  ℕ, ◌+◌, ◌≤◌, ◌≡◌, refl, Bool, true, false, Option, none, some, List, [], ◌∷◌, ◌++◌, map, filter,
  All, arith, if◌then◌else◌, ok, Bool-cases, Option-cases, inl, inr,
}
use mathlib.Core.Path.{subst}
use ikiot_be.Prelude.Int.{ℤ, pos, neg, ◌+ℤ◌, int_laws}
use ikiot_be.Inventory.Allocation.{LotSlice, plan_draw, running_balances}
use ikiot_be.Inventory.Allocation.Greedy.{total, taken}
use ikiot_be.Inventory.Allocation.Draw.{plan_draw_exact}
use ikiot_be.Inventory.Tables.{
  StockKey, key_eq, Inventory, InventoryLot, InventoryTransaction, LedgerRef, Db, is_sale,
}
use ikiot_be.Inventory.Rows.Guarded.{UniqueKeys, sum_at, entry}
use ikiot_be.Inventory.Rows.Lots.{lot_sum, lot_of, IsLots, take_from_lots_sum, eligible_of-le}
use ikiot_be.Inventory.Rows.Ledger.{
  write_ledger, draw_rows, draw_lots, refresh_line_cost, refresh_if, is_selected, write_draw,
  offered, take_from_lots,
}

-- The stock of a key: its row's, as the key is unique.
abbrev pub stock_at : StockKey → List Inventory → ℕ
stock_at k = sum_at k (λ r. r.stock)

abbrev pub locked_at : StockKey → List Inventory → ℕ
locked_at k = sum_at k (λ r. r.locked_stock)

abbrev pub ledger_sum : StockKey → List InventoryTransaction → ℤ
ledger_sum k [] = pos 0
ledger_sum k (t ∷ ts) = (if key_eq t.key k then t.quantity else pos 0) +ℤ ledger_sum k ts

pub record IsConsistent (db : Db) : Type 0 where
  pub lots_hold_stock : (k : StockKey) → lot_sum k db.lots ≡ stock_at k db.inventories
  pub ledger_sums_to_stock :
      (k : StockKey) → ledger_sum k db.transactions ≡ pos (stock_at k db.inventories)
  pub rows_unique : UniqueKeys db.inventories
  pub locks_fit : All (λ r. r.locked_stock ≤ r.stock) db.inventories
  pub lots_ok : IsLots db.next_id db.lots

pub ledger_sum-append :
    (k : StockKey) (xs ys : List InventoryTransaction)
    → ledger_sum k (xs ++ ys) ≡ ledger_sum k xs +ℤ ledger_sum k ys
ledger_sum-append k [] ys = omega int_laws
ledger_sum-append k (x ∷ xs) ys = rw (ledger_sum-append k xs ys) (omega int_laws)

ledger_sum-draw_rows :
    (j k : StockKey) (ledger : LedgerRef) (lots : List InventoryLot) (slices : List LotSlice)
    (b : ℤ)
    → ledger_sum j (
        draw_rows k ledger lots slices
          (running_balances b (map (λ s. neg (pos s.quantity)) slices)))
      ≡ neg (pos (entry k j (total slices)))
unfolding draw_rows running_balances
ledger_sum-draw_rows j k ledger lots [] b = elim (Bool-cases (key_eq k j)) [
  | inl e ↦ rw e (omega int_laws)
  | inr e ↦ rw e (omega int_laws)
]
ledger_sum-draw_rows j k ledger lots (s ∷ slices) b =
    rw (ledger_sum-draw_rows j k ledger lots slices (b +ℤ neg (pos s.quantity)))
      (elim (Bool-cases (key_eq k j)) [
        | inl e ↦ rw e (omega int_laws)
        | inr e ↦ rw e (omega int_laws)
      ])

-- What a draw of `q` from key `k` does to the tables.
pub record Draws (k : StockKey) (q : ℕ) (db db' : Db) : Type 0 where
  pub inventories_same : db'.inventories ≡ db.inventories
  pub next_same : db'.next_id ≡ db.next_id
  pub lots_fall : (j : StockKey) → lot_sum j db'.lots + entry k j q ≡ lot_sum j db.lots
  pub ledger_falls :
      (j : StockKey)
      → ledger_sum j db'.transactions +ℤ pos (entry k j q) ≡ ledger_sum j db.transactions
  pub lots_ok : IsLots db'.next_id db'.lots

pub refresh_if_same :
    (test : Bool) (i : Option ℕ) (db : Db)
    → ((refresh_if test i db).inventories ≡ db.inventories)
      × ((refresh_if test i db).next_id ≡ db.next_id)
      × ((refresh_if test i db).lots ≡ db.lots)
      × ((refresh_if test i db).transactions ≡ db.transactions)
unfolding refresh_line_cost
refresh_if_same test none db = (refl, refl, refl, refl)
refresh_if_same true (some i) db = (refl, refl, refl, refl)
refresh_if_same false (some i) db = (refl, refl, refl, refl)

write_draw-Draws :
    (db : Db) (k : StockKey) (q after : ℕ) (ledger : LedgerRef) (slices : List LotSlice)
    → IsLots db.next_id db.lots
    → ((i : ℕ) → taken i slices ≤ lot_of i k db.lots)
    → Draws k (total slices) db (write_draw db k q after ledger slices)
unfolding write_draw write_ledger
write_draw-Draws db k q after ledger slices h fits =
    let lots = filter (is_selected k ledger.order_item_id) db.lots in
    let before = pos (after + q) in
    let balances = running_balances before (map (λ s. neg (pos s.quantity)) slices) in
    let rows = draw_rows k ledger lots slices balances in
    let written : Db = record db {
      lots = take_from_lots slices db.lots;
      transactions = db.transactions ++ rows;
    } in
    let same = refresh_if_same (is_sale ledger.tx_type) ledger.order_item_id written in
    let sums = λ (j : StockKey). take_from_lots_sum slices k j db.next_id db.lots h fits in
    record {
      inventories_same = same.0;
      next_same = same.1;
      lots_fall = λ j. rw same.2 (sums j).0;
      ledger_falls = λ j.
          rw
            (
              same.3,
              ledger_sum-append j db.transactions rows,
              ledger_sum-draw_rows j k ledger lots slices before,
            )
            (omega int_laws);
      lots_ok = rw (same.1, same.2) (sums k).1;
    }

pub draw_lots-Draws :
    (db db' : Db) (k : StockKey) (q after : ℕ) (ledger : LedgerRef)
    → IsLots db.next_id db.lots
    → draw_lots db k q after ledger ≡ ok db'
    → Draws k q db db'
unfolding draw_lots
draw_lots-Draws db db' k q after ledger h e =
    let i = ledger.order_item_id in
    let lots = offered db k i in
    elim (Option-cases (plan_draw lots q i)) [
      | inl none_left ↦ ground arith
      | inr (slices, plan) ↦
          let exact = (plan_draw_exact lots q i).1 slices plan in
          let drawn =
            write_draw-Draws db k q after ledger slices h
              (λ m. omega (arith, exact.2 m, eligible_of-le m k i db.lots)) in
          let result : write_draw db k q after ledger slices ≡ db' = ground arith in
          rw (← result)
            (subst (λ n. Draws k n db (write_draw db k q after ledger slices)) exact.0 drawn)
    ]
