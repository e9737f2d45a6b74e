-- ===== src/Inventory/Return/RoundTrip.antt =====
-- Shipping goods and bringing them back by their document.
use ikiot_be.Prelude.{
  ℕ, ◌≡◌, ◌∙◌, refl, ap, sym, true, some, none, List, [], ◌∷◌, ◌++◌, map, any, arith, ok,
  Bool-cases, inl, inr,
}
use ikiot_be.Prelude.Int.{pos, ◌-ℤ◌}
use ikiot_be.Inventory.Allocation.{LotSlice, plan_return, running_balances}
use ikiot_be.Inventory.Tables.{
  StockKey, key_eq_refl, Inventory, InventoryTransaction, LedgerRef, Db, is_sale_reversal,
}
use ikiot_be.Inventory.Rows.{update_where, find_row, increment_stock, at_key, add_stock, new_row}
use ikiot_be.Inventory.Rows.Ledger.{write_ledger, refresh_if}
use ikiot_be.Inventory.Rows.Lots.{UniqueIds, IsLots}
use ikiot_be.Inventory.Consistent.{stock_at, refresh_if_same}
use ikiot_be.Inventory.Stock.{ship_locked_stock}
use ikiot_be.Inventory.Stock.Keep.{ship_locked_stock-IsConsistent}
use ikiot_be.Inventory.History.Traced.{slices_known, slices_kept, take_from_lots-KeepsLots}
use ikiot_be.Inventory.History.Sound.{IsSound}
use ikiot_be.Inventory.History.Keep.{ship_locked_stock-IsSound}
use ikiot_be.Inventory.Return.{
  DrawnBy, drawn_by_matches, drawn_lots, return_ledger, bring_back, return_planned, return_drawn,
  return_slices,
}
use ikiot_be.Inventory.Return.Restore.{return_slices_restore}
use ikiot_be.Inventory.Return.Undo.{NoneOf, drawn_lots_lem, entry_of, plan_all}
use ikiot_be.Inventory.Return.Arrive.{return_drawn-IsSound}
use ikiot_be.Inventory.Return.Drew.{Drew, all_home, shipped_Drew}

updated_row :
    (k : StockKey) (q : ℕ) (rows : List Inventory)
    → any (at_key k) rows ≡ true
    → (row : Inventory) × (find_row k (update_where (at_key k) (add_stock q) rows) ≡ some row)
unfolding update_where
updated_row k q [] e = cc
updated_row k q (r ∷ rs) e = elim (Bool-cases (at_key k r)) [
  | inl hit ↦ (add_stock q r, ground arith)
  | inr miss ↦ let (row, found) = updated_row k q rs (ground arith) in (row, ground arith)
]

added_row :
    (k : StockKey) (new : Inventory) (rows : List Inventory)
    → new.key ≡ k
    → (row : Inventory) × (find_row k (rows ++ (new ∷ [])) ≡ some row)
added_row k new [] same = (new, rw (same, key_eq_refl k) refl)
added_row k new (r ∷ rs) same = elim (Bool-cases (at_key k r)) [
  | inl hit ↦ (r, ground arith)
  | inr miss ↦ let (row, found) = added_row k new rs same in (row, ground arith)
]

row_there :
    (db : Db) (k : StockKey) (q : ℕ)
    → (row : Inventory) × (find_row k (increment_stock db k q).inventories ≡ some row)
unfolding increment_stock
row_there db k q = elim (Bool-cases (any (at_key k) db.inventories)) [
  | inl hit ↦ rw hit (updated_row k q db.inventories hit)
  | inr miss ↦ rw miss (added_row k (new_row k q db.next_id) db.inventories refl)
]

increment_lots : (db : Db) (k : StockKey) (q : ℕ) → (increment_stock db k q).lots ≡ db.lots
unfolding increment_stock
increment_lots db k q = elim (Bool-cases (any (at_key k) db.inventories)) [
  | inl hit ↦ rw hit refl
  | inr miss ↦ rw miss refl
]

-- Once the slices are planned and every one of them goes back, the return is made.
bring_back_lem :
    (db db₂ : Db) (k : StockKey) (q : ℕ) (ledger : LedgerRef) (slices : List LotSlice)
    (row : Inventory) (rows : List InventoryTransaction)
    → find_row k (increment_stock db k q).inventories ≡ some row
    → return_slices db.lots k ledger
        (increment_stock db k q)
        slices
        (running_balances (pos row.stock -ℤ pos q) (map (λ s. pos s.quantity) slices))
      ≡ ok (db₂, rows)
    → bring_back db k q ledger slices
      ≡ ok (
        refresh_if (is_sale_reversal ledger.tx_type) ledger.order_item_id (write_ledger db₂ rows),
        row,
      )
unfolding bring_back
bring_back_lem db db₂ k q ledger slices row rows found went = ground arith

planned_lem :
    (db : Db) (k : StockKey) (q : ℕ) (drawn_by : DrawnBy) (ledger : LedgerRef)
    (slices : List LotSlice)
    → plan_return (drawn_lots db k drawn_by) q ≡ some slices
    → return_planned db k q drawn_by ledger ≡ bring_back db k q ledger slices
unfolding return_planned
planned_lem db k q drawn_by ledger slices plan = ground arith

-- What the document drew comes back to its lots.
undo_draw :
    (db₀ db : Db) (k : StockKey) (q : ℕ) (drawn_by : DrawnBy) (ledger back : LedgerRef)
    → IsLots db₀.next_id db₀.lots
    → UniqueIds db.lots
    → NoneOf drawn_by db₀.transactions
    → drawn_by_matches drawn_by ledger ≡ true
    → Drew k q ledger db₀ db
    → (db' : Db) × (row : Inventory) × (return_planned db k q drawn_by back ≡ ok (db', row))
      × (db'.lots ≡ db₀.lots)
unfolding write_ledger
undo_draw db₀ db k q drawn_by ledger back h u none_yet mine d =
    let (row, found) = row_there db k q in
    let known =
      slices_kept k db₀.lots db.lots d.slices
        (λ i j p. rw d.lots_are (take_from_lots-KeepsLots d.slices db₀.lots i j p))
        (slices_known k db₀.lots d.slices d.positive d.within) in
    let plan : plan_return (drawn_lots db k drawn_by) q ≡ some d.slices =
      ap (λ es. plan_return es q)
        (drawn_lots_lem k drawn_by ledger mine d.read db db₀.transactions d.before d.slices none_yet
          (d.transactions_are drawn_by mine) d.distinct d.positive)
      ∙ ap (plan_return (map entry_of d.slices)) (sym d.total_is)
      ∙ plan_all d.slices d.positive in
    let (rows, went) =
      return_slices_restore db.lots k back db₀.next_id db₀.lots (increment_stock db k q) d.slices
        (pos row.stock -ℤ pos q) h d.distinct d.positive d.within
        (all_home k db.lots d.slices u known) (increment_lots db k q ∙ d.lots_are) in
    let restored : Db = record (increment_stock db k q) { lots = db₀.lots } in
    let written : Db = record restored { transactions = restored.transactions ++ rows } in
    let same = refresh_if_same (is_sale_reversal back.tx_type) back.order_item_id written in
    (
      refresh_if (is_sale_reversal back.tx_type) back.order_item_id written,
      row,
      planned_lem db k q drawn_by back d.slices plan
          ∙ bring_back_lem db restored k q back d.slices row rows found went,
      same.2,
    )

-- Goods that are shipped for a document or line that has nothing out yet can always be brought back
-- by it in full: the return is not refused, every lot holds again what it held, and every key has
-- the stock that it had before the shipment, under tables that are sound.
pub ship-return_drawn :
    (db db₁ : Db) (k : StockKey) (q : ℕ) (drawn_by : DrawnBy) (ledger back : LedgerRef)
    (row : Inventory) (now : ℕ)
    → IsSound db
    → NoneOf drawn_by db.transactions
    → drawn_by_matches drawn_by ledger ≡ true
    → ship_locked_stock db k q ledger ≡ ok (db₁, row)
    → (db₂ : Db) × (row₂ : Inventory) × (return_drawn db₁ k q drawn_by back none now
        ≡ ok (db₂, row₂))
      × IsSound db₂
      × (db₂.lots ≡ db.lots)
      × ((j : StockKey) → stock_at j db₂.inventories ≡ stock_at j db.inventories)
unfolding return_drawn
ship-return_drawn db db₁ k q drawn_by ledger back row now h none_yet mine e =
    let sound = ship_locked_stock-IsSound db db₁ k q ledger row h e in
    let moves = (ship_locked_stock-IsConsistent db db₁ k q ledger row h.consistent e).1 in
    let drew = shipped_Drew db db₁ k q ledger row h e in
    let (db₂, row₂, returned, lots) =
      undo_draw db db₁ k q drawn_by ledger (return_ledger drawn_by back) h.consistent.lots_ok
        sound.consistent.lots_ok.unique none_yet mine drew.1 in
    let result : return_drawn db₁ k q drawn_by back none now ≡ ok (db₂, row₂) =
      ground (arith, drew.0) in
    let arrives = return_drawn-IsSound db₁ db₂ k q drawn_by back none now row₂ sound result in
    (db₂, row₂, result, arrives.0, lots, λ j. omega (arith, (arrives.1 j).0, (moves j).0))
