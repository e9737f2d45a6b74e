-- ===== src/Inventory/Return/Drew.antt =====
-- What a shipment drew from the lots.
use ikiot_be.Prelude.{
  ◌≢◌, ℕ, ◌+◌, ◌≤◌, ◌<◌, ◌≡◌, refl, ap, true, false, some, List, [], ◌∷◌, ◌++◌, filter, find?, All,
  arith, ok, Bool-cases, inl, inr,
}
use ikiot_be.Prelude.Int.{ℤ, pos}
use ikiot_be.Inventory.Allocation.{LotSlice}
use ikiot_be.Inventory.Allocation.Greedy.{total, taken}
use ikiot_be.Inventory.Allocation.Draw.{plan_draw_outcome}
use ikiot_be.Inventory.Tables.{
  StockKey, key_eq, key_eq_sound, Inventory, InventoryLot, LedgerRef, Db, is_sale,
}
use ikiot_be.Inventory.Rows.{update_where, with_rows, lock_covers, ship_lock}
use ikiot_be.Inventory.Rows.Ledger.{
  has_id, take_from_lots, write_ledger, write_draw, draw_lots, offered, is_selected,
}
use ikiot_be.Inventory.Rows.Lots.{UniqueIds, lot_of, eligible_of-le}
use ikiot_be.Inventory.Consistent.{refresh_if_same}
use ikiot_be.Inventory.Stock.{ship_locked_stock}
use ikiot_be.Inventory.Stock.Keep.{ship_parts}
use ikiot_be.Inventory.History.Indexed.{guarded_update_rows}
use ikiot_be.Inventory.History.Sound.{IsSound}
use ikiot_be.Inventory.Return.{DrawnBy, drawn_by_matches}
use ikiot_be.Inventory.Return.Home.{lot_known}
use ikiot_be.Inventory.Return.Distinct.{Distinct, plan_draw-Distinct}
use ikiot_be.Inventory.Return.Restore.{AtHome}
use ikiot_be.Inventory.Return.Undo.{rows_of}

known_absent :
    (i : ℕ) (k : StockKey) (lots : List InventoryLot)
    → All (λ m. m.id ≢ i) lots
    → lot_known i k lots ≡ false
known_absent i k [] h = refl
known_absent i k (l ∷ ls) h = ground (arith, known_absent i k ls h.1, h.0)

known_found :
    (i : ℕ) (k : StockKey) (lots : List InventoryLot)
    → UniqueIds lots
    → lot_known i k lots ≡ true
    → (o : InventoryLot) × (find? (has_id i) lots ≡ some o) × (o.id ≡ i) × (o.key ≡ k)
known_found i k [] u h = cc
known_found i k (l ∷ ls) u h = elim (Bool-cases (has_id i l)) [
  | inl hit ↦
      let mine : l.id ≡ i = ground arith in
      let others : All (λ m. m.id ≢ i) ls = rw mine at u.0 in
      let same : key_eq l.key k ≡ true = ground (arith, known_absent i k ls others) in
      (l, ground arith, mine, key_eq_sound l.key k same)
  | inr miss ↦
      let (o, found, id, key) = known_found i k ls u.1 (ground arith) in (o, ground arith, id, key)
]

pub all_home :
    (k : StockKey) (lots : List InventoryLot) (slices : List LotSlice)
    → UniqueIds lots
    → All (λ s. lot_known s.lot_id k lots ≡ true) slices
    → All (AtHome lots k.location_id) slices
all_home k lots [] u h = tt
all_home k lots (s ∷ slices) u h =
    let (o, found, id, key) = known_found s.lot_id k lots u h.0 in
    ((o, found, id, ap (λ j. j.location_id) key), all_home k lots slices u h.1)

-- What a draw of `q` wrote.
pub record Drew (k : StockKey) (q : ℕ) (ledger : LedgerRef) (db db' : Db) : Type 0 where
  pub slices : List LotSlice
  pub before : ℤ
  pub read : List InventoryLot
  pub lots_are : db'.lots ≡ take_from_lots slices db.lots
  pub transactions_are :
      (drawn_by : DrawnBy)
      → (mine : drawn_by_matches drawn_by ledger ≡ true)
      → db'.transactions ≡ db.transactions ++ rows_of k drawn_by ledger mine read before slices
  pub total_is : total slices ≡ q
  pub positive : All (λ s. 0 < s.quantity) slices
  pub within : (i : ℕ) → taken i slices ≤ lot_of i k db.lots
  pub distinct : Distinct slices

draw_lots-Drew :
    (db db' : Db) (k : StockKey) (q after : ℕ) (ledger : LedgerRef)
    → UniqueIds db.lots
    → draw_lots db k q after ledger ≡ ok db'
    → Drew k q ledger db db'
unfolding draw_lots write_draw write_ledger
draw_lots-Drew db db' k q after ledger u e =
    let i = ledger.order_item_id in
    let lots = offered db k i in
    elim (plan_draw_outcome lots q i) [
      | inl refused ↦ ground (arith, refused.0)
      | inr (slices, plan, sum, positive, within) ↦
          let read = filter (is_selected k i) db.lots in
          let before = pos (after + q) in
          let result : write_draw db k q after ledger slices ≡ db' = ground arith in
          let same = refresh_if_same (is_sale ledger.tx_type) i _ in
          record {
            slices = slices;
            before = before;
            read = read;
            lots_are = rw (← result) same.2;
            transactions_are = λ drawn_by mine. rw (← result) same.3;
            total_is = sum;
            positive = positive;
            within = λ m. omega (arith, within m, eligible_of-le m k i db.lots);
            distinct = plan_draw-Distinct db k q i slices u plan;
          }
    ]

pub shipped_Drew :
    (db db₁ : Db) (k : StockKey) (q : ℕ) (ledger : LedgerRef) (row : Inventory)
    → IsSound db
    → ship_locked_stock db k q ledger ≡ ok (db₁, row)
    → (0 < q) × Drew k q ledger db db₁
unfolding ship_locked_stock
shipped_Drew db db₁ k q ledger row h e =
    let (mid, updated, drawn) = ship_parts db db₁ k q ledger row e in
    let same =
      guarded_update_rows (lock_covers k q) (ship_lock q) (λ r. refl) k _ db mid row updated in
    let left = with_rows db (update_where (lock_covers k q) (ship_lock q) db.inventories) in
    let drew =
      draw_lots-Drew left db₁ k q row.stock ledger h.consistent.lots_ok.unique (rw same drawn) in
    (
      ground arith,
      record {
        slices = drew.slices;
        before = drew.before;
        read = drew.read;
        lots_are = drew.lots_are;
        transactions_are = drew.transactions_are;
        total_is = drew.total_is;
        positive = drew.positive;
        within = drew.within;
        distinct = drew.distinct;
      },
    )
