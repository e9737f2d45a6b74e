-- ===== src/Inventory/Return/Keep.antt =====
-- `returnDrawn` on consistent tables.
use ikiot_be.Prelude.{
  ℕ, ◌+◌, ◌≤◌, ◌≡◌, refl, true, some, List, [], ◌∷◌, ◌++◌, any, ◌∙◌, map, find?, All, arith,
  if◌then◌else◌, ◌==◌, ok, Bool-cases, Option-cases, Result-cases, inl, inr,
}
use ikiot_be.Prelude.Int.{ℤ, pos, ◌+ℤ◌}
use ikiot_be.Inventory.Allocation.{LotSlice, running_balances}
use ikiot_be.Inventory.Allocation.Greedy.{total}
use ikiot_be.Inventory.Tables.{StockKey, key_eq, InventoryLot, InventoryTransaction, LedgerRef, Db}
use ikiot_be.Inventory.Rows.{update_where}
use ikiot_be.Inventory.Rows.Guarded.{entry}
use ikiot_be.Inventory.Rows.Ledger.{has_id, ledger_row}
use ikiot_be.Inventory.Rows.Lots.{UniqueIds, lot_sum, IsLots}
use ikiot_be.Inventory.Consistent.{ledger_sum}
use ikiot_be.Inventory.Stock.Open.{IsLots-append, lot_sum-append}
use ikiot_be.Inventory.Return.{
  same_item, put_back, overfills, child_lot, return_slice, return_slices,
}
use ikiot_be.Inventory.Return.Home.{
  KeepsLots, lot_known, lot_known-append, lot_known-last, lot_known-update_where, found_known,
  comes_home, found_same_item, put_one, put-IsLots,
}

-- What bringing `q` back to key `k` does to the lots; stock and ledger stand.
pub record Brings (k : StockKey) (q : ℕ) (db db' : Db) : Type 0 where
  pub inventories_same : db'.inventories ≡ db.inventories
  pub transactions_same : db'.transactions ≡ db.transactions
  pub next_grows : db.next_id ≤ db'.next_id
  pub lots_rise : (j : StockKey) → lot_sum j db'.lots ≡ lot_sum j db.lots + entry k j q
  pub lots_ok : IsLots db'.next_id db'.lots
  pub keeps : KeepsLots db.lots db'.lots

return_slice-Brings :
    (db db' : Db) (k : StockKey) (o : InventoryLot) (q i : ℕ)
    → IsLots db.next_id db.lots
    → lot_known o.id o.key db.lots ≡ true
    → same_item o.key k ≡ true
    → return_slice db k.location_id o q ≡ ok (db', i)
    → Brings k q db db' × (lot_known i k db'.lots ≡ true)
unfolding return_slice
return_slice-Brings db db' k o q i h known item e =
    elim (Bool-cases (o.key.location_id == k.location_id)) [
      | inl here ↦
          let mine : o.key ≡ k = ground arith in
          elim (Bool-cases (any (overfills o.id q) db.lots)) [
            | inl full ↦ ground arith
            | inr room ↦
                let lots = update_where (has_id o.id) (put_back q) db.lots in
                let result : record db { lots = lots } ≡ db' = ground arith in
                let lot : o.id ≡ i = ground arith in
                let home : lot_known o.id k db.lots ≡ true = rw mine at known in
                let kept =
                  lot_known-update_where (has_id o.id) (put_back q) (λ l. refl) (λ l. refl) in
                rw (← result, ← lot)
                  (
                    record {
                      inventories_same = refl;
                      transactions_same = refl;
                      next_grows = omega arith;
                      lots_rise = λ j. put_one o.id q k j db.lots h.unique home;
                      lots_ok = put-IsLots o.id q db.next_id db.lots room h;
                      keeps = λ m j p. kept m j db.lots p;
                    },
                    kept o.id k db.lots home,
                  )
          ]
      | inr away ↦
          let child = child_lot o k.location_id q db.next_id in
          let result : record db { lots = db.lots ++ (child ∷ []); next_id = db.next_id + 1 }
              ≡ db' =
            ground arith in
          let lot : db.next_id ≡ i = ground arith in
          let mine : child.key ≡ k = ground arith in
          rw (← result, ← lot)
            (
              record {
                inventories_same = refl;
                transactions_same = refl;
                next_grows = omega arith;
                lots_rise = λ j. rw (← mine) (lot_sum-append j db.lots child);
                lots_ok =
                    IsLots-append db.next_id db.next_id db.lots child (omega arith) refl
                      (omega arith) h;
                keeps = λ m j p. lot_known-append m j db.lots (child ∷ []) p;
              },
              rw (← mine) (lot_known-last db.lots child),
            )
    ]

-- The rows of a return, and the lots that they name.
abbrev pub Entered : StockKey → ℕ → Db → List InventoryTransaction → Type 0
Entered k q db rows =
    ((j : StockKey) → ledger_sum j rows ≡ pos (entry k j q))
    × All (λ t. lot_known t.lot_id t.key db.lots ≡ true) rows

ledger_cons :
    (j k : StockKey) (q t : ℕ) (x : ℤ)
    → x ≡ pos (entry k j t)
    → (if key_eq k j then pos q else pos 0) +ℤ x ≡ pos (entry k j (q + t))
unfolding ◌+ℤ◌
ledger_cons j k q t x e = ground arith

slices_parts :
    (before : List InventoryLot) (k : StockKey) (ledger : LedgerRef) (db db' : Db) (s : LotSlice)
    (slices : List LotSlice) (b : ℤ) (balances : List ℤ) (rows : List InventoryTransaction)
    → return_slices before k ledger db (s ∷ slices) (b ∷ balances) ≡ ok (db', rows)
    → (o : InventoryLot) × (db₁ : Db) × (i : ℕ) × (rest : List InventoryTransaction) × (find?
          (has_id s.lot_id)
          before
        ≡ some o)
      × (return_slice db k.location_id o s.quantity ≡ ok (db₁, i))
      × (return_slices before k ledger db₁ slices balances ≡ ok (db', rest))
      × (ledger_row k ledger i (pos s.quantity) b o.unit_cost ∷ rest ≡ rows)
unfolding return_slices
slices_parts before k ledger db db' s slices b balances rows e =
    elim (Option-cases (find? (has_id s.lot_id) before)) [
      | inl none_found ↦ ground arith
      | inr (o, found) ↦ elim (Result-cases (return_slice db k.location_id o s.quantity)) [
        | inr (x, refused) ↦ ground arith
        | inl (p, put) ↦ elim (Result-cases (return_slices before k ledger p.0 slices balances)) [
          | inr (x, refused) ↦ ground arith
          | inl (r, went) ↦ (o, p.0, p.1, r.1, found, ground arith, ground arith, ground arith)
        ]
      ]
    ]

pub return_slices-Brings :
    (before : List InventoryLot) (k : StockKey) (ledger : LedgerRef) (db db' : Db)
    (slices : List LotSlice) (b : ℤ) (rows : List InventoryTransaction)
    → UniqueIds before
    → KeepsLots before db.lots
    → IsLots db.next_id db.lots
    → All (λ s. comes_home k before s.lot_id ≡ true) slices
    → return_slices before k ledger db slices
        (running_balances b (map (λ s. pos s.quantity) slices))
      ≡ ok (db', rows)
    → Brings k (total slices) db db' × Entered k (total slices) db' rows
unfolding return_slices running_balances
return_slices-Brings before k ledger db db' [] b rows u kept h home e =
    let same : db ≡ db' = ground arith in
    let empty : rows ≡ [] = ground arith in
    rw (← same, empty)
      (
        record {
          inventories_same = refl;
          transactions_same = refl;
          next_grows = omega arith;
          lots_rise = λ j. ground arith;
          lots_ok = h;
          keeps = λ m j p. p;
        },
        (λ j. ground arith, tt),
      )
return_slices-Brings before k ledger db db' (s ∷ slices) b rows u kept h home e =
    let (o, db₁, i, rest, found, put, went, entered) =
      slices_parts before k ledger db db' s slices _ _ rows e in
    let (id, known) = found_known s.lot_id before o found in
    let item = found_same_item k s.lot_id before o u home.0 found in
    let (first, named) =
      return_slice-Brings db db₁ k o s.quantity i h (kept o.id o.key known) item put in
    let (others, after) =
      return_slices-Brings before k ledger db₁ db' slices (b +ℤ pos s.quantity) rest u
        (λ m j p. first.keeps m j (kept m j p)) first.lots_ok home.1 went in
    rw (← entered) (
      record {
        inventories_same = others.inventories_same ∙ first.inventories_same;
        transactions_same = others.transactions_same ∙ first.transactions_same;
        next_grows = omega (arith, others.next_grows, first.next_grows);
        lots_rise = λ j. ground (arith, others.lots_rise j, first.lots_rise j);
        lots_ok = others.lots_ok;
        keeps = λ m j p. others.keeps m j (first.keeps m j p);
      },
      (
        λ j. ledger_cons j k s.quantity (total slices) _ (after.0 j),
        (others.keeps i k named, after.1),
      ),
    )
