-- ===== src/Inventory/Return/Arrive.antt =====
-- `returnDrawn` on consistent tables whose ledger names its lots: the goods arrive.
use ikiot_be.Prelude.{
  ◌≤◌, ℕ, ◌+◌, ◌≡◌, ◌∙◌, refl, ap, true, some, none, Option, List, [], ◌∷◌, ◌++◌, filter, map, All,
  All-append, arith, ◌&&◌, ok, Bool-cases, Option-cases, Result-cases, inl, inr,
}
use ikiot_be.Prelude.Int.{ℤ, pos, ◌+ℤ◌, ◌-ℤ◌, ltb_ℤ}
use ikiot_be.Inventory.Allocation.{LotSlice, running_balances}
use ikiot_be.Inventory.Allocation.Greedy.{total}
use ikiot_be.Inventory.Allocation.Draw.{plan_return_outcome}
use ikiot_be.Inventory.Tables.{
  StockKey, Inventory, InventoryLot, InventoryTransaction, LedgerRef, LotSource, Db,
  is_sale_reversal,
}
use ikiot_be.Inventory.Rows.{find_row, increment_stock}
use ikiot_be.Inventory.Rows.Guarded.{UniqueKeys, entry}
use ikiot_be.Inventory.Rows.Ledger.{write_ledger, ledger_row, refresh_if}
use ikiot_be.Inventory.Rows.Lots.{lot_sum, IsLots, later-IsLots}
use ikiot_be.Inventory.Consistent.{
  IsConsistent, stock_at, locked_at, ledger_sum, ledger_sum-append, refresh_if_same,
}
use ikiot_be.Inventory.Stock.{LotOrigin, open_lot, opened_lot, or_else}
use ikiot_be.Inventory.Stock.Open.{increment_stock-Rises, open_parts, open_lot-IsConsistent}
use ikiot_be.Inventory.History.Indexed.{increment_stock-IsIndexed, later-IsIndexed}
use ikiot_be.Inventory.History.Sound.{IsSound}
use ikiot_be.Inventory.Return.{
  DrawnBy, return_slices, is_matching, bring_back, return_planned, return_drawn, outbound,
  drawn_lots, return_ledger, never_drawn_origin, is_empty,
}
use ikiot_be.Inventory.Return.Tally.{slices-All}
use ikiot_be.Inventory.Return.Home.{
  lot_known, lot_known-append, lot_known-last, comes_home, known_home, All_keeps,
}
use ikiot_be.Inventory.Return.Keep.{return_slices-Brings}

outbound_home :
    (k : StockKey) (drawn_by : DrawnBy) (lots : List InventoryLot) (ts : List InventoryTransaction)
    → All (λ t. lot_known t.lot_id t.key lots ≡ true) ts
    → All
        (λ t. comes_home k lots t.lot_id ≡ true)
        (filter (λ t. is_matching k drawn_by t && ltb_ℤ t.quantity (pos 0)) ts)
outbound_home k drawn_by lots [] h = tt
outbound_home k drawn_by lots (t ∷ ts) h =
    elim (Bool-cases (is_matching k drawn_by t && ltb_ℤ t.quantity (pos 0))) [
      | inl taken ↦ rw taken (
        known_home k t.key t.lot_id lots (ground arith) h.0,
        outbound_home k drawn_by lots ts h.1,
      )
      | inr left ↦ rw left (outbound_home k drawn_by lots ts h.1)
    ]

rise_by : (x y : ℤ) (s e t : ℕ) → x ≡ pos s → y ≡ pos e → t ≡ s + e → x +ℤ y ≡ pos t
unfolding ◌+ℤ◌
rise_by x y s e t hx hy ht = ground arith

bring_parts :
    (db db' : Db) (k : StockKey) (q : ℕ) (ledger : LedgerRef) (slices : List LotSlice)
    (row : Inventory)
    → bring_back db k q ledger slices ≡ ok (db', row)
    → let db₁ = increment_stock db k q in
      let balances = running_balances (pos row.stock -ℤ pos q) (map (λ s. pos s.quantity) slices) in
      (db₂ : Db) × (rows : List InventoryTransaction) × (return_slices db.lots k ledger db₁ slices
          balances
        ≡ ok (db₂, rows))
      × (refresh_if (is_sale_reversal ledger.tx_type) ledger.order_item_id (write_ledger db₂ rows)
          ≡ db')
unfolding bring_back
bring_parts db db' k q ledger slices row e =
    let db₁ = increment_stock db k q in
    elim (Option-cases (find_row k db₁.inventories)) [
      | inl none_found ↦ ground arith
      | inr (r, found) ↦
          let balances =
            running_balances (pos r.stock -ℤ pos q) (map (λ s. pos s.quantity) slices) in
          elim (Result-cases (return_slices db.lots k ledger db₁ slices balances)) [
            | inr (x, refused) ↦ ground arith
            | inl (p, went) ↦ (p.0, p.1, ground arith, ground arith)
          ]
    ]

-- What an operation that brings `q` to key `k` promises.
abbrev pub Arrives : Db → Db → StockKey → ℕ → Type 0
Arrives db db' k q =
    IsSound db'
    × ((j : StockKey)
        → (stock_at j db'.inventories ≡ stock_at j db.inventories + entry k j q)
          × (locked_at j db'.inventories ≡ locked_at j db.inventories))

-- Stock, lots and ledger that rise together.
arrival-IsConsistent :
    (db db' : Db) (k : StockKey) (q : ℕ)
    → IsConsistent db
    → UniqueKeys db'.inventories
    → All (λ r. r.locked_stock ≤ r.stock) db'.inventories
    → IsLots db'.next_id db'.lots
    → ((j : StockKey) → stock_at j db'.inventories ≡ stock_at j db.inventories + entry k j q)
    → ((j : StockKey) → lot_sum j db'.lots ≡ lot_sum j db.lots + entry k j q)
    → ((j : StockKey)
        → ledger_sum j db'.transactions ≡ ledger_sum j db.transactions +ℤ pos (entry k j q))
    → IsConsistent db'
arrival-IsConsistent db db' k q c unique fit lots_ok stock lots ledger = record {
  lots_hold_stock = λ j. omega (arith, stock j, lots j, c.lots_hold_stock j);
  ledger_sums_to_stock =
      λ j. ledger j ∙ rise_by _ _ _ _ _ (c.ledger_sums_to_stock j) refl (stock j);
  rows_unique = unique;
  locks_fit = fit;
  lots_ok = lots_ok;
}

bring_back-Arrives :
    (db db' : Db) (k : StockKey) (q : ℕ) (ledger : LedgerRef) (slices : List LotSlice)
    (row : Inventory)
    → IsSound db
    → All (λ s. comes_home k db.lots s.lot_id ≡ true) slices
    → total slices ≡ q
    → bring_back db k q ledger slices ≡ ok (db', row)
    → Arrives db db' k q
unfolding write_ledger
bring_back-Arrives db db' k q ledger slices row sound home sum e =
    let c = sound.consistent in
    let db₁ = increment_stock db k q in
    let rises = increment_stock-Rises db k q c in
    let (db₂, rows, went, result) = bring_parts db db' k q ledger slices row e in
    let lots_ok : IsLots db₁.next_id db₁.lots =
      rw rises.2 (later-IsLots db.next_id db₁.next_id db.lots rises.4 c.lots_ok) in
    let (brings, entered) =
      return_slices-Brings db.lots k ledger db₁ db₂ slices _ rows c.lots_ok.unique
        (λ m j p. rw rises.2 p) lots_ok home went in
    let stocks : db₂.inventories ≡ db₁.inventories = brings.inventories_same in
    let written : Db = write_ledger db₂ rows in
    let same = refresh_if_same (is_sale_reversal ledger.tx_type) ledger.order_item_id written in
    let ledger_before : db₂.transactions ≡ db.transactions = brings.transactions_same ∙ rises.3 in
    let traced : All (λ t. lot_known t.lot_id t.key db₂.lots ≡ true) (db₂.transactions ++ rows) =
      All-append (λ t. lot_known t.lot_id t.key db₂.lots ≡ true) db₂.transactions rows
        (rw ledger_before (
          All_keeps db.lots db₂.lots db.transactions (λ m j p. brings.keeps m j (rw rises.2 p))
            sound.traced))
        entered.1 in
    let sums : (j : StockKey) → entry k j (total slices) ≡ entry k j q = λ j. rw sum refl in
    let after = refresh_if (is_sale_reversal ledger.tx_type) ledger.order_item_id written in
    let numbered = increment_stock-IsIndexed db k q sound.indexed in
    let kept =
      arrival-IsConsistent db after k q c (rw (same.0, stocks) rises.0)
        (rw (same.0, stocks) rises.1) (rw (same.1, same.2) brings.lots_ok)
        (λ j. rw (same.0, stocks) (rises.5 j).0)
        (λ j. rw same.2 (omega (arith, brings.lots_rise j, ap (lot_sum j) rises.2, sums j)))
        (λ j.
          rw (same.3, ledger_sum-append j db₂.transactions rows, ledger_before)
            (ap (λ x. ledger_sum j db.transactions +ℤ x) (entered.0 j ∙ ap pos (sums j)))) in
    let given =
      later-IsIndexed db db₁.inventories db₁.next_id db₂.next_id brings.next_grows
        (numbered.ids_unique, numbered.ids_given) in
    rw (← result) (
      record {
        consistent = kept;
        traced = rw (same.2, same.3) traced;
        indexed = record {
          ids_unique = rw (same.0, stocks) given.0;
          ids_given = rw (same.0, same.1, stocks) given.1;
        };
      },
      λ j. rw (same.0, stocks) (rises.5 j),
    )

pub open_lot-Arrives :
    (db db' : Db) (k : StockKey) (q : ℕ) (cost : Option ℕ) (origin : LotOrigin) (at : Option ℕ)
    (now : ℕ) (ledger : LedgerRef) (row : Inventory) (lot : ℕ)
    → IsSound db
    → open_lot db k q cost origin at now ledger ≡ ok (db', row, lot)
    → Arrives db db' k q
unfolding write_ledger
open_lot-Arrives db db' k q cost origin at now ledger row lot sound e =
    let c = sound.consistent in
    let db₁ = increment_stock db k q in
    let rises = increment_stock-Rises db k q c in
    let paid = or_else cost (db.cost_price k.product_item_id) in
    let new = opened_lot k q origin paid (or_else at now) db₁.next_id in
    let entered = ledger_row k ledger db₁.next_id (pos q) (pos row.stock) paid in
    let (positive, id, result) = open_parts db db' k q cost origin at now ledger row lot e in
    let kept = open_lot-IsConsistent db db' k q cost origin at now ledger row lot c e in
    let traced : All (λ t. lot_known t.lot_id t.key (db.lots ++ (new ∷ [])) ≡ true)
        (db.transactions ++ (entered ∷ [])) =
      All-append _ db.transactions (entered ∷ [])
        (All_keeps db.lots _ db.transactions (λ m j p. lot_known-append m j db.lots (new ∷ []) p)
          sound.traced)
        (lot_known-last db.lots new, tt) in
    let numbered = increment_stock-IsIndexed db k q sound.indexed in
    let given =
      later-IsIndexed db db₁.inventories db₁.next_id (db₁.next_id + 1) (omega arith)
        (numbered.ids_unique, numbered.ids_given) in
    (
      record {
        consistent = kept.0;
        traced = rw (result, rises.2, rises.3) traced;
        indexed = rw result (record { ids_unique = given.0; ids_given = given.1 });
      },
      kept.3,
    )

planned-Arrives :
    (db db' : Db) (k : StockKey) (q : ℕ) (drawn_by : DrawnBy) (ledger : LedgerRef) (row : Inventory)
    → IsSound db
    → return_planned db k q drawn_by ledger ≡ ok (db', row)
    → Arrives db db' k q
unfolding return_planned
planned-Arrives db db' k q drawn_by ledger row sound e =
    elim (plan_return_outcome (drawn_lots db k drawn_by) q) [
      | inl refused ↦ ground (arith, refused.0)
      | inr (slices, plan, sum, positive, rest) ↦
          bring_back-Arrives db db' k q ledger slices row sound
            (slices-All (λ i. comes_home k db.lots i ≡ true) db k drawn_by q slices
              (outbound_home k drawn_by db.lots db.transactions sound.traced) plan)
            sum (ground arith)
    ]

-- Goods that come back by their document or order line leave the tables sound: consistent, each ledger
-- row naming a lot of its goods, each row with its own identifier. The stock of the key that they come
-- to rises by the quantity, with its lots and its ledger; no other stock changes, and no lock does.
pub return_drawn-IsSound :
    (db db' : Db) (k : StockKey) (q : ℕ) (drawn_by : DrawnBy) (ledger : LedgerRef)
    (if_never_drawn : Option LotSource) (now : ℕ) (row : Inventory)
    → IsSound db
    → return_drawn db k q drawn_by ledger if_never_drawn now ≡ ok (db', row)
    → Arrives db db' k q
unfolding return_drawn
return_drawn-IsSound db db' k q drawn_by ledger none now row sound e =
    planned-Arrives db db' k q drawn_by (return_ledger drawn_by ledger) row sound (ground arith)
return_drawn-IsSound db db' k q drawn_by ledger (some source) now row sound e =
    let ref = return_ledger drawn_by ledger in
    elim (Bool-cases (is_empty (outbound db k drawn_by))) [
      | inr drawn ↦ planned-Arrives db db' k q drawn_by ref row sound (ground arith)
      | inl never ↦
          elim (Result-cases (open_lot db k q none (never_drawn_origin source) none now ref)) [
            | inr (x, refused) ↦ ground arith
            | inl (p, opened) ↦
                let same : p.0 ≡ db' = ground arith in
                rw (← same) (
                  open_lot-Arrives db p.0 k q none (never_drawn_origin source) none now ref p.1 p.2
                    sound opened)
          ]
    ]
