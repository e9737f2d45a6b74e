-- ===== src/Inventory/Return/Undo.antt =====
-- Goods that were drawn for a document and come back by it to the place that they left.
use ikiot_be.Prelude.{
  ◌≢◌, ℕ, ◌+◌, ◌-◌, ◌<◌, ◌≡◌, ◌∙◌, refl, ap, sym, Bool, true, false, ◌&&◌, some, List, [], ◌∷◌,
  ◌++◌, All-append, map, filter, All, arith, min,
}
use ikiot_be.Prelude.Int.{ℤ, pos, neg, ◌+ℤ◌, ◌-ℤ◌, ltb_ℤ, neg_part}
use ikiot_be.Inventory.Allocation.{
  LotSlice, DrawnLot, plan_return, outstanding, take_slices, running_balances,
}
use ikiot_be.Inventory.Allocation.Greedy.{total}
use ikiot_be.Inventory.Tables.{StockKey, InventoryLot, InventoryTransaction, LedgerRef, Db}
use ikiot_be.Inventory.Rows.Ledger.{draw_rows}
use ikiot_be.Inventory.Return.{
  DrawnBy, drawn_by_matches, same_item, is_matching, outbound, inbound, add_drawn, tally_outbound,
  tally_inbound, drawn_lots,
}
use ikiot_be.Inventory.Return.Distinct.{Distinct}

filter-append {ℓ} :
    {A : Type ℓ} (p : A → Bool) (xs ys : List A) → filter p (xs ++ ys) ≡ filter p xs ++ filter p ys
filter-append p [] ys = refl
filter-append p (x ∷ xs) ys = ground (arith, filter-append p xs ys)

abbrev pub NoneOf : DrawnBy → List InventoryTransaction → Type 0
NoneOf drawn_by = All (λ t. drawn_by_matches drawn_by t.ledger ≡ false)

filter_none :
    (k : StockKey) (drawn_by : DrawnBy) (sign : InventoryTransaction → Bool)
    (ts : List InventoryTransaction)
    → NoneOf drawn_by ts
    → filter (λ t. is_matching k drawn_by t && sign t) ts ≡ []
filter_none k drawn_by sign [] h = refl
filter_none k drawn_by sign (t ∷ ts) h = ground (arith, h.0, filter_none k drawn_by sign ts h.1)

outgoing :
    (q : ℕ)
    → 0 < q
    → (ltb_ℤ (neg (pos q)) (pos 0) ≡ true)
      × (ltb_ℤ (pos 0) (neg (pos q)) ≡ false)
      × (neg_part (neg (pos q)) ≡ q)
unfolding neg ◌-ℤ◌
outgoing q h = (ground arith, ground arith, ground arith)

itself : (k : StockKey) → same_item k k ≡ true
itself k = ground arith

append_nil : (es : List DrawnLot) → es ++ [] ≡ es
append_nil [] = refl
append_nil (e ∷ es) = ap (λ zs. e ∷ zs) (append_nil es)

abbrev pub entry_of : LotSlice → DrawnLot
entry_of s = record { lot_id = s.lot_id; drawn = s.quantity; returned = 0 }

module _ (k : StockKey) (drawn_by : DrawnBy) (ledger : LedgerRef)
    (mine : drawn_by_matches drawn_by ledger ≡ true) (read : List InventoryLot) where
  abbrev pub rows_of : ℤ → List LotSlice → List InventoryTransaction
  rows_of b slices =
      draw_rows k ledger read slices (running_balances b (map (λ s. neg (pos s.quantity)) slices))

  all_out :
      (b : ℤ) (slices : List LotSlice)
      → All (λ s. 0 < s.quantity) slices
      → (filter (λ t. is_matching k drawn_by t && ltb_ℤ t.quantity (pos 0)) (rows_of b slices)
          ≡ rows_of b slices)
        × (filter (λ t. is_matching k drawn_by t && ltb_ℤ (pos 0) t.quantity) (rows_of b slices)
            ≡ [])
  unfolding draw_rows running_balances
  all_out b [] p = (refl, refl)
  all_out b (s ∷ slices) p =
      let sign = outgoing s.quantity p.0 in
      let rest = all_out (b +ℤ neg (pos s.quantity)) slices p.1 in
      let item = itself k in
      (rw (item, mine, sign.0, rest.0) refl, rw (item, mine, sign.1, rest.1) refl)

  add_last :
      (i q : ℕ) (es : List DrawnLot)
      → All (λ e. e.lot_id ≢ i) es
      → add_drawn i q es ≡ es ++ (record { lot_id = i; drawn = q; returned = 0 } ∷ [])
  unfolding add_drawn
  add_last i q [] h = refl
  add_last i q (e ∷ es) h = ground (arith, add_last i q es h.1, h.0)

  append_cons :
      (es : List DrawnLot) (x : DrawnLot) (ys : List DrawnLot)
      → (es ++ (x ∷ [])) ++ ys ≡ es ++ (x ∷ ys)
  append_cons [] x ys = refl
  append_cons (e ∷ es) x ys = ap (λ zs. e ∷ zs) (append_cons es x ys)

  abbrev Apart : List DrawnLot → List LotSlice → Type 0
  Apart es = All (λ s. All (λ e. e.lot_id ≢ s.lot_id) es)

  Apart-next :
      (es : List DrawnLot) (i q : ℕ) (slices : List LotSlice)
      → Apart es slices
      → All (λ t. t.lot_id ≢ i) slices
      → Apart (es ++ (record { lot_id = i; drawn = q; returned = 0 } ∷ [])) slices
  Apart-next es i q [] h d = tt
  Apart-next es i q (s ∷ slices) h d = (
    All-append (λ e. e.lot_id ≢ s.lot_id) es _ h.0 (λ e. d.0 (sym e), tt),
    Apart-next es i q slices h.1 d.1,
  )

  tally_rows :
      (b : ℤ) (slices : List LotSlice) (es : List DrawnLot)
      → Distinct slices
      → All (λ s. 0 < s.quantity) slices
      → Apart es slices
      → tally_outbound (rows_of b slices) es ≡ es ++ map entry_of slices
  unfolding draw_rows running_balances tally_outbound
  tally_rows b [] es d p h = sym (append_nil es)
  tally_rows b (s ∷ slices) es d p h =
      let next = b +ℤ neg (pos s.quantity) in
      let grown = es ++ (entry_of s ∷ []) in
      ap (tally_outbound (rows_of next slices)) (
        ap (λ q. add_drawn s.lot_id q es) (outgoing s.quantity p.0).2
        ∙ add_last s.lot_id s.quantity es h.0)
      ∙ tally_rows next slices grown d.1 p.1 (Apart-next es s.lot_id s.quantity slices h.1 d.0)
      ∙ append_cons es (entry_of s) (map entry_of slices)

  Apart-empty : (slices : List LotSlice) → Apart [] slices
  Apart-empty [] = tt
  Apart-empty (s ∷ slices) = (tt, Apart-empty slices)

  -- The document has out exactly what was drawn for it.
  pub drawn_lots_lem :
      (db : Db) (before : List InventoryTransaction) (b : ℤ) (slices : List LotSlice)
      → NoneOf drawn_by before
      → db.transactions ≡ before ++ rows_of b slices
      → Distinct slices
      → All (λ s. 0 < s.quantity) slices
      → drawn_lots db k drawn_by ≡ map entry_of slices
  unfolding drawn_lots tally_inbound
  drawn_lots_lem db before b slices none_yet e d p =
      let rows = rows_of b slices in
      let out =
        λ (t : InventoryTransaction). is_matching k drawn_by t && ltb_ℤ t.quantity (pos 0) in
      let back =
        λ (t : InventoryTransaction). is_matching k drawn_by t && ltb_ℤ (pos 0) t.quantity in
      let all = all_out b slices p in
      let out_rows : outbound db k drawn_by ≡ rows =
        ap (filter out) e
        ∙ filter-append out before rows
        ∙ ap (λ xs. xs ++ filter out rows)
            (filter_none k drawn_by (λ t. ltb_ℤ t.quantity (pos 0)) before none_yet)
        ∙ all.0 in
      let back_rows : inbound db k drawn_by ≡ [] =
        ap (filter back) e
        ∙ filter-append back before rows
        ∙ ap (λ xs. xs ++ filter back rows)
            (filter_none k drawn_by (λ t. ltb_ℤ (pos 0) t.quantity) before none_yet)
        ∙ all.1 in
      ap (λ ts. tally_inbound db.lots ts (tally_outbound (outbound db k drawn_by) [])) back_rows
      ∙ ap (λ ts. tally_outbound ts []) out_rows
      ∙ tally_rows b slices [] d p (Apart-empty slices)

take_all :
    (slices : List LotSlice)
    → All (λ s. 0 < s.quantity) slices
    → take_slices (map outstanding (map entry_of slices)) (total slices) ≡ (slices, 0)
unfolding take_slices
take_all [] p = refl
take_all (s ∷ slices) p =
    let whole : min (s.quantity + total slices) s.quantity ≡ s.quantity = ground arith in
    let left : s.quantity + total slices - s.quantity ≡ total slices = omega arith in
    let rest = take_all slices p.1 in ground arith

pub plan_all :
    (slices : List LotSlice)
    → All (λ s. 0 < s.quantity) slices
    → plan_return (map entry_of slices) (total slices) ≡ some slices
unfolding plan_return
plan_all slices p = rw (take_all slices p) refl
