-- ===== src/Inventory/Return/Tally.antt =====
-- The Map of `returnDrawn`: it has an entry for each lot that an outbound row names, and no other.
use ikiot_be.Prelude.{
  ℕ, ◌≡◌, min, some, List, [], ◌∷◌, map, All, arith, ◌==◌, Bool-cases, Option-cases, inl, inr,
}
use ikiot_be.Inventory.Allocation.{LotSlice, DrawnLot, outstanding, take_slices, plan_return}
use ikiot_be.Inventory.Tables.{StockKey, InventoryLot, InventoryTransaction, Db}
use ikiot_be.Inventory.Rows.{update_where}
use ikiot_be.Inventory.Return.{
  DrawnBy, outbound, add_drawn, tally_outbound, tally_inbound, drawn_lots, origin_of, is_entry,
  add_returned,
}

module _ (P : ℕ → Type 0) where
  abbrev Entries : List DrawnLot → Type 0
  Entries = All (λ e. P e.lot_id)

  add_drawn-Entries : (i q : ℕ) (es : List DrawnLot) → P i → Entries es → Entries (add_drawn i q es)
  unfolding add_drawn
  add_drawn-Entries i q [] p h = (p, tt)
  add_drawn-Entries i q (e ∷ es) p h = elim (Bool-cases (is_entry i e)) [
    | inl same ↦ rw same h
    | inr other ↦ rw other (h.0, add_drawn-Entries i q es p h.1)
  ]

  tally_outbound-Entries :
      (ts : List InventoryTransaction) (es : List DrawnLot)
      → All (λ t. P t.lot_id) ts
      → Entries es
      → Entries (tally_outbound ts es)
  unfolding tally_outbound
  tally_outbound-Entries [] es p h = h
  tally_outbound-Entries (t ∷ ts) es p h =
      tally_outbound-Entries ts _ p.1 (add_drawn-Entries t.lot_id _ es p.0 h)

  returned-Entries :
      (i q : ℕ) (es : List DrawnLot)
      → Entries es
      → Entries (update_where (is_entry i) (add_returned q) es)
  unfolding update_where
  returned-Entries i q [] h = tt
  returned-Entries i q (e ∷ es) h = elim (Bool-cases (is_entry i e)) [
    | inl same ↦ rw same (h.0, returned-Entries i q es h.1)
    | inr other ↦ rw other (h.0, returned-Entries i q es h.1)
  ]

  tally_inbound-Entries :
      (lots : List InventoryLot) (ts : List InventoryTransaction) (es : List DrawnLot)
      → Entries es
      → Entries (tally_inbound lots ts es)
  unfolding tally_inbound
  tally_inbound-Entries lots [] es h = h
  tally_inbound-Entries lots (t ∷ ts) es h = elim (Option-cases (origin_of t.lot_id lots es)) [
    | inl e ↦ rw e (tally_inbound-Entries lots ts es h)
    | inr (i, e) ↦ rw e (tally_inbound-Entries lots ts _ (returned-Entries i _ es h))
  ]

  take_slices-Entries :
      (lots : List LotSlice) (q : ℕ)
      → All (λ s. P s.lot_id) lots
      → All (λ s. P s.lot_id) (take_slices lots q).0
  unfolding take_slices
  take_slices-Entries [] q h = tt
  take_slices-Entries (l ∷ ls) q h = elim (Bool-cases (q == 0)) [
    | inl none_left ↦ rw none_left tt
    | inr more ↦ elim (Bool-cases (min q l.quantity == 0)) [
      | inl nothing ↦ rw (more, nothing) (take_slices-Entries ls _ h.1)
      | inr some_of ↦ rw (more, some_of) (h.0, take_slices-Entries ls _ h.1)
    ]
  ]

  outstanding-Entries :
      (es : List DrawnLot) → Entries es → All (λ s. P s.lot_id) (map outstanding es)
  outstanding-Entries [] h = tt
  outstanding-Entries (e ∷ es) h = (h.0, outstanding-Entries es h.1)

  -- The slices of a return are of lots that the outbound rows name.
  pub slices-All :
      (db : Db) (k : StockKey) (drawn_by : DrawnBy) (q : ℕ) (slices : List LotSlice)
      → All (λ t. P t.lot_id) (outbound db k drawn_by)
      → plan_return (drawn_lots db k drawn_by) q ≡ some slices
      → All (λ s. P s.lot_id) slices
  unfolding plan_return drawn_lots
  slices-All db k drawn_by q slices p e =
      let es = drawn_lots db k drawn_by in
      let entries : Entries es =
        tally_inbound-Entries db.lots _ _ (tally_outbound-Entries _ [] p tt) in
      let same : (take_slices (map outstanding es) q).0 ≡ slices = ground arith in
      rw (← same) (take_slices-Entries _ q (outstanding-Entries es entries))
