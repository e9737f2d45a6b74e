-- ===== src/Inventory/Return/Restore.antt =====
-- Slices that were taken out of the lots are put back, one by one.
use ikiot_be.Prelude.{
  ◌≢◌, ℕ, ◌+◌, ◌-◌, ◌≤◌, ◌<◌, ◌≡◌, ◌∙◌, refl, ap, false, some, List, [], ◌∷◌, map, any, find?, All,
  arith, ok, Bool-cases, inl, inr,
}
use ikiot_be.Prelude.Int.{ℤ, pos, ◌+ℤ◌}
use ikiot_be.Inventory.Allocation.{LotSlice, running_balances}
use ikiot_be.Inventory.Allocation.Greedy.{taken}
use ikiot_be.Inventory.Tables.{StockKey, InventoryLot, InventoryTransaction, LedgerRef, Db}
use ikiot_be.Inventory.Rows.{update_where}
use ikiot_be.Inventory.Rows.Ledger.{has_id, take_from_lot, take_from_lots, ledger_row}
use ikiot_be.Inventory.Rows.Lots.{UniqueIds, lot_of, IsLots}
use ikiot_be.Inventory.Return.{put_back, overfills, return_slice, return_slices}
use ikiot_be.Inventory.Return.Distinct.{Distinct}

put_take_absent :
    (i q : ℕ) (k : StockKey) (lots : List InventoryLot)
    → All (λ m. m.id ≢ i) lots
    → (update_where (has_id i) (put_back q) (update_where (has_id i) (take_from_lot q) lots) ≡ lots)
      × (lot_of i k lots ≡ 0)
unfolding update_where
put_take_absent i q k [] h = (refl, refl)
put_take_absent i q k (l ∷ ls) h = ground (arith, put_take_absent i q k ls h.1, h.0)

put_take :
    (i q : ℕ) (k : StockKey) (lots : List InventoryLot)
    → UniqueIds lots
    → q ≤ lot_of i k lots
    → 0 < q
    → update_where (has_id i) (put_back q) (update_where (has_id i) (take_from_lot q) lots) ≡ lots
unfolding update_where
put_take i q k [] u h p = refl
put_take i q k (l ∷ ls) u h p = elim (Bool-cases (has_id i l)) [
  | inl e ↦
      let same : l.id ≡ i = ground arith in
      let others : All (λ m. m.id ≢ i) ls = rw same at u.0 in
      let gone = put_take_absent i q k ls others in
      let room : q ≤ l.remaining_quantity = ground (arith, gone.1) in
      let whole : l.remaining_quantity - q + q ≡ l.remaining_quantity = omega arith in
      ground (arith, gone.0)
  | inr e ↦ ground (arith, put_take i q k ls u.1)
]

put_commutes :
    (i q m r : ℕ) (lots : List InventoryLot)
    → i ≢ m
    → update_where (has_id i) (put_back q) (update_where (has_id m) (take_from_lot r) lots)
      ≡ update_where (has_id m) (take_from_lot r) (update_where (has_id i) (put_back q) lots)
unfolding update_where
put_commutes i q m r [] h = refl
put_commutes i q m r (l ∷ ls) h = ground (arith, put_commutes i q m r ls h)

put_past :
    (i q : ℕ) (slices : List LotSlice) (lots : List InventoryLot)
    → All (λ t. t.lot_id ≢ i) slices
    → update_where (has_id i) (put_back q) (take_from_lots slices lots)
      ≡ take_from_lots slices (update_where (has_id i) (put_back q) lots)
unfolding take_from_lots
put_past i q [] lots h = refl
put_past i q (s ∷ slices) lots h =
    let next =
      put_past i q slices (update_where (has_id s.lot_id) (take_from_lot s.quantity) lots) h.1 in
    next
    ∙ ap (take_from_lots slices) (put_commutes i q s.lot_id s.quantity lots (ground (arith, h.0)))

-- The CHECK lets a lot have back what it had.
within_room :
    (i q : ℕ) (lots : List InventoryLot)
    → All
        (λ l. l.remaining_quantity ≤ l.received_quantity)
        (update_where (has_id i) (put_back q) lots)
    → any (overfills i q) lots ≡ false
unfolding update_where
within_room i q [] h = refl
within_room i q (l ∷ ls) h = ground (arith, h.0, within_room i q ls h.1)

one-within :
    (i q : ℕ) (lots : List InventoryLot)
    → All (λ l. l.remaining_quantity ≤ l.received_quantity) lots
    → All
        (λ l. l.remaining_quantity ≤ l.received_quantity)
        (update_where (has_id i) (take_from_lot q) lots)
unfolding update_where
one-within i q [] h = tt
one-within i q (l ∷ ls) h = (ground (arith, h.0), one-within i q ls h.1)

take-within :
    (slices : List LotSlice) (lots : List InventoryLot)
    → All (λ l. l.remaining_quantity ≤ l.received_quantity) lots
    → All (λ l. l.remaining_quantity ≤ l.received_quantity) (take_from_lots slices lots)
unfolding take_from_lots
take-within [] lots h = h
take-within (s ∷ slices) lots h = take-within slices _ (one-within s.lot_id s.quantity lots h)

-- Each slice has its lot, at the location that the goods come back to.
abbrev pub AtHome : List InventoryLot → ℕ → LotSlice → Type 0
AtHome before to s =
    (o : InventoryLot) × (find? (has_id s.lot_id) before ≡ some o)
    × (o.id ≡ s.lot_id)
    × (o.key.location_id ≡ to)

put_back_here :
    (db : Db) (to : ℕ) (o : InventoryLot) (q : ℕ)
    → o.key.location_id ≡ to
    → any (overfills o.id q) db.lots ≡ false
    → return_slice db to o q
      ≡ ok (record db { lots = update_where (has_id o.id) (put_back q) db.lots }, o.id)
unfolding return_slice
put_back_here db to o q here room = ground arith

-- One turn of the loop, forwards.
slices_cons :
    (before : List InventoryLot) (k : StockKey) (ledger : LedgerRef) (db db₁ db₂ : Db)
    (s : LotSlice) (slices : List LotSlice) (b : ℤ) (balances : List ℤ) (o : InventoryLot) (i : ℕ)
    (rows : List InventoryTransaction)
    → find? (has_id s.lot_id) before ≡ some o
    → return_slice db k.location_id o s.quantity ≡ ok (db₁, i)
    → return_slices before k ledger db₁ slices balances ≡ ok (db₂, rows)
    → return_slices before k ledger db (s ∷ slices) (b ∷ balances)
      ≡ ok (db₂, ledger_row k ledger i (pos s.quantity) b o.unit_cost ∷ rows)
unfolding return_slices
slices_cons before k ledger db db₁ db₂ s slices b balances o i rows found put went =
    rw (found, put, went) refl

pub return_slices_restore :
    (before : List InventoryLot) (k : StockKey) (ledger : LedgerRef) (n : ℕ)
    (lots : List InventoryLot) (db : Db) (slices : List LotSlice) (b : ℤ)
    → IsLots n lots
    → Distinct slices
    → All (λ s. 0 < s.quantity) slices
    → ((i : ℕ) → taken i slices ≤ lot_of i k lots)
    → All (AtHome before k.location_id) slices
    → db.lots ≡ take_from_lots slices lots
    → (rows : List InventoryTransaction) × (return_slices before k ledger db slices
          (running_balances b (map (λ s. pos s.quantity) slices))
        ≡ ok (record db { lots = lots }, rows))
unfolding return_slices running_balances take_from_lots
return_slices_restore before k ledger n lots db [] b h d p fits home e =
    let same : db.lots ≡ lots = e in ([], rw (← same) refl)
return_slices_restore before k ledger n lots db (s ∷ slices) b h d p fits home e =
    let i = s.lot_id in
    let q = s.quantity in
    let (o, found, id, here) = home.0 in
    let room : q ≤ lot_of i k lots = ground (arith, fits i) in
    let back : update_where (has_id i) (put_back q) db.lots ≡ take_from_lots slices lots =
      ap (update_where (has_id i) (put_back q)) e
      ∙ put_past i q slices (update_where (has_id i) (take_from_lot q) lots) d.0
      ∙ ap (take_from_lots slices) (put_take i q k lots h.unique room p.0) in
    let free : any (overfills i q) db.lots ≡ false =
      within_room i q db.lots (rw back (take-within slices lots h.within)) in
    let put = put_back_here db k.location_id o q here (rw id free) in
    let db₁ : Db = record db { lots = update_where (has_id o.id) (put_back q) db.lots } in
    let (rows, went) =
      return_slices_restore before k ledger n lots db₁ slices (b +ℤ pos q) h d.1 p.1
        (λ m. omega (arith, fits m)) home.1 (rw id back) in
    (
      ledger_row k ledger o.id (pos q) (b +ℤ pos q) o.unit_cost ∷ rows,
      slices_cons before k ledger db db₁ (record db { lots = lots }) s slices (b +ℤ pos q) _ o o.id
          rows found put went,
    )
