-- ===== src/Inventory/Stock/Exact.antt =====
-- When the stock primitives go through, and what they throw otherwise.
use Prim.Native.String.{String}
use ikiot_be.Prelude.{
  ℕ, ◌+◌, ◌≤◌, ◌<◌, ◌≡◌, ◌↔◌, refl, true, false, any, List, [], ◌∷◌, All, arith, leb, ◌==◌, ok, err,
  Bool-cases, Option-cases, inl, inr, ◌⊎◌,
}
use ikiot_be.Inventory.Allocation.{plan_draw}
use ikiot_be.Inventory.Allocation.Draw.{eligible_total, plan_draw_exact}
use ikiot_be.Inventory.Tables.{
  StockKey, key_eq, key_eq_sound, Inventory, Db, LedgerRef, insufficient_stock,
  inventory_lot_shortage, quantity_must_be_positive,
}
use ikiot_be.Inventory.Rows.{
  guarded_update, update_where, with_rows, shelf_covers, lock_covers, take_stock,
}
use ikiot_be.Inventory.Rows.Guarded.{UniqueKeys, guarded_update_lem}
use ikiot_be.Inventory.Rows.Ledger.{draw_lots, offered, write_draw}
use ikiot_be.Inventory.Consistent.{IsConsistent, stock_at, locked_at}
use ikiot_be.Inventory.Stock.{deduct_stock, short_line}
use ikiot_be.Inventory.Stock.Keep.{shelf_implies}

sums_absent :
    (k : StockKey) (q : ℕ) (rows : List Inventory)
    → All (λ s. key_eq s.key k ≡ false) rows
    → (stock_at k rows ≡ 0)
      × (locked_at k rows ≡ 0)
      × (any (shelf_covers k q) rows ≡ false)
      × (any (lock_covers k q) rows ≡ false)
sums_absent k q [] h = (refl, refl, refl, refl)
sums_absent k q (r ∷ rs) h = ground (arith, sums_absent k q rs h.1, h.0)

-- With a unique key the guards of the UPDATEs are about the sums of the key.
guards_iff :
    (k : StockKey) (q : ℕ) (rows : List Inventory)
    → 0 < q
    → UniqueKeys rows
    → ((any (shelf_covers k q) rows ≡ true) ↔ (locked_at k rows + q ≤ stock_at k rows))
      × ((any (lock_covers k q) rows ≡ true) ↔ (q ≤ locked_at k rows))
guards_iff k q [] pos u = ground arith
guards_iff k q (r ∷ rs) pos u = elim (Bool-cases (key_eq r.key k)) [
  | inl e ↦
      let others : All (λ s. key_eq s.key k ≡ false) rs = rw (key_eq_sound r.key k e) at u.0 in
      let gone = sums_absent k q rs others in
      ((ground arith, ground arith), (ground arith, ground arith))
  | inr e ↦
      let rest = guards_iff k q rs pos u.1 in
      ((ground arith, ground arith), (ground arith, ground arith))
]

-- Enough lots that the line may touch, and the draw goes through; too few, and it throws.
draw_lots_outcome :
    (db : Db) (k : StockKey) (q after : ℕ) (ledger : LedgerRef)
    → let held = eligible_total ledger.order_item_id (offered db k ledger.order_item_id) in
      (held < q → draw_lots db k q after ledger ≡ err inventory_lot_shortage)
      × (q ≤ held → (db' : Db) × (draw_lots db k q after ledger ≡ ok db'))
unfolding draw_lots
draw_lots_outcome db k q after ledger =
    let i = ledger.order_item_id in
    let lots = offered db k i in
    let exact = (plan_draw_exact lots q i).0 in
    elim (Option-cases (plan_draw lots q i)) [
      | inl e ↦ (λ h. ground arith, λ h. absurd (omega (arith, exact.0 e)))
      | inr (slices, e) ↦ (
        λ h. ground (arith, exact.1 h),
        λ h. (write_draw db k q after ledger slices, ground arith),
      )
    ]

-- What a deduction returns under each of its conditions.
deduct_stock_when :
    (db : Db) (k : StockKey) (q : ℕ) (label : String) (ledger : LedgerRef)
    → IsConsistent db
    → let held = eligible_total ledger.order_item_id (offered db k ledger.order_item_id) in
      let in_stock = stock_at k db.inventories in
      let locked = locked_at k db.inventories in
      (q ≡ 0 → deduct_stock db k q label ledger ≡ err quantity_must_be_positive)
      × (0 < q
          → in_stock < locked + q
          → deduct_stock db k q label ledger
            ≡ err (insufficient_stock (short_line label q k db.inventories ∷ [])))
      × (0 < q
          → locked + q ≤ in_stock
          → held < q
          → deduct_stock db k q label ledger ≡ err inventory_lot_shortage)
      × (0 < q
          → locked + q ≤ in_stock
          → q ≤ held
          → (db' : Db) × (row : Inventory) × (deduct_stock db k q label ledger ≡ ok (db', row)))
unfolding deduct_stock guarded_update
deduct_stock_when db k q label ledger c =
    let guard = shelf_covers k q in
    let f = take_stock q in
    let rows = update_where guard f db.inventories in
    let guards = λ (pos : 0 < q). (guards_iff k q db.inventories pos c.rows_unique).0 in
    let found =
      guarded_update_lem k guard f (shelf_implies k q) (λ r. refl) db.inventories c.rows_unique in
    (
      λ zero. ground arith,
      λ pos short. ground (arith, (guards pos).0),
      λ pos enough few.
          let (r, changes) = found ((guards pos).1 enough) in
          let draw = draw_lots_outcome (with_rows db rows) k q (f r).stock ledger in
          ground (arith, (guards pos).1 enough, changes.3, draw.0 few),
      λ pos enough many.
          let (r, changes) = found ((guards pos).1 enough) in
          let draw = draw_lots_outcome (with_rows db rows) k q (f r).stock ledger in
          let (db', drawn) = draw.1 many in
          (db', f r, ground (arith, (guards pos).1 enough, changes.3, drawn)),
    )

-- A deduction, on consistent tables: a quantity of 0 is refused; one that the shelf does not hold is
-- refused with what the shelf holds; one that the shelf holds goes through where the lots that the
-- order line may touch hold it too. Where they do not, because the rest is in lots made for other
-- lines, it fails with the lot shortage.
pub deduct_stock_outcome :
    (db : Db) (k : StockKey) (q : ℕ) (label : String) (ledger : LedgerRef)
    → IsConsistent db
    → let held = eligible_total ledger.order_item_id (offered db k ledger.order_item_id) in
      let in_stock = stock_at k db.inventories in
      let locked = locked_at k db.inventories in
      ((q ≡ 0) × (deduct_stock db k q label ledger ≡ err quantity_must_be_positive))
      ⊎ ((0 < q)
          × (in_stock < locked + q)
          × (deduct_stock db k q label ledger
              ≡ err (insufficient_stock (short_line label q k db.inventories ∷ []))))
      ⊎ ((0 < q)
          × (locked + q ≤ in_stock)
          × (held < q)
          × (deduct_stock db k q label ledger ≡ err inventory_lot_shortage))
      ⊎ ((0 < q)
          × (locked + q ≤ in_stock)
          × (q ≤ held)
          × (db' : Db) × (row : Inventory) × (deduct_stock db k q label ledger ≡ ok (db', row)))
deduct_stock_outcome db k q label ledger c =
    let when = deduct_stock_when db k q label ledger c in
    let held = eligible_total ledger.order_item_id (offered db k ledger.order_item_id) in
    let in_stock = stock_at k db.inventories in
    let locked = locked_at k db.inventories in
    elim (Bool-cases (q == 0)) [
      | inl e ↦ let none_asked : q ≡ 0 = ground arith in inl (none_asked, when.0 none_asked)
      | inr e ↦
          let asked : 0 < q = ground arith in
          elim (Bool-cases (leb (locked + q) in_stock)) [
            | inr f ↦
                let short : in_stock < locked + q = ground arith in
                inr (inl (asked, short, when.1 asked short))
            | inl f ↦
                let fits : locked + q ≤ in_stock = ground arith in
                elim (Bool-cases (leb q held)) [
                  | inr g ↦
                      let owned : held < q = ground arith in
                      inr (inr (inl (asked, fits, owned, when.2 asked fits owned)))
                  | inl g ↦
                      let there : q ≤ held = ground arith in
                      let done = when.3 asked fits there in
                      inr (inr (inr (asked, fits, there, done.0, done.1, done.2)))
                ]
          ]
    ]
