-- ===== src/Inventory/Stock/Steps.antt =====
-- What the guarded UPDATEs of inventories.service.ts do to consistent tables.
use ikiot_be.Prelude.{
  ℕ, ◌+◌, ◌≤◌, ◌≡◌, ◌∙◌, Bool, true, false, some, any, List, [], ◌∷◌, All, arith, ok, err,
  Bool-cases, Option-cases, inl, inr,
}
use ikiot_be.Prelude.Int.{eq_pos_of_add}
use ikiot_be.Inventory.Tables.{StockKey, key_eq, Inventory, Db, LedgerRef, InventoryError}
use ikiot_be.Inventory.Rows.{guarded_update, update_where, with_rows, find_row}
use ikiot_be.Inventory.Rows.Guarded.{
  UniqueKeys, entry, guarded_update_lem, update_where-UniqueKeys, All-update_where,
}
use ikiot_be.Inventory.Rows.Ledger.{draw_lots}
use ikiot_be.Inventory.Consistent.{IsConsistent, stock_at, locked_at, draw_lots-Draws}

module _ (k : StockKey) (guard : Inventory → Bool) (f : Inventory → Inventory)
    (implies : (r : Inventory) → guard r ≡ true → key_eq r.key k ≡ true)
    (same_key : (r : Inventory) → (f r).key ≡ r.key) where
  pub guarded_update_refuses :
      (refusal : InventoryError) (db : Db)
      → any guard db.inventories ≡ false
      → guarded_update k guard f refusal db ≡ err refusal
  unfolding guarded_update
  guarded_update_refuses refusal db e = rw e

  module _ (out unlocked locked : ℕ)
      (amounts : (r : Inventory)
        → guard r ≡ true
        → r.locked_stock ≤ r.stock
        → ((f r).stock + out ≡ r.stock)
          × ((f r).locked_stock + unlocked ≡ r.locked_stock + locked)
          × ((f r).locked_stock ≤ (f r).stock)) where
    -- What the UPDATE does to the columns, over the keys.
    abbrev pub Effect : List Inventory → List Inventory → Type 0
    Effect rows rows' =
        UniqueKeys rows'
        × All (λ r. r.locked_stock ≤ r.stock) rows'
        × ((j : StockKey)
            → (stock_at j rows' + entry k j out ≡ stock_at j rows)
              × (locked_at j rows' + entry k j unlocked ≡ locked_at j rows + entry k j locked))

    fits_found :
        (rows : List Inventory) (r : Inventory)
        → All (λ r. r.locked_stock ≤ r.stock) rows
        → find_row k rows ≡ some r
        → r.locked_stock ≤ r.stock
    fits_found [] r h e = ground arith
    fits_found (x ∷ xs) r h e = ground (arith, fits_found xs r h.1)

    pub update_rows :
        (db : Db)
        → IsConsistent db
        → any guard db.inventories ≡ true
        → Effect db.inventories (update_where guard f db.inventories)
    update_rows db c e =
        let rows = db.inventories in
        let (r, changes) = guarded_update_lem k guard f implies same_key rows c.rows_unique e in
        let sums = amounts r changes.0 (fits_found rows r c.locks_fit changes.2) in
        (
          update_where-UniqueKeys k guard f implies same_key rows c.rows_unique,
          All-update_where (λ r. r.locked_stock ≤ r.stock) guard f rows
              (λ r g fits. (amounts r g fits).2) c.locks_fit,
          λ j. (
            ground (arith, changes.4 j (λ r. r.stock)),
            ground (arith, changes.4 j (λ r. r.locked_stock)),
          ),
        )

    pub update_where_lem :
        (refusal : InventoryError) (db db' : Db) (row : Inventory)
        → IsConsistent db
        → guarded_update k guard f refusal db ≡ ok (db', row)
        → (rows : List Inventory) × (db' ≡ with_rows db rows) × Effect db.inventories rows
    unfolding guarded_update
    update_where_lem refusal db db' row c e = elim (Bool-cases (any guard db.inventories)) [
      | inl hit ↦ (update_where guard f db.inventories, hit_db hit e, update_rows db c hit)
      | inr miss ↦ ground arith
    ]
      where
        hit_db :
            any guard db.inventories ≡ true
            → guarded_update k guard f refusal db ≡ ok (db', row)
            → db' ≡ with_rows db (update_where guard f db.inventories)
        hit_db hit e = elim (Option-cases (find_row k (update_where guard f db.inventories))) [
          | inl none_found ↦ ground arith
          | inr (r, found) ↦ ground arith
        ]

-- Stock that a draw takes out of the lots of a key, after it was taken out of its row.
pub draw-IsConsistent :
    (db db' : Db) (rows : List Inventory) (k : StockKey) (q after : ℕ) (ledger : LedgerRef)
    → IsConsistent db
    → UniqueKeys rows
    → All (λ r. r.locked_stock ≤ r.stock) rows
    → ((j : StockKey) → stock_at j rows + entry k j q ≡ stock_at j db.inventories)
    → draw_lots (with_rows db rows) k q after ledger ≡ ok db'
    → IsConsistent db' × (db'.inventories ≡ rows)
draw-IsConsistent db db' rows k q after ledger c u locks falls e =
    let d = draw_lots-Draws (with_rows db rows) db' k q after ledger c.lots_ok e in
    let same : db'.inventories ≡ rows = d.inventories_same in
    (
      record {
        lots_hold_stock = λ j. rw same (omega (arith, d.lots_fall j, falls j, c.lots_hold_stock j));
        ledger_sums_to_stock = λ j. rw same (
            eq_pos_of_add _ (entry k j q) _ _ (d.ledger_falls j ∙ c.ledger_sums_to_stock j)
              (falls j));
        rows_unique = rw same u;
        locks_fit = rw same locks;
        lots_ok = d.lots_ok;
      },
      same,
    )
