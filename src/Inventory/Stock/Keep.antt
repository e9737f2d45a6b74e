-- ===== src/Inventory/Stock/Keep.antt =====
-- The stock primitives of inventories.service.ts on consistent tables.
use Prim.Native.String.{String}
use ikiot_be.Prelude.{
  ℕ, ◌+◌, ◌≤◌, ◌≡◌, refl, true, List, [], ◌∷◌, All, arith, ok, Result-cases, inl, inr,
}
use ikiot_be.Inventory.Tables.{
  StockKey, key_eq, Inventory, Db, LedgerRef, inventory_lock_mismatch, insufficient_stock,
}
use ikiot_be.Inventory.Rows.{
  guarded_update, with_rows, shelf_covers, lock_covers, take_stock, drop_lock, ship_lock,
}
use ikiot_be.Inventory.Rows.Guarded.{UniqueKeys, entry}
use ikiot_be.Inventory.Rows.Ledger.{draw_lots}
use ikiot_be.Inventory.Consistent.{IsConsistent, stock_at, locked_at}
use ikiot_be.Inventory.Stock.{deduct_stock, ship_locked_stock, release_locked_stock, short_line}
use ikiot_be.Inventory.Stock.Steps.{update_where_lem, draw-IsConsistent}

pub shelf_implies :
    (k : StockKey) (q : ℕ) (r : Inventory) → shelf_covers k q r ≡ true → key_eq r.key k ≡ true
shelf_implies k q r h = ground arith

pub lock_implies :
    (k : StockKey) (q : ℕ) (r : Inventory) → lock_covers k q r ≡ true → key_eq r.key k ≡ true
lock_implies k q r h = ground arith

pub deduct_parts :
    (db db' : Db) (k : StockKey) (q : ℕ) (label : String) (ledger : LedgerRef) (row : Inventory)
    → deduct_stock db k q label ledger ≡ ok (db', row)
    → let refusal = insufficient_stock (short_line label q k db.inventories ∷ []) in
      (db₁ : Db) × (guarded_update k (shelf_covers k q) (take_stock q) refusal db ≡ ok (db₁, row))
      × (draw_lots db₁ k q row.stock ledger ≡ ok db')
unfolding deduct_stock
deduct_parts db db' k q label ledger row e =
    let refusal = insufficient_stock (short_line label q k db.inventories ∷ []) in
    elim (Result-cases (guarded_update k (shelf_covers k q) (take_stock q) refusal db)) [
      | inr (x, refused) ↦ ground arith
      | inl (p, updated) ↦ elim (Result-cases (draw_lots p.0 k q p.1.stock ledger)) [
        | inr (x, refused) ↦ ground arith
        | inl (db₂, drawn) ↦ (p.0, ground arith, ground arith)
      ]
    ]

pub ship_parts :
    (db db' : Db) (k : StockKey) (q : ℕ) (ledger : LedgerRef) (row : Inventory)
    → ship_locked_stock db k q ledger ≡ ok (db', row)
    → (db₁ : Db) × (guarded_update k (lock_covers k q) (ship_lock q) inventory_lock_mismatch db
        ≡ ok (db₁, row))
      × (draw_lots db₁ k q row.stock ledger ≡ ok db')
unfolding ship_locked_stock
ship_parts db db' k q ledger row e =
    elim (Result-cases
      (guarded_update k (lock_covers k q) (ship_lock q) inventory_lock_mismatch db)) [
        | inr (x, refused) ↦ ground arith
        | inl (p, updated) ↦ elim (Result-cases (draw_lots p.0 k q p.1.stock ledger)) [
          | inr (x, refused) ↦ ground arith
          | inl (db₂, drawn) ↦ (p.0, ground arith, ground arith)
        ]
      ]

-- How the stock and the locked part of every key stand after an operation on key `k`.
abbrev pub Moves : StockKey → (out unlocked locked : ℕ) → Db → Db → Type 0
Moves k out unlocked locked db db' =
    (j : StockKey)
    → (stock_at j db'.inventories + entry k j out ≡ stock_at j db.inventories)
      × (locked_at j db'.inventories + entry k j unlocked
          ≡ locked_at j db.inventories + entry k j locked)

-- A deduction leaves the tables consistent, takes the quantity out of the stock of its key and out of
-- no other, and leaves every lock: with `IsConsistent`, what is locked for an order is still there.
pub deduct_stock-IsConsistent :
    (db db' : Db) (k : StockKey) (q : ℕ) (label : String) (ledger : LedgerRef) (row : Inventory)
    → IsConsistent db
    → deduct_stock db k q label ledger ≡ ok (db', row)
    → IsConsistent db' × Moves k q 0 0 db db'
deduct_stock-IsConsistent db db' k q label ledger row c e =
    let (db₁, updated, drawn) = deduct_parts db db' k q label ledger row e in
    let (rows, moved, effect) =
      update_where_lem k (shelf_covers k q) (take_stock q) (shelf_implies k q) (λ r. refl) q 0 0
        (λ r g fits. (ground arith, omega arith, ground arith)) _ db db₁ row c updated in
    let (kept, same) =
      draw-IsConsistent db db' rows k q row.stock ledger c effect.0 effect.1 (λ j. (effect.2 j).0)
        (rw moved at drawn) in
    (kept, λ j. rw same (effect.2 j))

-- Shipping leaves the tables consistent, and takes the quantity out of both the stock and the locked
-- part of its key and of no other, so the shelf is as it was.
pub ship_locked_stock-IsConsistent :
    (db db' : Db) (k : StockKey) (q : ℕ) (ledger : LedgerRef) (row : Inventory)
    → IsConsistent db
    → ship_locked_stock db k q ledger ≡ ok (db', row)
    → IsConsistent db' × Moves k q q 0 db db'
ship_locked_stock-IsConsistent db db' k q ledger row c e =
    let (db₁, updated, drawn) = ship_parts db db' k q ledger row e in
    let (rows, moved, effect) =
      update_where_lem k (lock_covers k q) (ship_lock q) (lock_implies k q) (λ r. refl) q q 0
        (λ r g fits. (ground arith, ground arith, ground arith)) _ db db₁ row c updated in
    let (kept, same) =
      draw-IsConsistent db db' rows k q row.stock ledger c effect.0 effect.1 (λ j. (effect.2 j).0)
        (rw moved at drawn) in
    (kept, λ j. rw same (effect.2 j))

-- Rows that changed in their locks alone.
pub relock-IsConsistent :
    (db : Db) (rows : List Inventory)
    → IsConsistent db
    → UniqueKeys rows
    → All (λ r. r.locked_stock ≤ r.stock) rows
    → ((j : StockKey) → stock_at j rows ≡ stock_at j db.inventories)
    → IsConsistent (with_rows db rows)
relock-IsConsistent db rows c u fit same = record {
  lots_hold_stock = λ j. omega (arith, c.lots_hold_stock j, same j);
  ledger_sums_to_stock = λ j. rw (same j) (c.ledger_sums_to_stock j);
  rows_unique = u;
  locks_fit = fit;
  lots_ok = c.lots_ok;
}

-- Releasing leaves the tables consistent, and lowers the locked part of its key alone.
pub release_locked_stock-IsConsistent :
    (db db' : Db) (k : StockKey) (q : ℕ) (row : Inventory)
    → IsConsistent db
    → release_locked_stock db k q ≡ ok (db', row)
    → IsConsistent db' × Moves k 0 q 0 db db'
unfolding release_locked_stock
release_locked_stock-IsConsistent db db' k q row c e =
    let updated : guarded_update k (lock_covers k q) (drop_lock q) inventory_lock_mismatch db
        ≡ ok (db', row) =
      ground arith in
    let (rows, moved, effect) =
      update_where_lem k (lock_covers k q) (drop_lock q) (lock_implies k q) (λ r. refl) 0 q 0
        (λ r g fits. (omega arith, ground arith, ground arith)) _ db db' row c updated in
    rw moved (
      relock-IsConsistent db rows c effect.0 effect.1 (λ j. ground (arith, (effect.2 j).0)),
      effect.2,
    )
