-- ===== src/Inventory/Stock/Lock.antt =====
-- `lockStock`: every line of an order, or none.
use ikiot_be.Prelude.{
  ◌≢◌, ℕ, ◌+◌, ◌≡◌, refl, true, false, any, List, [], ◌∷◌, arith, ok, Bool-cases, Result-cases, inl,
  inr, length,
}
use ikiot_be.Inventory.Tables.{StockKey, Db, ShortStockLine}
use ikiot_be.Inventory.Rows.{update_where, with_rows, shelf_covers, add_lock}
use ikiot_be.Inventory.Rows.Guarded.{entry}
use ikiot_be.Inventory.Consistent.{IsConsistent, stock_at, locked_at}
use ikiot_be.Inventory.Stock.{StockLine, LockedLine, lock_lines, lock_stock}
use ikiot_be.Inventory.Stock.Steps.{update_rows}
use ikiot_be.Inventory.Stock.Keep.{relock-IsConsistent, shelf_implies}

-- What the lines lock of a key.
abbrev pub demand : StockKey → List StockLine → ℕ
demand j [] = 0
demand j (line ∷ lines) = entry line.key j line.quantity + demand j lines

-- After the loop the tables are consistent, no stock has changed, and where no line was short the
-- lines are all locked.
abbrev Locks : List StockLine → Db → Db → List LockedLine → List ShortStockLine → Type 0
Locks lines db db' locked short =
    IsConsistent db'
    × ((j : StockKey) → stock_at j db'.inventories ≡ stock_at j db.inventories)
    × (short ≡ []
        → (length locked ≡ length lines)
          × ((j : StockKey)
              → locked_at j db'.inventories ≡ locked_at j db.inventories + demand j lines))

lock_none :
    (db db' : Db) (locked : List LockedLine) (short : List ShortStockLine)
    → IsConsistent db
    → lock_lines db [] ≡ ok (db', locked, short)
    → Locks [] db db' locked short
unfolding lock_lines
lock_none db db' locked short c e =
    let same : db ≡ db' = ground arith in
    let none_locked : locked ≡ [] = ground arith in
    rw (← same, none_locked) (c, λ j. refl, λ all. (refl, λ j. omega arith))

entry_zero : (k j : StockKey) → entry k j 0 ≡ 0
entry_zero k j = ground arith

-- One turn of the loop, inverted: the rest ran on the tables with the line locked, or on the same
-- tables with the line reported.
pub lock_lines_hit :
    (line : StockLine) (lines : List StockLine) (db db' : Db) (locked : List LockedLine)
    (short : List ShortStockLine)
    → any (shelf_covers line.key line.quantity) db.inventories ≡ true
    → lock_lines db (line ∷ lines) ≡ ok (db', locked, short)
    → (rest : List LockedLine) × (lock_lines
          (with_rows db (
            update_where
              (shelf_covers line.key line.quantity)
              (add_lock line.quantity)
              db.inventories))
          lines
        ≡ ok (db', rest, short))
      × (length locked ≡ length rest + 1)
unfolding lock_lines
lock_lines_hit line lines db db' locked short hit e =
    let rows =
      update_where (shelf_covers line.key line.quantity) (add_lock line.quantity) db.inventories in
    elim (Result-cases (lock_lines (with_rows db rows) lines)) [
      | inl (p, ran) ↦ (p.1, ground arith, ground arith)
      | inr (x, threw) ↦ ground arith
    ]

pub lock_lines_miss :
    (line : StockLine) (lines : List StockLine) (db db' : Db) (locked : List LockedLine)
    (short : List ShortStockLine)
    → any (shelf_covers line.key line.quantity) db.inventories ≡ false
    → lock_lines db (line ∷ lines) ≡ ok (db', locked, short)
    → (rest : List ShortStockLine) × (lock_lines db lines ≡ ok (db', locked, rest)) × (short ≢ [])
unfolding lock_lines
lock_lines_miss line lines db db' locked short miss e = elim (Result-cases (lock_lines db lines)) [
  | inl (p, ran) ↦ (p.2, ground arith, ground arith)
  | inr (x, threw) ↦ ground arith
]

lock_lines-Locks :
    (lines : List StockLine) (db db' : Db) (locked : List LockedLine) (short : List ShortStockLine)
    → IsConsistent db
    → lock_lines db lines ≡ ok (db', locked, short)
    → Locks lines db db' locked short
lock_lines-Locks [] db db' locked short c e = lock_none db db' locked short c e
lock_lines-Locks (line ∷ lines) db db' locked short c e =
    let k = line.key in
    let q = line.quantity in
    let rows = update_where (shelf_covers k q) (add_lock q) db.inventories in
    elim (Bool-cases (any (shelf_covers k q) db.inventories)) [
      | inl hit ↦
          let effect =
            update_rows k (shelf_covers k q) (add_lock q) (shelf_implies k q) (λ r. refl) 0 0 q
              (λ r g fits. (omega arith, omega arith, ground arith)) db c hit in
          let kept =
            relock-IsConsistent db rows c effect.0 effect.1 (λ j. ground (arith, (effect.2 j).0)) in
          let (rest, ran, count) = lock_lines_hit line lines db db' locked short hit e in
          let after = lock_lines-Locks lines (with_rows db rows) db' rest short kept ran in
          (
            after.0,
            λ j. omega (arith, after.1 j, (effect.2 j).0, entry_zero k j),
            λ all. (
              omega (arith, (after.2 all).0),
              λ j. omega (arith, (after.2 all).1 j, (effect.2 j).1, entry_zero k j),
            ),
          )
      | inr miss ↦
          let (rest, ran, some_short) = lock_lines_miss line lines db db' locked short miss e in
          let after = lock_lines-Locks lines db db' locked rest c ran in
          (after.0, after.1, λ all. absurd (some_short all))
    ]

-- Packing locks every line or fails. When it succeeds the tables are consistent, no stock has
-- changed, there is one locked row for each line, and each key has just the demand of the lines more
-- locked; so, by consistency, the lines together never lock more than the shelf held.
pub lock_stock-IsConsistent :
    (lines : List StockLine) (db db' : Db) (locked : List LockedLine)
    → IsConsistent db
    → lock_stock db lines ≡ ok (db', locked)
    → IsConsistent db'
      × ((j : StockKey) → stock_at j db'.inventories ≡ stock_at j db.inventories)
      × (length locked ≡ length lines)
      × ((j : StockKey) → locked_at j db'.inventories ≡ locked_at j db.inventories + demand j lines)
unfolding lock_stock
lock_stock-IsConsistent lines db db' locked c e = elim (Result-cases (lock_lines db lines)) [
  | inr (x, threw) ↦ ground arith
  | inl ((d, rows, []), ran) ↦
      let after = lock_lines-Locks lines db db' locked [] c (ground arith) in
      (after.0, after.1, (after.2 refl).0, (after.2 refl).1)
  | inl ((d, rows, s ∷ ss), ran) ↦ ground arith
]
