-- ===== src/Inventory/History/Keep.antt =====
-- Every primitive keeps the tables sound.
use Prim.Native.String.{String}
use ikiot_be.Prelude.{
  ℕ, ◌≡◌, refl, any, List, [], ◌∷◌, arith, ok, Bool-cases, Option-cases, Result-cases, inl, inr,
}
use ikiot_be.Inventory.Tables.{
  StockKey, Inventory, LedgerRef, Db, ShortStockLine, inventory_lock_mismatch,
}
use ikiot_be.Inventory.Rows.{
  update_where, with_rows, guarded_update, shelf_covers, lock_covers, take_stock, add_lock,
  drop_lock, ship_lock, find_by_id, new_row,
}
use ikiot_be.Inventory.Rows.Ledger.{draw_lots}
use ikiot_be.Inventory.Consistent.{IsConsistent, draw_lots-Draws}
use ikiot_be.Inventory.Stock.{
  StockLine, LockedLine, deduct_stock, ship_locked_stock, release_locked_stock, lock_lines,
  lock_stock,
}
use ikiot_be.Inventory.Stock.Keep.{
  deduct_parts, ship_parts, deduct_stock-IsConsistent, ship_locked_stock-IsConsistent,
  release_locked_stock-IsConsistent,
}
use ikiot_be.Inventory.Stock.Lock.{lock_lines_hit, lock_lines_miss, lock_stock-IsConsistent}
use ikiot_be.Inventory.Return.Home.{IsTraced}
use ikiot_be.Inventory.Lines.{
  Catalogue, has_row_id, set_min_stock, update_min_stock, add_product_to_location,
  remove_product_from_location,
}
use ikiot_be.Inventory.Lines.Keep.{
  IsIndexed, add_parts, update_min_stock-IsConsistent, add_product_to_location-IsConsistent,
}
use ikiot_be.Inventory.Lines.Remove.{remove_parts, remove_product_from_location-IsConsistent}
use ikiot_be.Inventory.History.Indexed.{update_where-IsIndexed, guarded_update_rows, ids-append}
use ikiot_be.Inventory.History.Traced.{draw_lots-IsTraced}
use ikiot_be.Inventory.History.Sound.{IsSound}

-- What is beside consistency, of tables whose rows alone changed.
abbrev Beside : Db → Type 0
Beside db = IsTraced db × IsIndexed db

draw-Beside :
    (db db' : Db) (k : StockKey) (q after : ℕ) (ledger : LedgerRef)
    → IsConsistent db
    → IsTraced db
    → (db₁ : Db) → IsIndexed db₁
    → db₁.lots ≡ db.lots
    → db₁.transactions ≡ db.transactions
    → db₁.next_id ≡ db.next_id
    → draw_lots db₁ k q after ledger ≡ ok db'
    → Beside db'
draw-Beside db db' k q after ledger c t db₁ x lots ledgers next e =
    let d = draw_lots-Draws db₁ db' k q after ledger (rw (lots, next) c.lots_ok) e in
    (
      draw_lots-IsTraced db₁ db' k q after ledger (rw (lots, ledgers) t) e,
      record {
        ids_unique = rw d.inventories_same x.ids_unique;
        ids_given = rw (d.inventories_same, d.next_same) x.ids_given;
      },
    )

pub deduct_stock-IsSound :
    (db db' : Db) (k : StockKey) (q : ℕ) (label : String) (ledger : LedgerRef) (row : Inventory)
    → IsSound db
    → deduct_stock db k q label ledger ≡ ok (db', row)
    → IsSound db'
deduct_stock-IsSound db db' k q label ledger row h e =
    let (db₁, updated, drawn) = deduct_parts db db' k q label ledger row e in
    let same =
      guarded_update_rows (shelf_covers k q) (take_stock q) (λ r. refl) k _ db db₁ row updated in
    let taken = with_rows db (update_where (shelf_covers k q) (take_stock q) db.inventories) in
    let beside =
      draw-Beside db db' k q row.stock ledger h.consistent h.traced taken
        (update_where-IsIndexed (shelf_covers k q) (take_stock q) (λ r. refl) db h.indexed) refl
        refl refl (rw same drawn) in
    record {
      consistent = (deduct_stock-IsConsistent db db' k q label ledger row h.consistent e).0;
      traced = beside.0;
      indexed = beside.1;
    }

pub ship_locked_stock-IsSound :
    (db db' : Db) (k : StockKey) (q : ℕ) (ledger : LedgerRef) (row : Inventory)
    → IsSound db
    → ship_locked_stock db k q ledger ≡ ok (db', row)
    → IsSound db'
ship_locked_stock-IsSound db db' k q ledger row h e =
    let (db₁, updated, drawn) = ship_parts db db' k q ledger row e in
    let same =
      guarded_update_rows (lock_covers k q) (ship_lock q) (λ r. refl) k _ db db₁ row updated in
    let left = with_rows db (update_where (lock_covers k q) (ship_lock q) db.inventories) in
    let beside =
      draw-Beside db db' k q row.stock ledger h.consistent h.traced left
        (update_where-IsIndexed (lock_covers k q) (ship_lock q) (λ r. refl) db h.indexed) refl refl
        refl (rw same drawn) in
    record {
      consistent = (ship_locked_stock-IsConsistent db db' k q ledger row h.consistent e).0;
      traced = beside.0;
      indexed = beside.1;
    }

pub release_locked_stock-IsSound :
    (db db' : Db) (k : StockKey) (q : ℕ) (row : Inventory)
    → IsSound db
    → release_locked_stock db k q ≡ ok (db', row)
    → IsSound db'
unfolding release_locked_stock
release_locked_stock-IsSound db db' k q row h e =
    let updated : guarded_update k (lock_covers k q) (drop_lock q) inventory_lock_mismatch db
        ≡ ok (db', row) =
      ground arith in
    let same =
      guarded_update_rows (lock_covers k q) (drop_lock q) (λ r. refl) k _ db db' row updated in
    let kept = (release_locked_stock-IsConsistent db db' k q row h.consistent e).0 in
    record {
      consistent = kept;
      traced = rw (← same) h.traced;
      indexed =
          rw (← same)
            (update_where-IsIndexed (lock_covers k q) (drop_lock q) (λ r. refl) db h.indexed);
    }

lock_lines-Beside :
    (lines : List StockLine) (db db' : Db) (locked : List LockedLine) (short : List ShortStockLine)
    → Beside db
    → lock_lines db lines ≡ ok (db', locked, short)
    → Beside db'
unfolding lock_lines
lock_lines-Beside [] db db' locked short h e = let same : db ≡ db' = ground arith in rw (← same) h
lock_lines-Beside (line ∷ lines) db db' locked short h e =
    let k = line.key in
    let q = line.quantity in
    elim (Bool-cases (any (shelf_covers k q) db.inventories)) [
      | inl hit ↦
          let rows = update_where (shelf_covers k q) (add_lock q) db.inventories in
          let (rest, ran, count) = lock_lines_hit line lines db db' locked short hit e in
          let indexed = update_where-IsIndexed (shelf_covers k q) (add_lock q) (λ r. refl) db h.1 in
          lock_lines-Beside lines (with_rows db rows) db' rest short (h.0, indexed) ran
      | inr miss ↦
          let (rest, ran, some_short) = lock_lines_miss line lines db db' locked short miss e in
          lock_lines-Beside lines db db' locked rest h ran
    ]

pub lock_stock-IsSound :
    (lines : List StockLine) (db db' : Db) (locked : List LockedLine)
    → IsSound db
    → lock_stock db lines ≡ ok (db', locked)
    → IsSound db'
unfolding lock_stock
lock_stock-IsSound lines db db' locked h e =
    let kept = lock_stock-IsConsistent lines db db' locked h.consistent e in
    elim (Result-cases (lock_lines db lines)) [
      | inr (x, threw) ↦ ground arith
      | inl ((d, rows, s ∷ ss), ran) ↦ ground arith
      | inl ((d, rows, []), ran) ↦
          let beside =
            lock_lines-Beside lines db db' locked [] (h.traced, h.indexed) (ground arith) in
          record { consistent = kept.0; traced = beside.0; indexed = beside.1 }
    ]

pub update_min_stock-IsSound :
    (db db' : Db) (tenant i n : ℕ) (row : Inventory)
    → IsSound db
    → update_min_stock db tenant i n ≡ ok (db', row)
    → IsSound db'
unfolding update_min_stock
update_min_stock-IsSound db db' tenant i n row h e =
    let rows = update_where (has_row_id i) (set_min_stock n) db.inventories in
    elim (Option-cases (find_by_id tenant i db.inventories)) [
      | inl missing ↦ ground arith
      | inr (r, found) ↦
          let same : with_rows db rows ≡ db' = ground arith in
          record {
            consistent = (update_min_stock-IsConsistent db db' tenant i n row h.consistent e).0;
            traced = rw (← same) h.traced;
            indexed =
                rw (← same) (
                  update_where-IsIndexed (has_row_id i) (set_min_stock n) (λ r. refl) db h.indexed);
          }
    ]

pub add_product_to_location-IsSound :
    (catalogue : Catalogue) (db db' : Db) (k : StockKey) (row : Inventory)
    → IsSound db
    → add_product_to_location catalogue db k ≡ ok (db', row)
    → IsSound db'
add_product_to_location-IsSound catalogue db db' k row h e =
    let (fresh, added, same) = add_parts catalogue db db' k row e in
    let grown =
      ids-append db.next_id (new_row k 0 db.next_id) refl db.inventories h.indexed.ids_unique
        h.indexed.ids_given in
    record {
      consistent = (add_product_to_location-IsConsistent catalogue db db' k row h.consistent e).0;
      traced = rw (← same) h.traced;
      indexed = rw (← same) (record { ids_unique = grown.0; ids_given = grown.1 });
    }

pub remove_product_from_location-IsSound :
    (db db' : Db) (tenant i : ℕ)
    → IsSound db
    → remove_product_from_location db tenant i ≡ ok db'
    → IsSound db'
remove_product_from_location-IsSound db db' tenant i h e =
    let (r, found, empty, same) = remove_parts db db' tenant i e in
    let kept = remove_product_from_location-IsConsistent db db' tenant i h.consistent h.indexed e in
    record { consistent = kept.0; traced = rw (← same) h.traced; indexed = kept.1 }
