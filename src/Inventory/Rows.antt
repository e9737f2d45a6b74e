-- ===== src/Inventory/Rows.antt =====
-- The private helpers of InventoryService (src/modules/inventories/inventories.service.ts), and the
-- SQL statements that it sends, as functions of the tables.
pub mod Ledger
pub mod Guarded
pub mod Lots
use ikiot_be.Prelude.{
  ℕ, ◌+◌, ◌-◌, ◌≡◌, Bool, true, false, ◌&&◌, Option, none, some, List, [], ◌∷◌, ◌++◌, any, find?,
  if◌then◌else◌, ◌==◌, leb, Result, ok, err,
}
use ikiot_be.Inventory.Tables.{
  StockKey, key_eq, Inventory, Db, Outcome, quantity_must_be_positive, record_not_found,
  inventory_not_found, InventoryError,
}
use ikiot_be.Inventory.Shelf.{actual_stock_of}

-- `keyWhere`.
abbrev pub at_key : StockKey → Inventory → Bool
at_key k row = key_eq row.key k

-- UPDATE … SET f WHERE p, and the number of rows that it changes as a test.
unfoldable pub update_where {ℓ} : {A : Type ℓ} → (A → Bool) → (A → A) → List A → List A
update_where p f [] = []
update_where p f (r ∷ rs) = (if p r then f r else r) ∷ update_where p f rs

-- `assertPositive`. A quantity is a number here; a fraction or a negative number is refused too.
abbrev pub assert_positive : ℕ → Outcome (Unit {0})
assert_positive q = if q == 0 then err quantity_must_be_positive else ok tt

-- `findFirst` and `findFirstOrThrow` at a key.
abbrev pub find_row : StockKey → List Inventory → Option Inventory
find_row k = find? (at_key k)

abbrev pub find_row_or_throw : StockKey → List Inventory → Outcome Inventory
find_row_or_throw k rows = elim (find_row k rows) [ none ↦ err record_not_found | some r ↦ ok r ]

-- `shelfOf`.
abbrev pub shelf_of : StockKey → List Inventory → ℕ
shelf_of k rows = elim (find_row k rows) [ none ↦ 0 | some r ↦ actual_stock_of r ]

-- The guards and the assignments of the UPDATEs. `stock - locked_stock >= q` on INTEGER columns.
abbrev pub shelf_covers : StockKey → ℕ → Inventory → Bool
shelf_covers k q row = at_key k row && leb (row.locked_stock + q) row.stock

abbrev pub lock_covers : StockKey → ℕ → Inventory → Bool
lock_covers k q row = at_key k row && leb q row.locked_stock

abbrev pub take_stock : ℕ → Inventory → Inventory
take_stock q row = record row { stock = row.stock - q }

abbrev pub add_lock : ℕ → Inventory → Inventory
add_lock q row = record row { locked_stock = row.locked_stock + q }

abbrev pub drop_lock : ℕ → Inventory → Inventory
drop_lock q row = record row { locked_stock = row.locked_stock - q }

abbrev pub ship_lock : ℕ → Inventory → Inventory
ship_lock q row = record row { stock = row.stock - q; locked_stock = row.locked_stock - q }

abbrev pub add_stock : ℕ → Inventory → Inventory
add_stock q row = record row { stock = row.stock + q }

abbrev pub with_rows : Db → List Inventory → Db
with_rows db rows = record db { inventories = rows }

-- A guarded UPDATE: the error where it changes no row, else the tables and the row read back.
unfoldable pub guarded_update :
    StockKey
    → (Inventory → Bool)
    → (Inventory → Inventory)
    → InventoryError
    → Db
    → Outcome (Db × Inventory)
guarded_update k guard f refusal db =
    let rows = update_where guard f db.inventories in
    if any guard db.inventories
    then elim (find_row k rows) [ none ↦ err record_not_found | some r ↦ ok (with_rows db rows, r) ]
    else err refusal

abbrev pub new_row : StockKey → ℕ → ℕ → Inventory
new_row k q i = record { id = i; key = k; stock = q; locked_stock = 0; min_stock = 0 }

-- `incrementStock`: the upsert on the unique key.
unfoldable pub increment_stock : Db → StockKey → ℕ → Db
increment_stock db k q =
    if any (at_key k) db.inventories
    then with_rows db (update_where (at_key k) (add_stock q) db.inventories)
    else record db {
      inventories = db.inventories ++ (new_row k q db.next_id ∷ []);
      next_id = db.next_id + 1;
    }

-- `findRow`: scoped by tenant.
abbrev pub find_by_id : ℕ → ℕ → List Inventory → Option Inventory
find_by_id tenant i = find? (λ r. r.id == i && r.key.tenant_id == tenant)

abbrev pub find_by_id_or_throw : ℕ → ℕ → List Inventory → Outcome Inventory
find_by_id_or_throw tenant i rows = elim (find_by_id tenant i rows) [
  | none ↦ err inventory_not_found
  | some r ↦ ok r
]
