-- ===== src/Inventory/Stock/Open.antt =====
-- `openLot`: the upsert, the new lot and its ledger row.
use ikiot_be.Prelude.{
  ◌≢◌, ℕ, ◌+◌, ◌≤◌, ◌<◌, ◌≡◌, refl, false, Option, none, any, List, [], ◌∷◌, ◌++◌, All, All-append,
  arith, if◌then◌else◌, ok, Bool-cases, Option-cases, inl, inr,
}
use ikiot_be.Prelude.Int.{ℤ, pos, ◌+ℤ◌}
use ikiot_be.Inventory.Tables.{
  StockKey, key_eq, key_eq_sym, Inventory, InventoryLot, InventoryTransaction, Db, LedgerRef,
}
use ikiot_be.Inventory.Rows.{increment_stock, at_key, add_stock, find_row, new_row}
use ikiot_be.Inventory.Rows.Guarded.{
  UniqueKeys, sum_at-append, entry, guarded_update_lem, update_where-UniqueKeys, All-update_where,
}
use ikiot_be.Inventory.Rows.Ledger.{write_ledger, ledger_row}
use ikiot_be.Inventory.Rows.Lots.{UniqueIds, IsLots, lot_sum}
use ikiot_be.Inventory.Consistent.{IsConsistent, stock_at, locked_at, ledger_sum-append}
use ikiot_be.Inventory.Stock.{LotOrigin, open_lot, opened_lot, or_else, add_lot}

pub UniqueKeys-append :
    (k : StockKey) (rows : List Inventory) (r : Inventory)
    → r.key ≡ k
    → any (at_key k) rows ≡ false
    → UniqueKeys rows
    → UniqueKeys (rows ++ (r ∷ []))
UniqueKeys-append k [] r same h u = (tt, tt)
UniqueKeys-append k (x ∷ xs) r same h u = (
  All-append (λ s. key_eq s.key x.key ≡ false) xs (r ∷ []) u.0
      (rw (same, key_eq_sym k x.key) (ground arith), tt),
  UniqueKeys-append k xs r same (ground arith) u.1,
)

-- What the upsert does: the stock of the key rises, and nothing else changes but the next identifier.
abbrev pub Rises : Db → Db → StockKey → ℕ → Type 0
Rises db db' k q =
    UniqueKeys db'.inventories
    × All (λ r. r.locked_stock ≤ r.stock) db'.inventories
    × (db'.lots ≡ db.lots)
    × (db'.transactions ≡ db.transactions)
    × (db.next_id ≤ db'.next_id)
    × ((j : StockKey)
        → (stock_at j db'.inventories ≡ stock_at j db.inventories + entry k j q)
          × (locked_at j db'.inventories ≡ locked_at j db.inventories))

pub increment_stock-Rises :
    (db : Db) (k : StockKey) (q : ℕ) → IsConsistent db → Rises db (increment_stock db k q) k q
unfolding increment_stock
increment_stock-Rises db k q c = elim (Bool-cases (any (at_key k) db.inventories)) [
  | inl hit ↦
      let (r, changes) =
        guarded_update_lem k (at_key k) (add_stock q) (λ r g. g) (λ r. refl) db.inventories
          c.rows_unique hit in
      rw hit (
        update_where-UniqueKeys k (at_key k) (add_stock q) (λ r g. g) (λ r. refl) db.inventories
            c.rows_unique,
        All-update_where (λ r. r.locked_stock ≤ r.stock) (at_key k) (add_stock q) db.inventories
            (λ r g fits. omega arith) c.locks_fit,
        refl,
        refl,
        omega arith,
        λ j. (
          ground (arith, changes.4 j (λ r. r.stock)),
          ground (arith, changes.4 j (λ r. r.locked_stock)),
        ),
      )
  | inr miss ↦
      let row = new_row k q db.next_id in
      rw miss (
        UniqueKeys-append k db.inventories row refl miss c.rows_unique,
        All-append (λ r. r.locked_stock ≤ r.stock) db.inventories (row ∷ []) c.locks_fit
            (omega arith, tt),
        refl,
        refl,
        omega arith,
        λ j. (
          sum_at-append j (λ r. r.stock) db.inventories row,
          ground (arith, sum_at-append j (λ r. r.locked_stock) db.inventories row),
        ),
      )
]

-- A fresh lot joins the lots.
pub IsLots-append :
    (next n : ℕ) (lots : List InventoryLot) (lot : InventoryLot)
    → next ≤ n
    → lot.id ≡ n
    → lot.remaining_quantity ≤ lot.received_quantity
    → IsLots next lots
    → IsLots (n + 1) (lots ++ (lot ∷ []))
IsLots-append next n lots lot le fresh fits h = record {
  unique = unique lots h.unique h.known;
  known = All-append (λ l. l.id < n + 1) lots (lot ∷ []) (older lots h.known) (omega arith, tt);
  within =
      All-append (λ l. l.remaining_quantity ≤ l.received_quantity) lots (lot ∷ []) h.within
        (fits, tt);
}
  where
    older : (ls : List InventoryLot) → All (λ l. l.id < next) ls → All (λ l. l.id < n + 1) ls
    older [] a = tt
    older (l ∷ ls) a = (omega arith, older ls a.1)

    unique :
        (ls : List InventoryLot)
        → UniqueIds ls
        → All (λ l. l.id < next) ls
        → UniqueIds (ls ++ (lot ∷ []))
    unique [] u a = (tt, tt)
    unique (l ∷ ls) u a =
        (All-append (λ m. m.id ≢ l.id) ls (lot ∷ []) u.0 (omega arith, tt), unique ls u.1 a.1)

pub lot_sum-append :
    (j : StockKey) (lots : List InventoryLot) (lot : InventoryLot)
    → lot_sum j (lots ++ (lot ∷ [])) ≡ lot_sum j lots + entry lot.key j lot.remaining_quantity
lot_sum-append j [] lot = omega arith
lot_sum-append j (l ∷ ls) lot = omega (arith, lot_sum-append j ls lot)

-- The row that follows a rise by `q`.
rise_ledger :
    (j k : StockKey) (x : ℤ) (q s t : ℕ)
    → x ≡ pos s
    → t ≡ s + entry k j q
    → x +ℤ ((if key_eq k j then pos q else pos 0) +ℤ pos 0) ≡ pos t
unfolding ◌+ℤ◌
rise_ledger j k x q s t e h = ground arith

pub open_parts :
    (db db' : Db) (k : StockKey) (q : ℕ) (cost : Option ℕ) (origin : LotOrigin) (at : Option ℕ)
    (now : ℕ) (ledger : LedgerRef) (row : Inventory) (lot : ℕ)
    → open_lot db k q cost origin at now ledger ≡ ok (db', row, lot)
    → let db₁ = increment_stock db k q in
      let paid = or_else cost (db.cost_price k.product_item_id) in
      let new = opened_lot k q origin paid (or_else at now) db₁.next_id in
      (0 < q)
      × (lot ≡ db₁.next_id)
      × (db'
          ≡ write_ledger
              (add_lot db₁ new)
              (ledger_row k ledger db₁.next_id (pos q) (pos row.stock) paid ∷ []))
unfolding open_lot
open_parts db db' k q cost origin at now ledger row lot e =
    let db₁ = increment_stock db k q in
    elim (Option-cases (find_row k db₁.inventories)) [
      | inl none_found ↦ (ground arith, ground arith, ground arith)
      | inr (r, found) ↦ (ground arith, ground arith, ground arith)
    ]

ids_fresh :
    (next n : ℕ) (lots : List InventoryLot)
    → next ≤ n
    → All (λ l. l.id < next) lots
    → All (λ l. l.id ≢ n) lots
ids_fresh next n [] le a = tt
ids_fresh next n (l ∷ ls) le a = (omega arith, ids_fresh next n ls le a.1)

-- The lots and the ledger after a receipt: those of before and, last, one lot with the returned
-- identifier and one row of it, both of the key and with the whole quantity.
abbrev pub Receives : Db → Db → StockKey → ℕ → LotOrigin → LedgerRef → ℕ → Type 0
Receives db db' k q origin ledger lot =
    ((new : InventoryLot) × (db'.lots ≡ db.lots ++ (new ∷ []))
      × (new.id ≡ lot)
      × (new.key ≡ k)
      × (new.received_quantity ≡ q)
      × (new.remaining_quantity ≡ q)
      × (new.order_item_id ≡ origin.order_item_id)
      × (new.parent_lot_id ≡ none))
    × ((entered : InventoryTransaction) × (db'.transactions ≡ db.transactions ++ (entered ∷ []))
        × (entered.lot_id ≡ lot)
        × (entered.key ≡ k)
        × (entered.ledger ≡ ledger)
        × (entered.quantity ≡ pos q))

-- Receiving goods leaves the tables consistent. The stock of the key rises by the quantity, which is
-- not 0, and no other stock or lock changes. To the lots it adds just one, last: of the key and the
-- origin's order line, with the returned identifier, which no lot had, and with the whole quantity
-- received and remaining. To the ledger it adds just one row, last: of that lot, the key and the given
-- reference, with the quantity.
pub open_lot-IsConsistent :
    (db db' : Db) (k : StockKey) (q : ℕ) (cost : Option ℕ) (origin : LotOrigin) (at : Option ℕ)
    (now : ℕ) (ledger : LedgerRef) (row : Inventory) (lot : ℕ)
    → IsConsistent db
    → open_lot db k q cost origin at now ledger ≡ ok (db', row, lot)
    → IsConsistent db'
      × (0 < q)
      × All (λ l. l.id ≢ lot) db.lots
      × ((j : StockKey)
          → (stock_at j db'.inventories ≡ stock_at j db.inventories + entry k j q)
            × (locked_at j db'.inventories ≡ locked_at j db.inventories))
      × Receives db db' k q origin ledger lot
unfolding write_ledger
open_lot-IsConsistent db db' k q cost origin at now ledger row lot c e =
    let db₁ = increment_stock db k q in
    let rises = increment_stock-Rises db k q c in
    let paid = or_else cost (db.cost_price k.product_item_id) in
    let new = opened_lot k q origin paid (or_else at now) db₁.next_id in
    let entered = ledger_row k ledger db₁.next_id (pos q) (pos row.stock) paid in
    let (positive, id, result) = open_parts db db' k q cost origin at now ledger row lot e in
    rw result (
      record {
        lots_hold_stock = λ j.
            rw rises.2
              (omega (arith, lot_sum-append j db.lots new, (rises.5 j).0, c.lots_hold_stock j));
        ledger_sums_to_stock = λ j.
            rw (rises.3, ledger_sum-append j db.transactions (entered ∷ []))
              (rise_ledger j k _ q _ _ (c.ledger_sums_to_stock j) (rises.5 j).0);
        rows_unique = rises.0;
        locks_fit = rises.1;
        lots_ok =
            rw rises.2 (
              IsLots-append db.next_id db₁.next_id db.lots new rises.4 refl (omega arith)
                c.lots_ok);
      },
      positive,
      rw id (ids_fresh db.next_id db₁.next_id db.lots rises.4 c.lots_ok.known),
      rises.5,
      rw (rises.2, rises.3, id)
          (
            (new, refl, refl, refl, refl, refl, refl, refl),
            (entered, refl, refl, refl, refl, refl),
          ),
    )
