-- ===== src/Inventory/Return.antt =====
-- `returnDrawn` of src/modules/inventories/inventories.service.ts: goods come back to the lots that a
-- document drew them from, or as lots split off from those where they come back elsewhere.
pub mod Tally
pub mod Home
pub mod Keep
pub mod Arrive
pub mod Distinct
pub mod Restore
pub mod Undo
pub mod Drew
pub mod RoundTrip
use ikiot_be.Prelude.{
  ℕ, ◌+◌, ◌-◌, ◌≡◌, Bool, true, false, ◌&&◌, Option, none, some, List, [], ◌∷◌, map, filter, find?,
  any, if◌then◌else◌, leb, ◌==◌, Result, ok, err, ◌>>=◌, ◌>>◌,
}
use ikiot_be.Prelude.Int.{ℤ, pos, neg, ◌-ℤ◌, ltb_ℤ, pos_part, neg_part}
use ikiot_be.Inventory.Allocation.{LotSlice, DrawnLot, plan_return, running_balances}
use ikiot_be.Inventory.Tables.{
  StockKey, Inventory, InventoryLot, InventoryTransaction, LotSource, RefType, ref_code, LedgerRef,
  is_sale_reversal, Db, Outcome, inventory_lot_shortage, record_not_found, lot_quantities_invalid,
}
use ikiot_be.Inventory.Rows.{update_where, assert_positive, find_row_or_throw, increment_stock}
use ikiot_be.Inventory.Rows.Ledger.{ledger_row, write_ledger, is_line, has_id, refresh_if}
use ikiot_be.Inventory.Stock.{LotOrigin, add_lot, open_lot}

-- The argument `drawnBy`.
pub data DrawnBy : Type 0 where
  document : RefType → ℕ → DrawnBy
  order_line : ℕ → DrawnBy

abbrev pub drawn_by_matches : DrawnBy → LedgerRef → Bool
drawn_by_matches (document t i) ledger =
    ref_code ledger.reference_type == ref_code t && ledger.reference_id == i
drawn_by_matches (order_line i) ledger = is_line i ledger.order_item_id

abbrev pub same_item : StockKey → StockKey → Bool
same_item a b = a.tenant_id == b.tenant_id && a.product_item_id == b.product_item_id

-- `matching`, for goods that come to `k`.
abbrev pub is_matching : StockKey → DrawnBy → InventoryTransaction → Bool
is_matching k drawn_by t = same_item t.key k && drawn_by_matches drawn_by t.ledger

-- The rows in the order in which they were written. The source orders them by creation time and, at
-- equal times, by identifier, which is random there.
abbrev pub outbound : Db → StockKey → DrawnBy → List InventoryTransaction
outbound db k drawn_by =
    filter (λ t. is_matching k drawn_by t && ltb_ℤ t.quantity (pos 0)) db.transactions

abbrev pub inbound : Db → StockKey → DrawnBy → List InventoryTransaction
inbound db k drawn_by =
    filter (λ t. is_matching k drawn_by t && ltb_ℤ (pos 0) t.quantity) db.transactions

-- `ledger` of the rows that the return writes.
abbrev pub return_ledger : DrawnBy → LedgerRef → LedgerRef
return_ledger (document t i) ledger = ledger
return_ledger (order_line i) ledger = record ledger { order_item_id = some i }

-- The Map `drawn`, in its order of insertion. An outbound quantity is below 0.
abbrev pub is_entry : ℕ → DrawnLot → Bool
is_entry i e = e.lot_id == i

unfoldable pub add_drawn : ℕ → ℕ → List DrawnLot → List DrawnLot
add_drawn i q [] = record { lot_id = i; drawn = q; returned = 0 } ∷ []
add_drawn i q (e ∷ es) =
    if is_entry i e then record e { drawn = e.drawn + q } ∷ es else e ∷ add_drawn i q es

unfoldable pub tally_outbound : List InventoryTransaction → List DrawnLot → List DrawnLot
tally_outbound [] es = es
tally_outbound (t ∷ ts) es = tally_outbound ts (add_drawn t.lot_id (neg_part t.quantity) es)

-- `row.lot.parentLotId`.
abbrev pub parent_of : ℕ → List InventoryLot → Option ℕ
parent_of i lots = elim (find? (has_id i) lots) [ none ↦ none | some lot ↦ lot.parent_lot_id ]

abbrev pub origin_of : ℕ → List InventoryLot → List DrawnLot → Option ℕ
origin_of i lots es = if any (is_entry i) es then some i else parent_of i lots

abbrev pub add_returned : ℕ → DrawnLot → DrawnLot
add_returned q e = record e { returned = e.returned + q }

unfoldable pub tally_inbound :
    List InventoryLot → List InventoryTransaction → List DrawnLot → List DrawnLot
tally_inbound lots [] es = es
tally_inbound lots (t ∷ ts) es = tally_inbound lots ts (elim (origin_of t.lot_id lots es) [
  | none ↦ es
  | some i ↦ update_where (is_entry i) (add_returned (pos_part t.quantity)) es
])

-- What the document has out of each lot.
unfoldable pub drawn_lots : Db → StockKey → DrawnBy → List DrawnLot
drawn_lots db k drawn_by =
    tally_inbound db.lots (inbound db k drawn_by) (tally_outbound (outbound db k drawn_by) [])

abbrev pub put_back : ℕ → InventoryLot → InventoryLot
put_back q lot = record lot { remaining_quantity = lot.remaining_quantity + q }

abbrev pub child_lot : InventoryLot → ℕ → ℕ → ℕ → InventoryLot
child_lot origin to q i = record origin {
  id = i;
  key = record origin.key { location_id = to };
  parent_lot_id = some origin.id;
  received_quantity = q;
  remaining_quantity = q;
}

-- The UPDATE of a lot, under the CHECK of the table.
abbrev pub overfills : ℕ → ℕ → InventoryLot → Bool
overfills i q lot = has_id i lot && leb (lot.received_quantity + 1) (lot.remaining_quantity + q)

unfoldable pub return_slice : Db → ℕ → InventoryLot → ℕ → Outcome (Db × ℕ)
return_slice db to origin q =
    if origin.key.location_id == to
    then (if any (overfills origin.id q) db.lots
        then err lot_quantities_invalid
        else ok
            (record db { lots = update_where (has_id origin.id) (put_back q) db.lots }, origin.id))
    else ok (add_lot db (child_lot origin to q db.next_id), db.next_id)

-- The loop over the slices, each beside its balance: the tables and the ledger rows. `before` are the
-- lots as they were read; the ledger keeps every lot that it names, so a slice has its lot there.
unfoldable pub return_slices :
    List InventoryLot
    → StockKey
    → LedgerRef
    → Db
    → List LotSlice
    → List ℤ
    → Outcome (Db × List InventoryTransaction)
return_slices before k ledger db (s ∷ slices) (balance ∷ balances) = do
  origin ← elim (find? (has_id s.lot_id) before) [ none ↦ err record_not_found | some lot ↦ ok lot ]
  (db₁, lot_id) ← return_slice db k.location_id origin s.quantity
  (db₂, rows) ← return_slices before k ledger db₁ slices balances
  ok (db₂, ledger_row k ledger lot_id (pos s.quantity) balance origin.unit_cost ∷ rows)
return_slices before k ledger db _ _ = ok (db, [])

-- What follows once the slices are planned.
unfoldable pub bring_back : Db → StockKey → ℕ → LedgerRef → List LotSlice → Outcome (Db × Inventory)
bring_back db k q ledger slices = do
  let db₁ = increment_stock db k q
  row ← find_row_or_throw k db₁.inventories
  let balances = running_balances (pos row.stock -ℤ pos q) (map (λ s. pos s.quantity) slices)
  (db₂, rows) ← return_slices db.lots k ledger db₁ slices balances
  ok (
    refresh_if (is_sale_reversal ledger.tx_type) ledger.order_item_id (write_ledger db₂ rows),
    row,
  )

-- `ifNeverDrawn: { sourceType }`.
abbrev pub never_drawn_origin : LotSource → LotOrigin
never_drawn_origin source = record {
  source_type = source;
  supplier_id = none;
  import_item_id = none;
  production_request_item_id = none;
  order_item_id = none;
}

unfoldable pub return_planned : Db → StockKey → ℕ → DrawnBy → LedgerRef → Outcome (Db × Inventory)
return_planned db k q drawn_by ledger = elim (plan_return (drawn_lots db k drawn_by) q) [
  | none ↦ err inventory_lot_shortage
  | some slices ↦ bring_back db k q ledger slices
]

abbrev pub is_empty {ℓ} : {A : Type ℓ} → List A → Bool
is_empty [] = true
is_empty (x ∷ xs) = false

unfoldable pub return_drawn :
    Db → StockKey → ℕ → DrawnBy → LedgerRef → Option LotSource → ℕ → Outcome (Db × Inventory)
return_drawn db k q drawn_by ledger_ref if_never_drawn now =
    let ledger = return_ledger drawn_by ledger_ref in
    assert_positive q >> elim if_never_drawn [
      | none ↦ return_planned db k q drawn_by ledger
      | some source ↦
          if is_empty (outbound db k drawn_by)
          then (do
            (db', row, lot) ← open_lot db k q none (never_drawn_origin source) none now ledger
            ok (db', row))
          else return_planned db k q drawn_by ledger
    ]
