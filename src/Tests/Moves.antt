-- ===== src/Tests/Moves.antt =====
-- Runs of src/modules/inventories and src/modules/stock-movement-requests: goods that are packed,
-- shipped and brought back, and a transfer between two locations.
use ikiot_be.Prelude.{
  ℕ, ◌+◌, ◌≤◌, ◌≡◌, refl, none, some, List, [], ◌∷◌, All, ok, err, sort_by, unique,
}
use ikiot_be.Inventory.Tables.{StockKey, TxType, RefType, LedgerRef, Db, Inventory}
use ikiot_be.Inventory.Tables.Keys.{key_eq}
use ikiot_be.Prelude.Int.{neg, ◌-ℤ◌}
use ikiot_be.Inventory.Consistent.{stock_at, locked_at}
use ikiot_be.Inventory.Rows.{increment_stock, guarded_update, update_where}
use ikiot_be.Inventory.Rows.Ledger.{write_ledger, draw_lots, write_draw, take_from_lots, draw_rows}
use ikiot_be.Inventory.Allocation.{
  plan_draw, take_slices, draw_queue, running_balances, plan_return,
}
use ikiot_be.Inventory.Stock.{open_lot, deduct_stock, lock_lines, lock_stock, ship_locked_stock}
use ikiot_be.Inventory.Return.{
  DrawnBy, document, return_drawn, return_planned, bring_back, return_slices, return_slice,
  drawn_lots, tally_outbound, tally_inbound, add_drawn,
}
use ikiot_be.Inventory.Return.Arrive.{Arrives, open_lot-Arrives, return_drawn-IsSound}
use ikiot_be.Inventory.Return.RoundTrip.{ship-return_drawn}
use ikiot_be.Inventory.History.{ShelfEvent, Step, Reach}
use ikiot_be.Inventory.History.Sound.{IsSound}
use ikiot_be.Inventory.History.Keep.{lock_stock-IsSound, ship_locked_stock-IsSound}
use ikiot_be.Inventory.History.Refines.{count_events, counters_at, Reach-IsSound, Reach-refines}
use ikiot_be.Inventory.Lines.{product}
use ikiot_be.Orders.Access.{tenant_owner}
use ikiot_be.Movements.Tables.{
  MovementType, MovementStatus, draft, closed, received, branch, warehouse, MovementItem, Movement,
  Supplier, Shop, MovementError, Outcome,
}
use ikiot_be.Movements.Access.{ShopUser, can_act_at}
use ikiot_be.Movements.Lines.{
  ReceivedLine, received_or_zero, received_of, send_lines, receive_lines, receive_line,
  bring_lines_back,
}
use ikiot_be.Movements.Actions.{
  find_movement_or_throw, ship_movement, receive_movement, cancel_movement, charge_import,
}
use ikiot_be.Movements.Life.{Accepted, act, ship_it, receive_it, cancel_it}
use ikiot_be.Movements.Life.Every.{act-follows}
use ikiot_be.Movements.Life.Goods.{final-act, ship-cancel_restores}
use ikiot_be.Movements.Life.Transfer.{ship-receive_accounts, sent_to, received_at}
use ikiot_be.Tests.Stock.{
  empty_shop, empty_shop-IsConsistent, key, ledger, origin, tables_of, row_of, opened, receipt,
  stocked_shop, lines, packing, locked_rows, packed_shop, sale,
}

empty_shop-IsSound : IsSound empty_shop
empty_shop-IsSound = record {
  consistent = empty_shop-IsConsistent;
  traced = tt;
  indexed = record { ids_unique = tt; ids_given = tt };
}

stocked_shop-IsSound : IsSound stocked_shop
unfolding open_lot increment_stock key_eq
stocked_shop-IsSound =
    (open_lot-Arrives empty_shop stocked_shop key 5 (some 700) origin none 10 (ledger TxType.import)
      (row_of (opened receipt)) 2 empty_shop-IsSound refl).0

packed_shop-IsSound : IsSound packed_shop
unfolding lock_stock open_lot increment_stock key_eq lock_lines write_ledger update_where
packed_shop-IsSound =
    lock_stock-IsSound lines stocked_shop packed_shop (locked_rows packing) stocked_shop-IsSound
      refl

abbrev trip_ledger : LedgerRef
trip_ledger = record (ledger TxType.sale) { reference_type = RefType.fulfillment; reference_id = 7 }

abbrev trip : DrawnBy
trip = document RefType.fulfillment 7

abbrev away : Db
away = tables_of (ship_locked_stock packed_shop key 2 trip_ledger)

abbrev away_row : Inventory
away_row = row_of (ship_locked_stock packed_shop key 2 trip_ledger)

ship-return_drawn_example :
    (db₂ : Db) × (row₂ : Inventory) × (return_drawn away key 2 trip
        (ledger TxType.sale_reversal)
        none
        20
      ≡ ok (db₂, row₂))
    × IsSound db₂
    × (db₂.lots ≡ packed_shop.lots)
    × ((j : StockKey) → stock_at j db₂.inventories ≡ stock_at j packed_shop.inventories)
unfolding ship_locked_stock lock_stock open_lot increment_stock key_eq guarded_update lock_lines
    write_ledger update_where draw_lots plan_draw take_slices draw_queue sort_by
ship-return_drawn_example =
    ship-return_drawn packed_shop away key 2 trip trip_ledger (ledger TxType.sale_reversal) away_row
      20 packed_shop-IsSound (refl, tt) refl refl

away-IsSound : IsSound away
unfolding ship_locked_stock lock_stock open_lot increment_stock key_eq guarded_update lock_lines
    write_ledger update_where draw_lots plan_draw take_slices draw_queue sort_by
away-IsSound =
    ship_locked_stock-IsSound packed_shop away key 2 trip_ledger away_row packed_shop-IsSound refl

-- The goods come back to another location of the shop.
abbrev far_key : StockKey
far_key = record key { location_id = 4 }

abbrev back : Db
back = tables_of (return_drawn away far_key 1 trip (ledger TxType.sale_reversal) none 20)

abbrev back_row : Inventory
back_row = row_of (return_drawn away far_key 1 trip (ledger TxType.sale_reversal) none 20)

return_drawn-IsSound_example : Arrives away back far_key 1
unfolding ship_locked_stock lock_stock open_lot increment_stock key_eq guarded_update lock_lines
    write_ledger update_where draw_lots plan_draw take_slices draw_queue sort_by neg ◌-ℤ◌
    return_drawn return_planned bring_back return_slices return_slice drawn_lots tally_outbound
    tally_inbound add_drawn plan_return running_balances write_draw take_from_lots draw_rows
return_drawn-IsSound_example =
    return_drawn-IsSound away back far_key 1 trip (ledger TxType.sale_reversal) none 20 back_row
      away-IsSound refl

abbrev day : List ShelfEvent
day = ShelfEvent.arrive key 5 ∷ ShelfEvent.take key 2 ∷ []

day_reached : Reach empty_shop day (tables_of sale)
unfolding deduct_stock open_lot increment_stock key_eq guarded_update write_ledger update_where
    draw_lots plan_draw take_slices draw_queue sort_by
day_reached =
    Reach.then {db' = stocked_shop}
      (Step.opened key 5 (some 700) origin none 10 (ledger TxType.import) (row_of (opened receipt))
        2 refl)
      (Reach.then {db' = tables_of sale}
        (Step.deducted key 2 "table" (ledger TxType.sale) (row_of sale) refl) Reach.here)

Reach-IsSound_example : IsSound (tables_of sale)
Reach-IsSound_example = Reach-IsSound empty_shop (tables_of sale) day empty_shop-IsSound day_reached

Reach-refines_example :
    count_events key day (counters_at key empty_shop) ≡ some (counters_at key (tables_of sale))
Reach-refines_example =
    Reach-refines key empty_shop (tables_of sale) day empty_shop-IsSound day_reached

-- A transfer of two pieces from location 9 to location 4.
abbrev owner : ShopUser
owner = record {
  user_id = 8;
  tenant_id = 1;
  system_role = tenant_owner;
  branch_id = none;
  warehouse_id = none;
  shift_supervision = none;
}

abbrev two_tables : MovementItem
two_tables = record {
  id = 31;
  product_item = record { id = 3; tenant_id = 1; item_type = product };
  label = "table";
  quantity = 2;
  import_price = none;
  received_quantity = none;
}

abbrev transfer : MovementStatus → Movement
transfer status = record {
  id = 50;
  tenant_id = 1;
  movement_type = MovementType.export;
  status = status;
  from_supplier_id = none;
  from_location = some (record { id = 9; location_type = warehouse });
  to_location = some (record { id = 4; location_type = branch });
  details = two_tables ∷ [];
}

abbrev shop : MovementStatus → Shop
shop status = record { db = stocked_shop; movements = transfer status ∷ []; suppliers = [] }

abbrev shop_of : Outcome Shop → Shop
shop_of (ok s) = s
shop_of (err e) = shop draft

abbrev on_its_way : Shop
on_its_way = shop_of (act owner (shop closed) 50 0 ship_it)

act-follows_example : IsSound on_its_way.db × Accepted owner (shop closed) on_its_way 50 ship_it
unfolding act ship_movement find_movement_or_throw can_act_at send_lines deduct_stock open_lot
    increment_stock key_eq guarded_update write_ledger update_where draw_lots plan_draw take_slices
    draw_queue sort_by
act-follows_example =
    act-follows owner (shop closed) on_its_way 50 0 ship_it stocked_shop-IsSound refl

final-act_example :
    (refusal : MovementError) × (act owner (shop received) 50 0 ship_it ≡ err refusal)
final-act_example = final-act owner (shop received) 50 0 ship_it (transfer received) refl refl

abbrev report : List ReceivedLine
report = record { product_item_id = 3; received_quantity = 1 } ∷ []

abbrev arrived_shop : Shop
arrived_shop = shop_of (act owner on_its_way 50 20 (receive_it report))

ship-receive_accounts_example :
    IsSound arrived_shop.db
    × (stock_at key arrived_shop.db.inventories
          + sent_to key 1 (some (record { id = 9; location_type = warehouse })) (two_tables ∷ [])
        ≡ stock_at key stocked_shop.inventories
          + received_at key 1
              (some (record { id = 4; location_type = branch }))
              report
              (two_tables ∷ []))
    × (locked_at key arrived_shop.db.inventories ≡ locked_at key stocked_shop.inventories)
    × All (λ line. received_or_zero report line ≤ line.quantity) (two_tables ∷ [])
unfolding act ship_movement receive_movement find_movement_or_throw can_act_at send_lines
    deduct_stock open_lot increment_stock key_eq guarded_update write_ledger update_where draw_lots
    plan_draw take_slices draw_queue sort_by neg ◌-ℤ◌ return_drawn return_planned bring_back
    return_slices return_slice drawn_lots tally_outbound tally_inbound add_drawn plan_return
    running_balances write_draw take_from_lots draw_rows received_of receive_lines receive_line
    charge_import unique
ship-receive_accounts_example =
    ship-receive_accounts owner owner (shop closed) on_its_way arrived_shop 50 0 20 report
      (transfer closed) key refl stocked_shop-IsSound refl refl refl refl

abbrev called_off : Shop
called_off = shop_of (act owner on_its_way 50 20 cancel_it)

ship-cancel_restores_example :
    IsSound called_off.db
    × (stock_at key called_off.db.inventories ≡ stock_at key stocked_shop.inventories)
    × (locked_at key called_off.db.inventories ≡ locked_at key stocked_shop.inventories)
unfolding act ship_movement cancel_movement find_movement_or_throw can_act_at send_lines
    deduct_stock open_lot increment_stock key_eq guarded_update write_ledger update_where draw_lots
    plan_draw take_slices draw_queue sort_by neg ◌-ℤ◌ return_drawn return_planned bring_back
    return_slices return_slice drawn_lots tally_outbound tally_inbound add_drawn plan_return
    running_balances write_draw take_from_lots draw_rows bring_lines_back
ship-cancel_restores_example =
    ship-cancel_restores owner owner (shop closed) on_its_way called_off 50 0 20 key refl
      stocked_shop-IsSound refl refl

abbrev weaver : Supplier
weaver = record { id = 6; tenant_id = 1; credit_limit = 1000; outstanding_debt = 300 }

abbrev weavers : List Supplier
weavers = weaver ∷ []

abbrev bill : ℕ
bill = 500
