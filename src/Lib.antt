-- ===== src/Lib.antt =====
-- A model of the back end of a shop with branches, warehouses and workshops: what its rules compute,
-- and what they keep true. The program is a NestJS service; its rules are pure functions or methods
-- that read and write tables through Prisma.
--
-- Parts, each with the code it models (paths from the repository's root):
--   Inventory.Allocation: src/modules/inventories/lot-allocation.ts, the plans of a draw and a return
--     over the lots of a product.
--   Inventory.Tables, Rows, Stock: src/modules/inventories/inventories.service.ts. The tables are one
--     record, `Db`; openLot, deductStock, lockStock, shipLockedStock and releaseLockedStock are
--     functions from tables to new tables or an error. A guarded `updateMany` is `guarded_update`: the
--     condition is tested on the row that is updated. An error leaves the tables of the caller, as the
--     transaction is rolled back. Inventory.Consistent states the invariant of the tables.
--   Inventory.Return: returnDrawn of the same file: the map of what a document has out of each lot, the
--     plan, and the slices that go back to their lot or to a child of it.
--   Inventory.Lines: its updateMinStock, addProductToLocation and removeProductFromLocation, with
--     src/modules/inventories/stockable.ts and resolveLocations of src/common/dto/location-ref.dto.ts.
--   Inventory.History: the nine operations above as steps between tables, in any order, and the two
--     counters of a key that they implement.
--   Movements: src/modules/stock-movement-requests/stock-movement-requests.service.ts. Its actions take
--     a `Shop` (the tables of Inventory, the movements and the suppliers) to a new one or an error, and
--     call the operations of Inventory line by line. Movements.Access is
--     src/common/utils/location-access.ts; the charge of an import is that of
--     src/modules/suppliers/suppliers.service.ts and credit-warning.ts. Movements.Reach relates each
--     loop to a history of Inventory.History.
--   Inventory.Shelf: src/modules/inventories/low-stock.ts.
--   Promotions.Engine: src/modules/promotions/pricing-engine.ts, whole.
--   Cash.Reconcile: src/modules/cash-drawer-sessions/cash-reconciliation.ts, whole.
--   Orders.Journey: src/modules/orders/order-status.ts and src/common/constants/order-status.ts.
--   Orders.Pricing: src/modules/orders/order-pricing.service.ts, with the cart that
--     src/modules/promotions/promotions.service.ts hands to the engine: it calls Promotions.Engine.
--   Orders.Payments: the refund rules of src/modules/orders/order-cancel.service.ts.
--   Orders.Pickup: src/modules/orders/order-pickup.rules.ts.
--   Orders.Combo: src/modules/orders/combo-expansion.ts, buildOrderItemRows of
--     src/modules/orders/order-combo.ts, and src/modules/products/combo-availability.ts.
--   Orders.StockCheck: src/modules/orders/stock-check.ts, on the rows of Inventory.Tables.
--   Orders.Access: src/modules/orders/order-handler.ts with src/common/utils/permission.ts.
--   Production: src/modules/production-requests/production-request-rules.ts.
--   Billing: src/modules/invoices/invoice-math.ts and src/modules/subscriptions/subscription-status.ts.
--   Prelude: shared lists, results, signed numbers, rounding and sorting. Tests: runs at inputs.
--
-- Identifiers, times and texts that are only compared are natural numbers; times are milliseconds.
-- Amounts are hundredths of a dong, which the Decimal(14,2) columns hold exactly, and `Math.round` is
-- the rounding of an exact quotient where the program has floats. A column with a CHECK against
-- numbers below 0 is a natural number; a difference that the program lets fall below 0 is a signed
-- number, or its guard is written before it. A throw is an `err` of the part's own error type.
--
-- Loops are recursion over lists. The walk of a combo's graph takes fuel, one for each level of
-- MAX_COMBO_DEPTH and one more: a path that is longer is refused before the fuel is used up.
--
-- Not modelled: HTTP, validation and authentication, which are the framework's; queries that only
-- read a page; notifications; the texts of codes and messages; the services that compose the rules
-- with further tables (orders, shipments, returns, statistics); of the stock movements their
-- creation and the change of their lines; the concurrency of two transactions, beyond each guarded
-- update's test of the row that it changes and the order of whole operations in Inventory.History.
pub mod Prelude
pub mod Inventory
pub mod Movements
pub mod Promotions
pub mod Cash
pub mod Orders
pub mod Production
pub mod Billing
pub mod Tests
