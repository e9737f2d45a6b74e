-- ===== src/Inventory.antt =====
-- src/modules/inventories: stock, lots and the ledger.
pub mod Allocation
pub mod Tables
pub mod Shelf
pub mod Rows
pub mod Consistent
pub mod Stock
pub mod Return
pub mod Lines
pub mod History
