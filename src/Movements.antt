-- ===== src/Movements.antt =====
-- src/modules/stock-movement-requests: goods that move between suppliers and locations.
pub mod Tables
pub mod Access
pub mod Lines
pub mod Actions
pub mod Reach
pub mod Life
pub mod Debt
