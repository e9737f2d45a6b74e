-- ===== src/Orders.antt =====
-- src/modules/orders: the journey of an order and the pure rules of its steps.
pub mod Journey
pub mod Pricing
pub mod Payments
pub mod Pickup
pub mod Combo
pub mod StockCheck
pub mod Access
