-- ===== src/Billing.antt =====
-- The amounts of an invoice and the status of a subscription.
pub mod Invoices
pub mod Subscriptions
