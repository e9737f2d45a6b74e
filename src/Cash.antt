-- ===== src/Cash.antt =====
-- src/modules/cash-drawer-sessions: the cash drawer of a business day.
pub mod Reconcile
