-- ===== src/Promotions.antt =====
-- src/modules/promotions: the discount engine of the till and of the cart preview.
pub mod Engine
