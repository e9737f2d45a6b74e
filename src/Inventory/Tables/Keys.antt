-- ===== src/Inventory/Tables/Keys.antt =====
-- Which stock a row is about: the unique key of `inventories`.
use ikiot_be.Prelude.{ℕ, ◌≡◌, Bool, true, ◌&&◌, ◌==◌, arith}

pub record StockKey : Type 0 where
  pub tenant_id : ℕ
  pub product_item_id : ℕ
  pub location_id : ℕ

unfoldable pub key_eq : StockKey → StockKey → Bool
key_eq a b =
    a.tenant_id == b.tenant_id
    && a.product_item_id == b.product_item_id
    && a.location_id == b.location_id

pub key_eq_refl : (k : StockKey) → key_eq k k ≡ true
unfolding key_eq
key_eq_refl k = ground arith

pub key_eq_sym : (a b : StockKey) → key_eq a b ≡ key_eq b a
unfolding key_eq
key_eq_sym a b = ground arith

pub key_eq_sound : (a b : StockKey) → key_eq a b ≡ true → a ≡ b
unfolding key_eq
key_eq_sound a b h = ground arith
