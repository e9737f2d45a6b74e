-- ===== src/Inventory/Tables.antt =====
-- The tables that src/modules/inventories/inventories.service.ts reads and writes, with the
-- vocabulary of src/common/constants/inventory-ledger.ts. A table is the list of its rows in the
-- order of creation. Identifiers are numbers, `next_id` is the one that the database gives next.
-- Quantities are INTEGER columns with CHECKs that keep them from 0 up; costs are in hundredths.
pub mod Keys
pub use Keys.*
use Prim.Native.String.{String}
use ikiot_be.Prelude.{
  ℕ, ◌-◌, ◌≡◌, Bool, true, false, ◌&&◌, Option, none, some, List, [], ◌∷◌, if◌then◌else◌, ◌==◌,
  Result,
}
use ikiot_be.Prelude.Int.{ℤ}

pub data TxType : Type 0 where
  import transfer_out transfer_in transfer_loss adjust sale sale_reversal : TxType
  return_good return_damaged defect opening : TxType

abbrev pub is_sale : TxType → Bool
is_sale TxType.sale = true
is_sale _ = false

abbrev pub is_sale_reversal : TxType → Bool
is_sale_reversal TxType.sale_reversal = true
is_sale_reversal _ = false

pub data RefType : Type 0 where
  stock_movement fulfillment order production_request order_return inventory : RefType

abbrev pub ref_code : RefType → ℕ
ref_code stock_movement = 0
ref_code fulfillment = 1
ref_code order = 2
ref_code production_request = 3
ref_code order_return = 4
ref_code inventory = 5

pub data LotSource : Type 0 where
  supplier workshop adjustment opening : LotSource

pub record Inventory : Type 0 where
  pub id : ℕ
  pub key : StockKey
  pub stock : ℕ
  pub locked_stock : ℕ
  pub min_stock : ℕ

pub record InventoryLot : Type 0 where
  pub id : ℕ
  pub key : StockKey
  pub source_type : LotSource
  pub supplier_id : Option ℕ
  pub import_item_id : Option ℕ
  pub production_request_item_id : Option ℕ
  pub order_item_id : Option ℕ
  pub parent_lot_id : Option ℕ
  pub unit_cost : ℕ
  pub received_quantity : ℕ
  pub remaining_quantity : ℕ
  pub received_at : ℕ

pub record LedgerRef : Type 0 where
  pub tx_type : TxType
  pub reference_type : RefType
  pub reference_id : ℕ
  pub created_by_id : Option ℕ
  pub note : Option String
  pub order_item_id : Option ℕ

pub record InventoryTransaction : Type 0 where
  pub key : StockKey
  pub ledger : LedgerRef
  pub lot_id : ℕ
  pub quantity : ℤ
  pub balance_after : ℤ
  pub unit_cost : ℕ

pub record Db : Type 0 where
  pub inventories : List Inventory
  pub lots : List InventoryLot
  pub transactions : List InventoryTransaction
  pub next_id : ℕ
  -- `product_items.cost_price` and `order_items.unit_cost_price`.
  pub cost_price : ℕ → ℕ
  pub unit_cost_price : ℕ → Option ℤ

pub record ShortStockLine : Type 0 where
  pub label : String
  pub needed : ℕ
  pub on_shelf : ℕ

-- The codes that the service throws, with the numbers that a client reads.
pub data InventoryError : Type 0 where
  quantity_must_be_positive inventory_lock_mismatch inventory_lot_shortage : InventoryError
  inventory_not_found inventory_already_at_location product_item_not_found : InventoryError
  location_not_found item_holds_no_stock record_not_found : InventoryError
  -- The database refuses a statement that breaks the CHECK `inventory_lots_quantities_valid`.
  lot_quantities_invalid : InventoryError
  inventory_still_has_stock : ℕ → InventoryError
  insufficient_stock : List ShortStockLine → InventoryError

abbrev pub Outcome : Type 0 → Type 0
Outcome A = Result InventoryError A
