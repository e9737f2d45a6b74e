-- ===== src/Movements/Tables.antt =====
-- The rows that src/modules/stock-movement-requests/stock-movement-requests.service.ts reads and
-- writes, with stock-movement.constants.ts. Prices are in hundredths of a dong. A row of the table
-- `stock_movement_requests` carries its details and its two ends, as its reads include them.
use Prim.Native.String.{String}
use ikiot_be.Prelude.{
  ℕ, Bool, true, false, Option, List, [], ◌∷◌, if◌then◌else◌, ◌==◌, Result, ok, err,
}
use ikiot_be.Inventory.Tables.{Db, InventoryError}
use ikiot_be.Inventory.Lines.{ProductItem}

pub data MovementType : Type 0 where
  import export return adjust : MovementType

pub data MovementStatus : Type 0 where
  draft pending opening closed in_transit received cancelled completed : MovementStatus

abbrev pub status_code : MovementStatus → ℕ
status_code draft = 0
status_code pending = 1
status_code opening = 2
status_code closed = 3
status_code in_transit = 4
status_code received = 5
status_code cancelled = 6
status_code completed = 7

-- `allowed.includes(status)`.
abbrev pub is_among : MovementStatus → List MovementStatus → Bool
is_among s [] = false
is_among s (t ∷ ts) = if status_code s == status_code t then true else is_among s ts

-- `FINAL_MOVEMENT_STATUSES`.
abbrev pub final_movement_statuses : List MovementStatus
final_movement_statuses = received ∷ completed ∷ cancelled ∷ []

-- `LocationType` of src/common/constants/location-type.ts.
pub data LocationType : Type 0 where
  branch warehouse : LocationType

pub record LocationEnd : Type 0 where
  pub id : ℕ
  pub location_type : LocationType

pub record MovementItem : Type 0 where
  pub id : ℕ
  pub product_item : ProductItem
  pub label : String
  pub quantity : ℕ
  pub import_price : Option ℕ
  pub received_quantity : Option ℕ

pub record Movement : Type 0 where
  pub id : ℕ
  pub tenant_id : ℕ
  pub movement_type : MovementType
  pub status : MovementStatus
  pub from_supplier_id : Option ℕ
  pub from_location : Option LocationEnd
  pub to_location : Option LocationEnd
  pub details : List MovementItem

pub record Supplier : Type 0 where
  pub id : ℕ
  pub tenant_id : ℕ
  pub credit_limit : ℕ
  pub outstanding_debt : ℕ

pub record Shop : Type 0 where
  pub db : Db
  pub movements : List Movement
  pub suppliers : List Supplier

pub data MovementError : Type 0 where
  movement_not_found location_denied status_invalid movement_empty : MovementError
  cancel_denied cancel_status_invalid received_quantity_required : MovementError
  received_quantity_exceeds receive_empty not_adjust counted_quantity_required : MovementError
  no_adjustment adjust_negative insufficient_on_shelf supplier_not_found : MovementError
  supplier_credit_limit_exceeded : MovementError
  -- `.id` of an end that the movement has not: a TypeError, which rolls back too.
  no_such_end : MovementError
  stock_error : InventoryError → MovementError

abbrev pub Outcome {ℓ} : Type ℓ → Type ℓ
Outcome A = Result MovementError A

-- An error of InventoryService goes through as it is.
abbrev pub of_stock {ℓ} : {A : Type ℓ} → Result InventoryError A → Outcome A
of_stock (err e) = err (stock_error e)
of_stock (ok a) = ok a
