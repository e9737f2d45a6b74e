-- ===== src/Movements/Access.antt =====
-- Who may act where: src/common/utils/location-access.ts, with `supervisesLocation` of
-- src/modules/working-schedules/shift-supervisor.service.ts.
use ikiot_be.Prelude.{ℕ, Bool, true, false, ◌||◌, Option, none, some, List, includes, ◌==◌}
use ikiot_be.Orders.Access.{SystemRole, admin, tenant_owner, customer, staff}
use ikiot_be.Movements.Tables.{LocationEnd, branch, warehouse}

pub record ShiftSupervisorAccess : Type 0 where
  pub branch_ids : List ℕ
  pub warehouse_ids : List ℕ

-- The account of a shop; `tenantOf` refuses an account without one.
pub record ShopUser : Type 0 where
  pub user_id : ℕ
  pub tenant_id : ℕ
  pub system_role : SystemRole
  pub branch_id : Option ℕ
  pub warehouse_id : Option ℕ
  pub shift_supervision : Option ShiftSupervisorAccess

-- `postingOf` is null: the account may act anywhere in its shop.
abbrev pub acts_anywhere : ShopUser → Bool
acts_anywhere user = elim user.system_role [
  | admin ↦ true
  | tenant_owner ↦ true
  | customer ↦ false
  | staff ↦ false
]

-- `user.branchId ?? user.warehouseId`.
abbrev pub posting_of : ShopUser → Option ℕ
posting_of user = elim user.branch_id [ none ↦ user.warehouse_id | some i ↦ some i ]

-- `supervisesLocation(access, columnsOfLocation(location))`.
unfoldable pub supervises_location : Option ShiftSupervisorAccess → LocationEnd → Bool
supervises_location none location = false
supervises_location (some access) location = elim location.location_type [
  | branch ↦ includes access.branch_ids location.id
  | warehouse ↦ includes access.warehouse_ids location.id
]

unfoldable pub can_act_at : ShopUser → Option LocationEnd → Bool
can_act_at user none = acts_anywhere user
can_act_at user (some location) =
    acts_anywhere user
    || supervises_location user.shift_supervision location
    || elim (posting_of user) [ none ↦ false | some i ↦ i == location.id ]
