-- ===== src/Orders/Access.antt =====
-- src/modules/orders/order-handler.ts, with src/common/utils/permission.ts. A permission key of none of
-- the steps is `other_key`.
pub mod Rights
use ikiot_be.Prelude.{
  ℕ, ◌+◌, Bool, true, false, not, ◌&&◌, Option, none, some, List, [], ◌∷◌, map, includes,
  if◌then◌else◌, ◌==◌, Result, ok, err,
}

pub data SystemRole : Type 0 where
  admin tenant_owner customer staff : SystemRole

pub data PermissionKey : Type 0 where
  profile_read orders_pack orders_ship shipments_create shipments_update : PermissionKey
  other_key : ℕ → PermissionKey

abbrev pub key_code : PermissionKey → ℕ
key_code profile_read = 0
key_code orders_pack = 1
key_code orders_ship = 2
key_code shipments_create = 3
key_code shipments_update = 4
key_code (other_key n) = 5 + n

pub record AuthUser : Type 0 where
  pub user_id : ℕ
  pub system_role : SystemRole
  pub branch_id : Option ℕ
  pub warehouse_id : Option ℕ
  pub permissions : List PermissionKey

abbrev pub has_key : List PermissionKey → PermissionKey → Bool
has_key keys key = includes (map key_code keys) (key_code key)

abbrev pub customer_permissions : List PermissionKey
customer_permissions = profile_read ∷ []

unfoldable pub can : AuthUser → PermissionKey → Bool
can user key = elim user.system_role [
  | admin ↦ true
  | tenant_owner ↦ true
  | customer ↦ has_key customer_permissions key
  | staff ↦ has_key user.permissions key
]

-- `OrderStepPermission`.
pub data OrderStep : Type 0 where
  pack hand_over change_driver log_event ship : OrderStep

abbrev pub assignee_may_ship : Bool
assignee_may_ship = false

abbrev pub step_key : OrderStep → PermissionKey
step_key pack = orders_pack
step_key hand_over = shipments_create
step_key change_driver = shipments_update
step_key log_event = shipments_update
step_key ship = orders_ship

abbrev pub assignee_allowed : OrderStep → Bool
assignee_allowed pack = true
assignee_allowed hand_over = true
assignee_allowed change_driver = true
assignee_allowed log_event = true
assignee_allowed ship = assignee_may_ship

pub data OrderStepAccess : Type 0 where
  owner assignee permission : OrderStepAccess

pub data AccessError : Type 0 where
  order_step_denied : AccessError

abbrev pub is_owner : SystemRole → Bool
is_owner tenant_owner = true
is_owner admin = true
is_owner customer = false
is_owner staff = false

-- `a === b` of an identifier that may be null with one that is not.
abbrev pub is_id : Option ℕ → ℕ → Bool
is_id none b = false
is_id (some a) b = a == b

-- `user.branchId ?? user.warehouseId`.
abbrev pub posted_at : AuthUser → Option ℕ
posted_at user = elim user.branch_id [ none ↦ user.warehouse_id | some b ↦ some b ]

unfoldable pub order_step_access : AuthUser → Option ℕ → OrderStep → ℕ → Option OrderStepAccess
unfolding can
order_step_access user assignee_id step location =
    if is_owner user.system_role
    then some owner
    else (if assignee_allowed step && is_id assignee_id user.user_id
        then some assignee
        else (if is_id (posted_at user) location && can user (step_key step)
            then some permission
            else none))

unfoldable pub assert_order_step_access :
    AuthUser → Option ℕ → OrderStep → ℕ → Result AccessError OrderStepAccess
unfolding order_step_access
assert_order_step_access user assignee_id step location =
    elim (order_step_access user assignee_id step location) [
      | none ↦ err order_step_denied
      | some access ↦ ok access
    ]

-- The clause of the claiming write: through the assignee's right, the order must still be theirs.
unfoldable pub assignee_claim : OrderStepAccess → AuthUser → Option ℕ
assignee_claim assignee user = some user.user_id
assignee_claim owner user = none
assignee_claim permission user = none

-- `updateMany({ where: { ..., ...assigneeClaim } })`: does the claim take the order of this assignee?
abbrev pub claims : Option ℕ → Option ℕ → Bool
claims none assignee_id = true
claims (some user) assignee_id = is_id assignee_id user
