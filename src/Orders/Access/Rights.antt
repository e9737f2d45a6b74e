-- ===== src/Orders/Access/Rights.antt =====
-- Who may do a step of an order.
use ikiot_be.Prelude.{
  ℕ, zero, suc, ◌+◌, ◌==◌, ◌≡◌, ◌≢◌, ◌↔◌, ◌⊎◌, inl, inr, refl, sym, ap, ◌∙◌, true, false, ◌&&◌,
  Option, none, some, List, [], ◌∷◌, Any, ok, arith, Bool-cases, Option-cases,
}
use ikiot_be.Orders.Access.{
  AuthUser, OrderStep, ship, pack, hand_over, change_driver, log_event, OrderStepAccess, owner,
  assignee, permission, assert_order_step_access, order_step_access, is_owner, assignee_allowed,
  is_id, posted_at, can, step_key, assignee_claim, claims, SystemRole, admin, tenant_owner,
  customer, staff, PermissionKey, profile_read, orders_pack, orders_ship, shipments_create,
  shipments_update, other_key, key_code, has_key, customer_permissions,
}

-- The right that a role needs for a step.
abbrev pub right_for : OrderStep → PermissionKey
right_for pack = orders_pack
right_for ship = orders_ship
right_for hand_over = shipments_create
right_for change_driver = shipments_update
right_for log_event = shipments_update

-- Where a user works: the branch, or the warehouse of a user with no branch.
abbrev pub WorksAt : AuthUser → ℕ → Type 0
WorksAt user location =
    (user.branch_id ≡ some location)
    ⊎ ((user.branch_id ≡ none) × (user.warehouse_id ≡ some location))

abbrev pub Owns : SystemRole → Type 0
Owns role = (role ≡ tenant_owner) ⊎ (role ≡ admin)

-- The ways to a step: as the shop's owner or the admin; as the person in charge of this order, unless
-- the step is to ship; as staff of the place, who were given the right.
abbrev pub Entitled : AuthUser → Option ℕ → OrderStep → ℕ → Type 0
Entitled user assignee_id step location =
    Owns user.system_role
    ⊎ ((step ≢ ship) × (assignee_id ≡ some user.user_id))
    ⊎ (WorksAt user location
        × (user.system_role ≡ staff)
        × Any (λ key. key ≡ right_for step) user.permissions)

decode : ℕ → PermissionKey
decode zero = profile_read
decode (suc zero) = orders_pack
decode (suc (suc zero)) = orders_ship
decode (suc (suc (suc zero))) = shipments_create
decode (suc (suc (suc (suc zero)))) = shipments_update
decode (suc (suc (suc (suc (suc n))))) = other_key n

decode-key_code : (key : PermissionKey) → decode (key_code key) ≡ key
unfolding decode
decode-key_code profile_read = refl
decode-key_code orders_pack = refl
decode-key_code orders_ship = refl
decode-key_code shipments_create = refl
decode-key_code shipments_update = refl
decode-key_code (other_key n) =
    let five : 5 + n ≡ suc (suc (suc (suc (suc n)))) = omega arith in ap decode five

key_code_injective : (a b : PermissionKey) → key_code a ≡ key_code b → a ≡ b
key_code_injective a b h = sym (decode-key_code a) ∙ ap decode h ∙ decode-key_code b

has_key_iff :
    (keys : List PermissionKey) (key : PermissionKey)
    → (has_key keys key ≡ true) ↔ Any (λ k. k ≡ key) keys
has_key_iff [] key = (λ h. absurd (ground arith), λ h. absurd h)
has_key_iff (k ∷ ks) key = elim (Bool-cases (key_code k == key_code key)) [
  | inl e ↦ (λ h. inl (key_code_injective k key (ground arith)), λ h. rw e refl)
  | inr e ↦
      let rest = has_key_iff ks key in
      (
        λ h. inr (rest.0 (rw e refl ∙ h)),
        λ h. elim h [
          | inl same ↦ let codes = ap key_code same in absurd (ground arith)
          | inr there ↦ rw e (rest.1 there)
        ],
      )
]

step_key-right_for : (step : OrderStep) → step_key step ≡ right_for step
step_key-right_for pack = refl
step_key-right_for ship = refl
step_key-right_for hand_over = refl
step_key-right_for change_driver = refl
step_key-right_for log_event = refl

is_owner_iff : (role : SystemRole) → (is_owner role ≡ true) ↔ Owns role
is_owner_iff tenant_owner = (λ h. inl refl, λ h. refl)
is_owner_iff admin = (λ h. inr refl, λ h. refl)
is_owner_iff customer = (λ h. absurd (ground arith), λ h. absurd (ground arith))
is_owner_iff staff = (λ h. absurd (ground arith), λ h. absurd (ground arith))

is_id_iff : (a : Option ℕ) (b : ℕ) → (is_id a b ≡ true) ↔ (a ≡ some b)
is_id_iff none b = (λ h. absurd (ground arith), λ h. absurd (ground arith))
is_id_iff (some a) b = (λ h. let same : a ≡ b = ground arith in ap some same, λ h. ground arith)

posted_at_iff :
    (user : AuthUser) (location : ℕ) → (posted_at user ≡ some location) ↔ WorksAt user location
posted_at_iff user location = elim (Option-cases user.branch_id) [
  | inl e ↦ (λ h. inr (e, rw e refl ∙ h), λ h. ground arith)
  | inr (b, e) ↦ (λ h. inl (ground arith), λ h. ground arith)
]

no_customer : (step : OrderStep) → ¬ (has_key customer_permissions (step_key step) ≡ true)
no_customer pack k = ground arith
no_customer ship k = ground arith
no_customer hand_over k = ground arith
no_customer change_driver k = ground arith
no_customer log_event k = ground arith

-- Among those who own nothing, only staff have any right, and it is one that they were given.
can_iff :
    (user : AuthUser) (step : OrderStep)
    → is_owner user.system_role ≡ false
    → (can user (step_key step) ≡ true)
      ↔ ((user.system_role ≡ staff) × Any (λ key. key ≡ right_for step) user.permissions)
unfolding can
can_iff user step h = by_role user.system_role refl
  where
    by_role :
        (role : SystemRole)
        → user.system_role ≡ role
        → (can user (step_key step) ≡ true)
          ↔ ((user.system_role ≡ staff) × Any (λ key. key ≡ right_for step) user.permissions)
    by_role admin e = absurd (ground arith)
    by_role tenant_owner e = absurd (ground arith)
    by_role customer e =
        (λ k. absurd (no_customer step (rw e refl ∙ k)), λ (f, _). absurd (ground arith))
    by_role staff e =
        let listed = has_key_iff user.permissions (right_for step) in
        let same = step_key-right_for step in
        (λ k. (e, listed.0 (rw (← same) (rw e refl ∙ k))), λ (_, g). rw (e, same) (listed.1 g))

not_ship : (step : OrderStep) → assignee_allowed step ≡ true → step ≢ ship
not_ship pack h = λ e. ground arith
not_ship hand_over h = λ e. ground arith
not_ship change_driver h = λ e. ground arith
not_ship log_event h = λ e. ground arith
not_ship ship h = λ e. ground arith

may_as_assignee : (step : OrderStep) → step ≢ ship → assignee_allowed step ≡ true
may_as_assignee pack h = refl
may_as_assignee hand_over h = refl
may_as_assignee change_driver h = refl
may_as_assignee log_event h = refl
may_as_assignee ship h = absurd (h refl)

assignee_iff :
    (step : OrderStep) (assignee_id : Option ℕ) (user_id : ℕ)
    → (assignee_allowed step && is_id assignee_id user_id ≡ true)
      ↔ ((step ≢ ship) × (assignee_id ≡ some user_id))
assignee_iff step assignee_id user_id =
    let same = is_id_iff assignee_id user_id in
    (
      λ h. (not_ship step (ground arith), same.0 (ground arith)),
      λ (f, e). rw (may_as_assignee step f, same.1 e) refl,
    )

staff_iff :
    (user : AuthUser) (step : OrderStep) (location : ℕ)
    → is_owner user.system_role ≡ false
    → (is_id (posted_at user) location && can user (step_key step) ≡ true) ↔ (
        WorksAt user location
        × (user.system_role ≡ staff)
        × Any (λ key. key ≡ right_for step) user.permissions)
staff_iff user step location h =
    let place = is_id_iff (posted_at user) location in
    let works = posted_at_iff user location in
    let rights = can_iff user step h in
    (
      λ k. (
        works.0 (place.0 (ground arith)),
        (rights.0 (ground arith)).0,
        (rights.0 (ground arith)).1,
      ),
      λ (w, s, r). rw (place.1 (works.1 w), rights.1 (s, r)) refl,
    )

-- A step is granted exactly to: the shop's owner and the admin; the person in charge of the order, for
-- every step but `ship`; and staff who work at the order's place (their branch, else their warehouse)
-- and have the step's key, which is ORDERS_PACK, ORDERS_SHIP, SHIPMENTS_CREATE to hand over, and
-- SHIPMENTS_UPDATE to change the driver or log an event. A customer who is not in charge is refused.
pub assert_order_step_access_iff :
    (user : AuthUser) (assignee_id : Option ℕ) (step : OrderStep) (location : ℕ)
    → ((access : OrderStepAccess) × (assert_order_step_access user assignee_id step location
          ≡ ok access))
      ↔ Entitled user assignee_id step location
unfolding assert_order_step_access order_step_access
assert_order_step_access_iff user assignee_id step location =
    let owns = is_owner_iff user.system_role in
    let in_charge = assignee_iff step assignee_id user.user_id in
    elim (Bool-cases (is_owner user.system_role)) [
      | inl e ↦ (λ h. inl (owns.0 e), λ h. (owner, ground arith))
      | inr e ↦ elim (Bool-cases (assignee_allowed step && is_id assignee_id user.user_id)) [
        | inl f ↦ (λ h. inr (inl (in_charge.0 f)), λ h. (assignee, ground arith))
        | inr f ↦
            let staffed = staff_iff user step location e in
            elim (Bool-cases (is_id (posted_at user) location && can user (step_key step))) [
              | inl g ↦ (λ h. inr (inr (staffed.0 g)), λ h. (permission, ground arith))
              | inr g ↦ (
                λ h. absurd (ground (arith, h.1)),
                λ h. elim h [
                  | inl o ↦ absurd (let yes_ = owns.1 o in ground arith)
                  | inr (inl c) ↦ absurd (let yes_ = in_charge.1 c in ground arith)
                  | inr (inr s) ↦ absurd (let yes_ = staffed.1 s in ground arith)
                ],
              )
            ]
      ]
    ]

-- The write of a granted step takes the order that it was granted for. Granted by the right of the
-- person in charge, it is no `ship` step, and takes the order only while that person is in charge.
pub access_claims :
    (user : AuthUser) (assignee_id now_assigned : Option ℕ) (step : OrderStep) (location : ℕ)
    (access : OrderStepAccess)
    → assert_order_step_access user assignee_id step location ≡ ok access
    → (claims (assignee_claim access user) assignee_id ≡ true)
      × ((access ≢ assignee)
          ⊎ ((step ≢ ship)
              × (claims (assignee_claim access user) now_assigned
                  ≡ is_id now_assigned user.user_id)))
unfolding assert_order_step_access order_step_access assignee_claim
access_claims user assignee_id now_assigned step location access h =
    elim (Bool-cases (is_owner user.system_role)) [
      | inl e ↦ let same : access ≡ owner = ground arith in rw same (refl, inl (λ k. ground arith))
      | inr e ↦ elim (Bool-cases (assignee_allowed step && is_id assignee_id user.user_id)) [
        | inl f ↦
            let same : access ≡ assignee = ground arith in
            rw same (ground arith, inr (not_ship step (ground arith), refl))
        | inr f ↦ elim (Bool-cases (is_id (posted_at user) location && can user (step_key step))) [
          | inl g ↦
              let same : access ≡ permission = ground arith in
              rw same (refl, inl (λ k. ground arith))
          | inr g ↦ absurd (ground arith)
        ]
      ]
    ]
