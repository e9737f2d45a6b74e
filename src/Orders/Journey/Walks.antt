-- ===== src/Orders/Journey/Walks.antt =====
-- What the journey's table allows, over whole sequences of steps.
use ikiot_be.Prelude.{
  ℕ, ◌+◌, ◌≤◌, ◌≡◌, refl, Bool, true, false, not, ◌||◌, List, [], ◌∷◌, length, all, any, ok, ltb,
  arith, suc, ap, ◌≢◌, inl, inr, Bool-cases,
}
use mathlib.Core.Path.{subst}
use ikiot_be.Orders.Journey.{
  OrderStatus, pending_confirmation, confirmed, packed, picked_up, shipping, received, completed,
  cancelled, returned, pending, draft, ready_to_pack, delivered, order_statuses, among,
  final_order_statuses, can_transition, assert_transition, follow,
}

-- A test that holds of the listed statuses holds of every status.
every_status :
    (P : OrderStatus → Bool) → all P order_statuses ≡ true → (s : OrderStatus) → P s ≡ true
every_status P h pending_confirmation = ground arith
every_status P h confirmed = ground arith
every_status P h packed = ground arith
every_status P h picked_up = ground arith
every_status P h shipping = ground arith
every_status P h received = ground arith
every_status P h completed = ground arith
every_status P h cancelled = ground arith
every_status P h returned = ground arith
every_status P h pending = ground arith
every_status P h draft = ground arith
every_status P h ready_to_pack = ground arith
every_status P h delivered = ground arith

modus_ponens : (a b : Bool) → not a || b ≡ true → a ≡ true → b ≡ true
modus_ponens true b h e = h
modus_ponens false b h e = cc

or-inl : (a b : Bool) → a ≡ true → a || b ≡ true
or-inl true b h = refl
or-inl false b h = cc

or-inr : (a b : Bool) → b ≡ true → a || b ≡ true
or-inr true b h = refl
or-inr false b h = h

or-not : (a b : Bool) → a || b ≡ true → b ≡ false → a ≡ true
or-not true b h e = refl
or-not false b h e = cc

-- A test of a pair of statuses that holds wherever the table allows the step.
every_step :
    (P : OrderStatus → OrderStatus → Bool)
    → all (λ s. all (λ t. not (can_transition s t) || P s t) order_statuses) order_statuses ≡ true
    → (s t : OrderStatus) → can_transition s t ≡ true
    → P s t ≡ true
every_step P h s t allowed =
    let row = every_status (λ u. all (λ v. not (can_transition u v) || P u v) order_statuses) h s in
    let cell = every_status (λ v. not (can_transition s v) || P s v) row t in
    modus_ponens (can_transition s t) (P s t) cell allowed

-- How many steps an order can still make.
abbrev pub steps_left : OrderStatus → ℕ
steps_left pending_confirmation = 7
steps_left confirmed = 6
steps_left packed = 5
steps_left picked_up = 4
steps_left shipping = 3
steps_left received = 2
steps_left completed = 1
steps_left cancelled = 0
steps_left returned = 0
steps_left pending = 0
steps_left draft = 0
steps_left ready_to_pack = 0
steps_left delivered = 0

-- The statuses of the journey table at which the goods of a delivery or pickup order have been handed
-- over. A counter order is not on that table: its goods leave the stock when it is created, as
-- `PENDING`, and its steps are those of VALID_ORDER_TRANSITIONS.
abbrev pub has_left : OrderStatus → Bool
has_left s = among (shipping ∷ received ∷ completed ∷ returned ∷ []) s

-- The goods are locked on the shelf.
abbrev pub is_locked : OrderStatus → Bool
is_locked s = among (packed ∷ picked_up ∷ []) s

abbrev pub is_final : OrderStatus → Bool
is_final s = among final_order_statuses s

absurd_left : ¬ (has_left cancelled ≡ true)
absurd_left e = ground arith

step-steps_left :
    (s t : OrderStatus) → can_transition s t ≡ true → suc (steps_left t) ≤ steps_left s
step-steps_left s t allowed =
    let h = every_step (λ u v. ltb (steps_left v) (steps_left u)) refl s t allowed in ground arith

step-has_left :
    (s t : OrderStatus) → can_transition s t ≡ true → has_left s ≡ true → has_left t ≡ true
step-has_left s t allowed left =
    modus_ponens (has_left s) (has_left t)
      (every_step (λ u v. not (has_left u) || has_left v) refl s t allowed) left

step-is_final :
    (s t : OrderStatus) → can_transition s t ≡ true → is_final s ≡ true → is_final t ≡ true
step-is_final s t allowed final =
    modus_ponens (is_final s) (is_final t)
      (every_step (λ u v. not (is_final u) || is_final v) refl s t allowed) final

-- A step that takes the goods out of stock starts where they are locked.
step-locked :
    (s t : OrderStatus)
    → can_transition s t ≡ true
    → has_left t ≡ true
    → is_locked s || has_left s ≡ true
step-locked s t allowed left =
    modus_ponens (has_left t) (is_locked s || has_left s)
      (every_step (λ u v. not (has_left v) || (is_locked u || has_left u)) refl s t allowed) left

-- A first step of a successful walk was allowed, and the rest of the walk succeeds.
follow-cons :
    (s t : OrderStatus) (ts : List OrderStatus) {u : OrderStatus}
    → follow s (t ∷ ts) ≡ ok u
    → (can_transition s t ≡ true) × (follow t ts ≡ ok u)
unfolding follow assert_transition
follow-cons s t ts h = elim (Bool-cases (can_transition s t)) [
  | inl e ↦ (e, ground arith)
  | inr e ↦ ground arith
]

-- What every step keeps, a walk keeps.
follow-keeps :
    (P : OrderStatus → Bool)
    → ((s t : OrderStatus) → can_transition s t ≡ true → P s ≡ true → P t ≡ true)
    → (s : OrderStatus) (ts : List OrderStatus) {t : OrderStatus} → follow s ts ≡ ok t
    → P s ≡ true
    → P t ≡ true
unfolding follow
follow-keeps P keep s [] {t} h holds = let e : s ≡ t = cc in subst (λ v. P v ≡ true) e holds
follow-keeps P keep s (u ∷ ts) h holds =
    let step = follow-cons s u ts h in follow-keeps P keep u ts step.1 (keep s u step.0 holds)

-- The journey ends: a walk of `ts` from `s` to `t` has at most `steps_left s - steps_left t` steps, so
-- no order makes more than seven.
pub follow_terminates :
    (s : OrderStatus) (ts : List OrderStatus) {t : OrderStatus}
    → follow s ts ≡ ok t
    → length ts + steps_left t ≤ steps_left s
unfolding follow
follow_terminates s [] {t} h =
    let e : s ≡ t = cc in
    let same : steps_left s ≡ steps_left t = ap steps_left e in omega (arith, same)
follow_terminates s (u ∷ ts) h =
    let step = follow-cons s u ts h in
    omega (arith, follow_terminates u ts step.1, step-steps_left s u step.0)

-- No walk leads out of the final statuses.
pub follow-is_final :
    (s : OrderStatus) (ts : List OrderStatus) {t : OrderStatus}
    → follow s ts ≡ ok t
    → is_final s ≡ true
    → is_final t ≡ true
follow-is_final s ts h final = follow-keeps is_final step-is_final s ts h final

-- By the steps of the journey table, which delivery and pickup orders follow, an order that is
-- `SHIPPING`, `RECEIVED`, `COMPLETED` or `RETURNED` reaches only these four again, so it is not
-- cancelled. Counter orders, whose steps are on another table, are not meant.
pub follow-has_left :
    (s : OrderStatus) (ts : List OrderStatus) {t : OrderStatus}
    → follow s ts ≡ ok t
    → has_left s ≡ true
    → (has_left t ≡ true) × (t ≢ cancelled)
follow-has_left s ts {t} h left =
    let after = follow-keeps has_left step-has_left s ts h left in
    (after, λ e. absurd_left (subst (λ v. has_left v ≡ true) e after))

-- By the steps of the journey table, which delivery and pickup orders follow, a walk from any other
-- status to `SHIPPING`, `RECEIVED`, `COMPLETED` or `RETURNED` passes `PACKED` or `PICKED_UP`, where
-- the goods are locked. Counter orders, whose steps are on another table, are not meant.
pub follow_locks_first :
    (s : OrderStatus) (ts : List OrderStatus) {t : OrderStatus}
    → follow s ts ≡ ok t
    → has_left s ≡ false
    → has_left t ≡ true
    → any is_locked (s ∷ ts) ≡ true
unfolding follow
follow_locks_first s [] {t} h stays left =
    let e : s ≡ t = cc in let same : has_left s ≡ has_left t = ap has_left e in ground arith
follow_locks_first s (u ∷ ts) h stays left =
    let step = follow-cons s u ts h in
    elim (Bool-cases (has_left u)) [
      | inl e ↦
          or-inl (is_locked s) (any is_locked (u ∷ ts))
            (or-not (is_locked s) (has_left s) (step-locked s u step.0 e) stays)
      | inr e ↦
          or-inr (is_locked s) (any is_locked (u ∷ ts)) (follow_locks_first u ts step.1 e left)
    ]
