-- ===== src/Production.antt =====
-- src/modules/production-requests/production-request-rules.ts, with
-- src/common/constants/production-request-status.ts. The codes' digits are not modelled.
pub mod Life
use ikiot_be.Prelude.{
  ℕ, ◌+◌, Bool, true, false, not, ◌&&◌, ◌||◌, Option, none, some, List, [], ◌∷◌, all, if◌then◌else◌,
  leb,
}

pub data ProductionRequestStatus : Type 0 where
  draft sent partially_received completed cancelled : ProductionRequestStatus

-- `FINAL_PRODUCTION_REQUEST_STATUSES.includes`.
abbrev pub is_final : ProductionRequestStatus → Bool
is_final completed = true
is_final cancelled = true
is_final draft = false
is_final sent = false
is_final partially_received = false

abbrev pub is_draft : ProductionRequestStatus → Bool
is_draft draft = true
is_draft sent = false
is_draft partially_received = false
is_draft completed = false
is_draft cancelled = false

abbrev pub is_partially_received : ProductionRequestStatus → Bool
is_partially_received partially_received = true
is_partially_received draft = false
is_partially_received sent = false
is_partially_received completed = false
is_partially_received cancelled = false

-- `RECEIVABLE_PRODUCTION_REQUEST_STATUSES.includes`.
abbrev pub is_receivable : ProductionRequestStatus → Bool
is_receivable sent = true
is_receivable partially_received = true
is_receivable draft = false
is_receivable completed = false
is_receivable cancelled = false

pub data RuleViolation : Type 0 where
  status_invalid has_receipts close_reason_required : RuleViolation

-- `manualTransitionViolation`; `has_reason` is `reason?.trim()`.
unfoldable pub manual_transition_violation :
    ProductionRequestStatus → ProductionRequestStatus → Bool → Bool → Option RuleViolation
manual_transition_violation from to received_any has_reason =
    if is_final from then some status_invalid else (elim to [
      | sent ↦ if is_draft from then none else some status_invalid
      | cancelled ↦ if received_any then some has_receipts else none
      | completed ↦
          if not (is_partially_received from)
          then some status_invalid
          else (if has_reason then none else some close_reason_required)
      | draft ↦ some status_invalid
      | partially_received ↦ some status_invalid
    ])

pub record RequestLine : Type 0 where
  pub quantity : ℕ
  pub received_quantity : ℕ

unfoldable pub status_after_receipt : List RequestLine → ProductionRequestStatus
status_after_receipt lines =
    if all (λ l. leb l.quantity l.received_quantity) lines then completed else partially_received
