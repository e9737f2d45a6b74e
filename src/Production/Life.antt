-- ===== src/Production/Life.antt =====
-- The life of a production request.
use ikiot_be.Prelude.{
  ◌≤◌, ◌≡◌, ◌⊎◌, ◌↔◌, refl, ap, Bool, true, false, none, List, [], ◌∷◌, All, all, arith, leb,
  Bool-cases, inl, inr,
}
use ikiot_be.Production.{
  ProductionRequestStatus, draft, sent, partially_received, completed, cancelled, is_final,
  is_draft, is_partially_received, is_receivable, manual_transition_violation, RequestLine,
  status_after_receipt,
}

-- Neither completed nor cancelled.
abbrev pub IsOpen : ProductionRequestStatus → Type 0
IsOpen s = (s ≡ draft) ⊎ (s ≡ sent) ⊎ (s ≡ partially_received)

-- The changes that the life cycle has for the user: sending a draft, cancelling an open request that
-- has received nothing, and closing a partly received one short with a reason.
abbrev pub Allowed : ProductionRequestStatus → ProductionRequestStatus → Bool → Bool → Type 0
Allowed from to received_any has_reason =
    ((from ≡ draft) × (to ≡ sent))
    ⊎ (IsOpen from × (to ≡ cancelled) × (received_any ≡ false))
    ⊎ ((from ≡ partially_received) × (to ≡ completed) × (has_reason ≡ true))

is_final-IsOpen : (s : ProductionRequestStatus) → is_final s ≡ false → IsOpen s
is_final-IsOpen draft h = inl refl
is_final-IsOpen sent h = inr (inl refl)
is_final-IsOpen partially_received h = inr (inr refl)
is_final-IsOpen completed h = absurd (ground arith)
is_final-IsOpen cancelled h = absurd (ground arith)

IsOpen-is_final : (s : ProductionRequestStatus) → IsOpen s → is_final s ≡ false
IsOpen-is_final s (inl e) = ap is_final e
IsOpen-is_final s (inr (inl e)) = ap is_final e
IsOpen-is_final s (inr (inr e)) = ap is_final e

is_draft-eq : (s : ProductionRequestStatus) → is_draft s ≡ true → s ≡ draft
is_draft-eq draft h = refl
is_draft-eq sent h = cc
is_draft-eq partially_received h = cc
is_draft-eq completed h = cc
is_draft-eq cancelled h = cc

is_partially_received-eq :
    (s : ProductionRequestStatus) → is_partially_received s ≡ true → s ≡ partially_received
is_partially_received-eq partially_received h = refl
is_partially_received-eq draft h = cc
is_partially_received-eq sent h = cc
is_partially_received-eq completed h = cc
is_partially_received-eq cancelled h = cc

manual-Allowed :
    (from to : ProductionRequestStatus) (received_any has_reason : Bool)
    → manual_transition_violation from to received_any has_reason ≡ none
    → Allowed from to received_any has_reason
unfolding manual_transition_violation
manual-Allowed from to received_any has_reason h = elim (Bool-cases (is_final from)) [
  | inl e ↦ absurd (ground arith)
  | inr e ↦ open_allowed to (ground arith)
]
  where
    open_allowed :
        (to : ProductionRequestStatus)
        → manual_transition_violation from to received_any has_reason ≡ none
        → Allowed from to received_any has_reason
    open_allowed sent k = elim (Bool-cases (is_draft from)) [
      | inl e ↦ inl (is_draft-eq from e, refl)
      | inr e ↦ absurd (ground arith)
    ]
    open_allowed cancelled k = inr (inl (is_final-IsOpen from (ground arith), refl, ground arith))
    open_allowed completed k = elim (Bool-cases (is_partially_received from)) [
      | inl e ↦ inr (inr (is_partially_received-eq from e, refl, ground arith))
      | inr e ↦ absurd (ground arith)
    ]
    open_allowed draft k = absurd (ground arith)
    open_allowed partially_received k = absurd (ground arith)

none_of :
    (from to : ProductionRequestStatus) (received_any has_reason : Bool)
    → Allowed from to received_any has_reason
    → manual_transition_violation from to received_any has_reason ≡ none
unfolding manual_transition_violation
none_of from to received_any has_reason (inl (f, t)) =
    let open_ : is_final from ≡ false = ap is_final f in
    let drafted : is_draft from ≡ true = ap is_draft f in rw t (rw open_ (rw drafted refl))
none_of from to received_any has_reason (inr (inl (f, t, r))) =
    let open_ = IsOpen-is_final from f in rw open_ (rw t (rw r refl))
none_of from to received_any has_reason (inr (inr (f, t, r))) =
    let open_ : is_final from ≡ false = ap is_final f in
    let some_in : is_partially_received from ≡ true = ap is_partially_received f in
    rw t (rw open_ (rw some_in (rw r refl)))

all_iff :
    (lines : List RequestLine)
    → (all (λ l. leb l.quantity l.received_quantity) lines ≡ true)
      ↔ All (λ l. l.quantity ≤ l.received_quantity) lines
all_iff [] = (λ h. tt, λ h. refl)
all_iff (l ∷ ls) =
    let rest = all_iff ls in
    (λ h. (ground arith, rest.0 (ground arith)), λ h. ground (arith, h.0, rest.1 h.1))

-- A change of status by hand is accepted exactly when it sends a draft, cancels a request that is a
-- draft, sent or partly received and has received nothing, or completes a partly received one with a
-- reason.
pub manual_transition_iff :
    (from to : ProductionRequestStatus) (received_any has_reason : Bool)
    → (manual_transition_violation from to received_any has_reason ≡ none)
      ↔ Allowed from to received_any has_reason
unfolding manual_transition_violation
manual_transition_iff from to received_any has_reason =
    (manual-Allowed from to received_any has_reason, none_of from to received_any has_reason)

-- A receipt completes a request exactly when every line has received what was ordered; else it stays
-- open and can receive more.
pub status_after_receipt_iff :
    (lines : List RequestLine)
    → ((status_after_receipt lines ≡ completed) ↔ All (λ l. l.quantity ≤ l.received_quantity) lines)
      × ((status_after_receipt lines ≡ completed)
          ⊎ (is_receivable (status_after_receipt lines) ≡ true))
unfolding status_after_receipt
status_after_receipt_iff lines =
    elim (Bool-cases (all (λ l. leb l.quantity l.received_quantity) lines)) [
      | inl e ↦ ((λ h. (all_iff lines).0 e, λ h. rw e refl), inl (rw e refl))
      | inr e ↦ (
        (λ h. absurd (ground arith), λ h. absurd (ground (arith, (all_iff lines).1 h))),
        inr (rw e refl),
      )
    ]
