-- ===== src/Cash/Reconcile/Chain.antt =====
-- The segments of a business day account for all of its cash.
use ikiot_be.Prelude.{
  sym, ap, ◌∙◌, ◌+◌, ◌≤◌, ◌<◌, ◌≡◌, refl, ap, sym, ◌∙◌, false, Option, none, some, List, [], ◌∷◌,
  ◌++◌, length, length-append, length-sort_by, sort_by, IsSorted, sum_by, All, leb, arith,
  Bool-cases, inl, inr, Option-cases,
}
use mathlib.Core.List.{append-nil}
use ikiot_be.Prelude.Int.{ℤ, pos, negsuc, ◌*ℤ◌, ◌+ℤ◌, ◌-ℤ◌, int_laws}
use ikiot_be.Prelude.Sums.{sum_ℤ, sum_ℤ-append, sum_ℤ-sort_by}
use ikiot_be.Cash.Reconcile.{
  CashMovement, ShiftLogEntry, ReconcileInput, CashSegment, money, amount_in, amount_out,
  logged_before, moved_before, split_at_log, segments_from, summarize_variance, reconcile_session,
}

-- Amounts that are hundredths already are not rounded.
pub money_lem : (v : ℤ) → money v ≡ v
unfolding money ◌*ℤ◌ ◌+ℤ◌
money_lem (pos n) = ground arith
money_lem (negsuc n) = ground arith

split_at_log-append :
    (next : Option ShiftLogEntry) (ms : List CashMovement)
    → (split_at_log next ms).0 ++ (split_at_log next ms).1 ≡ ms
unfolding split_at_log
split_at_log-append none ms = append-nil ms
split_at_log-append (some next) [] = refl
split_at_log-append (some next) (m ∷ ms) = ground (arith, split_at_log-append (some next) ms)

abbrev pub variance_of : CashSegment → ℤ
variance_of s = elim s.variance [ none ↦ pos 0 | some v ↦ v ]

-- The segments from a log on share out the movements that are left.
abbrev Shares : List CashSegment → List CashMovement → Type 0
Shares segments ms =
    (sum_ℤ (λ s. s.cash_in) segments ≡ sum_ℤ amount_in ms)
    × (sum_ℤ (λ s. s.cash_out) segments ≡ sum_ℤ amount_out ms)
    × (sum_by (λ s. s.movement_count) segments ≡ length ms)

split_sums :
    (next : Option ShiftLogEntry) (ms : List CashMovement)
    → let (here, later) = split_at_log next ms in
      (sum_ℤ amount_in here +ℤ sum_ℤ amount_in later ≡ sum_ℤ amount_in ms)
      × (sum_ℤ amount_out here +ℤ sum_ℤ amount_out later ≡ sum_ℤ amount_out ms)
      × (length here + length later ≡ length ms)
split_sums next ms =
    let (here, later) = split_at_log next ms in
    let whole = split_at_log-append next ms in
    (
      sym (sum_ℤ-append amount_in here later) ∙ ap (sum_ℤ amount_in) whole,
      sym (sum_ℤ-append amount_out here later) ∙ ap (sum_ℤ amount_out) whole,
      sym (length-append here later) ∙ ap length whole,
    )

segments-Shares :
    (previous : Option ShiftLogEntry) (o : ℤ) (final : Option ℤ) (logs : List ShiftLogEntry)
    (ms : List CashMovement)
    → Shares (segments_from previous o final logs ms) ms
unfolding segments_from
segments-Shares previous o final [] ms =
    (rw money_lem (omega int_laws), rw money_lem (omega int_laws), omega arith)
segments-Shares previous o final (next ∷ logs) ms =
    let later = (split_at_log (some next) ms).1 in
    let rest = segments-Shares (some next) next.amount final logs later in
    let sums = split_sums (some next) ms in
    (rw (money_lem, rest.0) sums.0, rw (money_lem, rest.1) sums.1, omega (arith, rest.2, sums.2))

telescope :
    (a o f i₁ o₁ i₂ o₂ : ℤ)
    → a -ℤ (o +ℤ (i₁ -ℤ o₁)) +ℤ (f -ℤ (a +ℤ (i₂ -ℤ o₂))) ≡ f -ℤ (o +ℤ (i₁ +ℤ i₂ -ℤ (o₁ +ℤ o₂)))
telescope a o f i₁ o₁ i₂ o₂ = omega int_laws

segments-variance :
    (previous : Option ShiftLogEntry) (o f : ℤ) (logs : List ShiftLogEntry) (ms : List CashMovement)
    → sum_ℤ variance_of (segments_from previous o (some f) logs ms)
      ≡ f -ℤ (o +ℤ (sum_ℤ amount_in ms -ℤ sum_ℤ amount_out ms))
unfolding segments_from
segments-variance previous o f [] ms = rw money_lem (omega int_laws)
segments-variance previous o f (next ∷ logs) ms =
    let (here, later) = split_at_log (some next) ms in
    let sums = split_sums (some next) ms in
    rw (money_lem, segments-variance (some next) next.amount f logs later, ← sums.0, ← sums.1)
      (telescope next.amount o f (sum_ℤ amount_in here) (sum_ℤ amount_out here)
        (sum_ℤ amount_in later) (sum_ℤ amount_out later))

length-segments :
    (previous : Option ShiftLogEntry) (o : ℤ) (final : Option ℤ) (logs : List ShiftLogEntry)
    (ms : List CashMovement)
    → length (segments_from previous o final logs ms) ≡ length logs + 1
unfolding segments_from
length-segments previous o final [] ms = refl
length-segments previous o final (next ∷ logs) ms =
    omega
      (arith, length-segments (some next) next.amount final logs (split_at_log (some next) ms).1)

-- The sums of a day's segments.
pub segments_account :
    (input : ReconcileInput)
    → let r = reconcile_session input in
      (length r.segments ≡ length input.shift_logs + 1)
      × (sum_ℤ (λ s. s.cash_in) r.segments ≡ r.totals.cash_in)
      × (sum_ℤ (λ s. s.cash_out) r.segments ≡ r.totals.cash_out)
      × (sum_by (λ s. s.movement_count) r.segments ≡ length input.movements)
      × ((final : ℤ)
          → input.final_amount ≡ some final
          → r.totals.variance ≡ some (sum_ℤ variance_of r.segments))
unfolding reconcile_session
segments_account input =
    let logs = sort_by logged_before input.shift_logs in
    let ms = sort_by moved_before input.movements in
    let shares = segments-Shares none input.opening_amount input.final_amount logs ms in
    let cut = length-segments none input.opening_amount input.final_amount logs ms in
    (
      omega (arith, cut, length-sort_by logged_before input.shift_logs),
      shares.0 ∙ sym (money_lem (sum_ℤ amount_in ms)),
      shares.1 ∙ sym (money_lem (sum_ℤ amount_out ms)),
      shares.2 ∙ length-sort_by moved_before input.movements,
      λ final e.
          rw (e, segments-variance none input.opening_amount final logs ms) (ap some (money_lem _)),
    )

-- The list view, from sums that the database made over the same rows in any order, shows the totals
-- of the full reconciliation.
pub summarize_variance-eq-totals :
    (input : ReconcileInput)
    → summarize_variance input.opening_amount input.final_amount
        (sum_ℤ amount_in input.movements)
        (sum_ℤ amount_out input.movements)
      ≡ (reconcile_session input).totals
unfolding reconcile_session
summarize_variance-eq-totals input = rw (
  sum_ℤ-sort_by amount_in moved_before input.movements,
  sum_ℤ-sort_by amount_out moved_before input.movements,
)

-- The movements that a segment takes stand before the log that ends it, and of sorted movements those
-- that it leaves do not: a movement at the very time of a log goes to the segment that the log opens.
pub split_at_log_bounds :
    (next : ShiftLogEntry) (ms : List CashMovement)
    → IsSorted moved_before ms
    → let (here, later) = split_at_log (some next) ms in
      (here ++ later ≡ ms)
      × All (λ m. m.at < next.logged_at) here
      × All (λ m. next.logged_at ≤ m.at) later
unfolding split_at_log
split_at_log_bounds next [] s = (refl, tt, tt)
split_at_log_bounds next (m ∷ ms) s = elim (Bool-cases (leb next.logged_at m.at)) [
  | inl e ↦ rw e (refl, tt, (ground arith, after (ground arith) ms s.0))
  | inr e ↦
      let rest = split_at_log_bounds next ms s.1 in
      rw e (ap (λ r. m ∷ r) rest.0, (ground arith, rest.1), rest.2)
]
  where
    after :
        next.logged_at ≤ m.at
        → (others : List CashMovement) → All (λ y. moved_before y m ≡ false) others
        → All (λ y. next.logged_at ≤ y.at) others
    after from [] a = tt
    after from (y ∷ ys) a = (ground arith, after from ys a.1)

-- A variance is known when there is a count.
abbrev pub when_counted : Option ℤ → ℤ → Option ℤ
when_counted none v = none
when_counted (some final) v = some v

uncounted :
    (input : ReconcileInput)
    → input.final_amount ≡ none
    → (reconcile_session input).totals.variance ≡ none
unfolding reconcile_session
uncounted input e = ground arith

-- The variance of a day in terms of its segments'.
pub variance_known :
    (input : ReconcileInput)
    → let r = reconcile_session input in
      r.totals.variance ≡ when_counted input.final_amount (sum_ℤ variance_of r.segments)
variance_known input =
    let known = (segments_account input).4 in
    let v = sum_ℤ variance_of (reconcile_session input).segments in
    elim (Option-cases input.final_amount) [
      | inl e ↦ uncounted input e ∙ sym (ap (λ f. when_counted f v) e)
      | inr (final, e) ↦ known final e ∙ sym (ap (λ f. when_counted f v) e)
    ]
