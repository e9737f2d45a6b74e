-- ===== src/Cash/Reconcile/Account.antt =====
-- Which movements of a business day each of its segments counts.
use ikiot_be.Prelude.{
  ℕ, ◌+◌, ◌≤◌, ◌<◌, ◌≡◌, refl, sym, ◌∙◌, true, false, Option, none, some, List, [], ◌∷◌, ◌++◌,
  length, sort_by, sort_by-IsSorted, IsSorted, sum_by, sum_by-sort_by, All, ltb, leb, arith,
}
use mathlib.Core.Path.{subst}
use ikiot_be.Prelude.Int.{ℤ}
use ikiot_be.Prelude.Sums.{sum_ℤ, sum_ℤ-sort_by}
use ikiot_be.Cash.Reconcile.{
  CashMovement, ShiftLogEntry, ReconcileInput, CashSegment, amount_in, amount_out, logged_before,
  moved_before, split_at_log, segment, segments_from, reconcile_session, time_of,
}
use ikiot_be.Cash.Reconcile.Windows.{
  is_from, during, one_during, Counts, Inside, Outside, sum-Inside, count-append, count-Inside,
  count-Outside, sum-later, sum-here,
}
use ikiot_be.Cash.Reconcile.Chain.{
  money_lem, split_at_log_bounds, variance_of, when_counted, segments_account, variance_known,
}

-- The segment starts at the time of the log or later.
abbrev StartsFrom : ℕ → CashSegment → Type 0
StartsFrom t s = (a : ℕ) × (s.from ≡ some a) × (t ≤ a)

before-Outside :
    (t a : ℕ) (to : Option ℕ) (ms : List CashMovement)
    → t ≤ a
    → All (λ m. m.at < t) ms
    → Outside (some a) to ms
before-Outside t a to [] le h = tt
before-Outside t a to (m ∷ ms) le h =
    let early : leb a m.at ≡ false = ground (arith, h.0) in
    (rw early refl, before-Outside t a to ms le h.1)

after-Outside :
    (from : Option ℕ) (t : ℕ) (ms : List CashMovement)
    → All (λ m. t ≤ m.at) ms
    → Outside from (some t) ms
after-Outside from t [] h = tt
after-Outside from t (m ∷ ms) h =
    let late : ltb m.at t ≡ false = ground (arith, h.0) in
    (ground arith, after-Outside from t ms h.1)

between-Inside :
    (from : Option ℕ) (t : ℕ) (ms : List CashMovement)
    → All (λ m. is_from from m ≡ true) ms
    → All (λ m. m.at < t) ms
    → Inside from (some t) ms
between-Inside from t [] g h = tt
between-Inside from t (m ∷ ms) g h =
    let early : ltb m.at t ≡ true = ground (arith, h.0) in
    (rw (g.0, early) refl, between-Inside from t ms g.1 h.1)

open-Inside :
    (from : Option ℕ) (ms : List CashMovement)
    → All (λ m. is_from from m ≡ true) ms
    → Inside from none ms
open-Inside from [] g = tt
open-Inside from (m ∷ ms) g = (rw g.0 refl, open-Inside from ms g.1)

-- Movements in front of a segment's start change nothing of what it counts.
Counts-later :
    (t : ℕ) (here later : List CashMovement) (segments : List CashSegment)
    → All (λ m. m.at < t) here
    → All (StartsFrom t) segments
    → All (Counts later) segments
    → All (Counts (here ++ later)) segments
Counts-later t here later [] h starts counts = tt
Counts-later t here later (s ∷ ss) h starts counts =
    let (a, e, le) = starts.0 in
    let out : Outside s.from s.to here =
      subst (λ f. Outside f s.to here) (sym e) (before-Outside t a s.to here le h) in
    let (ins, outs, count) = counts.0 in
    (
      (
        ins ∙ sym (sum-later s.from s.to amount_in here later out),
        outs ∙ sym (sum-later s.from s.to amount_out here later out),
        omega
            (arith, count, count-append s.from s.to here later, count-Outside s.from s.to here out),
      ),
      Counts-later t here later ss h starts.1 counts.1,
    )

starts_later :
    (s t : ℕ) (segments : List CashSegment)
    → s ≤ t
    → All (StartsFrom t) segments
    → All (StartsFrom s) segments
starts_later s t [] le h = tt
starts_later s t (x ∷ xs) le h =
    let (a, e, later) = h.0 in ((a, e, omega arith), starts_later s t xs le h.1)

segments-StartsFrom :
    (log : ShiftLogEntry) (o : ℤ) (final : Option ℤ) (logs : List ShiftLogEntry)
    (ms : List CashMovement)
    → IsSorted logged_before (log ∷ logs)
    → All (StartsFrom log.logged_at) (segments_from (some log) o final logs ms)
unfolding segments_from segment
segments-StartsFrom log o final [] ms s = ((log.logged_at, refl, omega arith), tt)
segments-StartsFrom log o final (next ∷ logs) ms s =
    let later = (split_at_log (some next) ms).1 in
    let first : ltb next.logged_at log.logged_at ≡ false = s.0.0 in
    (
      (log.logged_at, refl, omega arith),
      starts_later log.logged_at next.logged_at
          (segments_from (some next) next.amount final logs later) (ground arith)
          (segments-StartsFrom next next.amount final logs later s.1),
    )

IsSorted-later :
    (here later : List CashMovement)
    → IsSorted moved_before (here ++ later)
    → IsSorted moved_before later
IsSorted-later [] later s = s
IsSorted-later (m ∷ here) later s = IsSorted-later here later s.1

front_from :
    (from : Option ℕ) (here later : List CashMovement)
    → All (λ m. is_from from m ≡ true) (here ++ later)
    → All (λ m. is_from from m ≡ true) here
front_from from [] later h = tt
front_from from (m ∷ here) later h = (h.0, front_from from here later h.1)

is_from-log :
    (t : ℕ) (ms : List CashMovement)
    → All (λ m. t ≤ m.at) ms
    → All (λ m. is_from (some t) m ≡ true) ms
is_from-log t [] h = tt
is_from-log t (m ∷ ms) h = (ground (arith, h.0), is_from-log t ms h.1)

segments-Counts :
    (previous : Option ShiftLogEntry) (o : ℤ) (final : Option ℤ) (logs : List ShiftLogEntry)
    (ms : List CashMovement)
    → IsSorted logged_before logs
    → IsSorted moved_before ms
    → All (λ m. is_from (time_of previous) m ≡ true) ms
    → All (Counts ms) (segments_from previous o final logs ms)
unfolding segments_from segment split_at_log
segments-Counts previous o final [] ms ls s starts =
    let inside = open-Inside (time_of previous) ms starts in
    (
      (
        money_lem _ ∙ sym (sum-Inside (time_of previous) none amount_in ms inside),
        money_lem _ ∙ sym (sum-Inside (time_of previous) none amount_out ms inside),
        sym (count-Inside (time_of previous) none ms inside),
      ),
      tt,
    )
segments-Counts previous o final (next ∷ logs) ms ls s starts =
    let here = (split_at_log (some next) ms).0 in
    let later = (split_at_log (some next) ms).1 in
    let t = next.logged_at in
    let bounds = split_at_log_bounds next ms s in
    let whole = bounds.0 in
    let start = time_of previous in
    let inside =
      between-Inside start t here
        (front_from start here later (subst (All (λ m. is_from start m ≡ true)) (sym whole) starts))
        bounds.1 in
    let outside = after-Outside start t later bounds.2 in
    let rest =
      segments-Counts (some next) next.amount final logs later ls.1
        (IsSorted-later here later (subst (IsSorted moved_before) (sym whole) s))
        (is_from-log t later bounds.2) in
    let counted =
      Counts-later t here later (segments_from (some next) next.amount final logs later) bounds.1
        (segments-StartsFrom next next.amount final logs later ls) rest in
    let own : Counts (here ++ later) (segment previous (some next) o (some next.amount) here) = (
      money_lem _ ∙ sym (sum-here start (some t) amount_in here later inside outside),
      money_lem _ ∙ sym (sum-here start (some t) amount_out here later inside outside),
      omega (
        arith,
        count-append start (some t) here later,
        count-Inside start (some t) here inside,
        count-Outside start (some t) later outside,
      ),
    ) in
    subst
      (λ xs. All (Counts xs) (
        segment previous (some next) o (some next.amount) here
        ∷ segments_from (some next) next.amount final logs later))
      whole (own, counted)

all_from : (ms : List CashMovement) → All (λ m. is_from none m ≡ true) ms
all_from [] = tt
all_from (m ∷ ms) = (refl, all_from ms)

Counts-sort_by :
    (ms : List CashMovement) (segments : List CashSegment)
    → All (Counts (sort_by moved_before ms)) segments
    → All (Counts ms) segments
Counts-sort_by ms [] h = tt
Counts-sort_by ms (s ∷ ss) h =
    let (ins, outs, count) = h.0 in
    (
      (
        ins ∙ sum_ℤ-sort_by (during s.from s.to amount_in) moved_before ms,
        outs ∙ sum_ℤ-sort_by (during s.from s.to amount_out) moved_before ms,
        count ∙ sum_by-sort_by moved_before (one_during s.from s.to) ms,
      ),
      Counts-sort_by ms ss h.1,
    )

logged_neg_trans :
    (a b c : ShiftLogEntry)
    → logged_before c b ≡ false
    → logged_before b a ≡ false
    → logged_before c a ≡ false
logged_neg_trans a b c h k = ground arith

logged_asym : (a b : ShiftLogEntry) → logged_before a b ≡ true → logged_before b a ≡ false
logged_asym a b h = ground arith

moved_neg_trans :
    (a b c : CashMovement)
    → moved_before c b ≡ false
    → moved_before b a ≡ false
    → moved_before c a ≡ false
moved_neg_trans a b c h k = ground arith

moved_asym : (a b : CashMovement) → moved_before a b ≡ true → moved_before b a ≡ false
moved_asym a b h = ground arith

session-Counts :
    (input : ReconcileInput) → All (Counts input.movements) (reconcile_session input).segments
unfolding reconcile_session
session-Counts input =
    let logs = sort_by logged_before input.shift_logs in
    let ms = sort_by moved_before input.movements in
    Counts-sort_by input.movements
      (segments_from none input.opening_amount input.final_amount logs ms)
      (segments-Counts none input.opening_amount input.final_amount logs ms
        (sort_by-IsSorted logged_before logged_neg_trans logged_asym input.shift_logs)
        (sort_by-IsSorted moved_before moved_neg_trans moved_asym input.movements) (all_from ms))

-- A day is cut into one segment more than it has logs. Each segment's cash in, cash out and number of
-- movements are those of just the day's movements at or after its start and before its end, where it
-- has these; all movements are counted once, for the three add up over the segments to the day's. When
-- the day is counted, the variances of the segments add up to the day's variance, which is missing
-- otherwise.
pub reconcile_session_accounts :
    (input : ReconcileInput)
    → let r = reconcile_session input in
      (length r.segments ≡ length input.shift_logs + 1)
      × All (Counts input.movements) r.segments
      × (sum_ℤ (λ s. s.cash_in) r.segments ≡ r.totals.cash_in)
      × (sum_ℤ (λ s. s.cash_out) r.segments ≡ r.totals.cash_out)
      × (sum_by (λ s. s.movement_count) r.segments ≡ length input.movements)
      × (r.totals.variance ≡ when_counted input.final_amount (sum_ℤ variance_of r.segments))
reconcile_session_accounts input =
    let a = segments_account input in
    (a.0, session-Counts input, a.1, a.2, a.3, variance_known input)
