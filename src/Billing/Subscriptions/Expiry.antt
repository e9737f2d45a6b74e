-- ===== src/Billing/Subscriptions/Expiry.antt =====
-- The expiry rule, wherever it is applied.
use ikiot_be.Prelude.{ℕ, ◌≤◌, ◌≡◌, refl, Option, none, some, arith}
use ikiot_be.Billing.Subscriptions.{
  SubscriptionStatus, trial, active, past_due, expired, cancelled, SubscriptionTerm,
  next_subscription_status,
}

-- `settleSubscription`: the term with the status it has at `now`.
abbrev pub settle : SubscriptionTerm → ℕ → SubscriptionTerm
settle term now = record {
  status = next_subscription_status term now;
  end_date = term.end_date;
  trial_end_date = term.trial_end_date;
}

term_at : SubscriptionStatus → ℕ → Option ℕ → SubscriptionTerm
term_at s e t = record { status = s; end_date = e; trial_end_date = t }

settles :
    (s : SubscriptionStatus) (e : ℕ) (t : Option ℕ) (early late : ℕ)
    → early ≤ late
    → next_subscription_status
        (settle (record { status = s; end_date = e; trial_end_date = t }) early)
        late
      ≡ next_subscription_status (record { status = s; end_date = e; trial_end_date = t }) late
unfolding next_subscription_status
settles trial e none early late h = refl
settles trial e (some t) early late h = ground arith
settles active e t early late h = ground arith
settles past_due e t early late h = ground arith
settles expired e t early late h = refl
settles cancelled e t early late h = refl

-- A term that was settled at an earlier read, or by the nightly job, has at a later time the status it
-- would have had if it had not been settled in between.
pub settle_early :
    (term : SubscriptionTerm) (early late : ℕ)
    → early ≤ late
    → next_subscription_status (settle term early) late ≡ next_subscription_status term late
settle_early term early late h = settles term.status term.end_date term.trial_end_date early late h
