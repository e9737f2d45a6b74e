-- ===== src/Billing/Subscriptions.antt =====
-- src/modules/subscriptions/subscription-status.ts, with src/modules/subscriptions/subscription.constants.ts.
-- Times are milliseconds since 1970.
pub mod Expiry
use ikiot_be.Prelude.{ℕ, ◌+◌, ◌*◌, Bool, true, false, Option, none, some, if◌then◌else◌, ltb}

pub data SubscriptionStatus : Type 0 where
  trial active past_due expired cancelled : SubscriptionStatus

pub record SubscriptionTerm : Type 0 where
  pub status : SubscriptionStatus
  pub end_date : ℕ
  pub trial_end_date : Option ℕ

abbrev pub grace_period_days : ℕ
grace_period_days = 3

abbrev pub day_ms : ℕ
day_ms = 24 * 60 * 60 * 1000

abbrev pub add_days : ℕ → ℕ → ℕ
add_days date days = date + days * day_ms

abbrev pub trial_is_over : Option ℕ → ℕ → Bool
trial_is_over none now = false
trial_is_over (some trial_end) now = ltb trial_end now

-- `endDate < addDays(now, -GRACE_PERIOD_DAYS)`, with the days on the other side.
abbrev pub next_paid_status : SubscriptionTerm → ℕ → SubscriptionStatus
next_paid_status term now =
    if ltb (add_days term.end_date grace_period_days) now
    then expired
    else (if ltb term.end_date now then past_due else term.status)

unfoldable pub next_subscription_status : SubscriptionTerm → ℕ → SubscriptionStatus
next_subscription_status term now = elim term.status [
  | trial ↦ if trial_is_over term.trial_end_date now then expired else trial
  | active ↦ next_paid_status term now
  | past_due ↦ next_paid_status term now
  | expired ↦ term.status
  | cancelled ↦ term.status
]
