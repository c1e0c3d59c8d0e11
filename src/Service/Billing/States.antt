-- ===== src/Service/Billing/States.antt =====
-- `billingStateAt` over time, and `addBillingPeriod`.
use pointofsale.Base.{ℕ, ◌+◌, ◌*◌, ◌≤◌, ◌<◌, Option, none, some, arith}
use pointofsale.Service.Billing.{
  BillingState, trial, active, past_due, read_only, ends_at, grace_ends_at, billing_state_at,
  UtcDate, last_day,
}

-- How far a subscription has run down.
abbrev pub rank : BillingState → ℕ
rank active = 0
rank trial = 1
rank past_due = 2
rank read_only = 3

-- A paid-until date is as late as another: never paid is before every date.
abbrev pub IsAsLate : Option ℕ → Option ℕ → Type 0
IsAsLate paid' none = Unit {0}
IsAsLate none (some paid) = ⊥
IsAsLate (some paid') (some paid) = paid ≤ paid'

-- With the same dates a subscription, on trial, paid for or neither, only runs down as time passes, and
-- a first or a later paid-until date never leaves it further down.
pub billing_state_at_monotone :
    (trial_ends paid paid' : Option ℕ) (now now' : ℕ)
    → now ≤ now'
    → IsAsLate paid' paid
    → (rank (billing_state_at trial_ends paid now) ≤ rank (billing_state_at trial_ends paid now'))
      × (rank (billing_state_at trial_ends paid' now) ≤ rank (billing_state_at trial_ends paid now))
unfolding billing_state_at ends_at grace_ends_at
billing_state_at_monotone none none none now now' later more = (ground arith, ground arith)
billing_state_at_monotone none none (some q) now now' later more = (ground arith, ground arith)
billing_state_at_monotone none (some p) none now now' later more = absurd more
billing_state_at_monotone none (some p) (some q) now now' later more = (ground arith, ground arith)
billing_state_at_monotone (some t) none none now now' later more = (ground arith, ground arith)
billing_state_at_monotone (some t) none (some q) now now' later more = (ground arith, ground arith)
billing_state_at_monotone (some t) (some p) none now now' later more = absurd more
billing_state_at_monotone (some t) (some p) (some q) now now' later more =
    (ground arith, ground arith)

-- The months of a date, from year 0 on.
abbrev pub months_of : UtcDate → ℕ
months_of d = d.year * 12 + d.month0

abbrev pub IsDate : UtcDate → Type 0
IsDate d = (d.month0 < 12) × (1 ≤ d.day) × (d.day ≤ last_day d.year d.month0)
