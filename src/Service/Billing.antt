-- ===== src/Service/Billing.antt =====
-- packages/contracts/src/billing.ts: where a subscription stands at a time, the plans, and the end of a
-- billing period. A calendar date is a year, a month from 0 and a day, with its time of day.
pub mod States
use Prim.Native.Nat.{max, min}
use pointofsale.Base.{
  ℕ, ◌+◌, ◌-◌, ◌*◌, ◌/◌, ◌%◌, Bool, true, false, not, ◌&&◌, ◌||◌, Option, none, some, List, [], ◌∷◌,
  ltb, leb, ◌==◌, if◌then◌else◌,
}
use pointofsale.Money.{round_div}

pub data BillingPeriod : Type 0 where
  month year : BillingPeriod

pub data PlanCode : Type 0 where
  starter growth business : PlanCode

pub record Plan : Type 0 where
  pub branches : ℕ
  pub counters : ℕ
  pub month_price : ℕ
  pub year_price : ℕ

-- `PLANS`; prices are in paise, before GST.
abbrev pub plan_by_code : PlanCode → Plan
plan_by_code starter = record {
  branches = 1;
  counters = 2;
  month_price = 49_900;
  year_price = 499_000;
}
plan_by_code growth = record {
  branches = 3;
  counters = 10;
  month_price = 99_900;
  year_price = 999_000;
}
plan_by_code business = record {
  branches = 10;
  counters = 50;
  month_price = 249_900;
  year_price = 2_499_000;
}

abbrev pub day_ms : ℕ
day_ms = 86_400_000

abbrev pub grace_days : ℕ
grace_days = 7

pub data BillingState : Type 0 where
  trial active past_due read_only : BillingState

-- The later of the dates that are set.
unfoldable pub ends_at : Option ℕ → Option ℕ → Option ℕ
ends_at none paid = paid
ends_at (some trial_end) none = some trial_end
ends_at (some trial_end) (some paid) = some (max trial_end paid)

unfoldable pub grace_ends_at : Option ℕ → Option ℕ
grace_ends_at none = none
grace_ends_at (some end) = some (end + grace_days * day_ms)

-- `date > now` of a date that may be unset.
abbrev pub is_after : Option ℕ → ℕ → Bool
is_after none now = false
is_after (some date) now = ltb now date

-- The state of `billingStateAt`.
unfoldable pub billing_state_at : Option ℕ → Option ℕ → ℕ → BillingState
billing_state_at trial_ends paid_until now =
    if is_after (ends_at trial_ends paid_until) now
    then (if is_after paid_until now then active else trial)
    else (if is_after (grace_ends_at (ends_at trial_ends paid_until)) now
        then past_due
        else read_only)

-- `subscriptionGst`
unfoldable pub subscription_gst : ℕ → ℕ → ℕ
subscription_gst amount rate = round_div (amount * rate) 100

pub record UtcDate : Type 0 where
  pub year : ℕ
  pub month0 : ℕ
  pub day : ℕ
  pub time : ℕ

abbrev pub is_leap : ℕ → Bool
is_leap y = (y % 4 == 0) && (not (y % 100 == 0) || (y % 400 == 0))

-- The last day of a month: `new Date(Date.UTC(year, month + 1, 0)).getUTCDate()`.
unfoldable pub last_day : ℕ → ℕ → ℕ
last_day y m =
    if m == 1
    then (if is_leap y then 29 else 28)
    else (if (m == 3) || ((m == 5) || ((m == 8) || (m == 10))) then 30 else 31)

abbrev pub period_months : BillingPeriod → ℕ
period_months month = 1
period_months BillingPeriod.year = 12

-- `addBillingPeriod`: a day that the month does not have becomes its last.
unfoldable pub add_billing_period : UtcDate → BillingPeriod → UtcDate
add_billing_period d period =
    let months = d.month0 + period_months period in
    let y = d.year + months / 12 in
    let m = months % 12 in
    record { year = y; month0 = m; day = min d.day (last_day y m); time = d.time }
