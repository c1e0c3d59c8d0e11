-- ===== src/Tests/ServiceTests.antt =====
-- packages/contracts/src/billing.ts and apps/api/src/common/rate-limit.ts at concrete inputs.
use pointofsale.Base.{◌≤◌, ◌≡◌, refl, true, false, none, some, [], ◌∷◌, arith}
use pointofsale.Service.Billing.{
  BillingPeriod, billing_state_at, past_due, ends_at, grace_ends_at, UtcDate, add_billing_period,
  last_day,
}
use pointofsale.Service.Billing.States.{rank, billing_state_at_monotone}
use pointofsale.Service.RateLimit.{Limits, assert_allowed, failed, failed_at}
use pointofsale.Service.RateLimit.Window.{assert_allowed-failed_at}
use pointofsale.Service.Version.{is_older_version, older_in}

-- 0.1.7 is older than 0.2, which is older than 0.10.1.
version_run : is_older_version (0 ∷ 1 ∷ 7 ∷ []) (0 ∷ 2 ∷ []) ≡ true
unfolding is_older_version older_in
version_run = refl

version_run_next : is_older_version (0 ∷ 2 ∷ []) (0 ∷ 10 ∷ 1 ∷ []) ≡ true
unfolding is_older_version older_in
version_run_next = refl

-- A day after the paid time, which was longer than the trial.
state_run : billing_state_at (some 1000) (some 2000) 86_402_000 ≡ past_due
unfolding billing_state_at ends_at grace_ends_at
state_run = refl

-- On trial and never paid, then paid after the trial's end.
billing_state_at_monotone_example :
    (rank (billing_state_at (some 2000) none 1500) ≤ rank (billing_state_at (some 2000) none 2500))
    × (rank (billing_state_at (some 2000) (some 3000) 1500)
        ≤ rank (billing_state_at (some 2000) none 1500))
billing_state_at_monotone_example =
    billing_state_at_monotone (some 2000) none (some 3000) 1500 2500 (omega arith) tt

-- 31 January 2028, noon.
abbrev end_of_january : UtcDate
end_of_january = record { year = 2028; month0 = 0; day = 31; time = 43_200_000 }

period_run :
    add_billing_period end_of_january BillingPeriod.month
    ≡ record { year = 2028; month0 = 1; day = 29; time = 43_200_000 }
unfolding add_billing_period last_day
period_run = refl

abbrev sample_limits : Limits
sample_limits = record { max_failures = 3; window_ms = 60_000 }

assert_allowed-failed_at_example :
    (assert_allowed sample_limits
      (failed_at sample_limits (failed sample_limits [] 7 1000) 7 (2000 ∷ 3000 ∷ []))
      7
      4000).0
    ≡ false
assert_allowed-failed_at_example =
    (assert_allowed-failed_at sample_limits [] 7 1000 4000 90_000 (2000 ∷ 3000 ∷ []) refl
      (omega arith, (omega arith, tt)) (omega arith) (omega arith)).0
