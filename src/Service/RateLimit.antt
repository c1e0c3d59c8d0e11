-- ===== src/Service/RateLimit.antt =====
-- apps/api/src/common/rate-limit.ts: `FailureLimiter`. The map of failures is a list in the order of
-- insertion, without two entries of one key; a key is a number, and the clock's reading an argument.
pub mod Window
use pointofsale.Base.{
  ℕ, zero, suc, ◌+◌, Bool, true, false, not, ◌&&◌, Option, none, some, List, [], ◌∷◌, length, ltb,
  leb, ◌==◌, if◌then◌else◌, filter,
}

pub record Failure : Type 0 where
  pub key : ℕ
  pub count : ℕ
  pub until : ℕ

pub record Limits : Type 0 where
  pub max_failures : ℕ
  pub window_ms : ℕ

abbrev pub get : ℕ → List Failure → Option Failure
get k [] = none
get k (f ∷ fs) = if f.key == k then some f else get k fs

abbrev pub delete : ℕ → List Failure → List Failure
delete k = filter (λ f. not (f.key == k))

-- `Map.set`: an entry keeps its place.
abbrev pub set : Failure → List Failure → List Failure
set e [] = e ∷ []
set e (f ∷ fs) = let rest = set e fs in if f.key == e.key then e ∷ fs else f ∷ rest

-- Whether an attempt is let through, and the failures then; an entry whose time is over goes.
unfoldable pub check_entry : Limits → List Failure → ℕ → ℕ → Option Failure → Bool × List Failure
check_entry l fs k now none = (true, fs)
check_entry l fs k now (some f) =
    if ltb f.until now then (true, delete k fs) else (not (leb l.max_failures f.count), fs)

unfoldable pub assert_allowed : Limits → List Failure → ℕ → ℕ → Bool × List Failure
assert_allowed l fs k now = check_entry l fs k now (get k fs)

abbrev pub next_failure : Limits → ℕ → ℕ → Option Failure → Failure
next_failure l k now none = record { key = k; count = 1; until = now + l.window_ms }
next_failure l k now (some f) =
    if leb now f.until
    then record f { count = f.count + 1 }
    else record { key = k; count = 1; until = now + l.window_ms }

-- Past 10,000 entries those whose time is over go.
abbrev pub prune : ℕ → List Failure → List Failure
prune now fs = if ltb 10_000 (length fs) then filter (λ f. not (ltb f.until now)) fs else fs

unfoldable pub failed : Limits → List Failure → ℕ → ℕ → List Failure
failed l fs k now = prune now (set (next_failure l k now (get k fs)) fs)

unfoldable pub succeeded : List Failure → ℕ → List Failure
succeeded fs k = delete k fs

-- Failures one after another, each at its time.
unfoldable pub failed_at : Limits → List Failure → ℕ → List ℕ → List Failure
failed_at l fs k [] = fs
failed_at l fs k (now ∷ times) = failed_at l (failed l fs k now) k times
