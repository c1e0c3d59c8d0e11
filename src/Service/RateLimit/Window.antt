-- ===== src/Service/RateLimit/Window.antt =====
-- `assertAllowed` after failures, by when they were.
use pointofsale.Base.{
  ℕ, suc, ◌+◌, ◌≤◌, ◌<◌, ◌≡◌, refl, subst, true, not, none, some, List, [], ◌∷◌, length, ltb, ◌==◌,
  filter, All, arith, Bool-cases, inl, inr,
}
use pointofsale.Service.RateLimit.{
  Failure, Limits, get, delete, set, check_entry, assert_allowed, next_failure, prune, failed,
  failed_at, succeeded,
}

get-delete : (k : ℕ) (fs : List Failure) → get k (delete k fs) ≡ none
get-delete k [] = refl
get-delete k (f ∷ fs) = ground (arith, get-delete k fs)

get-set : (e : Failure) (fs : List Failure) → get e.key (set e fs) ≡ some e
get-set e [] = ground arith
get-set e (f ∷ fs) = ground (arith, get-set e fs)

get-filter :
    (k now : ℕ) (fs : List Failure) (e : Failure)
    → get k fs ≡ some e
    → now ≤ e.until
    → get k (filter (λ f. not (ltb f.until now)) fs) ≡ some e
get-filter k now [] e h live = ground arith
get-filter k now (f ∷ fs) e h live = elim (Bool-cases (f.key == k)) [
  | inl same ↦ ground (arith, h, live)
  | inr other ↦ let ih = get-filter k now fs e (rw other at h) live in ground (arith, ih)
]

get-key : (k : ℕ) (fs : List Failure) (e : Failure) → get k fs ≡ some e → e.key ≡ k
get-key k [] e h = ground arith
get-key k (f ∷ fs) e h = elim (Bool-cases (f.key == k)) [
  | inl same ↦ let this = rw same at h in ground (arith, this, same)
  | inr other ↦ get-key k fs e (rw other at h)
]

prune-get :
    (k now : ℕ) (fs : List Failure) (e : Failure)
    → get k fs ≡ some e
    → now ≤ e.until
    → get k (prune now fs) ≡ some e
prune-get k now fs e h live = elim (Bool-cases (ltb 10_000 (length fs))) [
  | inl many ↦ rw many (get-filter k now fs e h live)
  | inr few ↦ rw few h
]

failed-new :
    (l : Limits) (fs : List Failure) (k now : ℕ)
    → get k fs ≡ none
    → get k (failed l fs k now) ≡ some (record { key = k; count = 1; until = now + l.window_ms })
unfolding failed
failed-new l fs k now fresh =
    let e : Failure = record { key = k; count = 1; until = now + l.window_ms } in
    rw fresh (prune-get k now (set e fs) e (get-set e fs) (omega arith))

failed-more :
    (l : Limits) (fs : List Failure) (k now : ℕ) (f : Failure)
    → get k fs ≡ some f
    → now ≤ f.until
    → get k (failed l fs k now) ≡ some (record f { count = f.count + 1 })
unfolding failed
failed-more l fs k now f has live =
    let e : Failure = record f { count = f.count + 1 } in
    let counted : next_failure l k now (some f) ≡ e = ground arith in
    let there : get k (set e fs) ≡ some e =
      subst (λ j. get j (set e fs) ≡ some e) (get-key k fs f has) (get-set e fs) in
    rw has (rw counted (prune-get k now (set e fs) e there live))

failed_at-count :
    (l : Limits) (k : ℕ) (times : List ℕ) (fs : List Failure) (f : Failure)
    → get k fs ≡ some f
    → All (λ now. now ≤ f.until) times
    → get k (failed_at l fs k times) ≡ some (record f { count = f.count + length times })
unfolding failed_at
failed_at-count l k [] fs f has within =
    let none_more : f.count + 0 ≡ f.count = omega arith in rw none_more has
failed_at-count l k (now ∷ times) fs f has within =
    let one_more : f.count + suc (length times) ≡ (f.count + 1) + length times = omega arith in
    rw one_more (
      failed_at-count l k times (failed l fs k now) (record f { count = f.count + 1 })
        (failed-more l fs k now f has within.0) within.1)

-- After a first failure and more within its window, an attempt in the window is let through just when
-- there were fewer failures than the most allowed; one after the window is let through, and one after
-- a success is.
pub assert_allowed-failed_at :
    (l : Limits) (fs : List Failure) (k first now later : ℕ) (times : List ℕ)
    → get k fs ≡ none
    → All (λ t. t ≤ first + l.window_ms) times
    → now ≤ first + l.window_ms
    → first + l.window_ms < later
    → let after = failed_at l (failed l fs k first) k times in
      ((assert_allowed l after k now).0 ≡ ltb (1 + length times) l.max_failures)
      × ((assert_allowed l after k later).0 ≡ true)
      × ((assert_allowed l (succeeded after k) k now).0 ≡ true)
unfolding assert_allowed check_entry succeeded
assert_allowed-failed_at l fs k first now later times fresh within inside outside =
    let after = failed_at l (failed l fs k first) k times in
    let has =
      failed_at-count l k times (failed l fs k first)
        (record { key = k; count = 1; until = first + l.window_ms }) (failed-new l fs k first fresh)
        within in
    (rw has (ground arith), rw has (ground arith), rw (get-delete k after) refl)
