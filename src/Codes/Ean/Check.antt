-- ===== src/Codes/Ean/Check.antt =====
-- `hasValidCheckDigit` of texts that differ in one place.
use pointofsale.Base.{
  ℕ, ◌+◌, ◌-◌, ◌%◌, ◌≤◌, ◌≡◌, ◌≢◌, true, false, List, [], ◌∷◌, ◌++◌, length, ◌==◌, arith,
  Bool-cases, inl, inr,
}
use pointofsale.Codes.Weighted.{is_digit, reverse, reverse-place, weigh, weigh-change}
use pointofsale.Codes.Ean.{ean_term, is_checked, has_valid_check_digit}

term_injective :
    (i a b : ℕ)
    → is_digit a ≡ true
    → is_digit b ≡ true
    → ean_term i a % 10 ≡ ean_term i b % 10
    → a ≡ b
unfolding ean_term
term_injective i a b ha hb h =
    let la : (48 ≤ a) × (a ≤ 57) = (ground arith, ground arith) in
    let lb : (48 ≤ b) × (b ≤ 57) = (ground arith, ground arith) in
    elim (Bool-cases (i % 2 == 0)) [
      | inl e ↦ let h' = rw e at h in omega (arith, la.0, la.1, lb.0, lb.1)
      | inr e ↦ let h' = rw e at h in omega (arith, la.0, la.1, lb.0, lb.1)
    ]

-- The changed digit is the check digit, or one of the body.
changed :
    (zs ws : List ℕ) (a b : ℕ)
    → is_digit a ≡ true
    → is_digit b ≡ true
    → a ≢ b
    → is_checked (zs ++ a ∷ ws) ≡ true
    → is_checked (zs ++ b ∷ ws) ≡ false
unfolding is_checked
changed [] ws a b ha hb other valid = ground arith
changed (z ∷ zs) ws a b ha hb other valid =
    let sums = weigh-change ean_term 0 zs ws a b in
    elim (Bool-cases ((10 - weigh ean_term 0 (zs ++ b ∷ ws) % 10) % 10 == z - 48)) [
      | inl e ↦
          let terms : ean_term (0 + length zs) a % 10 ≡ ean_term (0 + length zs) b % 10 =
            ground (arith, sums, e, valid) in
          absurd (other (term_injective (0 + length zs) a b ha hb terms))
      | inr e ↦ e
    ]

-- If one digit of a code with a valid check digit is changed to another, be it the check digit itself,
-- the code is no longer valid.
pub has_valid_check_digit_change :
    (xs ys : List ℕ) (a b : ℕ)
    → is_digit a ≡ true
    → is_digit b ≡ true
    → a ≢ b
    → has_valid_check_digit (xs ++ a ∷ ys) ≡ true
    → has_valid_check_digit (xs ++ b ∷ ys) ≡ false
unfolding has_valid_check_digit
has_valid_check_digit_change xs ys a b ha hb other valid =
    let checked : is_checked (reverse (xs ++ a ∷ ys)) ≡ true = ground arith in
    let from_right = rw (reverse-place xs ys a) at checked in
    let broken = changed (reverse ys) (reverse xs) a b ha hb other from_right in
    rw (reverse-place xs ys b) (rw broken (ground arith))
