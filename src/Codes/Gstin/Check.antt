-- ===== src/Codes/Gstin/Check.antt =====
-- `gstinCheckCharacter` of texts that differ in one place.
use pointofsale.Base.{
  ℕ, ◌+◌, ◌-◌, ◌%◌, ◌<◌, ◌≡◌, ◌≢◌, true, ◌||◌, List, ◌∷◌, ◌++◌, length, ◌==◌, arith, Bool-cases,
  inl, inr,
}
use pointofsale.Codes.Weighted.{is_digit, is_upper, weigh, weigh-change}
use pointofsale.Codes.Gstin.{char_index, gstin_char, gstin_term, gstin_check_character}

char_index_lt : (c : ℕ) → (is_digit c || is_upper c) ≡ true → char_index c < 36
unfolding char_index
char_index_lt c h = ground arith

char_index_injective :
    (c d : ℕ)
    → (is_digit c || is_upper c) ≡ true
    → (is_digit d || is_upper d) ≡ true
    → char_index c ≡ char_index d
    → c ≡ d
unfolding char_index
char_index_injective c d hc hd h = ground arith

term_injective :
    (i a b : ℕ)
    → (is_digit a || is_upper a) ≡ true
    → (is_digit b || is_upper b) ≡ true
    → gstin_term i a % 36 ≡ gstin_term i b % 36
    → char_index a ≡ char_index b
unfolding gstin_term
term_injective i a b ha hb h =
    let la = char_index_lt a ha in
    let lb = char_index_lt b hb in
    elim (Bool-cases (i % 2 == 0)) [
      | inl e ↦ let h' = rw e at h in omega arith
      | inr e ↦ let h' = rw e at h in omega arith
    ]

gstin_char_injective : (i j : ℕ) → i < 36 → j < 36 → gstin_char i ≡ gstin_char j → i ≡ j
unfolding gstin_char
gstin_char_injective i j hi hj h = ground arith

-- If one of the characters that a check character is worked out from is changed to another digit or
-- capital letter, the check character changes.
pub gstin_check_character_change :
    (xs ys : List ℕ) (a b : ℕ)
    → (is_digit a || is_upper a) ≡ true
    → (is_digit b || is_upper b) ≡ true
    → a ≢ b
    → gstin_check_character (xs ++ a ∷ ys) ≢ gstin_check_character (xs ++ b ∷ ys)
unfolding gstin_check_character
gstin_check_character_change xs ys a b ha hb other same =
    let s = weigh gstin_term 0 (xs ++ a ∷ ys) in
    let s' = weigh gstin_term 0 (xs ++ b ∷ ys) in
    let sums = weigh-change gstin_term 0 xs ys a b in
    let checks : (36 - s % 36) % 36 ≡ (36 - s' % 36) % 36 =
      gstin_char_injective _ _ (omega arith) (omega arith) same in
    let terms : gstin_term (0 + length xs) a % 36 ≡ gstin_term (0 + length xs) b % 36 =
      omega arith in
    other (char_index_injective a b ha hb (term_injective (0 + length xs) a b ha hb terms))
