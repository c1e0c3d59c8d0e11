-- ===== src/Service/Version/Order.antt =====
-- `isOlderVersion` as an order.
use Prim.Native.Nat.{max}
use pointofsale.Base.{
  ℕ, zero, suc, ◌+◌, ◌-◌, ◌≤◌, ◌≡◌, refl, ◌∙◌, sym, true, false, List, [], ◌∷◌, length, ◌==◌, arith,
  Bool-cases, inl, inr,
}
use pointofsale.Service.Version.{head_or_0, tail, older_in, is_older_version}

false_not_true : false ≡ true → ⊥
false_not_true h = ground arith

older_in-nil : (n : ℕ) → older_in n [] [] ≡ false
unfolding older_in
older_in-nil zero = refl
older_in-nil (suc n) = older_in-nil n

length-tail : (xs : List ℕ) (n : ℕ) → length xs ≤ suc n → length (tail xs) ≤ n
length-tail [] n h = omega arith
length-tail (x ∷ xs) n h = omega arith

-- Comparing parts beyond both versions changes nothing.
older_in-more :
    (n k : ℕ) (a b : List ℕ) → length a ≤ n → length b ≤ n → older_in (n + k) a b ≡ older_in n a b
unfolding older_in
older_in-more zero k [] [] la lb = older_in-nil (0 + k)
older_in-more zero k (x ∷ a) b la lb = ground (arith, la)
older_in-more zero k [] (y ∷ b) la lb = ground (arith, lb)
older_in-more (suc n) k a b la lb =
    let one_more : suc n + k ≡ suc (n + k) = omega arith in
    let rest = older_in-more n k (tail a) (tail b) (length-tail a n la) (length-tail b n lb) in
    rw one_more (ground (arith, rest))

older_in_trans :
    (n : ℕ) (a b c : List ℕ) → older_in n a b ≡ true → older_in n b c ≡ true → older_in n a c ≡ true
unfolding older_in
older_in_trans zero a b c h1 h2 = h1
older_in_trans (suc n) a b c h1 h2 = elim (Bool-cases (head_or_0 a == head_or_0 b)) [
  | inl e ↦ elim (Bool-cases (head_or_0 b == head_or_0 c)) [
    | inl f ↦
        ground (arith, e, f, older_in_trans n (tail a) (tail b) (tail c) (rw e at h1) (rw f at h2))
    | inr f ↦ ground (arith, e, f, h2)
  ]
  | inr e ↦ ground (arith, e, h1, h2)
]

older_in_irrefl : (n : ℕ) (a : List ℕ) → older_in n a a ≡ false
unfolding older_in
older_in_irrefl zero a = refl
older_in_irrefl (suc n) a = ground (arith, older_in_irrefl n (tail a))

-- Any number of parts to compare will do that reaches the end of both.
is_older_version-older_in :
    (n : ℕ) (a b : List ℕ)
    → 3 ≤ n
    → length a ≤ n
    → length b ≤ n
    → is_older_version a b ≡ older_in n a b
unfolding is_older_version
is_older_version-older_in n a b l3 la lb =
    let m = max (max (length a) (length b)) 3 in
    let split : n ≡ m + (n - m) = omega arith in
    rw split (sym (older_in-more m (n - m) a b (omega arith) (omega arith)))

-- A version older than a second, which is older than a third, is older than the third; the second is
-- then not older than the first; and no version is older than itself.
pub is_older_version_strict :
    (a b c : List ℕ)
    → is_older_version a b ≡ true
    → is_older_version b c ≡ true
    → (is_older_version a c ≡ true)
      × (is_older_version b a ≡ false)
      × (is_older_version a a ≡ false)
is_older_version_strict a b c h1 h2 =
    let n = length a + length b + length c + 3 in
    let ab = is_older_version-older_in n a b (omega arith) (omega arith) (omega arith) in
    let bc = is_older_version-older_in n b c (omega arith) (omega arith) (omega arith) in
    let ac = is_older_version-older_in n a c (omega arith) (omega arith) (omega arith) in
    let ba = is_older_version-older_in n b a (omega arith) (omega arith) (omega arith) in
    let aa = is_older_version-older_in n a a (omega arith) (omega arith) (omega arith) in
    let g1 = sym ab ∙ h1 in
    let none_older = older_in_irrefl n a in
    (
      ac ∙ older_in_trans n a b c g1 (sym bc ∙ h2),
      elim (Bool-cases (older_in n b a)) [
        | inl e ↦ absurd (false_not_true (sym none_older ∙ older_in_trans n a b a g1 e))
        | inr e ↦ ba ∙ e
      ],
      aa ∙ none_older,
    )
