-- ===== src/Codes/Weighted.antt =====
-- Characters, and the sums over a code in which each place has its own weight.
use pointofsale.Base.{
  ℕ, ◌+◌, ◌-◌, ◌*◌, ◌≡◌, refl, ap, ◌∙◌, Bool, true, ◌&&◌, List, [], ◌∷◌, ◌++◌, length, leb, arith,
}

abbrev pub is_digit : ℕ → Bool
is_digit c = leb 48 c && leb c 57

abbrev pub is_upper : ℕ → Bool
is_upper c = leb 65 c && leb c 90

abbrev pub every : (ℕ → Bool) → List ℕ → Bool
every p [] = true
every p (c ∷ cs) = p c && every p cs

abbrev pub reverse : List ℕ → List ℕ
reverse [] = []
reverse (c ∷ cs) = reverse cs ++ c ∷ []

-- `Number` of a text of digits.
unfoldable pub number_from : ℕ → List ℕ → ℕ
number_from n [] = n
number_from n (c ∷ cs) = number_from (n * 10 + (c - 48)) cs

abbrev pub number : List ℕ → ℕ
number = number_from 0

-- `reduce((sum, c, index) => sum + f(index, c))` from an index on.
unfoldable pub weigh : (ℕ → ℕ → ℕ) → ℕ → List ℕ → ℕ
weigh f i [] = 0
weigh f i (c ∷ cs) = f i c + weigh f (i + 1) cs

pub every-append : (p : ℕ → Bool) (xs ys : List ℕ) → every p (xs ++ ys) ≡ (every p xs && every p ys)
every-append p [] ys = refl
every-append p (x ∷ xs) ys = ground (arith, every-append p xs ys)

append_assoc : (xs ys zs : List ℕ) → (xs ++ ys) ++ zs ≡ xs ++ (ys ++ zs)
append_assoc [] ys zs = refl
append_assoc (x ∷ xs) ys zs = ap (λ l. x ∷ l) (append_assoc xs ys zs)

-- A place of a code, from the other end.
pub reverse-place : (xs ys : List ℕ) (d : ℕ) → reverse (xs ++ d ∷ ys) ≡ reverse ys ++ d ∷ reverse xs
reverse-place [] ys d = refl
reverse-place (x ∷ xs) ys d =
    ap (λ l. l ++ x ∷ []) (reverse-place xs ys d)
    ∙ append_assoc (reverse ys) (d ∷ reverse xs) (x ∷ [])

-- Changing one place changes the sum by the change of its own term.
pub weigh-change :
    (f : ℕ → ℕ → ℕ) (i : ℕ) (xs ys : List ℕ) (d e : ℕ)
    → weigh f i (xs ++ d ∷ ys) + f (i + length xs) e
      ≡ weigh f i (xs ++ e ∷ ys) + f (i + length xs) d
unfolding weigh
weigh-change f i [] ys d e = ground arith
weigh-change f i (x ∷ xs) ys d e = ground (arith, weigh-change f (i + 1) xs ys d e)
