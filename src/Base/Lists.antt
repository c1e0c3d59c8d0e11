-- ===== src/Base/Lists.antt =====
-- Lists measured, indexed and summed by native numbers, under the library's names.
use Prim.Native.Nat.{ℕ, zero, suc, ◌+◌}
use mathlib.Core.Path.{◌≡◌, refl, ap}
use mathlib.Core.List.{List, [], ◌∷◌, ◌++◌, map}
use mathlib.Core.Bool.{Bool, true, false}
use mathlib.Core.Logic.{◌⊎◌, ◌↔◌, inl, inr}
use native.Mathlib.Omega.{arith}
use pointofsale.Base.Tests.{if◌then◌else◌, Bool-cases}

module _ {ℓ} {A : Type ℓ} where
  abbrev pub length : List A → ℕ
  length [] = 0
  length (x ∷ xs) = suc (length xs)

  abbrev pub get_or : List A → ℕ → A → A
  get_or [] i d = d
  get_or (x ∷ xs) zero d = x
  get_or (x ∷ xs) (suc i) d = get_or xs i d

  -- Change the element at an index; out of bounds nothing changes.
  abbrev pub modify_at : List A → ℕ → (A → A) → List A
  modify_at [] i f = []
  modify_at (x ∷ xs) zero f = f x ∷ xs
  modify_at (x ∷ xs) (suc i) f = x ∷ modify_at xs i f

  pub length-append : (xs ys : List A) → length (xs ++ ys) ≡ length xs + length ys
  length-append [] ys = omega arith
  length-append (x ∷ xs) ys = omega (arith, length-append xs ys)

  pub length-modify_at : (xs : List A) (i : ℕ) (f : A → A) → length (modify_at xs i f) ≡ length xs
  length-modify_at [] i f = refl
  length-modify_at (x ∷ xs) zero f = refl
  length-modify_at (x ∷ xs) (suc i) f = ap suc (length-modify_at xs i f)

  abbrev pub All {κ} : (A → Type κ) → List A → Type κ
  All P [] = Unit
  All P (x ∷ xs) = P x × All P xs

  pub All-append {κ} : (P : A → Type κ) (xs ys : List A) → All P xs → All P ys → All P (xs ++ ys)
  All-append P [] ys hx hy = hy
  All-append P (x ∷ xs) ys hx hy = (hx.0, All-append P xs ys hx.1 hy)

  pub All-map {κ μ} :
      (P : A → Type κ) (Q : A → Type μ) (xs : List A) → ((x : A) → P x → Q x) → All P xs → All Q xs
  All-map P Q [] f h = tt
  All-map P Q (x ∷ xs) f h = (f x h.0, All-map P Q xs f h.1)

  pub All-every {κ} : (P : A → Type κ) (xs : List A) → ((x : A) → P x) → All P xs
  All-every P [] f = tt
  All-every P (x ∷ xs) f = (f x, All-every P xs f)

  -- `Array.prototype.filter`.
  abbrev pub filter : (A → Bool) → List A → List A
  filter p [] = []
  filter p (x ∷ xs) = if p x then x ∷ filter p xs else filter p xs

  pub All-filter {κ} :
      (P : A → Type κ) (p : A → Bool) (xs : List A) → All P xs → All P (filter p xs)
  All-filter P p [] h = tt
  All-filter P p (x ∷ xs) h = elim (Bool-cases (p x)) [
    | inl e ↦ rw e (h.0, All-filter P p xs h.1)
    | inr e ↦ rw e (All-filter P p xs h.1)
  ]

  -- What is kept passes the test.
  pub filter-All {κ} :
      (P : A → Type κ) (p : A → Bool) (xs : List A)
      → All (λ x. p x ≡ true → P x) xs
      → All P (filter p xs)
  filter-All P p [] h = tt
  filter-All P p (x ∷ xs) h = elim (Bool-cases (p x)) [
    | inl e ↦ rw e (h.0 e, filter-All P p xs h.1)
    | inr e ↦ rw e (filter-All P p xs h.1)
  ]

  -- The sum of a measure, in the order that `reduce` adds.
  abbrev pub sum_by : (A → ℕ) → List A → ℕ
  sum_by f [] = 0
  sum_by f (x ∷ xs) = f x + sum_by f xs

  pub sum_by-append : (f : A → ℕ) (xs ys : List A) → sum_by f (xs ++ ys) ≡ sum_by f xs + sum_by f ys
  sum_by-append f [] ys = omega arith
  sum_by-append f (x ∷ xs) ys = omega (arith, sum_by-append f xs ys)

-- Every element is so related to each one after it.
module _ {ℓ} {A : Type ℓ} where
  abbrev pub Pairwise : (A → A → Type 0) → List A → Type 0
  Pairwise R [] = Unit {0}
  Pairwise R (x ∷ xs) = All (R x) xs × Pairwise R xs

  pub Pairwise-append :
      (R : A → A → Type 0) (xs ys : List A)
      → Pairwise R xs
      → Pairwise R ys
      → All (λ x. All (R x) ys) xs
      → Pairwise R (xs ++ ys)
  Pairwise-append R [] ys hx hy h = hy
  Pairwise-append R (x ∷ xs) ys hx hy h =
      (All-append (R x) xs ys hx.0 h.0, Pairwise-append R xs ys hx.1 hy h.1)

abbrev pub sum : List ℕ → ℕ
sum [] = 0
sum (x ∷ xs) = x + sum xs

pub sum-map {ℓ} : {A : Type ℓ} (f : A → ℕ) (xs : List A) → sum (map f xs) ≡ sum_by f xs
sum-map f [] = refl
sum-map f (x ∷ xs) = omega (arith, sum-map f xs)

pub length-map {ℓ κ} :
    {A : Type ℓ} {B : Type κ} (f : A → B) (xs : List A) → length (map f xs) ≡ length xs
length-map f [] = refl
length-map f (x ∷ xs) = ap suc (length-map f xs)

pub sum_by-map {ℓ κ} :
    {A : Type ℓ} {B : Type κ} (f : B → ℕ) (g : A → B) (xs : List A)
    → sum_by f (map g xs) ≡ sum_by (λ a. f (g a)) xs
sum_by-map f g [] = refl
sum_by-map f g (x ∷ xs) = omega (arith, sum_by-map f g xs)

pub map-All {ℓ κ μ} :
    {A : Type ℓ} {B : Type κ} (P : B → Type μ) (f : A → B) (xs : List A)
    → All (λ a. P (f a)) xs
    → All P (map f xs)
map-All P f [] h = tt
map-All P f (x ∷ xs) h = (h.0, map-All P f xs h.1)

kept : {P Q R : Type 0} → (Q → R) → P ⊎ Q → (P × (true ≡ true)) ⊎ R
kept f (inl p) = inl (p, refl)
kept f (inr q) = inr (f q)

kept_back : {P Q R : Type 0} → (R → Q) → (P × (true ≡ true)) ⊎ R → P ⊎ Q
kept_back f (inl p) = inl p.0
kept_back f (inr r) = inr (f r)

dropped : {P Q R : Type 0} → (R → Q) → (P × (false ≡ true)) ⊎ R → Q
dropped f (inl p) = ground (arith, p.1)
dropped f (inr r) = f r

right_only : {Q : Type 0} → ⊥ ⊎ Q → Q
right_only (inl n) = absurd n
right_only (inr q) = q

assoc : {P Q R S : Type 0} → (S → Q ⊎ R) → P ⊎ S → (P ⊎ Q) ⊎ R
assoc f (inl p) = inl (inl p)
assoc f (inr s) = elim (f s) [ inl q ↦ inl (inr q) | inr r ↦ inr r ]

assoc_back : {P Q R S : Type 0} → (Q ⊎ R → S) → (P ⊎ Q) ⊎ R → P ⊎ S
assoc_back f (inl (inl p)) = inl p
assoc_back f (inl (inr q)) = inr (f (inl q))
assoc_back f (inr r) = inr (f (inr r))

module _ {A : Type 0} where
  abbrev pub Any : (A → Type 0) → List A → Type 0
  Any P [] = ⊥
  Any P (x ∷ xs) = P x ⊎ Any P xs

  pub Any-map : (P Q : A → Type 0) (xs : List A) → ((x : A) → P x → Q x) → Any P xs → Any Q xs
  Any-map P Q [] f h = absurd h
  Any-map P Q (x ∷ xs) f (inl p) = inl (f x p)
  Any-map P Q (x ∷ xs) f (inr h) = inr (Any-map P Q xs f h)

  -- Every element is one of the list.
  pub All-Any : (xs : List A) → All (λ x. Any (λ y. x ≡ y) xs) xs
  All-Any [] = tt
  All-Any (x ∷ xs) = (
    inl refl,
    All-map (λ y. Any (λ z. y ≡ z) xs) (λ y. Any (λ z. y ≡ z) (x ∷ xs)) xs (λ y h. inr h)
        (All-Any xs),
  )

  -- What is kept is what passes the test.
  pub Any-filter :
      (P : A → Type 0) (p : A → Bool) (xs : List A)
      → Any P (filter p xs) ↔ Any (λ x. P x × (p x ≡ true)) xs
  Any-filter P p [] = (λ h. h, λ h. h)
  Any-filter P p (x ∷ xs) =
      let rest = Any-filter P p xs in
      elim (Bool-cases (p x)) [
        | inl e ↦ rw e (kept rest.0, kept_back rest.1)
        | inr e ↦ rw e (λ h. inr (rest.0 h), dropped rest.1)
      ]

  pub Any-append : (P : A → Type 0) (xs ys : List A) → Any P (xs ++ ys) ↔ (Any P xs ⊎ Any P ys)
  Any-append P [] ys = (λ h. inr h, right_only)
  Any-append P (x ∷ xs) ys = let rest = Any-append P xs ys in (assoc rest.0, assoc_back rest.1)

  pub Any-const : {P : Type 0} (xs : List A) → Any (λ x. P) xs → P
  Any-const [] h = absurd h
  Any-const (x ∷ xs) (inl p) = p
  Any-const (x ∷ xs) (inr h) = Any-const xs h
