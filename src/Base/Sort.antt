-- ===== src/Base/Sort.antt =====
-- `Array.prototype.sort` with a comparison: a stable sort, by insertion. `before a b` says that the
-- comparison of `a` with `b` is not positive: `a` stays in front.
use Prim.Native.Nat.{ℕ, ◌+◌}
use mathlib.Core.Path.{◌≡◌, refl}
use mathlib.Core.Logic.{◌⊎◌, ◌↔◌, inl, inr}
use mathlib.Core.Bool.{Bool, true, false}
use mathlib.Core.List.{List, [], ◌∷◌}
use native.Mathlib.Omega.{arith}
use pointofsale.Base.Tests.{if◌then◌else◌, Bool-cases}
use pointofsale.Base.Lists.{length, All, All-map, Any, Pairwise, sum_by}

module _ {ℓ} {A : Type ℓ} (before : A → A → Bool) where
  unfoldable pub insert : A → List A → List A
  insert x [] = x ∷ []
  insert x (y ∷ ys) = if before x y then x ∷ y ∷ ys else y ∷ insert x ys

  unfoldable pub sort : List A → List A
  unfolding insert
  sort [] = []
  sort (x ∷ xs) = insert x (sort xs)

  pub sum_by-insert : (f : A → ℕ) (x : A) (ys : List A) → sum_by f (insert x ys) ≡ f x + sum_by f ys
  unfolding insert
  sum_by-insert f x [] = refl
  sum_by-insert f x (y ∷ ys) = ground (arith, sum_by-insert f x ys)

  -- Sorting keeps the sum of every measure.
  pub sum_by-sort : (f : A → ℕ) (xs : List A) → sum_by f (sort xs) ≡ sum_by f xs
  unfolding sort
  sum_by-sort f [] = refl
  sum_by-sort f (x ∷ xs) = ground (arith, sum_by-insert f x (sort xs), sum_by-sort f xs)

  pub length-insert : (x : A) (ys : List A) → length (insert x ys) ≡ 1 + length ys
  unfolding insert
  length-insert x [] = refl
  length-insert x (y ∷ ys) = ground (arith, length-insert x ys)

  pub length-sort : (xs : List A) → length (sort xs) ≡ length xs
  unfolding sort
  length-sort [] = refl
  length-sort (x ∷ xs) = ground (arith, length-insert x (sort xs), length-sort xs)

  pub All-insert {κ} : (P : A → Type κ) (x : A) (ys : List A) → P x → All P ys → All P (insert x ys)
  unfolding insert
  All-insert P x [] p ps = (p, tt)
  All-insert P x (y ∷ ys) p ps = elim (Bool-cases (before x y)) [
    | inl e ↦ rw e (p, ps)
    | inr e ↦ rw e (ps.0, All-insert P x ys p ps.1)
  ]

  pub All-sort {κ} : (P : A → Type κ) (xs : List A) → All P xs → All P (sort xs)
  unfolding sort
  All-sort P [] ps = tt
  All-sort P (x ∷ xs) ps = All-insert P x (sort xs) ps.0 (All-sort P xs ps.1)

  -- Each element is before the next.
  abbrev pub IsSorted : List A → Type 0
  IsSorted [] = Unit {0}
  IsSorted (x ∷ []) = Unit {0}
  IsSorted (x ∷ y ∷ ys) = (before x y ≡ true) × IsSorted (y ∷ ys)

  module _ (total : (a b : A) → before a b ≡ false → before b a ≡ true) where
    insert-IsSorted : (x : A) (ys : List A) → IsSorted ys → IsSorted (insert x ys)
    unfolding insert
    insert-IsSorted x [] s = tt
    insert-IsSorted x (y ∷ []) s = elim (Bool-cases (before x y)) [
      | inl e ↦ rw e (e, tt)
      | inr e ↦ rw e (total x y e, tt)
    ]
    insert-IsSorted x (y ∷ z ∷ zs) s = elim (Bool-cases (before x y)) [
      | inl e ↦ rw e (e, s)
      | inr e ↦
          let ih = insert-IsSorted x (z ∷ zs) s.1 in
          elim (Bool-cases (before x z)) [
            | inl f ↦ rw (e, f) (total x y e, (f, s.1))
            | inr f ↦ rw (e, f) (s.0, rw f at ih)
          ]
    ]

    pub sort-IsSorted : (xs : List A) → IsSorted (sort xs)
    unfolding sort
    sort-IsSorted [] = tt
    sort-IsSorted (x ∷ xs) = insert-IsSorted x (sort xs) (sort-IsSorted xs)

  -- A sorted list is in the order of a transitive relation that the comparison decides.
  module _ (R : A → A → Type 0) (yes : (a b : A) → before a b ≡ true → R a b)
      (no : (a b : A) → before a b ≡ false → R b a)
      (trans : (a b c : A) → R a b → R b c → R a c) where
    insert-Pairwise : (x : A) (ys : List A) → Pairwise R ys → Pairwise R (insert x ys)
    unfolding insert
    insert-Pairwise x [] h = (tt, tt)
    insert-Pairwise x (y ∷ ys) h = elim (Bool-cases (before x y)) [
      | inl e ↦
          let first = yes x y e in
          rw e ((first, All-map (R y) (R x) ys (λ z r. trans x y z first r) h.0), h)
      | inr e ↦ rw e (All-insert (R y) x ys (no x y e) h.0, insert-Pairwise x ys h.1)
    ]

    pub sort-Pairwise : (xs : List A) → Pairwise R (sort xs)
    unfolding sort
    sort-Pairwise [] = tt
    sort-Pairwise (x ∷ xs) = insert-Pairwise x (sort xs) (sort-Pairwise xs)

inr_map : {A B C : Type 0} → (B → C) → A ⊎ B → A ⊎ C
inr_map f (inl a) = inl a
inr_map f (inr b) = inr (f b)

swapped : {A B C D : Type 0} → (A → B ⊎ C) → D ⊎ A → B ⊎ (D ⊎ C)
swapped f (inl d) = inr (inl d)
swapped f (inr a) = inr_map inr (f a)

swapped_back : {A B C D : Type 0} → (B ⊎ C → A) → B ⊎ (D ⊎ C) → D ⊎ A
swapped_back f (inl b) = inr (f (inl b))
swapped_back f (inr (inl d)) = inl d
swapped_back f (inr (inr c)) = inr (f (inr c))

module _ {A : Type 0} (before : A → A → Bool) (P : A → Type 0) where
  Any-insert : (x : A) (ys : List A) → Any P (insert before x ys) ↔ (P x ⊎ Any P ys)
  unfolding insert
  Any-insert x [] = (λ h. h, λ h. h)
  Any-insert x (y ∷ ys) = elim (Bool-cases (before x y)) [
    | inl e ↦ rw e (λ h. h, λ h. h)
    | inr e ↦ let rest = Any-insert x ys in rw e (swapped rest.0, swapped_back rest.1)
  ]

  pub Any-sort : (xs : List A) → Any P (sort before xs) ↔ Any P xs
  unfolding sort
  Any-sort [] = (λ h. h, λ h. h)
  Any-sort (x ∷ xs) =
      let first = Any-insert x (sort before xs) in
      let rest = Any-sort xs in (λ h. inr_map rest.0 (first.0 h), λ h. first.1 (inr_map rest.1 h))
