-- ===== src/Pricing/Spread/Laws.antt =====
-- What the loops that hand out single paise keep.
use pointofsale.Base.{
  ℕ, zero, suc, ◌+◌, ◌-◌, ◌≤◌, ◌<◌, ◌≡◌, sym, subst, ◌⊎◌, inl, inr, refl, Bool, true, false, ◌&&◌,
  ◌||◌, List, [], ◌∷◌, ℤ, ltb, leb, ◌==◌, get_or, modify_at, length, length-modify_at, sum, All,
  All-sort, length-sort, sort, insert, arith, Bool-cases,
}
use pointofsale.Pricing.Spread.{
  Ranked, ranks_before, enumerate, ranking, take_round, take_rounds, give_round, give_rounds,
}

-- The index is in the ranking.
abbrev pub has_index : ℕ → List Ranked → Bool
has_index i [] = false
has_index i (e ∷ es) = i == e.idx || has_index i es

has_index-insert :
    (i : ℕ) (before : Ranked → Ranked → Bool) (x : Ranked) (ys : List Ranked)
    → has_index i (insert before x ys) ≡ (i == x.idx || has_index i ys)
unfolding insert
has_index-insert i before x [] = refl
has_index-insert i before x (y ∷ ys) = ground (arith, has_index-insert i before x ys)

pub has_index-sort :
    (i : ℕ) (before : Ranked → Ranked → Bool) (xs : List Ranked)
    → has_index i (sort before xs) ≡ has_index i xs
unfolding sort
has_index-sort i before [] = refl
has_index-sort i before (x ∷ xs) =
    ground (arith, has_index-insert i before x (sort before xs), has_index-sort i before xs)

pub has_index-enumerate :
    (i k : ℕ) (keys : List ℤ)
    → has_index i (enumerate k keys) ≡ (leb k i && ltb i (k + length keys))
unfolding enumerate
has_index-enumerate i k [] = ground arith
has_index-enumerate i k (x ∷ keys) = ground (arith, has_index-enumerate i (suc k) keys)

-- Every index of the array is ranked.
pub has_index-ranking :
    (i : ℕ) (keys : List ℤ) → i < length keys → has_index i (ranking keys) ≡ true
unfolding ranking
has_index-ranking i keys h =
    ground (arith, has_index-sort i ranks_before (enumerate 0 keys), has_index-enumerate i 0 keys)

-- Every ranked index is one of the array.
abbrev pub InRange : ℕ → List Ranked → Type 0
InRange n = All (λ e. e.idx < n)

pub enumerate-InRange :
    (k n : ℕ) (keys : List ℤ) → k + length keys ≤ n → InRange n (enumerate k keys)
unfolding enumerate
enumerate-InRange k n [] h = tt
enumerate-InRange k n (x ∷ keys) h = (omega arith, enumerate-InRange (suc k) n keys (omega arith))

pub ranking-InRange : (n : ℕ) (keys : List ℤ) → length keys ≡ n → InRange n (ranking keys)
unfolding ranking
ranking-InRange n keys h =
    All-sort ranks_before _ (enumerate 0 keys) (enumerate-InRange 0 n keys (omega arith))

pub sum-modify_at-suc :
    (xs : List ℕ) (i : ℕ) → i < length xs → sum (modify_at xs i suc) ≡ sum xs + 1
sum-modify_at-suc [] i h = absurd (omega arith)
sum-modify_at-suc (x ∷ xs) zero h = omega arith
sum-modify_at-suc (x ∷ xs) (suc i) h = omega (arith, sum-modify_at-suc xs i (omega arith))

sum-modify_at-pred :
    (xs : List ℕ) (i : ℕ) → 0 < get_or xs i 0 → sum (modify_at xs i (λ a. a - 1)) + 1 ≡ sum xs
sum-modify_at-pred [] i h = absurd (omega arith)
sum-modify_at-pred (x ∷ xs) zero h = omega arith
sum-modify_at-pred (x ∷ xs) (suc i) h = omega (arith, sum-modify_at-pred xs i h)

-- An array that is zero at every index sums to zero.
sum_of_zeros : (xs : List ℕ) → ((i : ℕ) → i < length xs → get_or xs i 0 ≡ 0) → sum xs ≡ 0
sum_of_zeros [] z = refl
sum_of_zeros (x ∷ xs) z =
    omega (arith, z 0 (omega arith), sum_of_zeros xs (λ i h. z (suc i) (omega arith)))

give_round-sum :
    (order : List Ranked) (amounts : List ℕ) (r : ℕ)
    → InRange (length amounts) order
    → let (amounts', r') = give_round order amounts r in
      (sum amounts' + r' ≡ sum amounts + r) × (length amounts' ≡ length amounts) × (r' ≤ r)
unfolding give_round
give_round-sum [] amounts r h = ground arith
give_round-sum (e ∷ order) amounts r h =
    let amounts' = modify_at amounts e.idx suc in
    let same = length-modify_at amounts e.idx suc in
    ground (
      arith,
      same,
      sum-modify_at-suc amounts e.idx h.0,
      give_round-sum order amounts' (r - 1) (rw same h.1),
    )

give_round_progress :
    (e : Ranked) (order : List Ranked) (amounts : List ℕ) (r : ℕ)
    → InRange (length amounts) (e ∷ order)
    → 0 < r
    → (give_round (e ∷ order) amounts r).1 < r
unfolding give_round
give_round_progress e order amounts r h p =
    let amounts' = modify_at amounts e.idx suc in
    let same = length-modify_at amounts e.idx suc in
    ground (arith, give_round-sum order amounts' (r - 1) (rw same h.1))

-- With as much fuel as there is to give, all of it is given.
pub give_rounds-sum :
    (fuel : ℕ) (e : Ranked) (order : List Ranked) (amounts : List ℕ) (r : ℕ)
    → InRange (length amounts) (e ∷ order)
    → r ≤ fuel
    → (sum (give_rounds fuel (e ∷ order) amounts r) ≡ sum amounts + r)
      × (length (give_rounds fuel (e ∷ order) amounts r) ≡ length amounts)
unfolding give_rounds
give_rounds-sum zero e order amounts r h f = omega arith
give_rounds-sum (suc fuel) e order amounts r h f = elim (Bool-cases (r == 0)) [
  | inl done ↦ ground arith
  | inr more ↦
      let next = give_round (e ∷ order) amounts r in
      let (balance, same, down) = give_round-sum (e ∷ order) amounts r h in
      let less = give_round_progress e order amounts r h (ground arith) in
      let ih =
        give_rounds-sum fuel e order next.0 next.1 (subst (λ n. InRange n (e ∷ order)) (sym same) h)
          (omega arith) in
      ground (arith, ih, balance, same, more)
]

take_round-sum :
    (order : List Ranked) (amounts : List ℕ) (x : ℕ)
    → let (amounts', x') = take_round order amounts x in
      (sum amounts' + x ≡ sum amounts + x') × (length amounts' ≡ length amounts) × (x' ≤ x)
unfolding take_round
take_round-sum [] amounts x = ground arith
take_round-sum (e ∷ order) amounts x =
    let amounts' = modify_at amounts e.idx (λ a. a - 1) in
    ground (
      arith,
      length-modify_at amounts e.idx (λ a. a - 1),
      sum-modify_at-pred amounts e.idx,
      take_round-sum order amounts x,
      take_round-sum order amounts' (x - 1),
    )

-- A round takes something, unless every ranked entry is at zero.
take_round_progress :
    (order : List Ranked) (amounts : List ℕ) (x : ℕ)
    → 0 < x
    → ((take_round order amounts x).1 < x)
      ⊎ ((i : ℕ) → has_index i order ≡ true → get_or amounts i 0 ≡ 0)
unfolding take_round
take_round_progress [] amounts x p = inr (λ i h. ground arith)
take_round_progress (e ∷ order) amounts x p =
    let amounts' = modify_at amounts e.idx (λ a. a - 1) in
    elim (Bool-cases (ltb (get_or amounts e.idx 0) 1)) [
      | inl empty ↦ elim (take_round_progress order amounts x p) [
        | inl less ↦ inl (ground arith)
        | inr zeros ↦ inr (λ i h. ground (arith, zeros i))
      ]
      | inr full ↦ inl (ground (arith, take_round-sum order amounts' (x - 1)))
    ]

-- With as much fuel as the excess, and no more excess than there is, all of it is taken.
pub take_rounds-sum :
    (fuel : ℕ) (e : Ranked) (order : List Ranked) (amounts : List ℕ) (x : ℕ)
    → ((i : ℕ) → i < length amounts → has_index i (e ∷ order) ≡ true)
    → x ≤ fuel
    → x ≤ sum amounts
    → (sum (take_rounds fuel (e ∷ order) amounts x) + x ≡ sum amounts)
      × (length (take_rounds fuel (e ∷ order) amounts x) ≡ length amounts)
unfolding take_rounds
take_rounds-sum zero e order amounts x covers f enough = omega arith
take_rounds-sum (suc fuel) e order amounts x covers f enough = elim (Bool-cases (x == 0)) [
  | inl done ↦ ground arith
  | inr more ↦ elim (take_round_progress (e ∷ order) amounts x (ground arith)) [
    | inl less ↦
        let next = take_round (e ∷ order) amounts x in
        let (balance, same, down) = take_round-sum (e ∷ order) amounts x in
        let ih =
          take_rounds-sum fuel e order next.0 next.1 (λ i h. covers i (omega arith)) (omega arith)
            (omega arith) in
        ground (arith, ih, balance, same, more)
    | inr zeros ↦
        let none_left = sum_of_zeros amounts (λ i h. zeros i (covers i h)) in absurd (ground arith)
  ]
]

length-enumerate : (k : ℕ) (keys : List ℤ) → length (enumerate k keys) ≡ length keys
unfolding enumerate
length-enumerate k [] = refl
length-enumerate k (x ∷ keys) = omega (arith, length-enumerate (suc k) keys)

pub length-ranking : (keys : List ℤ) → length (ranking keys) ≡ length keys
unfolding ranking
length-ranking keys =
    omega (arith, length-sort ranks_before (enumerate 0 keys), length-enumerate 0 keys)
