-- ===== src/Pricing/Allocation/Laws.antt =====
-- The rounds of `allocateDiscountAcrossBases`.
use pointofsale.Base.{
  ℕ, zero, suc, ◌+◌, ◌-◌, ◌≤◌, ◌<◌, ◌≡◌, ◌⊎◌, inl, inr, refl, Bool, true, false, List, [], ◌∷◌, ltb,
  ◌==◌, length, get_or, modify_at, sum, arith, Bool-cases,
}
use pointofsale.Pricing.Spread.{Ranked}
use pointofsale.Pricing.Spread.Laws.{has_index, sum-modify_at-suc}
use pointofsale.Pricing.Allocation.{headroom, allocate_round}

-- One share for each base, and none above it.
abbrev pub Within : List ℕ → List ℕ → Type 0
Within [] [] = Unit {0}
Within [] (s ∷ shares) = ⊥
Within (b ∷ bases) [] = ⊥
Within (b ∷ bases) (s ∷ shares) = (s ≤ b) × Within bases shares

pub Within-length : (bases shares : List ℕ) → Within bases shares → length shares ≡ length bases
Within-length [] [] w = refl
Within-length [] (s ∷ shares) w = absurd w
Within-length (b ∷ bases) [] w = absurd w
Within-length (b ∷ bases) (s ∷ shares) w = omega (arith, Within-length bases shares w.1)

Within-modify_at :
    (bases shares : List ℕ) (i : ℕ)
    → Within bases shares
    → 0 < headroom bases shares i
    → Within bases (modify_at shares i suc)
Within-modify_at [] [] i w h = tt
Within-modify_at [] (s ∷ shares) i w h = absurd w
Within-modify_at (b ∷ bases) [] i w h = absurd w
Within-modify_at (b ∷ bases) (s ∷ shares) zero w h = (omega arith, w.1)
Within-modify_at (b ∷ bases) (s ∷ shares) (suc i) w h = (w.0, Within-modify_at bases shares i w.1 h)

headroom-in_range :
    (bases shares : List ℕ) (i : ℕ)
    → Within bases shares
    → 0 < headroom bases shares i
    → i < length shares
headroom-in_range [] shares i w h = absurd (omega arith)
headroom-in_range (b ∷ bases) [] i w h = absurd w
headroom-in_range (b ∷ bases) (s ∷ shares) zero w h = omega arith
headroom-in_range (b ∷ bases) (s ∷ shares) (suc i) w h =
    omega (arith, headroom-in_range bases shares i w.1 h)

-- With no headroom anywhere the shares are the bases.
pub sum_of_full :
    (bases shares : List ℕ)
    → Within bases shares
    → ((i : ℕ) → headroom bases shares i ≡ 0)
    → sum bases ≤ sum shares
sum_of_full [] shares w full = omega arith
sum_of_full (b ∷ bases) [] w full = absurd w
sum_of_full (b ∷ bases) (s ∷ shares) w full =
    omega (arith, full 0, sum_of_full bases shares w.1 (λ i. full (suc i)))

get_or-modify_at_ge : (xs : List ℕ) (i j : ℕ) → get_or xs j 0 ≤ get_or (modify_at xs i suc) j 0
get_or-modify_at_ge [] i j = omega arith
get_or-modify_at_ge (x ∷ xs) zero zero = omega arith
get_or-modify_at_ge (x ∷ xs) zero (suc j) = omega arith
get_or-modify_at_ge (x ∷ xs) (suc i) zero = omega arith
get_or-modify_at_ge (x ∷ xs) (suc i) (suc j) = get_or-modify_at_ge xs i j

pub allocate_round-sum :
    (bases : List ℕ) (order : List Ranked) (shares : List ℕ) (r : ℕ) (p : Bool)
    → Within bases shares
    → let (shares', r', _) = allocate_round bases order shares r p in
      Within bases shares' × (sum shares' + r' ≡ sum shares + r) × (r' ≤ r)
unfolding allocate_round
allocate_round-sum bases [] shares r p w = (w, refl, omega arith)
allocate_round-sum bases (e ∷ order) shares r p w = elim (Bool-cases (r == 0)) [
  | inl done ↦ rw done (w, refl, omega arith)
  | inr more ↦ elim (Bool-cases (ltb (headroom bases shares e.idx) 1)) [
    | inl full ↦ rw (more, full) (allocate_round-sum bases order shares r p w)
    | inr room ↦
        let free : 0 < headroom bases shares e.idx = ground arith in
        let ih =
          allocate_round-sum bases order (modify_at shares e.idx suc) (r - 1) true
            (Within-modify_at bases shares e.idx w free) in
        let grown = sum-modify_at-suc shares e.idx (headroom-in_range bases shares e.idx w free) in
        let some_left : 0 < r = ground arith in rw (more, room) (ih.0, omega arith, omega arith)
  ]
]

-- The headroom only shrinks in a round.
pub allocate_round-headroom :
    (bases : List ℕ) (order : List Ranked) (shares : List ℕ) (r : ℕ) (p : Bool) (i : ℕ)
    → headroom bases (allocate_round bases order shares r p).0 i ≤ headroom bases shares i
unfolding allocate_round
allocate_round-headroom bases [] shares r p i = omega arith
allocate_round-headroom bases (e ∷ order) shares r p i = ground (
  arith,
  allocate_round-headroom bases order shares r p i,
  allocate_round-headroom bases order (modify_at shares e.idx suc) (r - 1) true i,
  get_or-modify_at_ge shares e.idx i,
)

allocate_round_flag :
    (bases : List ℕ) (order : List Ranked) (shares : List ℕ) (r : ℕ)
    → (allocate_round bases order shares r true).2 ≡ true
unfolding allocate_round
allocate_round_flag bases [] shares r = refl
allocate_round_flag bases (e ∷ order) shares r = ground (
  arith,
  allocate_round_flag bases order shares r,
  allocate_round_flag bases order (modify_at shares e.idx suc) (r - 1),
)

-- A round progresses and leaves less, or no ranked line had room.
pub allocate_round_progress :
    (bases : List ℕ) (order : List Ranked) (shares : List ℕ) (r : ℕ)
    → Within bases shares
    → 0 < r
    → (((allocate_round bases order shares r false).2 ≡ true)
        × ((allocate_round bases order shares r false).1 < r))
      ⊎ ((i : ℕ) → has_index i order ≡ true → headroom bases shares i ≡ 0)
unfolding allocate_round
allocate_round_progress bases [] shares r w p = inr (λ i h. ground arith)
allocate_round_progress bases (e ∷ order) shares r w p =
    elim (Bool-cases (ltb (headroom bases shares e.idx) 1)) [
      | inl full ↦ elim (allocate_round_progress bases order shares r w p) [
        | inl less ↦ inl (ground arith)
        | inr zeros ↦ inr (λ i h. ground (arith, zeros i))
      ]
      | inr room ↦
          let free : 0 < headroom bases shares e.idx = ground arith in
          inl (
            ground (
              arith,
              allocate_round_flag bases order (modify_at shares e.idx suc) (r - 1),
              allocate_round-sum bases order (modify_at shares e.idx suc) (r - 1) true
                  (Within-modify_at bases shares e.idx w free),
            ))
    ]
