-- ===== src/Pricing/Allocation/Sum.antt =====
-- What `allocateDiscountAcrossBases` adds up to.
use Prim.Native.Nat.{min}
use native.Mathlib.Nat.{mul-le-mul, le_refl}
use pointofsale.Base.{
  ℕ, zero, suc, ◌+◌, ◌-◌, ◌*◌, ◌/◌, ◌≤◌, ◌<◌, ◌≡◌, inl, inr, refl, true, false, ◌||◌, List, [], ◌∷◌,
  map, ℤ, pos_part, ltb, leb, ◌==◌, length, length-map, get_or, sum, filter, arith, Bool-cases,
}
use pointofsale.Money.Laws.{le-of_mul}
use pointofsale.Pricing.Spread.{Ranked, ranks_before, enumerate}
use pointofsale.Pricing.Spread.Laws.{has_index, has_index-sort, has_index-enumerate}
use pointofsale.Pricing.Allocation.{
  headroom, allocation_order, allocate_round, allocate_rounds, floor_shares, share_fractions,
  allocate_discount_across_bases,
}
use pointofsale.Pricing.Allocation.Laws.{
  Within, sum_of_full, allocate_round-sum, allocate_round-headroom, allocate_round_progress,
}

-- Every line that is not ranked has no room.
abbrev Covers : List Ranked → List ℕ → List ℕ → Type 0
Covers order bases shares = (i : ℕ) → has_index i order ≡ false → headroom bases shares i ≡ 0

no_room :
    (order : List Ranked) (bases shares : List ℕ)
    → Within bases shares
    → Covers order bases shares
    → ((i : ℕ) → has_index i order ≡ true → headroom bases shares i ≡ 0)
    → sum bases ≤ sum shares
no_room order bases shares w covers zeros = sum_of_full bases shares w (λ i.
    elim (Bool-cases (has_index i order)) [
      | inl ranked ↦ zeros i ranked
      | inr other ↦ covers i other
    ])

allocate_rounds-sum :
    (fuel : ℕ) (bases : List ℕ) (order : List Ranked) (shares : List ℕ) (r : ℕ)
    → Within bases shares
    → Covers order bases shares
    → r ≤ fuel
    → sum shares + r ≤ sum bases
    → Within bases (allocate_rounds fuel bases order shares r)
      × (sum (allocate_rounds fuel bases order shares r) ≡ sum shares + r)
unfolding allocate_rounds
allocate_rounds-sum zero bases order shares r w covers f room = (w, omega arith)
allocate_rounds-sum (suc fuel) bases [] shares r w covers f room =
    let full = no_room [] bases shares w covers (λ i h. ground arith) in (w, omega arith)
allocate_rounds-sum (suc fuel) bases (e ∷ order) shares r w covers f room =
    elim (Bool-cases (r == 0)) [
      | inl done ↦ rw done (w, ground arith)
      | inr more ↦ elim (allocate_round_progress bases (e ∷ order) shares r w (ground arith)) [
        | inl (progressed, less) ↦
            let next = allocate_round bases (e ∷ order) shares r false in
            let (w', balance, down) = allocate_round-sum bases (e ∷ order) shares r false w in
            let covers' : Covers (e ∷ order) bases next.0 = λ i h.
              omega
                (arith, covers i h, allocate_round-headroom bases (e ∷ order) shares r false i) in
            let ih =
              allocate_rounds-sum fuel bases (e ∷ order) next.0 next.1 w' covers' (omega arith)
                (omega arith) in
            rw (more, progressed) (ih.0, omega arith)
        | inr zeros ↦
            let full = no_room (e ∷ order) bases shares w covers zeros in absurd (ground arith)
      ]
    ]

has_index-filter :
    (i : ℕ) (room : ℕ → ℕ) (xs : List Ranked)
    → has_index i xs ≡ true
    → has_index i (filter (λ e. leb 1 (room e.idx)) xs) ≡ false
    → room i ≡ 0
has_index-filter i room [] h k = absurd (ground arith)
has_index-filter i room (x ∷ xs) h k = elim (Bool-cases (i == x.idx)) [
  | inl here ↦ ground arith
  | inr there ↦ ground (arith, has_index-filter i room xs)
]

get_or_beyond : (xs : List ℕ) (i : ℕ) → length xs ≤ i → get_or xs i 0 ≡ 0
get_or_beyond [] i h = refl
get_or_beyond (x ∷ xs) zero h = absurd (omega arith)
get_or_beyond (x ∷ xs) (suc i) h = get_or_beyond xs i (omega arith)

allocation_order-Covers :
    (bases shares : List ℕ) (fractions : List ℤ)
    → length fractions ≡ length bases
    → Covers (allocation_order bases shares fractions) bases shares
unfolding allocation_order
allocation_order-Covers bases shares fractions same i h =
    let all = enumerate 0 fractions in
    let kept = filter (λ e. leb 1 (headroom bases shares e.idx)) all in
    elim (Bool-cases (ltb i (length bases))) [
      | inl inside ↦
          has_index-filter i (headroom bases shares) all
            (ground (arith, has_index-enumerate i 0 fractions))
            (ground (arith, has_index-sort i ranks_before kept))
      | inr outside ↦ omega (arith, get_or_beyond bases i (ground arith))
    ]

floor_shares-Within :
    (discount total : ℕ) (bases : List ℕ)
    → 0 < total
    → discount ≤ total
    → Within bases (floor_shares discount total bases)
unfolding floor_shares
floor_shares-Within discount total [] p h = tt
floor_shares-Within discount total (b ∷ bases) p h =
    let grows = mul-le-mul (le_refl b) h in
    (
      le-of_mul (b * discount / total) b total (grind arith),
      floor_shares-Within discount total bases p h,
    )

floor_shares-mul-le :
    (discount total : ℕ) (bases : List ℕ)
    → 0 < total
    → sum (floor_shares discount total bases) * total ≤ sum bases * discount
unfolding floor_shares
floor_shares-mul-le discount total [] p = omega arith
floor_shares-mul-le discount total (b ∷ bases) p =
    let rest = floor_shares-mul-le discount total bases p in
    let part : b * discount / total * total ≤ b * discount = grind arith in omega arith

zeros-Within : (bases : List ℕ) → Within bases (map (λ _. 0) bases) × (sum (map (λ _. 0) bases) ≡ 0)
zeros-Within [] = (tt, refl)
zeros-Within (b ∷ bases) =
    ((omega arith, (zeros-Within bases).0), omega (arith, zeros-Within bases))

-- There is one share for each base and none is above its base, and the shares add up to the
-- discount, or to the total of the bases if that is less. (A negative discount counts as 0.)
pub allocate_discount_across_bases-sum :
    (bases : List ℕ) (discount : ℤ)
    → let shares = allocate_discount_across_bases bases discount in
      Within bases shares × (sum shares ≡ min (pos_part discount) (sum bases))
unfolding allocate_discount_across_bases
allocate_discount_across_bases-sum bases discount =
    let total = sum bases in
    let capped = min (pos_part discount) total in
    elim (Bool-cases (total == 0 || capped == 0)) [
      | inl nothing ↦ rw nothing ((zeros-Within bases).0, ground (arith, zeros-Within bases))
      | inr something ↦
          let some_total : 0 < total = ground arith in
          let w = floor_shares-Within capped total bases some_total (omega arith) in
          let long : length (share_fractions capped total bases) ≡ length bases =
            unfold share_fractions in length-map _ bases in
          let low = floor_shares-mul-le capped total bases some_total in
          let floors : sum (floor_shares capped total bases) ≤ capped =
            le-of_mul (sum (floor_shares capped total bases)) capped total (omega arith) in
          let done =
            allocate_rounds-sum (capped - sum (floor_shares capped total bases)) bases
              (allocation_order bases (floor_shares capped total bases)
                (share_fractions capped total bases))
              (floor_shares capped total bases) (capped - sum (floor_shares capped total bases)) w
              (allocation_order-Covers bases (floor_shares capped total bases)
                (share_fractions capped total bases) long)
              (omega arith) (omega arith) in
          rw something (done.0, omega arith)
    ]
