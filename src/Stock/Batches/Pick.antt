-- ===== src/Stock/Batches/Pick.antt =====
-- What `pickBatches` takes, and from where.
use Prim.Native.Nat.{min}
use pointofsale.Base.{
  ℕ, ◌+◌, ◌-◌, ◌≤◌, ◌≡◌, ◌⊎◌, inl, inr, refl, ◌∙◌, false, none, some, List, [], ◌∷◌, ◌++◌, map, pos,
  pos_part, ltb_ℤ, leb, ◌==◌, if◌then◌else◌, filter, sum_by, sum_by-append, sum_by-sort, sum_by-map,
  sort, All, All-append, All-sort, All-map, All-Any, Any, Any-map, filter-All, map-All, arith,
  Bool-cases,
}
use pointofsale.Stock.Batches.{
  BatchLot, BatchShare, is_expired, by_expiry, PickInput, is_fresh_lot, is_expired_lot, share_of,
  fresh_lots, expired_lots, unbatched_share, sources_of, take_sources, pick_batches, total_qty,
}

take_sources-sum :
    (sources : List BatchShare) (left : ℕ)
    → let (taken, rest) = take_sources sources left in
      (total_qty taken + rest ≡ left) × (rest ≡ left - total_qty sources)
unfolding take_sources
take_sources-sum [] left = ground arith
take_sources-sum (s ∷ sources) left =
    ground (arith, take_sources-sum sources (left - min left s.qty))

-- The sources in order: each but the last that is touched is used up.
abbrev pub IsGreedy : List BatchShare → List BatchShare → Type 0
IsGreedy sources [] = Unit {0}
IsGreedy [] (t ∷ taken) = ⊥
IsGreedy (s ∷ sources) (t ∷ taken) =
    (t.batch_id ≡ s.batch_id)
    × (t.qty ≤ s.qty)
    × ((taken ≡ []) ⊎ (t.qty ≡ s.qty))
    × IsGreedy sources taken

take_sources_zero : (sources : List BatchShare) → (take_sources sources 0).0 ≡ []
unfolding take_sources
take_sources_zero [] = refl
take_sources_zero (s ∷ sources) = refl

pub take_sources-IsGreedy :
    (sources : List BatchShare) (left : ℕ) → IsGreedy sources (take_sources sources left).0
unfolding take_sources
take_sources-IsGreedy [] left = tt
take_sources-IsGreedy (s ∷ sources) left = elim (Bool-cases (left == 0)) [
  | inl done ↦ rw done tt
  | inr more ↦ elim (Bool-cases (leb left s.qty)) [
    | inl enough ↦
        let none_left : left - min left s.qty ≡ 0 = ground arith in
        rw (more, none_left, take_sources_zero sources) (refl, ground arith, inl refl, tt)
    | inr more_wanted ↦ rw more (
      refl,
      ground arith,
      inr (ground arith),
      take_sources-IsGreedy sources (left - min left s.qty),
    )
  ]
]

-- What may be sold: the stock without a batch and in fresh lots, and the expired if asked for.
pub available : PickInput → ℕ
available i =
    pos_part i.unbatched
    + (sum_by (λ lot. pos_part lot.qty) (filter (is_fresh_lot i.today) i.lots)
        + (if i.include_expired
            then sum_by (λ lot. pos_part lot.qty) (filter (is_expired_lot i.today) i.lots)
            else 0))

lots_qty :
    (lots : List BatchLot)
    → total_qty (map share_of (sort by_expiry lots)) ≡ sum_by (λ lot. pos_part lot.qty) lots
lots_qty lots = omega (
  arith,
  sum_by-map (λ (s : BatchShare). s.qty) share_of (sort by_expiry lots),
  sum_by-sort by_expiry (λ lot. pos_part lot.qty) lots,
)

sources_of-total : (i : PickInput) → total_qty (sources_of i) ≡ available i
unfolding sources_of available unbatched_share fresh_lots expired_lots
sources_of-total i =
    let fresh = filter (is_fresh_lot i.today) i.lots in
    let old = filter (is_expired_lot i.today) i.lots in
    let old_shares = if i.include_expired then map share_of (sort by_expiry old) else [] in
    let split =
      sum_by-append (λ (s : BatchShare). s.qty) (map share_of (sort by_expiry fresh)) old_shares in
    ground (arith, split, lots_qty fresh, lots_qty old)

-- What is taken and what is short come to what was wanted, and only what is not available is short.
pub pick_batches-sum :
    (i : PickInput)
    → let picked = pick_batches i in
      (total_qty picked.taken + picked.short ≡ i.qty) × (picked.short ≡ i.qty - available i)
unfolding pick_batches
pick_batches-sum i =
    let (sum_taken, rest) = take_sources-sum (sources_of i) i.qty in
    (sum_taken, omega (arith, rest, sources_of-total i))

-- Without a batch, from the stock that has none; or from a lot that has not expired, within it.
abbrev pub FromFresh : PickInput → BatchShare → Type 0
FromFresh i t =
    ((t.batch_id ≡ none) × (t.qty ≤ pos_part i.unbatched))
    ⊎ Any
        (λ lot.
          (t.batch_id ≡ some lot.batch_id)
          × (is_expired lot.expiry_date i.today ≡ false)
          × (t.qty ≤ pos_part lot.qty))
        i.lots

greedy-All :
    (P : BatchShare → Type 0) (sources taken : List BatchShare)
    → ((s t : BatchShare) → t.batch_id ≡ s.batch_id → t.qty ≤ s.qty → P s → P t)
    → All P sources
    → IsGreedy sources taken
    → All P taken
greedy-All P sources [] down h g = tt
greedy-All P [] (t ∷ taken) down h g = absurd g
greedy-All P (s ∷ sources) (t ∷ taken) down h g =
    (down s t g.0 g.1 h.0, greedy-All P sources taken down h.1 g.3)

FromFresh-down :
    (i : PickInput) (s t : BatchShare)
    → t.batch_id ≡ s.batch_id
    → t.qty ≤ s.qty
    → FromFresh i s
    → FromFresh i t
FromFresh-down i s t e h (inl (n, u)) = inl (e ∙ n, omega arith)
FromFresh-down i s t e h (inr a) =
    inr (Any-map _ _ i.lots (λ lot p. (e ∙ p.0, p.1, omega (arith, p.2))) a)

fresh-All : (i : PickInput) → All (λ lot. FromFresh i (share_of lot)) (fresh_lots i)
unfolding fresh_lots
fresh-All i = All-sort by_expiry _ _ (
    filter-All _ (is_fresh_lot i.today) i.lots (
      All-map _ _ i.lots
        (λ lot self test.
          inr
            (Any-map _ _ i.lots (λ other same. rw (← same) (refl, ground arith, omega arith)) self))
        (All-Any i.lots)))

unbatched-All : (i : PickInput) → All (FromFresh i) (unbatched_share i)
unfolding unbatched_share
unbatched-All i = elim (Bool-cases (ltb_ℤ (pos 0) i.unbatched)) [
  | inl some_stock ↦ rw some_stock (inl (refl, omega arith), tt)
  | inr no_stock ↦ rw no_stock tt
]

sources-All : (i : PickInput) → i.include_expired ≡ false → All (FromFresh i) (sources_of i)
unfolding sources_of
sources-All i fresh_only = simp fresh_only (
    All-append (FromFresh i) (unbatched_share i) (map share_of (fresh_lots i) ++ [])
      (unbatched-All i)
      (All-append (FromFresh i) (map share_of (fresh_lots i)) []
        (map-All (FromFresh i) share_of (fresh_lots i) (fresh-All i)) tt))

-- Unless expired stock is asked for, everything that is taken comes from the stock without a batch or
-- from a lot of the item that has not expired, and no more than the lot has.
pub pick_batches-FromFresh :
    (i : PickInput) → i.include_expired ≡ false → All (FromFresh i) (pick_batches i).taken
unfolding pick_batches
pick_batches-FromFresh i fresh_only =
    greedy-All (FromFresh i) (sources_of i) (take_sources (sources_of i) i.qty).0 (FromFresh-down i)
      (sources-All i fresh_only) (take_sources-IsGreedy (sources_of i) i.qty)
