-- ===== src/Pricing/Allocation.antt =====
-- packages/contracts/src/pricing.ts: `allocateDiscountAcrossBases`, one discount split over the
-- lines of a sale in proportion to their bases.
pub mod Laws
pub mod Sum
use Prim.Native.Nat.{min}
use pointofsale.Base.{
  ℕ, zero, suc, ◌-◌, ◌*◌, ◌/◌, ◌%◌, Bool, true, false, not, ◌||◌, List, [], ◌∷◌, map, ℤ, pos,
  pos_part, ltb, leb, ◌==◌, if◌then◌else◌, get_or, modify_at, sum, filter, sort,
}
use pointofsale.Pricing.Spread.{Ranked, ranks_before, enumerate}

-- What a line's base still has room for.
abbrev pub headroom : List ℕ → List ℕ → ℕ → ℕ
headroom bases shares i = get_or bases i 0 - get_or shares i 0

-- The lines with room for a paisa, the largest remainder first.
unfoldable pub allocation_order : List ℕ → List ℕ → List ℤ → List Ranked
allocation_order bases floored fractions =
    sort ranks_before (filter (λ e. leb 1 (headroom bases floored e.idx)) (enumerate 0 fractions))

-- One round of `for (const entry of order)`: the shares, what remains and `progressed`.
unfoldable pub allocate_round : List ℕ → List Ranked → List ℕ → ℕ → Bool → List ℕ × ℕ × Bool
allocate_round bases [] shares remaining progressed = (shares, remaining, progressed)
allocate_round bases (e ∷ order) shares remaining progressed =
    let skip = allocate_round bases order shares remaining progressed in
    let given = allocate_round bases order (modify_at shares e.idx suc) (remaining - 1) true in
    if remaining == 0
    then (shares, remaining, progressed)
    else (if ltb (headroom bases shares e.idx) 1 then skip else given)

-- `while (remainingCents > 0 && order.length > 0)`, with its `break` after a round without progress.
unfoldable pub allocate_rounds : ℕ → List ℕ → List Ranked → List ℕ → ℕ → List ℕ
allocate_rounds zero bases order shares remaining = shares
allocate_rounds (suc fuel) bases [] shares remaining = shares
allocate_rounds (suc fuel) bases (e ∷ order) shares remaining =
    let (shares', remaining', progressed) =
      allocate_round bases (e ∷ order) shares remaining false in
    let rest = allocate_rounds fuel bases (e ∷ order) shares' remaining' in
    if remaining == 0 then shares else (if not progressed then shares' else rest)

-- The exact share `base * discount / total` in whole paise, and its remainder over `total`.
unfoldable pub floor_shares : ℕ → ℕ → List ℕ → List ℕ
floor_shares discount total = map (λ b. b * discount / total)

unfoldable pub share_fractions : ℕ → ℕ → List ℕ → List ℤ
share_fractions discount total = map (λ b. pos (b * discount % total))

unfoldable pub allocate_discount_across_bases : List ℕ → ℤ → List ℕ
allocate_discount_across_bases bases discount_amount =
    let total = sum bases in
    let capped = min (pos_part discount_amount) total in
    let floored = floor_shares capped total bases in
    let order = allocation_order bases floored (share_fractions capped total bases) in
    let remaining = capped - sum floored in
    if total == 0 || capped == 0
    then map (λ _. 0) bases
    else allocate_rounds remaining bases order floored remaining
