-- ===== src/Pricing/Spread.antt =====
-- packages/contracts/src/pricing.ts: the loops that `resolveDiscountAmounts` and
-- `allocateDiscountAcrossBases` share in kind. They go over an array in a ranked order of its
-- indices and move one paisa at a time until none is left.
pub mod Laws
use pointofsale.Base.{
  ℕ, zero, suc, ◌+◌, ◌-◌, Bool, true, false, not, ◌&&◌, ◌||◌, List, [], ◌∷◌, map, ℤ, ltb_ℤ, ltb,
  leb, ◌==◌, if◌then◌else◌, get_or, modify_at, sort,
}

-- An index with what it is ranked by.
pub record Ranked : Type 0 where
  pub idx : ℕ
  pub key : ℤ

-- `b.key - a.key || a.idx - b.idx`: the greater key first, and the smaller index of equals.
unfoldable pub ranks_before : Ranked → Ranked → Bool
ranks_before a b = ltb_ℤ b.key a.key || (not (ltb_ℤ a.key b.key) && leb a.idx b.idx)

-- `keys.map((key, idx) => ({ idx, key }))`, from index `i` on.
unfoldable pub enumerate : ℕ → List ℤ → List Ranked
enumerate i [] = []
enumerate i (k ∷ ks) = record { idx = i; key = k } ∷ enumerate (suc i) ks

unfoldable pub ranking : List ℤ → List Ranked
unfolding ranks_before enumerate sort
ranking keys = sort ranks_before (enumerate 0 keys)

-- One round of `for (const entry of descending)`: a paisa off each entry that has one, while there
-- is an excess.
unfoldable pub take_round : List Ranked → List ℕ → ℕ → List ℕ × ℕ
take_round [] amounts excess = (amounts, excess)
take_round (e ∷ order) amounts excess =
    let skip = take_round order amounts excess in
    let taken = take_round order (modify_at amounts e.idx (λ a. a - 1)) (excess - 1) in
    if excess == 0
    then (amounts, excess)
    else (if ltb (get_or amounts e.idx 0) 1 then skip else taken)

-- `while (excessCents > 0 && descending.length > 0)`.
unfoldable pub take_rounds : ℕ → List Ranked → List ℕ → ℕ → List ℕ
take_rounds zero order amounts excess = amounts
take_rounds (suc fuel) [] amounts excess = amounts
take_rounds (suc fuel) (e ∷ order) amounts excess =
    let (amounts', excess') = take_round (e ∷ order) amounts excess in
    let rest = take_rounds fuel (e ∷ order) amounts' excess' in
    if excess == 0 then amounts else rest

-- One round of `for (const entry of order)`: a paisa to each entry, while some remain.
unfoldable pub give_round : List Ranked → List ℕ → ℕ → List ℕ × ℕ
give_round [] amounts remaining = (amounts, remaining)
give_round (e ∷ order) amounts remaining =
    let given = give_round order (modify_at amounts e.idx suc) (remaining - 1) in
    if remaining == 0 then (amounts, remaining) else given

-- `while (remainingCents > 0 && order.length > 0)`.
unfoldable pub give_rounds : ℕ → List Ranked → List ℕ → ℕ → List ℕ
give_rounds zero order amounts remaining = amounts
give_rounds (suc fuel) [] amounts remaining = amounts
give_rounds (suc fuel) (e ∷ order) amounts remaining =
    let (amounts', remaining') = give_round (e ∷ order) amounts remaining in
    let rest = give_rounds fuel (e ∷ order) amounts' remaining' in
    if remaining == 0 then amounts else rest
