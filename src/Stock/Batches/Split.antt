-- ===== src/Stock/Batches/Split.antt =====
-- What `splitOverShares` gives each line, and what it leaves of the shares.
use Prim.Native.Nat.{min}
use pointofsale.Base.{
  ℕ, ◌+◌, ◌-◌, ◌≡◌, refl, ap, ◌∙◌, ==_iff, Option, none, some, List, [], ◌∷◌, ◌==◌, if◌then◌else◌,
  sum_by-append, arith, Bool-cases, inl, inr,
}
use pointofsale.Stock.Batches.{
  BatchShare, total_qty, split_line, uncovered, line_parts, shares_after, DocumentLine,
  SharesByItem, split_over_shares,
}

-- A line takes what the shares have, up to what it wants, and the shares keep the rest.
split_line-sum :
    (shares : List BatchShare) (want : ℕ)
    → let (parts, kept, left) = split_line shares want in
      (total_qty parts + left ≡ want)
      × (total_qty kept + total_qty parts ≡ total_qty shares)
      × (left ≡ want - total_qty shares)
unfolding split_line
split_line-sum [] want = ground arith
split_line-sum (s ∷ shares) want =
    ground (arith, split_line-sum shares want, split_line-sum shares (want - min want s.qty))

total_qty-uncovered : (want : ℕ) → total_qty (uncovered want) ≡ want
total_qty-uncovered want = ground arith

-- What the lines of an item want together.
pub wanted : ℕ → List DocumentLine → ℕ
wanted item [] = 0
wanted item (line ∷ lines) = (if item == line.item_id then line.qty else 0) + wanted item lines

-- Each line is given exactly its quantity, a part for each line.
abbrev pub AddUp : List DocumentLine → List (List BatchShare) → Type 0
AddUp [] [] = Unit {0}
AddUp [] (p ∷ parts) = ⊥
AddUp (line ∷ lines) [] = ⊥
AddUp (line ∷ lines) (p ∷ parts) = (total_qty p ≡ line.qty) × AddUp lines parts

line_parts-sum :
    (qty : ℕ) (found : Option (List BatchShare)) → total_qty (line_parts qty found) ≡ qty
unfolding line_parts
line_parts-sum qty none = omega arith
line_parts-sum qty (some shares) =
    let done = split_line shares qty in
    omega (
      arith,
      sum_by-append (λ (s : BatchShare). s.qty) done.0 (uncovered done.2),
      split_line-sum shares qty,
      total_qty-uncovered done.2,
    )

-- The parts of every line add up to the line, in order.
pub split_over_shares-AddUp :
    (lines : List DocumentLine) (m : SharesByItem) → AddUp lines (split_over_shares lines m).0
unfolding split_over_shares
split_over_shares-AddUp [] m = tt
split_over_shares-AddUp (line ∷ lines) m =
    let found = m line.item_id in
    (line_parts-sum line.qty found, split_over_shares-AddUp lines (shares_after m line found))

-- What an item's shares are left with: nothing for an item that has none.
abbrev pub left_of : Option (List BatchShare) → ℕ
left_of none = 0
left_of (some shares) = total_qty shares

shares_after-left :
    (m : SharesByItem) (line : DocumentLine) (found : Option (List BatchShare)) (item : ℕ)
    → m line.item_id ≡ found
    → left_of (shares_after m line found item)
      ≡ left_of (m item) - (if item == line.item_id then line.qty else 0)
unfolding shares_after
shares_after-left m line none item e = elim (Bool-cases (item == line.item_id)) [
  | inl same ↦
      let here : m item ≡ none = ap m ((==_iff item line.item_id).0 same) ∙ e in
      ground (arith, here, same)
  | inr other ↦ ground (arith, other)
]
shares_after-left m line (some shares) item e = elim (Bool-cases (item == line.item_id)) [
  | inl same ↦
      let here : m item ≡ some shares = ap m ((==_iff item line.item_id).0 same) ∙ e in
      ground (arith, here, same, split_line-sum shares line.qty)
  | inr other ↦ ground (arith, other)
]

-- Over all lines an item's shares go down by what its lines want, as far as they reach: no share is
-- used twice, and none is left over while a line of the item goes short.
pub split_over_shares-left :
    (lines : List DocumentLine) (m : SharesByItem) (item : ℕ)
    → left_of ((split_over_shares lines m).1 item) ≡ left_of (m item) - wanted item lines
unfolding split_over_shares wanted
split_over_shares-left [] m item = omega arith
split_over_shares-left (line ∷ lines) m item =
    let found = m line.item_id in
    omega (
      arith,
      split_over_shares-left lines (shares_after m line found) item,
      shares_after-left m line found item refl,
    )
