-- ===== src/Pricing/Discount.antt =====
-- packages/contracts/src/pricing.ts: `resolveDiscountAmounts`. A percentage is in hundredths of a
-- percent and a fixed value in paise; either may be negative in the request, and counts as 0 then.
pub mod Laws
use pointofsale.Base.{
  ℕ, ◌+◌, ◌-◌, ◌*◌, Bool, List, [], ◌∷◌, map, ℤ, pos, pos_part, sub_ℕ, ltb, leb, ◌==◌,
  if◌then◌else◌, sum, sum_by,
}
use pointofsale.Money.{round_div}
use pointofsale.Pricing.Spread.{ranking, take_rounds, give_rounds}

pub data DiscountType : Type 0 where
  percentage fixed : DiscountType

pub record DiscountInput : Type 0 where
  pub kind : DiscountType
  pub value : ℤ

pub record ResolvedDiscount : Type 0 where
  pub kind : DiscountType
  pub value : ℕ
  pub amount : ℕ

abbrev pub raw_amount : ℕ → DiscountType → ℕ → ℕ
raw_amount base percentage value = round_div (base * value) 10_000
raw_amount base fixed value = value

-- An entry of `rawDiscounts`.
unfoldable pub raw_discount : ℕ → DiscountInput → ResolvedDiscount
raw_discount base d = record {
  kind = d.kind;
  value = pos_part d.value;
  amount = raw_amount base d.kind (pos_part d.value);
}

abbrev pub amounts_of : List ResolvedDiscount → List ℕ
amounts_of = map (λ d. d.amount)

-- `{ ...discount, amount }` for each discount.
unfoldable pub with_amounts : List ResolvedDiscount → List ℕ → List ResolvedDiscount
with_amounts [] amounts = []
with_amounts (d ∷ ds) [] = []
with_amounts (d ∷ ds) (a ∷ amounts) = record d { amount = a } ∷ with_amounts ds amounts

-- `discount.amount * scale - scaled[idx].amount`, over the denominator `total`.
unfoldable pub fractions_of : ℕ → ℕ → List ℕ → List ℕ → List ℤ
fractions_of base total [] scaled = []
fractions_of base total (r ∷ raw) [] = []
fractions_of base total (r ∷ raw) (s ∷ scaled) =
    sub_ℕ (r * base) (s * total) ∷ fractions_of base total raw scaled

-- `round2(discount.amount * scale)`, with `scale = base / total`.
unfoldable pub scale_amounts : ℕ → ℕ → List ℕ → List ℕ
scale_amounts base total = map (λ a. round_div (a * base) total)

-- The scaled amounts after `while (excessCents > 0 …)`: the largest amounts give up a paisa first.
-- Each round takes at least one, so the excess is enough fuel.
unfoldable pub trim_excess : ℕ → List ℕ → List ℕ
trim_excess base scaled =
    let excess = sum scaled - base in
    if ltb base (sum scaled)
    then take_rounds excess (ranking (map pos scaled)) scaled excess
    else scaled

-- The scaled amounts after `while (remainingCents > 0 …)`: the largest fractions get a paisa first.
unfoldable pub fill_remaining : ℕ → ℕ → List ℕ → List ℕ → List ℕ
fill_remaining base total raw scaled =
    let remaining = base - sum scaled in
    give_rounds remaining (ranking (fractions_of base total raw scaled)) scaled remaining

unfoldable pub scale_down : ℕ → ℕ → List ℕ → List ℕ
scale_down base total raw =
    fill_remaining base total raw (trim_excess base (scale_amounts base total raw))

unfoldable pub resolve_discount_amounts : List DiscountInput → ℤ → List ResolvedDiscount
resolve_discount_amounts [] base = []
resolve_discount_amounts (d ∷ ds) base =
    let normalized = pos_part base in
    let raw = map (raw_discount normalized) (d ∷ ds) in
    let total = sum_by (λ r. r.amount) raw in
    if normalized == 0
    then []
    else (if leb total normalized
        then raw
        else with_amounts raw (scale_down normalized total (amounts_of raw)))
