-- ===== src/Pricing/Discount/Laws.antt =====
-- What `resolveDiscountAmounts` comes to.
use Prim.Native.Nat.{min}
use pointofsale.Base.{
  ℕ, ◌+◌, ◌-◌, ◌*◌, ◌≤◌, ◌<◌, ◌≡◌, inl, inr, refl, true, List, [], ◌∷◌, map, ℤ, pos, pos_part, leb,
  ◌==◌, length, length-map, sum, sum_by, sum-map, sum_by-map, arith, Bool-cases,
}
use pointofsale.Money.{round_div}
use pointofsale.Pricing.Spread.{Ranked, ranking, take_rounds, give_rounds}
use pointofsale.Pricing.Spread.Laws.{
  has_index, has_index-ranking, InRange, ranking-InRange, length-ranking, take_rounds-sum,
  give_rounds-sum,
}
use pointofsale.Pricing.Discount.{
  DiscountInput, ResolvedDiscount, raw_discount, amounts_of, with_amounts, fractions_of,
  scale_amounts, trim_excess, fill_remaining, scale_down, resolve_discount_amounts,
}

amounts_of-with_amounts :
    (ds : List ResolvedDiscount) (amounts : List ℕ)
    → length amounts ≡ length ds
    → amounts_of (with_amounts ds amounts) ≡ amounts
unfolding with_amounts
amounts_of-with_amounts [] [] h = refl
amounts_of-with_amounts [] (a ∷ amounts) h = absurd (omega arith)
amounts_of-with_amounts (d ∷ ds) [] h = absurd (omega arith)
amounts_of-with_amounts (d ∷ ds) (a ∷ amounts) h =
    rw (amounts_of-with_amounts ds amounts (omega arith))

length-fractions_of :
    (base total : ℕ) (raw scaled : List ℕ)
    → length scaled ≡ length raw
    → length (fractions_of base total raw scaled) ≡ length raw
unfolding fractions_of
length-fractions_of base total [] scaled h = refl
length-fractions_of base total (r ∷ raw) [] h = absurd (omega arith)
length-fractions_of base total (r ∷ raw) (s ∷ scaled) h =
    omega (arith, length-fractions_of base total raw scaled (omega arith))

take_all :
    (order : List Ranked) (amounts : List ℕ) (x : ℕ)
    → 0 < length order
    → ((i : ℕ) → i < length amounts → has_index i order ≡ true)
    → x ≤ sum amounts
    → (sum (take_rounds x order amounts x) + x ≡ sum amounts)
      × (length (take_rounds x order amounts x) ≡ length amounts)
take_all [] amounts x p covers enough = absurd (omega arith)
take_all (e ∷ order) amounts x p covers enough =
    take_rounds-sum x e order amounts x covers (omega arith) enough

give_all :
    (order : List Ranked) (amounts : List ℕ) (r : ℕ)
    → 0 < length order
    → InRange (length amounts) order
    → (sum (give_rounds r order amounts r) ≡ sum amounts + r)
      × (length (give_rounds r order amounts r) ≡ length amounts)
give_all [] amounts r p range = absurd (omega arith)
give_all (e ∷ order) amounts r p range = give_rounds-sum r e order amounts r range (omega arith)

trim_excess-sum :
    (base : ℕ) (scaled : List ℕ)
    → 0 < length scaled
    → (sum (trim_excess base scaled) ≤ base) × (length (trim_excess base scaled) ≡ length scaled)
unfolding trim_excess
trim_excess-sum base scaled p =
    let order = ranking (map pos scaled) in
    let same = length-map pos scaled in
    let long = length-ranking (map pos scaled) in
    let taken =
      take_all order scaled (sum scaled - base) (omega arith)
        (λ i h. has_index-ranking i (map pos scaled) (omega arith)) (omega arith) in
    ground (arith, taken)

fill_remaining-sum :
    (base total : ℕ) (raw scaled : List ℕ)
    → 0 < length scaled
    → length scaled ≡ length raw
    → sum scaled ≤ base
    → (sum (fill_remaining base total raw scaled) ≡ base)
      × (length (fill_remaining base total raw scaled) ≡ length raw)
unfolding fill_remaining
fill_remaining-sum base total raw scaled p same below =
    let keys = fractions_of base total raw scaled in
    let long = length-ranking keys in
    let keys_long = length-fractions_of base total raw scaled same in
    let given =
      give_all (ranking keys) scaled (base - sum scaled) (omega arith)
        (ranking-InRange (length scaled) keys (omega arith)) in
    omega (arith, given)

pub scale_down-sum :
    (base total : ℕ) (raw : List ℕ)
    → 0 < length raw
    → (sum (scale_down base total raw) ≡ base) × (length (scale_down base total raw) ≡ length raw)
unfolding scale_down scale_amounts
scale_down-sum base total raw p =
    let scaled = map (λ a. round_div (a * base) total) raw in
    let same : length scaled ≡ length raw = length-map _ raw in
    let trimmed = trim_excess-sum base scaled (omega arith) in
    fill_remaining-sum base total raw (trim_excess base scaled) (omega arith) (omega arith)
      trimmed.0

-- Together the resolved discounts come to what was asked for, each on the whole base, or to the
-- base if that is less: to the paisa, however the scaled amounts were rounded.
pub resolve_discount_amounts-sum :
    (ds : List DiscountInput) (base : ℤ)
    → sum (amounts_of (resolve_discount_amounts ds base))
      ≡ min (sum_by (λ d. (raw_discount (pos_part base) d).amount) ds) (pos_part base)
unfolding resolve_discount_amounts
resolve_discount_amounts-sum [] base = omega arith
resolve_discount_amounts-sum (d ∷ ds) base =
    let normalized = pos_part base in
    let raw = map (raw_discount normalized) (d ∷ ds) in
    let asked = sum_by-map (λ r. r.amount) (raw_discount normalized) (d ∷ ds) in
    let listed = sum-map (λ r. r.amount) raw in
    let long = length-map (λ r. r.amount) raw in
    let total = sum_by (λ r. r.amount) raw in
    let down = scale_down normalized total (amounts_of raw) in
    let scaled = scale_down-sum normalized total (amounts_of raw) (omega arith) in
    let put = amounts_of-with_amounts raw down (omega (arith, long, scaled.1)) in
    elim (Bool-cases (normalized == 0)) [
      | inl nothing ↦ rw nothing (ground (arith, nothing))
      | inr something ↦ elim (Bool-cases (leb total normalized)) [
        | inl fits ↦ rw (something, fits) (ground (arith, fits, asked, listed))
        | inr over ↦ rw (something, over, put) (ground (arith, over, asked, scaled))
      ]
    ]

pub resolve_discount_amounts-le :
    (ds : List DiscountInput) (base : ℕ)
    → sum_by (λ d. d.amount) (resolve_discount_amounts ds (pos base)) ≤ base
resolve_discount_amounts-le ds base = omega (
  arith,
  resolve_discount_amounts-sum ds (pos base),
  sum-map (λ (d : ResolvedDiscount). d.amount) (resolve_discount_amounts ds (pos base)),
)

length-with_amounts :
    (ds : List ResolvedDiscount) (amounts : List ℕ) → length (with_amounts ds amounts) ≤ length ds
unfolding with_amounts
length-with_amounts [] amounts = omega arith
length-with_amounts (d ∷ ds) [] = omega arith
length-with_amounts (d ∷ ds) (a ∷ amounts) = omega (arith, length-with_amounts ds amounts)

pub length-resolve_discount_amounts :
    (ds : List DiscountInput) (base : ℤ) → length (resolve_discount_amounts ds base) ≤ length ds
unfolding resolve_discount_amounts
length-resolve_discount_amounts [] base = omega arith
length-resolve_discount_amounts (d ∷ ds) base =
    let raw = map (raw_discount (pos_part base)) (d ∷ ds) in
    let down = scale_down (pos_part base) (sum_by (λ r. r.amount) raw) (amounts_of raw) in
    ground (arith, length-map (raw_discount (pos_part base)) (d ∷ ds), length-with_amounts raw down)
