-- ===== src/Pricing/Totals/Sums.antt =====
-- The totals of a sale, and how the order discounts are spread over its lines.
use pointofsale.Base.{
  ℕ, zero, suc, ◌+◌, ◌≤◌, ◌≡◌, refl, ap, subst, Bool, List, [], ◌∷◌, map, Option, pos, get_or, sum,
  sum_by, sum_by-map, length, All, arith,
}
use pointofsale.Pricing.Discount.{DiscountInput, ResolvedDiscount, resolve_discount_amounts}
use pointofsale.Pricing.Discount.Laws.{resolve_discount_amounts-le}
use pointofsale.Pricing.Allocation.Laws.{Within-length}
use pointofsale.Pricing.Allocation.Sum.{allocate_discount_across_bases-sum}
use pointofsale.Pricing.Totals.{
  NormalizedLine, DiscountPlan, discount_plan, order_discount_at, ComputedLine, compute_line,
  compute_lines, order_plans,
}
use pointofsale.Pricing.Totals.Lines.{IsConsistent}

-- f 0 + f 1 + … + f (n - 1).
pub sum_below : ℕ → (ℕ → ℕ) → ℕ
sum_below zero f = 0
sum_below (suc n) f = f 0 + sum_below n (λ i. f (suc i))

pub sum_below-congr : (n : ℕ) (f g : ℕ → ℕ) → ((i : ℕ) → f i ≡ g i) → sum_below n f ≡ sum_below n g
unfolding sum_below
sum_below-congr zero f g h = refl
sum_below-congr (suc n) f g h =
    omega (arith, h 0, sum_below-congr n (λ i. f (suc i)) (λ i. g (suc i)) (λ i. h (suc i)))

sum_below-add : (n : ℕ) (f g : ℕ → ℕ) → sum_below n (λ i. f i + g i) ≡ sum_below n f + sum_below n g
unfolding sum_below
sum_below-add zero f g = omega arith
sum_below-add (suc n) f g = omega (arith, sum_below-add n (λ i. f (suc i)) (λ i. g (suc i)))

sum_below_zeros : (n : ℕ) → sum_below n (λ _. 0) ≡ 0
unfolding sum_below
sum_below_zeros zero = refl
sum_below_zeros (suc n) = omega (arith, sum_below_zeros n)

sum_below-get_or : (xs : List ℕ) → sum_below (length xs) (λ i. get_or xs i 0) ≡ sum xs
unfolding sum_below
sum_below-get_or [] = refl
sum_below-get_or (x ∷ xs) = omega (arith, sum_below-get_or xs)

pub sum_below-order_discount_at :
    (n : ℕ) (plans : List DiscountPlan)
    → All (λ p. length p.allocations ≡ n) plans
    → sum_below n (order_discount_at plans) ≡ sum_by (λ p. sum p.allocations) plans
unfolding order_discount_at
sum_below-order_discount_at n [] h = sum_below_zeros n
sum_below-order_discount_at n (p ∷ plans) h =
    let split = sum_below-add n (λ i. get_or p.allocations i 0) (λ i. order_discount_at plans i) in
    let own =
      subst (λ k. sum_below k (λ i. get_or p.allocations i 0) ≡ sum p.allocations) h.0
        (sum_below-get_or p.allocations) in
    omega (arith, split, own, sum_below-order_discount_at n plans h.1)

pub sum_by-compute_lines :
    (plans : List DiscountPlan) (inter_state : Option Bool) (k : ℕ) (es : List NormalizedLine)
    → sum_by (λ c. c.order_discount) (compute_lines plans inter_state k es)
      ≡ sum_below (length es) (λ i. order_discount_at plans (k + i))
unfolding compute_lines compute_line sum_below
sum_by-compute_lines plans inter_state k [] = refl
sum_by-compute_lines plans inter_state k (e ∷ es) =
    let shift =
      sum_below-congr (length es) (λ i. order_discount_at plans (suc k + i))
        (λ i. order_discount_at plans (k + suc i))
        (λ i. ap (order_discount_at plans) (omega arith)) in
    let first : order_discount_at plans (k + 0) ≡ order_discount_at plans k =
      ap (order_discount_at plans) (omega arith) in
    omega (arith, sum_by-compute_lines plans inter_state (suc k) es, shift, first)

pub plans-length :
    (bases : List ℕ) (ds : List ResolvedDiscount)
    → All (λ p. length p.allocations ≡ length bases) (map (discount_plan bases) ds)
unfolding discount_plan
plans-length bases [] = tt
plans-length bases (d ∷ ds) = (
  Within-length bases _ (allocate_discount_across_bases-sum bases (pos d.amount)).0,
  plans-length bases ds,
)

-- While the discounts come to no more than the bases, each is spread in full.
pub plans-sum :
    (bases : List ℕ) (ds : List ResolvedDiscount)
    → sum_by (λ d. d.amount) ds ≤ sum bases
    → sum_by (λ p. sum p.allocations) (map (discount_plan bases) ds)
      ≡ sum_by (λ p. p.discount.amount) (map (discount_plan bases) ds)
unfolding discount_plan
plans-sum bases [] h = refl
plans-sum bases (d ∷ ds) h = omega (
  arith,
  (allocate_discount_across_bases-sum bases (pos d.amount)).1,
  plans-sum bases ds (omega arith),
)

pub sums_of_consistent :
    (cs : List ComputedLine)
    → All IsConsistent cs
    → (sum_by (λ c. c.net) cs ≡ sum_by (λ c. c.taxable) cs + sum_by (λ c. c.tax) cs)
      × (sum_by (λ c. c.gst.cgst) cs + sum_by (λ c. c.gst.sgst) cs + sum_by (λ c. c.gst.igst) cs
          ≡ sum_by (λ c. c.tax) cs)
      × (sum_by (λ c. c.discount_amount) cs
          ≡ sum_by (λ c. c.entry.item_discount) cs + sum_by (λ c. c.order_discount) cs)
sums_of_consistent [] h = omega arith
sums_of_consistent (c ∷ cs) (h, hs) =
    let rest = sums_of_consistent cs hs in
    omega (arith, rest, h.net_adds_up, h.gst_adds_up, h.discount_adds_up)

pub plans-amount :
    (order_discounts : List DiscountInput) (bases : List ℕ)
    → sum_by (λ p. p.discount.amount) (order_plans order_discounts bases) ≤ sum bases
unfolding order_plans discount_plan
plans-amount order_discounts bases =
    let resolved = resolve_discount_amounts order_discounts (pos (sum bases)) in
    omega (
      arith,
      sum_by-map (λ (p : DiscountPlan). p.discount.amount) (discount_plan bases) resolved,
      resolve_discount_amounts-le order_discounts (sum bases),
    )
