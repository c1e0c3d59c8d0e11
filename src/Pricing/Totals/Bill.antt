-- ===== src/Pricing/Totals/Bill.antt =====
-- `computeSaleTotals` of a whole bill.
use pointofsale.Base.{
  ℕ, zero, suc, ◌+◌, ◌≤◌, ◌≡◌, ◌∙◌, ap, Bool, List, [], ◌∷◌, map, Option, pos, get_or, sum, sum_by,
  length, length-map, All, arith,
}
use pointofsale.Pricing.RoundOff.Laws.{rounded_total_nearest}
use pointofsale.Pricing.Discount.{DiscountInput, ResolvedDiscount, resolve_discount_amounts}
use pointofsale.Pricing.Discount.Laws.{resolve_discount_amounts-le, length-resolve_discount_amounts}
use pointofsale.Pricing.Allocation.Laws.{Within}
use pointofsale.Pricing.Allocation.Sum.{allocate_discount_across_bases-sum}
use pointofsale.Pricing.Totals.{
  PricedLineInput, SaleOptions, mode_or_none, priced_line, NormalizedLine, normalize_line,
  DiscountPlan, discount_plan, order_discount_at, compute_line, compute_lines, compute_sale_totals,
  totals_of, order_plans, bases_of,
}
use pointofsale.Pricing.Totals.Lines.{
  compute_sale_totals-IsConsistent, normalized-IsNormal, IsNormal,
}
use pointofsale.Pricing.Totals.Sums.{
  sum_below, sum_below-congr, plans-amount, sum_by-compute_lines, sum_below-order_discount_at,
  plans-length, plans-sum, sums_of_consistent,
}

order_discount_total-plans :
    (order_discounts : List DiscountInput) (inter_state : Option Bool) (es : List NormalizedLine)
    → let plans = order_plans order_discounts (bases_of es) in
      sum_by (λ c. c.order_discount) (compute_lines plans inter_state 0 es)
      ≡ sum_by (λ p. p.discount.amount) plans
unfolding order_plans
order_discount_total-plans order_discounts inter_state es =
    let bases = bases_of es in
    let resolved = resolve_discount_amounts order_discounts (pos (sum bases)) in
    let plans = map (discount_plan bases) resolved in
    let long = plans-length bases resolved in
    let counted : length bases ≡ length es = length-map _ es in
    let spread = sum_below-order_discount_at (length bases) plans long in
    let lined : sum_by (λ c. c.order_discount) (compute_lines plans inter_state 0 es)
        ≡ sum_below (length es) (order_discount_at plans) =
      sum_by-compute_lines plans inter_state 0 es
      ∙ sum_below-congr (length es) (λ i. order_discount_at plans (0 + i)) (order_discount_at plans)
          (λ i. ap (order_discount_at plans) (omega arith)) in
    omega (
      arith,
      lined,
      spread,
      ap (λ n. sum_below n (order_discount_at plans)) counted,
      plans-sum bases resolved (resolve_discount_amounts-le order_discounts (sum bases)),
    )

-- In every sale the net total is the taxable value and the tax of all lines, the CGST, SGST and IGST
-- totals add up to the tax total, the discount total is the item and the order discounts, and the
-- order discounts are spread over the lines to the paisa: what the lines take is what the order's
-- discounts came to, and no more than the order's base.
pub compute_sale_totals-sums :
    (lines : List PricedLineInput) (order_discounts : List DiscountInput) (options : SaleOptions)
    → let t = compute_sale_totals lines order_discounts options in
      (t.rounding.net_total ≡ sum_by (λ c. c.taxable) t.lines + t.tax_total)
      × (t.cgst_total + t.sgst_total + t.igst_total ≡ t.tax_total)
      × (t.discount_total ≡ sum_by (λ c. c.entry.item_discount) t.lines + t.order_discount_total)
      × (t.order_discount_total ≡ sum_by (λ p. p.discount.amount) t.order_discount_plans)
      × (t.order_discount_total ≤ t.order_discount_base)
unfolding compute_sale_totals totals_of
compute_sale_totals-sums lines order_discounts options =
    let es = map (λ line. normalize_line (priced_line options.charge_tax line)) lines in
    let plans = order_plans order_discounts (bases_of es) in
    let computed = compute_lines plans options.inter_state 0 es in
    let (nets, gst, discounts) =
      sums_of_consistent computed
        (compute_sale_totals-IsConsistent lines order_discounts options) in
    let rounded =
      rounded_total_nearest (sum_by (λ c. c.net) computed) (mode_or_none options.round_off) in
    let spread = order_discount_total-plans order_discounts options.inter_state es in
    let asked = plans-amount order_discounts (bases_of es) in
    (omega (arith, rounded.0, nets), gst, discounts, spread, omega (arith, spread, asked))

-- Each line's order discount is within what its item discounts leave, from index `k` on.
abbrev Fits : List DiscountPlan → ℕ → List NormalizedLine → Type 0
Fits plans k [] = Unit {0}
Fits plans k (e ∷ es) = (order_discount_at plans k ≤ e.base_after_item) × Fits plans (suc k) es

Within-get_or :
    (bases shares : List ℕ) (i : ℕ) → Within bases shares → get_or shares i 0 ≤ get_or bases i 0
Within-get_or [] [] i w = omega arith
Within-get_or [] (s ∷ shares) i w = absurd w
Within-get_or (b ∷ bases) [] i w = absurd w
Within-get_or (b ∷ bases) (s ∷ shares) zero w = w.0
Within-get_or (b ∷ bases) (s ∷ shares) (suc i) w = Within-get_or bases shares i w.1

order_discount_at-le-Fits :
    (plans : List DiscountPlan) (k : ℕ) (es : List NormalizedLine)
    → ((i : ℕ) → order_discount_at plans (k + i) ≤ get_or (bases_of es) i 0)
    → Fits plans k es
order_discount_at-le-Fits plans k [] h = tt
order_discount_at-le-Fits plans k (e ∷ es) h =
    let first : order_discount_at plans (k + 0) ≡ order_discount_at plans k =
      ap (order_discount_at plans) (omega arith) in
    (
      omega (arith, first, h 0),
      order_discount_at-le-Fits plans (suc k) es (λ i.
          let shift : order_discount_at plans (suc k + i) ≡ order_discount_at plans (k + suc i) =
            ap (order_discount_at plans) (omega arith) in
          omega (arith, shift, h (suc i))),
    )

one_plan :
    (bases : List ℕ) (ds : List ResolvedDiscount) (i : ℕ)
    → length ds ≤ 1
    → order_discount_at (map (discount_plan bases) ds) i ≤ get_or bases i 0
unfolding order_discount_at discount_plan
one_plan bases [] i h = omega arith
one_plan bases (d ∷ []) i h =
    let w = (allocate_discount_across_bases-sum bases (pos d.amount)).0 in
    omega (arith, Within-get_or bases _ i w)
one_plan bases (d ∷ d' ∷ ds) i h = absurd (omega arith)

one_order_discount-Fits :
    (order_discounts : List DiscountInput) (es : List NormalizedLine)
    → length order_discounts ≤ 1
    → Fits (order_plans order_discounts (bases_of es)) 0 es
unfolding order_plans
one_order_discount-Fits order_discounts es h =
    let bases = bases_of es in
    let resolved = resolve_discount_amounts order_discounts (pos (sum bases)) in
    let few = length-resolve_discount_amounts order_discounts (pos (sum bases)) in
    order_discount_at-le-Fits (map (discount_plan bases) resolved) 0 es (λ i.
      let shift : order_discount_at (map (discount_plan bases) resolved) (0 + i)
          ≡ order_discount_at (map (discount_plan bases) resolved) i =
        ap (order_discount_at (map (discount_plan bases) resolved)) (omega arith) in
      omega (arith, shift, one_plan bases resolved i (omega arith)))

Fits-sums :
    (plans : List DiscountPlan) (inter_state : Option Bool) (k : ℕ) (es : List NormalizedLine)
    → All IsNormal es
    → Fits plans k es
    → let cs = compute_lines plans inter_state k es in
      sum_by (λ c. c.taxable) cs + sum_by (λ c. c.discount_amount) cs
      ≡ sum_by (λ c. c.entry.base_exclusive) cs
unfolding compute_lines compute_line
Fits-sums plans inter_state k [] n f = omega arith
Fits-sums plans inter_state k (e ∷ es) n f =
    let rest = Fits-sums plans inter_state (suc k) es n.1 f.1 in
    let here = n.0 in omega (arith, rest, f.0)

-- A sale with at most one order discount adds up: the total before rounding is the subtotal less all
-- discounts, which are no more than it, plus the tax.
pub compute_sale_totals_one_order_discount :
    (lines : List PricedLineInput) (order_discounts : List DiscountInput) (options : SaleOptions)
    → length order_discounts ≤ 1
    → let t = compute_sale_totals lines order_discounts options in
      (t.rounding.net_total + t.discount_total ≡ t.sub_total + t.tax_total)
      × (t.discount_total ≤ t.sub_total)
unfolding compute_sale_totals totals_of
compute_sale_totals_one_order_discount lines order_discounts options few =
    let es = map (λ line. normalize_line (priced_line options.charge_tax line)) lines in
    let normal = normalized-IsNormal options.charge_tax lines in
    let fits = one_order_discount-Fits order_discounts es few in
    let plans = order_plans order_discounts (bases_of es) in
    let computed = compute_lines plans options.inter_state 0 es in
    let sums =
      sums_of_consistent computed
        (compute_sale_totals-IsConsistent lines order_discounts options) in
    let rounded =
      rounded_total_nearest (sum_by (λ c. c.net) computed) (mode_or_none options.round_off) in
    omega (arith, rounded.0, sums.0, Fits-sums plans options.inter_state 0 es normal fits)
