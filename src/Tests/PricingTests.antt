-- ===== src/Tests/PricingTests.antt =====
-- packages/contracts/src/pricing.ts at concrete inputs; amounts in paise.
use Prim.Native.Nat.{min}
use pointofsale.Base.{
  ◌+◌, ◌≤◌, ◌≡◌, refl, none, some, List, [], ◌∷◌, pos, ◌-ℤ◌, ◌+ℤ◌, sum, sum_by, All, insert, sort,
  arith,
}
use pointofsale.Money.{round_div, round_to}
use pointofsale.Money.Laws.{round_to_odd}
use pointofsale.Pricing.Tax.{inclusive, exclusive, LineTaxInput}
use pointofsale.Pricing.RoundOff.{nearest_1, rounded_total}
use pointofsale.Pricing.RoundOff.Laws.{rounded_total_nearest}
use pointofsale.Pricing.Spread.{
  ranking, ranks_before, enumerate, take_round, take_rounds, give_round, give_rounds,
}
use pointofsale.Pricing.Discount.{
  DiscountInput, percentage, fixed, raw_discount, amounts_of, with_amounts, fractions_of,
  scale_amounts, trim_excess, fill_remaining, scale_down, resolve_discount_amounts,
}
use pointofsale.Pricing.Discount.Laws.{resolve_discount_amounts-sum}
use pointofsale.Pricing.Allocation.{
  allocation_order, allocate_round, allocate_rounds, floor_shares, share_fractions,
  allocate_discount_across_bases,
}
use pointofsale.Pricing.Totals.{PricedLineInput, SaleOptions, compute_sale_totals}
use pointofsale.Pricing.Allocation.Laws.{Within}
use pointofsale.Pricing.Allocation.Sum.{allocate_discount_across_bases-sum}
use pointofsale.Pricing.Totals.Lines.{IsConsistent, compute_sale_totals-IsConsistent}
use pointofsale.Pricing.Refund.{GstAmounts, no_amounts, ReturnInput}
use pointofsale.Pricing.Refund.Laws.{
  IsWithin, nothing_returned, return_steps, return_steps-IsWithin, return_steps-exact,
}
use pointofsale.Pricing.Totals.Bill.{
  compute_sale_totals-sums, compute_sale_totals_one_order_discount,
}

-- Three equal lines and a discount of one rupee: 33.34, 33.33 and 33.33.
allocation_run :
    allocate_discount_across_bases (5000 ∷ 5000 ∷ 5000 ∷ []) (pos 100) ≡ 34 ∷ 33 ∷ 33 ∷ []
unfolding allocate_discount_across_bases allocate_rounds allocate_round allocation_order
    floor_shares share_fractions sort insert ranks_before enumerate
allocation_run = refl

-- Two discounts of 60 % are scaled down to the base.
abbrev two_discounts : List DiscountInput
two_discounts =
    record { kind = percentage; value = pos 6000 }
    ∷ record { kind = percentage; value = pos 6000 }
    ∷ []

resolve_run : amounts_of (resolve_discount_amounts two_discounts (pos 101)) ≡ 50 ∷ 51 ∷ []
unfolding resolve_discount_amounts raw_discount round_div with_amounts scale_down scale_amounts
    trim_excess fill_remaining fractions_of take_rounds take_round give_rounds give_round ranking
    ranks_before enumerate sort insert
resolve_run = refl

round_to_odd_example : round_to (pos 0 -ℤ pos 1005) 1000 2 ≡ pos 0 -ℤ round_to (pos 1005) 1000 2
round_to_odd_example = round_to_odd 1005 1000 2

-- 100.00 with 18 % in it, less a discount of 10.00 before tax.
abbrev discounted_line : LineTaxInput
discounted_line = record {
  gross = 10_000;
  base_exclusive = 8475;
  taxable = 7475;
  tax_mode = some inclusive;
  tax_rate = 1800;
}

rounded_total_nearest_example :
    (rounded_total 48_650 nearest_1).grand_total
    ≡ pos 48_650 +ℤ (rounded_total 48_650 nearest_1).round_off
rounded_total_nearest_example = (rounded_total_nearest 48_650 nearest_1).1

resolve_discount_amounts-sum_example :
    sum (amounts_of (resolve_discount_amounts two_discounts (pos 101)))
    ≡ min (sum_by (λ d. (raw_discount 101 d).amount) two_discounts) 101
resolve_discount_amounts-sum_example = resolve_discount_amounts-sum two_discounts (pos 101)

allocate_discount_across_bases-sum_example :
    let shares = allocate_discount_across_bases (5000 ∷ 5000 ∷ 5000 ∷ []) (pos 100) in
    Within (5000 ∷ 5000 ∷ 5000 ∷ []) shares × (sum shares ≡ min 100 15_000)
allocate_discount_across_bases-sum_example =
    allocate_discount_across_bases-sum (5000 ∷ 5000 ∷ 5000 ∷ []) (pos 100)

-- A kilogram and a half at 120.00 with GST in it, less 10 %, and two boxes at 55.50 without GST.
abbrev sample_lines : List PricedLineInput
sample_lines =
    record {
      qty = 1500;
      sale_uom_qty = none;
      rate = 12_000;
      tax_rate = 500;
      tax_mode = some inclusive;
      discounts = record { kind = percentage; value = pos 1000 } ∷ [];
    }
    ∷ record {
      qty = 24_000;
      sale_uom_qty = some 2000;
      rate = 5550;
      tax_rate = 1800;
      tax_mode = some exclusive;
      discounts = [];
    }
    ∷ []

abbrev sample_order_discount : List DiscountInput
sample_order_discount = record { kind = fixed; value = pos 2500 } ∷ []

abbrev sample_options : SaleOptions
sample_options = record { charge_tax = none; inter_state = none; round_off = some nearest_1 }

compute_sale_totals-IsConsistent_example :
    All IsConsistent (compute_sale_totals sample_lines sample_order_discount sample_options).lines
compute_sale_totals-IsConsistent_example =
    compute_sale_totals-IsConsistent sample_lines sample_order_discount sample_options

compute_sale_totals-sums_example :
    let t = compute_sale_totals sample_lines sample_order_discount sample_options in
    t.order_discount_total ≤ t.order_discount_base
compute_sale_totals-sums_example =
    (compute_sale_totals-sums sample_lines sample_order_discount sample_options).4

compute_sale_totals_one_order_discount_example :
    let t = compute_sale_totals sample_lines sample_order_discount sample_options in
    t.rounding.net_total + t.discount_total ≡ t.sub_total + t.tax_total
compute_sale_totals_one_order_discount_example =
    (compute_sale_totals_one_order_discount sample_lines sample_order_discount sample_options
      (omega arith)).0

-- Three units sold for 100.00 with 18 % on top.
abbrev sold_line : GstAmounts
sold_line = record { taxable = 10_000; cgst = 900; sgst = 900; igst = 0 }

abbrev first_return : ReturnInput
first_return = record {
  line = sold_line;
  sold_qty = 3000;
  already_returned_qty = 0;
  already_returned = no_amounts;
  qty = 1000;
}

return_steps-IsWithin_example :
    IsWithin (return_steps sold_line 3000 nothing_returned (1000 ∷ 1500 ∷ [])).amounts sold_line
return_steps-IsWithin_example =
    return_steps-IsWithin sold_line 3000 nothing_returned (1000 ∷ 1500 ∷ []) (omega arith)

return_steps-exact_example :
    (return_steps sold_line 3000 nothing_returned (1000 ∷ 1500 ∷ 500 ∷ [])).amounts ≡ sold_line
return_steps-exact_example =
    return_steps-exact sold_line 3000 1000 (1500 ∷ 500 ∷ []) (omega arith) refl
