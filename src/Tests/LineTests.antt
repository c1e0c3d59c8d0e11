-- ===== src/Tests/LineTests.antt =====
-- apps/api/src/sales/sale-lines.ts at concrete inputs; money in paise, quantities in thousandths.
use pointofsale.Base.{◌≡◌, refl, true, false, none, some, [], ◌∷◌, All, ok}
use pointofsale.Money.{round_div}
use pointofsale.Pricing.Tax.{TaxMode, mrp_problem, price_with_tax, exclusive_base}
use pointofsale.Sales.Lines.{
  SaleItem, BranchPrice, SaleLineInput, NormalizedSaleLine, normalize_sale_lines,
  normalize_sale_line, resolve_line_pricing, unit_in, variant_unit, with_branch_prices,
  assert_qty_respects_least_count, list_amount, assert_within_cashier_discount_limit,
}
use pointofsale.Sales.Lines.Priced.{IsPriced, normalize_sale_lines-IsPriced}

-- Sold by the piece, or by the box of ten; the branch has its own price for a box.
abbrev pub soap : SaleItem
soap = record {
  id = 5;
  uom = 1;
  least_count = 1000;
  sell_price = 4500;
  mrp = 5000;
  cost_price = 3000;
  tax_rate = 1800;
  tax_mode = TaxMode.inclusive;
  is_active = true;
  sale_uoms =
      record {
        uom = 2;
        conversion_qty = 10_000;
        sell_price = 44_000;
        mrp = 50_000;
        is_default = false;
      }
      ∷ [];
}

abbrev pub box_price : BranchPrice
box_price = record { item_id = 5; uom = 2; sell_price = 43_000; mrp = 50_000 }

abbrev pub sample_line : SaleLineInput
sample_line = record {
  item_id = 5;
  qty = 20_000;
  rate = 42_000;
  sale_uom = some 2;
  sale_uom_qty = some 2000;
  sale_uom_conversion_qty = some 10_000;
  tax_rate = 1800;
  tax_mode = none;
  discounts = [];
}

abbrev pub sample_normalized : NormalizedSaleLine
sample_normalized = record {
  line = sample_line;
  pricing = record {
    unit = record {
      qty = 20_000;
      sale_uom = some 2;
      sale_uom_qty = some 2000;
      sale_uom_conversion_qty = some 10_000;
      list_rate = 43_000;
      mrp = 50_000;
    };
    rate = 42_000;
    tax_rate = 1800;
    tax_mode = TaxMode.inclusive;
  };
  unit_cost = 3000;
}

pub lines_run :
    normalize_sale_lines (soap ∷ []) (box_price ∷ []) true (sample_line ∷ [])
    ≡ ok (sample_normalized ∷ [])
unfolding normalize_sale_lines normalize_sale_line resolve_line_pricing unit_in variant_unit
    with_branch_prices assert_qty_respects_least_count mrp_problem price_with_tax round_div
lines_run = refl

normalize_sale_lines-IsPriced_example :
    All (IsPriced (soap ∷ []) (box_price ∷ []) true) (sample_normalized ∷ [])
normalize_sale_lines-IsPriced_example =
    (normalize_sale_lines-IsPriced (soap ∷ []) (box_price ∷ []) true (sample_line ∷ [])
      (sample_normalized ∷ []) lines_run).1

-- 720.00 of a list total of 728.81 before tax, with at most 2 % off.
limit_run :
    assert_within_cashier_discount_limit (sample_normalized ∷ []) (72_000 ∷ []) 200 true ≡ ok tt
unfolding assert_within_cashier_discount_limit list_amount exclusive_base round_div
limit_run = refl
