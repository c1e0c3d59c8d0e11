-- ===== src/Pricing/Totals.antt =====
-- packages/contracts/src/pricing.ts: `computeSaleTotals`, the whole sale line by line.
pub mod Lines
pub mod Sums
pub mod Bill
use pointofsale.Base.{
  ℕ, suc, ◌+◌, ◌-◌, ◌*◌, Bool, true, false, List, [], ◌∷◌, map, Option, none, some, ℤ, pos, get_or,
  sum, sum_by,
}
use pointofsale.Money.{round_div}
use pointofsale.Pricing.Tax.{
  TaxMode, exclusive, exclusive_base, LineTax, line_tax, GstSplit, split_gst,
}
use pointofsale.Pricing.RoundOff.{RoundOffMode, RoundedTotal, rounded_total}
use pointofsale.Pricing.Discount.{DiscountInput, ResolvedDiscount, resolve_discount_amounts}
use pointofsale.Pricing.Allocation.{allocate_discount_across_bases}

pub record PricedLineInput : Type 0 where
  pub qty : ℕ
  pub sale_uom_qty : Option ℕ
  pub rate : ℕ
  pub tax_rate : ℕ
  pub tax_mode : Option TaxMode
  pub discounts : List DiscountInput

pub record SaleOptions : Type 0 where
  pub charge_tax : Option Bool
  pub inter_state : Option Bool
  pub round_off : Option RoundOffMode

-- `options.chargeTax === false`: the line is priced as untaxed.
unfoldable pub priced_line : Option Bool → PricedLineInput → PricedLineInput
priced_line (some false) line = record line { tax_rate = 0; tax_mode = some exclusive }
priced_line (some true) line = line
priced_line none line = line

-- `line.saleUomQty ?? line.qty`.
abbrev pub pricing_qty : PricedLineInput → ℕ
pricing_qty line = elim line.sale_uom_qty [ none ↦ line.qty | some q ↦ q ]

-- An entry of `normalized`.
pub record NormalizedLine : Type 0 where
  pub line : PricedLineInput
  pub gross : ℕ
  pub base_exclusive : ℕ
  pub item_discounts : List ResolvedDiscount
  pub item_discount : ℕ
  pub base_after_item : ℕ

unfoldable pub normalize_line : PricedLineInput → NormalizedLine
normalize_line line =
    let gross = round_div (pricing_qty line * line.rate) 1000 in
    let base = exclusive_base gross line.tax_mode line.tax_rate in
    let item_discounts = resolve_discount_amounts line.discounts (pos base) in
    let item_discount = sum_by (λ d. d.amount) item_discounts in
    record {
      line = line;
      gross = gross;
      base_exclusive = base;
      item_discounts = item_discounts;
      item_discount = item_discount;
      base_after_item = base - item_discount;
    }

pub record DiscountPlan : Type 0 where
  pub discount : ResolvedDiscount
  pub allocations : List ℕ

unfoldable pub discount_plan : List ℕ → ResolvedDiscount → DiscountPlan
discount_plan bases d = record {
  discount = d;
  allocations = allocate_discount_across_bases bases (pos d.amount);
}

-- What the order discounts take off the line at an index.
unfoldable pub order_discount_at : List DiscountPlan → ℕ → ℕ
order_discount_at plans idx = sum_by (λ p. get_or p.allocations idx 0) plans

pub record ComputedLine : Type 0 where
  pub entry : NormalizedLine
  pub order_discount : ℕ
  pub discount_amount : ℕ
  pub taxable : ℕ
  pub tax : ℕ
  pub gst : GstSplit
  pub net : ℕ

-- `options.interState === true`.
abbrev pub is_inter_state : Option Bool → Bool
is_inter_state (some true) = true
is_inter_state (some false) = false
is_inter_state none = false

unfoldable pub compute_line : List DiscountPlan → Option Bool → ℕ → NormalizedLine → ComputedLine
compute_line plans inter_state idx e =
    let order_discount = order_discount_at plans idx in
    let discount = e.item_discount + order_discount in
    let taxable = e.base_exclusive - discount in
    let taxes = line_tax (record {
      gross = e.gross;
      base_exclusive = e.base_exclusive;
      taxable = taxable;
      tax_mode = e.line.tax_mode;
      tax_rate = e.line.tax_rate;
    }) in
    record {
      entry = e;
      order_discount = order_discount;
      discount_amount = discount;
      taxable = taxable;
      tax = taxes.tax;
      gst = split_gst taxes.tax (is_inter_state inter_state);
      net = taxes.net;
    }

-- `normalized.map((entry, idx) => …)`, from index `idx` on.
unfoldable pub compute_lines :
    List DiscountPlan → Option Bool → ℕ → List NormalizedLine → List ComputedLine
compute_lines plans inter_state idx [] = []
compute_lines plans inter_state idx (e ∷ entries) =
    compute_line plans inter_state idx e ∷ compute_lines plans inter_state (suc idx) entries

pub record SaleTotals : Type 0 where
  pub lines : List ComputedLine
  pub order_discount_plans : List DiscountPlan
  pub order_discount_base : ℕ
  pub sub_total : ℕ
  pub discount_total : ℕ
  pub order_discount_total : ℕ
  pub tax_total : ℕ
  pub cgst_total : ℕ
  pub sgst_total : ℕ
  pub igst_total : ℕ
  pub rounding : RoundedTotal

-- `options.roundOff ?? 'NONE'`.
abbrev pub mode_or_none : Option RoundOffMode → RoundOffMode
mode_or_none none = RoundOffMode.none
mode_or_none (some mode) = mode

abbrev pub bases_of : List NormalizedLine → List ℕ
bases_of = map (λ e. e.base_after_item)

unfoldable pub order_plans : List DiscountInput → List ℕ → List DiscountPlan
order_plans order_discounts bases =
    map (discount_plan bases) (resolve_discount_amounts order_discounts (pos (sum bases)))

unfoldable pub totals_of : List ComputedLine → List DiscountPlan → ℕ → RoundOffMode → SaleTotals
totals_of computed plans base mode = record {
  lines = computed;
  order_discount_plans = plans;
  order_discount_base = base;
  sub_total = sum_by (λ c. c.entry.base_exclusive) computed;
  discount_total = sum_by (λ c. c.discount_amount) computed;
  order_discount_total = sum_by (λ c. c.order_discount) computed;
  tax_total = sum_by (λ c. c.tax) computed;
  cgst_total = sum_by (λ c. c.gst.cgst) computed;
  sgst_total = sum_by (λ c. c.gst.sgst) computed;
  igst_total = sum_by (λ c. c.gst.igst) computed;
  rounding = rounded_total (sum_by (λ c. c.net) computed) mode;
}

unfoldable pub compute_sale_totals :
    List PricedLineInput → List DiscountInput → SaleOptions → SaleTotals
compute_sale_totals lines order_discounts options =
    let normalized = map (λ line. normalize_line (priced_line options.charge_tax line)) lines in
    let bases = bases_of normalized in
    let plans = order_plans order_discounts bases in
    totals_of (compute_lines plans options.inter_state 0 normalized) plans (sum bases)
      (mode_or_none options.round_off)
