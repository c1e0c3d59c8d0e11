-- ===== src/Pricing/Tax.antt =====
-- packages/contracts/src/pricing.ts: MRP checks, the price before tax, a line's tax and its split
-- into CGST, SGST and IGST.
pub mod Laws
use pointofsale.Base.{
  ℕ, ◌+◌, ◌-◌, ◌*◌, ◌/◌, Bool, true, false, not, ◌&&◌, Option, none, some, ltb, leb, ◌==◌,
  if◌then◌else◌,
}
use pointofsale.Money.{round_div}

pub data TaxMode : Type 0 where
  inclusive exclusive : TaxMode

-- `taxMode === 'INCLUSIVE'`; a line may leave its mode out.
abbrev pub is_inclusive : Option TaxMode → Bool
is_inclusive none = false
is_inclusive (some inclusive) = true
is_inclusive (some exclusive) = false

unfoldable pub price_with_tax : ℕ → Option TaxMode → ℕ → Bool → ℕ
unfolding round_div
price_with_tax price mode rate charge_tax =
    if charge_tax && not (is_inclusive mode) && ltb 0 rate
    then round_div (price * (10_000 + rate)) 10_000
    else price

-- The two messages of `mrpProblem`, with the price charged and the MRP.
pub data MrpProblem : Type 0 where
  above_mrp : ℕ → ℕ → MrpProblem
  above_mrp_with_gst : ℕ → ℕ → MrpProblem

unfoldable pub mrp_problem : ℕ → ℕ → Option TaxMode → ℕ → Bool → Option MrpProblem
unfolding price_with_tax
mrp_problem price mrp mode rate charge_tax =
    if not (ltb 0 mrp)
    then none
    else (let charged = price_with_tax price mode rate charge_tax in
        if leb charged mrp
        then none
        else (if charged == price
            then some (above_mrp charged mrp)
            else some (above_mrp_with_gst charged mrp)))

unfoldable pub exclusive_base : ℕ → Option TaxMode → ℕ → ℕ
exclusive_base gross mode rate =
    if is_inclusive mode && ltb 0 rate then round_div (gross * 10_000) (10_000 + rate) else gross

pub record LineTaxInput : Type 0 where
  pub gross : ℕ
  pub base_exclusive : ℕ
  pub taxable : ℕ
  pub tax_mode : Option TaxMode
  pub tax_rate : ℕ

pub record LineTax : Type 0 where
  pub tax : ℕ
  pub net : ℕ

-- `Math.max(0, …)` is the truncated subtraction.
unfoldable pub line_tax : LineTaxInput → LineTax
line_tax i =
    if is_inclusive i.tax_mode && ltb 0 i.tax_rate
    then (let tax =
          if ltb 0 i.base_exclusive
          then round_div (i.gross * i.taxable) i.base_exclusive - i.taxable
          else 0 in
        record { tax = tax; net = i.taxable + tax })
    else (let tax = round_div (i.taxable * i.tax_rate) 10_000 in
        record { tax = tax; net = i.taxable + tax })

pub record GstSplit : Type 0 where
  pub cgst : ℕ
  pub sgst : ℕ
  pub igst : ℕ

unfoldable pub split_gst : ℕ → Bool → GstSplit
split_gst tax inter_state =
    if inter_state
    then record { cgst = 0; sgst = 0; igst = tax }
    else record { cgst = tax / 2; sgst = tax - tax / 2; igst = 0 }
