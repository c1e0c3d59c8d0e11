-- ===== src/Pricing/Totals/Lines.antt =====
-- The computed lines of a sale.
use pointofsale.Base.{
  ℕ, suc, ◌+◌, ◌-◌, ◌*◌, ◌≤◌, ◌≡◌, refl, Bool, List, [], ◌∷◌, map, Option, All, arith,
}
use pointofsale.Money.{round_div}
use pointofsale.Pricing.Tax.{LineTaxInput, exclusive_base, line_tax}
use pointofsale.Pricing.Tax.Laws.{line_tax-net, split_gst_parts}
use pointofsale.Pricing.Discount.{DiscountInput}
use pointofsale.Pricing.Discount.Laws.{resolve_discount_amounts-le}
use pointofsale.Pricing.Totals.{
  PricedLineInput, pricing_qty, is_inter_state, SaleOptions, priced_line, NormalizedLine,
  normalize_line, DiscountPlan, order_discount_at, ComputedLine, compute_line, compute_lines,
  compute_sale_totals, totals_of,
}

-- The amounts of a computed line agree with one another.
pub record IsConsistent (c : ComputedLine) : Type 0 where
  pub net_adds_up : c.net ≡ c.taxable + c.tax
  pub gst_adds_up : c.gst.cgst + c.gst.sgst + c.gst.igst ≡ c.tax
  pub discount_adds_up : c.discount_amount ≡ c.entry.item_discount + c.order_discount
  pub taxable_is_rest : c.taxable ≡ c.entry.base_exclusive - c.discount_amount
  pub item_discount_fits : c.entry.item_discount ≤ c.entry.base_exclusive
  pub base_after_item_is_rest :
      c.entry.base_after_item + c.entry.item_discount ≡ c.entry.base_exclusive

abbrev pub IsNormal : NormalizedLine → Type 0
IsNormal e =
    (e.item_discount ≤ e.base_exclusive) × (e.base_after_item + e.item_discount ≡ e.base_exclusive)

pub normalize_line-IsNormal : (line : PricedLineInput) → IsNormal (normalize_line line)
unfolding normalize_line
normalize_line-IsNormal line =
    let gross = round_div (pricing_qty line * line.rate) 1000 in
    let base = exclusive_base gross line.tax_mode line.tax_rate in
    let fits = resolve_discount_amounts-le line.discounts base in (fits, omega arith)

compute_line-IsConsistent :
    (plans : List DiscountPlan) (inter_state : Option Bool) (idx : ℕ) (e : NormalizedLine)
    → IsNormal e
    → IsConsistent (compute_line plans inter_state idx e)
unfolding compute_line
compute_line-IsConsistent plans inter_state idx e h =
    let taxed : LineTaxInput = record {
      gross = e.gross;
      base_exclusive = e.base_exclusive;
      taxable = e.base_exclusive - (e.item_discount + order_discount_at plans idx);
      tax_mode = e.line.tax_mode;
      tax_rate = e.line.tax_rate;
    } in
    record {
      net_adds_up = line_tax-net taxed;
      gst_adds_up = (split_gst_parts (line_tax taxed).tax (is_inter_state inter_state)).0;
      discount_adds_up = refl;
      taxable_is_rest = refl;
      item_discount_fits = h.0;
      base_after_item_is_rest = h.1;
    }

pub compute_lines-IsConsistent :
    (plans : List DiscountPlan) (inter_state : Option Bool) (idx : ℕ) (es : List NormalizedLine)
    → All IsNormal es
    → All IsConsistent (compute_lines plans inter_state idx es)
unfolding compute_lines
compute_lines-IsConsistent plans inter_state idx [] h = tt
compute_lines-IsConsistent plans inter_state idx (e ∷ es) h = (
  compute_line-IsConsistent plans inter_state idx e h.0,
  compute_lines-IsConsistent plans inter_state (suc idx) es h.1,
)

pub normalized-IsNormal :
    (charge_tax : Option Bool) (lines : List PricedLineInput)
    → All IsNormal (map (λ line. normalize_line (priced_line charge_tax line)) lines)
normalized-IsNormal charge_tax [] = tt
normalized-IsNormal charge_tax (l ∷ lines) =
    (normalize_line-IsNormal (priced_line charge_tax l), normalized-IsNormal charge_tax lines)

-- On every line of every sale the net is the taxable value and the tax, the GST parts add up to the
-- tax, the discount is the item's and the order's, the item discount is within the base, and the
-- taxable value is what the discount leaves of the base (0 if it takes more).
pub compute_sale_totals-IsConsistent :
    (lines : List PricedLineInput) (order_discounts : List DiscountInput) (options : SaleOptions)
    → All IsConsistent (compute_sale_totals lines order_discounts options).lines
unfolding compute_sale_totals totals_of
compute_sale_totals-IsConsistent lines order_discounts options =
    compute_lines-IsConsistent _ options.inter_state 0 _
      (normalized-IsNormal options.charge_tax lines)
