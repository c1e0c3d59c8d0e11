-- ===== src/Pricing/Tax/Laws.antt =====
-- `lineTax` and `splitGst` of one line.
use native.Mathlib.Nat.{mul-le-mul, le_refl}
use pointofsale.Base.{
  ℕ, ◌+◌, ◌*◌, ◌≤◌, ◌<◌, ◌≡◌, inl, inr, Bool, false, Option, some, ltb, if◌then◌else◌, arith,
  Bool-cases,
}
use pointofsale.Money.{round_div}
use pointofsale.Money.Laws.{
  round_div_nearest, round_div-le, le-round_div, round_div_exact, round_div_zero, round_div_pos,
}
use pointofsale.Pricing.Tax.{TaxMode, inclusive, exclusive_base, LineTaxInput, line_tax, split_gst}

-- The split neither makes nor loses a paisa. Within the state there is no IGST, and CGST is the half
-- rounded down, SGST the same or a paisa more; an inter-state sale is all IGST.
pub split_gst_parts :
    (tax : ℕ) (inter_state : Bool)
    → let parts = split_gst tax inter_state in
      (parts.cgst + parts.sgst + parts.igst ≡ tax)
      × (parts.cgst ≤ parts.sgst)
      × (parts.sgst ≤ parts.cgst + 1)
      × (parts.igst ≡ (if inter_state then tax else 0))
unfolding split_gst
split_gst_parts tax inter_state = ground arith

-- The net amount is always the taxable amount plus the tax.
pub line_tax-net : (i : LineTaxInput) → (line_tax i).net ≡ i.taxable + (line_tax i).tax
unfolding line_tax
line_tax-net i = ground arith

pub exclusive_base-le :
    (gross : ℕ) (mode : Option TaxMode) (rate : ℕ) → exclusive_base gross mode rate ≤ gross
unfolding exclusive_base
exclusive_base-le gross mode rate =
    ground (arith, round_div-le (gross * 10_000) (10_000 + rate) gross)

exclusive_base_pos :
    (gross : ℕ) (mode : Option TaxMode) (rate : ℕ)
    → rate ≤ 10_000
    → 0 < gross
    → 0 < exclusive_base gross mode rate
unfolding exclusive_base
exclusive_base_pos gross mode rate h p =
    ground (arith, round_div_pos (gross * 10_000) (10_000 + rate) (omega arith) (omega arith))

exclusive_base_untaxed :
    (gross rate : ℕ) → ltb 0 rate ≡ false → exclusive_base gross (some inclusive) rate ≡ gross
unfolding exclusive_base
exclusive_base_untaxed gross rate h = ground arith

-- An inclusive price without discounts is charged as it stands, to the paisa.
pub line_tax_inclusive_exact :
    (gross rate : ℕ)
    → rate ≤ 10_000
    → let base = exclusive_base gross (some inclusive) rate in
      (line_tax (record {
        gross = gross;
        base_exclusive = base;
        taxable = base;
        tax_mode = some inclusive;
        tax_rate = rate;
      })).net
      ≡ gross
unfolding line_tax
line_tax_inclusive_exact gross rate h =
    let base = exclusive_base gross (some inclusive) rate in
    elim (Bool-cases (ltb 0 rate)) [
      | inl taxed ↦ elim (Bool-cases (ltb 0 base)) [
        | inl some_base ↦
            ground
              (arith, exclusive_base-le gross (some inclusive) rate, round_div_exact gross base)
        | inr no_base ↦ ground (arith, exclusive_base_pos gross (some inclusive) rate h)
      ]
      | inr untaxed ↦ ground (arith, exclusive_base_untaxed gross rate, round_div_zero 10_000)
    ]

-- On an inclusive line a discount shrinks what is paid in proportion, to the nearest paisa, and the
-- customer never pays more than the shelf price.
pub line_tax_inclusive_proportional :
    (i : LineTaxInput)
    → i.tax_mode ≡ some inclusive
    → 0 < i.tax_rate
    → 0 < i.base_exclusive
    → i.base_exclusive ≤ i.gross
    → i.taxable ≤ i.base_exclusive
    → let net = (line_tax i).net in
      (net ≤ i.gross)
      × (2 * (net * i.base_exclusive) ≤ 2 * (i.gross * i.taxable) + i.base_exclusive)
      × (2 * (i.gross * i.taxable) < 2 * (net * i.base_exclusive) + i.base_exclusive)
unfolding line_tax
line_tax_inclusive_proportional i m r b g t =
    let scaled = i.gross * i.taxable in
    let below =
      le-round_div scaled i.base_exclusive i.taxable b
        (omega (arith, mul-le-mul g (le_refl i.taxable))) in
    let above =
      round_div-le scaled i.base_exclusive i.gross b
        (omega (arith, mul-le-mul t (le_refl i.gross))) in
    let near = round_div_nearest scaled i.base_exclusive b in
    let exact : (line_tax i).net ≡ round_div scaled i.base_exclusive = ground arith in
    rw exact (above, near.0, near.1)
