-- ===== src/Pricing/Refund.antt =====
-- packages/contracts/src/pricing.ts: `returnLineAmounts` and `returnRoundOff`, with the sums of
-- earlier return lines of apps/api/src/returns/returns.service.ts that they are given.
pub mod Laws
pub mod Rounding
use Prim.Native.Nat.{min}
use pointofsale.Base.{
  ℕ, ◌+◌, ◌-◌, ◌*◌, Bool, ◌||◌, List, [], ◌∷◌, ℤ, pos, negsuc, pos_part, neg_part, sub_ℕ, ◌-ℤ◌, ltb,
  leb, leb_ℤ, ◌==◌, if◌then◌else◌,
}
use pointofsale.Money.{round_div}

pub record GstAmounts : Type 0 where
  pub taxable : ℕ
  pub cgst : ℕ
  pub sgst : ℕ
  pub igst : ℕ

abbrev pub no_amounts : GstAmounts
no_amounts = record { taxable = 0; cgst = 0; sgst = 0; igst = 0 }

-- `totalOf`.
abbrev pub total_of : GstAmounts → ℕ
total_of a = a.taxable + a.cgst + a.sgst + a.igst

-- `sumGstAmounts`, a step of its `reduce`.
abbrev pub add_amounts : GstAmounts → GstAmounts → GstAmounts
add_amounts a b = record {
  taxable = a.taxable + b.taxable;
  cgst = a.cgst + b.cgst;
  sgst = a.sgst + b.sgst;
  igst = a.igst + b.igst;
}

pub record ReturnInput : Type 0 where
  pub line : GstAmounts
  pub sold_qty : ℕ
  pub already_returned_qty : ℕ
  pub already_returned : GstAmounts
  pub qty : ℕ

-- The part's share of the units returned so far, less what earlier returns took.
unfoldable pub due : ℕ → ℕ → ℕ → ℕ → ℕ
due returned sold amount before = round_div (amount * returned) sold - before

-- `remaining` of each part: the last units take whatever is left.
unfoldable pub remaining_parts : GstAmounts → GstAmounts → GstAmounts
remaining_parts line already = record {
  taxable = line.taxable - already.taxable;
  cgst = line.cgst - already.cgst;
  sgst = line.sgst - already.sgst;
  igst = line.igst - already.igst;
}

-- The parts of a return that leaves units out: each tax part prorated, and the taxable value the
-- rest of the prorated total.
unfoldable pub prorated_parts : ReturnInput → ℕ → GstAmounts
prorated_parts i returned =
    let left = remaining_parts i.line i.already_returned in
    let cgst = min left.cgst (due returned i.sold_qty i.line.cgst i.already_returned.cgst) in
    let sgst = min left.sgst (due returned i.sold_qty i.line.sgst i.already_returned.sgst) in
    let igst = min left.igst (due returned i.sold_qty i.line.igst i.already_returned.igst) in
    let amount = due returned i.sold_qty (total_of i.line) (total_of i.already_returned) in
    record {
      taxable = min left.taxable (amount - (cgst + sgst + igst));
      cgst = cgst;
      sgst = sgst;
      igst = igst;
    }

-- Quantities are thousandths, so `Math.abs(returnedQty - soldQty) < 1e-9` is equality.
unfoldable pub return_parts : ReturnInput → GstAmounts
return_parts i =
    let returned = i.already_returned_qty + i.qty in
    if i.sold_qty == 0 || i.qty == 0
    then no_amounts
    else (if returned == i.sold_qty
        then remaining_parts i.line i.already_returned
        else prorated_parts i returned)

pub record ReturnAmounts : Type 0 where
  pub parts : GstAmounts
  pub tax : ℕ
  pub amount : ℕ

unfoldable pub return_line_amounts : ReturnInput → ReturnAmounts
return_line_amounts i =
    let parts = return_parts i in
    let tax = parts.cgst + parts.sgst + parts.igst in
    record { parts = parts; tax = tax; amount = parts.taxable + tax }

pub record RoundOffInput : Type 0 where
  pub invoice_round_off : ℤ
  pub invoice_net_total : ℕ
  pub returned_net_total : ℕ
  pub returned_round_off : ℤ
  pub amount : ℕ

-- `round2(r * n / d)` of a signed amount: half away from zero.
unfoldable pub prorate_signed : ℤ → ℕ → ℕ → ℤ
prorate_signed r n d = sub_ℕ (round_div (pos_part r * n) d) (round_div (neg_part r * n) d)

unfoldable pub return_round_off : RoundOffInput → ℤ
return_round_off i =
    let cumulative = min i.invoice_net_total (i.returned_net_total + i.amount) in
    if i.invoice_net_total == 0 || i.amount == 0
    then pos 0
    else prorate_signed i.invoice_round_off cumulative i.invoice_net_total -ℤ i.returned_round_off
