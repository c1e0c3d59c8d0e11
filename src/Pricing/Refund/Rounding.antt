-- ===== src/Pricing/Refund/Rounding.antt =====
-- `returnRoundOff` over the returns of an invoice.
use Prim.Native.Nat.{min}
use pointofsale.Base.{ℕ, suc, ◌∙◌, ◌+◌, ◌≤◌, ◌<◌, ◌≡◌, ℤ, pos, negsuc, ◌+ℤ◌, ◌-ℤ◌, int_laws, arith}
use pointofsale.Money.Laws.{round_div_exact, round_div_zero}
use pointofsale.Pricing.Refund.{RoundOffInput, prorate_signed, return_round_off}

prorate_signed-exact : (r : ℤ) (d : ℕ) → 0 < d → prorate_signed r d d ≡ r
unfolding prorate_signed
prorate_signed-exact (pos n) d p = ground (arith, round_div_exact n d p, round_div_zero d)
prorate_signed-exact (negsuc n) d p = ground (arith, round_div_exact (suc n) d p, round_div_zero d)

+ℤ_restore : (a b : ℤ) → a +ℤ (b -ℤ a) ≡ b
+ℤ_restore a b = omega int_laws

-- Each return leaves the invoice's round-off reversed in proportion to the net amount returned so
-- far, whatever the earlier returns reversed.
pub return_round_off_cumulative :
    (i : RoundOffInput)
    → 0 < i.invoice_net_total
    → 0 < i.amount
    → i.returned_round_off +ℤ return_round_off i
      ≡ prorate_signed i.invoice_round_off
          (min i.invoice_net_total (i.returned_net_total + i.amount))
          i.invoice_net_total
unfolding return_round_off
return_round_off_cumulative i p q =
    let target =
      prorate_signed i.invoice_round_off (min i.invoice_net_total (i.returned_net_total + i.amount))
        i.invoice_net_total in
    ground (arith, +ℤ_restore i.returned_round_off target)

-- Once the whole net total is back, the reversals come to the invoice's round-off exactly.
pub return_round_off_complete :
    (i : RoundOffInput)
    → 0 < i.invoice_net_total
    → 0 < i.amount
    → i.invoice_net_total ≤ i.returned_net_total + i.amount
    → i.returned_round_off +ℤ return_round_off i ≡ i.invoice_round_off
return_round_off_complete i p q all =
    let whole : min i.invoice_net_total (i.returned_net_total + i.amount) ≡ i.invoice_net_total =
      omega arith in
    return_round_off_cumulative i p q
    ∙ rw whole (prorate_signed-exact i.invoice_round_off i.invoice_net_total p)
