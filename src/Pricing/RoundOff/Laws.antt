-- ===== src/Pricing/RoundOff/Laws.antt =====
-- `roundedTotal` of a bill.
use pointofsale.Base.{ℕ, ◌*◌, ◌%◌, ◌≤◌, ◌<◌, ◌≡◌, ◌⊎◌, pos, pos_part, neg_part, ◌+ℤ◌, arith}
use pointofsale.Pricing.RoundOff.{RoundOffMode, nearest_1, nearest_050, step_of, rounded_total}

-- The grand total is the net total plus the rounding. It is a whole number of steps, at most half a
-- step from the net total, and a tie goes up; with no rounding it is the net total.
pub rounded_total_nearest :
    (net : ℕ) (mode : RoundOffMode)
    → let r = rounded_total net mode in
      let step = step_of mode in
      (r.net_total ≡ net)
      × (r.grand_total ≡ pos net +ℤ r.round_off)
      × (neg_part r.grand_total ≡ 0)
      × ((step ≡ 0) ⊎ (pos_part r.grand_total % step ≡ 0))
      × (2 * pos_part r.round_off ≤ step)
      × ((r.round_off ≡ pos 0) ⊎ (2 * neg_part r.round_off < step))
unfolding rounded_total
rounded_total_nearest net RoundOffMode.none = ground arith
rounded_total_nearest net nearest_1 = ground arith
rounded_total_nearest net nearest_050 = ground arith
