-- ===== src/Pricing/RoundOff.antt =====
-- packages/contracts/src/pricing.ts: `roundOffFor` and `roundedTotal`, a bill's rounding to the
-- rupee or to fifty paise.
pub mod Laws
use pointofsale.Base.{ℕ, ◌*◌, Bool, ◌||◌, ℤ, pos, ◌+ℤ◌, sub_ℕ, ◌==◌, if◌then◌else◌}
use pointofsale.Money.{round_div}

pub data RoundOffMode : Type 0 where
  none nearest_1 nearest_050 : RoundOffMode

-- The step in paise.
abbrev pub step_of : RoundOffMode → ℕ
step_of RoundOffMode.none = 0
step_of nearest_1 = 100
step_of nearest_050 = 50

-- `total / step` is rounded to hundredths of a step, then to a whole step. The 1e-9 that the source
-- adds there is less than the distance of such a hundredth from a tie below it.
unfoldable pub round_off_for : ℕ → RoundOffMode → ℤ
unfolding round_div
round_off_for total mode =
    let step = step_of mode in
    if step == 0 || total == 0
    then pos 0
    else sub_ℕ (round_div (round_div (total * 100) step) 100 * step) total

pub record RoundedTotal : Type 0 where
  pub net_total : ℕ
  pub round_off : ℤ
  pub grand_total : ℤ

unfoldable pub rounded_total : ℕ → RoundOffMode → RoundedTotal
unfolding round_off_for ◌+ℤ◌
rounded_total net mode =
    let off = round_off_for net mode in
    record { net_total = net; round_off = off; grand_total = pos net +ℤ off }
