-- ===== src/Money.antt =====
-- Decimal amounts and their one rounding: `roundTo`, `round2` and `round3` of
-- packages/contracts/src/pricing.ts. An amount is a natural number of paise and a quantity one of
-- thousandths; a quotient is a numerator over a denominator.
pub mod Laws
use pointofsale.Base.{ℕ, ◌+◌, ◌*◌, ◌/◌, ◌^◌, ℤ, pos, pos_part, neg_part, sub_ℕ}

-- `Math.round` of a quotient that is not negative: to the nearest whole number, a half up.
unfoldable pub round_div : ℕ → ℕ → ℕ
round_div n d = (2 * n + d) / (2 * d)

-- `roundTo(n / d, decimals)`, in units of the last decimal place: the sign is put back after the
-- absolute value is rounded.
unfoldable pub round_to : ℤ → ℕ → ℕ → ℤ
unfolding round_div
round_to n d decimals =
    sub_ℕ (round_div (pos_part n * 10 ^ decimals) d) (round_div (neg_part n * 10 ^ decimals) d)

-- `round2` of an amount in rupees, n / d, in paise.
unfoldable pub round2 : ℤ → ℕ → ℤ
unfolding round_to
round2 n d = round_to n d 2

-- `round3` of a quantity, n / d, in thousandths.
unfoldable pub round3 : ℤ → ℕ → ℤ
unfolding round_to
round3 n d = round_to n d 3
