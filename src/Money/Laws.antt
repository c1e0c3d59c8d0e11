-- ===== src/Money/Laws.antt =====
-- Rounding to the nearest whole number.
use native.Mathlib.Nat.{mul-le-mul, le_refl}
use pointofsale.Base.{ℕ, ◌+◌, ◌*◌, ◌≤◌, ◌<◌, ◌≡◌, pos, ◌-ℤ◌, arith, dec_lt}
use pointofsale.Money.{round_div, round_to}

-- The rounded value is within half a unit, and a tie goes up.
pub round_div_nearest :
    (n d : ℕ)
    → 0 < d
    → (2 * (round_div n d * d) ≤ 2 * n + d) × (2 * n < 2 * (round_div n d * d) + d)
unfolding round_div
round_div_nearest n d h = grind arith

pub le-of_mul : (q r d : ℕ) → q * d < r * d + d → q ≤ r
le-of_mul q r d h = elim (dec_lt r q) [
  | yes more ↦ absurd (omega (arith, mul-le-mul more (le_refl d)))
  | no less ↦ omega arith
]

-- What lies within half a unit below, or less than that above, is the rounded value.
pub round_div_unique :
    (n d q : ℕ) → 0 < d → 2 * (q * d) ≤ 2 * n + d → 2 * n < 2 * (q * d) + d → round_div n d ≡ q
round_div_unique n d q p h k =
    let r = round_div n d in
    let near = round_div_nearest n d p in
    let below : r ≤ q = le-of_mul r q d (omega arith) in
    let above : q ≤ r = le-of_mul q r d (omega arith) in omega arith

pub round_div-le : (n d q : ℕ) → 0 < d → n ≤ q * d → round_div n d ≤ q
round_div-le n d q p k =
    let near = round_div_nearest n d p in le-of_mul (round_div n d) q d (omega arith)

pub le-round_div : (n d q : ℕ) → 0 < d → q * d ≤ n → q ≤ round_div n d
le-round_div n d q p k =
    let near = round_div_nearest n d p in le-of_mul q (round_div n d) d (omega arith)

pub round_div_mono : (m n d : ℕ) → 0 < d → m ≤ n → round_div m d ≤ round_div n d
round_div_mono m n d p h =
    let low = round_div_nearest m d p in
    let high = round_div_nearest n d p in le-of_mul (round_div m d) (round_div n d) d (omega arith)

pub round_div_exact : (q d : ℕ) → 0 < d → round_div (q * d) d ≡ q
round_div_exact q d p = round_div_unique (q * d) d q p (omega arith) (omega arith)

pub round_div_pos : (n d : ℕ) → 0 < d → d ≤ 2 * n → 0 < round_div n d
round_div_pos n d p h =
    let near = round_div_nearest n d p in le-of_mul 1 (round_div n d) d (omega arith)

pub round_div_zero : (d : ℕ) → round_div 0 d ≡ 0
unfolding round_div
round_div_zero d = grind arith

-- Scaling the numerator and the denominator alike changes nothing.
pub round_div_scale : (n d k : ℕ) → 0 < d → 0 < k → round_div (n * k) (d * k) ≡ round_div n d
round_div_scale n d k p h =
    let (low, high) = round_div_nearest n d p in
    let low_k = mul-le-mul low (le_refl k) in
    let high_k = mul-le-mul high (le_refl k) in
    round_div_unique (n * k) (d * k) (round_div n d) (mul-le-mul p h) (omega arith) (omega arith)

-- Rounding is symmetric about zero: the code rounds the absolute value and puts the sign back.
pub round_to_odd :
    (n d decimals : ℕ) → round_to (pos 0 -ℤ pos n) d decimals ≡ pos 0 -ℤ round_to (pos n) d decimals
unfolding round_to ◌-ℤ◌
round_to_odd n d decimals = ground (arith, round_div_zero d)
