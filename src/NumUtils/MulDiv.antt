-- ===== src/NumUtils/MulDiv.antt =====
-- Rounded quotients by their bounds.
use intents.Prelude.{ℕ, ◌+◌, ◌*◌, ◌/◌, ◌≤◌, ◌<◌, ◌≡◌, ap, arith}
use native.Mathlib.Decide.{dec_lt}
use intents.NumUtils.{div_ceil}

-- The quotient rounded down, times the divisor, is the largest multiple up to the dividend.
pub div_floor_bounds : (n d : ℕ) → 0 < d → (n / d * d ≤ n) × (n < n / d * d + d)
div_floor_bounds n d h = grind arith

-- The quotient rounded up, times the divisor, is the smallest multiple from the dividend on.
pub div_ceil_bounds : (n d : ℕ) → 0 < d → (n ≤ div_ceil n d * d) × (div_ceil n d * d < n + d)
unfolding div_ceil
div_ceil_bounds n d h = grind arith

-- The bounds determine the quotient.
pub div_floor_unique : (n d q : ℕ) → q * d ≤ n → n < q * d + d → n / d ≡ q
div_floor_unique n d q lo hi = grind arith

pub div_ceil_unique : (n d q : ℕ) → 0 < d → n ≤ q * d → q * d < n + d → div_ceil n d ≡ q
unfolding div_ceil
div_ceil_unique n d q h lo hi = grind arith

-- An amount split by two shares of a whole.
mul_split : (a p k m : ℕ) → p + k ≡ m → a * p + a * k ≡ a * m
mul_split a p k m e = omega (arith, ap (λ (t : ℕ). a * t) e)

pub mul_lt : (x y m : ℕ) → x < y → x * m + m ≤ y * m
mul_lt x y m h = grind (arith, ap (λ (t : ℕ). t * m))

-- Two multiples that differ by less than the factor are the same.
mul_close : (x y m : ℕ) → x * m < y * m + m → y * m < x * m + m → x ≡ y
mul_close x y m h k = elim (dec_lt x y) [
  | yes l ↦ absurd (omega (arith, mul_lt x y m l))
  | no nl ↦ elim (dec_lt y x) [
    | yes l ↦ absurd (omega (arith, mul_lt y x m l))
    | no nr ↦ omega arith
  ]
]

-- One share rounded up and the other rounded down make up the amount.
pub div_ceil-div_floor : (a p k m : ℕ) → 0 < m → p + k ≡ m → div_ceil (a * p) m + a * k / m ≡ a
div_ceil-div_floor a p k m h e =
    mul_close (div_ceil (a * p) m + a * k / m) a m
      (omega
        (arith, mul_split a p k m e, div_ceil_bounds (a * p) m h, div_floor_bounds (a * k) m h))
      (omega
        (arith, mul_split a p k m e, div_ceil_bounds (a * p) m h, div_floor_bounds (a * k) m h))

pub div_floor-le-div_ceil : (n d : ℕ) → 0 < d → (n / d ≤ div_ceil n d) × (div_ceil n d ≤ n / d + 1)
div_floor-le-div_ceil n d h = grind (arith, div_ceil_bounds n d h, div_floor_bounds n d h)
