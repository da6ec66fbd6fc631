-- ===== src/TokenDiff/Rounding.antt =====
-- Rounding of negative numbers: what is rounded up for the one side is rounded down for the other.
use intents.Prelude.{ℕ, zero, suc, ◌*◌, ◌/◌, ◌≡◌, ap, ◌≤◌, ◌<◌, arith}
use native.Mathlib.Decide.{dec_lt}
use intents.Prelude.Int.{pos, neg_ℕ}
use intents.NumUtils.{div_ceil, div_ceil_ℤ, div_euclid_ℤ, scale}
use intents.NumUtils.MulDiv.{div_ceil_bounds, div_floor_unique, div_ceil_unique, mul_lt}

div_ceil-zero : (d : ℕ) → 0 < d → div_ceil 0 d ≡ 0
div_ceil-zero d h = div_ceil_unique 0 d 0 h (omega arith) (omega arith)

div-zero : (d : ℕ) → 0 < d → 0 / d ≡ 0
div-zero d h = div_floor_unique 0 d 0 (omega arith) (omega arith)

pub div_ceil_ℤ-neg : (x d : ℕ) → 0 < d → div_ceil_ℤ (neg_ℕ x) d ≡ neg_ℕ (x / d)
unfolding div_ceil_ℤ
div_ceil_ℤ-neg zero d h =
    rw (div-zero d h) (ap pos (div_ceil_unique 0 d 0 h (omega arith) (omega arith)))
div_ceil_ℤ-neg (suc x) d h = ground arith

pub div_euclid_ℤ-neg : (x d : ℕ) → 0 < d → div_euclid_ℤ (neg_ℕ x) d ≡ neg_ℕ (div_ceil x d)
unfolding div_euclid_ℤ
div_euclid_ℤ-neg zero d h = rw (div_ceil-zero d h) (ap pos (div-zero d h))
div_euclid_ℤ-neg (suc x) d h = ground arith

scale-neg : (a m : ℕ) → scale (neg_ℕ a) m ≡ neg_ℕ (a * m)
scale-neg zero m = ground arith
scale-neg (suc a) m = ground arith

-- Scaled up by the whole over a share and rounded up, then scaled down by the share over the whole
-- and rounded down, a number comes back.
pub scale_up_down : (n q m : ℕ) → 0 < q → q ≤ m → div_ceil (n * m) q * q / m ≡ n
scale_up_down n q m pos_q le =
    div_floor_unique (div_ceil (n * m) q * q) m n (div_ceil_bounds (n * m) q pos_q).0
      (omega (arith, (div_ceil_bounds (n * m) q pos_q).1))

mul_mono : (n q m : ℕ) → q ≤ m → n * q ≤ n * m
mul_mono n q m h = grind arith

pub scale_up_full : (n m : ℕ) → 0 < m → div_ceil (n * m) m ≡ n
scale_up_full n m h = div_ceil_unique (n * m) m n h (omega arith) (omega arith)

-- Scaling up does not make a number smaller, and leaves 1 alone at the full share.
pub le-scale_up : (n q m : ℕ) → 0 < q → q ≤ m → n ≤ div_ceil (n * m) q
le-scale_up n q m pos_q le = elim (dec_lt (div_ceil (n * m) q) n) [
  | no h ↦ omega arith
  | yes h ↦ absurd (
      omega (
        arith,
        mul_lt (div_ceil (n * m) q) n q h,
        (div_ceil_bounds (n * m) q pos_q).0,
        mul_mono n q m le,
      ))
]
