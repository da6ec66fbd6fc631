-- ===== src/Fees/Bounds.antt =====
-- A fee is never more than the amount it is taken from, and its arithmetic never overflows.
use intents.Prelude.{ℕ, ◌+◌, ◌-◌, ◌*◌, ◌/◌, ◌≤◌, ◌≡◌, arith, some}
use intents.NumUtils.{div_ceil, u128_max, checked_mul_div, checked_mul_div_ceil}
use intents.NumUtils.MulDiv.{
  div_floor_bounds, div_ceil_bounds, div_ceil-div_floor, div_floor-le-div_ceil,
}
use intents.Fees.{
  Pips, IsPips, max_pips, from_pips, checked_mul, checked_add, checked_sub, invert, fee, fee_ceil,
  from_bips, from_percent,
}

-- Every constructor and every checked operation on fractions returns a fraction of at most one.
constructors-IsPips :
    (p q n : ℕ) {r : Pips}
    → (from_pips n ≡ some r → IsPips r × (r ≡ n))
      × (from_bips n ≡ some r → IsPips r × (r ≡ 100 * n))
      × (from_percent n ≡ some r → IsPips r × (r ≡ 10_000 * n))
      × (checked_add p q ≡ some r → IsPips r × (r ≡ p + q))
      × (checked_sub p q ≡ some r → IsPips r × (r + q ≡ p))
      × (checked_mul p n ≡ some r → IsPips r × (r ≡ p * n))
unfolding from_pips from_bips from_percent checked_add checked_sub checked_mul
constructors-IsPips p q n = (
  λ h. ground arith,
  λ h. ground arith,
  λ h. ground arith,
  λ h. ground arith,
  λ h. ground arith,
  λ h. ground arith,
)

div_floor-le : (a p : ℕ) → IsPips p → a * p / max_pips ≤ a
div_floor-le a p h = grind (arith, div_floor_bounds (a * p) max_pips)

div_ceil-le : (a p : ℕ) → IsPips p → div_ceil (a * p) max_pips ≤ a
div_ceil-le a p h = grind (arith, div_ceil_bounds (a * p) max_pips)

-- The fee is defined, is at most the amount, and rounds up by less than one unit; together with
-- the share of the inverted fraction, rounded down, it is the whole amount.
pub fee_ceil-fee-invert :
    (p a : ℕ)
    → IsPips p
    → a ≤ u128_max
    → (f : ℕ) × (g : ℕ) × (r : ℕ) × (fee_ceil p a ≡ some f)
      × (fee p a ≡ some g)
      × (fee (invert p) a ≡ some r)
      × (f + r ≡ a)
      × (g ≤ f)
      × (f ≤ g + 1)
unfolding invert fee fee_ceil checked_mul_div checked_mul_div_ceil
fee_ceil-fee-invert p a h u = (
  div_ceil (a * p) max_pips,
  a * p / max_pips,
  a * (max_pips - p) / max_pips,
  ground (arith, div_ceil-le a p h),
  ground (arith, div_floor-le a p h),
  ground (arith, div_floor-le a (max_pips - p) (omega arith)),
  div_ceil-div_floor a p (max_pips - p) max_pips (omega arith) (omega arith),
  (div_floor-le-div_ceil (a * p) max_pips (omega arith)).0,
  (div_floor-le-div_ceil (a * p) max_pips (omega arith)).1,
)

-- Two fractions whose sum is at most one can be added and taken apart again: neither operation
-- returns nothing, and the first fraction comes back.
checked_add-checked_sub :
    (p q : ℕ)
    → IsPips p
    → IsPips q
    → p + q ≤ max_pips
    → (r : Pips) × (checked_add p q ≡ some r) × IsPips r × (checked_sub r q ≡ some p)
unfolding checked_add checked_sub from_pips
checked_add-checked_sub p q h k le = (p + q, ground arith, le, ground arith)
