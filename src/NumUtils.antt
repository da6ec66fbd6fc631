-- ===== src/NumUtils.antt =====
-- crates/num-utils: checked arithmetic on the integers of 128 bits. A value of `u128` is a natural
-- number and one of `i128` an integer, both unbounded; each operation returns `none` where the
-- result does not fit.
pub mod MulDiv
use intents.Prelude.{
  ℕ, ◌+◌, ◌-◌, ◌*◌, ◌/◌, ◌^◌, Option, none, some, Bool, true, false, nat_beq, leb, if◌then◌else◌,
}
use intents.Prelude.Int.{ℤ, pos, negsuc, ◌+ℤ◌, ◌-ℤ◌, neg_ℕ, sub_ℕ, abs}

abbrev pub u128_max : ℕ
u128_max = 2 ^ 128 - 1

abbrev pub i128_max : ℕ
i128_max = 2 ^ 127 - 1

-- `try_into::<u128>().ok()`
abbrev pub to_u128 : ℕ → Option ℕ
to_u128 n = if leb n u128_max then some n else none

-- `try_into::<i128>().ok()`: from -2^127 to 2^127 - 1.
abbrev pub to_i128 : ℤ → Option ℤ
to_i128 (pos n) = if leb n i128_max then some (pos n) else none
to_i128 (negsuc n) = if leb n i128_max then some (negsuc n) else none

-- `u128::checked_add`, `u128::checked_sub`
abbrev pub checked_add : ℕ → ℕ → Option ℕ
checked_add a b = to_u128 (a + b)

abbrev pub checked_sub : ℕ → ℕ → Option ℕ
checked_sub a b = if leb b a then some (a - b) else none

-- `i128::checked_add`, `i128::checked_neg`
abbrev pub checked_add_i128 : ℤ → ℤ → Option ℤ
checked_add_i128 a b = to_i128 (a +ℤ b)

abbrev pub checked_neg : ℤ → Option ℤ
checked_neg a = to_i128 (pos 0 -ℤ a)

-- `CheckedMulDiv for u128`: the product is taken in 256 bits, where it always fits.
unfoldable pub checked_mul_div : ℕ → ℕ → ℕ → Option ℕ
checked_mul_div a mul div = if nat_beq div 0 then none else to_u128 (a * mul / div)

unfoldable pub div_ceil : ℕ → ℕ → ℕ
div_ceil n d = (n + (d - 1)) / d

unfoldable pub checked_mul_div_ceil : ℕ → ℕ → ℕ → Option ℕ
checked_mul_div_ceil a mul div = if nat_beq div 0 then none else to_u128 (div_ceil (a * mul) div)

-- `CheckedMulDiv for i128`, for the factors and divisors that are not negative, which the callers
-- pass: rounding is towards +∞ (`div_ceil`) or towards -∞ (`div_euclid` by a positive number).
unfoldable pub div_ceil_ℤ : ℤ → ℕ → ℤ
unfolding div_ceil
div_ceil_ℤ (pos n) d = pos (div_ceil n d)
div_ceil_ℤ (negsuc n) d = neg_ℕ ((n + 1) / d)

unfoldable pub div_euclid_ℤ : ℤ → ℕ → ℤ
unfolding div_ceil
div_euclid_ℤ (pos n) d = pos (n / d)
div_euclid_ℤ (negsuc n) d = neg_ℕ (div_ceil (n + 1) d)

abbrev pub scale : ℤ → ℕ → ℤ
scale (pos n) m = pos (n * m)
scale (negsuc n) m = neg_ℕ ((n + 1) * m)

unfoldable pub checked_mul_div_ceil_i128 : ℤ → ℕ → ℕ → Option ℤ
unfolding div_ceil_ℤ
checked_mul_div_ceil_i128 a mul div =
    if nat_beq div 0 then none else to_i128 (div_ceil_ℤ (scale a mul) div)

unfoldable pub checked_mul_div_euclid_i128 : ℤ → ℕ → ℕ → Option ℤ
unfolding div_euclid_ℤ
checked_mul_div_euclid_i128 a mul div =
    if nat_beq div 0 then none else to_i128 (div_euclid_ℤ (scale a mul) div)
