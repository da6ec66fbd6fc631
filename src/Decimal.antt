-- ===== src/Decimal.antt =====
-- crates/primitives/decimal/src/lib.rs and ops.rs: `UD128`, a decimal number of 128 bits, and the
-- products and quotients of an amount with it.
pub mod Compare
use Prim.Native.Nat.{compare, Ordering}
use intents.Prelude.{
  ℕ, zero, suc, ◌-◌, ◌*◌, ◌/◌, ◌%◌, ◌^◌, ◌≤◌, Bool, true, false, ◌&&◌, Option, none, some, ltb, leb,
  nat_beq, if◌then◌else◌,
}
use intents.NumUtils.{u128_max, to_u128, checked_mul_div, checked_mul_div_ceil}

pub record Ud128 : Type 0 where
  pub decimals : ℕ
  pub digits : ℕ

-- `u128::MAX.ilog10()`
abbrev pub max_decimals : ℕ
max_decimals = 38

-- What `new` and the constants give.
pub record IsUd128 (d : Ud128) : Type 0 where
  pub few_decimals : d.decimals ≤ max_decimals
  pub is_u128 : d.digits ≤ u128_max

-- `strip!(shift)`: the loop ends after at most `decimals` rounds.
unfoldable pub strip : (rounds shift decimals digits : ℕ) → ℕ × ℕ
strip zero shift decimals digits = (decimals, digits)
strip (suc rounds) shift decimals digits =
    elim (leb shift decimals && nat_beq (digits % 10 ^ shift) 0) [
      | true ↦ strip rounds shift (decimals - shift) (digits / 10 ^ shift)
      | false ↦ (decimals, digits)
    ]

unfoldable pub strip_all : (decimals digits : ℕ) → ℕ × ℕ
unfolding strip
strip_all decimals digits =
    let a = strip decimals 16 decimals digits in
    let b = strip decimals 8 a.0 a.1 in
    let c = strip decimals 4 b.0 b.1 in let d = strip decimals 2 c.0 c.1 in strip decimals 1 d.0 d.1

unfoldable pub new : (decimals digits : ℕ) → Option Ud128
unfolding strip_all
new decimals digits =
    if nat_beq digits 0
    then some (record { decimals = 0; digits = 0 })
    else let (less, rest) = strip_all decimals digits in
      if ltb max_decimals less then none else some (record { decimals = less; digits = rest })

abbrev pub denominator : Ud128 → ℕ
denominator d = 10 ^ d.decimals

abbrev pub is_zero : Ud128 → Bool
is_zero d = nat_beq d.digits 0

-- `Ord::cmp`: the side with fewer decimals is scaled up, and is the greater if that overflows.
unfoldable pub cmp : Ud128 → Ud128 → Ordering
cmp self other = elim (compare self.decimals other.decimals) [
  | Ordering.eq ↦ compare self.digits other.digits
  | Ordering.lt ↦ elim (to_u128 (self.digits * 10 ^ (other.decimals - self.decimals))) [
    | none ↦ Ordering.gt
    | some scaled ↦ compare scaled other.digits
  ]
  | Ordering.gt ↦ elim (to_u128 (other.digits * 10 ^ (self.decimals - other.decimals))) [
    | none ↦ Ordering.lt
    | some scaled ↦ compare self.digits scaled
  ]
]

unfoldable pub checked_mul : ℕ → Ud128 → Option ℕ
checked_mul a rhs = checked_mul_div a rhs.digits (denominator rhs)

unfoldable pub checked_mul_ceil : ℕ → Ud128 → Option ℕ
checked_mul_ceil a rhs = checked_mul_div_ceil a rhs.digits (denominator rhs)

unfoldable pub checked_div : ℕ → Ud128 → Option ℕ
checked_div a rhs = checked_mul_div a (denominator rhs) rhs.digits

unfoldable pub checked_div_ceil : ℕ → Ud128 → Option ℕ
checked_div_ceil a rhs = checked_mul_div_ceil a (denominator rhs) rhs.digits
