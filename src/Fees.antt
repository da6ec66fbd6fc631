-- ===== src/Fees.antt =====
-- crates/primitives/fees/src/lib.rs: `Pips`, a fraction in millionths.
pub mod Bounds
use intents.Prelude.{
  ℕ, ◌+◌, ◌-◌, ◌*◌, ◌/◌, ◌^◌, ◌≤◌, Bool, Option, none, some, ltb, leb, nat_beq, if◌then◌else◌,
}
use intents.NumUtils.{checked_mul_div, checked_mul_div_ceil}

-- The `u32` inside; what the constructors let through satisfies `IsPips`.
abbrev pub Pips : Type 0
Pips = ℕ

abbrev pub one_pip : Pips
one_pip = 1

abbrev pub one_bip : Pips
one_bip = one_pip * 100

abbrev pub one_percent : Pips
one_percent = one_bip * 100

abbrev pub max_pips : Pips
max_pips = one_percent * 100

abbrev pub IsPips : Pips → Type 0
IsPips p = p ≤ max_pips

abbrev u32_max : ℕ
u32_max = 2 ^ 32 - 1

abbrev to_u32 : ℕ → Option ℕ
to_u32 n = if leb n u32_max then some n else none

unfoldable pub from_pips : ℕ → Option Pips
from_pips pips = if ltb max_pips pips then none else some pips

unfoldable pub checked_mul : Pips → ℕ → Option Pips
unfolding from_pips
checked_mul p rhs = elim (to_u32 (p * rhs)) [ none ↦ none | some pips ↦ from_pips pips ]

unfoldable pub from_bips : ℕ → Option Pips
unfolding checked_mul
from_bips bips = checked_mul one_bip bips

unfoldable pub from_percent : ℕ → Option Pips
unfolding checked_mul
from_percent percent = checked_mul one_percent percent

unfoldable pub as_bips : Pips → ℕ
as_bips p = p / one_bip

unfoldable pub as_percent : Pips → ℕ
as_percent p = p / one_percent

unfoldable pub checked_add : Pips → Pips → Option Pips
unfolding from_pips
checked_add p rhs = elim (to_u32 (p + rhs)) [ none ↦ none | some pips ↦ from_pips pips ]

unfoldable pub checked_sub : Pips → Pips → Option Pips
unfolding from_pips
checked_sub p rhs = if leb rhs p then from_pips (p - rhs) else none

unfoldable pub checked_div : Pips → ℕ → Option Pips
checked_div p rhs = if nat_beq rhs 0 then none else some (p / rhs)

-- `Self::MAX - self`, which underflows for no `Pips`.
unfoldable pub invert : Pips → Pips
invert p = max_pips - p

-- `none` is the `unreachable!()`.
unfoldable pub fee : Pips → ℕ → Option ℕ
fee p amount = checked_mul_div amount p max_pips

unfoldable pub fee_ceil : Pips → ℕ → Option ℕ
fee_ceil p amount = checked_mul_div_ceil amount p max_pips
