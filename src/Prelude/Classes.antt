-- ===== src/Prelude/Classes.antt =====
-- `==` on the types that serve as keys, and the `Default` of the types that serve as values.
use Prim.Native.Nat.{ℕ}
use Prim.Native.String.{String}
use mathlib.Core.Path.{◌≡◌, refl}
use mathlib.Core.Logic.{◌↔◌, ◌≢◌}
use mathlib.Core.Bool.{Bool, true, false}
use text.Mathlib.Text.{◌==◌ as str_eq}
use text.Mathlib.TextEquality.{eq_iff}
use native.Mathlib.Omega.{arith}
use intents.Prelude.Tests.{nat_beq, nat_beq_iff}

-- `Eq`, of the key type of a map.
pub record Eq {κ} (K : Type κ) : Type κ where
  pub beq : (k j : K) → Bool
  pub beq_iff : (k j : K) → (beq k j ≡ true) ↔ (k ≡ j)

infix 50 ◌==◌
abbrev pub ◌==◌ {κ} : {K : Type κ} ⦃e : Eq K⦄ (k j : K) → Bool
◌==◌ ⦃e⦄ = e.beq

pub beq_refl {κ} : {K : Type κ} ⦃e : Eq K⦄ (k : K) → (k == k) ≡ true
beq_refl ⦃e⦄ k = (e.beq_iff k k).1 refl

pub beq_ne {ℓ} : {A : Type ℓ} ⦃e : Eq A⦄ (a b : A) → a ≢ b → (a == b) ≡ false
beq_ne ⦃e⦄ a b n = ground (arith, e.beq_iff a b)

instance abbrev pub nat_eq : Eq ℕ
nat_eq = record { beq = nat_beq; beq_iff = nat_beq_iff }

instance abbrev pub string_eq : Eq String
string_eq = record { beq = str_eq; beq_iff = eq_iff }

-- `Default + Eq`, of which the source uses the default value and the comparison with it.
pub record Default {ℓ} (A : Type ℓ) : Type ℓ where
  pub default : A
  pub is_default : A → Bool
  pub is_default_iff : (a : A) → (is_default a ≡ true) ↔ (a ≡ default)

instance abbrev pub nat_default : Default ℕ
nat_default = record {
  default = 0;
  is_default = λ n. nat_beq n 0;
  is_default_iff = λ n. nat_beq_iff n 0;
}
