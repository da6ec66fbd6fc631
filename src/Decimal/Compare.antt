-- ===== src/Decimal/Compare.antt =====
-- The order of decimal numbers is the order of their values.
use Prim.Native.Nat.{compare}
use intents.Prelude.{
  ℕ, zero, suc, ◌+◌, ◌-◌, ◌*◌, ◌^◌, ◌≡◌, sym, ap, ◌∙◌, ◌≤◌, ◌<◌, ◌⊎◌, inl, inr, arith,
}
use native.Mathlib.Nat.{mul-lt-mul_of_pos_right}
use intents.Decimal.{Ud128, IsUd128, cmp}

pub ten_positive : (n : ℕ) → 0 < 10 ^ n
ten_positive zero = omega arith
ten_positive (suc n) = omega (arith, ten_positive n)

trichotomy : (a b : ℕ) → (a < b) ⊎ (a ≡ b) ⊎ (b < a)
trichotomy a b = ground arith

-- A common positive factor does not change a comparison.
compare-scale : (a b k : ℕ) → 0 < k → compare (a * k) (b * k) ≡ compare a b
compare-scale a b k h = elim (trichotomy a b) [
  | inl lt ↦ let scaled = mul-lt-mul_of_pos_right lt h in ground (arith, lt, scaled)
  | inr (inl e) ↦ rw e ground arith
  | inr (inr gt) ↦ let scaled = mul-lt-mul_of_pos_right gt h in ground (arith, gt, scaled)
]

ten_suc : (n : ℕ) → 10 ^ suc n ≡ 10 ^ n * 10
ten_suc n = omega arith

tenfold : (a b : ℕ) → a * b * 10 ≡ a * 10 * b
tenfold a b = grind arith

ten_add : (m k : ℕ) → 10 ^ (m + k) ≡ 10 ^ k * 10 ^ m
ten_add m zero = grind arith
ten_add m (suc k) =
    let step : 10 ^ (m + suc k) ≡ 10 ^ suc (m + k) = ap (λ (j : ℕ). 10 ^ j) (omega arith) in
    step
    ∙ ten_suc (m + k)
    ∙ ap (λ (t : ℕ). t * 10) (ten_add m k)
    ∙ tenfold (10 ^ k) (10 ^ m)
    ∙ ap (λ (t : ℕ). t * 10 ^ m) (sym (ten_suc k))

ten_split : (m n : ℕ) → m ≤ n → 10 ^ n ≡ 10 ^ (n - m) * 10 ^ m
ten_split m n h = ap (λ (k : ℕ). 10 ^ k) (omega (arith, h)) ∙ ten_add m (n - m)

shift_up : (x y p q : ℕ) → p ≤ q → compare (x * 10 ^ (q - p)) y ≡ compare (x * 10 ^ q) (y * 10 ^ p)
shift_up x y p q h =
    sym (compare-scale (x * 10 ^ (q - p)) y (10 ^ p) (ten_positive p))
    ∙ ap (λ k. compare k (y * 10 ^ p)) (grind (arith, ten_split p q h))

shift_down :
    (x y p q : ℕ) → q ≤ p → compare x (y * 10 ^ (p - q)) ≡ compare (x * 10 ^ q) (y * 10 ^ p)
shift_down x y p q h =
    sym (compare-scale x (y * 10 ^ (p - q)) (10 ^ q) (ten_positive q))
    ∙ ap (λ k. compare (x * 10 ^ q) k) (grind (arith, ten_split q p h))

-- `cmp` compares the values of two decimal numbers, digits * 10 ^ -decimals, exactly: it is the
-- comparison of the products of the digits of each with the denominator of the other, which 128 bits
-- do not hold.
pub cmp_lem :
    (a b : Ud128)
    → IsUd128 a
    → IsUd128 b
    → cmp a b ≡ compare (a.digits * 10 ^ b.decimals) (b.digits * 10 ^ a.decimals)
unfolding cmp
cmp_lem a b u v = elim (trichotomy a.decimals b.decimals) [
  | inl lt ↦
      ground (arith, lt, shift_up a.digits b.digits a.decimals b.decimals (omega (arith, lt)))
  | inr (inl e) ↦
      ground (arith, e, compare-scale a.digits b.digits (10 ^ a.decimals) (ten_positive a.decimals))
  | inr (inr gt) ↦
      ground (arith, gt, shift_down a.digits b.digits a.decimals b.decimals (omega (arith, gt)))
]
