-- ===== src/WordBitmap/Digits.antt =====
-- The binary digits of a number, and what an operation on two words does to each of them.
use Prim.Native.Nat.{
  digits, differ, max, bit_and, bit_or, bit_xor, bit_and-bitwise, bit_or-bitwise, bit_xor-bitwise,
}
use intents.Prelude.{
  ℕ, zero, suc, ◌+◌, ◌-◌, ◌*◌, ◌/◌, ◌%◌, ◌^◌, min, ◌≡◌, refl, sym, ◌∙◌, ap, ◌≤◌, ◌<◌, arith,
  nat_beq, if◌then◌else◌,
}

-- Digit `j`, the lowest first.
pub digit : ℕ → ℕ → ℕ
digit x zero = x % 2
digit x (suc j) = digit (x / 2) j

pub digit_range : (j x : ℕ) → digit x j < 2
unfolding digit
digit_range zero x = omega arith
digit_range (suc j) x = digit_range j (x / 2)

-- What the native operations stand for: a rule for one digit, and one for what is left of the second
-- number when the first has run out.
module _ (rest : ℕ → ℕ) (rule : ℕ → ℕ → ℕ)
    (unroll : (y : ℕ) → rest y ≡ rest (y / 2) * 2 + rule 0 (y % 2))
    (small : (x y : ℕ) → rule (x % 2) (y % 2) < 2) where
  more_fuel : (k l x y : ℕ) → x ≤ k → x ≤ l → digits rest rule k x y ≡ digits rest rule l x y
  more_fuel zero zero x y h g = refl
  more_fuel zero (suc l) zero y h g = refl
  more_fuel zero (suc l) (suc x) y h g = omega (arith, h)
  more_fuel (suc k) zero zero y h g = refl
  more_fuel (suc k) zero (suc x) y h g = omega (arith, g)
  more_fuel (suc k) (suc l) zero y h g = refl
  more_fuel (suc k) (suc l) (suc x) y h g =
      ap (λ (t : ℕ). t * 2 + rule (suc x % 2) (y % 2))
        (more_fuel k l (suc x / 2) (y / 2) (omega arith) (omega arith))

  one_digit :
      (x y : ℕ)
      → digits rest rule x x y ≡ digits rest rule (x / 2) (x / 2) (y / 2) * 2 + rule (x % 2) (y % 2)
  one_digit zero y = unroll y
  one_digit (suc x) y =
      ap (λ (t : ℕ). t * 2 + rule (suc x % 2) (y % 2))
        (more_fuel x (suc x / 2) (suc x / 2) (y / 2) (omega arith) (omega arith))

  digit-digits : (j x y : ℕ) → digit (digits rest rule x x y) j ≡ rule (digit x j) (digit y j)
  unfolding digit
  digit-digits zero x y = omega (arith, one_digit x y, small x y)
  digit-digits (suc j) x y =
      ap (λ t. digit t j) (omega (arith, one_digit x y, small x y)) ∙ digit-digits j (x / 2) (y / 2)

pub double : (i : ℕ) → 2 ^ suc i ≡ 2 ^ i * 2
double i = omega arith

differ_small : (x y : ℕ) → x < 2 → y < 2 → differ x y < 2
differ_small zero y h k = k
differ_small (suc x) zero h k = h
differ_small (suc zero) (suc zero) h k = omega arith
differ_small (suc zero) (suc (suc y)) h k = omega (arith, k)
differ_small (suc (suc x)) (suc y) h k = omega (arith, h)

pub digit-bit_or : (j x y : ℕ) → digit (bit_or x y) j ≡ max (digit x j) (digit y j)
digit-bit_or j x y =
    ap (λ t. digit t j) (bit_or-bitwise x y)
    ∙ digit-digits (λ t. t) max (λ t. omega arith) (λ s t. omega arith) j x y

pub digit-bit_xor : (j x y : ℕ) → digit (bit_xor x y) j ≡ differ (digit x j) (digit y j)
digit-bit_xor j x y =
    ap (λ t. digit t j) (bit_xor-bitwise x y)
    ∙ digit-digits (λ t. t) differ (λ t. omega arith)
        (λ s t. differ_small (s % 2) (t % 2) (omega arith) (omega arith)) j x y

pub digit-bit_and : (j x y : ℕ) → digit (bit_and x y) j ≡ min (digit x j) (digit y j)
digit-bit_and j x y =
    ap (λ t. digit t j) (bit_and-bitwise x y)
    ∙ digit-digits (λ _. 0) min (λ t. omega arith) (λ s t. omega arith) j x y

bit_and_unroll : (x y : ℕ) → bit_and x y ≡ bit_and (x / 2) (y / 2) * 2 + min (x % 2) (y % 2)
bit_and_unroll x y =
    bit_and-bitwise x y
    ∙ one_digit (λ _. 0) min (λ t. omega arith) (λ s t. omega arith) x y
    ∙ ap (λ (t : ℕ). t * 2 + min (x % 2) (y % 2)) (sym (bit_and-bitwise (x / 2) (y / 2)))

-- A mask of one bit selects that digit.
no_mask : (fuel x : ℕ) → x ≤ fuel → bit_and x 0 ≡ 0
no_mask zero x h = let e : x ≡ 0 = omega arith in rw e (bit_and-bitwise 0 0)
no_mask (suc fuel) x h = omega (arith, bit_and_unroll x 0, no_mask fuel (x / 2))

pub bit_and-mask : (i x : ℕ) → bit_and x (2 ^ i) ≡ digit x i * 2 ^ i
unfolding digit
bit_and-mask zero x = omega (arith, bit_and_unroll x 1, no_mask (x / 2) (x / 2) (omega arith))
bit_and-mask (suc i) x =
    let half : 2 ^ suc i / 2 ≡ 2 ^ i = omega (arith, double i) in
    let ih = bit_and-mask i (x / 2) in
    bit_and_unroll x (2 ^ suc i) ∙ rw half (rw ih (grind (arith, double i)))

pub digit-zero : (j : ℕ) → digit 0 j ≡ 0
unfolding digit
digit-zero zero = refl
digit-zero (suc j) = digit-zero j

pub digit-pow : (i j : ℕ) → digit (2 ^ i) j ≡ (if nat_beq i j then 1 else 0)
unfolding digit
digit-pow zero zero = refl
digit-pow zero (suc j) = ground (arith, digit-zero j)
digit-pow (suc i) zero = ground (arith, double i)
digit-pow (suc i) (suc j) =
    let half : 2 ^ suc i / 2 ≡ 2 ^ i = omega (arith, double i) in
    rw half (digit-pow i j ∙ ground arith)

-- In a word of `w` bits, the complement turns every digit over.
pub digit-complement : (w x j : ℕ) → x < 2 ^ w → j < w → digit (2 ^ w - 1 - x) j ≡ 1 - digit x j
unfolding digit
digit-complement zero x j h lt = omega (arith, lt)
digit-complement (suc w) x zero h lt = omega (arith, double w)
digit-complement (suc w) x (suc j) h lt =
    let half : (2 ^ suc w - 1 - x) / 2 ≡ 2 ^ w - 1 - x / 2 = omega (arith, double w) in
    rw half (digit-complement w (x / 2) j (omega (arith, double w)) (omega arith))
