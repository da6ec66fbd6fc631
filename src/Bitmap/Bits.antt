-- ===== src/Bitmap/Bits.antt =====
-- The operations on one byte, by checking every byte and every bit.
use intents.Prelude.{
  ℕ, zero, suc, ◌≡◌, refl, ◌<◌, Bool, true, false, not, ◌&&◌, arith, ltb, nat_beq, if◌then◌else◌,
}
use intents.Bitmap.{test_bit, or_bit, and_not_bit, xor_bit}

-- A test passes for every number below the bound.
passes : (test : ℕ → Bool) → ℕ → Bool
passes test zero = true
passes test (suc bound) = passes test bound && test bound

passes_lem :
    (test : ℕ → Bool) (bound : ℕ) {i : ℕ} → i < bound → passes test bound ≡ true → test i ≡ true
unfolding passes
passes_lem test zero below all = ground (arith, below)
passes_lem test (suc bound) {i} below all = ground (arith, passes_lem test bound {i = i})

same : Bool → Bool → Bool
same a b = if a then b else not b

same_eq : (a b : Bool) → same a b ≡ true → a ≡ b
unfolding same
same_eq a b h = ground arith

-- A byte stays a byte, bit `i` becomes `v`, and the others stay.
is_update : (ℕ → ℕ → ℕ) → (Bool → Bool) → ℕ → ℕ → ℕ → Bool
unfolding same test_bit
is_update op v b i j =
    ltb (op b i) 256
    && same (test_bit (op b i) j) (if nat_beq i j then v (test_bit b i) else test_bit b j)

table : (ℕ → ℕ → ℕ) → (Bool → Bool) → Bool
unfolding passes is_update
table op v = passes (λ b. passes (λ i. passes (λ j. is_update op v b i j) 8) 8) 256

or_table : table or_bit (λ _. true) ≡ true
unfolding table or_bit
or_table = refl

and_not_table : table and_not_bit (λ _. false) ≡ true
unfolding table and_not_bit
and_not_table = refl

xor_table : table xor_bit not ≡ true
unfolding table xor_bit
xor_table = refl

zero_table : passes (λ i. not (test_bit 0 i)) 8 ≡ true
unfolding passes test_bit
zero_table = refl

pub test_bit-zero : (i : ℕ) → i < 8 → test_bit 0 i ≡ false
test_bit-zero i h = ground (arith, passes_lem (λ j. not (test_bit 0 j)) 8 h zero_table)

-- An operation on one bit of a byte, described by what it does to that bit.
pub record IsBitUpdate (op : ℕ → ℕ → ℕ) (v : Bool → Bool) : Type 0 where
  pub is_byte : (b i : ℕ) → b < 256 → i < 8 → op b i < 256
  pub bits :
      (b i j : ℕ)
      → b < 256
      → i < 8
      → j < 8
      → test_bit (op b i) j ≡ (if nat_beq i j then v (test_bit b i) else test_bit b j)

of_table :
    (op : ℕ → ℕ → ℕ) (v : Bool → Bool) (b i j : ℕ)
    → table op v ≡ true
    → b < 256
    → i < 8
    → j < 8
    → is_update op v b i j ≡ true
unfolding table
of_table op v b i j t hb hi hj = passes_lem (is_update op v b i) 8 hj (
    passes_lem (λ x. passes (λ y. is_update op v b x y) 8) 8 hi
      (passes_lem (λ z. passes (λ x. passes (λ y. is_update op v z x y) 8) 8) 256 hb t))

IsBitUpdate-table : (op : ℕ → ℕ → ℕ) (v : Bool → Bool) → table op v ≡ true → IsBitUpdate op v
unfolding is_update
IsBitUpdate-table op v t = record {
  is_byte = λ b i hb hi. ground (arith, of_table op v b i 0 t hb hi (omega arith));
  bits = λ b i j hb hi hj. ground (
    arith,
    of_table op v b i j t hb hi hj,
    same_eq (test_bit (op b i) j) (if nat_beq i j then v (test_bit b i) else test_bit b j),
  );
}

pub or_bit-IsBitUpdate : IsBitUpdate or_bit (λ _. true)
or_bit-IsBitUpdate = IsBitUpdate-table or_bit (λ _. true) or_table

pub and_not_bit-IsBitUpdate : IsBitUpdate and_not_bit (λ _. false)
and_not_bit-IsBitUpdate = IsBitUpdate-table and_not_bit (λ _. false) and_not_table

pub xor_bit-IsBitUpdate : IsBitUpdate xor_bit not
xor_bit-IsBitUpdate = IsBitUpdate-table xor_bit not xor_table
