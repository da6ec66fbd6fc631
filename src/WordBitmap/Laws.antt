-- ===== src/WordBitmap/Laws.antt =====
-- A word bit map reads as a set of numbers, under each operation.
use Prim.Native.Nat.{bit_and, bit_or, bit_xor}
use intents.Prelude.{
  ℕ, zero, suc, ◌⊎◌, ◌^◌, ◌≡◌, sym, ◌∙◌, ◌<◌, Bool, true, false, not, arith, nat_eq, nat_default,
  nat_beq, nat_beq_iff, if◌then◌else◌, inl, inr, Option-cases,
}
use native.Mathlib.Decide.{ℕ_discrete}
use native.Mathlib.Nat.{mod-lt, div-add-mod}
use intents.MapUtils.{get, get_or_default}
use intents.MapUtils.Laws.{get_or_default-store}
use intents.WordBitmap.{
  BitMap, has, word_of, pos_of, complement, get_bit, update_bit, set_bit, clear_bit, toggle_bit,
  set_bit_to,
}
use intents.WordBitmap.Digits.{
  digit, digit_range, digit-bit_or, digit-bit_xor, digit-bit_and, bit_and-mask, digit-pow,
  digit-complement, digit-zero, double,
}

digit-cases : (x i : ℕ) → (digit x i ≡ 0) ⊎ (digit x i ≡ 1)
digit-cases x i = ground (arith, digit_range i x)

pow_positive : (i : ℕ) → 0 < 2 ^ i
pow_positive zero = omega arith
pow_positive (suc i) = omega (arith, double i, pow_positive i)

has_lem : (x i : ℕ) → has x i ≡ nat_beq (digit x i) 1
unfolding has
has_lem x i = rw (bit_and-mask i x) (elim (digit-cases x i) [
  | inl q ↦ rw q ground arith
  | inr q ↦ rw q ground (arith, pow_positive i)
])

has-zero : (i : ℕ) → has 0 i ≡ false
has-zero i = ground (arith, has_lem 0 i, digit-zero i)

-- An operation that turns the bit of a mask from v to what `rule v` says, and keeps the others.
record IsWordUpdate (w : ℕ) (op : ℕ → ℕ → ℕ) (rule : Bool → Bool) : Type 0 where
  bits :
      (x i j : ℕ)
      → i < w
      → j < w
      → has (op x (2 ^ i)) j ≡ (if nat_beq i j then rule (has x i) else has x j)

bit_or-IsWordUpdate : (w : ℕ) → IsWordUpdate w bit_or (λ _. true)
bit_or-IsWordUpdate w = record {
  bits = λ x i j _ _. ground (
    arith,
    has_lem x i,
    has_lem x j,
    has_lem (bit_or x (2 ^ i)) j,
    digit-bit_or j x (2 ^ i),
    digit-pow i j,
    digit_range j x,
    digit_range i x,
    nat_beq_iff i j,
  );
}

bit_xor-IsWordUpdate : (w : ℕ) → IsWordUpdate w bit_xor not
bit_xor-IsWordUpdate w = record {
  bits = λ x i j _ _. ground (
    arith,
    has_lem x i,
    has_lem x j,
    has_lem (bit_xor x (2 ^ i)) j,
    digit-bit_xor j x (2 ^ i),
    digit-pow i j,
    digit_range j x,
    digit_range i x,
    nat_beq_iff i j,
  );
}

pow_monotone : (i w : ℕ) → i < w → 2 ^ i < 2 ^ w
pow_monotone i (suc w) lt = elim (ℕ_discrete i w) [
  | yes e ↦ rw e (omega (arith, double w, pow_positive w))
  | no ne ↦ omega (arith, double w, pow_monotone i w (omega arith))
]
pow_monotone i zero lt = omega (arith, lt)

clear-IsWordUpdate :
    (b : ℕ) → IsWordUpdate (2 ^ b) (λ x mask. bit_and x (complement b mask)) (λ _. false)
clear-IsWordUpdate b = record {
  bits = λ x i j hi hj. ground (
    arith,
    has_lem x i,
    has_lem x j,
    has_lem (bit_and x (complement b (2 ^ i))) j,
    digit-bit_and j x (complement b (2 ^ i)),
    digit-pow i j,
    digit-complement (2 ^ b) (2 ^ i) j (pow_monotone i (2 ^ b) hi) hj,
    digit_range j x,
    digit_range i x,
    nat_beq_iff i j,
  );
}

pos_small : (b n : ℕ) → pos_of b n < 2 ^ b
pos_small b n = mod-lt n (pow_positive b)

-- A number is its word and the position in it.
split-injective : (b n k : ℕ) → word_of b n ≡ word_of b k → pos_of b n ≡ pos_of b k → n ≡ k
split-injective b n k w p = sym (div-add-mod n (2 ^ b)) ∙ (rw (w, p) (div-add-mod k (2 ^ b)))

get_bit-entry :
    (b : ℕ) (m : BitMap) (n : ℕ) → get_bit b m n ≡ has (get_or_default m (word_of b n)) (pos_of b n)
unfolding get_bit get_or_default
get_bit-entry b m n = elim (Option-cases (get m (word_of b n))) [
  | inl q ↦ rw (q, get_bit, get_or_default) (sym (has-zero (pos_of b n)))
  | inr (x, q) ↦ rw (q, get_bit, get_or_default)
]

module _ (b : ℕ) (op : ℕ → ℕ → ℕ) (rule : Bool → Bool) (u : IsWordUpdate (2 ^ b) op rule)
    (m : BitMap) where
  update_bit-old : (n : ℕ) → (update_bit b op m n).1 ≡ get_bit b m n
  unfolding update_bit
  update_bit-old n = sym (get_bit-entry b m n)

  update_bit-get :
      (n k : ℕ)
      → get_bit b (update_bit b op m n).0 k
        ≡ (if nat_beq n k then rule (get_bit b m n) else get_bit b m k)
  unfolding update_bit
  update_bit-get n k = ground (
    arith,
    get_bit-entry b (update_bit b op m n).0 k,
    get_bit-entry b m n,
    get_bit-entry b m k,
    get_or_default-store m (word_of b n) (word_of b k)
        (op (get_or_default m (word_of b n)) (2 ^ pos_of b n)),
    u.bits (get_or_default m (word_of b n)) (pos_of b n) (pos_of b k) (pos_small b n)
        (pos_small b k),
    nat_beq_iff n k,
    nat_beq_iff (word_of b n) (word_of b k),
    nat_beq_iff (pos_of b n) (pos_of b k),
    split-injective b n k,
  )

module _ (b : ℕ) (m : BitMap) (n : ℕ) where
  pub set_bit-old : (set_bit b m n).1 ≡ get_bit b m n
  unfolding set_bit
  set_bit-old = update_bit-old b bit_or (λ _. true) (bit_or-IsWordUpdate (2 ^ b)) m n

  clear_bit-old : (clear_bit b m n).1 ≡ get_bit b m n
  unfolding clear_bit
  clear_bit-old = update_bit-old b _ (λ _. false) (clear-IsWordUpdate b) m n

  pub set_bit-get :
      (k : ℕ) → get_bit b (set_bit b m n).0 k ≡ (if nat_beq n k then true else get_bit b m k)
  unfolding set_bit
  set_bit-get = update_bit-get b bit_or (λ _. true) (bit_or-IsWordUpdate (2 ^ b)) m n

  clear_bit-get :
      (k : ℕ) → get_bit b (clear_bit b m n).0 k ≡ (if nat_beq n k then false else get_bit b m k)
  unfolding clear_bit
  clear_bit-get = update_bit-get b _ (λ _. false) (clear-IsWordUpdate b) m n

-- Each operation returns the old bit of its number and changes that bit alone: to set, clear, the
-- opposite, or the bit that is given.
pub word_bit_operations :
    (b : ℕ) (m : BitMap) (n k : ℕ) (v : Bool)
    → ((set_bit b m n).1 ≡ get_bit b m n)
      × ((clear_bit b m n).1 ≡ get_bit b m n)
      × ((toggle_bit b m n).1 ≡ get_bit b m n)
      × ((set_bit_to b m n v).1 ≡ get_bit b m n)
      × (get_bit b (set_bit b m n).0 k ≡ (if nat_beq n k then true else get_bit b m k))
      × (get_bit b (clear_bit b m n).0 k ≡ (if nat_beq n k then false else get_bit b m k))
      × (get_bit b (toggle_bit b m n).0 k
          ≡ (if nat_beq n k then not (get_bit b m n) else get_bit b m k))
      × (get_bit b (set_bit_to b m n v).0 k ≡ (if nat_beq n k then v else get_bit b m k))
word_bit_operations b m n k v = (
  set_bit-old b m n,
  clear_bit-old b m n,
  unfold toggle_bit in update_bit-old b bit_xor not (bit_xor-IsWordUpdate (2 ^ b)) m n,
  unfold set_bit_to in ground (arith, set_bit-old b m n, clear_bit-old b m n),
  set_bit-get b m n k,
  clear_bit-get b m n k,
  unfold toggle_bit in update_bit-get b bit_xor not (bit_xor-IsWordUpdate (2 ^ b)) m n k,
  unfold set_bit_to in ground (arith, set_bit-get b m n k, clear_bit-get b m n k),
)
