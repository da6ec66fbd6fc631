-- ===== src/WordBitmap.antt =====
-- crates/bitmap/src/lib.rs: `BitMap`, a set of numbers as a map from the upper bits of a number to a
-- word in which its lower bits select a bit. A word has 2 ^ b bits, `b` being `BITS_FOR_BIT_POS`: 5
-- for `u32`. An entry that becomes zero is removed.
pub mod Digits
pub mod Laws
use Prim.Native.Nat.{bit_and, bit_or, bit_xor}
use intents.Prelude.{
  ℕ, ◌-◌, ◌/◌, ◌%◌, ◌^◌, Bool, true, false, not, Option, none, some, nat_eq, nat_default, nat_beq,
  if◌then◌else◌,
}
use intents.MapUtils.{Map, get, get_or_default, store}

abbrev pub BitMap : Type 0
BitMap = Map ℕ ℕ

-- `*bitmap & bit_mask != 0`
unfoldable pub has : ℕ → ℕ → Bool
has bitmap i = not (nat_beq (bit_and bitmap (2 ^ i)) 0)

module _ (b : ℕ) where
  -- `split_word_mask`: the word, and the position in it.
  abbrev pub word_of : ℕ → ℕ
  word_of n = n / 2 ^ b

  abbrev pub pos_of : ℕ → ℕ
  pos_of n = n % 2 ^ b

  -- `!mask`, in a word of 2 ^ b bits
  abbrev pub complement : ℕ → ℕ
  complement mask = 2 ^ (2 ^ b) - 1 - mask

  unfoldable pub get_bit : BitMap → ℕ → Bool
  unfolding has
  get_bit m n = elim (get m (word_of n)) [ none ↦ false | some bitmap ↦ has bitmap (pos_of n) ]

  -- The word of a number is replaced; what is returned is the old bit.
  unfoldable pub update_bit : (ℕ → ℕ → ℕ) → BitMap → ℕ → BitMap × Bool
  unfolding has
  update_bit op m n =
      let bitmap = get_or_default m (word_of n) in
      (store m (word_of n) (op bitmap (2 ^ pos_of n)), has bitmap (pos_of n))

  unfoldable pub set_bit : BitMap → ℕ → BitMap × Bool
  unfolding update_bit
  set_bit = update_bit bit_or

  unfoldable pub clear_bit : BitMap → ℕ → BitMap × Bool
  unfolding update_bit
  clear_bit = update_bit (λ bitmap mask. bit_and bitmap (complement mask))

  unfoldable pub toggle_bit : BitMap → ℕ → BitMap × Bool
  unfolding update_bit
  toggle_bit = update_bit bit_xor

  unfoldable pub set_bit_to : BitMap → ℕ → Bool → BitMap × Bool
  unfolding set_bit clear_bit
  set_bit_to m n v = if v then set_bit m n else clear_bit m n
