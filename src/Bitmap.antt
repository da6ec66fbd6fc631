-- ===== src/Bitmap.antt =====
-- crates/bitmap/src/b256.rs: a set of 256-bit numbers, as a map from the first 31 bytes of a number
-- to an array of 32 bytes. A number is taken as a whole: its last byte is `n % 256`.
pub mod Bits
pub mod Laws
use Prim.Native.Nat.{bit_and, bit_or, bit_xor}
use intents.Prelude.{
  ℕ, ◌+◌, ◌-◌, ◌*◌, ◌/◌, ◌%◌, ◌^◌, Bool, true, false, not, Option, none, some, List, [], ◌∷◌,
  nat_eq, nat_beq, if◌then◌else◌, get_or, set, replicate,
}
use intents.MapUtils.{Map, get, insert, remove}

abbrev pub BitMap256 : Type 0
BitMap256 = Map ℕ (List ℕ)

-- `byte & byte_mask != 0`, for `byte_mask = 1 << i`
unfoldable pub test_bit : ℕ → ℕ → Bool
test_bit byte i = not (nat_beq (bit_and byte (2 ^ i)) 0)

-- `byte |= mask`, `byte &= !mask` and `byte ^= mask`, on `u8`
unfoldable pub or_bit : ℕ → ℕ → ℕ
or_bit byte i = bit_or byte (2 ^ i)

unfoldable pub and_not_bit : ℕ → ℕ → ℕ
and_not_bit byte i = bit_and byte (255 - 2 ^ i)

unfoldable pub xor_bit : ℕ → ℕ → ℕ
xor_bit byte i = bit_xor byte (2 ^ i)

-- The byte that holds the bit of `n`, in an array of its own prefix, and the bit in that byte.
abbrev pub byte_of : ℕ → ℕ
byte_of n = n % 256 / 8

abbrev pub bit_of : ℕ → ℕ
bit_of n = n % 256 % 8

unfoldable pub get_bit : BitMap256 → ℕ → Bool
unfolding test_bit
get_bit m n = elim (get m (n / 256)) [
  | none ↦ false
  | some bitmap ↦ test_bit (get_or bitmap (byte_of n) 0) (bit_of n)
]

-- `entry(word_pos).or_default()`
unfoldable pub entry_or_default : BitMap256 → ℕ → List ℕ
entry_or_default m word_pos = elim (get m word_pos) [ none ↦ replicate 32 0 | some bitmap ↦ bitmap ]

-- The three updates of a bit differ in the operation on the byte; each returns the old bit.
unfoldable pub update_bit : (ℕ → ℕ → ℕ) → BitMap256 → ℕ → BitMap256 × Bool
unfolding entry_or_default test_bit
update_bit op m n =
    let bitmap = entry_or_default m (n / 256) in
    let byte = get_or bitmap (byte_of n) 0 in
    (insert m (n / 256) (set bitmap (byte_of n) (op byte (bit_of n))), test_bit byte (bit_of n))

unfoldable pub set_bit : BitMap256 → ℕ → BitMap256 × Bool
unfolding update_bit or_bit
set_bit = update_bit or_bit

unfoldable pub clear_bit : BitMap256 → ℕ → BitMap256 × Bool
unfolding update_bit and_not_bit
clear_bit = update_bit and_not_bit

unfoldable pub toggle_bit : BitMap256 → ℕ → BitMap256 × Bool
unfolding update_bit xor_bit
toggle_bit = update_bit xor_bit

unfoldable pub set_bit_to : BitMap256 → ℕ → Bool → BitMap256 × Bool
unfolding set_bit clear_bit
set_bit_to m n v = if v then set_bit m n else clear_bit m n

unfoldable pub cleanup_by_prefix : BitMap256 → ℕ → BitMap256 × Bool
cleanup_by_prefix m prefix = (remove m prefix, elim (get m prefix) [ none ↦ false | some _ ↦ true ])
