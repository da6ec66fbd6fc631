-- ===== src/Nonce.antt =====
-- contracts/defuse/core/src/nonce: the nonces that an account has used, and the layout of versioned
-- nonces. A nonce is its 32 bytes as one number, the first byte the most significant.
pub mod Replay
use intents.Prelude.{
  ℕ, ◌+◌, ◌-◌, ◌*◌, ◌/◌, ◌%◌, ◌^◌, Bool, true, false, ◌&&◌, Option, none, some, nat_eq, ◌==◌, ltb,
  if◌then◌else◌,
}
use intents.Prelude.Int.{ℤ, pos, negsuc}
use intents.Bitmap
use intents.Bitmap.{BitMap256}
use intents.Error.{Result, ok, err, nonce_used}

abbrev pub Nonces : Type 0
Nonces = BitMap256

unfoldable pub is_used : Nonces → ℕ → Bool
is_used m n = Bitmap.get_bit m n

unfoldable pub commit : Nonces → ℕ → Result Nonces
commit m n = let (m', old) = Bitmap.set_bit m n in if old then err nonce_used else ok m'

unfoldable pub cleanup_by_prefix : Nonces → ℕ → Nonces × Bool
cleanup_by_prefix m prefix = Bitmap.cleanup_by_prefix m prefix

-- `VersionedNonce::V1(SaltedNonce { salt, nonce: ExpirableNonce { deadline, .. } })`: the salt is its
-- four bytes as a number, the deadline a time in nanoseconds.
pub record VersionedNonce : Type 0 where
  pub salt : ℕ
  pub deadline : ℤ
  pub nonce : ℕ

abbrev pub versioned_magic_prefix : ℕ
versioned_magic_prefix = 0x5628f6c6

-- Eight bytes, given as a number with the first byte on top, read as a little-endian number.
abbrev pub byte_at : ℕ → ℕ → ℕ
byte_at x i = x / 2 ^ (8 * i) % 256

unfoldable pub swap_bytes : ℕ → ℕ
swap_bytes x =
    byte_at x 7
    + byte_at x 6 * 2 ^ 8
    + byte_at x 5 * 2 ^ 16
    + byte_at x 4 * 2 ^ 24
    + byte_at x 3 * 2 ^ 32
    + byte_at x 2 * 2 ^ 40
    + byte_at x 1 * 2 ^ 48
    + byte_at x 0 * 2 ^ 56

-- The 64 bits of an `i64`.
abbrev pub to_i64 : ℕ → ℤ
to_i64 x = if ltb x (2 ^ 63) then pos x else negsuc (2 ^ 64 - 1 - x)

-- 4 bytes of magic, 1 of version, 4 of salt, 8 of deadline, 15 of nonce.
unfoldable pub maybe_from : ℕ → Option VersionedNonce
unfolding swap_bytes
maybe_from n =
    if (n / 2 ^ 224 == versioned_magic_prefix) && (n / 2 ^ 216 % 256 == 0)
    then some (record {
      salt = n / 2 ^ 184 % 2 ^ 32;
      deadline = to_i64 (swap_bytes (n / 2 ^ 120 % 2 ^ 64));
      nonce = n % 2 ^ 120;
    })
    else none
