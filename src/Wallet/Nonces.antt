-- ===== src/Wallet/Nonces.antt =====
-- contracts/wallet/src/nonces.rs: nonces that are remembered for two windows of `timeout`.
-- A `Timestamp` is its nanoseconds since 1970, a `Duration` its nanoseconds. Both come from stored
-- u64 nanoseconds and u32 seconds, from which the subtractions stay in the range of a `Timestamp`.
pub mod Replay
pub mod Available
use intents.Prelude.{ℕ, Bool, true, false, ◌&&◌, ◌||◌, not, [], min, if◌then◌else◌}
use intents.Prelude.Int.{ℤ, pos, ◌-ℤ◌, ltb_ℤ, leb_ℤ}
use intents.Prelude.Outcome.{Outcome, done, failed, fail_if}
use intents.WordBitmap.{BitMap, get_bit, set_bit}

-- `default_timeout` is `Duration::from_hours(1)`.
abbrev pub default_timeout : ℕ
default_timeout = 3600000000000

-- `BITS_FOR_BIT_POS` of the `u32` words
abbrev pub word_bits : ℕ
word_bits = 5

pub record Nonces : Type 0 where
  pub timeout : ℕ
  pub last_cleaned_at : ℤ
  pub old : BitMap
  pub current : BitMap

unfoldable pub new : ℕ → Nonces
new timeout = record { timeout = timeout; last_cleaned_at = pos 0; old = []; current = [] }

pub data NonceError : Type 0 where
  already_used expired_or_future : NonceError

-- `now` is the time of the call, which stays the same throughout it.
unfoldable pub check_cleanup : (now : ℤ) → Nonces → Nonces
check_cleanup now n =
    let last_valid_nonce_at = now -ℤ pos n.timeout in
    if ltb_ℤ n.last_cleaned_at last_valid_nonce_at
    then record {
      timeout = n.timeout;
      last_cleaned_at = now;
      old =
          if ltb_ℤ n.last_cleaned_at (last_valid_nonce_at -ℤ pos n.timeout) then [] else n.current;
      current = [];
    }
    else n

-- `now - min(timeout, self.timeout) <= created_at && created_at <= now`
unfoldable pub is_in_window : (now : ℤ) → Nonces → (created_at : ℤ) → (timeout : ℕ) → Bool
is_in_window now n created_at timeout =
    leb_ℤ (now -ℤ pos (min n.timeout timeout)) created_at && leb_ℤ created_at now

-- The second bit map is written only if the first does not have the nonce.
unfoldable pub use_nonce : Nonces → ℕ → Outcome NonceError Nonces
use_nonce n nonce =
    let set = set_bit word_bits n.current nonce in
    fail_if (get_bit word_bits n.old nonce || set.1) already_used (
      done (record {
        timeout = n.timeout;
        last_cleaned_at = n.last_cleaned_at;
        old = n.old;
        current = set.0;
      }))

unfoldable pub commit :
    (now : ℤ) → Nonces → (nonce : ℕ) (created_at : ℤ) (timeout : ℕ) → Outcome NonceError Nonces
unfolding check_cleanup use_nonce is_in_window
commit now before nonce created_at timeout =
    let n = check_cleanup now before in
    fail_if (not (is_in_window now n created_at timeout)) expired_or_future (use_nonce n nonce)
