-- ===== src/Account/Used.antt =====
-- The nonces of an account with and without a legacy part (accounts/account/nonces.rs).
use intents.Prelude.{ℕ, ◌/◌, ◌≡◌, true, false, arith, nat_beq, inl, inr, if◌then◌else◌, Bool-cases}
use intents.Bitmap.Laws.{IsValid, get_bit-cleanup_by_prefix, cleanup_by_prefix-IsValid}
use intents.Error.{ok, err, nonce_used}
use intents.Nonce
use intents.Nonce.{Nonces}
use intents.Nonce.Replay.{commit-used, commit-fresh}
use intents.Account.{MaybeLegacyNonces, is_legacy_used, is_used, commit, cleanup_by_prefix}

is_used-cleanup :
    (m : Nonces) (prefix k : ℕ)
    → Nonce.is_used (Nonce.cleanup_by_prefix m prefix).0 k
      ≡ (if nat_beq prefix (k / 256) then false else Nonce.is_used m k)
unfolding Nonce.is_used Nonce.cleanup_by_prefix
is_used-cleanup m prefix k = get_bit-cleanup_by_prefix m prefix k

cleanup-IsValid :
    (m : Nonces) (prefix : ℕ) → IsValid m → IsValid (Nonce.cleanup_by_prefix m prefix).0
unfolding Nonce.cleanup_by_prefix
cleanup-IsValid m prefix h = cleanup_by_prefix-IsValid m prefix h

-- A nonce that was used, in the legacy part or since, is refused. Any other is committed: it is in
-- use from then on, and every other nonce exactly if it was before. A cleanup forgets the nonces of
-- its prefix, but those of the legacy part, and no other.
pub nonce_operations :
    (n : MaybeLegacyNonces) (nonce prefix k : ℕ)
    → IsValid n.nonces
    → (is_used n nonce ≡ true → commit n nonce ≡ err nonce_used)
      × (is_used n nonce ≡ false
          → (n' : MaybeLegacyNonces) × (commit n nonce ≡ ok n')
            × IsValid n'.nonces
            × (is_used n' k ≡ (if nat_beq nonce k then true else is_used n k)))
      × (is_used (cleanup_by_prefix n prefix).0 k
          ≡ (if nat_beq prefix (k / 256) then is_legacy_used n.legacy k else is_used n k))
      × IsValid (cleanup_by_prefix n prefix).0.nonces
unfolding commit is_used cleanup_by_prefix
nonce_operations n nonce prefix k h = (
  λ u. elim (Bool-cases (is_legacy_used n.legacy nonce)) [
    | inl old ↦ ground arith
    | inr new ↦ ground (arith, commit-used n.nonces nonce h)
  ],
  λ u.
      let (m, q, v, again, reads) = commit-fresh n.nonces nonce k h (ground arith) in
      (record { nonces = m; legacy = n.legacy }, ground arith, v, ground arith),
  ground (arith, is_used-cleanup n.nonces prefix k),
  cleanup-IsValid n.nonces prefix h,
)
