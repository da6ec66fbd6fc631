-- ===== src/Wallet/Nonces/Available.antt =====
-- When a nonce can be committed.
use intents.Prelude.{ℕ, ◌≡◌, ap, true, arith, min, nat_eq, not, ◌↔◌, [], ◌∙◌}
use intents.Prelude.Int.{ℤ, pos, ◌-ℤ◌, ◌≤ℤ◌, ◌<ℤ◌, -ℤ_parts}
use intents.Prelude.Outcome.{done, fail_if, fail_if-done}
use intents.WordBitmap.{get_bit, set_bit}
use intents.MapUtils.{get}
use intents.WordBitmap.Laws.{set_bit-old}
use intents.Wallet.Nonces.{
  Nonces, expired_or_future, word_bits, check_cleanup, is_in_window, use_nonce, commit,
}
use intents.Wallet.Nonces.Replay.{check_cleanup-timeout}

check_cleanup-empty :
    (now : ℤ) (n : Nonces)
    → n.last_cleaned_at <ℤ now -ℤ pos n.timeout -ℤ pos n.timeout
    → check_cleanup now n
      ≡ record { timeout = n.timeout; last_cleaned_at = now; old = []; current = [] }
unfolding check_cleanup
check_cleanup-empty now n h = ground (arith, h, -ℤ_parts (now -ℤ pos n.timeout) (pos n.timeout))

-- A wallet without nonces takes any.
use_nonce-empty :
    (now : ℤ) (timeout nonce : ℕ)
    → use_nonce (record { timeout = timeout; last_cleaned_at = now; old = []; current = [] }) nonce
      ≡ done (record {
        timeout = timeout;
        last_cleaned_at = now;
        old = [];
        current = (set_bit word_bits [] nonce).0;
      })
unfolding use_nonce get_bit get
use_nonce-empty now timeout nonce = ground (arith, set_bit-old word_bits [] nonce)

-- After more than two timeouts without a cleanup, no nonce is refused as used: every message in its
-- window commits, and exactly those.
pub commit-available :
    (now : ℤ) (n : Nonces) (nonce : ℕ) (c : ℤ) (timeout : ℕ)
    → n.last_cleaned_at <ℤ now -ℤ pos n.timeout -ℤ pos n.timeout
    → ((m : Nonces) × (commit now n nonce c timeout ≡ done m))
      ↔ ((now -ℤ pos (min n.timeout timeout) ≤ℤ c) × (c ≤ℤ now))
commit-available now n nonce c timeout old =
    let e = check_cleanup-empty now n old in
    let unused = ap (λ k. use_nonce k nonce) e ∙ use_nonce-empty now n.timeout nonce in
    unfold commit in
    (
      λ d.
          let w =
            fail_if-done (not (is_in_window now (check_cleanup now n) c timeout)) expired_or_future
              _ d.1 in
          unfold is_in_window in ground (arith, w, check_cleanup-timeout now n),
      λ w.
          let inside : is_in_window now (check_cleanup now n) c timeout ≡ true =
            unfold is_in_window in ground (arith, w, check_cleanup-timeout now n) in
          (
            _,
            ap (λ b. fail_if (not b) expired_or_future (use_nonce (check_cleanup now n) nonce))
                  inside
                ∙ unused,
          ),
    )
