-- ===== src/Engine/NonceCheck.antt =====
-- `Engine::verify_intent_nonce`: what a versioned nonce that passes is known to satisfy.
use intents.Prelude.{ℕ, ◌≡◌, true, false, not, some}
use intents.Prelude.Int.{ℤ}
use intents.Error.{
  ok, guard, >>=-returns, guard-passes, guard-not-passes, invalid_salt, deadline_greater_than_nonce,
}
use intents.State.{State}
use intents.Nonce.{VersionedNonce, maybe_from}
use intents.Execute.{Engine, Inspector}
use intents.Engine.{is_before, verify_intent_nonce}

-- If a versioned nonce passes, its salt is valid, its deadline is not before that of the intent, and
-- not before the present time.
pub verify_intent_nonce-passes :
    {S I : Type 0} (st : State S) (inspector : Inspector I) (e : Engine S I) (now : ℤ) (nonce : ℕ)
    (intent_deadline : ℤ) {v : VersionedNonce}
    → maybe_from nonce ≡ some v
    → verify_intent_nonce st inspector e now nonce intent_deadline ≡ ok tt
    → (st.is_valid_salt e.state.state v.salt ≡ true)
      × (is_before v.deadline intent_deadline ≡ false)
      × (is_before v.deadline now ≡ false)
unfolding verify_intent_nonce
verify_intent_nonce-passes st inspector e now nonce intent_deadline {v} r q =
    let checks = rw (r, verify_intent_nonce) at q in
    let (_, g1, q1) =
      >>=-returns _ (guard (st.is_valid_salt e.state.state v.salt) invalid_salt) checks in
    let (_, g2, q2) =
      >>=-returns _ (guard (not (is_before v.deadline intent_deadline)) deadline_greater_than_nonce)
        q1 in
    (guard-passes _ _ g1, guard-not-passes _ _ g2, guard-not-passes _ _ q2)
