-- ===== src/Engine/Balances.antt =====
-- Whole runs of the engine: signed intents, the guards they pass, and the balances at the end.
use intents.Prelude.{
  ℕ, ◌≡◌, true, false, not, List, [], ◌∷◌, Option, none, some, ◌==◌, string_eq, nat_default,
}
use intents.Prelude.Int.{ℤ}
use intents.TokenId.{TokenId, token_eq}
use intents.Matcher.{matcher_default}
use intents.Error.{
  PublicKey, DefuseError, Result, ok, err, panicked, guard, >>=-returns, guard-passes,
  guard-not-passes, invalid_signature, wrong_verifying_contract, deadline_expired,
  public_key_not_exist,
}
use intents.State.{State}
use intents.Deltas.{Deltas, deltas_state}
use intents.Deltas.Tracks.{Tracks}
use intents.Execute.{Engine, Inspector, execute_intents}
use intents.Engine.{
  Signed, DefusePayload, is_before, or_err, verify_intent_nonce, execute_payload,
  execute_signed_intent,
}
use intents.Engine.Keeps.{IsClosed, AllOpen}
use intents.Engine.Conserves.{AllInternal}

module _ {S I P : Type 0} (st : State S) (inspector : Inspector I) (signed : Signed P)
    (now : ℤ) where
  -- What a payload has passed before its intents are executed.
  pub record Passed (e : Engine S I) (key : PublicKey) (hash : ℕ) (p : DefusePayload)
      (e' : Engine S I) : Type 0 where
    pub here : (p.verifying_contract == st.verifying_contract e.state.state) ≡ true
    pub in_time : is_before p.deadline now ≡ false
    pub key_known : st.has_public_key e.state.state p.signer_id key ≡ true
    pub nonce_valid : verify_intent_nonce st inspector e now p.nonce p.deadline ≡ ok tt
    pub committed : S
    pub commits : st.commit_nonce e.state.state p.signer_id p.nonce ≡ ok committed
    pub executed : Engine S I
    pub executes :
        execute_intents st inspector
          (record {
            state = record { state = committed; deltas = e.state.deltas };
            inspector = inspector.on_deadline e.inspector p.deadline;
          })
          p.signer_id
          hash
          p.intents
        ≡ ok executed
    pub ends : executed.state ≡ e'.state

  execute_payload-Passed :
      (e : Engine S I) (key : PublicKey) (hash : ℕ) (p : DefusePayload) {e' : Engine S I}
      → execute_payload st inspector signed now e key hash p ≡ ok e'
      → Passed e key hash p e'
  unfolding execute_payload
  execute_payload-Passed e key hash p q =
      let (_, g1, q1) =
        >>=-returns _
          (guard (p.verifying_contract == st.verifying_contract e.state.state)
            wrong_verifying_contract)
          q in
      let (_, g2, q2) =
        >>=-returns _ (guard (not (is_before p.deadline now)) deadline_expired) q1 in
      let (_, g3, q3) =
        >>=-returns _
          (guard (st.has_public_key e.state.state p.signer_id key)
            (public_key_not_exist p.signer_id key))
          q2 in
      let (_, g4, q4) =
        >>=-returns _ (verify_intent_nonce st inspector e now p.nonce p.deadline) q3 in
      let (d, g5, q5) =
        >>=-returns _ ((deltas_state st).commit_nonce e.state p.signer_id p.nonce) q4 in
      let (s, g6, q6) = >>=-returns _ (st.commit_nonce e.state.state p.signer_id p.nonce) g5 in
      let (n, g7, q7) =
        >>=-returns _
          (execute_intents st inspector
            (record { state = d; inspector = inspector.on_deadline e.inspector p.deadline })
            p.signer_id hash p.intents)
          q5 in
      let is_d : d ≡ record { state = s; deltas = e.state.deltas } = cc in
      record {
        here = guard-passes _ _ g1;
        in_time = guard-not-passes _ _ g2;
        key_known = guard-passes _ _ g3;
        nonce_valid = g4;
        committed = s;
        commits = g6;
        executed = n;
        executes = rw (← is_d) g7;
        ends = cc;
      }

  or_err-some :
      {A : Type 0} (r : Option A) (why : DefuseError) {x : A} → or_err r why ≡ ok x → r ≡ some x
  or_err-some none why h = cc
  or_err-some (some y) why h = cc

  -- A signed intent that succeeds has a valid signature of a key that its signer has, is for this
  -- contract and not past its deadline, has a nonce that the salt and the deadlines allow, and has
  -- committed that nonce for its signer before its intents were executed.
  pub execute_signed_intent-authorized :
      (e : Engine S I) (payload : P) {e' : Engine S I}
      → execute_signed_intent st inspector signed now e payload ≡ ok e'
      → (key : PublicKey) × (p : DefusePayload) × (signed.verify payload ≡ some key)
        × (signed.extract_defuse_payload payload ≡ ok p)
        × Passed e key (signed.hash payload) p e'
  unfolding execute_signed_intent
  execute_signed_intent-authorized e payload q =
      let (key, q1, q2) = >>=-returns _ (or_err (signed.verify payload) invalid_signature) q in
      let (p, q3, q4) = >>=-returns _ (signed.extract_defuse_payload payload) q2 in
      (
        key,
        p,
        or_err-some (signed.verify payload) invalid_signature q1,
        q3,
        execute_payload-Passed e key (signed.hash payload) p q4,
      )

  -- The intents of a payload, if it has any, stay inside the ledger.
  abbrev IsInside : Result DefusePayload → Type 0
  IsInside (ok p) = AllInternal p.intents
  IsInside (err _) = Unit
  IsInside panicked = Unit

  abbrev pub AllInside : List P → Type 0
  AllInside [] = Unit
  AllInside (x ∷ l) = IsInside (signed.extract_defuse_payload x) × AllInside l

  -- What is kept by the operations of the engine is kept by a run of it.
  module _ (Inv : Deltas S → Type 0) (closed : IsClosed st Inv) where
    -- The intents of a payload, if it has any, keep it.
    abbrev IsFit : Result DefusePayload → Type 0
    IsFit (ok p) = AllOpen st Inv p.intents
    IsFit (err _) = Unit
    IsFit panicked = Unit

    abbrev pub AllFit : List P → Type 0
    AllFit [] = Unit
    AllFit (x ∷ l) = IsFit (signed.extract_defuse_payload x) × AllFit l
