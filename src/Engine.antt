-- ===== src/Engine.antt =====
-- contracts/defuse/core/src/engine/mod.rs: the execution of signed intents. A signed payload is known
-- by what its verification, hash and extraction return.
pub mod Keeps
pub mod Conserves
pub mod Balances
pub mod NonceCheck
use intents.Prelude.{
  ℕ, Bool, true, false, not, ◌||◌, String, List, [], ◌∷◌, Option, none, some, ◌==◌, string_eq,
  if◌then◌else◌, nat_default,
}
use intents.Prelude.Int.{ℤ, pos, is_negative, abs, beq_ℤ, ◌-ℤ◌}
use intents.MapUtils.{is_empty}
use intents.Amounts.{Amounts, add}
use intents.TokenId.{AccountId, TokenId, token_eq}
use intents.Fees.{Pips, fee_ceil}
use intents.TokenDiff.{token_fee}
use intents.Error.{
  PublicKey, DefuseError, Result, ok, err, panicked, guard, ◌>>=◌, ◌>>◌, invalid_signature,
  wrong_verifying_contract, deadline_expired, public_key_not_exist, invalid_salt,
  deadline_greater_than_nonce, nonce_expired, invalid_intent, balance_overflow,
}
use intents.Nonce.{VersionedNonce, maybe_from}
use intents.Matcher.{Transfers}
use intents.Intents.{
  Intent, Transfer, FtWithdraw, NftWithdraw, MtWithdraw, NativeWithdraw, StorageDeposit, TokenDiff,
  ImtMint, ImtBurn, AuthCall,
}
use intents.State
use intents.State.{State, notify_maybe}
use intents.Deltas
use intents.Deltas.{Deltas, deltas_state}
use intents.Execute.{Engine, Inspector, execute_intents}

-- `DefusePayload<DefuseIntents>`
pub record DefusePayload : Type 0 where
  pub signer_id : AccountId
  pub verifying_contract : AccountId
  pub deadline : ℤ
  pub nonce : ℕ
  pub intents : List Intent

-- The methods of `MultiPayload` that the engine calls.
pub record Signed (P : Type 0) : Type 0 where
  pub verify : P → Option PublicKey
  pub hash : P → ℕ
  pub extract_defuse_payload : P → Result DefusePayload

abbrev pub is_before : ℤ → ℤ → Bool
is_before a b = is_negative (a -ℤ b)

-- `ok_or`
abbrev pub or_err : {A : Type 0} → Option A → DefuseError → Result A
or_err none why = err why
or_err (some x) why = ok x

module _ {S I : Type 0} (st : State S) (inspector : Inspector I) where
  -- `now` is `Timestamp::now()`, which stays the same while a block runs.
  unfoldable pub verify_intent_nonce : Engine S I → ℤ → ℕ → ℤ → Result (Unit {0})
  unfolding maybe_from
  verify_intent_nonce e now nonce intent_deadline = elim (maybe_from nonce) [
    | none ↦ ok tt
    | some v ↦
        guard (st.is_valid_salt e.state.state v.salt) invalid_salt
        >> (guard (not (is_before v.deadline intent_deadline)) deadline_greater_than_nonce
            >> guard (not (is_before v.deadline now)) nonce_expired)
  ]

  module _ {P : Type 0} (signed : Signed P) (now : ℤ) where
    -- What follows the extraction of the payload.
    unfoldable pub execute_payload :
        Engine S I → PublicKey → ℕ → DefusePayload → Result (Engine S I)
    unfolding verify_intent_nonce execute_intents
    execute_payload e key hash p =
        guard (p.verifying_contract == st.verifying_contract e.state.state) wrong_verifying_contract
        >> (guard (not (is_before p.deadline now)) deadline_expired
            >> (guard (st.has_public_key e.state.state p.signer_id key)
                  (public_key_not_exist p.signer_id key)
                >> (verify_intent_nonce e now p.nonce p.deadline
                    >> ((deltas_state st).commit_nonce e.state p.signer_id p.nonce >>= λ d.
                        execute_intents st inspector
                          (record {
                            state = d;
                            inspector = inspector.on_deadline e.inspector p.deadline;
                          })
                          p.signer_id hash p.intents
                        >>= λ e'. ok (record {
                          state = e'.state;
                          inspector =
                              inspector.on_intent_executed e'.inspector p.signer_id hash p.nonce;
                        })))))

    unfoldable pub execute_signed_intent : Engine S I → P → Result (Engine S I)
    unfolding execute_payload
    execute_signed_intent e payload = or_err (signed.verify payload) invalid_signature >>= λ key.
        signed.extract_defuse_payload payload >>= λ p. execute_payload e key (signed.hash payload) p

    unfoldable pub execute_all : Engine S I → List P → Result (Engine S I)
    unfolding execute_signed_intent
    execute_all e [] = ok e
    execute_all e (payload ∷ l) = execute_signed_intent e payload >>= λ e'. execute_all e' l

    unfoldable pub execute_signed_intents : Engine S I → List P → Result Transfers
    unfolding execute_all Deltas.finalize
    execute_signed_intents e l = execute_all e l >>= λ e'. Deltas.finalize e'.state
