-- ===== src/Execute.antt =====
-- contracts/defuse/core/src/intents: what each `ExecutableIntent` does to the engine, which is the state
-- with its deltas, and an inspector that is told of events.
use intents.Prelude.{
  ℕ, Bool, not, ◌||◌, String, List, [], ◌∷◌, Option, none, some, ◌==◌, string_eq, if◌then◌else◌,
  nat_default,
}
use intents.Prelude.Int.{ℤ, pos, is_negative, abs, beq_ℤ}
use intents.MapUtils.{is_empty}
use intents.Amounts.{Amounts, add}
use intents.TokenId.{AccountId, TokenId, token_eq}
use intents.Fees.{Pips, fee_ceil}
use intents.TokenDiff.{token_fee}
use intents.Error.{
  PublicKey, Result, ok, err, panicked, guard, ◌>>=◌, ◌>>◌, invalid_intent, balance_overflow,
}
use intents.Intents.{
  Intent, Transfer, FtWithdraw, NftWithdraw, MtWithdraw, NativeWithdraw, StorageDeposit, TokenDiff,
  ImtMint, ImtBurn, AuthCall,
}
use intents.State
use intents.State.{State, notify_maybe}
use intents.Deltas
use intents.Deltas.{Deltas, deltas_state}

-- A `DefuseEvent` of an intent: the signer, what it tells, and the hash of the intent.
pub data DefuseEvent : Type 0 where
  public_key_added public_key_removed : AccountId → PublicKey → ℕ → DefuseEvent
  transfer : AccountId → AccountId → Amounts TokenId ℕ → Option String → ℕ → DefuseEvent
  token_diff : AccountId → TokenDiff → Amounts TokenId ℕ → ℕ → DefuseEvent
  ft_withdraw : AccountId → FtWithdraw → ℕ → DefuseEvent
  nft_withdraw : AccountId → NftWithdraw → ℕ → DefuseEvent
  mt_withdraw : AccountId → MtWithdraw → ℕ → DefuseEvent
  native_withdraw : AccountId → NativeWithdraw → ℕ → DefuseEvent
  storage_deposit : AccountId → StorageDeposit → ℕ → DefuseEvent
  set_auth_by_predecessor_id : AccountId → Bool → ℕ → DefuseEvent
  imt_mint : AccountId → AccountId → Amounts String ℕ → Option String → ℕ → DefuseEvent
  imt_burn : AccountId → ImtBurn → ℕ → DefuseEvent

-- contracts/defuse/core/src/engine/inspector.rs
pub record Inspector (I : Type 0) : Type 0 where
  pub on_deadline : I → ℤ → I
  pub on_event : I → DefuseEvent → I
  pub on_intent_executed : I → AccountId → ℕ → ℕ → I

pub record Engine (S I : Type 0) : Type 0 where
  pub state : Deltas S
  pub inspector : I

-- The fee of one delta, added to what is collected.
unfoldable pub collect : Amounts TokenId ℕ → TokenId → ℤ → Pips → Result (Amounts TokenId ℕ)
unfolding fee_ceil token_fee
collect fees token delta protocol_fee =
    if is_negative delta
    then (elim (fee_ceil (token_fee token (abs delta) protocol_fee) (abs delta)) [
      | none ↦ panicked
      | some fee ↦
          let (fees', r) = add fees token fee in
          elim r [ none ↦ err balance_overflow | some _ ↦ ok fees' ]
    ])
    else ok fees

module _ {S I : Type 0} (st : State S) (inspector : Inspector I) where
  -- The loop of `TokenDiff::execute_intent`.
  unfoldable pub diff_loop :
      Deltas S
      → AccountId
      → Pips
      → List (TokenId × ℤ)
      → Amounts TokenId ℕ
      → Result (Deltas S × Amounts TokenId ℕ)
  unfolding State.internal_apply_deltas collect
  diff_loop d signer protocol_fee [] fees = ok (d, fees)
  diff_loop d signer protocol_fee ((token, delta) ∷ l) fees =
      guard (not (beq_ℤ delta (pos 0))) invalid_intent
      >> (State.internal_apply_deltas (deltas_state st) d signer ((token, delta) ∷ []) >>= λ d'.
          collect fees token delta protocol_fee >>= λ fees'.
          diff_loop d' signer protocol_fee l fees')

  abbrev tell : Engine S I → DefuseEvent → Engine S I
  tell e event = record { state = e.state; inspector = inspector.on_event e.inspector event }

  abbrev with_state : Engine S I → Result (Deltas S) → Result (Engine S I)
  with_state e r = r >>= λ d. ok (record { state = d; inspector = e.inspector })

  -- `if !fees_collected.is_empty() { .. }`
  unfoldable pub deposit_fees : Deltas S → Amounts TokenId ℕ → Result (Deltas S)
  unfolding Deltas.internal_add_balance
  deposit_fees d fees =
      if is_empty fees
      then ok d
      else Deltas.internal_add_balance st d (st.fee_collector d.state) fees

  unfoldable pub execute_token_diff : Engine S I → AccountId → TokenDiff → ℕ → Result (Engine S I)
  unfolding diff_loop deposit_fees
  execute_token_diff e signer intent hash =
      guard (not (is_empty intent.diff)) invalid_intent
      >> (diff_loop e.state signer (st.fee e.state.state) intent.diff [] >>= λ (d, fees).
          deposit_fees d fees >>= λ d'. ok (record {
            state = d';
            inspector =
                inspector.on_event e.inspector (DefuseEvent.token_diff signer intent fees hash);
          }))

  unfoldable pub execute_transfer : Engine S I → AccountId → Transfer → ℕ → Result (Engine S I)
  unfolding Deltas.internal_add_balance Deltas.internal_sub_balance notify_maybe
  execute_transfer e sender intent hash =
      guard (not ((sender == intent.receiver_id) || is_empty intent.tokens)) invalid_intent
      >> (Deltas.internal_sub_balance st e.state sender intent.tokens >>= λ d.
          Deltas.internal_add_balance st d intent.receiver_id intent.tokens >>= λ d'. ok (record {
            state =
                notify_maybe (deltas_state st) d' sender intent.receiver_id intent.tokens
                  intent.notification;
            inspector =
                inspector.on_event e.inspector
                  (DefuseEvent.transfer sender intent.receiver_id intent.tokens intent.memo hash);
          }))

  abbrev pub execute_add_public_key : Engine S I → AccountId → ℕ → PublicKey → Result (Engine S I)
  execute_add_public_key e signer hash key =
      with_state e ((deltas_state st).add_public_key e.state signer key) >>= λ e'.
      ok (tell e' (DefuseEvent.public_key_added signer key hash))

  abbrev pub execute_remove_public_key :
      Engine S I → AccountId → ℕ → PublicKey → Result (Engine S I)
  execute_remove_public_key e signer hash key =
      with_state e ((deltas_state st).remove_public_key e.state signer key) >>= λ e'.
      ok (tell e' (DefuseEvent.public_key_removed signer key hash))

  abbrev pub execute_set_auth_by_predecessor_id :
      Engine S I → AccountId → ℕ → Bool → Result (Engine S I)
  execute_set_auth_by_predecessor_id e signer hash enabled =
      (deltas_state st).set_auth_by_predecessor_id e.state signer enabled >>= λ (d, toggled).
      let e' : Engine S I = record { state = d; inspector = e.inspector } in
      ok (
        if toggled
        then tell e' (DefuseEvent.set_auth_by_predecessor_id signer enabled hash)
        else e')

  abbrev pub execute_ft_withdraw : Engine S I → AccountId → ℕ → FtWithdraw → Result (Engine S I)
  execute_ft_withdraw e owner hash intent =
      with_state (tell e (DefuseEvent.ft_withdraw owner intent hash))
        ((deltas_state st).ft_withdraw e.state owner intent)

  abbrev pub execute_nft_withdraw : Engine S I → AccountId → ℕ → NftWithdraw → Result (Engine S I)
  execute_nft_withdraw e owner hash intent =
      with_state (tell e (DefuseEvent.nft_withdraw owner intent hash))
        ((deltas_state st).nft_withdraw e.state owner intent)

  abbrev pub execute_mt_withdraw : Engine S I → AccountId → ℕ → MtWithdraw → Result (Engine S I)
  execute_mt_withdraw e owner hash intent =
      with_state (tell e (DefuseEvent.mt_withdraw owner intent hash))
        ((deltas_state st).mt_withdraw e.state owner intent)

  abbrev pub execute_native_withdraw :
      Engine S I → AccountId → ℕ → NativeWithdraw → Result (Engine S I)
  execute_native_withdraw e owner hash intent =
      with_state (tell e (DefuseEvent.native_withdraw owner intent hash))
        ((deltas_state st).native_withdraw e.state owner intent)

  abbrev pub execute_storage_deposit :
      Engine S I → AccountId → ℕ → StorageDeposit → Result (Engine S I)
  execute_storage_deposit e owner hash intent =
      with_state (tell e (DefuseEvent.storage_deposit owner intent hash))
        ((deltas_state st).storage_deposit e.state owner intent)

  abbrev pub execute_auth_call : Engine S I → AccountId → AuthCall → Result (Engine S I)
  execute_auth_call e signer call = with_state e ((deltas_state st).auth_call e.state signer call)

  abbrev pub execute_imt_mint : Engine S I → AccountId → ℕ → ImtMint → Result (Engine S I)
  execute_imt_mint e signer hash intent =
      with_state
        (tell e (DefuseEvent.imt_mint signer intent.receiver_id intent.tokens intent.memo hash))
        (State.imt_mint (deltas_state st) e.state signer intent.receiver_id intent.tokens
          intent.memo intent.notification)

  abbrev pub execute_imt_burn : Engine S I → AccountId → ℕ → ImtBurn → Result (Engine S I)
  execute_imt_burn e signer hash intent =
      with_state (tell e (DefuseEvent.imt_burn signer intent hash))
        (State.imt_burn (deltas_state st) e.state signer intent.minter_id intent.tokens intent.memo)

  -- `impl ExecutableIntent for Intent`
  unfoldable pub execute_intent : Engine S I → AccountId → ℕ → Intent → Result (Engine S I)
  unfolding execute_transfer execute_token_diff
  execute_intent e signer hash (Intent.add_public_key x) = execute_add_public_key e signer hash x
  execute_intent e signer hash (Intent.remove_public_key x) =
      execute_remove_public_key e signer hash x
  execute_intent e signer hash (Intent.ft_withdraw x) = execute_ft_withdraw e signer hash x
  execute_intent e signer hash (Intent.nft_withdraw x) = execute_nft_withdraw e signer hash x
  execute_intent e signer hash (Intent.mt_withdraw x) = execute_mt_withdraw e signer hash x
  execute_intent e signer hash (Intent.native_withdraw x) = execute_native_withdraw e signer hash x
  execute_intent e signer hash (Intent.storage_deposit x) = execute_storage_deposit e signer hash x
  execute_intent e signer hash (Intent.set_auth_by_predecessor_id x) =
      execute_set_auth_by_predecessor_id e signer hash x
  execute_intent e signer hash (Intent.imt_mint x) = execute_imt_mint e signer hash x
  execute_intent e signer hash (Intent.imt_burn x) = execute_imt_burn e signer hash x
  execute_intent e signer hash (Intent.transfer x) = execute_transfer e signer x hash
  execute_intent e signer hash (Intent.token_diff x) = execute_token_diff e signer x hash
  execute_intent e signer hash (Intent.auth_call x) = execute_auth_call e signer x

  -- `impl ExecutableIntent for DefuseIntents`
  unfoldable pub execute_intents : Engine S I → AccountId → ℕ → List Intent → Result (Engine S I)
  unfolding execute_intent
  execute_intents e signer hash [] = ok e
  execute_intents e signer hash (intent ∷ l) =
      execute_intent e signer hash intent >>= λ e'. execute_intents e' signer hash l
