-- ===== src/State.antt =====
-- contracts/defuse/core/src/engine/state/mod.rs: the traits `StateView` and `State`, as the record of
-- the methods that they leave to an implementation, and the methods that they define themselves.
-- A method on `&mut self` returns the new state.
use intents.Prelude.{ℕ, Bool, not, String, List, [], ◌∷◌, Option, none, some, if◌then◌else◌, ltb}
use Prim.Native.String.{len}
use intents.Prelude.Int.{ℤ, is_negative, abs}
use intents.MapUtils.{is_empty}
use intents.Amounts.{Amounts}
use intents.TokenId.{AccountId, TokenId}
use intents.Fees.{Pips}
use intents.Error.{PublicKey, Result, ok, invalid_intent, token_id_too_large, guard, ◌>>=◌, ◌>>◌}
use intents.Intents.{
  NotifyOnTransfer, FtWithdraw, NftWithdraw, MtWithdraw, NativeWithdraw, StorageDeposit, AuthCall,
  with_gas,
}

pub record State (S : Type 0) : Type 0 where
  pub verifying_contract : S → AccountId
  pub wnear_id : S → AccountId
  pub fee : S → Pips
  pub fee_collector : S → AccountId
  pub has_public_key : S → AccountId → PublicKey → Bool
  pub iter_public_keys : S → AccountId → List PublicKey
  pub is_nonce_used : S → AccountId → ℕ → Bool
  pub balance_of : S → AccountId → TokenId → ℕ
  pub is_account_locked : S → AccountId → Bool
  pub is_auth_by_predecessor_id_enabled : S → AccountId → Bool
  pub is_valid_salt : S → ℕ → Bool
  pub add_public_key : S → AccountId → PublicKey → Result S
  pub remove_public_key : S → AccountId → PublicKey → Result S
  pub commit_nonce : S → AccountId → ℕ → Result S
  pub cleanup_nonce_by_prefix : S → AccountId → ℕ → Result (S × Bool)
  pub internal_add_balance : S → AccountId → List (TokenId × ℕ) → Result S
  pub internal_sub_balance : S → AccountId → List (TokenId × ℕ) → Result S
  pub ft_withdraw : S → AccountId → FtWithdraw → Result S
  pub nft_withdraw : S → AccountId → NftWithdraw → Result S
  pub mt_withdraw : S → AccountId → MtWithdraw → Result S
  pub native_withdraw : S → AccountId → NativeWithdraw → Result S
  pub notify_on_transfer : S → AccountId → AccountId → Amounts TokenId ℕ → NotifyOnTransfer → S
  pub storage_deposit : S → AccountId → StorageDeposit → Result S
  pub set_auth_by_predecessor_id : S → AccountId → Bool → Result (S × Bool)
  pub auth_call : S → AccountId → AuthCall → Result S
  pub mint : S → AccountId → Amounts TokenId ℕ → Option String → Result S
  pub burn : S → AccountId → Amounts TokenId ℕ → Option String → Result S

abbrev pub wnear_token_id : {S : Type 0} → State S → S → TokenId
wnear_token_id st s = TokenId.nep141 (st.wnear_id s)

-- `ImtTokens::into_generic_tokens`, over the entries.
unfoldable pub into_generic_tokens : Amounts String ℕ → AccountId → Result (Amounts TokenId ℕ)
into_generic_tokens [] minter = ok []
into_generic_tokens ((token, amount) ∷ l) minter =
    guard (not (ltb 127 (len token))) (token_id_too_large (len token))
    >> (into_generic_tokens l minter >>= λ rest. ok ((TokenId.imt minter token, amount) ∷ rest))

module _ {S : Type 0} (st : State S) where
  unfoldable pub internal_apply_delta : S → AccountId → TokenId → ℤ → Result S
  internal_apply_delta s owner token delta =
      if is_negative delta
      then st.internal_sub_balance s owner ((token, abs delta) ∷ [])
      else st.internal_add_balance s owner ((token, abs delta) ∷ [])

  unfoldable pub internal_apply_deltas : S → AccountId → List (TokenId × ℤ) → Result S
  unfolding internal_apply_delta
  internal_apply_deltas s owner [] = ok s
  internal_apply_deltas s owner ((token, delta) ∷ l) =
      internal_apply_delta s owner token delta >>= λ s'. internal_apply_deltas s' owner l

  -- The notification of a receiver, if there is one.
  unfoldable pub notify_maybe :
      S → AccountId → AccountId → Amounts TokenId ℕ → Option NotifyOnTransfer → S
  unfolding with_gas
  notify_maybe s sender receiver tokens none = s
  notify_maybe s sender receiver tokens (some n) =
      st.notify_on_transfer s sender receiver tokens (with_gas n)

  unfoldable pub imt_mint :
      S
      → AccountId
      → AccountId
      → Amounts String ℕ
      → Option String
      → Option NotifyOnTransfer
      → Result S
  unfolding notify_maybe into_generic_tokens
  imt_mint s minter receiver tokens memo notification =
      guard (not (is_empty tokens)) invalid_intent
      >> (into_generic_tokens tokens minter >>= λ generic. st.mint s receiver generic memo >>= λ s'.
          ok (notify_maybe s' minter receiver generic notification))

  unfoldable pub imt_burn : S → AccountId → AccountId → Amounts String ℕ → Option String → Result S
  unfolding into_generic_tokens
  imt_burn s owner minter tokens memo =
      guard (not (is_empty tokens)) invalid_intent
      >> (into_generic_tokens tokens minter >>= λ generic. st.burn s owner generic memo)
