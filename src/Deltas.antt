-- ===== src/Deltas.antt =====
-- contracts/defuse/core/src/engine/state/deltas.rs: `Deltas`, a state that also records every change
-- of a balance in a `TransferMatcher`.

pub mod Tracks
use intents.Prelude.{ℕ, Bool, true, false, List, [], ◌∷◌, Option, none, some}
use intents.TokenId.{AccountId, TokenId, token_eq}
use intents.Matcher
use intents.Matcher.{TransferMatcher, Transfers, with_token, deposit, withdraw, Finalized}
use intents.Error.{Result, ok, err, panicked, balance_overflow, invariant_violated, ◌>>=◌}
use intents.State.{State}

pub record Deltas (S : Type 0) : Type 0 where
  pub state : S
  pub deltas : TransferMatcher

-- `if !self.deltas.deposit(..) { return Err(BalanceOverflow) }`
abbrev pub noted : Option (TransferMatcher × Bool) → Result TransferMatcher
noted none = panicked
noted (some (m, true)) = ok m
noted (some (m, false)) = err balance_overflow

abbrev carry : {S : Type 0} → Deltas S → Result S → Result (Deltas S)
carry d r = r >>= λ s. ok (record { state = s; deltas = d.deltas })

abbrev carry_with : {S : Type 0} → Deltas S → Result (S × Bool) → Result (Deltas S × Bool)
carry_with d r = r >>= λ (s, flag). ok (record { state = s; deltas = d.deltas }, flag)

module _ {S : Type 0} (st : State S) where
  abbrev pub new : S → Deltas S
  new s = record { state = s; deltas = [] }

  unfoldable pub internal_add_balance :
      Deltas S → AccountId → List (TokenId × ℕ) → Result (Deltas S)
  unfolding with_token deposit
  internal_add_balance d owner [] = ok d
  internal_add_balance d owner ((token, amount) ∷ l) =
      st.internal_add_balance d.state owner ((token, amount) ∷ []) >>= λ s.
      noted (with_token (λ e. deposit e owner amount) d.deltas token) >>= λ m.
      internal_add_balance (record { state = s; deltas = m }) owner l

  unfoldable pub internal_sub_balance :
      Deltas S → AccountId → List (TokenId × ℕ) → Result (Deltas S)
  unfolding with_token withdraw
  internal_sub_balance d owner [] = ok d
  internal_sub_balance d owner ((token, amount) ∷ l) =
      st.internal_sub_balance d.state owner ((token, amount) ∷ []) >>= λ s.
      noted (with_token (λ e. withdraw e owner amount) d.deltas token) >>= λ m.
      internal_sub_balance (record { state = s; deltas = m }) owner l

  -- `impl StateView for Deltas` and `impl State for Deltas`
  abbrev pub deltas_state : State (Deltas S)
  deltas_state = record {
    verifying_contract = λ d. st.verifying_contract d.state;
    wnear_id = λ d. st.wnear_id d.state;
    fee = λ d. st.fee d.state;
    fee_collector = λ d. st.fee_collector d.state;
    has_public_key = λ d. st.has_public_key d.state;
    iter_public_keys = λ d. st.iter_public_keys d.state;
    is_nonce_used = λ d. st.is_nonce_used d.state;
    balance_of = λ d. st.balance_of d.state;
    is_account_locked = λ d. st.is_account_locked d.state;
    is_auth_by_predecessor_id_enabled = λ d. st.is_auth_by_predecessor_id_enabled d.state;
    is_valid_salt = λ d. st.is_valid_salt d.state;
    add_public_key = λ d a k. carry d (st.add_public_key d.state a k);
    remove_public_key = λ d a k. carry d (st.remove_public_key d.state a k);
    commit_nonce = λ d a n. carry d (st.commit_nonce d.state a n);
    cleanup_nonce_by_prefix = λ d a p. carry_with d (st.cleanup_nonce_by_prefix d.state a p);
    internal_add_balance = internal_add_balance;
    internal_sub_balance = internal_sub_balance;
    ft_withdraw = λ d a w. carry d (st.ft_withdraw d.state a w);
    nft_withdraw = λ d a w. carry d (st.nft_withdraw d.state a w);
    mt_withdraw = λ d a w. carry d (st.mt_withdraw d.state a w);
    native_withdraw = λ d a w. carry d (st.native_withdraw d.state a w);
    notify_on_transfer =
        λ d a b ts n. record { state = st.notify_on_transfer d.state a b ts n; deltas = d.deltas };
    storage_deposit = λ d a w. carry d (st.storage_deposit d.state a w);
    set_auth_by_predecessor_id =
        λ d a on. carry_with d (st.set_auth_by_predecessor_id d.state a on);
    auth_call = λ d a c. carry d (st.auth_call d.state a c);
    mint = λ d a ts memo. carry d (st.mint d.state a ts memo);
    burn = λ d a ts memo. carry d (st.burn d.state a ts memo);
  }

-- `Deltas::finalize`, with the error wrapped as `Engine::finalize` does.
unfoldable pub finalize : {S : Type 0} → Deltas S → Result Transfers
unfolding Matcher.finalize
finalize d = elim (Matcher.finalize d.deltas) [
  | none ↦ panicked
  | some (Finalized.ok ts) ↦ ok ts
  | some (Finalized.err e) ↦ err (invariant_violated e)
]
