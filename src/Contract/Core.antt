-- ===== src/Contract/Core.antt =====
-- contracts/defuse/src/contract/intents/state.rs and contract/accounts/mod.rs: the contract as a state
-- of the intents core.
use intents.Prelude.{
  ℕ, ◌+◌, ◌^◌, Bool, true, false, not, Option, none, some, List, [], ◌∷◌, nat_beq, ltb,
  if◌then◌else◌, string_eq, nat_default,
}
use intents.MapUtils.{get}
use intents.Amounts.{Amounts, add, sub}
use intents.TokenId.{AccountId, TokenId, token_eq}
use intents.Lock.{Lock, get_mut, get_mut_maybe_forced, with_value}
use intents.Error.{
  PublicKey, DefuseError, Result, ok, err, guard, ◌>>=◌, ◌>>◌, invalid_intent, account_not_found,
  account_locked, public_key_exists, public_key_not_exist, gas_overflow,
}
use intents.Intents.{AuthCall, gas_or}
use intents.State.{State}
use intents.Account
use intents.Account.{Account, with_balances}
use intents.Contract
use intents.Contract.{
  Host, Contract, Call, get_or_create, with_account, scheduled, near_withdraw, do_native_withdraw,
  do_storage_deposit, do_auth_call,
}
use intents.Contract.Tokens.{or_overflow, deposit, withdraw, texts_of}
use intents.Contract.Transfers.{notify_and_resolve_transfer}
use intents.Contract.Withdrawals.{
  internal_ft_withdraw, internal_nft_withdraw, internal_mt_withdraw, tgas,
}

unfoldable pub add_amounts : Amounts TokenId ℕ → List (TokenId × ℕ) → Result (Amounts TokenId ℕ)
add_amounts m [] = ok m
add_amounts m ((token, amount) ∷ rest) =
    guard (not (nat_beq amount 0)) invalid_intent
    >> (or_overflow (add m token amount) >>= λ after. add_amounts after.0 rest)

unfoldable pub sub_amounts : Amounts TokenId ℕ → List (TokenId × ℕ) → Result (Amounts TokenId ℕ)
sub_amounts m [] = ok m
sub_amounts m ((token, amount) ∷ rest) =
    guard (not (nat_beq amount 0)) invalid_intent
    >> (or_overflow (sub m token amount) >>= λ after. sub_amounts after.0 rest)

-- `get_mut().ok_or(AccountLocked)?`
abbrev pub or_locked : AccountId → Option Account → Result Account
or_locked id none = err (account_locked id)
or_locked id (some account) = ok account

-- `.then_some(()).ok_or(why)`
abbrev pub if_done : Account × Bool → DefuseError → Result Account
if_done (account, true) why = ok account
if_done (account, false) why = err why

unfoldable pub internal_sub_balance : Contract → AccountId → List (TokenId × ℕ) → Result Contract
unfolding sub_amounts
internal_sub_balance c owner tokens = elim (get c.accounts owner) [
  | none ↦ err (account_not_found owner)
  | some account ↦ or_locked owner (get_mut account) >>= λ value.
      sub_amounts value.token_balances tokens >>= λ after.
      ok (with_account c owner (with_value account (with_balances value after)))
]

unfoldable pub cleanup_nonce_by_prefix : Contract → AccountId → ℕ → Result (Contract × Bool)
cleanup_nonce_by_prefix c id prefix = elim (get c.accounts id) [
  | none ↦ err (account_not_found id)
  | some account ↦
      let (after, cleaned) = Account.cleanup_nonce_by_prefix account.value prefix in
      ok (with_account c id (with_value account after), cleaned)
]

-- wNEAR is taken from an account, and unwrapped before something is called with it.
unfoldable pub unwrap_near : Contract → AccountId → ℕ → Call → Result Contract
unwrap_near c owner amount call =
    withdraw c owner ((TokenId.nep141 c.wnear_id, amount) ∷ []) (some "withdraw") false >>= λ after.
    ok (scheduled after (near_withdraw amount ∷ call ∷ []))

-- `auth_call_callback_gas`: 5 TGas, 15 for a state that is initialised, and the gas that is asked for.
unfoldable pub auth_call_callback_gas : AuthCall → Option ℕ
auth_call_callback_gas call =
    let gas =
      tgas 5
      + elim call.state_init [ none ↦ 0 | some _ ↦ tgas 15 ]
      + gas_or call.min_gas (tgas 10) in
    if ltb gas (2 ^ 64) then some gas else none

unfoldable pub auth_call : Contract → AccountId → AuthCall → Result Contract
unfolding unwrap_near auth_call_callback_gas
auth_call c signer call =
    if nat_beq call.attached_deposit 0
    then ok (scheduled c (do_auth_call signer call ∷ []))
    else (unwrap_near c signer call.attached_deposit (do_auth_call signer call) >>= λ after.
        elim (auth_call_callback_gas call) [ none ↦ err gas_overflow | some _ ↦ ok after ])

-- The flag of an account that is there, or was made.
unfoldable pub set_auth_of :
    Contract → AccountId → Lock Account → Bool → Bool → Result (Contract × Bool)
set_auth_of c id account enable force =
    or_locked id (get_mut_maybe_forced account force) >>= λ value.
    let (after, toggled) = Account.set_auth_by_predecessor_id value enable in
    ok (with_account c id (with_value account after), toggled)

module _ (host : Host) where
  unfoldable pub add_public_key : Contract → AccountId → PublicKey → Result Contract
  add_public_key c id key =
      let account = get_or_create host c id in
      or_locked id (get_mut account) >>= λ value.
      if_done (Account.add_public_key host.ids value id key) (public_key_exists id key) >>= λ after.
      ok (with_account c id (with_value account after))

  unfoldable pub remove_public_key : Contract → AccountId → PublicKey → Result Contract
  remove_public_key c id key =
      let account = get_or_create host c id in
      or_locked id (get_mut account) >>= λ value.
      if_done (Account.remove_public_key host.ids value id key) (public_key_not_exist id key)
      >>= λ after. ok (with_account c id (with_value account after))

  unfoldable pub commit_nonce : Contract → AccountId → ℕ → Result Contract
  commit_nonce c id nonce =
      let account = get_or_create host c id in
      or_locked id (get_mut account) >>= λ value. Account.commit_nonce value nonce >>= λ after.
      ok (with_account c id (with_value account after))

  unfoldable pub internal_add_balance : Contract → AccountId → List (TokenId × ℕ) → Result Contract
  unfolding add_amounts
  internal_add_balance c owner tokens =
      let account = get_or_create host c owner in
      add_amounts account.value.token_balances tokens >>= λ after.
      ok (with_account c owner (with_value account (with_balances account.value after)))

  -- Without an account there is nothing to enable.
  unfoldable pub internal_set_auth_by_predecessor_id :
      Contract → AccountId → Bool → Bool → Result (Contract × Bool)
  unfolding set_auth_of
  internal_set_auth_by_predecessor_id c id enable force =
      elim (if enable then get c.accounts id else some (get_or_create host c id)) [
        | none ↦ ok (c, false)
        | some account ↦ set_auth_of c id account enable force
      ]

  -- `impl StateView for Contract` and `impl State for Contract`
  abbrev pub contract_state : State Contract
  contract_state = record {
    verifying_contract = λ c. host.current_account_id;
    wnear_id = λ c. c.wnear_id;
    fee = λ c. c.fee;
    fee_collector = λ c. c.fee_collector;
    has_public_key = Contract.has_public_key host;
    iter_public_keys = Contract.iter_public_keys host;
    is_nonce_used = Contract.is_nonce_used;
    balance_of = Contract.balance_of;
    is_account_locked = Contract.is_account_locked;
    is_auth_by_predecessor_id_enabled = Contract.is_auth_by_predecessor_id_enabled;
    is_valid_salt = Contract.is_valid_salt;
    add_public_key = add_public_key;
    remove_public_key = remove_public_key;
    commit_nonce = commit_nonce;
    cleanup_nonce_by_prefix = cleanup_nonce_by_prefix;
    internal_add_balance = internal_add_balance;
    internal_sub_balance = internal_sub_balance;
    ft_withdraw = λ c owner w. internal_ft_withdraw c owner w false;
    nft_withdraw = λ c owner w. internal_nft_withdraw c owner w false;
    mt_withdraw = λ c owner w. internal_mt_withdraw c owner w false;
    native_withdraw = λ c owner w. unwrap_near c owner w.amount (do_native_withdraw w);
    notify_on_transfer = λ c sender receiver tokens notify.
        scheduled c (notify_and_resolve_transfer host sender receiver (texts_of tokens) notify);
    storage_deposit = λ c owner w. unwrap_near c owner w.amount (do_storage_deposit w);
    set_auth_by_predecessor_id =
        λ c id enable. internal_set_auth_by_predecessor_id c id enable false;
    auth_call = auth_call;
    mint = deposit host;
    burn = λ c owner tokens memo. withdraw c owner tokens memo false;
  }
