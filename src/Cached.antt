-- ===== src/Cached.antt =====
-- contracts/defuse/core/src/engine/state/cached.rs: `CachedState`, which keeps what a
-- simulation changes over a view that stays as it is. The balances, locks, keys and nonces; what an
-- account keeps is its own record. An error ends the simulation, so that only success has a state.
pub mod Balances
use intents.Prelude.{
  ℕ, Bool, true, false, not, ◌||◌, Option, none, some, List, [], ◌∷◌, nat_beq, nat_eq, nat_default,
  string_eq, if◌then◌else◌,
}
use intents.MapUtils.{Map, get, insert, contains, get_or_default, store}
use intents.Amounts.{Amounts, add, sub}
use intents.TokenId.{AccountId, TokenId, token_eq}
use intents.Error.{
  PublicKey, public_key_eq, Result, ok, err, ◌>>=◌, ◌>>◌, guard, balance_overflow, invalid_intent,
  account_locked,
}
use intents.Nonce.{Nonces, is_used}
use intents.Lock.{Lock, get_mut}

pub record CachedAccount : Type 0 where
  pub nonces : Nonces
  pub auth_by_predecessor_id_toggled : Bool
  pub public_keys_added : Map PublicKey (Unit {0})
  pub public_keys_removed : Map PublicKey (Unit {0})
  pub token_amounts : Amounts TokenId ℕ

abbrev pub default_account : CachedAccount
default_account = record {
  nonces = [];
  auth_by_predecessor_id_toggled = false;
  public_keys_added = [];
  public_keys_removed = [];
  token_amounts = [];
}

abbrev pub with_amounts : CachedAccount → Amounts TokenId ℕ → CachedAccount
with_amounts a amounts = record {
  nonces = a.nonces;
  auth_by_predecessor_id_toggled = a.auth_by_predecessor_id_toggled;
  public_keys_added = a.public_keys_added;
  public_keys_removed = a.public_keys_removed;
  token_amounts = amounts;
}

-- What the cache reads of its `StateView`.
pub record View : Type 0 where
  pub view_balance_of : AccountId → TokenId → ℕ
  pub view_is_account_locked : AccountId → Bool
  pub view_has_public_key : AccountId → PublicKey → Bool
  pub view_is_nonce_used : AccountId → ℕ → Bool

abbrev pub CachedAccounts : Type 0
CachedAccounts = Map AccountId (Lock CachedAccount)

-- `amounts.add(..).ok_or(BalanceOverflow)?` and the same with `sub`
abbrev pub changed : Amounts TokenId ℕ × Option ℕ → Result (Amounts TokenId ℕ)
changed (amounts, none) = err balance_overflow
changed (amounts, some _) = ok amounts

module _ (view : View) where
  unfoldable pub balance_of : CachedAccounts → AccountId → TokenId → ℕ
  balance_of accounts id token = elim (get accounts id) [
    | none ↦ view.view_balance_of id token
    | some account ↦ elim (get account.value.token_amounts token) [
      | none ↦ view.view_balance_of id token
      | some amount ↦ amount
    ]
  ]

  unfoldable pub is_account_locked : CachedAccounts → AccountId → Bool
  is_account_locked accounts id = elim (get accounts id) [
    | none ↦ view.view_is_account_locked id
    | some account ↦ account.locked
  ]

  unfoldable pub has_public_key : CachedAccounts → AccountId → PublicKey → Bool
  has_public_key accounts id key = elim (get accounts id) [
    | none ↦ view.view_has_public_key id key
    | some account ↦
        if contains account.value.public_keys_added key
        then true
        else if contains account.value.public_keys_removed key
        then false
        else view.view_has_public_key id key
  ]

  unfoldable pub is_nonce_used : CachedAccounts → AccountId → ℕ → Bool
  is_nonce_used accounts id nonce =
      elim (get accounts id) [ none ↦ false | some account ↦ is_used account.value.nonces nonce ]
      || view.view_is_nonce_used id nonce

  unfoldable pub get_or_create : CachedAccounts → AccountId → Lock CachedAccount
  get_or_create accounts id = elim (get accounts id) [
    | none ↦ record { locked = view.view_is_account_locked id; value = default_account }
    | some account ↦ account
  ]

  -- An amount that is not cached is read from the view first.
  unfoldable pub fetch : AccountId → Amounts TokenId ℕ → TokenId → Result (Amounts TokenId ℕ)
  fetch id amounts token = elim (get amounts token) [
    | none ↦ changed (add amounts token (view.view_balance_of id token))
    | some _ ↦ ok amounts
  ]

  unfoldable pub add_amounts :
      AccountId → Amounts TokenId ℕ → List (TokenId × ℕ) → Result (Amounts TokenId ℕ)
  unfolding fetch
  add_amounts id amounts [] = ok amounts
  add_amounts id amounts ((token, amount) ∷ rest) = fetch id amounts token >>= λ fetched.
      changed (add fetched token amount) >>= λ after. add_amounts id after rest

  unfoldable pub sub_amounts :
      AccountId → Amounts TokenId ℕ → List (TokenId × ℕ) → Result (Amounts TokenId ℕ)
  unfolding fetch
  sub_amounts id amounts [] = ok amounts
  sub_amounts id amounts ((token, amount) ∷ rest) =
      guard (not (nat_beq amount 0)) invalid_intent
      >> (fetch id amounts token >>= λ fetched.
          changed (sub fetched token amount) >>= λ after. sub_amounts id after rest)

  unfoldable pub internal_add_balance :
      CachedAccounts → AccountId → List (TokenId × ℕ) → Result CachedAccounts
  unfolding get_or_create add_amounts
  internal_add_balance accounts id token_amounts =
      let account = get_or_create accounts id in
      add_amounts id account.value.token_amounts token_amounts >>= λ after. ok (
        insert accounts id
          (record { locked = account.locked; value = with_amounts account.value after }))

  unfoldable pub internal_sub_balance :
      CachedAccounts → AccountId → List (TokenId × ℕ) → Result CachedAccounts
  unfolding get_or_create sub_amounts
  internal_sub_balance accounts id token_amounts =
      let account = get_or_create accounts id in
      elim (get_mut account) [
        | none ↦ err (account_locked id)
        | some value ↦ sub_amounts id value.token_amounts token_amounts >>= λ after. ok (
            insert accounts id
              (record { locked = account.locked; value = with_amounts value after }))
      ]
