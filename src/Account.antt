-- ===== src/Account.antt =====
-- contracts/defuse/src/contract/accounts/account: what the contract keeps of an account: its keys, its
-- nonces, its flags and its balances. The text forms of keys, and the kinds of account ids, which rest
-- on hashes and on near-account-id, are parameters. A method returns the new account first.
pub mod Keys
pub mod Used
use intents.Prelude.{
  ℕ, Bool, true, false, not, xor, ◌||◌, ◌&&◌, Option, none, some, List, [], ◌∷◌, ◌++◌, map, ◌==◌,
  nat_eq, string_eq, if◌then◌else◌,
}
use intents.MapUtils.{Map, get, insert, remove, contains}
use intents.Amounts.{Amounts}
use intents.TokenId.{AccountId, TokenId}
use intents.Error.{PublicKey, public_key_eq, Result, ok, err, nonce_used, ◌>>=◌, ◌>>◌, guard}
use intents.Nonce.{Nonces}
use intents.Nonce

-- near_account_id::AccountType
pub data AccountType : Type 0 where
  named near_implicit eth_implicit near_deterministic : AccountType

pub record Ids : Type 0 where
  pub to_implicit_account_id : PublicKey → AccountId
  pub from_implicit_account_id : AccountId → Option PublicKey
  pub get_account_type : AccountId → AccountType

-- `MaybeLegacyNonces`: the nonces, and those of an account that is older than their present form.
pub record MaybeLegacyNonces : Type 0 where
  pub nonces : Nonces
  pub legacy : Option Nonces

abbrev pub is_legacy_used : Option Nonces → ℕ → Bool
is_legacy_used none nonce = false
is_legacy_used (some legacy) nonce = Nonce.is_used legacy nonce

unfoldable pub is_used : MaybeLegacyNonces → ℕ → Bool
is_used n nonce = Nonce.is_used n.nonces nonce || is_legacy_used n.legacy nonce

unfoldable pub commit : MaybeLegacyNonces → ℕ → Result MaybeLegacyNonces
commit n nonce =
    guard (not (is_legacy_used n.legacy nonce)) nonce_used
    >> (Nonce.commit n.nonces nonce >>= λ after. ok (record { nonces = after; legacy = n.legacy }))

unfoldable pub cleanup_by_prefix : MaybeLegacyNonces → ℕ → MaybeLegacyNonces × Bool
cleanup_by_prefix n prefix =
    let (after, cleaned) = Nonce.cleanup_by_prefix n.nonces prefix in
    (record { nonces = after; legacy = n.legacy }, cleaned)

-- The two flags are the two bits of `AccountFlags`.
pub record Account : Type 0 where
  pub nonces : MaybeLegacyNonces
  pub implicit_public_key_removed : Bool
  pub auth_by_predecessor_id_disabled : Bool
  pub public_keys : Map PublicKey (Unit {0})
  pub token_balances : Amounts TokenId ℕ

abbrev pub with_balances : Account → Amounts TokenId ℕ → Account
with_balances a balances = record a { token_balances = balances }

unfoldable pub is_auth_by_predecessor_id_enabled : Account → Bool
is_auth_by_predecessor_id_enabled a = not a.auth_by_predecessor_id_disabled

unfoldable pub set_auth_by_predecessor_id : Account → Bool → Account × Bool
unfolding is_auth_by_predecessor_id_enabled
set_auth_by_predecessor_id a enable =
    let toggle = xor (is_auth_by_predecessor_id_enabled a) enable in
    (
      if toggle
          then record a { auth_by_predecessor_id_disabled = not a.auth_by_predecessor_id_disabled }
          else a,
      toggle,
    )

unfoldable pub commit_nonce : Account → ℕ → Result Account
unfolding commit
commit_nonce a nonce = commit a.nonces nonce >>= λ after. ok (record a { nonces = after })

unfoldable pub cleanup_nonce_by_prefix : Account → ℕ → Account × Bool
unfolding cleanup_by_prefix
cleanup_nonce_by_prefix a prefix =
    let (after, cleaned) = cleanup_by_prefix a.nonces prefix in
    (record a { nonces = after }, cleaned)

module _ (ids : Ids) where
  unfoldable pub has_implicit_public_key : AccountId → Bool
  has_implicit_public_key id = elim (ids.get_account_type id) [
    | AccountType.near_implicit ↦ true
    | AccountType.eth_implicit ↦ true
    | AccountType.named ↦ false
    | AccountType.near_deterministic ↦ false
  ]

  unfoldable pub new : AccountId → Account
  unfolding has_implicit_public_key
  new me = record {
    nonces = record { nonces = []; legacy = none };
    implicit_public_key_removed = not (has_implicit_public_key me);
    auth_by_predecessor_id_disabled = false;
    public_keys = [];
    token_balances = [];
  }

  unfoldable pub add_public_key : Account → AccountId → PublicKey → Account × Bool
  add_public_key a me key =
      if me == ids.to_implicit_account_id key
      then (record a { implicit_public_key_removed = false }, a.implicit_public_key_removed)
      else (
        record a { public_keys = insert a.public_keys key tt },
        not (contains a.public_keys key),
      )

  unfoldable pub remove_public_key : Account → AccountId → PublicKey → Account × Bool
  remove_public_key a me key =
      if me == ids.to_implicit_account_id key
      then (record a { implicit_public_key_removed = true }, not a.implicit_public_key_removed)
      else (record a { public_keys = remove a.public_keys key }, contains a.public_keys key)

  unfoldable pub has_public_key : Account → AccountId → PublicKey → Bool
  has_public_key a me key =
      (not a.implicit_public_key_removed && (me == ids.to_implicit_account_id key))
      || contains a.public_keys key

  unfoldable pub iter_public_keys : Account → AccountId → List PublicKey
  iter_public_keys a me =
      map (λ entry. entry.0) a.public_keys
      ++ (if not a.implicit_public_key_removed
          then elim (ids.from_implicit_account_id me) [ none ↦ [] | some key ↦ key ∷ [] ]
          else [])
