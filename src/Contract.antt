-- ===== src/Contract.antt =====
-- contracts/defuse/src/contract: the intents contract. Its storage, its accounts, and what it reads of
-- them for the intents core (`StateView`). What it asks of the environment and of other libraries is a
-- record; what it sends out are the promises that it has scheduled, each a chain of calls.
-- Storage prefixes, roles, pauses and the keys of relayers are left out.
pub mod Tokens
pub mod Books
pub mod Refunds
pub mod Supply
pub mod Burns
pub mod Refunded
pub mod Resolve
pub mod Transfers
pub mod Moves
pub mod Transferred
pub mod Settled
pub mod Resolved
pub mod Withdrawals
pub mod Core
pub mod Ledger
use intents.Prelude.{
  ℕ, Bool, true, false, not, Option, none, some, List, [], ◌∷◌, map, ◌++◌, String, ◌==◌, string_eq,
  nat_default, if◌then◌else◌,
}
use intents.MapUtils.{Map, get, insert}
use intents.Amounts.{Amounts, amount_for}
use intents.TokenId.{AccountId, TokenId, token_eq}
use intents.Fees.{Pips}
use intents.Lock.{Lock, unlocked}
use intents.Error.{PublicKey, Result}
use intents.Intents.{
  NotifyOnTransfer, FtWithdraw, NftWithdraw, MtWithdraw, NativeWithdraw, StorageDeposit, AuthCall,
}
use intents.Events.{MtEvent, MtBurnEvent}
use intents.Salts
use intents.Salts.{SaltRegistry}
use intents.Account
use intents.Account.{Account, Ids}

-- What the contract is given: its own account, the ids of keys and accounts, the length of the log of
-- an event, and which texts are account ids.
pub record Host : Type 0 where
  pub current_account_id : AccountId
  pub ids : Ids
  pub log_len : MtEvent → ℕ
  pub is_account_id : AccountId → Bool

-- One call of a promise, on another contract or on this one.
pub data Call : Type 0 where
  near_withdraw : ℕ → Call
  do_ft_withdraw : FtWithdraw → Call
  do_nft_withdraw : NftWithdraw → Call
  do_mt_withdraw : MtWithdraw → Call
  ft_resolve_withdraw : AccountId → AccountId → ℕ → Bool → Call
  nft_resolve_withdraw : AccountId → AccountId → String → Bool → Call
  mt_resolve_withdraw : AccountId → AccountId → List String → List ℕ → Bool → Call
  do_native_withdraw : NativeWithdraw → Call
  do_storage_deposit : StorageDeposit → Call
  do_auth_call : AccountId → AuthCall → Call
  mt_on_transfer : AccountId → AccountId → List (String × ℕ) → NotifyOnTransfer → Call
  mt_resolve_transfer : AccountId → AccountId → List (String × ℕ) → Call

abbrev pub Accounts : Type 0
Accounts = Map AccountId (Lock Account)

pub record Contract : Type 0 where
  pub accounts : Accounts
  pub total_supplies : Amounts TokenId ℕ
  pub wnear_id : AccountId
  pub fee : Pips
  pub fee_collector : AccountId
  pub salts : SaltRegistry
  pub postponed_burns : List MtBurnEvent
  pub promises : List (List Call)

abbrev pub with_account : Contract → AccountId → Lock Account → Contract
with_account c id account = record c { accounts = insert c.accounts id account }

-- `Promise::detach`
abbrev pub scheduled : Contract → List Call → Contract
scheduled c promise = record c { promises = c.promises ++ promise ∷ [] }

abbrev pub balance_in : Option (Lock Account) → TokenId → ℕ
balance_in none token = 0
balance_in (some account) token = amount_for account.value.token_balances token

unfoldable pub balance_of : Contract → AccountId → TokenId → ℕ
balance_of c id token = balance_in (get c.accounts id) token

unfoldable pub is_account_locked : Contract → AccountId → Bool
is_account_locked c id = elim (get c.accounts id) [ none ↦ false | some account ↦ account.locked ]

unfoldable pub is_nonce_used : Contract → AccountId → ℕ → Bool
is_nonce_used c id nonce = elim (get c.accounts id) [
  | none ↦ false
  | some account ↦ Account.is_used account.value.nonces nonce
]

unfoldable pub is_auth_by_predecessor_id_enabled : Contract → AccountId → Bool
is_auth_by_predecessor_id_enabled c id = elim (get c.accounts id) [
  | none ↦ true
  | some account ↦ Account.is_auth_by_predecessor_id_enabled account.value
]

unfoldable pub is_valid_salt : Contract → ℕ → Bool
is_valid_salt c salt = Salts.is_valid c.salts salt

module _ (host : Host) where
  -- `Accounts::get_or_create`; the entry that it makes is part of what is then written.
  unfoldable pub get_or_create : Contract → AccountId → Lock Account
  get_or_create c id = elim (get c.accounts id) [
    | none ↦ unlocked (Account.new host.ids id)
    | some account ↦ account
  ]

  unfoldable pub has_public_key : Contract → AccountId → PublicKey → Bool
  has_public_key c id key = elim (get c.accounts id) [
    | none ↦ id == host.ids.to_implicit_account_id key
    | some account ↦ Account.has_public_key host.ids account.value id key
  ]

  unfoldable pub iter_public_keys : Contract → AccountId → List PublicKey
  iter_public_keys c id = elim (get c.accounts id) [
    | none ↦ elim (host.ids.from_implicit_account_id id) [ none ↦ [] | some key ↦ key ∷ [] ]
    | some account ↦ Account.iter_public_keys host.ids account.value id
  ]
