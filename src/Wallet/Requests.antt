-- ===== src/Wallet/Requests.antt =====
-- contracts/wallet/src/request, message.rs, events.rs and crates/near/promise/src: what a wallet is
-- asked to do. The arguments and the initial state that an action carries are left as bytes.
pub mod Deposits
use intents.Prelude.{ℕ, ◌+◌, min, Bool, String, Option, List, [], ◌∷◌, map}
use intents.Prelude.Int.{ℤ}
use intents.NumUtils.{u128_max}
use intents.TokenId.{AccountId}

pub record FunctionCall : Type 0 where
  pub function_name : String
  pub args : List ℕ
  pub deposit : ℕ
  pub gas : ℕ
  pub gas_weight : ℕ

pub data NearAction : Type 0 where
  function_call : FunctionCall → NearAction
  transfer : (amount : ℕ) → NearAction
  deterministic_state_init : (state_init : List ℕ) (deposit : ℕ) → NearAction

unfoldable pub action_deposit : NearAction → ℕ
action_deposit (function_call c) = c.deposit
action_deposit (transfer amount) = amount
action_deposit (deterministic_state_init _ deposit) = deposit

pub record NearPromise : Type 0 where
  pub receiver_id : AccountId
  pub refund_to : Option AccountId
  pub actions : List NearAction

-- `NearToken::saturating_add`
abbrev pub saturating_add : ℕ → ℕ → ℕ
saturating_add a b = min u128_max (a + b)

-- `.fold(start, NearToken::saturating_add)`
unfoldable pub fold_deposits : ℕ → List ℕ → ℕ
fold_deposits start [] = start
fold_deposits start (d ∷ ds) = fold_deposits (saturating_add start d) ds

unfoldable pub promise_total_deposit : NearPromise → ℕ
unfolding fold_deposits action_deposit
promise_total_deposit p = fold_deposits 0 (map action_deposit p.actions)

pub data WalletOp : Type 0 where
  set_signature_mode : (enable : Bool) → WalletOp
  add_extension remove_extension : (account_id : AccountId) → WalletOp

pub record Request : Type 0 where
  pub internal : List WalletOp
  pub external : List NearPromise

unfoldable pub total_deposit : Request → ℕ
unfolding fold_deposits promise_total_deposit
total_deposit r = fold_deposits 0 (map promise_total_deposit r.external)

pub record RequestMessage : Type 0 where
  pub pay_for_gas : Bool
  pub chain_id : String
  pub signer_id : AccountId
  pub nonce : ℕ
  pub created_at : ℤ
  pub timeout : ℕ
  pub request : Request

-- The actor of a request: a signer, by the hash of the message, or an extension.
pub data Actor : Type 0 where
  signed_request : (hash : ℕ) → Actor
  extension : AccountId → Actor

pub data WalletEvent : Type 0 where
  extension_added extension_removed : (account_id : AccountId) (by : Actor) → WalletEvent
  signature_mode_set : (enabled : Bool) (by : Actor) → WalletEvent
  request_signed : (hash : ℕ) → WalletEvent
