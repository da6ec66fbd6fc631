-- ===== src/Wallet/Contract.antt =====
-- contracts/wallet/src/contract.rs, state.rs and error.rs: the reference implementation of a wallet.
-- The signature schema (the type of its keys and its checks), the hash of a message and the JSON
-- form of an authorization are parameters. An error panics, so that the state and the events of the
-- call are lost. A promise that is built and detached is kept as it was asked for.
pub mod Lockout
pub mod Authority
use intents.Prelude.{
  ℕ, Bool, true, false, not, ◌&&◌, ◌||◌, bool_beq, nat_beq, String, List, [], ◌∷◌, ◌++◌, Option,
  none, some, ◌==◌, string_eq, nat_eq, if◌then◌else◌,
}
use intents.Prelude.Int.{ℤ}
use intents.Prelude.Outcome.{Outcome, done, failed, ◌>>?◌, fail_if}
use intents.MapUtils.{Map, contains, insert, remove, is_empty}
use intents.TokenId.{AccountId}
use intents.Wallet.Nonces.{Nonces, NonceError, default_timeout, new, check_cleanup, commit}
use intents.Wallet.Requests.{
  NearAction, NearPromise, WalletOp, Request, RequestMessage, Actor, WalletEvent, function_call,
  transfer, deterministic_state_init, set_signature_mode, add_extension, remove_extension,
  signed_request, extension, extension_added, extension_removed, signature_mode_set, request_signed,
}

-- A `BTreeSet<AccountId>`
abbrev pub Accounts : Type 0
Accounts = Map AccountId (Unit {0})

pub record State (P : Type 0) : Type 0 where
  pub signature_enabled : Bool
  pub subwallet_id : ℕ
  pub public_key : P
  pub nonces : Nonces
  pub extensions : Accounts

-- What a call reads of the chain.
pub record Env : Type 0 where
  pub chain_id : String
  pub current_account_id : AccountId
  pub predecessor_account_id : AccountId
  pub attached_deposit : ℕ
  pub now : ℤ

-- The errors, and the panic on `pay_for_gas`.
pub data ContractError : Type 0 where
  extension_enabled extension_not_enabled invalid_signer_id : AccountId → ContractError
  from_the_future insufficient_deposit invalid_chain_id invalid_path invalid_signature json :
      ContractError
  lockout self_calls_not_allowed signature_disabled : ContractError
  this_signature_mode_already_set unsupported_promise_action pay_for_gas_unsupported : ContractError
  nonce_error : NonceError → ContractError

-- The error of a nonce as an error of the contract.
abbrev pub of_nonce : Outcome NonceError Nonces → Outcome ContractError Nonces
of_nonce (done n) = done n
of_nonce (failed why) = failed (nonce_error why)

module _ {P : Type 0} where
  unfoldable pub new_state : P → State P
  new_state public_key = record {
    signature_enabled = true;
    subwallet_id = 0;
    public_key = public_key;
    nonces = new default_timeout;
    extensions = [];
  }

  abbrev pub with_signature_enabled : State P → Bool → State P
  with_signature_enabled s enable = record {
    signature_enabled = enable;
    subwallet_id = s.subwallet_id;
    public_key = s.public_key;
    nonces = s.nonces;
    extensions = s.extensions;
  }

  abbrev pub with_nonces : State P → Nonces → State P
  with_nonces s nonces = record {
    signature_enabled = s.signature_enabled;
    subwallet_id = s.subwallet_id;
    public_key = s.public_key;
    nonces = nonces;
    extensions = s.extensions;
  }

  abbrev pub with_extensions : State P → Accounts → State P
  with_extensions s extensions = record {
    signature_enabled = s.signature_enabled;
    subwallet_id = s.subwallet_id;
    public_key = s.public_key;
    nonces = s.nonces;
    extensions = extensions;
  }

  abbrev pub is_signature_allowed : State P → Bool
  is_signature_allowed s = s.signature_enabled || is_empty s.extensions

  abbrev pub has_extension : State P → AccountId → Bool
  has_extension s account_id = contains s.extensions account_id

  -- Whether `check_lockout` returns an error.
  abbrev pub is_locked_out : State P → Bool
  is_locked_out s = not s.signature_enabled && is_empty s.extensions

  unfoldable pub execute_op :
      State P → WalletOp → Actor → Outcome ContractError (State P × WalletEvent)
  execute_op s (set_signature_mode enable) actor =
      let after = with_signature_enabled s enable in
      fail_if (bool_beq s.signature_enabled enable) this_signature_mode_already_set
        (fail_if (is_locked_out after) lockout (done (after, signature_mode_set enable actor)))
  execute_op s (add_extension id) actor =
      fail_if (has_extension s id) (extension_enabled id)
        (done (with_extensions s (insert s.extensions id tt), extension_added id actor))
  execute_op s (remove_extension id) actor =
      let after = with_extensions s (remove s.extensions id) in
      fail_if (not (has_extension s id)) (extension_not_enabled id)
        (fail_if (is_locked_out after) lockout (done (after, extension_removed id actor)))

  unfoldable pub execute_ops :
      State P → List WalletOp → Actor → Outcome ContractError (State P × List WalletEvent)
  unfolding execute_op
  execute_ops s [] actor = done (s, [])
  execute_ops s (op ∷ ops) actor = execute_op s op actor >>? λ first.
      execute_ops first.0 ops actor >>? λ rest. done (rest.0, first.1 ∷ rest.1)

-- `NearAction` has no other action that the contract does not support.
abbrev pub is_supported : NearAction → Bool
is_supported (function_call _) = true
is_supported (transfer _) = true
is_supported (deterministic_state_init _ _) = true

unfoldable pub all_supported : List NearAction → Bool
all_supported [] = true
all_supported (a ∷ rest) = is_supported a && all_supported rest

unfoldable pub build_promise : Env → NearPromise → Outcome ContractError NearPromise
unfolding all_supported
build_promise env p =
    fail_if (p.receiver_id == env.current_account_id) self_calls_not_allowed
      (fail_if (not (all_supported p.actions)) unsupported_promise_action (done p))

unfoldable pub build_promises : Env → List NearPromise → Outcome ContractError (List NearPromise)
unfolding build_promise
build_promises env [] = done []
build_promises env (p ∷ ps) =
    build_promise env p >>? λ first. build_promises env ps >>? λ rest. done (first ∷ rest)

-- What a call leaves behind: the new state, its events in their order, the promises it detached.
pub record Executed (P : Type 0) : Type 0 where
  pub state : State P
  pub events : List WalletEvent
  pub promises : List NearPromise

unfoldable pub execute_request :
    {P : Type 0} → Env → State P → Request → Actor → Outcome ContractError (Executed P)
unfolding execute_ops build_promises
execute_request env s request actor = execute_ops s request.internal actor >>? λ after.
    build_promises env request.external >>? λ promises.
    done (record { state = after.0; events = after.1; promises = promises })

unfoldable pub execute_extension :
    {P : Type 0} → Env → State P → Request → Outcome ContractError (Executed P)
unfolding execute_request
execute_extension env s request =
    let id = env.predecessor_account_id in
    fail_if (nat_beq env.attached_deposit 0) insufficient_deposit (
      fail_if (not (has_extension s id)) (extension_not_enabled id) (
        execute_request env (with_nonces s (check_cleanup env.now s.nonces)) request
          (extension id)))

module _ {P : Type 0} (verify_request_msg : P → RequestMessage → String → Bool)
    (hash : RequestMessage → ℕ) where
  -- After the nonce is committed: the signature, and then the request.
  unfoldable pub execute_verified :
      Env → State P → RequestMessage → String → Outcome ContractError (Executed P)
  unfolding execute_request
  execute_verified env s msg proof =
      fail_if (not (verify_request_msg s.public_key msg proof)) invalid_signature (
        execute_request env s msg.request (signed_request (hash msg)) >>? λ x. done (record {
          state = x.state;
          events = request_signed (hash msg) ∷ x.events;
          promises = x.promises;
        }))

  unfoldable pub execute_signed :
      Env → State P → RequestMessage → String → Outcome ContractError (Executed P)
  unfolding execute_verified
  execute_signed env s msg proof = fail_if (not (is_signature_allowed s)) signature_disabled (
      fail_if msg.pay_for_gas pay_for_gas_unsupported (
        fail_if (not (msg.chain_id == env.chain_id)) invalid_chain_id (
          fail_if (not (msg.signer_id == env.current_account_id)) (invalid_signer_id msg.signer_id)
            (of_nonce (commit env.now s.nonces msg.nonce msg.created_at msg.timeout) >>? λ nonces.
              execute_verified env (with_nonces s nonces) msg proof))))
