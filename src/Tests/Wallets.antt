-- ===== src/Tests/Wallets.antt =====
-- A wallet, its nonces and its authorizations at concrete values.
use intents.Prelude.{
  ℕ, ◌≡◌, ◌≢◌, refl, true, false, not, [], ◌∷◌, some, none, ◌↔◌, Bool, String, ◌==◌, string_eq,
  nat_eq, nat_beq, nat_default, ◌&&◌, min, if◌then◌else◌, Option, arith,
}
use intents.Prelude.Int.{pos, ◌-ℤ◌, ◌≤ℤ◌}
use intents.Prelude.Outcome.{done, failed}
use intents.MapUtils.{get, get_or_default, insert, remove, store}
use intents.WordBitmap.{
  BitMap, has, get_bit, update_bit, set_bit, clear_bit, toggle_bit, set_bit_to,
}
use intents.WordBitmap.Laws.{word_bit_operations}
use intents.Wallet.Nonces.{Nonces, new, check_cleanup, is_in_window, use_nonce, commit}
use intents.Wallet.Nonces.Available.{commit-available}
use intents.Wallet.Requests.{
  NearPromise, Request, RequestMessage, transfer, set_signature_mode, add_extension, extension,
  signed_request, request_signed, extension_added, signature_mode_set,
}
use intents.Wallet.Contract.{
  ContractError, State, Env, Executed, new_state, execute_op, execute_ops, all_supported,
  build_promise, build_promises, execute_request, execute_extension, execute_verified,
  execute_signed, is_locked_out, has_extension, is_signature_allowed, with_nonces, lockout,
}
use intents.Wallet.Contract.Authority.{
  execute_extension-authorized, execute_signed-authorized, IsOutward,
}
use intents.Wallet.Calls.{Calls, begin, signed, extended, Calls-keeps, execute_signed-no_replay}
use intents.Wallet.Auth as Auth
use intents.Nep641 as Nep641
use intents.Nep641.{AuthorizationResolution, add_pending}

abbrev words : BitMap
words = (0, 8) ∷ (3, 1) ∷ []

word_bit_operations_example :
    ((set_bit 5 words 96).1 ≡ get_bit 5 words 96)
    × ((clear_bit 5 words 96).1 ≡ get_bit 5 words 96)
    × ((toggle_bit 5 words 96).1 ≡ get_bit 5 words 96)
    × ((set_bit_to 5 words 96 true).1 ≡ get_bit 5 words 96)
    × (get_bit 5 (set_bit 5 words 96).0 3 ≡ (if nat_beq 96 3 then true else get_bit 5 words 3))
    × (get_bit 5 (clear_bit 5 words 96).0 3 ≡ (if nat_beq 96 3 then false else get_bit 5 words 3))
    × (get_bit 5 (toggle_bit 5 words 96).0 3
        ≡ (if nat_beq 96 3 then not (get_bit 5 words 96) else get_bit 5 words 3))
    × (get_bit 5 (set_bit_to 5 words 96 true).0 3
        ≡ (if nat_beq 96 3 then true else get_bit 5 words 3))
word_bit_operations_example = word_bit_operations 5 words 96 3 true

-- An entry that becomes zero leaves the map.
clear_96 : (clear_bit 5 words 96).0 ≡ (0, 8) ∷ []
unfolding clear_bit update_bit has get_or_default store get insert remove
clear_96 = refl

abbrev fresh : Nonces
fresh = record { timeout = 100; last_cleaned_at = pos 50; old = []; current = (0, 2) ∷ [] }

commit-available_example :
    ((m : Nonces) × (commit (pos 1000) fresh 1 (pos 950) 60 ≡ done m))
    ↔ ((pos 1000 -ℤ pos (min 100 60) ≤ℤ pos 950) × (pos 950 ≤ℤ pos 1000))
commit-available_example =
    commit-available (pos 1000) fresh 1 (pos 950) 60 (unfold ◌-ℤ◌ in omega arith)

abbrev verify : ℕ → RequestMessage → String → Bool
verify key msg proof = nat_beq key 7 && proof == "ok"

abbrev msg_hash : RequestMessage → ℕ
msg_hash msg = msg.nonce

abbrev wallet : State ℕ
wallet = new_state 7

abbrev env : Env
env = record {
  chain_id = "mainnet";
  current_account_id = "wallet.near";
  predecessor_account_id = "ext.near";
  attached_deposit = 1;
  now = pos 8000000000000;
}

abbrev pay : NearPromise
pay = record { receiver_id = "bob.near"; refund_to = none; actions = transfer 5 ∷ [] }

abbrev request : Request
request = record { internal = add_extension "ext.near" ∷ []; external = pay ∷ [] }

abbrev msg : RequestMessage
msg = record {
  pay_for_gas = false;
  chain_id = "mainnet";
  signer_id = "wallet.near";
  nonce = 33;
  created_at = pos 7999000000000;
  timeout = 3600000000000;
  request = request;
}

abbrev spent : Nonces
spent = record {
  timeout = 3600000000000;
  last_cleaned_at = pos 8000000000000;
  old = [];
  current = (1, 2) ∷ [];
}

abbrev after : Executed ℕ
after = record {
  state = record {
    signature_enabled = true;
    subwallet_id = 0;
    public_key = 7;
    nonces = spent;
    extensions = ("ext.near", tt) ∷ [];
  };
  events = request_signed 33 ∷ extension_added "ext.near" (signed_request 33) ∷ [];
  promises = pay ∷ [];
}

signed-runs : execute_signed verify msg_hash env wallet msg "ok" ≡ done after
unfolding execute_signed execute_verified execute_request execute_ops execute_op build_promises
    build_promise all_supported commit check_cleanup is_in_window use_nonce new_state new set_bit
    update_bit has get_bit get insert store get_or_default ◌-ℤ◌
signed-runs = refl

execute_signed-no_replay_example :
    (why : ContractError) × (execute_signed verify msg_hash env after.state msg "ok" ≡ failed why)
execute_signed-no_replay_example =
    execute_signed-no_replay verify msg_hash env env wallet msg msg "ok" "ok" after after.state
      signed-runs begin (omega arith) refl (omega arith)

-- The extension that the signed request has enabled gives the wallet's signature up.
abbrev by_extension : Request
by_extension = record { internal = set_signature_mode false ∷ []; external = [] }

abbrev unsigned : Executed ℕ
unsigned = record {
  state = record {
    signature_enabled = false;
    subwallet_id = 0;
    public_key = 7;
    nonces = spent;
    extensions = ("ext.near", tt) ∷ [];
  };
  events = signature_mode_set false (extension "ext.near") ∷ [];
  promises = [];
}

extended-runs : execute_extension env after.state by_extension ≡ done unsigned
unfolding execute_extension execute_request execute_ops execute_op build_promises check_cleanup ◌-ℤ◌
    get new_state
extended-runs = refl

-- Without extensions it cannot.
lockout-fails : execute_op wallet (set_signature_mode false) (signed_request 33) ≡ failed lockout
unfolding execute_op new_state
lockout-fails = refl

execute_extension-authorized_example :
    (has_extension after.state env.predecessor_account_id ≡ true)
    × (env.attached_deposit ≢ 0)
    × (execute_request env
          (with_nonces after.state (check_cleanup env.now after.state.nonces))
          by_extension
          (extension env.predecessor_account_id)
        ≡ done unsigned)
    × (unsigned.promises ≡ by_extension.external)
    × IsOutward env.current_account_id unsigned.promises
execute_extension-authorized_example =
    execute_extension-authorized env after.state by_extension unsigned extended-runs

execute_signed-authorized_example :
    (is_signature_allowed wallet ≡ true)
    × (msg.chain_id ≡ env.chain_id)
    × (msg.signer_id ≡ env.current_account_id)
    × (verify wallet.public_key msg "ok" ≡ true)
    × (after.promises ≡ msg.request.external)
    × IsOutward env.current_account_id after.promises
    × (n : Nonces) × (commit env.now wallet.nonces msg.nonce msg.created_at msg.timeout ≡ done n)
    × (y : Executed ℕ) × (execute_request env
          (with_nonces wallet n)
          msg.request
          (signed_request (msg_hash msg))
        ≡ done y)
    × (after.state ≡ y.state)
execute_signed-authorized_example =
    execute_signed-authorized verify msg_hash env wallet msg "ok" after signed-runs

abbrev two_calls : Calls verify msg_hash (pos 0) wallet env.now unsigned.state
two_calls =
    extended env by_extension unsigned (signed env msg "ok" after begin (omega arith) signed-runs)
      (omega arith) extended-runs

Calls-keeps_example :
    (is_locked_out unsigned.state ≡ false)
    × (unsigned.state.subwallet_id ≡ wallet.subwallet_id)
    × (unsigned.state.public_key ≡ wallet.public_key)
Calls-keeps_example =
    Calls-keeps verify msg_hash wallet unsigned.state two_calls (unfold new_state in refl)

abbrev by_ext : Auth.WalletAuthorization
by_ext = Auth.extension "ext.near" "blob" "payload"

abbrev parse : String → Option Auth.WalletAuthorization
parse s = if s == "json" then some by_ext else none

abbrev resolution : AuthorizationResolution
resolution = record {
  payload = "payload";
  pending = record { account_id = "ext.near"; authorization = "blob"; expect = "payload" } ∷ [];
}

resolve_auth-IsBacked_example :
    (input : Auth.WalletAuthorization) × (parse "json" ≡ some input)
    × (resolution.payload ≡ Auth.payload_of input)
    × Auth.IsBacked (λ _ _ _. true) parse env after.state [] input resolution
resolve_auth-IsBacked_example =
    Auth.resolve_auth-IsBacked (λ _ _ _. true) parse env after.state [] "json" resolution
      (unfold Auth.resolve_auth Auth.resolve_input get Nep641.new add_pending in refl)
