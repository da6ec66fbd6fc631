-- ===== src/Wallet/Auth.antt =====
-- contracts/wallet/src/contract.rs, `resolve_auth`, and `WalletAuthorization` of message.rs: what a
-- wallet authorizes offchain. The schema's check and the JSON parser are parameters.
use intents.Prelude.{
  Bool, true, false, not, ◌≡◌, refl, inl, inr, String, List, [], ◌∷◌, Option, none, some, ◌==◌, ◌↔◌,
  string_eq, arith, Option-cases, ◌&&◌,
}
use intents.Prelude.Int.{ltb_ℤ, ◌≤ℤ◌}
use intents.Prelude.Outcome.{Outcome, done, failed, fail_if, fail_if-done}
use intents.TokenId.{AccountId}
use intents.Nep641.{OffchainMessage, AuthorizationResolution, new, add_pending}
use intents.Wallet.Contract.{
  State, Env, ContractError, is_signature_allowed, has_extension, signature_disabled,
  invalid_chain_id, invalid_signer_id, invalid_path, from_the_future, invalid_signature,
  extension_not_enabled, json,
}

-- `msg.path != path`
unfoldable pub path_beq : List AccountId → List AccountId → Bool
path_beq [] [] = true
path_beq (a ∷ p) (b ∷ q) = (a == b) && path_beq p q
path_beq _ _ = false

path_beq_iff : (p q : List AccountId) → (path_beq p q ≡ true) ↔ (p ≡ q)
unfolding path_beq
path_beq_iff [] [] = ground arith
path_beq_iff [] (b ∷ q) = ground arith
path_beq_iff (a ∷ p) [] = ground arith
path_beq_iff (a ∷ p) (b ∷ q) = ground (arith, string_eq.beq_iff a b, path_beq_iff p q)

pub data WalletAuthorization : Type 0 where
  signature : (msg : OffchainMessage) (proof : String) → WalletAuthorization
  extension : (account_id : AccountId) (authorization payload : String) → WalletAuthorization

-- `into_payload`: the payload that is to be authorized
unfoldable pub payload_of : WalletAuthorization → String
payload_of (signature msg proof) = msg.payload
payload_of (extension account_id authorization payload) = payload

module _ {P : Type 0} (verify_offchain_msg : P → OffchainMessage → String → Bool)
    (parse : String → Option WalletAuthorization) where
  unfoldable pub resolve_input :
      Env
      → State P
      → List AccountId
      → WalletAuthorization
      → Outcome ContractError AuthorizationResolution
  unfolding path_beq new add_pending
  resolve_input env s path (signature msg proof) =
      fail_if (not (is_signature_allowed s)) signature_disabled (
        fail_if (not (msg.chain_id == env.chain_id)) invalid_chain_id (
          fail_if (not (msg.signer_id == env.current_account_id)) (invalid_signer_id msg.signer_id)
            (fail_if (not (path_beq msg.path path)) invalid_path (
              fail_if (ltb_ℤ env.now msg.timestamp) from_the_future (
                fail_if (not (verify_offchain_msg s.public_key msg proof)) invalid_signature
                  (done (new msg.payload)))))))
  resolve_input env s path (extension account_id authorization payload) =
      fail_if (not (has_extension s account_id)) (extension_not_enabled account_id)
        (done (add_pending (new payload) account_id authorization payload))

  unfoldable pub resolve_auth :
      Env
      → State P
      → List AccountId
      → (authorization : String) → Outcome ContractError AuthorizationResolution
  unfolding resolve_input
  resolve_auth env s path authorization = elim (parse authorization) [
    | none ↦ failed json
    | some input ↦ resolve_input env s path input
  ]

  -- Who stands behind a resolution: the wallet's key, for a message to this wallet, on this chain,
  -- for this path, not from the future; or an enabled extension, which must authorize the same
  -- payload.
  pub IsBacked :
      Env → State P → List AccountId → WalletAuthorization → AuthorizationResolution → Type 0
  IsBacked env s path (signature msg proof) r =
      (is_signature_allowed s ≡ true)
      × (msg.chain_id ≡ env.chain_id)
      × (msg.signer_id ≡ env.current_account_id)
      × (msg.path ≡ path)
      × (msg.timestamp ≤ℤ env.now)
      × (verify_offchain_msg s.public_key msg proof ≡ true)
      × (r.pending ≡ [])
  IsBacked env s path (extension account_id authorization payload) r =
      (has_extension s account_id ≡ true)
      × (r.pending
          ≡ record { account_id = account_id; authorization = authorization; expect = r.payload }
            ∷ [])

  resolve_input-IsBacked :
      (env : Env) (s : State P) (path : List AccountId) (input : WalletAuthorization)
      (r : AuthorizationResolution)
      → resolve_input env s path input ≡ done r
      → (r.payload ≡ payload_of input) × IsBacked env s path input r
  unfolding resolve_input IsBacked new add_pending payload_of
  resolve_input-IsBacked env s path (signature msg proof) r q = ground (
    arith,
    string_eq.beq_iff msg.chain_id env.chain_id,
    string_eq.beq_iff msg.signer_id env.current_account_id,
    path_beq_iff msg.path path,
  )
  resolve_input-IsBacked env s path (extension account_id authorization payload) r q =
      let (enabled, e) = fail_if-done (not (has_extension s account_id)) _ _ q in
      let same : add_pending (new payload) account_id authorization payload ≡ r = cc in
      rw (← same) (refl, (ground (arith, enabled), refl))

  -- A wallet authorizes a payload only if the authorization parses to one of this payload, and the
  -- wallet's key has signed it as a message to this wallet, on this chain, for this path, not from
  -- the future, while signatures are allowed, and then nothing is pending; or an enabled extension is
  -- to authorize the very same payload, and nothing else is pending.
  pub resolve_auth-IsBacked :
      (env : Env) (s : State P) (path : List AccountId) (authorization : String)
      (r : AuthorizationResolution)
      → resolve_auth env s path authorization ≡ done r
      → (input : WalletAuthorization) × (parse authorization ≡ some input)
        × (r.payload ≡ payload_of input)
        × IsBacked env s path input r
  unfolding resolve_auth
  resolve_auth-IsBacked env s path authorization r q = elim (Option-cases (parse authorization)) [
    | inl f ↦ let z = rw (f, resolve_auth) at q in cc
    | inr (input, f) ↦
        let (same, backed) =
          resolve_input-IsBacked env s path input r (rw (f, resolve_auth) at q) in
        (input, f, same, backed)
  ]
