-- ===== src/Wallet/Contract/Authority.antt =====
-- Who can make a wallet act, and what its promises can be.
use intents.Prelude.{
  ℕ, Bool, true, not, ◌≡◌, sym, ◌∙◌, ◌≢◌, String, List, [], ◌∷◌, arith, string_eq, ◌==◌, nat_beq,
  nat_beq_iff,
}
use intents.Prelude.Outcome.{Outcome, done, failed, bind-done, fail_if-done}
use intents.TokenId.{AccountId}
use intents.Wallet.Nonces.{Nonces, NonceError, commit, check_cleanup}
use intents.Wallet.Requests.{NearPromise, Request, RequestMessage, Actor, signed_request, extension}
use intents.Wallet.Contract.{
  State, Env, Executed, is_signature_allowed, has_extension, build_promise, build_promises,
  execute_ops, execute_request, execute_extension, execute_verified, execute_signed, of_nonce,
  with_nonces, insufficient_deposit,
}

-- No promise goes to the wallet itself.
pub IsOutward : AccountId → List NearPromise → Type 0
IsOutward wallet [] = Unit
IsOutward wallet (p ∷ ps) = (p.receiver_id ≢ wallet) × IsOutward wallet ps

build_promises-IsOutward :
    (env : Env) (ps qs : List NearPromise)
    → build_promises env ps ≡ done qs
    → (qs ≡ ps) × IsOutward env.current_account_id qs
unfolding build_promises build_promise IsOutward
build_promises-IsOutward env [] qs q = ground arith
build_promises-IsOutward env (p ∷ ps) qs q =
    let (first, q1, rest) = bind-done (build_promise env p) _ q in
    let (others, q2, e) = bind-done (build_promises env ps) _ rest in
    let ih = build_promises-IsOutward env ps others q2 in
    ground (arith, q1, e, ih, string_eq.beq_iff p.receiver_id env.current_account_id)

module _ {P : Type 0} where
  -- Exactly the promises of a request are detached, in their order, none of them to the wallet.
  execute_request-promises :
      (env : Env) (s : State P) (r : Request) (actor : Actor) (x : Executed P)
      → execute_request env s r actor ≡ done x
      → (x.promises ≡ r.external) × IsOutward env.current_account_id x.promises
  unfolding execute_request
  execute_request-promises env s r actor x q =
      let (after, q1, rest) = bind-done (execute_ops s r.internal actor) _ q in
      let (promises, q2, e) = bind-done (build_promises env r.external) _ rest in
      let same : promises ≡ x.promises = cc in
      rw (← same) (build_promises-IsOutward env r.external promises q2)

  -- A call of an extension that succeeds came from an enabled extension with a deposit, ran the
  -- request on the wallet with its nonces cleaned up, and detached the promises of the request, none
  -- of them to the wallet.
  pub execute_extension-authorized :
      (env : Env) (s : State P) (r : Request) (x : Executed P)
      → execute_extension env s r ≡ done x
      → (has_extension s env.predecessor_account_id ≡ true)
        × (env.attached_deposit ≢ 0)
        × (execute_request env
              (with_nonces s (check_cleanup env.now s.nonces))
              r
              (extension env.predecessor_account_id)
            ≡ done x)
        × (x.promises ≡ r.external)
        × IsOutward env.current_account_id x.promises
  unfolding execute_extension
  execute_extension-authorized env s r x q =
      let (deposit, q1) = fail_if-done (nat_beq env.attached_deposit 0) insufficient_deposit _ q in
      let (enabled, q2) = fail_if-done (not (has_extension s env.predecessor_account_id)) _ _ q1 in
      ground (
        arith,
        deposit,
        enabled,
        q2,
        execute_request-promises env _ r _ x q2,
        nat_beq_iff env.attached_deposit 0,
      )

of_nonce-done : (r : Outcome NonceError Nonces) (n : Nonces) → of_nonce r ≡ done n → r ≡ done n
of_nonce-done (done m) n q = cc
of_nonce-done (failed why) n q = cc

module _ {P : Type 0} (verify : P → RequestMessage → String → Bool)
    (hash : RequestMessage → ℕ) where
  -- A signed message that is executed names this chain and this wallet, which allowed signatures; it
  -- has a proof that the schema accepts for the wallet's key, and a nonce that was committed for its
  -- time and timeout. Its request ran on the wallet with that nonce committed, and exactly the
  -- promises of the request were detached, none of them to the wallet.
  pub execute_signed-authorized :
      (env : Env) (s : State P) (msg : RequestMessage) (proof : String) (x : Executed P)
      → execute_signed verify hash env s msg proof ≡ done x
      → (is_signature_allowed s ≡ true)
        × (msg.chain_id ≡ env.chain_id)
        × (msg.signer_id ≡ env.current_account_id)
        × (verify s.public_key msg proof ≡ true)
        × (x.promises ≡ msg.request.external)
        × IsOutward env.current_account_id x.promises
        × (n : Nonces) × (commit env.now s.nonces msg.nonce msg.created_at msg.timeout ≡ done n)
        × (y : Executed P) × (execute_request env
              (with_nonces s n)
              msg.request
              (signed_request (hash msg))
            ≡ done y)
        × (x.state ≡ y.state)
  unfolding execute_signed execute_verified
  execute_signed-authorized env s msg proof x q =
      let (allowed, q1) = fail_if-done (not (is_signature_allowed s)) _ _ q in
      let (_, q2) = fail_if-done msg.pay_for_gas _ _ q1 in
      let (chain, q3) = fail_if-done (not (msg.chain_id == env.chain_id)) _ _ q2 in
      let (signer, q4) = fail_if-done (not (msg.signer_id == env.current_account_id)) _ _ q3 in
      let (n, c, q5) =
        bind-done (of_nonce (commit env.now s.nonces msg.nonce msg.created_at msg.timeout)) _ q4 in
      let (verified, q6) = fail_if-done (not (verify s.public_key msg proof)) _ _ q5 in
      let (y, q7, e) =
        bind-done (execute_request env (with_nonces s n) msg.request (signed_request (hash msg))) _
          q6 in
      let (all, outward) =
        execute_request-promises env (with_nonces s n) msg.request (signed_request (hash msg)) y
          q7 in
      let same_state : y.state ≡ x.state = cc in
      let same : y.promises ≡ x.promises = cc in
      (
        ground (arith, allowed),
        ground (arith, chain, string_eq.beq_iff msg.chain_id env.chain_id),
        ground (arith, signer, string_eq.beq_iff msg.signer_id env.current_account_id),
        ground (arith, verified),
        sym same ∙ all,
        rw (← same) outward,
        n,
        of_nonce-done (commit env.now s.nonces msg.nonce msg.created_at msg.timeout) n c,
        y,
        q7,
        sym same_state,
      )
