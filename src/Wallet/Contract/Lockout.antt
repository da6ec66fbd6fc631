-- ===== src/Wallet/Contract/Lockout.antt =====
-- What the operations of a request leave behind.
use intents.Prelude.{false, ◌≡◌, refl, ◌∙◌, ◌⊎◌, inl, inr, List, [], ◌∷◌, arith, string_eq}
use intents.Prelude.Outcome.{done, bind-done}
use intents.MapUtils.{is_empty, insert}
use intents.TokenId.{AccountId}
use intents.Wallet.Requests.{
  WalletOp, WalletEvent, Actor, Request, set_signature_mode, add_extension, remove_extension,
}
use intents.Wallet.Contract.{
  State, Env, Executed, is_locked_out, execute_op, execute_ops, execute_request, build_promises,
  Accounts,
}

-- The part of the state that no operation touches.
pub record IsSameWallet {P : Type 0} (s t : State P) : Type 0 where
  pub same_subwallet : t.subwallet_id ≡ s.subwallet_id
  pub same_key : t.public_key ≡ s.public_key
  pub same_nonces : t.nonces ≡ s.nonces

insert-not_empty : (m : Accounts) (id : AccountId) → is_empty (insert m id tt) ≡ false
unfolding insert
insert-not_empty [] id = refl
insert-not_empty ((k, v) ∷ m) id = ground arith

module _ {P : Type 0} where
  execute_op-open :
      (s t : State P) (op : WalletOp) (actor : Actor) (e : WalletEvent)
      → execute_op s op actor ≡ done (t, e)
      → is_locked_out t ≡ false
  unfolding execute_op
  execute_op-open s t (set_signature_mode enable) actor e q = ground arith
  execute_op-open s t (add_extension id) actor e q =
      ground (arith, insert-not_empty s.extensions id)
  execute_op-open s t (remove_extension id) actor e q = ground arith

  execute_op-IsSameWallet :
      (s t : State P) (op : WalletOp) (actor : Actor) (e : WalletEvent)
      → execute_op s op actor ≡ done (t, e)
      → IsSameWallet s t
  unfolding execute_op
  execute_op-IsSameWallet s t (set_signature_mode enable) actor e q = ground arith
  execute_op-IsSameWallet s t (add_extension id) actor e q = ground (arith)
  execute_op-IsSameWallet s t (remove_extension id) actor e q = ground arith

  execute_ops-open :
      (s t : State P) (ops : List WalletOp) (actor : Actor) (es : List WalletEvent)
      → execute_ops s ops actor ≡ done (t, es)
      → (t ≡ s) ⊎ (is_locked_out t ≡ false)
  unfolding execute_ops
  execute_ops-open s t [] actor es q = inl (cc)
  execute_ops-open s t (op ∷ ops) actor es q =
      let (first, q1, rest) = bind-done (execute_op s op actor) _ q in
      let (last, q2, e) = bind-done (execute_ops first.0 ops actor) _ rest in
      let here = execute_op-open s first.0 op actor first.1 q1 in
      elim (execute_ops-open first.0 last.0 ops actor last.1 q2) [
        | inl same ↦ inr (let e : first.0 ≡ t = cc in rw (← e) here)
        | inr kept ↦ inr (let e : last.0 ≡ t = cc in rw (← e) kept)
      ]

  execute_ops-IsSameWallet :
      (s t : State P) (ops : List WalletOp) (actor : Actor) (es : List WalletEvent)
      → execute_ops s ops actor ≡ done (t, es)
      → IsSameWallet s t
  unfolding execute_ops
  execute_ops-IsSameWallet s t [] actor es q =
      let e : t ≡ s = cc in
      rw e (record { same_subwallet = refl; same_key = refl; same_nonces = refl })
  execute_ops-IsSameWallet s t (op ∷ ops) actor es q =
      let (first, q1, rest) = bind-done (execute_op s op actor) _ q in
      let (last, q2, e) = bind-done (execute_ops first.0 ops actor) _ rest in
      let a = execute_op-IsSameWallet s first.0 op actor first.1 q1 in
      let b = execute_ops-IsSameWallet first.0 last.0 ops actor last.1 q2 in
      let same : last.0 ≡ t = cc in
      rw (← same) (record {
        same_subwallet = b.same_subwallet ∙ a.same_subwallet;
        same_key = b.same_key ∙ a.same_key;
        same_nonces = b.same_nonces ∙ a.same_nonces;
      })

  -- A request that is executed leaves the state as it is, or leaves it with a signature or an extension;
  -- the subwallet id, the key and the nonces stay.
  pub execute_request_lem :
      (env : Env) (s : State P) (r : Request) (actor : Actor) (x : Executed P)
      → execute_request env s r actor ≡ done x
      → ((x.state ≡ s) ⊎ (is_locked_out x.state ≡ false)) × IsSameWallet s x.state
  unfolding execute_request
  execute_request_lem env s r actor x q =
      let (after, q1, rest) = bind-done (execute_ops s r.internal actor) _ q in
      let (promises, q2, e) = bind-done (build_promises env r.external) _ rest in
      let same : after.0 ≡ x.state = cc in
      rw (← same) (
        execute_ops-open s after.0 r.internal actor after.1 q1,
        execute_ops-IsSameWallet s after.0 r.internal actor after.1 q1,
      )
