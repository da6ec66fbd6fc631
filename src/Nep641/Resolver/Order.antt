-- ===== src/Nep641/Resolver/Order.antt =====
-- What an authorization resolves to, and that the order of the answers does not matter.
use mathlib.Core.Path.{subst}
use intents.Prelude.{
  ap, ◌∙◌, none, ℕ, ◌+◌, ◌≡◌, ◌≤◌, ◌<◌, inl, inr, ◌↔◌, false, arith, String, some, [],
}
use intents.Prelude.Outcome.{Outcome-cases, done}
use intents.TokenId.{AccountId}
use intents.Nep641.Resolver.{
  Access, Single, Resolved, BlockReference, hash, ResolvedAuthorization, usize_max, top_level,
  is_too_deep, resolve_single, resolve_loop, resolve_auth,
}
use intents.Nep641.Resolver.Rounds.{started}
use intents.Nep641.Resolver.Answered.{
  IsShallow, all_awaited, Answers, AllAnswered, resolve_single-Answers, Answers-resolve_single,
  AllAnswered-AllResolved, AllResolved-AllAnswered, started-awaited, is_too_deep-IsShallow,
  IsShallow-is_too_deep,
}
use intents.Nep641.Resolver.Tree.{AllResolved, loop-resolves, resolves-loop}

module _ (resolve_access_key resolve_contract : Access) (max_sub_auths max_depth : ℕ)
    (at_block : BlockReference) (account_id : AccountId) (authorization : String) where
  -- The top-level authorization resolves to the payload, and all the tree of the sub-authorizations
  -- that it waits for resolves at its block, not too deep and not too many.
  IsTree : String → Type 0
  IsTree payload =
      (r : ResolvedAuthorization) × (resolve_single resolve_access_key resolve_contract
          (top_level at_block account_id authorization)
        ≡ done r)
      × (payload ≡ r.res.res.payload)
      × (is_too_deep max_depth r.rev_path r.res.res.pending ≡ false)
      × (n : ℕ) × AllResolved resolve_access_key resolve_contract max_sub_auths max_depth
          (hash r.res.block_hash)
          (started (hash r.res.block_hash) r.account_id r.rev_path r.res.res.pending) n
      × (n ≤ max_sub_auths)

  resolve_auth-IsTree :
      (schedule : ℕ → ℕ) (payload : String)
      → max_sub_auths < usize_max
      → (resolve_auth resolve_access_key resolve_contract max_sub_auths max_depth schedule at_block
            account_id authorization
          ≡ some (done payload))
        ↔ IsTree payload
  unfolding resolve_auth IsTree
  resolve_auth-IsTree schedule payload machine = (
    λ q.
        elim (Outcome-cases (
          resolve_single resolve_access_key resolve_contract
            (top_level at_block account_id authorization))) [
              | inl (why, f) ↦ let z = rw (f, resolve_auth) at q in cc
              | inr (r, f) ↦
                  let l : resolve_loop resolve_access_key resolve_contract max_sub_auths max_depth
                        schedule (max_sub_auths + 1) r.res.res.payload (hash r.res.block_hash) 0 []
                        r.account_id r.rev_path r.res.res.pending
                      ≡ some (done payload) =
                    rw (f, resolve_auth) at q in
                  let (same, fine, n, all, bound) =
                    loop-resolves resolve_access_key resolve_contract max_sub_auths max_depth
                      (hash r.res.block_hash) schedule machine (max_sub_auths + 1) r.res.res.payload
                      0 [] r.account_id r.rev_path r.res.res.pending payload l in
                  (r, f, same, fine, n, all, omega (arith, bound))
            ],
    λ t.
        let (r, f, same, fine, n, all, bound) = t in
        rw (f, same, resolve_auth)
          (resolves-loop resolve_access_key resolve_contract max_sub_auths max_depth
            (hash r.res.block_hash) schedule machine (max_sub_auths + 1) r.res.res.payload 0 []
            r.account_id r.rev_path r.res.res.pending n fine all (omega (arith, bound))
            (omega (arith, bound))),
  )

  -- What is asked first: no path, and no payload to expect.
  abbrev pub top : Single
  top = record {
    account_id = account_id;
    rev_path = [];
    authorization = authorization;
    expect = none;
    block = at_block;
  }

  -- The top-level authorization is answered with the payload, and so is, at the block of this answer,
  -- all the tree of the sub-authorizations that it waits for, not too deep and not too many.
  pub IsResolved : String → Type 0
  IsResolved payload =
      (r : Resolved) × Answers resolve_access_key resolve_contract top r
      × (payload ≡ r.res.payload)
      × IsShallow max_depth [] r.res.pending
      × (n : ℕ) × AllAnswered resolve_access_key resolve_contract max_sub_auths max_depth
          (hash r.block_hash) (all_awaited (hash r.block_hash) top r) n
      × (n ≤ max_sub_auths)

  IsTree-IsResolved : (payload : String) → IsTree payload → IsResolved payload
  unfolding IsTree IsResolved
  IsTree-IsResolved payload (a, q, same, fine, n, all, bound) =
      let (h, is) = resolve_single-Answers resolve_access_key resolve_contract top a q in
      let id = ap (λ (z : ResolvedAuthorization). z.account_id) is in
      let path = ap (λ (z : ResolvedAuthorization). z.rev_path) is in
      let shallow = is_too_deep-IsShallow max_depth a.rev_path a.res.res.pending fine in
      let block = hash a.res.block_hash in
      let waits : started block a.account_id a.rev_path a.res.res.pending
          ≡ all_awaited block top a.res =
        ap (λ z. started block z a.rev_path a.res.res.pending) id
        ∙ ap (λ z. started block account_id z a.res.res.pending) path
        ∙ started-awaited block account_id [] a.res.res.pending in
      let tree =
        AllResolved-AllAnswered resolve_access_key resolve_contract max_sub_auths max_depth block
          all in
      (
        a.res,
        h,
        same,
        subst (λ p. IsShallow max_depth p a.res.res.pending) path shallow,
        n,
        rw (← waits) tree,
        bound,
      )

  IsResolved-IsTree : (payload : String) → IsResolved payload → IsTree payload
  unfolding IsTree IsResolved
  IsResolved-IsTree payload (r, h, same, shallow, n, all, bound) = (
    record { account_id = account_id; rev_path = []; res = r },
    Answers-resolve_single resolve_access_key resolve_contract top r h,
    same,
    IsShallow-is_too_deep max_depth [] r.res.pending shallow,
    n,
    rw (started-awaited (hash r.block_hash) account_id [] r.res.pending) (
        AllAnswered-AllResolved resolve_access_key resolve_contract max_sub_auths max_depth
          (hash r.block_hash) all),
    bound,
  )

  -- Where the limit of sub-authorizations is below the largest `usize`: resolving returns a payload
  -- exactly when the authorization is resolved to it. That is, the account answers with this payload,
  -- by its access keys or else by its contract, and every authorization of the tree that it waits for
  -- is answered too, at the same block and with the payload it is expected to have; none waits for
  -- others at the maximal depth, and all together are no more than the limit. This holds whatever
  -- order the answers come in.
  pub resolve_auth_iff :
      (schedule : ℕ → ℕ) (payload : String)
      → max_sub_auths < usize_max
      → (resolve_auth resolve_access_key resolve_contract max_sub_auths max_depth schedule at_block
            account_id authorization
          ≡ some (done payload))
        ↔ IsResolved payload
  resolve_auth_iff schedule payload machine =
      let (there, back) = resolve_auth-IsTree schedule payload machine in
      (λ q. IsTree-IsResolved payload (there q), λ h. back (IsResolved-IsTree payload h))

  -- Whether an authorization is resolved, and to what payload, does not depend on the order in which
  -- the futures complete.
  resolve_auth-any_order :
      (schedule other : ℕ → ℕ) (payload : String)
      → max_sub_auths < usize_max
      → resolve_auth resolve_access_key resolve_contract max_sub_auths max_depth schedule at_block
          account_id authorization
        ≡ some (done payload)
      → resolve_auth resolve_access_key resolve_contract max_sub_auths max_depth other at_block
          account_id authorization
        ≡ some (done payload)
  resolve_auth-any_order schedule other payload machine q =
      (resolve_auth_iff other payload machine).1 ((resolve_auth_iff schedule payload machine).0 q)
