-- ===== src/Nep641/Resolver.antt =====
-- crates/signatures/nep641/src/resolver/mod.rs: `RpcResolver`, which resolves an authorization and
-- then all the sub-authorizations that it waits for.
-- The two ways to ask an account, by its access keys and by its contract, call a node over RPC and
-- are parameters. The futures in flight complete in any order: `schedule` says, for each round,
-- which of them is next. The rounds are counted down from a bound that Resolver/Rounds shows to be
-- enough.
pub mod Rounds
pub mod Tree
pub mod Answered
pub mod Order
use intents.Prelude.{
  ℕ, zero, suc, ◌+◌, ◌-◌, ◌^◌, min, ltb, leb, ◌&&◌, not, Bool, true, false, nat_beq, String, Option,
  none, some, List, [], ◌∷◌, ◌++◌, map, length, ◌==◌, string_eq,
}
use intents.Prelude.Outcome.{Outcome, done, failed, ◌>>?◌, fail_if}
use intents.TokenId.{AccountId}
use intents.Nep641.{AuthorizationResolution, PendingAuthorization}

abbrev pub usize_max : ℕ
usize_max = 2 ^ 64 - 1

-- A block by its hash or its height, or the last final one.
pub data BlockReference : Type 0 where
  finality : BlockReference
  hash height : ℕ → BlockReference

-- The errors, the texts that some of them carry left out.
pub data ResolveErrorKind : Type 0 where
  access_key contract json rpc : ResolveErrorKind
  invalid_payload : (payload expected : String) → ResolveErrorKind
  max_depth_exceeded too_many_sub_authorizations : ℕ → ResolveErrorKind

pub record ResolveError : Type 0 where
  pub account_id : AccountId
  pub rev_path : List AccountId
  pub kind : ResolveErrorKind

unfoldable pub at : ResolveErrorKind → AccountId → List AccountId → ResolveError
at kind account_id rev_path = record { account_id = account_id; rev_path = rev_path; kind = kind }

pub record Resolved : Type 0 where
  pub res : AuthorizationResolution
  pub block_hash : ℕ
  pub block_height : ℕ

pub record ResolvedAuthorization : Type 0 where
  pub account_id : AccountId
  pub rev_path : List AccountId
  pub res : Resolved

-- The arguments of `resolve_single`, which a future in flight holds.
pub record Single : Type 0 where
  pub account_id : AccountId
  pub rev_path : List AccountId
  pub authorization : String
  pub expect : Option String
  pub block : BlockReference

-- The error of an account without the access key yields to that of its contract only if the
-- contract resolves.
unfoldable pub either_way :
    Outcome ResolveErrorKind Resolved
    → Outcome ResolveErrorKind Resolved
    → Outcome ResolveErrorKind Resolved
either_way (done r) _ = done r
either_way (failed access_key) (failed _) = failed access_key
either_way (failed _) second = second

unfoldable pub is_other_block : BlockReference → Resolved → Bool
is_other_block finality _ = false
is_other_block (hash h) r = not (nat_beq r.block_hash h)
is_other_block (height h) r = not (nat_beq r.block_height h)

unfoldable pub check_payload : Option String → Resolved → Outcome ResolveErrorKind Resolved
check_payload none r = done r
check_payload (some expected) r =
    fail_if (not (expected == r.res.payload)) (invalid_payload r.res.payload expected) (done r)

-- The future that completes next, and the others.
unfoldable pub complete {ℓ} : {A : Type ℓ} → ℕ → A → List A → A × List A
complete zero t ts = (t, ts)
complete (suc n) t [] = (t, [])
complete (suc n) t (u ∷ ts) = let (v, vs) = complete n u ts in (v, t ∷ vs)

-- `pending` as futures, with the path extended by the account that waits for them.
unfoldable pub sub_authorization : List AccountId → BlockReference → PendingAuthorization → Single
sub_authorization rev_path block p = record {
  account_id = p.account_id;
  rev_path = rev_path;
  authorization = p.authorization;
  expect = some p.expect;
  block = block;
}

-- The top-level authorization: no path, and no payload to expect.
abbrev pub top_level : BlockReference → AccountId → String → Single
top_level at_block account_id authorization = record {
  account_id = account_id;
  rev_path = [];
  authorization = authorization;
  expect = none;
  block = at_block;
}

-- `!pending.is_empty() && rev_path.len() >= self.max_depth`
unfoldable pub is_too_deep : ℕ → List AccountId → List PendingAuthorization → Bool
is_too_deep max_depth rev_path [] = false
is_too_deep max_depth rev_path (_ ∷ _) = leb max_depth (length rev_path)

-- An access to an account: `resolve_access_key` or `resolve_contract`.
abbrev pub Access : Type 0
Access = AccountId → List AccountId → String → BlockReference → Outcome ResolveErrorKind Resolved

module _ (resolve_access_key resolve_contract : Access) where
  unfoldable pub do_resolve_single : Single → Outcome ResolveErrorKind Resolved
  unfolding either_way is_other_block check_payload
  do_resolve_single s =
      either_way (resolve_access_key s.account_id s.rev_path s.authorization s.block)
        (resolve_contract s.account_id s.rev_path s.authorization s.block)
      >>? λ r. fail_if (is_other_block s.block r) rpc (check_payload s.expect r)

  unfoldable pub resolve_single : Single → Outcome ResolveError ResolvedAuthorization
  unfolding do_resolve_single at
  resolve_single s = elim (do_resolve_single s) [
    | done r ↦ done (record { account_id = s.account_id; rev_path = s.rev_path; res = r })
    | failed why ↦ failed (at why s.account_id s.rev_path)
  ]

  module _ (max_sub_auths max_depth : ℕ) (schedule : ℕ → ℕ) where
    -- The loop: the top-level payload and block stay, the rest is what the last future to complete
    -- resolved to. `none` is a bound that was too small.
    unfoldable pub resolve_loop :
        (rounds : ℕ) (payload : String) (block : BlockReference) (sub_count : ℕ)
        (in_flight : List Single) (account_id : AccountId) (rev_path : List AccountId)
        (pending : List PendingAuthorization)
        → Option (Outcome ResolveError String)
    unfolding resolve_single at sub_authorization complete
    resolve_loop zero payload block sub_count in_flight account_id rev_path pending = none
    resolve_loop (suc rounds) payload block sub_count in_flight account_id rev_path pending =
        let count = min usize_max (sub_count + length pending) in
        let started = map (sub_authorization (rev_path ++ account_id ∷ []) block) pending in
        elim (is_too_deep max_depth rev_path pending) [
          | true ↦ some (failed (at (max_depth_exceeded max_depth) account_id rev_path))
          | false ↦ elim (ltb max_sub_auths count) [
            | true ↦
                some (failed (at (too_many_sub_authorizations max_sub_auths) account_id rev_path))
            | false ↦ elim (in_flight ++ started) [
              | [] ↦ some (done payload)
              | t ∷ ts ↦
                  let next = complete (schedule rounds) t ts in
                  elim (resolve_single next.0) [
                    | failed why ↦ some (failed why)
                    | done r ↦
                        resolve_loop rounds payload block count next.1 r.account_id r.rev_path
                          r.res.res.pending
                  ]
            ]
          ]
        ]

    -- A round for each sub-authorization and one to see that none is left are enough.
    unfoldable pub resolve_auth :
        (at_block : BlockReference) (account_id : AccountId) (authorization : String)
        → Option (Outcome ResolveError String)
    unfolding resolve_loop
    resolve_auth at_block account_id authorization =
        elim (resolve_single (top_level at_block account_id authorization)) [
          | failed why ↦ some (failed why)
          | done r ↦
              resolve_loop (max_sub_auths + 1) r.res.res.payload (hash r.res.block_hash) 0 []
                r.account_id r.rev_path r.res.res.pending
        ]
