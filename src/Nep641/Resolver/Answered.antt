-- ===== src/Nep641/Resolver/Answered.antt =====
-- What it takes for a tree of authorizations to be resolved, said of the answers of its accounts.
use intents.Prelude.{
  ℕ, suc, ◌+◌, ◌≡◌, refl, sym, ap, ◌∙◌, ◌<◌, ◌⊎◌, inl, inr, true, false, not, String, Option, none,
  some, List, [], ◌∷◌, ◌++◌, map, length, arith, nat_beq_iff, ◌==◌, string_eq,
}
use intents.Prelude.Outcome.{
  Outcome, done, failed, bind-done, done-injective, fail_if-done, Outcome-cases,
}
use intents.TokenId.{AccountId}
use intents.Nep641.{PendingAuthorization}
use intents.Nep641.Resolver.{
  Access, BlockReference, finality, hash, height, Single, Resolved, ResolvedAuthorization,
  ResolveErrorKind, access_key, contract, json, rpc, invalid_payload, max_depth_exceeded,
  too_many_sub_authorizations, either_way, is_other_block, check_payload, do_resolve_single,
  resolve_single, is_too_deep, sub_authorization,
}
use intents.Nep641.Resolver.Rounds.{started}
use intents.Nep641.Resolver.Tree.{AllResolved, none_left, one_resolved}

-- The block that is asked for, and the payload that is expected, if any.
abbrev pub AtBlock : BlockReference → Resolved → Type 0
AtBlock finality r = Unit
AtBlock (hash h) r = r.block_hash ≡ h
AtBlock (height h) r = r.block_height ≡ h

abbrev pub Expected : Option String → (payload : String) → Type 0
Expected none payload = Unit
Expected (some expected) payload = payload ≡ expected

-- An authorization that waits for others stands above the maximal depth.
abbrev pub IsShallow : (max_depth : ℕ) → List AccountId → List PendingAuthorization → Type 0
IsShallow max_depth rev_path pending = (pending ≡ []) ⊎ (length rev_path < max_depth)

-- What an account that waits for another asks of it, at a block.
abbrev pub awaited : BlockReference → List AccountId → PendingAuthorization → Single
awaited block path p = record {
  account_id = p.account_id;
  rev_path = path;
  authorization = p.authorization;
  expect = some p.expect;
  block = block;
}

abbrev pub all_awaited : BlockReference → Single → Resolved → List Single
all_awaited block s r = map (awaited block (s.rev_path ++ s.account_id ∷ [])) r.res.pending

is_other_block_iff : (b : BlockReference) (r : Resolved) → is_other_block b r ≡ false → AtBlock b r
unfolding is_other_block
is_other_block_iff finality r h = tt
is_other_block_iff (hash h) r q = ground (arith, nat_beq_iff r.block_hash h)
is_other_block_iff (height h) r q = ground (arith, nat_beq_iff r.block_height h)

AtBlock-is_other_block :
    (b : BlockReference) (r : Resolved) → AtBlock b r → is_other_block b r ≡ false
unfolding is_other_block
AtBlock-is_other_block finality r h = refl
AtBlock-is_other_block (hash h) r q = ground (arith, nat_beq_iff r.block_hash h)
AtBlock-is_other_block (height h) r q = ground (arith, nat_beq_iff r.block_height h)

check_payload-Expected :
    (e : Option String) (r a : Resolved)
    → check_payload e r ≡ done a
    → (r ≡ a) × Expected e r.res.payload
unfolding check_payload
check_payload-Expected none r a q = (done-injective r a q, tt)
check_payload-Expected (some e) r a q =
    let (same, d) = fail_if-done (not (e == r.res.payload)) _ (done r) q in
    (done-injective r a d, ground (arith, same, string_eq.beq_iff e r.res.payload))

Expected-check_payload :
    (e : Option String) (r : Resolved) → Expected e r.res.payload → check_payload e r ≡ done r
unfolding check_payload
Expected-check_payload none r h = refl
Expected-check_payload (some e) r h =
    let same : (e == r.res.payload) ≡ true = (string_eq.beq_iff e r.res.payload).1 (sym h) in
    rw same refl

-- Of the two accesses to the account one has answered.
abbrev pub EitherWay : (first second : Outcome ResolveErrorKind Resolved) → Resolved → Type 0
EitherWay first second r =
    (first ≡ done r) ⊎ ((why : ResolveErrorKind) × (first ≡ failed why) × (second ≡ done r))

either_way-EitherWay :
    (first second : Outcome ResolveErrorKind Resolved) (r : Resolved)
    → either_way first second ≡ done r
    → EitherWay first second r
unfolding either_way
either_way-EitherWay (done a) second r q = inl q
either_way-EitherWay (failed access_key) (failed _) r q = cc
either_way-EitherWay (failed access_key) (done a) r q = inr (access_key, refl, q)
either_way-EitherWay (failed contract) second r q = inr (contract, refl, q)
either_way-EitherWay (failed json) second r q = inr (json, refl, q)
either_way-EitherWay (failed rpc) second r q = inr (rpc, refl, q)
either_way-EitherWay (failed (invalid_payload x y)) second r q = inr (invalid_payload x y, refl, q)
either_way-EitherWay (failed (max_depth_exceeded n)) second r q =
    inr (max_depth_exceeded n, refl, q)
either_way-EitherWay (failed (too_many_sub_authorizations n)) second r q =
    inr (too_many_sub_authorizations n, refl, q)

second_way : (why : ResolveErrorKind) (r : Resolved) → either_way (failed why) (done r) ≡ done r
unfolding either_way
second_way access_key r = refl
second_way contract r = refl
second_way json r = refl
second_way rpc r = refl
second_way (invalid_payload x y) r = refl
second_way (max_depth_exceeded n) r = refl
second_way (too_many_sub_authorizations n) r = refl

EitherWay-either_way :
    (first second : Outcome ResolveErrorKind Resolved) (r : Resolved)
    → EitherWay first second r
    → either_way first second ≡ done r
unfolding either_way
EitherWay-either_way first second r (inl q) = rw (q, either_way) refl
EitherWay-either_way first second r (inr (why, f, q)) = rw (f, q) (second_way why r)

pub is_too_deep-IsShallow :
    (max_depth : ℕ) (path : List AccountId) (pending : List PendingAuthorization)
    → is_too_deep max_depth path pending ≡ false
    → IsShallow max_depth path pending
unfolding is_too_deep
is_too_deep-IsShallow max_depth path [] q = inl refl
is_too_deep-IsShallow max_depth path (p ∷ ps) q = inr (ground arith)

pub IsShallow-is_too_deep :
    (max_depth : ℕ) (path : List AccountId) (pending : List PendingAuthorization)
    → IsShallow max_depth path pending
    → is_too_deep max_depth path pending ≡ false
unfolding is_too_deep
IsShallow-is_too_deep max_depth path [] h = refl
IsShallow-is_too_deep max_depth path (p ∷ ps) (inl e) = cc
IsShallow-is_too_deep max_depth path (p ∷ ps) (inr h) = ground arith

pub started-awaited :
    (block : BlockReference) (id : AccountId) (path : List AccountId)
    (pending : List PendingAuthorization)
    → started block id path pending ≡ map (awaited block (path ++ id ∷ [])) pending
unfolding sub_authorization
started-awaited block id path pending = refl

module _ (resolve_access_key resolve_contract : Access) where
  -- The account answers what is asked of it: by its access keys, or if these fail by its contract;
  -- at the block, and with the payload that is expected.
  abbrev pub Answers : Single → Resolved → Type 0
  Answers s r =
      EitherWay (resolve_access_key s.account_id s.rev_path s.authorization s.block)
        (resolve_contract s.account_id s.rev_path s.authorization s.block) r
      × AtBlock s.block r
      × Expected s.expect r.res.payload

  do_resolve_single-Answers :
      (s : Single) (r : Resolved)
      → do_resolve_single resolve_access_key resolve_contract s ≡ done r
      → Answers s r
  unfolding do_resolve_single
  do_resolve_single-Answers s r q =
      let first = resolve_access_key s.account_id s.rev_path s.authorization s.block in
      let second = resolve_contract s.account_id s.rev_path s.authorization s.block in
      let (x, way, q1) = bind-done (either_way first second) _ q in
      let (fine, q2) = fail_if-done (is_other_block s.block x) rpc _ q1 in
      let (same, expected) = check_payload-Expected s.expect x r q2 in
      rw (← same)
        (either_way-EitherWay first second x way, is_other_block_iff s.block x fine, expected)

  Answers-do_resolve_single :
      (s : Single) (r : Resolved)
      → Answers s r
      → do_resolve_single resolve_access_key resolve_contract s ≡ done r
  unfolding do_resolve_single
  Answers-do_resolve_single s r (way, fine, expected) =
      rw (EitherWay-either_way _ _ r way, do_resolve_single)
        (rw (AtBlock-is_other_block s.block r fine, do_resolve_single)
          (Expected-check_payload s.expect r expected))

  -- What resolves is the answer of the account, at its path.
  pub resolve_single-Answers :
      (s : Single) (a : ResolvedAuthorization)
      → resolve_single resolve_access_key resolve_contract s ≡ done a
      → Answers s a.res
        × (a ≡ record { account_id = s.account_id; rev_path = s.rev_path; res = a.res })
  unfolding resolve_single
  resolve_single-Answers s a q =
      elim (Outcome-cases (do_resolve_single resolve_access_key resolve_contract s)) [
        | inl (why, f) ↦ let z = rw (f, resolve_single) at q in cc
        | inr (r, f) ↦
            let same : record { account_id = s.account_id; rev_path = s.rev_path; res = r } ≡ a =
              done-injective _ _ (rw (f, resolve_single) at q) in
            rw (← same) (do_resolve_single-Answers s r f, refl)
      ]

  pub Answers-resolve_single :
      (s : Single) (r : Resolved)
      → Answers s r
      → resolve_single resolve_access_key resolve_contract s
        ≡ done (record { account_id = s.account_id; rev_path = s.rev_path; res = r })
  unfolding resolve_single
  Answers-resolve_single s r h = rw (Answers-do_resolve_single s r h, resolve_single) refl

  module _ (max_sub_auths max_depth : ℕ) (block : BlockReference) where
    -- Each of the authorizations is answered, not too deep, and so are those that it waits for, at
    -- this block and with the payloads that it expects; the number counts them all.
    pub data AllAnswered : List Single → ℕ → Type 0 where
      none_awaited : AllAnswered [] 0
      one_answered :
          (s : Single) (ss : List Single) (r : Resolved) (n m : ℕ)
          → Answers s r
          → IsShallow max_depth s.rev_path r.res.pending
          → AllAnswered (all_awaited block s r) n
          → AllAnswered ss m
          → AllAnswered (s ∷ ss) (suc (n + m))

    pub AllAnswered-AllResolved :
        {l : List Single} {n : ℕ}
        → AllAnswered l n
        → AllResolved resolve_access_key resolve_contract max_sub_auths max_depth block l n
    AllAnswered-AllResolved none_awaited = none_left
    AllAnswered-AllResolved (one_answered s ss r a b h d below rest) =
        one_resolved s ss (record { account_id = s.account_id; rev_path = s.rev_path; res = r }) a b
          (Answers-resolve_single s r h)
          (IsShallow-is_too_deep max_depth s.rev_path r.res.pending d)
          (rw (started-awaited block s.account_id s.rev_path r.res.pending)
            (AllAnswered-AllResolved below))
          (AllAnswered-AllResolved rest)

    pub AllResolved-AllAnswered :
        {l : List Single} {n : ℕ}
        → AllResolved resolve_access_key resolve_contract max_sub_auths max_depth block l n
        → AllAnswered l n
    AllResolved-AllAnswered none_left = none_awaited
    AllResolved-AllAnswered (one_resolved s ss a x y q d below rest) =
        let (h, same) = resolve_single-Answers s a q in
        let id = ap (λ (z : ResolvedAuthorization). z.account_id) same in
        let path = ap (λ (z : ResolvedAuthorization). z.rev_path) same in
        let waits : started block a.account_id a.rev_path a.res.res.pending
            ≡ all_awaited block s a.res =
          ap (λ z. started block z a.rev_path a.res.res.pending) id
          ∙ ap (λ z. started block s.account_id z a.res.res.pending) path
          ∙ started-awaited block s.account_id s.rev_path a.res.res.pending in
        let all = AllResolved-AllAnswered below in
        let shallow = is_too_deep-IsShallow max_depth a.rev_path a.res.res.pending d in
        one_answered s ss a.res x y h (rw (← path) shallow) (rw (← waits) all)
          (AllResolved-AllAnswered rest)
