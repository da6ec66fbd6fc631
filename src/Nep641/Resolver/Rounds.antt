-- ===== src/Nep641/Resolver/Rounds.antt =====
-- One round of the resolver's loop, and how many rounds it takes.
use intents.Prelude.{
  ℕ, zero, suc, ◌+◌, ◌-◌, ◌≡◌, refl, ap, ◌∙◌, ◌≤◌, ◌<◌, ◌⊎◌, inl, inr, false, min, ltb, arith,
  String, Option, some, List, [], ◌∷◌, ◌++◌, map, length, length-append, Bool-cases,
}
use intents.Prelude.Outcome.{Outcome-cases, Outcome, done, failed}
use intents.TokenId.{AccountId}
use intents.Nep641.{PendingAuthorization}
use intents.Nep641.Resolver.{
  Access, hash, BlockReference, Single, ResolveError, ResolvedAuthorization, usize_max, top_level,
  is_too_deep, complete, resolve_single, sub_authorization, resolve_loop, resolve_auth, at,
  max_depth_exceeded, too_many_sub_authorizations,
}

pub List-cases {ℓ} : {A : Type ℓ} (l : List A) → (l ≡ []) ⊎ ((x : A) × (xs : List A) × (l ≡ x ∷ xs))
List-cases [] = inl refl
List-cases (x ∷ xs) = inr (x, xs, refl)

pub length-complete {ℓ} :
    {A : Type ℓ} (n : ℕ) (t : A) (ts : List A) → length (complete n t ts).1 ≡ length ts
unfolding complete
length-complete zero t ts = refl
length-complete (suc n) t [] = refl
length-complete (suc n) t (u ∷ ts) = ap suc (length-complete n u ts)

pub length-map {ℓ κ} :
    {A : Type ℓ} {B : Type κ} (f : A → B) (l : List A) → length (map f l) ≡ length l
length-map f [] = refl
length-map f (x ∷ l) = ap suc (length-map f l)

-- What a round puts in flight.
abbrev pub started :
    BlockReference → AccountId → List AccountId → List PendingAuthorization → List Single
started block account_id rev_path pending =
    map (sub_authorization (rev_path ++ account_id ∷ []) block) pending

module _ (resolve_access_key resolve_contract : Access) (max_sub_auths max_depth : ℕ)
    (schedule : ℕ → ℕ) (rounds : ℕ) (payload : String) (block : BlockReference) (sub_count : ℕ)
    (in_flight : List Single) (account_id : AccountId) (rev_path : List AccountId)
    (pending : List PendingAuthorization) where
  abbrev loop : Option (Outcome ResolveError String)
  loop =
      resolve_loop resolve_access_key resolve_contract max_sub_auths max_depth schedule (suc rounds)
        payload block sub_count in_flight account_id rev_path pending

  -- A round fails, or it is within the limits, and either nothing is in flight or one of the futures
  -- has resolved.
  pub loop-cases :
      ((why : ResolveError) × (loop ≡ some (failed why)))
      ⊎ (is_too_deep max_depth rev_path pending ≡ false)
        × (ltb max_sub_auths (min usize_max (sub_count + length pending)) ≡ false)
        × (((in_flight ++ started block account_id rev_path pending ≡ [])
              × (loop ≡ some (done payload)))
            ⊎ ((t : Single) × (ts : List Single) × (r : ResolvedAuthorization) × (in_flight
                    ++ started block account_id rev_path pending
                  ≡ t ∷ ts)
                × (resolve_single resolve_access_key resolve_contract
                      (complete (schedule rounds) t ts).0
                    ≡ done r)
                × (loop
                    ≡ resolve_loop resolve_access_key resolve_contract max_sub_auths max_depth
                        schedule rounds payload block
                        (min usize_max (sub_count + length pending))
                        (complete (schedule rounds) t ts).1
                        r.account_id
                        r.rev_path
                        r.res.res.pending)))
  unfolding resolve_loop
  loop-cases = elim (Bool-cases (is_too_deep max_depth rev_path pending)) [
    | inl deep ↦
        inl (at (max_depth_exceeded max_depth) account_id rev_path, rw (deep, resolve_loop) refl)
    | inr ok ↦ elim (Bool-cases (ltb max_sub_auths (min usize_max (sub_count + length pending)))) [
      | inl over ↦ inl (
        at (too_many_sub_authorizations max_sub_auths) account_id rev_path,
        rw (ok, over, resolve_loop) refl,
      )
      | inr few ↦ elim (List-cases (in_flight ++ started block account_id rev_path pending)) [
        | inl e ↦ inr (ok, few, inl (e, rw (ok, few, e, resolve_loop) refl))
        | inr (t, ts, e) ↦
            elim (Outcome-cases (
              resolve_single resolve_access_key resolve_contract
                (complete (schedule rounds) t ts).0)) [
                  | inl (why, f) ↦ inl (why, rw (ok, few, e, f, resolve_loop) refl)
                  | inr (r, f) ↦
                      inr (ok, few, inr (t, ts, r, e, f, rw (ok, few, e, f, resolve_loop) refl))
                ]
      ]
    ]
  ]

-- The futures of a round, counted.
pub length-round :
    (block : BlockReference) (in_flight : List Single) (account_id : AccountId)
    (rev_path : List AccountId) (pending : List PendingAuthorization) (t : Single)
    (ts : List Single)
    → in_flight ++ started block account_id rev_path pending ≡ t ∷ ts
    → length in_flight + length pending ≡ suc (length ts)
length-round block in_flight account_id rev_path pending t ts e = omega (
  arith,
  length-append in_flight (started block account_id rev_path pending),
  length-map (sub_authorization (rev_path ++ account_id ∷ []) block) pending,
  ap (λ (l : List Single). length l) e,
)

-- Within the limit, the count is exact.
pub count-exact :
    (m n len : ℕ)
    → m < usize_max
    → ltb m (min usize_max (n + len)) ≡ false
    → (min usize_max (n + len) ≡ n + len) × (n + len ≤ m)
count-exact m n len h q = ground (arith, q)

module _ (resolve_access_key resolve_contract : Access) (max_sub_auths max_depth : ℕ)
    (schedule : ℕ → ℕ) (machine : max_sub_auths < usize_max) where
  resolve_loop-returns :
      (rounds : ℕ) (payload : String) (block : BlockReference) (sub_count : ℕ)
      (in_flight : List Single) (account_id : AccountId) (rev_path : List AccountId)
      (pending : List PendingAuthorization)
      → sub_count ≤ max_sub_auths
      → max_sub_auths - sub_count + length in_flight + 1 ≤ rounds
      → (r : Outcome ResolveError String) × (resolve_loop resolve_access_key resolve_contract
            max_sub_auths max_depth schedule rounds payload block sub_count in_flight account_id
            rev_path pending
          ≡ some r)
  resolve_loop-returns zero payload block sub_count in_flight account_id rev_path pending h g =
      absurd (omega (arith, g))
  resolve_loop-returns (suc rounds) payload block sub_count in_flight account_id rev_path pending h
        g =
      elim (loop-cases resolve_access_key resolve_contract max_sub_auths max_depth schedule rounds
        payload block sub_count in_flight account_id rev_path pending) [
          | inl (why, q) ↦ (failed why, q)
          | inr (_, few, inl (_, q)) ↦ (done payload, q)
          | inr (_, few, inr (t, ts, r, e, _, q)) ↦
              let (count, bound) =
                count-exact max_sub_auths sub_count (length pending) machine few in
              let size : length in_flight + length pending ≡ suc (length ts) =
                length-round block in_flight account_id rev_path pending t ts e in
              let left = length-complete (schedule rounds) t ts in
              let (o, ih) =
                resolve_loop-returns rounds payload block
                  (min usize_max (sub_count + length pending)) (complete (schedule rounds) t ts).1
                  r.account_id r.rev_path r.res.res.pending (omega (arith, count, bound))
                  (omega (arith, count, bound, size, left, g)) in
              (o, q ∙ ih)
        ]

  -- Where the limit of sub-authorizations is below the largest `usize`, whatever the accounts answer
  -- and in whatever order the futures complete, resolving ends, with a payload or an error: a round
  -- for each sub-authorization that may be resolved, and one to see that none is left, are enough.
  pub resolve_auth-returns :
      (at_block : BlockReference) (account_id : AccountId) (authorization : String)
      → (r : Outcome ResolveError String) × (resolve_auth resolve_access_key resolve_contract
            max_sub_auths max_depth schedule at_block account_id authorization
          ≡ some r)
  unfolding resolve_auth
  resolve_auth-returns at_block account_id authorization =
      let top = top_level at_block account_id authorization in
      elim (Outcome-cases (resolve_single resolve_access_key resolve_contract top)) [
        | inl (why, f) ↦ (failed why, rw (f, resolve_auth) refl)
        | inr (r, f) ↦
            let (o, q) =
              resolve_loop-returns (max_sub_auths + 1) r.res.res.payload (hash r.res.block_hash) 0
                [] r.account_id r.rev_path r.res.res.pending (omega arith) (omega arith) in
            (o, rw (f, resolve_auth) q)
      ]
