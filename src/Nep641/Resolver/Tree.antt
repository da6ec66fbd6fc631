-- ===== src/Nep641/Resolver/Tree.antt =====
-- What it means that an authorization is resolved: all of the tree of its sub-authorizations is.
use intents.Prelude.{
  ℕ, zero, suc, ◌+◌, ◌≡◌, refl, sym, ◌∙◌, ◌≤◌, ◌<◌, inl, inr, false, min, ltb, arith, String, some,
  List, [], ◌∷◌, ◌++◌, length, length-append,
}
use intents.Prelude.Outcome.{done}
use intents.TokenId.{AccountId}
use intents.Nep641.{PendingAuthorization}
use intents.Nep641.Resolver.{
  Access, BlockReference, Single, ResolvedAuthorization, usize_max, is_too_deep, complete,
  resolve_single, resolve_loop, sub_authorization,
}
use intents.Nep641.Resolver.Rounds.{
  List-cases, started, loop-cases, count-exact, length-complete, length-map, length-round,
}

module _ (resolve_access_key resolve_contract : Access) (max_sub_auths max_depth : ℕ)
    (block : BlockReference) where
  -- Each of the authorizations resolves, not too deep, and so do those that it waits for, at this
  -- block and with the payloads that it expects; the number counts them all.
  pub data AllResolved : List Single → ℕ → Type 0 where
    none_left : AllResolved [] 0
    one_resolved :
        (t : Single) (ts : List Single) (r : ResolvedAuthorization) (n m : ℕ)
        → resolve_single resolve_access_key resolve_contract t ≡ done r
        → is_too_deep max_depth r.rev_path r.res.res.pending ≡ false
        → AllResolved (started block r.account_id r.rev_path r.res.res.pending) n
        → AllResolved ts m
        → AllResolved (t ∷ ts) (suc (n + m))

  resize : (l : List Single) (n m : ℕ) → AllResolved l n → n ≡ m → AllResolved l m
  resize l n m h e = rw (← e) h

  first_resolved :
      (t : Single) (ts : List Single) (n : ℕ)
      → AllResolved (t ∷ ts) n
      → (r : ResolvedAuthorization) × (a b : ℕ) × (resolve_single resolve_access_key
            resolve_contract t
          ≡ done r)
        × (is_too_deep max_depth r.rev_path r.res.res.pending ≡ false)
        × AllResolved (started block r.account_id r.rev_path r.res.res.pending) a
        × AllResolved ts b
        × (suc (a + b) ≡ n)
  first_resolved t ts n (one_resolved _ _ r a b q d c rest) = (r, a, b, q, d, c, rest, refl)

  swap :
      (t u : Single) (ts : List Single) (n : ℕ)
      → AllResolved (t ∷ u ∷ ts) n
      → AllResolved (u ∷ t ∷ ts) n
  swap t u ts n (one_resolved _ _ r a b q d c (one_resolved _ _ r' a' b' q' d' c' rest)) =
      resize _ _ _
        (one_resolved u (t ∷ ts) r' a' (suc (a + b')) q' d' c'
          (one_resolved t ts r a b' q d c rest))
        (omega arith)

  -- The sub-authorizations can be taken in any order.
  complete-AllResolved :
      (k : ℕ) (t : Single) (ts : List Single) (n : ℕ)
      → AllResolved (t ∷ ts) n
      → AllResolved ((complete k t ts).0 ∷ (complete k t ts).1) n
  unfolding complete
  complete-AllResolved zero t ts n h = h
  complete-AllResolved (suc k) t [] n h = h
  complete-AllResolved (suc k) t (u ∷ ts) n (one_resolved _ _ r a b q d c rest) =
      swap t _ _ _ (one_resolved t _ r a b q d c (complete-AllResolved k u ts b rest))

  uncomplete-AllResolved :
      (k : ℕ) (t : Single) (ts : List Single) (n : ℕ)
      → AllResolved ((complete k t ts).0 ∷ (complete k t ts).1) n
      → AllResolved (t ∷ ts) n
  unfolding complete
  uncomplete-AllResolved zero t ts n h = h
  uncomplete-AllResolved (suc k) t [] n h = h
  uncomplete-AllResolved (suc k) t (u ∷ ts) n h =
      let (r, a, b, q, d, c, rest, e) = first_resolved t _ n (swap _ t _ n h) in
      resize _ _ _ (one_resolved t (u ∷ ts) r a b q d c (uncomplete-AllResolved k u ts b rest)) e

  append-AllResolved :
      (l k : List Single) (n m : ℕ)
      → AllResolved l n
      → AllResolved k m
      → AllResolved (l ++ k) (n + m)
  append-AllResolved [] k n m none_left h = resize _ _ _ h (omega arith)
  append-AllResolved (t ∷ l) k n m (one_resolved _ _ r a b q d c rest) h =
      resize _ _ _ (one_resolved t (l ++ k) r a (b + m) q d c (append-AllResolved l k b m rest h))
        (omega arith)

  split-AllResolved :
      (l k : List Single) (n : ℕ)
      → AllResolved (l ++ k) n
      → (a b : ℕ) × AllResolved l a × AllResolved k b × (a + b ≡ n)
  split-AllResolved [] k n h = (0, n, none_left, h, omega arith)
  split-AllResolved (t ∷ l) k n (one_resolved _ _ r a b q d c rest) =
      let (x, y, first, last, e) = split-AllResolved l k b rest in
      (suc (a + x), y, one_resolved t l r a x q d c first, last, omega (arith, e))

  length-AllResolved : (l : List Single) (n : ℕ) → AllResolved l n → length l ≤ n
  length-AllResolved [] n none_left = omega arith
  length-AllResolved (t ∷ l) n (one_resolved _ _ r a b q d c rest) =
      omega (arith, length-AllResolved l b rest)

  module _ (schedule : ℕ → ℕ) (machine : max_sub_auths < usize_max) where
    -- A loop that ends with a payload has resolved all that it had in flight and all that this waited
    -- for, within the limit.
    pub loop-resolves :
        (rounds : ℕ) (payload : String) (sub_count : ℕ) (in_flight : List Single)
        (account_id : AccountId) (rev_path : List AccountId) (pending : List PendingAuthorization)
        (result : String)
        → resolve_loop resolve_access_key resolve_contract max_sub_auths max_depth schedule rounds
            payload block sub_count in_flight account_id rev_path pending
          ≡ some (done result)
        → (result ≡ payload)
          × (is_too_deep max_depth rev_path pending ≡ false)
          × (n : ℕ) × AllResolved (in_flight ++ started block account_id rev_path pending) n
          × (sub_count + n ≤ max_sub_auths + length in_flight)
    unfolding resolve_loop
    loop-resolves zero payload sub_count in_flight account_id rev_path pending result q = cc
    loop-resolves (suc rounds) payload sub_count in_flight account_id rev_path pending result q =
        elim (loop-cases resolve_access_key resolve_contract max_sub_auths max_depth schedule rounds
          payload block sub_count in_flight account_id rev_path pending) [
            | inl (why, f) ↦ cc
            | inr (ok, few, inl (e, f)) ↦ (
              cc,
              ok,
              0,
              rw e none_left,
              omega (arith, count-exact max_sub_auths sub_count (length pending) machine few),
            )
            | inr (ok, few, inr (t, ts, r, e, f, g)) ↦
                let chosen = complete (schedule rounds) t ts in
                let (same, fine, n, all, bound) =
                  loop-resolves rounds payload (min usize_max (sub_count + length pending)) chosen.1
                    r.account_id r.rev_path r.res.res.pending result (sym g ∙ q) in
                let (a, b, others, below, total) =
                  split-AllResolved chosen.1
                    (started block r.account_id r.rev_path r.res.res.pending) n all in
                let now =
                  uncomplete-AllResolved (schedule rounds) t ts (suc (b + a))
                    (one_resolved chosen.0 chosen.1 r b a f fine below others) in
                (
                  same,
                  ok,
                  suc (b + a),
                  rw e now,
                  omega (
                    arith,
                    total,
                    bound,
                    length-complete (schedule rounds) t ts,
                    length-round block in_flight account_id rev_path pending t ts e,
                    count-exact max_sub_auths sub_count (length pending) machine few,
                  ),
                )
          ]

    -- A tree within the limits is resolved, in whatever order its futures complete.
    pub resolves-loop :
        (rounds : ℕ) (payload : String) (sub_count : ℕ) (in_flight : List Single)
        (account_id : AccountId) (rev_path : List AccountId) (pending : List PendingAuthorization)
        (n : ℕ)
        → is_too_deep max_depth rev_path pending ≡ false
        → AllResolved (in_flight ++ started block account_id rev_path pending) n
        → sub_count + n ≤ max_sub_auths + length in_flight
        → n < rounds
        → resolve_loop resolve_access_key resolve_contract max_sub_auths max_depth schedule rounds
            payload block sub_count in_flight account_id rev_path pending
          ≡ some (done payload)
    unfolding resolve_loop
    resolves-loop zero payload sub_count in_flight account_id rev_path pending n ok all bound
          enough =
        absurd (omega (arith, enough))
    resolves-loop (suc rounds) payload sub_count in_flight account_id rev_path pending n ok all
          bound enough =
        let size = length-AllResolved _ n all in
        let total = length-append in_flight (started block account_id rev_path pending) in
        let more = length-map (sub_authorization (rev_path ++ account_id ∷ []) block) pending in
        let few : ltb max_sub_auths (min usize_max (sub_count + length pending)) ≡ false =
          ground (arith, size, total, more, bound) in
        elim (List-cases (in_flight ++ started block account_id rev_path pending)) [
          | inl e ↦ rw (ok, few, e, resolve_loop) refl
          | inr (t, ts, e) ↦
              let (r, a, b, q, fine, below, others, sum) =
                first_resolved _ _ n
                  (complete-AllResolved (schedule rounds) t ts n (rw e at all)) in
              rw (ok, few, e, q, resolve_loop)
                (resolves-loop rounds payload (min usize_max (sub_count + length pending))
                  (complete (schedule rounds) t ts).1 r.account_id r.rev_path r.res.res.pending
                  (b + a) fine
                  (append-AllResolved (complete (schedule rounds) t ts).1 _ b a others below)
                  (omega (
                    arith,
                    sum,
                    bound,
                    length-complete (schedule rounds) t ts,
                    length-round block in_flight account_id rev_path pending t ts e,
                  ))
                  (omega (arith, sum, enough)))
        ]
