-- ===== src/Wallet/Calls.antt =====
-- The life of a wallet: its calls, at times that do not decrease. Between two of them the state is
-- only stored. A call that fails leaves it as it was.
use intents.Prelude.{ℕ, Bool, false, ◌≡◌, refl, sym, ap, ◌∙◌, inl, inr, String}
use intents.Prelude.Int.{ℤ, ◌≤ℤ◌}
use intents.Prelude.Outcome.{Outcome-cases, failed, done}
use intents.Wallet.Nonces.{Nonces, commit, check_cleanup}
use intents.Wallet.Nonces.Replay.{Later, here, committed, cleaned, commit-no_replay}
use intents.Wallet.Requests.{Actor, Request, RequestMessage, extension, signed_request}
use intents.Wallet.Contract.{
  ContractError, State, Env, Executed, is_locked_out, execute_extension, execute_signed,
  execute_request, with_nonces,
}
use intents.Wallet.Contract.Lockout.{execute_request_lem}
use intents.Wallet.Contract.Authority.{execute_extension-authorized, execute_signed-authorized}

module _ {P : Type 0} (verify : P → RequestMessage → String → Bool)
    (hash : RequestMessage → ℕ) where
  -- What a signed call does to the nonces and to the rest of the state.
  signed-commits :
      (env : Env) (s : State P) (msg : RequestMessage) (proof : String) (x : Executed P)
      → execute_signed verify hash env s msg proof ≡ done x
      → commit env.now s.nonces msg.nonce msg.created_at msg.timeout ≡ done x.state.nonces
  signed-commits env s msg proof x q =
      let (_, _, _, _, _, _, n, c, y, r, e) =
        execute_signed-authorized verify hash env s msg proof x q in
      let (_, same) =
        execute_request_lem env (with_nonces s n) msg.request (signed_request (hash msg)) y r in
      c ∙ ap (λ k. done k) (sym same.same_nonces ∙ ap (λ (z : State P). z.nonces) (sym e))

  extended-cleans :
      (env : Env) (s : State P) (r : Request) (x : Executed P)
      → execute_extension env s r ≡ done x
      → x.state.nonces ≡ check_cleanup env.now s.nonces
  extended-cleans env s r x q =
      let (_, _, ran, _, _) = execute_extension-authorized env s r x q in
      let (_, same) = execute_request_lem env _ r (extension env.predecessor_account_id) x ran in
      same.same_nonces

  -- The wallet of `s` can be acted for, and `m` is the same wallet.
  IsKept : State P → State P → Type 0
  IsKept s m =
      (is_locked_out m ≡ false) × (m.subwallet_id ≡ s.subwallet_id) × (m.public_key ≡ s.public_key)

  -- One request, on a wallet with other nonces.
  request-IsKept :
      (env : Env) (s m : State P) (n : Nonces) (r : Request) (actor : Actor) (x : Executed P)
      → execute_request env (with_nonces m n) r actor ≡ done x
      → IsKept s m
      → IsKept s x.state
  unfolding IsKept
  request-IsKept env s m n r actor x q (h, i, k) =
      let (kept, same) = execute_request_lem env (with_nonces m n) r actor x q in
      (
        elim kept [ inl e ↦ ap (λ (z : State P). is_locked_out z) e ∙ h | inr not_out ↦ not_out ],
        same.same_subwallet ∙ i,
        same.same_key ∙ k,
      )

  pub data Calls (t : ℤ) (s : State P) : ℤ → State P → Type 0 where
    begin : Calls t s t s
    signed :
        {now : ℤ} {m : State P} (env : Env) (msg : RequestMessage) (proof : String) (x : Executed P)
        → Calls t s now m
        → now ≤ℤ env.now
        → execute_signed verify hash env m msg proof ≡ done x
        → Calls t s env.now x.state
    extended :
        {now : ℤ} {m : State P} (env : Env) (request : Request) (x : Executed P)
        → Calls t s now m
        → now ≤ℤ env.now
        → execute_extension env m request ≡ done x
        → Calls t s env.now x.state

  -- To the nonces, each call is a commit or a cleanup.
  Calls-Later :
      {t : ℤ} {s : State P} {now : ℤ} {m : State P}
      → Calls t s now m
      → Later t s.nonces now m.nonces
  Calls-Later begin = here
  Calls-Later (signed {m = k} env msg proof x c le q) =
      committed msg.nonce msg.created_at msg.timeout (Calls-Later c) le
        (signed-commits env k msg proof x q)
  Calls-Later {s = s} (extended {now = now} {m = k} env request x c le q) =
      rw (extended-cleans env k request x q) (cleaned (Calls-Later c) le)

  Calls-IsKept :
      {t : ℤ} {s : State P} {now : ℤ} {m : State P} → Calls t s now m → IsKept s s → IsKept s m
  Calls-IsKept begin h = h
  Calls-IsKept {s = s} (signed {m = k} env msg proof x c le q) h =
      let (_, _, _, _, _, _, n, _, y, r, e) =
        execute_signed-authorized verify hash env k msg proof x q in
      let kept =
        request-IsKept env s k n msg.request (signed_request (hash msg)) y r (Calls-IsKept c h) in
      rw e kept
  Calls-IsKept {s = s} (extended {m = k} env request x c le q) h =
      let (_, _, ran, _, _) = execute_extension-authorized env k request x q in
      request-IsKept env s k _ request (extension env.predecessor_account_id) x ran
        (Calls-IsKept c h)

  -- A wallet that can be acted for stays so: no sequence of calls leaves it with the signature
  -- disabled and without an extension, and none changes its subwallet id or its key.
  pub Calls-keeps :
      {t : ℤ} (s : State P) {now : ℤ} (m : State P)
      → Calls t s now m
      → is_locked_out s ≡ false
      → (is_locked_out m ≡ false)
        × (m.subwallet_id ≡ s.subwallet_id)
        × (m.public_key ≡ s.public_key)
  unfolding IsKept
  Calls-keeps s m c h = Calls-IsKept c (h, refl, refl)

  -- Once a signed message was executed, no message with its nonce that was created at the same time
  -- or before is ever executed again, the same message included, whatever calls the wallet serves in
  -- between.
  pub execute_signed-no_replay :
      (env later : Env) (s : State P) (msg msg' : RequestMessage) (proof proof' : String)
      (x : Executed P) {now : ℤ} (m : State P)
      → execute_signed verify hash env s msg proof ≡ done x
      → Calls env.now x.state now m
      → now ≤ℤ later.now
      → msg'.nonce ≡ msg.nonce
      → msg'.created_at ≤ℤ msg.created_at
      → (why : ContractError) × (execute_signed verify hash later m msg' proof' ≡ failed why)
  execute_signed-no_replay env later s msg msg' proof proof' x m q calls le same older =
      let (_, f) =
        commit-no_replay env.now s.nonces x.state.nonces later.now msg.nonce msg.created_at
          msg'.created_at msg.timeout msg'.timeout (signed-commits env s msg proof x q)
          (Calls-Later calls) le older in
      elim (Outcome-cases (execute_signed verify hash later m msg' proof')) [
        | inl failure ↦ failure
        | inr (y, again) ↦
            let c = signed-commits later m msg' proof' y again in
            let d : commit later.now m.nonces msg.nonce msg'.created_at msg'.timeout
                ≡ done y.state.nonces =
              ap (λ k. commit later.now m.nonces k msg'.created_at msg'.timeout) (sym same) ∙ c in
            cc
      ]
