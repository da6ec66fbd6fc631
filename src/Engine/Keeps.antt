-- ===== src/Engine/Keeps.antt =====
-- Whatever the operations of the engine keep, its intents keep: one induction for every invariant.
use intents.Prelude.{
  ℕ, ◌≡◌, refl, Bool, true, false, not, ◌||◌, String, List, [], ◌∷◌, Option, none, some, ◌==◌,
  string_eq, Bool-cases, inl, inr, nat_default,
}
use intents.Prelude.Int.{ℤ, pos, beq_ℤ}
use intents.MapUtils.{is_empty}
use intents.Amounts.{Amounts}
use intents.TokenId.{AccountId, TokenId, token_eq}
use intents.Fees.{Pips}
use intents.Error.{PublicKey, Result, ok, err, panicked, guard, ◌>>=◌, >>=-returns, invalid_intent}
use intents.Intents.{
  Intent, Transfer, TokenDiff, NotifyOnTransfer, FtWithdraw, NftWithdraw, MtWithdraw,
  NativeWithdraw, StorageDeposit, AuthCall, ImtMint, ImtBurn,
}
use intents.State
use intents.State.{State, notify_maybe, into_generic_tokens}
use intents.Deltas
use intents.Deltas.{Deltas, deltas_state}
use intents.Execute.{
  Engine, Inspector, DefuseEvent, collect, diff_loop, deposit_fees, execute_token_diff,
  execute_transfer, execute_imt_mint, execute_imt_burn, execute_intent, execute_intents,
}

-- The intents that take nothing out of the ledger and bring nothing into it.
unfoldable pub is_internal : Intent → Bool
is_internal (Intent.transfer _) = true
is_internal (Intent.token_diff _) = true
is_internal (Intent.add_public_key _) = true
is_internal (Intent.remove_public_key _) = true
is_internal (Intent.set_auth_by_predecessor_id _) = true
is_internal _ = false

-- A property of the state with its deltas that the operations of the engine keep: those on balances
-- through `Deltas`, and those that change no balance.
pub record IsClosed {S : Type 0} (st : State S) (Inv : Deltas S → Type 0) : Type 0 where
  pub added :
      (d : Deltas S) (a : AccountId) (l : List (TokenId × ℕ)) {d' : Deltas S}
      → Inv d
      → Deltas.internal_add_balance st d a l ≡ ok d'
      → Inv d'
  pub taken :
      (d : Deltas S) (a : AccountId) (l : List (TokenId × ℕ)) {d' : Deltas S}
      → Inv d
      → Deltas.internal_sub_balance st d a l ≡ ok d'
      → Inv d'
  pub applied :
      (d : Deltas S) (a : AccountId) (l : List (TokenId × ℤ)) {d' : Deltas S}
      → Inv d
      → State.internal_apply_deltas (deltas_state st) d a l ≡ ok d'
      → Inv d'
  pub key_added :
      (d : Deltas S) (b : AccountId) (k : PublicKey) {s' : S}
      → Inv d
      → st.add_public_key d.state b k ≡ ok s'
      → Inv (record { state = s'; deltas = d.deltas })
  pub key_removed :
      (d : Deltas S) (b : AccountId) (k : PublicKey) {s' : S}
      → Inv d
      → st.remove_public_key d.state b k ≡ ok s'
      → Inv (record { state = s'; deltas = d.deltas })
  pub nonce_committed :
      (d : Deltas S) (b : AccountId) (n : ℕ) {s' : S}
      → Inv d
      → st.commit_nonce d.state b n ≡ ok s'
      → Inv (record { state = s'; deltas = d.deltas })
  pub auth_set :
      (d : Deltas S) (b : AccountId) (on : Bool) {s' : S} {toggled : Bool}
      → Inv d
      → st.set_auth_by_predecessor_id d.state b on ≡ ok (s', toggled)
      → Inv (record { state = s'; deltas = d.deltas })
  pub notified :
      (d : Deltas S) (b c : AccountId) (ts : Amounts TokenId ℕ) (n : NotifyOnTransfer)
      → Inv d
      → Inv (record { state = st.notify_on_transfer d.state b c ts n; deltas = d.deltas })

-- One that the operations keep which take something out of the ledger or bring something into it.
pub record IsOpen {S : Type 0} (st : State S) (Inv : Deltas S → Type 0) : Type 0 where
  pub ft_withdraw :
      (d : Deltas S) (a : AccountId) (w : FtWithdraw) {s' : S}
      → Inv d
      → st.ft_withdraw d.state a w ≡ ok s'
      → Inv (record { state = s'; deltas = d.deltas })
  pub nft_withdraw :
      (d : Deltas S) (a : AccountId) (w : NftWithdraw) {s' : S}
      → Inv d
      → st.nft_withdraw d.state a w ≡ ok s'
      → Inv (record { state = s'; deltas = d.deltas })
  pub mt_withdraw :
      (d : Deltas S) (a : AccountId) (w : MtWithdraw) {s' : S}
      → Inv d
      → st.mt_withdraw d.state a w ≡ ok s'
      → Inv (record { state = s'; deltas = d.deltas })
  pub native_withdraw :
      (d : Deltas S) (a : AccountId) (w : NativeWithdraw) {s' : S}
      → Inv d
      → st.native_withdraw d.state a w ≡ ok s'
      → Inv (record { state = s'; deltas = d.deltas })
  pub storage_deposit :
      (d : Deltas S) (a : AccountId) (w : StorageDeposit) {s' : S}
      → Inv d
      → st.storage_deposit d.state a w ≡ ok s'
      → Inv (record { state = s'; deltas = d.deltas })
  pub auth_call :
      (d : Deltas S) (a : AccountId) (w : AuthCall) {s' : S}
      → Inv d
      → st.auth_call d.state a w ≡ ok s'
      → Inv (record { state = s'; deltas = d.deltas })
  pub mint :
      (d : Deltas S) (a : AccountId) (ts : Amounts TokenId ℕ) (memo : Option String) {s' : S}
      → Inv d
      → st.mint d.state a ts memo ≡ ok s'
      → Inv (record { state = s'; deltas = d.deltas })
  pub burn :
      (d : Deltas S) (a : AccountId) (ts : Amounts TokenId ℕ) (memo : Option String) {s' : S}
      → Inv d
      → st.burn d.state a ts memo ≡ ok s'
      → Inv (record { state = s'; deltas = d.deltas })

-- The intents that leave the ledger come with a property that those operations keep.
abbrev pub AllOpen : {S : Type 0} → State S → (Deltas S → Type 0) → List Intent → Type 0
AllOpen st Inv [] = Unit
AllOpen st Inv (i ∷ l) = (is_internal i ≡ false → IsOpen st Inv) × AllOpen st Inv l

module _ {S I : Type 0} (st : State S) (inspector : Inspector I) (Inv : Deltas S → Type 0)
    (closed : IsClosed st Inv) where
  diff_loop-keeps :
      (d : Deltas S) (signer : AccountId) (fee : Pips) (l : List (TokenId × ℤ))
      (fees : Amounts TokenId ℕ) {d' : Deltas S} {fees' : Amounts TokenId ℕ}
      → Inv d
      → diff_loop st inspector d signer fee l fees ≡ ok (d', fees')
      → Inv d'
  unfolding diff_loop
  diff_loop-keeps d signer fee [] fees {d'} h q = let same : d ≡ d' = cc in rw (← same) h
  diff_loop-keeps d signer fee ((t, z) ∷ l) fees h q =
      let (_, _, q1) = >>=-returns _ (guard (not (beq_ℤ z (pos 0))) invalid_intent) q in
      let (n, q2, q3) =
        >>=-returns _ (State.internal_apply_deltas (deltas_state st) d signer ((t, z) ∷ [])) q1 in
      let (f, _, q4) = >>=-returns _ (collect fees t z fee) q3 in
      diff_loop-keeps n signer fee l f (closed.applied d signer ((t, z) ∷ []) h q2) q4

  deposit_fees-keeps :
      (d : Deltas S) (fees : Amounts TokenId ℕ) {d' : Deltas S}
      → Inv d
      → deposit_fees st inspector d fees ≡ ok d'
      → Inv d'
  unfolding deposit_fees
  deposit_fees-keeps d [] {d'} h q = let same : d ≡ d' = cc in rw (← same) h
  deposit_fees-keeps d (x ∷ fees) h q = closed.added d (st.fee_collector d.state) (x ∷ fees) h q

  execute_token_diff-keeps :
      (e : Engine S I) (signer : AccountId) (intent : TokenDiff) (hash : ℕ) {e' : Engine S I}
      → Inv e.state
      → execute_token_diff st inspector e signer intent hash ≡ ok e'
      → Inv e'.state
  unfolding execute_token_diff
  execute_token_diff-keeps e signer intent hash {e'} h q =
      let (_, _, q1) = >>=-returns _ (guard (not (is_empty intent.diff)) invalid_intent) q in
      let ((d, fees), q2, q3) =
        >>=-returns _ (diff_loop st inspector e.state signer (st.fee e.state.state) intent.diff [])
          q1 in
      let (d', q4, q5) = >>=-returns _ (deposit_fees st inspector d fees) q3 in
      let same : d' ≡ e'.state = cc in
      rw (← same) (
        deposit_fees-keeps d fees
          (diff_loop-keeps e.state signer (st.fee e.state.state) intent.diff [] h q2) q4)

  notify_maybe-keeps :
      (d : Deltas S) (a b : AccountId) (ts : Amounts TokenId ℕ) (n : Option NotifyOnTransfer)
      → Inv d
      → Inv (notify_maybe (deltas_state st) d a b ts n)
  unfolding notify_maybe
  notify_maybe-keeps d a b ts none h = h
  notify_maybe-keeps d a b ts (some n) h = closed.notified d a b ts _ h

  execute_transfer-keeps :
      (e : Engine S I) (sender : AccountId) (intent : Transfer) (hash : ℕ) {e' : Engine S I}
      → Inv e.state
      → execute_transfer st inspector e sender intent hash ≡ ok e'
      → Inv e'.state
  unfolding execute_transfer
  execute_transfer-keeps e sender intent hash {e'} h q =
      let (_, _, q1) =
        >>=-returns _
          (guard (not ((sender == intent.receiver_id) || is_empty intent.tokens)) invalid_intent)
          q in
      let (d, q2, q3) =
        >>=-returns _ (Deltas.internal_sub_balance st e.state sender intent.tokens) q1 in
      let (d', q4, q5) =
        >>=-returns _ (Deltas.internal_add_balance st d intent.receiver_id intent.tokens) q3 in
      let same : notify_maybe (deltas_state st) d' sender intent.receiver_id intent.tokens
            intent.notification
          ≡ e'.state =
        cc in
      rw (← same) (
        notify_maybe-keeps d' sender intent.receiver_id intent.tokens intent.notification (
          closed.added d intent.receiver_id intent.tokens
            (closed.taken e.state sender intent.tokens h q2) q4))

  abbrev kept : Engine S I → S → Deltas S
  kept e s = record { state = s; deltas = e.state.deltas }

  abbrev placed : Engine S I → Deltas S → Engine S I
  placed e d = record { state = d; inspector = e.inspector }

  abbrev told : DefuseEvent → Engine S I → Engine S I
  told event e = record { state = e.state; inspector = inspector.on_event e.inspector event }

  key_step :
      (e : Engine S I) (r : Result S) (event : DefuseEvent) {e' : Engine S I}
      → (r >>= (λ s. ok (kept e s)) >>= (λ d. ok (placed e d)) >>= λ e1. ok (told event e1)) ≡ ok e'
      → (s : S) × (r ≡ ok s) × (kept e s ≡ e'.state)
  key_step e (ok s) event q = (s, refl, cc)
  key_step e (err why) event q = cc
  key_step e panicked event q = cc

  set_auth-keeps :
      (e : Engine S I) (signer : AccountId) (hash : ℕ) (on : Bool) {e' : Engine S I}
      → Inv e.state
      → execute_intent st inspector e signer hash (Intent.set_auth_by_predecessor_id on) ≡ ok e'
      → Inv e'.state
  unfolding execute_intent
  set_auth-keeps e signer hash on {e'} h q =
      let ((d, toggled), q1, q2) =
        >>=-returns _ ((deltas_state st).set_auth_by_predecessor_id e.state signer on) q in
      let ((s, flag), q3, q4) =
        >>=-returns _ (st.set_auth_by_predecessor_id e.state.state signer on) q1 in
      let is_e' : d ≡ e'.state = elim (Bool-cases toggled) [
        | inl t ↦ cc (rw t at q2)
        | inr f ↦ cc (rw f at q2)
      ] in
      let is_d : kept e s ≡ d = cc in rw (← is_e', ← is_d) (closed.auth_set e.state signer on h q3)

  -- A step of the state below, with or without an event before it.
  outside_step :
      (e : Engine S I) (r : Result S) (event : DefuseEvent) {e' : Engine S I}
      → ((r >>= λ s. ok (kept e s)) >>= λ d. ok (placed (told event e) d)) ≡ ok e'
      → (s : S) × (r ≡ ok s) × (kept e s ≡ e'.state)
  outside_step e (ok s) event q = (s, refl, cc)
  outside_step e (err why) event q = cc
  outside_step e panicked event q = cc

  plain_step :
      (e : Engine S I) (r : Result S) {e' : Engine S I}
      → ((r >>= λ s. ok (kept e s)) >>= λ d. ok (placed e d)) ≡ ok e'
      → (s : S) × (r ≡ ok s) × (kept e s ≡ e'.state)
  plain_step e (ok s) q = (s, refl, cc)
  plain_step e (err why) q = cc
  plain_step e panicked q = cc

  imt_mint-keeps :
      (e : Engine S I) (signer : AccountId) (hash : ℕ) (i : ImtMint) {e' : Engine S I}
      → IsOpen st Inv
      → Inv e.state
      → execute_imt_mint st inspector e signer hash i ≡ ok e'
      → Inv e'.state
  unfolding State.imt_mint
  imt_mint-keeps e signer hash i {e'} open_for h q =
      let (d, q1, q2) =
        >>=-returns _
          (State.imt_mint (deltas_state st) e.state signer i.receiver_id i.tokens i.memo
            i.notification)
          q in
      let (_, _, q3) = >>=-returns _ (guard (not (is_empty i.tokens)) invalid_intent) q1 in
      let (generic, _, q4) = >>=-returns _ (into_generic_tokens i.tokens signer) q3 in
      let (d', q5, q6) =
        >>=-returns _ ((deltas_state st).mint e.state i.receiver_id generic i.memo) q4 in
      let (s, q7, q8) = >>=-returns _ (st.mint e.state.state i.receiver_id generic i.memo) q5 in
      let is_d' : kept e s ≡ d' = cc in
      let is_d : notify_maybe (deltas_state st) d' signer i.receiver_id generic i.notification ≡ d =
        cc in
      let is_e' : d ≡ e'.state = cc in
      rw (← is_e', ← is_d)
        (notify_maybe-keeps d' signer i.receiver_id generic i.notification
          (rw (← is_d') (open_for.mint e.state i.receiver_id generic i.memo h q7)))

  imt_burn-keeps :
      (e : Engine S I) (signer : AccountId) (hash : ℕ) (i : ImtBurn) {e' : Engine S I}
      → IsOpen st Inv
      → Inv e.state
      → execute_imt_burn st inspector e signer hash i ≡ ok e'
      → Inv e'.state
  unfolding State.imt_burn
  imt_burn-keeps e signer hash i {e'} open_for h q =
      let (d, q1, q2) =
        >>=-returns _ (State.imt_burn (deltas_state st) e.state signer i.minter_id i.tokens i.memo)
          q in
      let (_, _, q3) = >>=-returns _ (guard (not (is_empty i.tokens)) invalid_intent) q1 in
      let (generic, _, q4) = >>=-returns _ (into_generic_tokens i.tokens i.minter_id) q3 in
      let (s, q5, q6) = >>=-returns _ (st.burn e.state.state signer generic i.memo) q4 in
      let is_d : kept e s ≡ d = cc in
      let is_e' : d ≡ e'.state = cc in
      rw (← is_e', ← is_d) (open_for.burn e.state signer generic i.memo h q5)

  execute_intent-keeps :
      (e : Engine S I) (signer : AccountId) (hash : ℕ) (intent : Intent) {e' : Engine S I}
      → (is_internal intent ≡ false → IsOpen st Inv)
      → Inv e.state
      → execute_intent st inspector e signer hash intent ≡ ok e'
      → Inv e'.state
  unfolding execute_intent is_internal
  execute_intent-keeps e signer hash (Intent.transfer i) open_for h q =
      execute_transfer-keeps e signer i hash h q
  execute_intent-keeps e signer hash (Intent.token_diff i) open_for h q =
      execute_token_diff-keeps e signer i hash h q
  execute_intent-keeps e signer hash (Intent.set_auth_by_predecessor_id on) open_for h q =
      set_auth-keeps e signer hash on h q
  execute_intent-keeps e signer hash (Intent.add_public_key k) {e'} open_for h q =
      let (s, r, same) =
        key_step e (st.add_public_key e.state.state signer k)
          (DefuseEvent.public_key_added signer k hash) q in
      rw (← same) (closed.key_added e.state signer k h r)
  execute_intent-keeps e signer hash (Intent.remove_public_key k) {e'} open_for h q =
      let (s, r, same) =
        key_step e (st.remove_public_key e.state.state signer k)
          (DefuseEvent.public_key_removed signer k hash) q in
      rw (← same) (closed.key_removed e.state signer k h r)
  execute_intent-keeps e signer hash (Intent.ft_withdraw i) {e'} open_for h q =
      let (s, r, same) =
        outside_step e (st.ft_withdraw e.state.state signer i)
          (DefuseEvent.ft_withdraw signer i hash) q in
      rw (← same) ((open_for refl).ft_withdraw e.state signer i h r)
  execute_intent-keeps e signer hash (Intent.nft_withdraw i) {e'} open_for h q =
      let (s, r, same) =
        outside_step e (st.nft_withdraw e.state.state signer i)
          (DefuseEvent.nft_withdraw signer i hash) q in
      rw (← same) ((open_for refl).nft_withdraw e.state signer i h r)
  execute_intent-keeps e signer hash (Intent.mt_withdraw i) {e'} open_for h q =
      let (s, r, same) =
        outside_step e (st.mt_withdraw e.state.state signer i)
          (DefuseEvent.mt_withdraw signer i hash) q in
      rw (← same) ((open_for refl).mt_withdraw e.state signer i h r)
  execute_intent-keeps e signer hash (Intent.native_withdraw i) {e'} open_for h q =
      let (s, r, same) =
        outside_step e (st.native_withdraw e.state.state signer i)
          (DefuseEvent.native_withdraw signer i hash) q in
      rw (← same) ((open_for refl).native_withdraw e.state signer i h r)
  execute_intent-keeps e signer hash (Intent.storage_deposit i) {e'} open_for h q =
      let (s, r, same) =
        outside_step e (st.storage_deposit e.state.state signer i)
          (DefuseEvent.storage_deposit signer i hash) q in
      rw (← same) ((open_for refl).storage_deposit e.state signer i h r)
  execute_intent-keeps e signer hash (Intent.auth_call i) {e'} open_for h q =
      let (s, r, same) = plain_step e (st.auth_call e.state.state signer i) q in
      rw (← same) ((open_for refl).auth_call e.state signer i h r)
  execute_intent-keeps e signer hash (Intent.imt_mint i) open_for h q =
      imt_mint-keeps e signer hash i (open_for refl) h q
  execute_intent-keeps e signer hash (Intent.imt_burn i) open_for h q =
      imt_burn-keeps e signer hash i (open_for refl) h q

  pub execute_intents-keeps :
      (e : Engine S I) (signer : AccountId) (hash : ℕ) (l : List Intent) {e' : Engine S I}
      → AllOpen st Inv l
      → Inv e.state
      → execute_intents st inspector e signer hash l ≡ ok e'
      → Inv e'.state
  unfolding execute_intents
  execute_intents-keeps e signer hash [] {e'} all h q = let same : e ≡ e' = cc in rw (← same) h
  execute_intents-keeps e signer hash (i ∷ l) all h q =
      let (n, q1, q2) = >>=-returns _ (execute_intent st inspector e signer hash i) q in
      execute_intents-keeps n signer hash l all.1 (execute_intent-keeps e signer hash i all.0 h q1)
        q2
