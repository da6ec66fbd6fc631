-- ===== src/Deltas/Tracks.antt =====
-- `Deltas` records exactly what it does to the balances of the state below.
use intents.Prelude.{
  ℕ, ◌+◌, ◌≡◌, Bool, true, false, List, [], ◌∷◌, Option, none, some, ◌==◌, ◌&&◌, suc, if◌then◌else◌,
  string_eq, arith, nat_default,
}
use intents.Prelude.Int.{ℤ, pos, negsuc, neg_ℕ, sub_ℕ, ◌+ℤ◌}
use intents.Amounts.{amount_for}
use intents.MapUtils.{get_or_default}
use intents.Matcher
use intents.TokenId.{AccountId, TokenId, token_eq}
use intents.Matcher.{
  TransferMatcher, Transfers, matcher_default, with_token, deposit, withdraw, Finalized,
}
use intents.Matcher.Flow.{outflow, inflow}
use intents.Matcher.Settle.{Answers, finalize-Answers}
use intents.Matcher.Change.{IsConsistent, net_of, deposit-net_of, withdraw-net_of}
use intents.Error.{ok, >>=-returns}
use intents.State.{State, internal_apply_delta, internal_apply_deltas}
use intents.Deltas.{
  Deltas, noted, internal_add_balance, internal_sub_balance, deltas_state, finalize,
}

-- What an entry is for an account and a token: its amount, or nothing.
abbrev pub share : AccountId → TokenId → AccountId → TokenId → ℕ → ℕ
share owner token a u x = if (owner == a) && (token == u) then x else 0

-- What a lawful state does with one amount: it changes the balance of that account in that token.
pub record IsLedger {S : Type 0} (st : State S) : Type 0 where
  pub added :
      (s : S) (owner : AccountId) (token : TokenId) (x : ℕ) {s' : S}
      → st.internal_add_balance s owner ((token, x) ∷ []) ≡ ok s'
      → (a : AccountId) (u : TokenId)
      → st.balance_of s' a u ≡ st.balance_of s a u + share owner token a u x
  pub taken :
      (s : S) (owner : AccountId) (token : TokenId) (x : ℕ) {s' : S}
      → st.internal_sub_balance s owner ((token, x) ∷ []) ≡ ok s'
      → (a : AccountId) (u : TokenId)
      → st.balance_of s' a u + share owner token a u x ≡ st.balance_of s a u

-- Every balance is tracked: since a state `s0` with no deltas, every balance has changed by what the deltas say.
pub record Tracks {S : Type 0} (st : State S) (s0 : S) (d : Deltas S) : Type 0 where
  pub consistent : IsConsistent d.deltas
  pub tracked :
      (a : AccountId) (u : TokenId)
      → pos (st.balance_of d.state a u) ≡ pos (st.balance_of s0 a u) +ℤ net_of d.deltas a u

noted-some :
    (r : Option (TransferMatcher × Bool)) {m : TransferMatcher}
    → noted r ≡ ok m
    → r ≡ some (m, true)
noted-some none h = cc
noted-some (some (n, true)) h = cc
noted-some (some (n, false)) h = cc

add_share :
    (b b' b0 : ℕ) (z z' : ℤ) (x : ℕ) (c : Bool)
    → b' ≡ b + (if c then x else 0)
    → z' ≡ z +ℤ (if c then pos x else pos 0)
    → pos b ≡ pos b0 +ℤ z
    → pos b' ≡ pos b0 +ℤ z'
unfolding ◌+ℤ◌
add_share b b' b0 z z' x true e f g = ground arith
add_share b b' b0 z z' x false e f g = ground arith

take_share :
    (b b' b0 : ℕ) (z z' : ℤ) (x : ℕ) (c : Bool)
    → b' + (if c then x else 0) ≡ b
    → z' ≡ z +ℤ (if c then neg_ℕ x else pos 0)
    → pos b ≡ pos b0 +ℤ z
    → pos b' ≡ pos b0 +ℤ z'
unfolding ◌+ℤ◌
take_share b b' b0 z z' x true e f g = ground arith
take_share b b' b0 z z' x false e f g = ground arith

module _ {S : Type 0} (st : State S) (law : IsLedger st) (s0 : S) where
  -- Over a state that keeps its ledger: a list of amounts that is added through `Deltas` leaves every
  -- balance tracked by the deltas.
  pub internal_add_balance-Tracks :
      (d : Deltas S) (owner : AccountId) (l : List (TokenId × ℕ)) {d' : Deltas S}
      → Tracks st s0 d
      → internal_add_balance st d owner l ≡ ok d'
      → Tracks st s0 d'
  unfolding internal_add_balance
  internal_add_balance-Tracks d owner [] {d'} h q = let same : d ≡ d' = cc in rw (← same) h
  internal_add_balance-Tracks d owner ((t, x) ∷ l) h q =
      let (s, q1, r) = >>=-returns _ (st.internal_add_balance d.state owner ((t, x) ∷ [])) q in
      let (m, q2, q3) = >>=-returns _ (noted (with_token (λ e. deposit e owner x) d.deltas t)) r in
      let e = noted-some (with_token (λ e. deposit e owner x) d.deltas t) q2 in
      internal_add_balance-Tracks (record { state = s; deltas = m }) owner l
        (record {
          consistent = (deposit-net_of d.deltas owner t x owner t h.consistent e).0;
          tracked = λ a u.
              add_share (st.balance_of d.state a u) (st.balance_of s a u) (st.balance_of s0 a u)
                (net_of d.deltas a u) (net_of m a u) x ((owner == a) && (t == u))
                (law.added d.state owner t x q1 a u)
                (deposit-net_of d.deltas owner t x a u h.consistent e).1 (h.tracked a u);
        })
        q3

  -- Over a state that keeps its ledger: a list of amounts that is taken through `Deltas` leaves every
  -- balance tracked by the deltas.
  pub internal_sub_balance-Tracks :
      (d : Deltas S) (owner : AccountId) (l : List (TokenId × ℕ)) {d' : Deltas S}
      → Tracks st s0 d
      → internal_sub_balance st d owner l ≡ ok d'
      → Tracks st s0 d'
  unfolding internal_sub_balance
  internal_sub_balance-Tracks d owner [] {d'} h q = let same : d ≡ d' = cc in rw (← same) h
  internal_sub_balance-Tracks d owner ((t, x) ∷ l) h q =
      let (s, q1, r) = >>=-returns _ (st.internal_sub_balance d.state owner ((t, x) ∷ [])) q in
      let (m, q2, q3) = >>=-returns _ (noted (with_token (λ e. withdraw e owner x) d.deltas t)) r in
      let e = noted-some (with_token (λ e. withdraw e owner x) d.deltas t) q2 in
      internal_sub_balance-Tracks (record { state = s; deltas = m }) owner l
        (record {
          consistent = (withdraw-net_of d.deltas owner t x owner t h.consistent e).0;
          tracked = λ a u.
              take_share (st.balance_of d.state a u) (st.balance_of s a u) (st.balance_of s0 a u)
                (net_of d.deltas a u) (net_of m a u) x ((owner == a) && (t == u))
                (law.taken d.state owner t x q1 a u)
                (withdraw-net_of d.deltas owner t x a u h.consistent e).1 (h.tracked a u);
        })
        q3

  -- Over a state that keeps its ledger: a list of signed deltas that is applied through `Deltas` leaves
  -- every balance tracked by the deltas.
  pub internal_apply_deltas-Tracks :
      (d : Deltas S) (owner : AccountId) (l : List (TokenId × ℤ)) {d' : Deltas S}
      → Tracks st s0 d
      → internal_apply_deltas (deltas_state st) d owner l ≡ ok d'
      → Tracks st s0 d'
  unfolding internal_apply_deltas internal_apply_delta
  internal_apply_deltas-Tracks d owner [] {d'} h q = let same : d ≡ d' = cc in rw (← same) h
  internal_apply_deltas-Tracks d owner ((t, pos x) ∷ l) h q =
      let (n, q1, r) = >>=-returns _ (internal_add_balance st d owner ((t, x) ∷ [])) q in
      internal_apply_deltas-Tracks n owner l
        (internal_add_balance-Tracks d owner ((t, x) ∷ []) h q1) r
  internal_apply_deltas-Tracks d owner ((t, negsuc x) ∷ l) h q =
      let (n, q1, r) = >>=-returns _ (internal_sub_balance st d owner ((t, suc x) ∷ [])) q in
      internal_apply_deltas-Tracks n owner l
        (internal_sub_balance-Tracks d owner ((t, suc x) ∷ []) h q1) r

settles :
    (b b0 deposited withdrawn : ℕ)
    → pos b ≡ pos b0 +ℤ sub_ℕ deposited withdrawn
    → b + withdrawn ≡ b0 + deposited
unfolding ◌+ℤ◌
settles b b0 deposited withdrawn h = ground arith

finalize_ok :
    {S : Type 0} (d : Deltas S) {ts : Transfers} (fin : Finalized)
    → Matcher.finalize d.deltas ≡ some fin
    → finalize d ≡ ok ts
    → Answers d.deltas fin
    → Answers d.deltas (Finalized.ok ts)
unfolding finalize
finalize_ok d {ts} (Finalized.ok ts') r q ans =
    let same : ts' ≡ ts = cc (rw (r, finalize) at q) in rw (← same) ans
finalize_ok d (Finalized.err e) r q ans = cc (rw (r, finalize) at q)

module _ {S : Type 0} (st : State S) (s0 : S) where
  -- Where every balance is tracked since `s0`, and the deltas are finalized into transfers, these account for every balance: what an
  -- account has, with what it sends, is what it had at the start, with what it receives.
  pub finalize-balances :
      (d : Deltas S) (ts : Transfers) (a : AccountId) (u : TokenId)
      → Tracks st s0 d
      → finalize d ≡ ok ts
      → st.balance_of d.state a u + outflow ts a u ≡ st.balance_of s0 a u + inflow ts a u
  finalize-balances d ts a u h q =
      let (fin, r, ans) = finalize-Answers d.deltas h.consistent.distinct h.consistent.matchers in
      let (formed, flows) = finalize_ok d fin r q ans in
      let (out_is, in_is) = (flows u).1 a in
      let entry = get_or_default d.deltas u in
      omega (
        arith,
        settles (st.balance_of d.state a u) (st.balance_of s0 a u) (amount_for entry.deposits a)
            (amount_for entry.withdrawals a) (h.tracked a u),
        out_is,
        in_is,
      )
