-- ===== src/Contract/Ledger.antt =====
-- The contract as a state (contract/intents/state.rs), against what the engine asks of one.
use intents.Prelude.{
  ℕ, ◌+◌, ◌≡◌, refl, ap, ◌∙◌, Bool, true, false, not, [], ◌∷◌, ◌==◌, string_eq, nat_default,
  nat_beq, arith, if◌then◌else◌, inl, inr, Option-cases,
}
use intents.MapUtils.{get}
use intents.Amounts.{Amounts, amount_for, add, sub}
use intents.TokenId.{AccountId, TokenId, token_eq}
use intents.Lock.{Lock, with_value, get_mut, get_mut_maybe_forced}
use intents.Error.{
  PublicKey, DefuseError, ◌>>=◌, Result, ok, >>=-returns, guard, invalid_intent, public_key_exists,
  public_key_not_exist,
}
use intents.Deltas.Tracks.{IsLedger, share}
use intents.Engine.Conserves.{IsQuiet}
use intents.Account
use intents.Account.{Ids, Account, with_balances}
use intents.Contract.{Host, Contract, balance_of, get_or_create, with_account}
use intents.Contract.Tokens.{or_overflow}
use intents.Contract.Books.{add-ok, sub-ok}
use intents.Contract.Supply.{has, balance_in-insert, balance_of-some, has-get_or_create}
use intents.Contract.Core.{
  add_amounts, sub_amounts, or_locked, if_done, internal_sub_balance, add_public_key,
  remove_public_key, commit_nonce, set_auth_of, internal_add_balance,
  internal_set_auth_by_predecessor_id, contract_state,
}

add_one-ok :
    (m : Amounts TokenId ℕ) (token : TokenId) (x : ℕ) {m' : Amounts TokenId ℕ}
    → add_amounts m ((token, x) ∷ []) ≡ ok m'
    → (u : TokenId) → amount_for m' u ≡ amount_for m u + (if token == u then x else 0)
unfolding add_amounts
add_one-ok m token x {m'} q u =
    let (_, _, q1) = >>=-returns _ (guard (not (nat_beq x 0)) invalid_intent) q in
    let (r, q2, q3) = >>=-returns _ (or_overflow (add m token x)) q1 in
    let same : r.0 ≡ m' = cc in
    let (_, _, reads) = add-ok m token x q2 in rw (← same) (ground (arith, reads u))

sub_one-ok :
    (m : Amounts TokenId ℕ) (token : TokenId) (x : ℕ) {m' : Amounts TokenId ℕ}
    → sub_amounts m ((token, x) ∷ []) ≡ ok m'
    → (u : TokenId) → amount_for m' u + (if token == u then x else 0) ≡ amount_for m u
unfolding sub_amounts
sub_one-ok m token x {m'} q u =
    let (_, _, q1) = >>=-returns _ (guard (not (nat_beq x 0)) invalid_intent) q in
    let (r, q2, q3) = >>=-returns _ (or_overflow (sub m token x)) q1 in
    let same : r.0 ≡ m' = cc in let (_, reads) = sub-ok m token x q2 in rw (← same) (reads u)

-- A balance after an account is written.
balance_of-with_account :
    (c : Contract) (id a : AccountId) (account : Lock Account) (u : TokenId)
    → balance_of (with_account c id account) a u
      ≡ (if id == a then has u account else balance_of c a u)
unfolding balance_of
balance_of-with_account c id a account u = balance_in-insert c.accounts id a account u

or_locked-ok :
    (id : AccountId) (account : Lock Account) (force : Bool) {value : Account}
    → or_locked id (get_mut_maybe_forced account force) ≡ ok value
    → value ≡ account.value
or_locked-ok id account force q = ground arith

-- An account is written with the balances that it had.
same_balance :
    (c : Contract) (id : AccountId) (account : Lock Account) (after : Account) (a : AccountId)
    (u : TokenId)
    → balance_of c id u ≡ has u account
    → after.token_balances ≡ account.value.token_balances
    → balance_of (with_account c id (with_value account after)) a u ≡ balance_of c a u
same_balance c id account after a u own same = ground (
  arith,
  balance_of-with_account c id a (with_value account after) u,
  own,
  ap (λ (m : Amounts TokenId ℕ). amount_for m u) same,
  string_eq.beq_iff id a,
)

if_done-ok :
    (r : Account × Bool) (why : DefuseError) {after : Account}
    → if_done r why ≡ ok after
    → after ≡ r.0
if_done-ok (account, true) why q = cc
if_done-ok (account, false) why q = cc

-- The operations on the keys, the nonces and the flags of an account leave its balances alone.
key_added-balances :
    (ids : Ids) (a : Account) (me : AccountId) (k : PublicKey)
    → (Account.add_public_key ids a me k).0.token_balances ≡ a.token_balances
unfolding Account.add_public_key
key_added-balances ids a me k = ground arith

key_removed-balances :
    (ids : Ids) (a : Account) (me : AccountId) (k : PublicKey)
    → (Account.remove_public_key ids a me k).0.token_balances ≡ a.token_balances
unfolding Account.remove_public_key
key_removed-balances ids a me k = ground arith

auth_set-balances :
    (a : Account) (on : Bool)
    → (Account.set_auth_by_predecessor_id a on).0.token_balances ≡ a.token_balances
unfolding Account.set_auth_by_predecessor_id
auth_set-balances a on = ground arith

commit_nonce-balances :
    (a : Account) (n : ℕ) {after : Account}
    → Account.commit_nonce a n ≡ ok after
    → after.token_balances ≡ a.token_balances
unfolding Account.commit_nonce
commit_nonce-balances a n q = let (m, _, q2) = >>=-returns _ (Account.commit a.nonces n) q in cc

set_auth_of-balance :
    (c : Contract) (id : AccountId) (account : Lock Account) (on force : Bool) {c' : Contract}
    {toggled : Bool} (u : TokenId)
    → balance_of c id u ≡ has u account
    → set_auth_of c id account on force ≡ ok (c', toggled)
    → (a : AccountId) → balance_of c' a u ≡ balance_of c a u
unfolding set_auth_of
set_auth_of-balance c id account on force {c'} {toggled} u own q a =
    let (value, q1, q2) = >>=-returns _ (or_locked id (get_mut_maybe_forced account force)) q in
    let after = (Account.set_auth_by_predecessor_id value on).0 in
    let same : c' ≡ with_account c id (with_value account after) = cc in
    rw same (
      same_balance c id account after a u own (
        auth_set-balances value on
        ∙ ap (λ (v : Account). v.token_balances) (or_locked-ok id account force q1)))

module _ (host : Host) where
  added :
      (c : Contract) (owner : AccountId) (token : TokenId) (x : ℕ) {c' : Contract}
      → internal_add_balance host c owner ((token, x) ∷ []) ≡ ok c'
      → (a : AccountId) (u : TokenId)
      → balance_of c' a u ≡ balance_of c a u + share owner token a u x
  unfolding internal_add_balance
  added c owner token x {c'} q a u =
      let account = get_or_create host c owner in
      let (m, q1, q2) =
        >>=-returns _ (add_amounts account.value.token_balances ((token, x) ∷ [])) q in
      let after = with_value account (with_balances account.value m) in
      let same : c' ≡ with_account c owner after = cc in
      rw same (
        ground (
          arith,
          balance_of-with_account c owner a after u,
          add_one-ok account.value.token_balances token x q1 u,
          has-get_or_create host c owner u,
          string_eq.beq_iff owner a,
        ))

  taken :
      (c : Contract) (owner : AccountId) (token : TokenId) (x : ℕ) {c' : Contract}
      → internal_sub_balance c owner ((token, x) ∷ []) ≡ ok c'
      → (a : AccountId) (u : TokenId)
      → balance_of c' a u + share owner token a u x ≡ balance_of c a u
  unfolding internal_sub_balance
  taken c owner token x {c'} q a u = elim (Option-cases (get c.accounts owner)) [
    | inl e ↦ cc (rw (e, internal_sub_balance) at q)
    | inr (account, e) ↦
        let (value, q1, q2) =
          >>=-returns _ (or_locked owner (get_mut account)) (rw (e, internal_sub_balance) at q) in
        let (m, q3, q4) = >>=-returns _ (sub_amounts value.token_balances ((token, x) ∷ [])) q2 in
        let after = with_value account (with_balances value m) in
        let same : c' ≡ with_account c owner after = cc in
        let is_value = or_locked-ok owner account false q1 in
        rw same (
          ground (
            arith,
            balance_of-with_account c owner a after u,
            sub_one-ok value.token_balances token x q3 u,
            ap (λ (v : Account). amount_for v.token_balances u) is_value,
            balance_of-some c owner account u e,
            string_eq.beq_iff owner a,
          ))
  ]

  -- An account that is found or made, and is not locked, is changed without its balances.
  quiet_change :
      (c : Contract) (id : AccountId) (change : Account → Result Account) {c' : Contract}
      → ((v after : Account) → change v ≡ ok after → after.token_balances ≡ v.token_balances)
      → (or_locked id (get_mut (get_or_create host c id)) >>= λ value. change value >>= λ after.
          ok (with_account c id (with_value (get_or_create host c id) after)))
        ≡ ok c'
      → (a : AccountId) (u : TokenId) → balance_of c' a u ≡ balance_of c a u
  quiet_change c id change {c'} keeps q a u =
      let account = get_or_create host c id in
      let (value, q1, q2) = >>=-returns _ (or_locked id (get_mut account)) q in
      let (after, q3, q4) = >>=-returns _ (change value) q2 in
      let same : c' ≡ with_account c id (with_value account after) = cc in
      rw same (
        same_balance c id account after a u (has-get_or_create host c id u) (
          keeps value after q3
          ∙ ap (λ (v : Account). v.token_balances) (or_locked-ok id account false q1)))

  auth_set :
      (c : Contract) (id : AccountId) (on force : Bool) {c' : Contract} {toggled : Bool}
      → internal_set_auth_by_predecessor_id host c id on force ≡ ok (c', toggled)
      → (a : AccountId) (u : TokenId) → balance_of c' a u ≡ balance_of c a u
  unfolding internal_set_auth_by_predecessor_id
  auth_set c id false force q a u =
      set_auth_of-balance c id (get_or_create host c id) false force u
        (has-get_or_create host c id u) q a
  auth_set c id true force {c'} q a u = elim (Option-cases (get c.accounts id)) [
    | inl e ↦
        let same : c' ≡ c = cc (rw (e, internal_set_auth_by_predecessor_id) at q) in
        ap (λ (d : Contract). balance_of d a u) same
    | inr (account, e) ↦
        set_auth_of-balance c id account true force u (balance_of-some c id account u e)
          (rw (e, internal_set_auth_by_predecessor_id) at q) a
  ]

  -- The operations of the contract on keys, nonces and flags change no balance, nor do notifications.
  contract_state-IsQuiet : IsQuiet (contract_state host)
  contract_state-IsQuiet = record {
    key_added = λ c b k q.
        quiet_change c b
          (λ v. if_done (Account.add_public_key host.ids v b k) (public_key_exists b k))
          (λ v after p.
            ap (λ (w : Account). w.token_balances) (if_done-ok _ _ p)
            ∙ key_added-balances host.ids v b k)
          (unfold add_public_key in q);
    key_removed = λ c b k q.
        quiet_change c b
          (λ v. if_done (Account.remove_public_key host.ids v b k) (public_key_not_exist b k))
          (λ v after p.
            ap (λ (w : Account). w.token_balances) (if_done-ok _ _ p)
            ∙ key_removed-balances host.ids v b k)
          (unfold remove_public_key in q);
    nonce_committed = λ c b n q.
        quiet_change c b (λ v. Account.commit_nonce v n) (λ v after p. commit_nonce-balances v n p)
          (unfold commit_nonce in q);
    auth_set = λ c b on q. auth_set c b on false q;
    notified = λ c b d ts n a u. unfold balance_of in refl;
  }

  contract_state-IsLedger : IsLedger (contract_state host)
  contract_state-IsLedger = record { added = added; taken = taken }

  -- The contract is what the intents core takes a state to be: what is added to a balance or taken from
  -- it, if that succeeds, changes that balance by that amount and no other; and its operations on keys,
  -- nonces and flags, and its notifications, change no balance.
  pub contract_state-IsLawful : IsLedger (contract_state host) × IsQuiet (contract_state host)
  contract_state-IsLawful = (contract_state-IsLedger, contract_state-IsQuiet)
