-- ===== src/Cached/Balances.antt =====
-- What a balance reads as after an amount was taken from it.
use intents.Prelude.{
  ℕ, ◌+◌, ◌-◌, ◌≡◌, ◌≢◌, refl, sym, ◌∙◌, ◌≤◌, inl, inr, true, false, not, none, some, [], ◌∷◌,
  nat_beq, nat_beq_iff, arith, Option-cases, Bool-cases, nat_eq, nat_default, string_eq,
  if◌then◌else◌, beq_refl,
}
use intents.MapUtils.{get, insert, get_or_default, store}
use intents.MapUtils.Laws.{get-insert, get-remove}
use intents.Amounts.{Amounts, add, sub, checked_apply, amount_for}
use intents.TokenId.{AccountId, TokenId, token_eq}
use intents.Error.{ok, guard, guard-passes, invalid_intent, >>=-returns}
use intents.Lock.{Lock}
use intents.Cached.{
  CachedAccount, with_amounts, View, is_account_locked, CachedAccounts, changed, balance_of,
  get_or_create, fetch, sub_amounts, internal_sub_balance,
}

-- The amount that an account has of a token: the cached one, or that of the view.
amount_of : View → AccountId → Amounts TokenId ℕ → TokenId → ℕ
amount_of view id amounts token = elim (get amounts token) [
  | none ↦ view.view_balance_of id token
  | some a ↦ a
]

get-store :
    (m : Amounts TokenId ℕ) (k : TokenId) (v : ℕ)
    → get (store m k v) k ≡ (if nat_beq v 0 then none else some v)
unfolding store
get-store m k v = ground (arith, get-insert m k k v, get-remove m k k, beq_refl k)

changed-sub :
    (m t : Amounts TokenId ℕ) (k : TokenId) (amount : ℕ)
    → changed (sub m k amount) ≡ ok t
    → (amount ≤ amount_for m k) × (t ≡ store m k (amount_for m k - amount))
unfolding sub checked_apply
changed-sub m t k amount q = ground arith

changed-add :
    (m t : Amounts TokenId ℕ) (k : TokenId) (amount : ℕ)
    → changed (add m k amount) ≡ ok t
    → t ≡ store m k (amount_for m k + amount)
unfolding add checked_apply
changed-add m t k amount q = ground arith

fetch-amount :
    (view : View) (id : AccountId) (m t : Amounts TokenId ℕ) (k : TokenId)
    → fetch view id m k ≡ ok t
    → amount_for t k ≡ amount_of view id m k
unfolding fetch amount_of get_or_default
fetch-amount view id m t k q = elim (Option-cases (get m k)) [
  | inl e ↦
      let added = changed-add m t k (view.view_balance_of id k) (rw (e, fetch) at q) in
      ground (arith, e, added, get-store m k (amount_for m k + view.view_balance_of id k))
  | inr (a, e) ↦ ground (arith, e, q)
]

one_taken :
    (view : View) (id : AccountId) (m fetched after t : Amounts TokenId ℕ) (k : TokenId)
    (amount : ℕ)
    → not (nat_beq amount 0) ≡ true
    → amount_for fetched k ≡ amount_of view id m k
    → (amount ≤ amount_for fetched k) × (after ≡ store fetched k (amount_for fetched k - amount))
    → ok after ≡ ok t
    → (amount ≢ 0)
      × (amount ≤ amount_of view id m k)
      × (get t k ≡ (
          if nat_beq (amount_of view id m k - amount) 0
          then none
          else some (amount_of view id m k - amount)))
one_taken view id m fetched after t k amount g f c e =
    let same : after ≡ t = cc in
    (
      ground (arith, g, nat_beq_iff amount 0),
      omega (arith, f, c),
      rw (← same, c.1) (get-store fetched k (amount_for fetched k - amount) ∙ rw f refl),
    )

sub_amounts-one :
    (view : View) (id : AccountId) (m t : Amounts TokenId ℕ) (k : TokenId) (amount : ℕ)
    → sub_amounts view id m ((k, amount) ∷ []) ≡ ok t
    → (amount ≢ 0)
      × (amount ≤ amount_of view id m k)
      × (get t k ≡ (
          if nat_beq (amount_of view id m k - amount) 0
          then none
          else some (amount_of view id m k - amount)))
unfolding sub_amounts
sub_amounts-one view id m t k amount q =
    let (_, g, rest) = >>=-returns _ (guard (not (nat_beq amount 0)) invalid_intent) q in
    let (fetched, f, rest2) = >>=-returns _ (fetch view id m k) rest in
    let (after, a, e) = >>=-returns _ (changed (sub fetched k amount)) rest2 in
    one_taken view id m fetched after t k amount (guard-passes _ invalid_intent g)
      (fetch-amount view id m fetched k f) (changed-sub fetched after k amount a) e

created-locked :
    (view : View) (accounts : CachedAccounts) (id : AccountId)
    → (get_or_create view accounts id).locked ≡ is_account_locked view accounts id
unfolding get_or_create is_account_locked
created-locked view accounts id = elim (Option-cases (get accounts id)) [
  | inl e ↦ rw (e, get_or_create, is_account_locked) refl
  | inr (a, e) ↦ rw (e, get_or_create, is_account_locked) refl
]

created-amount :
    (view : View) (accounts : CachedAccounts) (id : AccountId) (token : TokenId)
    → amount_of view id (get_or_create view accounts id).value.token_amounts token
      ≡ balance_of view accounts id token
unfolding get_or_create balance_of amount_of get
created-amount view accounts id token = elim (Option-cases (get accounts id)) [
  | inl e ↦ rw (e, get_or_create, balance_of) refl
  | inr (a, e) ↦ rw (e, get_or_create, balance_of) refl
]

inserted-balance :
    (view : View) (accounts t : CachedAccounts) (id : AccountId) (token : TokenId)
    (account : Lock CachedAccount) (m : Amounts TokenId ℕ)
    → ok (
        insert accounts id
          (record { locked = account.locked; value = with_amounts account.value m }))
      ≡ ok t
    → balance_of view t id token ≡ amount_of view id m token
unfolding balance_of amount_of
inserted-balance view accounts t id token account m q =
    let same : insert accounts id
          (record { locked = account.locked; value = with_amounts account.value m })
        ≡ t =
      cc in
    let found : get t id
        ≡ some (record { locked = account.locked; value = with_amounts account.value m }) =
      rw (← same) (get-insert accounts id id _ ∙ rw (beq_refl id) refl) in
    rw (found, balance_of) refl

taken_amount :
    (view : View) (id : AccountId) (m : Amounts TokenId ℕ) (token : TokenId) (amount had old : ℕ)
    → had ≡ old
    → amount ≤ had
    → get m token ≡ (if nat_beq (had - amount) 0 then none else some (had - amount))
    → amount_of view id m token
      ≡ (if nat_beq amount old then view.view_balance_of id token else old - amount)
unfolding amount_of
taken_amount view id m token amount had old e le q =
    ground (arith, e, le, q, nat_beq_iff (had - amount) 0, nat_beq_iff amount old)

-- Taking an amount of one token from an account succeeds only if the account is not locked, the amount
-- is not zero and no more than the account's balance. The balance is then less by the amount, but not
-- if the amount was all of it: then the account has again what the view says that it had before the
-- simulation.
pub internal_sub_balance-balance_of :
    (view : View) (accounts t : CachedAccounts) (id : AccountId) (token : TokenId) (amount : ℕ)
    → internal_sub_balance view accounts id ((token, amount) ∷ []) ≡ ok t
    → (is_account_locked view accounts id ≡ false)
      × (amount ≢ 0)
      × (amount ≤ balance_of view accounts id token)
      × (balance_of view t id token ≡ (
          if nat_beq amount (balance_of view accounts id token)
          then view.view_balance_of id token
          else balance_of view accounts id token - amount))
unfolding internal_sub_balance
internal_sub_balance-balance_of view accounts t id token amount q =
    elim (Bool-cases (get_or_create view accounts id).locked) [
      | inl shut ↦ let z = rw (shut, internal_sub_balance) at q in cc
      | inr free ↦
          let (m, a, e) =
            >>=-returns _
              (sub_amounts view id (get_or_create view accounts id).value.token_amounts
                ((token, amount) ∷ []))
              (rw (free, internal_sub_balance) at q) in
          let (nonzero, enough, left) =
            sub_amounts-one view id (get_or_create view accounts id).value.token_amounts m token
              amount a in
          let old = created-amount view accounts id token in
          let now =
            inserted-balance view accounts t id token (get_or_create view accounts id) m e in
          (
            sym (created-locked view accounts id) ∙ free,
            nonzero,
            omega (arith, old, enough),
            now
                ∙ taken_amount view id m token amount
                    (amount_of view id (get_or_create view accounts id).value.token_amounts token)
                    (balance_of view accounts id token) old enough left,
          )
    ]
