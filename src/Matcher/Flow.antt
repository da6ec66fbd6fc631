-- ===== src/Matcher/Flow.antt =====
-- What one call of `Transfers::transfer` adds to the amounts that leave and reach an account.
use intents.Prelude.{
  ℕ, ◌+◌, ◌≡◌, refl, ◌≤◌, ◌&&◌, some, ◌==◌, if◌then◌else◌, nat_default, string_eq, arith, [],
  Bool-cases, inl, inr,
}
use intents.NumUtils.{u128_max}
use intents.MapUtils.{get_or_default, store, get}
use intents.MapUtils.Laws.{IsDistinct, get_or_default-store, store-IsDistinct}
use intents.MapUtils.Sum.{sum_of, sum_of-store}
use intents.Amounts.{Amounts, amount_for, add}
use intents.Amounts.Laws.{IsValid, add_lem}
use intents.TokenId.{AccountId, TokenId, token_eq}
use intents.Matcher.{Transfers, transfer, map_default}

-- The amount of a token that goes from one account to another.
abbrev pub amount : Transfers → AccountId → AccountId → TokenId → ℕ
amount ts s r t = amount_for (get_or_default (get_or_default ts s) r) t

-- All of a token that leaves an account, and all that reaches it.
abbrev pub outflow : Transfers → AccountId → TokenId → ℕ
outflow ts a t = sum_of (λ tokens. amount_for tokens t) (get_or_default ts a)

abbrev pub inflow : Transfers → AccountId → TokenId → ℕ
inflow ts a t = sum_of (λ receivers. amount_for (get_or_default receivers a) t) ts

pub record IsWellFormed (ts : Transfers) : Type 0 where
  pub senders : IsDistinct ts
  pub receivers : (s : AccountId) → IsDistinct (get_or_default ts s)
  pub tokens : (s r : AccountId) → IsValid (get_or_default (get_or_default ts s) r)

amount_for-nil : (t : TokenId) → amount_for {V = ℕ} [] t ≡ 0
unfolding get_or_default get
amount_for-nil t = refl

amount_for-nil_nil :
    (a : AccountId) (t : TokenId) → amount_for (get_or_default {V = Amounts TokenId ℕ} [] a) t ≡ 0
unfolding get_or_default get
amount_for-nil_nil a t = refl

module _ (ts : Transfers) (s r : AccountId) (t : TokenId) (x : ℕ) (v : IsWellFormed ts)
    (fits : amount ts s r t + x ≤ u128_max) where
  abbrev result : Transfers
  result = (transfer ts s r t x).0

  -- The call succeeds, with the new amount.
  pub transfer-result : (transfer ts s r t x).1 ≡ some (amount ts s r t + x)
  unfolding transfer
  transfer-result =
      ground (arith, add_lem (get_or_default (get_or_default ts s) r) t t x (v.tokens s r))

  -- The tokens of the pair after the call.
  abbrev new_tokens : Amounts TokenId ℕ
  new_tokens = (add (get_or_default (get_or_default ts s) r) t x).0

  new_tokens-reads :
      (u : TokenId) → amount_for new_tokens u ≡ amount ts s r u + (if t == u then x else 0)
  new_tokens-reads u = ground (
    arith,
    add_lem (get_or_default (get_or_default ts s) r) t u x (v.tokens s r),
    token_eq.beq_iff t u,
  )

  receivers_of-transfer :
      (a : AccountId)
      → get_or_default (transfer ts s r t x).0 a
        ≡ (if s == a then store (get_or_default ts s) r new_tokens else get_or_default ts a)
  unfolding transfer
  receivers_of-transfer a = get_or_default-store ts s a (store (get_or_default ts s) r new_tokens)

  tokens_of-transfer :
      (a b : AccountId)
      → get_or_default (get_or_default (transfer ts s r t x).0 a) b
        ≡ (if (s == a) && (r == b) then new_tokens else get_or_default (get_or_default ts a) b)
  tokens_of-transfer a b = ground (
    arith,
    receivers_of-transfer a,
    get_or_default-store (get_or_default ts s) r b new_tokens,
    string_eq.beq_iff s a,
  )

  pub transfer-IsWellFormed : IsWellFormed (transfer ts s r t x).0
  unfolding transfer
  transfer-IsWellFormed = record {
    senders = store-IsDistinct ts s (store (get_or_default ts s) r new_tokens) v.senders;
    receivers = λ a. elim (Bool-cases (s == a)) [
      | inl same ↦
          rw (receivers_of-transfer a, same)
            (store-IsDistinct (get_or_default ts s) r new_tokens (v.receivers s))
      | inr other ↦ rw (receivers_of-transfer a, other) (v.receivers a)
    ];
    tokens = λ a b. elim (Bool-cases ((s == a) && (r == b))) [
      | inl same ↦
          rw (tokens_of-transfer a b, same)
            (add_lem (get_or_default (get_or_default ts s) r) t t x (v.tokens s r)).0
      | inr other ↦ rw (tokens_of-transfer a b, other) (v.tokens a b)
    ];
  }

  -- The amount is added for its sender, receiver and token, and for no other.
  pub amount-transfer :
      (a b : AccountId) (u : TokenId)
      → amount (transfer ts s r t x).0 a b u
        ≡ amount ts a b u + (if (s == a) && ((r == b) && (t == u)) then x else 0)
  amount-transfer a b u = ground (
    arith,
    tokens_of-transfer a b,
    new_tokens-reads u,
    string_eq.beq_iff s a,
    string_eq.beq_iff r b,
  )

  pub outflow-transfer :
      (a : AccountId) (u : TokenId)
      → outflow (transfer ts s r t x).0 a u
        ≡ outflow ts a u + (if (s == a) && (t == u) then x else 0)
  outflow-transfer a u = elim (Bool-cases (s == a)) [
    | inl same ↦ ground (
      arith,
      receivers_of-transfer a,
      new_tokens-reads u,
      string_eq.beq_iff s a,
      sum_of-store (λ tokens. amount_for tokens u) (get_or_default ts s) r new_tokens
          (v.receivers s) (amount_for-nil u),
    )
    | inr other ↦ ground (arith, receivers_of-transfer a)
  ]

  pub inflow-transfer :
      (a : AccountId) (u : TokenId)
      → inflow (transfer ts s r t x).0 a u ≡ inflow ts a u + (if (r == a) && (t == u) then x else 0)
  unfolding transfer
  inflow-transfer a u = ground (
    arith,
    new_tokens-reads u,
    string_eq.beq_iff r a,
    get_or_default-store (get_or_default ts s) r a new_tokens,
    sum_of-store (λ receivers. amount_for (get_or_default receivers a) u) ts s
        (store (get_or_default ts s) r new_tokens) v.senders (amount_for-nil_nil a u),
  )
