-- ===== src/Contract/Moves.antt =====
-- What one transfer inside the contract does to the balances, and to what all have together.
use intents.Prelude.{
  ℕ, ◌+◌, ◌≤◌, ◌≡◌, refl, sym, ap, ◌∙◌, some, List, [], ◌∷◌, ◌==◌, string_eq, nat_default, arith,
  if◌then◌else◌,
}
use intents.NumUtils.{u128_max}
use intents.MapUtils.{get}
use intents.Amounts.{Amounts, amount_for, add, sub}
use intents.TokenId.{AccountId, TokenId, token_eq}
use intents.Lock.{Lock, with_value}
use intents.Error.{ok, >>=-returns}
use intents.Account.{Account, with_balances}
use intents.Deltas.Tracks.{share}
use intents.Contract.{Host, Contract, balance_of, get_or_create, with_account}
use intents.Contract.Tokens.{or_overflow}
use intents.Contract.Books.{add-ok, sub-ok, sub_enough, add_enough}
use intents.Contract.Supply.{
  has, held, IsBacked, gained, held-insert, balance_in-insert, balance_of-some, has-get_or_create,
}
use intents.Contract.Transfers.{send, receive}

-- What is all of a token, in an amount of one token.
abbrev pub of_token : TokenId → TokenId → ℕ → ℕ
of_token token u x = if token == u then x else 0

-- One account has more, or less, of one token.
pub record Gave (c : Contract) (id : AccountId) (token : TokenId) (x : ℕ) (c' : Contract)
    : Type 0 where
  pub supplies : c'.total_supplies ≡ c.total_supplies
  pub together : (u : TokenId) → held c'.accounts u ≡ held c.accounts u + of_token token u x
  pub reads :
      (a : AccountId) (u : TokenId) → balance_of c' a u ≡ balance_of c a u + share id token a u x

pub record Took (c : Contract) (id : AccountId) (token : TokenId) (x : ℕ) (c' : Contract)
    : Type 0 where
  pub supplies : c'.total_supplies ≡ c.total_supplies
  pub together : (u : TokenId) → held c'.accounts u + of_token token u x ≡ held c.accounts u
  pub reads :
      (a : AccountId) (u : TokenId) → balance_of c' a u + share id token a u x ≡ balance_of c a u

pub send-Took :
    (c : Contract) (id : AccountId) (account : Lock Account) (token : TokenId) (x : ℕ)
    {c' : Contract}
    → get c.accounts id ≡ some account
    → send c id account token x ≡ ok c'
    → Took c id token x c'
unfolding send balance_of
send-Took c id account token x {c'} e q =
    let (m, q1, q2) = >>=-returns _ (or_overflow (sub account.value.token_balances token x)) q in
    let after = with_value account (with_balances account.value m.0) in
    let same : c' ≡ with_account c id after = cc in
    let (_, less) = sub-ok account.value.token_balances token x q1 in
    rw same (record {
      supplies = refl;
      together = λ u.
          ground
            (arith, less u, held-insert c.accounts id after u, balance_of-some c id account u e);
      reads = λ a u. ground (
        arith,
        less u,
        balance_in-insert c.accounts id a after u,
        balance_of-some c id account u e,
        string_eq.beq_iff id a,
      );
    })

pub receive-Gave :
    (host : Host) (c : Contract) (id : AccountId) (token : TokenId) (x : ℕ) {c' : Contract}
    → receive host c id token x ≡ ok c'
    → Gave c id token x c'
unfolding receive balance_of
receive-Gave host c id token x {c'} q =
    let account = get_or_create host c id in
    let (m, q1, q2) = >>=-returns _ (or_overflow (add account.value.token_balances token x)) q in
    let after = with_value account (with_balances account.value m.0) in
    let same : c' ≡ with_account c id after = cc in
    let (_, _, more) = add-ok account.value.token_balances token x q1 in
    rw same (record {
      supplies = refl;
      together = λ u.
          ground (arith, more u, held-insert c.accounts id after u, has-get_or_create host c id u);
      reads = λ a u. ground (
        arith,
        more u,
        balance_in-insert c.accounts id a after u,
        has-get_or_create host c id u,
        string_eq.beq_iff id a,
      );
    })

pub send_enough :
    (c : Contract) (id : AccountId) (account : Lock Account) (token : TokenId) (x : ℕ)
    → x ≤ has token account
    → (c' : Contract) × (send c id account token x ≡ ok c')
unfolding send
send_enough c id account token x h =
    let (m, q) = sub_enough account.value.token_balances token x h in
    (with_account c id (with_value account (with_balances account.value m.0)), rw (q, send) refl)

pub receive_enough :
    (host : Host) (c : Contract) (id : AccountId) (token : TokenId) (x : ℕ)
    → balance_of c id token + x ≤ u128_max
    → (c' : Contract) × (receive host c id token x ≡ ok c')
unfolding receive
receive_enough host c id token x h =
    let account = get_or_create host c id in
    let (m, q) =
      add_enough account.value.token_balances token x
        (omega (arith, has-get_or_create host c id token)) in
    (with_account c id (with_value account (with_balances account.value m.0)), rw (q, receive) refl)

-- An amount that goes from one account to another: all have as much together as before.
pub record Passed (c : Contract) (from to : AccountId) (l : List (TokenId × ℕ)) (c' : Contract)
    : Type 0 where
  pub supplies : c'.total_supplies ≡ c.total_supplies
  pub together : (u : TokenId) → held c'.accounts u ≡ held c.accounts u
  pub reads :
      (a : AccountId) (u : TokenId)
      → balance_of c' a u + gained from l a u ≡ balance_of c a u + gained to l a u

pub Passed-nothing : (c : Contract) (from to : AccountId) → Passed c from to [] c
Passed-nothing c from to = record {
  supplies = refl;
  together = λ u. refl;
  reads = λ a u. ground arith;
}

-- Nothing goes.
pub Passed-zero :
    (c : Contract) (from to : AccountId) (token : TokenId) → Passed c from to ((token, 0) ∷ []) c
Passed-zero c from to token = record {
  supplies = refl;
  together = λ u. refl;
  reads = λ a u. ground arith;
}

pub Passed-one :
    (c sent c' : Contract) (from to : AccountId) (token : TokenId) (x : ℕ)
    → Took c from token x sent
    → Gave sent to token x c'
    → Passed c from to ((token, x) ∷ []) c'
Passed-one c sent c' from to token x took gave = record {
  supplies = gave.supplies ∙ took.supplies;
  together = λ u. omega (arith, took.together u, gave.together u);
  reads = λ a u. ground (arith, took.reads a u, gave.reads a u);
}

pub Passed-to :
    (c c' : Contract) (from to other : AccountId) (l : List (TokenId × ℕ))
    → to ≡ other
    → Passed c from to l c'
    → Passed c from other l c'
Passed-to c c' from to other l same p = rw (← same) p

pub Passed-next :
    (c d e : Contract) (from to : AccountId) (token : TokenId) (x : ℕ) (l : List (TokenId × ℕ))
    → Passed c from to ((token, x) ∷ []) d
    → Passed d from to l e
    → Passed c from to ((token, x) ∷ l) e
Passed-next c d e from to token x l one rest = record {
  supplies = rest.supplies ∙ one.supplies;
  together = λ u. rest.together u ∙ one.together u;
  reads = λ a u. ground (arith, one.reads a u, rest.reads a u);
}

-- So every supply is still what all have together.
pub Passed-IsBacked :
    (c c' : Contract) (from to : AccountId) (l : List (TokenId × ℕ))
    → Passed c from to l c'
    → IsBacked c
    → IsBacked c'
Passed-IsBacked c c' from to l p h = record {
  backed = λ u.
      p.together u ∙ h.backed u ∙ ap (λ (m : Amounts TokenId ℕ). amount_for m u) (sym p.supplies);
  sound = rw p.supplies h.sound;
}
