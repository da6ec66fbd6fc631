-- ===== src/Contract/Supply.antt =====
-- The total supplies beside what all accounts have together, and deposits (contract/tokens/mod.rs).
use intents.Prelude.{
  ℕ, ◌+◌, ◌≤◌, ◌≡◌, refl, Bool, false, not, Option, none, some, List, [], ◌∷◌, ◌&&◌, ◌==◌, String,
  string_eq, nat_default, arith, if◌then◌else◌, inl, inr, Option-cases,
}
use intents.MapUtils.{get, insert, get_or_default, is_empty}
use intents.MapUtils.Laws.{get-insert}
use intents.MapUtils.Sum.{sum_of, weight, sum_of-insert}
use intents.Amounts.{amount_for}
use intents.Amounts.Many.{sum_at}
use intents.TokenId.{AccountId, TokenId, token_eq}
use intents.Lock.{Lock, with_value, get_mut_maybe_forced}
use intents.Error.{ok, >>=-returns}
use intents.Events.{mt_mint, check_refund}
use intents.Account.{Account, with_balances}
use intents.Account
use intents.Contract.{
  Host, Contract, Accounts, balance_in, balance_of, is_account_locked, get_or_create,
}
use intents.Contract.Tokens.{Books, deposit_tokens, with_books, books_of, texts_of, deposit}
use intents.Contract.Books.{IsSound, deposit_tokens-Deposited}

abbrev pub has : TokenId → Lock Account → ℕ
has u account = amount_for account.value.token_balances u

-- What all accounts have of a token together.
abbrev pub held : Accounts → TokenId → ℕ
held accounts u = sum_of (has u) accounts

pub record IsBacked (c : Contract) : Type 0 where
  pub backed : (u : TokenId) → held c.accounts u ≡ amount_for c.total_supplies u
  pub sound : IsSound c.total_supplies

weight-balance_in : (o : Option (Lock Account)) (u : TokenId) → weight (has u) o ≡ balance_in o u
weight-balance_in none u = refl
weight-balance_in (some account) u = refl

balance_in-le-held :
    (accounts : Accounts) (id : AccountId) (u : TokenId)
    → balance_in (get accounts id) u ≤ held accounts u
unfolding get
balance_in-le-held [] id u = omega arith
balance_in-le-held ((i, account) ∷ accounts) id u = ground (arith, balance_in-le-held accounts id u)

pub balance_of-le-held :
    (c : Contract) (id : AccountId) (u : TokenId) → balance_of c id u ≤ held c.accounts u
unfolding balance_of
balance_of-le-held c id u = balance_in-le-held c.accounts id u

-- No account has more of a token than there is.
pub balance_of-le :
    (c : Contract) (id : AccountId) (u : TokenId)
    → IsBacked c
    → balance_of c id u ≤ amount_for c.total_supplies u
balance_of-le c id u h = omega (arith, balance_of-le-held c id u, h.backed u)

-- One account is written: what all have together changes as its balance does.
pub held-insert :
    (accounts : Accounts) (id : AccountId) (account : Lock Account) (u : TokenId)
    → held (insert accounts id account) u + balance_in (get accounts id) u
      ≡ held accounts u + has u account
held-insert accounts id account u =
    omega (arith, sum_of-insert (has u) accounts id account, weight-balance_in (get accounts id) u)

pub balance_in-insert :
    (accounts : Accounts) (id a : AccountId) (account : Lock Account) (u : TokenId)
    → balance_in (get (insert accounts id account) a) u
      ≡ (if id == a then has u account else balance_in (get accounts a) u)
balance_in-insert accounts id a account u = ground (arith, get-insert accounts id a account)

-- The books of one account are written back.
pub with_books-IsBacked :
    (c : Contract) (id : AccountId) (account : Lock Account) (b : Books)
    → ((u : TokenId) → balance_of c id u ≡ has u account)
    → ((u : TokenId)
        → amount_for b.supplies u + has u account
          ≡ amount_for c.total_supplies u + amount_for b.balances u)
    → IsSound b.supplies
    → IsBacked c
    → IsBacked (with_books c id account b)
unfolding balance_of
with_books-IsBacked c id account b own same sound h = record {
  backed = λ u. omega (
    arith,
    own u,
    same u,
    h.backed u,
    held-insert c.accounts id (with_value account (with_balances account.value b.balances)) u,
  );
  sound = sound;
}

pub balance_of-with_books :
    (c : Contract) (id a : AccountId) (account : Lock Account) (b : Books) (u : TokenId)
    → balance_of (with_books c id account b) a u
      ≡ (if id == a then amount_for b.balances u else balance_of c a u)
unfolding balance_of
balance_of-with_books c id a account b u =
    balance_in-insert c.accounts id a (with_value account (with_balances account.value b.balances))
      u

-- The account that is there, or is made, has the balances that are read.
pub has-get_or_create :
    (host : Host) (c : Contract) (id : AccountId) (u : TokenId)
    → balance_of c id u ≡ has u (get_or_create host c id)
unfolding balance_of get_or_create Account.new get_or_default get
has-get_or_create host c id u = elim (Option-cases (get c.accounts id)) [
  | inl e ↦ rw (e, get_or_create) refl
  | inr (account, e) ↦ rw (e, get_or_create) refl
]

-- What one owner has more of.
abbrev pub gained : AccountId → List (TokenId × ℕ) → AccountId → TokenId → ℕ
gained owner l a u = if owner == a then sum_at u l else 0

-- Where every supply is the sum of the balances, within a `u128` and one at most of a
-- non-fungible token, a deposit that succeeds keeps this so, and adds its amounts to the
-- balances of its owner and to no other.
pub deposit-IsBacked :
    (host : Host) (c : Contract) (owner : AccountId) (l : List (TokenId × ℕ)) (memo : Option String)
    {c' : Contract}
    → IsBacked c
    → deposit host c owner l memo ≡ ok c'
    → IsBacked c'
      × ((a : AccountId) (u : TokenId) → balance_of c' a u ≡ balance_of c a u + gained owner l a u)
unfolding deposit
deposit-IsBacked host c owner l memo {c'} h q =
    let account = get_or_create host c owner in
    let (b, q1, q2) = >>=-returns _ (deposit_tokens (books_of c account) l) q in
    let (_, _, q3) =
      >>=-returns (λ _. ok (with_books c owner account b))
        (if not (is_empty l)
          then check_refund host.log_len
              (mt_mint (record { owner_id = owner; tokens = texts_of l; memo = memo } ∷ []))
          else ok tt)
        q2 in
    let same : c' ≡ with_books c owner account b = cc in
    let done = deposit_tokens-Deposited (books_of c account) l q1 in
    rw same (
      with_books-IsBacked c owner account b (has-get_or_create host c owner)
          (λ u. omega (arith, done.supply u, done.balance u)) (done.sound h.sound) h,
      λ a u. ground (
        arith,
        balance_of-with_books c owner a account b u,
        done.balance u,
        has-get_or_create host c owner u,
        string_eq.beq_iff owner a,
      ),
    )

pub balance_of-none :
    (c : Contract) (id : AccountId) (u : TokenId) → get c.accounts id ≡ none → balance_of c id u ≡ 0
unfolding balance_of
balance_of-none c id u e = rw e refl

pub balance_of-some :
    (c : Contract) (id : AccountId) (account : Lock Account) (u : TokenId)
    → get c.accounts id ≡ some account
    → balance_of c id u ≡ has u account
unfolding balance_of
balance_of-some c id account u e = rw e refl

-- An account whose balances can be written is not locked, or the write is forced.
pub unlocked_or_forced :
    (c : Contract) (id : AccountId) (account : Lock Account) (force : Bool) {value : Account}
    → get c.accounts id ≡ some account
    → get_mut_maybe_forced account force ≡ some value
    → is_account_locked c id && not force ≡ false
unfolding is_account_locked
unlocked_or_forced c id account force e f = rw (e, is_account_locked) (ground arith)

-- A balance after the books of one account are written with less.
pub lower_balance :
    (c : Contract) (owner : AccountId) (account : Lock Account) (b : Books) (l : List (TokenId × ℕ))
    (a : AccountId) (u : TokenId)
    → ((v : TokenId) → balance_of c owner v ≡ has v account)
    → amount_for b.balances u + sum_at u l ≡ has u account
    → balance_of (with_books c owner account b) a u + gained owner l a u ≡ balance_of c a u
lower_balance c owner account b l a u own less =
    ground (arith, balance_of-with_books c owner a account b u, own u, string_eq.beq_iff owner a)
