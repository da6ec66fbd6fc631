-- ===== src/Contract/Burns.antt =====
-- Withdrawals out of the contract (contract/tokens/mod.rs), and the supplies.
use intents.Prelude.{
  ap, ℕ, ◌+◌, ◌≡◌, Bool, false, not, Option, some, List, [], ◌∷◌, ◌++◌, ◌&&◌, String, string_eq,
  arith, nat_default, if◌then◌else◌, inl, inr, Option-cases,
}
use intents.MapUtils.{get, is_empty}
use intents.Amounts.{amount_for}
use intents.Amounts.Many.{sum_at}
use intents.TokenId.{AccountId, TokenId, token_eq}
use intents.Lock.{Lock, get_mut_maybe_forced}
use intents.Error.{ok, >>=-returns}
use intents.Account.{Account}
use intents.Contract.{Contract, balance_of, is_account_locked}
use intents.Contract.Tokens.{Books, withdraw_tokens, with_books, books_of, texts_of, withdraw}
use intents.Contract.Books.{Withdrawn, withdraw_tokens-Withdrawn, less-IsSound}
use intents.Contract.Supply.{
  has, IsBacked, gained, with_books-IsBacked, balance_of-some, unlocked_or_forced, lower_balance,
}

-- The contract after a withdrawal.
abbrev burnt :
    Contract → AccountId → Lock Account → Books → List (TokenId × ℕ) → Option String → Contract
burnt c owner account b l memo = record (with_books c owner account b) {
  postponed_burns =
      if not (is_empty l)
      then c.postponed_burns ++ record { owner_id = owner; tokens = texts_of l; memo = memo } ∷ []
      else c.postponed_burns;
}

-- What a withdrawal that succeeds has done.
record Burn (c : Contract) (owner : AccountId) (l : List (TokenId × ℕ)) (memo : Option String)
    (force : Bool) (c' : Contract) : Type 0 where
  account : Lock Account
  books : Books
  there : get c.accounts owner ≡ some account
  free : is_account_locked c owner && not force ≡ false
  taken : Withdrawn l (books_of c account) books
  result : c' ≡ burnt c owner account books l memo

withdraw-Burn :
    (c : Contract) (owner : AccountId) (l : List (TokenId × ℕ)) (memo : Option String)
    (force : Bool) {c' : Contract}
    → withdraw c owner l memo force ≡ ok c'
    → Burn c owner l memo force c'
unfolding withdraw
withdraw-Burn c owner l memo force {c'} q = elim (Option-cases (get c.accounts owner)) [
  | inl e ↦ cc (rw (e, withdraw) at q)
  | inr (account, e) ↦
      let q0 = rw (e, withdraw) at q in
      elim (Option-cases (get_mut_maybe_forced account force)) [
        | inl f ↦ cc (rw f at q0)
        | inr (value, f) ↦
            let (b, q1, q2) = >>=-returns _ (withdraw_tokens (books_of c account) l) (rw f at q0) in
            record {
              account = account;
              books = b;
              there = e;
              free = unlocked_or_forced c owner account force e f;
              taken = withdraw_tokens-Withdrawn (books_of c account) l q1;
              result = cc;
            }
      ]
]

-- It schedules nothing.
pub withdraw-promises :
    (c : Contract) (owner : AccountId) (l : List (TokenId × ℕ)) (memo : Option String)
    (force : Bool) {c' : Contract}
    → withdraw c owner l memo force ≡ ok c'
    → c'.promises ≡ c.promises
withdraw-promises c owner l memo force q =
    ap (λ (d : Contract). d.promises) ((withdraw-Burn c owner l memo force q).result)

withdrawn_balance :
    (c : Contract) (owner : AccountId) (account : Lock Account) (b : Books) (l : List (TokenId × ℕ))
    (memo : Option String) (a : AccountId) (u : TokenId)
    → ((v : TokenId) → balance_of c owner v ≡ has v account)
    → amount_for b.balances u + sum_at u l ≡ has u account
    → balance_of (burnt c owner account b l memo) a u + gained owner l a u ≡ balance_of c a u
unfolding balance_of
withdrawn_balance c owner account b l memo a u own less =
    lower_balance c owner account b l a u own less

-- Where every supply is the sum of the balances, a withdrawal that succeeds is from an account
-- that is not locked, or forced. It keeps every supply the sum of the balances, and takes its
-- amounts from the balances of its owner and from no other.
pub withdraw-IsBacked :
    (c : Contract) (owner : AccountId) (l : List (TokenId × ℕ)) (memo : Option String)
    (force : Bool) {c' : Contract}
    → IsBacked c
    → withdraw c owner l memo force ≡ ok c'
    → IsBacked c'
      × (is_account_locked c owner && not force ≡ false)
      × ((a : AccountId) (u : TokenId) → balance_of c' a u + gained owner l a u ≡ balance_of c a u)
withdraw-IsBacked c owner l memo force {c'} h q =
    let burn = withdraw-Burn c owner l memo force q in
    let account = burn.account in
    let b = burn.books in
    let own : (u : TokenId) → balance_of c owner u ≡ has u account =
      λ u. balance_of-some c owner account u burn.there in
    let kept =
      with_books-IsBacked c owner account b own
        (λ u. omega (arith, burn.taken.supply u, burn.taken.balance u))
        (less-IsSound c.total_supplies b.supplies (λ u. sum_at u l) burn.taken.supply h.sound) h in
    rw (burn.result) (
      record { backed = kept.backed; sound = kept.sound },
      burn.free,
      λ a u. withdrawn_balance c owner account b l memo a u own (burn.taken.balance u),
    )
