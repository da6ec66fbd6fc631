-- ===== src/Contract/Tokens.antt =====
-- contracts/defuse/src/contract/tokens/mod.rs: deposits into the contract, withdrawals out of it, and
-- the refunds of deposits.
use intents.Prelude.{
  ℕ, zero, suc, Bool, not, Option, none, some, List, [], ◌∷◌, ◌++◌, length, map, String, string_eq,
  nat_default, nat_beq, ltb, min, if◌then◌else◌,
}
use intents.MapUtils.{get, is_empty}
use intents.Amounts.{Amounts, amount_for, add, sub}
use intents.TokenId.{AccountId, TokenId, token_eq}
use intents.TokenId.Text.{to_string}
use intents.Lock.{Lock, get_mut_maybe_forced, with_value}
use intents.Error.{
  Result, ok, err, panicked, guard, ◌>>=◌, ◌>>◌, balance_overflow, invalid_intent,
  account_not_found, account_locked, nft_already_deposited,
}
use intents.Events.{mt_mint, check_refund}
use intents.Account.{Account, with_balances}
use intents.Contract.{Host, Contract, get_or_create, with_account}

-- `.ok_or(BalanceOverflow)?` after a change of amounts: the amounts, and the amount of the key.
abbrev pub or_overflow : Amounts TokenId ℕ × Option ℕ → Result (Amounts TokenId ℕ × ℕ)
or_overflow (amounts, none) = err balance_overflow
or_overflow (amounts, some total) = ok (amounts, total)

-- There is one of a non-fungible token at most.
abbrev pub check_unique : TokenId → ℕ → Result (Unit {0})
check_unique (TokenId.nep171 contract token) total =
    guard (not (ltb 1 total)) (nft_already_deposited contract token)
check_unique (TokenId.nep141 _) total = ok tt
check_unique (TokenId.nep245 _ _) total = ok tt
check_unique (TokenId.imt _ _) total = ok tt

-- The total supplies and the balances of one account, which a loop changes together.
pub record Books : Type 0 where
  pub supplies : Amounts TokenId ℕ
  pub balances : Amounts TokenId ℕ

unfoldable pub deposit_token : Books → TokenId → ℕ → Result Books
deposit_token b token amount =
    guard (not (nat_beq amount 0)) invalid_intent
    >> (or_overflow (add b.supplies token amount) >>= λ supply.
        check_unique token supply.1
        >> (or_overflow (add b.balances token amount) >>= λ balance.
            ok (record { supplies = supply.0; balances = balance.0 })))

unfoldable pub deposit_tokens : Books → List (TokenId × ℕ) → Result Books
unfolding deposit_token
deposit_tokens b [] = ok b
deposit_tokens b ((token, amount) ∷ rest) =
    deposit_token b token amount >>= λ after. deposit_tokens after rest

unfoldable pub withdraw_token : Books → TokenId → ℕ → Result Books
withdraw_token b token amount =
    guard (not (nat_beq amount 0)) invalid_intent
    >> (or_overflow (sub b.balances token amount) >>= λ balance.
        or_overflow (sub b.supplies token amount) >>= λ supply.
        ok (record { supplies = supply.0; balances = balance.0 }))

unfoldable pub withdraw_tokens : Books → List (TokenId × ℕ) → Result Books
unfolding withdraw_token
withdraw_tokens b [] = ok b
withdraw_tokens b ((token, amount) ∷ rest) =
    withdraw_token b token amount >>= λ after. withdraw_tokens after rest

abbrev pub unwrap_or : Option ℕ → ℕ → ℕ
unwrap_or none other = other
unwrap_or (some x) other = x

abbrev pub refund_amount : Books → TokenId → ℕ → Option ℕ → ℕ
refund_amount b token deposited requested =
    min (min (unwrap_or requested deposited) deposited) (amount_for b.balances token)

-- One token of a refund: what the receiver asks to send back, no more than was deposited and than it
-- still has. Without an answer that can be read, all of it. The amount that is sent back.
unfoldable pub refund_token : Books → TokenId → ℕ → Option ℕ → Result (Books × ℕ)
refund_token b token deposited requested =
    let refund = refund_amount b token deposited requested in
    if nat_beq refund 0 then ok (b, refund) else elim (or_overflow (sub b.balances token refund)) [
      | ok balance ↦ elim (or_overflow (sub b.supplies token refund)) [
        | ok supply ↦ ok (record { supplies = supply.0; balances = balance.0 }, refund)
        | err _ ↦ panicked
        | panicked ↦ panicked
      ]
      | err _ ↦ panicked
      | panicked ↦ panicked
    ]

-- The requests run beside the tokens: `repeat_n(None, ..)` where there is no answer.
unfoldable pub refund_tokens :
    Books → List (TokenId × ℕ) → List (Option ℕ) → Result (Books × List ℕ)
unfolding refund_token
refund_tokens b [] _ = ok (b, [])
refund_tokens b ((token, deposited) ∷ rest) (asked ∷ requests) =
    refund_token b token deposited asked >>= λ one.
    refund_tokens one.0 rest requests >>= λ others. ok (others.0, one.1 ∷ others.1)
refund_tokens b (_ ∷ _) [] = panicked

-- `token_id.to_string()` and the amount, as they are pushed to an event.
unfoldable pub texts_of : List (TokenId × ℕ) → List (String × ℕ)
texts_of l = map (λ entry. (to_string entry.0, entry.1)) l

-- What is in the books of an account is put back.
abbrev pub with_books : Contract → AccountId → Lock Account → Books → Contract
with_books c id account b =
    record (with_account c id (with_value account (with_balances account.value b.balances))) {
      total_supplies = b.supplies;
    }

abbrev pub books_of : Contract → Lock Account → Books
books_of c account = record { supplies = c.total_supplies; balances = account.value.token_balances }

abbrev pub repeat_none : ℕ → List (Option ℕ)
repeat_none zero = []
repeat_none (suc n) = none ∷ repeat_none n

-- The refunds that a receiver asks for: those of a result that can be read and has as many.
unfoldable pub requested_refunds : Option (List ℕ) → ℕ → List (Option ℕ)
requested_refunds none n = repeat_none n
requested_refunds (some refunds) n =
    if nat_beq (length refunds) n then map some refunds else repeat_none n

module _ (host : Host) where
  unfoldable pub deposit :
      Contract → AccountId → List (TokenId × ℕ) → Option String → Result Contract
  unfolding deposit_tokens get_or_create
  deposit c owner tokens memo =
      let account = get_or_create host c owner in
      deposit_tokens (books_of c account) tokens >>= λ after.
      (if not (is_empty tokens)
        then check_refund host.log_len
            (mt_mint (record { owner_id = owner; tokens = texts_of tokens; memo = memo } ∷ []))
        else ok tt)
      >> ok (with_books c owner account after)

unfoldable pub withdraw :
    Contract → AccountId → List (TokenId × ℕ) → Option String → Bool → Result Contract
unfolding withdraw_tokens
withdraw c owner tokens memo force = elim (get c.accounts owner) [
  | none ↦ err (account_not_found owner)
  | some account ↦ elim (get_mut_maybe_forced account force) [
    | none ↦ err (account_locked owner)
    | some _ ↦ withdraw_tokens (books_of c account) tokens >>= λ after.
        ok (record (with_books c owner account after) {
          postponed_burns =
              if not (is_empty tokens)
              then c.postponed_burns
                ++ record { owner_id = owner; tokens = texts_of tokens; memo = memo } ∷ []
              else c.postponed_burns;
        })
  ]
]

-- The amounts that are sent back; none where the receiver has no account.
unfoldable pub resolve_deposit_internal :
    Contract → AccountId → List (TokenId × ℕ) → Option (List ℕ) → Result (Contract × List ℕ)
unfolding refund_tokens requested_refunds
resolve_deposit_internal c receiver tokens result = elim (get c.accounts receiver) [
  | none ↦ ok (c, map (λ _. 0) tokens)
  | some account ↦
      refund_tokens (books_of c account) tokens (requested_refunds result (length tokens))
      >>= λ after. ok (with_books c receiver account after.0, after.1)
]
