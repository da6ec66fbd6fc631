-- ===== src/Contract/Refunded.antt =====
-- A withdrawal to another contract and its resolver (contract/tokens/nep141/withdraw.rs), one after
-- the other.
use intents.Prelude.{
  String, none, Option, min, ◌++◌, ℕ, ◌+◌, ◌≡◌, some, List, [], ◌∷◌, string_eq, nat_default,
}
use intents.TokenId.{AccountId, TokenId, token_eq}
use intents.Error.{ok}
use intents.Events.{mt_mint, check_refund, refund_memo}
use intents.Intents.{FtWithdraw}
use intents.Contract.{Call, do_ft_withdraw, ft_resolve_withdraw, Host, Contract, balance_of}
use intents.Contract.Tokens.{Books, texts_of}
use intents.Contract.Supply.{IsBacked, gained}
use intents.Contract.Withdrawals.{
  Answer, empty, failed, unreadable, answered, is_call, after_storage,
}

-- The deposit of a refund, and that its event fits in the log.
abbrev pub LogFits : Host → AccountId → List (TokenId × ℕ) → Type 0
LogFits host owner l =
    check_refund host.log_len
      (mt_mint (record { owner_id = owner; tokens = texts_of l; memo = some refund_memo } ∷ []))
    ≡ ok tt

-- How much of a withdrawal counts as used: of a plain transfer, all if it returns nothing, as it does
-- on success, and nothing otherwise; of a transfer with a message, what it answers, no more than was
-- sent, all of it if it has failed, and nothing if what it returns is no amount.
abbrev pub IsUsed : (amount : ℕ) (msg : Option String) → Answer ℕ → (used : ℕ) → Type 0
IsUsed amount none empty used = used ≡ amount
IsUsed amount none failed used = used ≡ 0
IsUsed amount none unreadable used = used ≡ 0
IsUsed amount none (answered x) used = used ≡ 0
IsUsed amount (some _) empty used = used ≡ 0
IsUsed amount (some _) failed used = used ≡ amount
IsUsed amount (some _) unreadable used = used ≡ 0
IsUsed amount (some _) (answered x) used = used ≡ min amount x

-- What a withdrawal that was scheduled leaves.
record Started (c : Contract) (owner : AccountId) (l : List (TokenId × ℕ)) (promise : List Call)
    (c' : Contract) : Type 0 where
  backed : IsBacked c'
  balances :
      (a : AccountId) (u : TokenId) → balance_of c' a u + gained owner l a u ≡ balance_of c a u
  promises : c'.promises ≡ c.promises ++ promise ∷ []

-- The promise of a withdrawal: calls, and after them the resolver.
abbrev ft_promise : AccountId → FtWithdraw → List Call
ft_promise owner w =
    after_storage w.storage_deposit
      (do_ft_withdraw w ∷ ft_resolve_withdraw w.token owner w.amount (is_call w.msg) ∷ [])
