-- ===== src/Tests/Books.antt =====
-- The contract with the balances of two accounts.
use intents.Prelude.{
  ℕ, ◌+◌, ◌≡◌, refl, true, false, not, none, some, List, [], ◌∷◌, ◌==◌, ◌&&◌, nat_eq, nat_default,
  string_eq, arith, String,
}
use intents.MapUtils.{get, get_or_default, insert, remove, store}
use intents.Amounts.{add, sub, checked_apply}
use intents.TokenId.{AccountId, TokenId, token_eq}
use intents.TokenId.Text.{parse, split_once, parse_type, parse_account, to_string}
use intents.Error.{ok}
use intents.Lock.{Lock}
use intents.Events.{
  check_refund, compute_refund_delta, total_delta, saturating_add, refund_log_delta,
}
use intents.Deltas.Tracks.{IsLedger}
use intents.Engine.Conserves.{IsQuiet}
use intents.Account
use intents.Account.{Account, AccountType}
use intents.Contract.{
  do_ft_withdraw, ft_resolve_withdraw, Host, Contract, get_or_create, balance_of, is_account_locked,
}
use intents.Contract.Tokens.{
  deposit, deposit_tokens, deposit_token, withdraw, withdraw_tokens, withdraw_token, texts_of,
  resolve_deposit_internal,
}
use intents.Contract.Refunds.{IsAsked, amounts_of, AreSentBack, paired}
use intents.Contract.Supply.{IsBacked, gained, deposit-IsBacked}
use intents.Contract.Burns.{withdraw-IsBacked}
use intents.Contract.Resolve.{resolve_deposit_internal-Returns}
use intents.Contract.Transfers.{
  internal_mt_batch_transfer, transfer_tokens, transfer_token, send, receive, zipped,
  resolve_transfer,
}
use intents.Contract.Transferred.{Parses, internal_mt_batch_transfer-Passed}
use intents.Contract.Resolved.{AllParse, AreResolved, resolve_transfer-Returns}
use intents.Intents.{FtWithdraw}
use intents.Contract.Withdrawals.{Answer, failed}
use intents.Contract.Core.{contract_state}
use intents.Contract.Ledger.{contract_state-IsLawful}

abbrev host : Host
host = record {
  current_account_id = "intents.near";
  ids = record {
    to_implicit_account_id = λ _. "implicit";
    from_implicit_account_id = λ _. none;
    get_account_type = λ _. AccountType.named;
  };
  log_len = λ _. 100;
  is_account_id = λ _. true;
}

contract_state-IsLawful_example : IsLedger (contract_state host) × IsQuiet (contract_state host)
contract_state-IsLawful_example = contract_state-IsLawful host

abbrev fresh : Contract
fresh = record {
  accounts = [];
  total_supplies = [];
  wnear_id = "wrap.near";
  fee = 1;
  fee_collector = "fees.near";
  salts = record { previous = []; current = 7 };
  postponed_burns = [];
  promises = [];
}

fresh-IsBacked : IsBacked fresh
unfolding get_or_default get
fresh-IsBacked = record {
  backed = λ u. refl;
  sound = record { bounded = λ u. omega arith; unique = λ a x. omega arith };
}

abbrev usd : TokenId
usd = TokenId.nep141 "usd"

abbrev ten : List (TokenId × ℕ)
ten = (usd, 10) ∷ []

abbrev owner : AccountId → ℕ → AccountId × Lock Account
owner id x = (
  id,
  record {
    locked = false;
    value = record (Account.new host.ids id) { token_balances = (usd, x) ∷ [] };
  },
)

-- The contract when one account has deposited.
abbrev funded : Contract
funded = record fresh { total_supplies = ten; accounts = owner "alice" 10 ∷ [] }

deposits : deposit host fresh "alice" ten none ≡ ok funded
unfolding deposit deposit_tokens deposit_token get_or_create check_refund compute_refund_delta
    total_delta saturating_add refund_log_delta add checked_apply get_or_default store get insert
    remove Account.new
deposits = refl

deposit-IsBacked_example :
    IsBacked funded
    × ((a : AccountId) (u : TokenId)
        → balance_of funded a u ≡ balance_of fresh a u + gained "alice" ten a u)
deposit-IsBacked_example = deposit-IsBacked host fresh "alice" ten none fresh-IsBacked deposits

funded-IsBacked : IsBacked funded
funded-IsBacked = (deposit-IsBacked host fresh "alice" ten none fresh-IsBacked deposits).0

abbrev four : List (TokenId × ℕ)
four = (usd, 4) ∷ []

abbrev spent : Contract
spent = record fresh {
  total_supplies = (usd, 6) ∷ [];
  accounts = owner "alice" 6 ∷ [];
  postponed_burns =
      record { owner_id = "alice"; tokens = (to_string usd, 4) ∷ []; memo = none } ∷ [];
}

withdraws : withdraw funded "alice" four none false ≡ ok spent
unfolding withdraw withdraw_tokens withdraw_token texts_of sub checked_apply get_or_default store
    get insert remove Account.new
withdraws = refl

withdraw-IsBacked_example :
    IsBacked spent
    × (is_account_locked funded "alice" && not false ≡ false)
    × ((a : AccountId) (u : TokenId)
        → balance_of spent a u + gained "alice" four a u ≡ balance_of funded a u)
withdraw-IsBacked_example =
    withdraw-IsBacked funded "alice" four none false funded-IsBacked withdraws

resolve_deposit_internal-Returns_example :
    (c' : Contract) × (refunds : List ℕ) × (asked : List ℕ) × (resolve_deposit_internal funded
        "alice" ten
        (some (3 ∷ []))
      ≡ ok (c', refunds))
    × IsBacked c'
    × IsAsked (some (3 ∷ [])) (amounts_of ten) asked
    × AreSentBack (balance_of c' "alice") ten asked refunds
    × ((a : AccountId) (u : TokenId)
        → balance_of c' a u + gained "alice" (paired ten refunds) a u ≡ balance_of funded a u)
resolve_deposit_internal-Returns_example =
    resolve_deposit_internal-Returns funded "alice" ten (some (3 ∷ [])) funded-IsBacked

abbrev texts : List String
texts = "nep141:usd" ∷ []

abbrev shared : Contract
shared = record fresh { total_supplies = ten; accounts = owner "alice" 6 ∷ owner "bob" 4 ∷ [] }

transfers :
    internal_mt_batch_transfer host funded "alice" "bob" texts (4 ∷ []) none false ≡ ok shared
unfolding internal_mt_batch_transfer transfer_tokens transfer_token send receive zipped parse
    split_once parse_type parse_account get_or_create check_refund compute_refund_delta total_delta
    saturating_add refund_log_delta add sub checked_apply get_or_default store get insert remove
    Account.new
transfers = refl

internal_mt_batch_transfer-Passed_example :
    ((◌==◌ {K = AccountId} "alice" "bob") ≡ false)
    × (is_account_locked funded "alice" && not false ≡ false)
    × IsBacked shared
    × (l : List (TokenId × ℕ)) × Parses host (zipped texts (4 ∷ [])) l
    × ((a : AccountId) (u : TokenId)
        → balance_of shared a u + gained "alice" l a u ≡ balance_of funded a u + gained "bob" l a u)
internal_mt_batch_transfer-Passed_example =
    internal_mt_batch_transfer-Passed host funded "alice" "bob" texts (4 ∷ []) none false
      funded-IsBacked transfers

texts-AllParse : AllParse host texts
unfolding parse split_once parse_type parse_account
texts-AllParse = ((usd, refl), tt)

resolve_transfer-Returns_example :
    (c' : Contract) × (asked : List ℕ) × (used : List ℕ) × (l : List (TokenId × ℕ))
    × (resolve_transfer host funded ("bob" ∷ []) "alice" texts (4 ∷ []) true (some (3 ∷ []))
        ≡ ok (c', used))
    × IsAsked (some (3 ∷ [])) (4 ∷ []) asked
    × AreResolved host (balance_of c' "alice") texts (4 ∷ []) asked used l
    × IsBacked c'
    × ((a : AccountId) (u : TokenId)
        → balance_of c' a u + gained "alice" l a u ≡ balance_of funded a u + gained "bob" l a u)
resolve_transfer-Returns_example =
    resolve_transfer-Returns host funded "bob" [] "alice" texts (4 ∷ []) (some (3 ∷ []))
      funded-IsBacked refl refl refl texts-AllParse tt

-- The answer of a plain transfer that has failed.
abbrev lost : Answer ℕ
lost = failed

abbrev payout : FtWithdraw
payout = record {
  token = "usd";
  receiver_id = "bob";
  amount = 4;
  memo = none;
  msg = none;
  storage_deposit = none;
  min_gas = none;
}

abbrev pending : Contract
pending = record spent {
  postponed_burns =
      record { owner_id = "alice"; tokens = (to_string usd, 4) ∷ []; memo = some "withdraw" } ∷ [];
  promises = (do_ft_withdraw payout ∷ ft_resolve_withdraw "usd" "alice" 4 false ∷ []) ∷ [];
}
