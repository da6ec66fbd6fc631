-- ===== src/Contract/Withdrawals.antt =====
-- contracts/defuse/src/contract/tokens: withdrawals to other contracts, in nep141/withdraw.rs,
-- nep171/withdraw.rs and nep245/withdraw.rs, with the refunds of those that fail.
use intents.Prelude.{
  ℕ, ◌+◌, ◌-◌, ◌*◌, ◌^◌, Bool, true, false, not, ◌||◌, Option, none, some, List, [], ◌∷◌, ◌++◌,
  length, String, nat_beq, ltb, min, if◌then◌else◌, replicate,
}
use intents.TokenId.{AccountId, TokenId}
use intents.Error.{Result, ok, panicked, guard, ◌>>=◌, ◌>>◌, invalid_intent}
use intents.Intents.{FtWithdraw, NftWithdraw, MtWithdraw, gas_or, at_least}
use intents.Events.{refund_memo}
use intents.Contract.{
  Host, Call, Contract, scheduled, near_withdraw, do_ft_withdraw, do_nft_withdraw, do_mt_withdraw,
  ft_resolve_withdraw, nft_resolve_withdraw, mt_resolve_withdraw,
}
use intents.Contract.Tokens.{deposit, withdraw}
use intents.Contract.Transfers.{unwrap}

abbrev pub tgas : ℕ → ℕ
tgas n = n * 10 ^ 12

abbrev pub is_call : Option String → Bool
is_call none = false
is_call (some _) = true

-- `min_gas` of a withdrawal: no less than the minimum for what it calls.
abbrev pub min_gas_of : Option String → Option ℕ → ℕ → ℕ → ℕ → ℕ → ℕ
min_gas_of msg asked low usual low_call usual_call =
    if is_call msg
    then at_least (gas_or asked usual_call) low_call
    else at_least (gas_or asked usual) low

unfoldable pub ft_min_gas : FtWithdraw → ℕ
ft_min_gas w = min_gas_of w.msg w.min_gas (tgas 15) (tgas 15) (tgas 30) (tgas 50)

unfoldable pub nft_min_gas : NftWithdraw → ℕ
nft_min_gas w = min_gas_of w.msg w.min_gas (tgas 15) (tgas 15) (tgas 30) (tgas 50)

unfoldable pub mt_min_gas : MtWithdraw → ℕ
mt_min_gas w = min_gas_of w.msg w.min_gas (tgas 20) (tgas 20) (tgas 35) (tgas 50)

-- `checked_add` of two `Gas`, with the panic of an overflow.
abbrev pub check_gas : ℕ → ℕ → Result (Unit {0})
check_gas a b = if ltb (a + b) (2 ^ 64) then ok tt else panicked

-- `STORAGE_DEPOSIT_GAS` with the 5 TGas of `DO_FT_WITHDRAW_GAS` and its like.
abbrev pub do_withdraw_gas : ℕ
do_withdraw_gas = tgas 5 + tgas 10

-- `mt_resolve_withdraw_gas`, which panics past a `u64`.
abbrev pub check_resolve_gas : ℕ → Result (Unit {0})
check_resolve_gas count = if ltb (tgas 8 + tgas 2 * count) (2 ^ 64) then ok tt else panicked

-- The wNEAR that the deposit for storage takes, beside what is withdrawn.
abbrev pub storage_of : Contract → Option ℕ → List (TokenId × ℕ)
storage_of c none = []
storage_of c (some amount) = (TokenId.nep141 c.wnear_id, amount) ∷ []

-- The promise: first the wNEAR for storage, if any, is unwrapped, whose callback needs gas.
abbrev pub prepared : Option ℕ → ℕ → Result (Unit {0})
prepared none gas = ok tt
prepared (some _) gas = check_gas do_withdraw_gas gas

abbrev pub after_storage : Option ℕ → List Call → List Call
after_storage none calls = calls
after_storage (some amount) calls = near_withdraw amount ∷ calls

unfoldable pub internal_ft_withdraw : Contract → AccountId → FtWithdraw → Bool → Result Contract
unfolding ft_min_gas
internal_ft_withdraw c owner w force =
    withdraw c owner ((TokenId.nep141 w.token, w.amount) ∷ storage_of c w.storage_deposit)
      (some "withdraw") force
    >>= λ after.
        prepared w.storage_deposit (ft_min_gas w)
        >> ok (
            scheduled after (
              after_storage w.storage_deposit (
                do_ft_withdraw w
                ∷ ft_resolve_withdraw w.token owner w.amount (is_call w.msg)
                ∷ [])))

unfoldable pub internal_nft_withdraw : Contract → AccountId → NftWithdraw → Bool → Result Contract
unfolding nft_min_gas
internal_nft_withdraw c owner w force =
    withdraw c owner ((TokenId.nep171 w.token w.token_id, 1) ∷ storage_of c w.storage_deposit)
      (some "withdraw") force
    >>= λ after.
        prepared w.storage_deposit (nft_min_gas w)
        >> ok (
            scheduled after (
              after_storage w.storage_deposit (
                do_nft_withdraw w
                ∷ nft_resolve_withdraw w.token owner w.token_id (is_call w.msg)
                ∷ [])))

-- `token_ids.map(Nep245TokenId::new(token, ..)).zip(amounts)`
unfoldable pub mt_tokens : AccountId → List String → List ℕ → List (TokenId × ℕ)
mt_tokens token (t ∷ ts) (x ∷ xs) = (TokenId.nep245 token t, x) ∷ mt_tokens token ts xs
mt_tokens token _ _ = []

unfoldable pub internal_mt_withdraw : Contract → AccountId → MtWithdraw → Bool → Result Contract
unfolding mt_min_gas mt_tokens
internal_mt_withdraw c owner w force =
    guard
      (not
        (not (nat_beq (length w.token_ids) (length w.amounts)) || nat_beq (length w.token_ids) 0))
      invalid_intent
    >> (withdraw c owner (mt_tokens w.token w.token_ids w.amounts ++ storage_of c w.storage_deposit)
          (some "withdraw") force
        >>= λ after.
            prepared w.storage_deposit (mt_min_gas w)
            >> (check_resolve_gas (length w.token_ids)
                >> ok (
                    scheduled after (
                      after_storage w.storage_deposit (
                        do_mt_withdraw w
                        ∷ mt_resolve_withdraw w.token owner w.token_ids w.amounts (is_call w.msg)
                        ∷ [])))))

-- The result of the promise of a withdrawal: it failed, or what it returned is empty, is no value of the
-- type that is expected, or is one.
pub data Answer {ℓ} (A : Type ℓ) : Type ℓ where
  failed empty unreadable : Answer A
  answered : A → Answer A

-- `promise_result_checked_void(0).is_ok()`
abbrev pub is_void : {A : Type 0} → Answer A → Bool
is_void empty = true
is_void _ = false

-- How much of an amount was used. A failed `ft_transfer_call` counts as used.
abbrev pub ft_used : ℕ → Bool → Answer ℕ → ℕ
ft_used amount true (answered used) = min used amount
ft_used amount true failed = amount
ft_used amount true empty = 0
ft_used amount true unreadable = 0
ft_used amount false result = if is_void result then amount else 0

abbrev pub nft_used : Bool → Answer Bool → Bool
nft_used true (answered used) = used
nft_used true failed = true
nft_used true empty = false
nft_used true unreadable = false
nft_used false result = is_void result

abbrev pub mt_used : List ℕ → Bool → Answer (List ℕ) → List ℕ
mt_used amounts true (answered used) =
    if nat_beq (length used) (length amounts) then used else replicate (length amounts) 0
mt_used amounts true failed = amounts
mt_used amounts true empty = replicate (length amounts) 0
mt_used amounts true unreadable = replicate (length amounts) 0
mt_used amounts false result = if is_void result then amounts else replicate (length amounts) 0

-- The amounts that are used, no more than were withdrawn, and the refunds of the rest.
unfoldable pub capped : List ℕ → List ℕ → List ℕ
capped (x ∷ xs) (u ∷ us) = min u x ∷ capped xs us
capped _ _ = []

unfoldable pub mt_refunds : AccountId → List String → List ℕ → List ℕ → List (TokenId × ℕ)
mt_refunds token (t ∷ ts) (x ∷ xs) (u ∷ us) =
    let rest = mt_refunds token ts xs us in
    if ltb 0 (x - min u x) then (TokenId.nep245 token t, x - min u x) ∷ rest else rest
mt_refunds token _ _ _ = []

module _ (host : Host) where
  unfoldable pub ft_resolve :
      Contract → AccountId → AccountId → ℕ → Bool → Answer ℕ → Result (Contract × ℕ)
  ft_resolve c token sender amount call result =
      let used = ft_used amount call result in
      let refund = amount - used in
      (if ltb 0 refund
        then unwrap (deposit host c sender ((TokenId.nep141 token, refund) ∷ []) (some refund_memo))
        else ok c)
      >>= λ after. ok (after, used)

  unfoldable pub nft_resolve :
      Contract → AccountId → AccountId → String → Bool → Answer Bool → Result (Contract × Bool)
  nft_resolve c token sender token_id call result =
      let used = nft_used call result in
      (if not used
        then unwrap
            (deposit host c sender ((TokenId.nep171 token token_id, 1) ∷ []) (some refund_memo))
        else ok c)
      >>= λ after. ok (after, used)

  unfoldable pub mt_resolve :
      Contract
      → AccountId
      → AccountId
      → List String
      → List ℕ
      → Bool
      → Answer (List ℕ)
      → Result (Contract × List ℕ)
  unfolding capped mt_refunds
  mt_resolve c token sender token_ids amounts call result =
      (if nat_beq (length token_ids) (length amounts) then ok tt else panicked)
      >> ((if not (nat_beq (length amounts) 0) then ok tt else panicked)
          >> (unwrap (
                deposit host c sender
                  (mt_refunds token token_ids amounts (mt_used amounts call result))
                  (some refund_memo))
              >>= λ after. ok (after, capped amounts (mt_used amounts call result))))
