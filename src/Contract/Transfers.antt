-- ===== src/Contract/Transfers.antt =====
-- contracts/defuse/src/contract/tokens/nep245/core.rs and resolver.rs: transfers between two accounts of
-- the contract, and the refunds that the receiver of a transfer asks for. Tokens come as texts.
use intents.Prelude.{
  ℕ, ◌-◌, Bool, not, ◌||◌, ◌&&◌, Option, none, some, List, [], ◌∷◌, length, map, String, ◌==◌,
  string_eq, nat_default, nat_beq, min, if◌then◌else◌,
}
use intents.MapUtils.{get}
use intents.Amounts.{amount_for, add, sub}
use intents.TokenId.{AccountId, TokenId, token_eq}
use intents.TokenId.Text.{parse}
use intents.Lock.{Lock, get_mut_maybe_forced, with_value}
use intents.Error.{
  Result, ok, err, panicked, guard, ◌>>=◌, ◌>>◌, invalid_intent, account_not_found, account_locked,
  parse_token_id,
}
use intents.Events.{mt_transfer, check_refund}
use intents.Intents.{NotifyOnTransfer}
use intents.Account.{Account, with_balances}
use intents.Contract.{
  Host, Call, Contract, get_or_create, with_account, scheduled, mt_on_transfer, mt_resolve_transfer,
}
use intents.Contract.Tokens.{or_overflow}

-- `?` and `unwrap()` of a parsed token
abbrev pub or_parse : Option TokenId → Result TokenId
or_parse none = err parse_token_id
or_parse (some token) = ok token

-- A panic in place of an error.
abbrev pub unwrap : {A : Type 0} → Result A → Result A
unwrap (ok a) = ok a
unwrap (err _) = panicked
unwrap panicked = panicked

-- One amount is taken from an account that is there.
unfoldable pub send : Contract → AccountId → Lock Account → TokenId → ℕ → Result Contract
send c id account token amount =
    or_overflow (sub account.value.token_balances token amount) >>= λ less.
    ok (with_account c id (with_value account (with_balances account.value less.0)))

-- `token_ids.iter().zip(amounts)`
unfoldable pub zipped : List String → List ℕ → List (String × ℕ)
zipped [] amounts = []
zipped (_ ∷ _) [] = []
zipped (text ∷ texts) (amount ∷ amounts) = (text, amount) ∷ zipped texts amounts

-- One entry of a transfer that is to be resolved.
pub record Entry : Type 0 where
  pub token_id : String
  pub previous_owner_id : AccountId
  pub amount : ℕ
  pub refund : ℕ

module _ (host : Host) where
  -- One amount is given to an account, locked or not, which is made if need be.
  unfoldable pub receive : Contract → AccountId → TokenId → ℕ → Result Contract
  unfolding get_or_create
  receive c id token amount =
      let account = get_or_create host c id in
      or_overflow (add account.value.token_balances token amount) >>= λ more.
      ok (with_account c id (with_value account (with_balances account.value more.0)))

  unfoldable pub transfer_token :
      Contract → AccountId → AccountId → Bool → String → ℕ → Result Contract
  unfolding send receive
  transfer_token c sender receiver force text amount =
      guard (not (nat_beq amount 0)) invalid_intent
      >> (or_parse (parse host.is_account_id text) >>= λ token. elim (get c.accounts sender) [
        | none ↦ err (account_not_found sender)
        | some account ↦ elim (get_mut_maybe_forced account force) [
          | none ↦ err (account_locked sender)
          | some _ ↦
              send c sender account token amount >>= λ sent. receive sent receiver token amount
        ]
      ])

  unfoldable pub transfer_tokens :
      Contract → AccountId → AccountId → Bool → List (String × ℕ) → Result Contract
  unfolding transfer_token
  transfer_tokens c sender receiver force [] = ok c
  transfer_tokens c sender receiver force ((text, amount) ∷ rest) =
      transfer_token c sender receiver force text amount >>= λ after.
      transfer_tokens after sender receiver force rest

  unfoldable pub internal_mt_batch_transfer :
      Contract
      → AccountId
      → AccountId
      → List String
      → List ℕ
      → Option String
      → Bool
      → Result Contract
  unfolding transfer_tokens zipped
  internal_mt_batch_transfer c sender receiver token_ids amounts memo force =
      guard
        (not (
          (sender == receiver)
          || (not (nat_beq (length token_ids) (length amounts)) || nat_beq (length amounts) 0)))
        invalid_intent
      >> (transfer_tokens c sender receiver force (zipped token_ids amounts) >>= λ after.
          check_refund host.log_len (
            mt_transfer (
              record {
                old_owner_id = sender;
                new_owner_id = receiver;
                tokens = zipped token_ids amounts;
                memo = memo;
              }
              ∷ []))
          >> ok after)

  unfoldable pub notify_and_resolve_transfer :
      AccountId → AccountId → List (String × ℕ) → NotifyOnTransfer → List Call
  notify_and_resolve_transfer sender receiver tokens notify =
      mt_on_transfer sender receiver tokens notify ∷ mt_resolve_transfer sender receiver tokens ∷ []

  -- `PromiseOrValue::Promise`, which the call returns, is scheduled.
  unfoldable pub internal_mt_batch_transfer_call :
      Contract
      → AccountId
      → AccountId
      → List String
      → List ℕ
      → Option String
      → String
      → Bool
      → Result Contract
  unfolding internal_mt_batch_transfer notify_and_resolve_transfer
  internal_mt_batch_transfer_call c sender receiver token_ids amounts memo msg force =
      internal_mt_batch_transfer c sender receiver token_ids amounts memo force >>= λ after. ok (
        scheduled after (
          notify_and_resolve_transfer sender receiver (zipped token_ids amounts)
            (record { state_init = none; msg = msg; min_gas = none })))

  -- One round of `mt_resolve_transfer`: the refund goes from the receiver to the previous owner. The
  -- amount that was used.
  unfoldable pub refund_entry :
      Contract → AccountId → Lock Account → TokenId → Entry → Result (Contract × ℕ)
  unfolding send receive
  refund_entry c receiver account token e =
      let refund = min (min e.refund e.amount) (amount_for account.value.token_balances token) in
      if nat_beq refund 0
      then ok (c, e.amount)
      else (unwrap (send c receiver account token refund) >>= λ sent.
          unwrap (receive sent e.previous_owner_id token refund) >>= λ after.
          ok (after, e.amount - refund))

  -- The loop over the entries: the amounts that were used.
  unfoldable pub resolve_tokens :
      Contract → AccountId → AccountId → List Entry → Result (Contract × List ℕ)
  unfolding refund_entry
  resolve_tokens c sender receiver [] = ok (c, [])
  resolve_tokens c sender receiver (e ∷ rest) =
      unwrap (or_parse (parse host.is_account_id e.token_id)) >>= λ token.
      (if sender == e.previous_owner_id then ok tt else panicked)
      >> elim (get c.accounts receiver) [
        | none ↦ ok (c, map (λ (x : Entry). x.amount) (e ∷ rest))
        | some account ↦ refund_entry c receiver account token e >>= λ one.
            resolve_tokens one.0 sender receiver rest >>= λ others. ok (others.0, one.1 ∷ others.1)
      ]

  -- The entries of the four lists that are walked together.
  unfoldable pub entries : List String → List AccountId → List ℕ → List ℕ → List Entry
  entries (t ∷ ts) (o ∷ os) (a ∷ amounts) (r ∷ refunds) =
      record { token_id = t; previous_owner_id = o; amount = a; refund = r }
      ∷ entries ts os amounts refunds
  entries _ _ _ _ = []

  -- The refunds of a result that can be read and has as many, and all of the amounts otherwise.
  abbrev pub refunds_or_all : Option (List ℕ) → List ℕ → List ℕ
  refunds_or_all none amounts = amounts
  refunds_or_all (some refunds) amounts =
      if nat_beq (length refunds) (length amounts) then refunds else amounts

  -- `approvals.is_none()` and the result of the promise are given. The amounts that were used.
  unfoldable pub resolve_transfer :
      Contract
      → List AccountId
      → AccountId
      → List String
      → List ℕ
      → Bool
      → Option (List ℕ)
      → Result (Contract × List ℕ)
  unfolding resolve_tokens entries
  resolve_transfer c previous_owner_ids receiver token_ids amounts no_approvals result =
      (if no_approvals then ok tt else panicked)
      >> ((if not (nat_beq (length token_ids) 0)
              && (nat_beq (length previous_owner_ids) (length token_ids)
                  && nat_beq (length amounts) (length token_ids))
            then ok tt
            else panicked)
          >> elim previous_owner_ids [
            | [] ↦ panicked
            | sender ∷ others ↦
                resolve_tokens c sender receiver
                  (entries token_ids (sender ∷ others) amounts (refunds_or_all result amounts))
          ])
