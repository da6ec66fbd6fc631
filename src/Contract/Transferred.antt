-- ===== src/Contract/Transferred.antt =====
-- Whole transfers inside the contract: `internal_mt_batch_transfer` of contract/tokens/nep245/core.rs.
use intents.Prelude.{
  ℕ, ◌+◌, ◌≡◌, refl, ◌&&◌, ◌||◌, Bool, true, false, not, Option, none, some, List, [], ◌∷◌, ◌==◌,
  String, string_eq, nat_default, nat_beq, arith, length, inl, inr, Option-cases,
}
use intents.MapUtils.{get}
use intents.TokenId.{AccountId, TokenId, token_eq}
use intents.TokenId.Text.{parse}
use intents.Lock.{get_mut_maybe_forced}
use intents.Error.{ok, guard, guard-not-passes, >>=-returns, invalid_intent}
use intents.Events.{mt_transfer, check_refund}
use intents.Contract.{Host, Contract, balance_of, is_account_locked}
use intents.Contract.Supply.{IsBacked, gained, unlocked_or_forced}
use intents.Contract.Moves.{
  send-Took, receive-Gave, Passed, Passed-nothing, Passed-one, Passed-next, Passed-IsBacked,
}
use intents.Contract.Transfers.{
  or_parse, send, zipped, transfer_token, transfer_tokens, internal_mt_batch_transfer,
}

-- The tokens that the texts of a transfer parse to.
abbrev pub Parses : Host → List (String × ℕ) → List (TokenId × ℕ) → Type 0
Parses host [] [] = Unit
Parses host ((text, x) ∷ texts) ((token, y) ∷ l) =
    (parse host.is_account_id text ≡ some token) × (x ≡ y) × Parses host texts l
Parses host _ _ = ⊥

or_parse-ok : (o : Option TokenId) {t : TokenId} → or_parse o ≡ ok t → o ≡ some t
or_parse-ok none q = cc
or_parse-ok (some t) q = cc

module _ (host : Host) where
  transfer_token-Passed :
      (c : Contract) (sender receiver : AccountId) (force : Bool) (text : String) (x : ℕ)
      {c' : Contract}
      → transfer_token host c sender receiver force text x ≡ ok c'
      → (token : TokenId) × (parse host.is_account_id text ≡ some token)
        × (is_account_locked c sender && not force ≡ false)
        × Passed c sender receiver ((token, x) ∷ []) c'
  unfolding transfer_token
  transfer_token-Passed c sender receiver force text x q =
      let (_, _, q1) = >>=-returns _ (guard (not (nat_beq x 0)) invalid_intent) q in
      let (token, p, q2) = >>=-returns _ (or_parse (parse host.is_account_id text)) q1 in
      elim (Option-cases (get c.accounts sender)) [
        | inl e ↦ cc (rw e at q2)
        | inr (account, e) ↦
            let q3 = rw e at q2 in
            elim (Option-cases (get_mut_maybe_forced account force)) [
              | inl f ↦ cc (rw f at q3)
              | inr (value, f) ↦
                  let (sent, q4, q5) = >>=-returns _ (send c sender account token x) (rw f at q3) in
                  (
                    token,
                    or_parse-ok _ p,
                    unlocked_or_forced c sender account force e f,
                    Passed-one c sent _ sender receiver token x
                        (send-Took c sender account token x e q4)
                        (receive-Gave host sent receiver token x q5),
                  )
            ]
      ]

  transfer_tokens-Passed :
      (c : Contract) (sender receiver : AccountId) (force : Bool) (texts : List (String × ℕ))
      {c' : Contract}
      → transfer_tokens host c sender receiver force texts ≡ ok c'
      → (l : List (TokenId × ℕ)) × Parses host texts l × Passed c sender receiver l c'
  unfolding transfer_tokens
  transfer_tokens-Passed c sender receiver force [] {c'} q =
      let same : c' ≡ c = cc in ([], tt, rw same (Passed-nothing c sender receiver))
  transfer_tokens-Passed c sender receiver force ((text, x) ∷ texts) q =
      let (d, q1, q2) = >>=-returns _ (transfer_token host c sender receiver force text x) q in
      let (token, p, _, one) = transfer_token-Passed c sender receiver force text x q1 in
      let (l, ps, rest) = transfer_tokens-Passed d sender receiver force texts q2 in
      ((token, x) ∷ l, (p, refl, ps), Passed-next c d _ sender receiver token x l one rest)

  first_unlocked :
      (c : Contract) (sender receiver : AccountId) (force : Bool) (token_ids : List String)
      (amounts : List ℕ) {c' : Contract}
      → transfer_tokens host c sender receiver force (zipped token_ids amounts) ≡ ok c'
      → nat_beq (length token_ids) (length amounts) ≡ true
      → nat_beq (length amounts) 0 ≡ false
      → is_account_locked c sender && not force ≡ false
  unfolding transfer_tokens zipped
  first_unlocked c sender receiver force token_ids [] q n z = absurd (ground arith)
  first_unlocked c sender receiver force [] (x ∷ amounts) q n z = absurd (ground arith)
  first_unlocked c sender receiver force (text ∷ token_ids) (x ∷ amounts) q n z =
      let (d, q1, _) = >>=-returns _ (transfer_token host c sender receiver force text x) q in
      let (_, _, free, _) = transfer_token-Passed c sender receiver force text x q1 in free

  -- Where every supply is the sum of the balances, a transfer that succeeds is between two
  -- accounts, of which the sender is not locked, or forced; its texts parse to tokens. Its
  -- amounts leave the balances of the sender for those of the receiver, and no other balance
  -- changes; every supply is still the sum of the balances.
  pub internal_mt_batch_transfer-Passed :
      (c : Contract) (sender receiver : AccountId) (token_ids : List String) (amounts : List ℕ)
      (memo : Option String) (force : Bool) {c' : Contract}
      → IsBacked c
      → internal_mt_batch_transfer host c sender receiver token_ids amounts memo force ≡ ok c'
      → ((sender == receiver) ≡ false)
        × (is_account_locked c sender && not force ≡ false)
        × IsBacked c'
        × (l : List (TokenId × ℕ)) × Parses host (zipped token_ids amounts) l
        × ((a : AccountId) (u : TokenId)
            → balance_of c' a u + gained sender l a u ≡ balance_of c a u + gained receiver l a u)
  unfolding internal_mt_batch_transfer
  internal_mt_batch_transfer-Passed c sender receiver token_ids amounts memo force {c'} h q =
      let bad : Bool =
        (sender == receiver)
        || (not (nat_beq (length token_ids) (length amounts)) || nat_beq (length amounts) 0) in
      let (_, g, q1) = >>=-returns _ (guard (not bad) invalid_intent) q in
      let good = guard-not-passes bad invalid_intent g in
      let (d, q2, q3) =
        >>=-returns _ (transfer_tokens host c sender receiver force (zipped token_ids amounts))
          q1 in
      let (_, _, q4) =
        >>=-returns (λ _. ok d)
          (check_refund host.log_len (
            mt_transfer (
              record {
                old_owner_id = sender;
                new_owner_id = receiver;
                tokens = zipped token_ids amounts;
                memo = memo;
              }
              ∷ [])))
          q3 in
      let same : c' ≡ d = cc in
      let (l, ps, passed) =
        transfer_tokens-Passed c sender receiver force (zipped token_ids amounts) q2 in
      rw same (
        ground arith,
        first_unlocked c sender receiver force token_ids amounts q2 (ground arith) (ground arith),
        Passed-IsBacked c d sender receiver l passed h,
        l,
        ps,
        passed.reads,
      )
