-- ===== src/TokenDiff.antt =====
-- contracts/defuse/core/src/intents/token_diff.rs: the fee of a token and the closure of a delta.
-- (`TokenDiff::execute_intent` stands in Engine.)
pub mod Rounding
pub mod Closure
use intents.Prelude.{ℕ, ◌+◌, Bool, Option, none, some, List, [], ◌∷◌, ltb, if◌then◌else◌}
use intents.Prelude.Int.{ℤ, pos, is_negative, abs, int_default}
use intents.NumUtils.{checked_neg, checked_mul_div_ceil_i128, checked_mul_div_euclid_i128}
use intents.Fees.{Pips, max_pips, invert}
use intents.TokenId.{TokenId, TokenIdType, token_id_type, token_eq}
use intents.Amounts.{Amounts, with_apply_delta}

-- No fee is taken on an NFT, nor on one unit of a multi-token.
unfoldable pub token_fee : TokenId → ℕ → Pips → Pips
token_fee token amount fee = elim (token_id_type token) [
  | TokenIdType.nep141 ↦ fee
  | TokenIdType.nep171 ↦ 0
  | TokenIdType.nep245 ↦ if ltb 1 amount then fee else 0
  | TokenIdType.imt ↦ if ltb 1 amount then fee else 0
]

-- What a delta changes of the total that is left for others, once its fee is taken.
unfoldable pub supply_delta : TokenId → ℤ → Pips → Option ℤ
unfolding invert checked_mul_div_ceil_i128
supply_delta token delta fee =
    if is_negative delta
    then checked_mul_div_ceil_i128 delta (invert (token_fee token (abs delta) fee)) max_pips
    else some delta

unfoldable pub closure_supply_delta : TokenId → ℤ → Pips → Option ℤ
unfolding invert checked_mul_div_euclid_i128
closure_supply_delta token delta fee = elim (checked_neg delta) [
  | none ↦ none
  | some closure ↦
      if is_negative closure
      then checked_mul_div_euclid_i128 closure max_pips (invert (token_fee token (abs delta) fee))
      else some closure
]

unfoldable pub closure_delta : TokenId → ℤ → Pips → Option ℤ
unfolding supply_delta closure_supply_delta
closure_delta token delta fee = elim (supply_delta token delta fee) [
  | none ↦ none
  | some supply ↦ closure_supply_delta token supply fee
]

-- The two `try_fold`s of `closure_deltas`.
unfoldable pub supply_fold :
    Amounts TokenId ℤ → List (TokenId × ℤ) → Pips → Option (Amounts TokenId ℤ)
unfolding with_apply_delta supply_delta
supply_fold deltas [] fee = some deltas
supply_fold deltas ((token, delta) ∷ l) fee = elim (supply_delta token delta fee) [
  | none ↦ none
  | some s ↦ elim (with_apply_delta deltas token s) [
    | none ↦ none
    | some deltas' ↦ supply_fold deltas' l fee
  ]
]

unfoldable pub closure_fold :
    Amounts TokenId ℤ → List (TokenId × ℤ) → Pips → Option (Amounts TokenId ℤ)
unfolding with_apply_delta closure_supply_delta
closure_fold deltas [] fee = some deltas
closure_fold deltas ((token, delta) ∷ l) fee = elim (closure_supply_delta token delta fee) [
  | none ↦ none
  | some c ↦ elim (with_apply_delta deltas token c) [
    | none ↦ none
    | some deltas' ↦ closure_fold deltas' l fee
  ]
]

unfoldable pub closure_deltas : List (TokenId × ℤ) → Pips → Option (Amounts TokenId ℤ)
unfolding supply_fold closure_fold
closure_deltas deltas fee = elim (supply_fold [] deltas fee) [
  | none ↦ none
  | some supplies ↦ closure_fold [] supplies fee
]
