-- ===== src/Matcher.antt =====
-- contracts/defuse/core/src/engine/state/deltas.rs: `TransferMatcher`, which collects deposits and
-- withdrawals as deltas without a counterparty and turns them into transfers between accounts.
-- `none` stands for an `unreachable!()` that is reached, or for fuel that ran out.
pub mod Net
pub mod Flow
pub mod Sort
pub mod Loop
pub mod Finalize
pub mod Round
pub mod Settle
pub mod Change
use intents.Prelude.{
  ℕ, zero, suc, ◌+◌, ◌-◌, min, ◌≡◌, ◌↔◌, Bool, true, false, Option, none, some, List, [], ◌∷◌, ◌&&◌,
  ◌||◌, not, Eq, ◌==◌, Default, nat_beq, ltb, leb, if◌then◌else◌, nat_default, string_eq, length,
  arith,
}
use intents.Prelude.Int.{ℤ, pos, negsuc, int_default, is_negative, abs, beq_ℤ}
use intents.NumUtils.{checked_add, to_i128, checked_neg}
use intents.MapUtils.{Map, get_or_default, store, is_empty}
use intents.Amounts.{Amounts, amount_for, add, sub, apply_delta}
use intents.TokenId.{AccountId, TokenId, token_eq}

-- A map is the default of its type when it is empty.
pub is_empty_iff {ℓ κ} : {K : Type ℓ} {V : Type κ} (m : Map K V) → (is_empty m ≡ true) ↔ (m ≡ [])
is_empty_iff [] = ground arith
is_empty_iff (x ∷ m) = ground arith

instance abbrev pub map_default {ℓ κ} : {K : Type ℓ} {V : Type κ} → Default (Map K V)
map_default = record { default = []; is_default = is_empty; is_default_iff = is_empty_iff }

abbrev pub AccountAmounts : Type 0
AccountAmounts = Amounts AccountId ℕ

pub record TokenTransferMatcher : Type 0 where
  pub deposits : AccountAmounts
  pub withdrawals : AccountAmounts

abbrev pub is_empty_matcher : TokenTransferMatcher → Bool
is_empty_matcher m = is_empty m.deposits && is_empty m.withdrawals

abbrev pub empty_matcher : TokenTransferMatcher
empty_matcher = record { deposits = []; withdrawals = [] }

pub is_empty_matcher_iff :
    (m : TokenTransferMatcher) → (is_empty_matcher m ≡ true) ↔ (m ≡ empty_matcher)
is_empty_matcher_iff m = ground (arith, is_empty_iff m.deposits, is_empty_iff m.withdrawals)

instance abbrev pub matcher_default : Default TokenTransferMatcher
matcher_default = record {
  default = empty_matcher;
  is_default = is_empty_matcher;
  is_default_iff = is_empty_matcher_iff;
}

abbrev pub is_some {ℓ} : {A : Type ℓ} → Option A → Bool
is_some none = false
is_some (some _) = true

-- The end of `sub_add`: `add.add(owner_id, amount).is_some()`.
unfoldable pub grow :
    AccountAmounts
    → AccountAmounts
    → AccountId
    → ℕ
    → Option (AccountAmounts × AccountAmounts × Bool)
grow subs adds owner amount =
    let (adds', r) = add adds owner amount in some (subs, adds', is_some r)

-- `TokenTransferMatcher::sub_add`
unfoldable pub sub_add :
    AccountAmounts
    → AccountAmounts
    → AccountId
    → ℕ
    → Option (AccountAmounts × AccountAmounts × Bool)
unfolding grow
sub_add subs adds owner amount =
    let s = amount_for subs owner in
    let a = min s amount in
    let rest = amount - a in
    let (subs', r) = sub subs owner a in
    if ltb 0 s
    then (elim r [
      | none ↦ none
      | some _ ↦ if nat_beq rest 0 then some (subs', adds, true) else grow subs' adds owner rest
    ])
    else grow subs adds owner amount

unfoldable pub deposit : TokenTransferMatcher → AccountId → ℕ → Option (TokenTransferMatcher × Bool)
unfolding sub_add
deposit m owner amount = elim (sub_add m.withdrawals m.deposits owner amount) [
  | none ↦ none
  | some (subs, adds, done) ↦ some (record { deposits = adds; withdrawals = subs }, done)
]

unfoldable pub withdraw :
    TokenTransferMatcher → AccountId → ℕ → Option (TokenTransferMatcher × Bool)
unfolding sub_add
withdraw m owner amount = elim (sub_add m.deposits m.withdrawals owner amount) [
  | none ↦ none
  | some (subs, adds, done) ↦ some (record { deposits = subs; withdrawals = adds }, done)
]

unfoldable pub add_delta :
    TokenTransferMatcher → AccountId → ℤ → Option (TokenTransferMatcher × Bool)
unfolding deposit withdraw
add_delta m owner delta =
    if is_negative delta then withdraw m owner (abs delta) else deposit m owner (abs delta)

-- `Transfers`: sender, receiver, token, amount.
abbrev pub Transfers : Type 0
Transfers = Map AccountId (Map AccountId (Amounts TokenId ℕ))

unfoldable pub transfer : Transfers → AccountId → AccountId → TokenId → ℕ → Transfers × Option ℕ
transfer ts sender receiver token amount =
    let senders = get_or_default ts sender in
    let (tokens, r) = add (get_or_default senders receiver) token amount in
    (store ts sender (store senders receiver tokens), r)

-- `sort_unstable_by_key(|(_, amount)| Reverse(*amount))`
unfoldable pub insert_sorted : AccountId × ℕ → List (AccountId × ℕ) → List (AccountId × ℕ)
insert_sorted x [] = x ∷ []
insert_sorted x (y ∷ l) = if leb y.1 x.1 then x ∷ y ∷ l else y ∷ insert_sorted x l

unfoldable pub sort_desc : List (AccountId × ℕ) → List (AccountId × ℕ)
unfolding insert_sorted
sort_desc [] = []
sort_desc (x ∷ l) = insert_sorted x (sort_desc l)

-- The current entry with what is left of it, or the next one.
unfoldable pub advance : AccountId → ℕ → List (AccountId × ℕ) → List (AccountId × ℕ)
advance k left rest = if nat_beq left 0 then rest else (k, left) ∷ rest

-- The `while let` of `finalize_into`. A list holds the current entry and those still to come.
unfoldable pub match_loop :
    ℕ
    → TokenId
    → Transfers
    → List (AccountId × ℕ)
    → List (AccountId × ℕ)
    → Option (Transfers × List (AccountId × ℕ) × List (AccountId × ℕ))
unfolding transfer advance
match_loop zero token ts ws ds = none
match_loop (suc fuel) token ts [] ds = some (ts, [], ds)
match_loop (suc fuel) token ts (w ∷ ws) [] = some (ts, w ∷ ws, [])
match_loop (suc fuel) token ts ((sender, send) ∷ ws) ((receiver, receive) ∷ ds) =
    let moved = min send receive in
    let (ts', r) = transfer ts sender receiver token moved in
    elim r [
      | none ↦ none
      | some _ ↦
          match_loop fuel token ts' (advance sender (send - moved) ws)
            (advance receiver (receive - moved) ds)
    ]

-- `try_fold(first, |total, (_, s)| total.checked_add(s))`
unfoldable pub fold_total : ℕ → List (AccountId × ℕ) → Option ℕ
fold_total total [] = some total
fold_total total ((_, s) ∷ l) = elim (checked_add total s) [ none ↦ none | some n ↦ fold_total n l ]

-- `Result<(), i128>` of `finalize_into`
pub data Matched : Type 0 where
  matched : Matched
  unmatched : ℤ → Matched

abbrev pub or_zero : Option ℤ → ℤ
or_zero none = pos 0
or_zero (some z) = z

-- The two `unwrap_or_default()` chains.
unfoldable pub left_to_receive : ℕ → List (AccountId × ℕ) → ℤ
unfolding fold_total
left_to_receive receive l =
    or_zero (elim (fold_total receive l) [ none ↦ none | some total ↦ to_i128 (pos total) ])

unfoldable pub left_to_send : ℕ → List (AccountId × ℕ) → ℤ
unfolding fold_total
left_to_send send l =
    let total : Option ℤ = elim (fold_total send l) [ none ↦ none | some n ↦ to_i128 (pos n) ] in
    or_zero (elim total [ none ↦ none | some n ↦ checked_neg n ])

unfoldable pub leftover : List (AccountId × ℕ) → List (AccountId × ℕ) → Matched
unfolding left_to_send left_to_receive
leftover ((_, send) ∷ ws) ds = unmatched (left_to_send send ws)
leftover [] ((_, receive) ∷ ds) = unmatched (left_to_receive receive ds)
leftover [] [] = matched

-- Each round uses up a sender or a receiver, so this much fuel is enough (`match_loop_lem`).
unfoldable pub finalize_into :
    TokenTransferMatcher → TokenId → Transfers → Option (Transfers × Matched)
unfolding match_loop sort_desc leftover
finalize_into m token ts =
    let ws = sort_desc m.withdrawals in
    let ds = sort_desc m.deposits in
    elim (match_loop (suc (length ws + length ds)) token ts ws ds) [
      | none ↦ none
      | some (ts', ws', ds') ↦ some (ts', leftover ws' ds')
    ]

-- `TransferMatcher`
abbrev pub TransferMatcher : Type 0
TransferMatcher = Map TokenId TokenTransferMatcher

-- `self.0.entry_or_default(token_id).deposit(..)` and the like.
unfoldable pub with_token :
    (TokenTransferMatcher → Option (TokenTransferMatcher × Bool))
    → TransferMatcher
    → TokenId
    → Option (TransferMatcher × Bool)
with_token f m token = elim (f (get_or_default m token)) [
  | none ↦ none
  | some (entry, done) ↦ some (store m token entry, done)
]

abbrev pub TokenDeltas : Type 0
TokenDeltas = Amounts TokenId ℤ

pub data InvariantViolated : Type 0 where
  unmatched_deltas : TokenDeltas → InvariantViolated
  overflow : InvariantViolated

pub data Finalized : Type 0 where
  ok : Transfers → Finalized
  err : InvariantViolated → Finalized

-- The loop of `TransferMatcher::finalize`, and what follows it.
unfoldable pub finalize_loop : TransferMatcher → Transfers → TokenDeltas → Option Finalized
unfolding finalize_into
finalize_loop [] ts deltas = some (if is_empty deltas then ok ts else err (unmatched_deltas deltas))
finalize_loop ((token, m) ∷ rest) ts deltas = elim (finalize_into m token ts) [
  | none ↦ none
  | some (ts', matched) ↦ finalize_loop rest ts' deltas
  | some (ts', unmatched delta) ↦
      let (deltas', r) = apply_delta deltas token delta in
      let more = finalize_loop rest ts' deltas' in
      if beq_ℤ delta (pos 0) || not (is_some r) then some (err overflow) else more
]

unfoldable pub finalize : TransferMatcher → Option Finalized
unfolding finalize_loop
finalize m = finalize_loop m [] []
