-- ===== src/Matcher/Finalize.antt =====
-- `TokenTransferMatcher::finalize_into`: all is matched exactly when as much was deposited as
-- withdrawn, and else the difference comes back.
use native.Mathlib.Decide.{dec_le}
use intents.Prelude.{
  ℕ, suc, ◌+◌, ◌-◌, ◌≡◌, refl, ◌∙◌, ap, ◌≤◌, ◌<◌, ◌≢◌, ◌⊎◌, inl, inr, List, [], ◌∷◌, some,
  if◌then◌else◌, nat_default, string_eq, arith, length, nat_beq, leb, ltb, Option-cases,
}
use intents.Prelude.Int.{ℤ, pos, neg_ℕ, ◌-ℤ◌}
use intents.NumUtils.{u128_max, i128_max}
use intents.MapUtils.{get, get_or_default}
use intents.MapUtils.Sum.{weight-le-sum_of}
use intents.Amounts.{amount_for}
use intents.Amounts.Laws.{IsValid}
use intents.TokenId.{AccountId, TokenId}
use intents.Matcher.{
  Transfers, AccountAmounts, TokenTransferMatcher, Matched, matched, unmatched, fold_total,
  left_to_receive, left_to_send, leftover, finalize_into, match_loop, sort_desc,
}
use intents.Matcher.Sort.{total, sort_desc-Sorts}
use intents.Matcher.Flow.{amount, outflow, inflow, IsWellFormed}
use intents.Matcher.Loop.{Ready, match_loop_lem}

fold_total_fits :
    (n : ℕ) (l : List (AccountId × ℕ))
    → n + total l ≤ u128_max
    → fold_total n l ≡ some (n + total l)
unfolding fold_total
fold_total_fits n [] h = ground arith
fold_total_fits n ((k, a) ∷ l) h = ground (arith, fold_total_fits (n + a) l)

fold_total_over :
    (n : ℕ) (l : List (AccountId × ℕ)) {r : ℕ}
    → u128_max < n + total l
    → fold_total n l ≡ some r
    → u128_max < r
unfolding fold_total
fold_total_over n [] h q = ground arith
fold_total_over n ((k, a) ∷ l) {r} h q = ground (arith, fold_total_over (n + a) l {r = r})

-- An amount as an `i128`, or 0 where it does not fit: a 0 tells the caller of an overflow.
abbrev pub delta_of : ℕ → ℤ
delta_of n = if leb n i128_max then pos n else pos 0

abbrev pub neg_delta_of : ℕ → ℤ
neg_delta_of n = if leb n i128_max then neg_ℕ n else pos 0

left_to_receive_lem :
    (n : ℕ) (l : List (AccountId × ℕ)) → left_to_receive n l ≡ delta_of (n + total l)
unfolding left_to_receive
left_to_receive_lem n l = elim (dec_le (n + total l) u128_max) [
  | yes h ↦ rw (fold_total_fits n l h, left_to_receive) (ground arith)
  | no h ↦ elim (Option-cases (fold_total n l)) [
    | inl q ↦ rw (q, left_to_receive) (ground arith)
    | inr (r, q) ↦ rw (q, left_to_receive) (ground (arith, fold_total_over n l {r = r}))
  ]
]

left_to_send_lem :
    (n : ℕ) (l : List (AccountId × ℕ)) → left_to_send n l ≡ neg_delta_of (n + total l)
unfolding left_to_send ◌-ℤ◌
left_to_send_lem n l = elim (dec_le (n + total l) u128_max) [
  | yes h ↦ rw (fold_total_fits n l h, left_to_send) (ground arith)
  | no h ↦ elim (Option-cases (fold_total n l)) [
    | inl q ↦ rw (q, left_to_send) (ground arith)
    | inr (r, q) ↦ rw (q, left_to_send) (ground (arith, fold_total_over n l {r = r}))
  ]
]

-- What is to come back, from the two totals alone.
abbrev pub imbalance : ℕ → ℕ → Matched
imbalance deposited withdrawn =
    if nat_beq deposited withdrawn
    then matched
    else if ltb withdrawn deposited
    then unmatched (delta_of (deposited - withdrawn))
    else unmatched (neg_delta_of (withdrawn - deposited))

leftover_lem :
    (ws ds : AccountAmounts)
    → IsValid ws
    → IsValid ds
    → (ws ≡ []) ⊎ (ds ≡ [])
    → leftover ws ds ≡ imbalance (total ds) (total ws)
unfolding leftover
leftover_lem [] [] v w h = ground arith
leftover_lem ((a, n) ∷ ws) [] v w h = rw left_to_send_lem (ground arith)
leftover_lem [] ((a, n) ∷ ds) v w h = rw left_to_receive_lem (ground arith)
leftover_lem (x ∷ ws) (y ∷ ds) v w h = ground arith

imbalance-cancel : (a b c d : ℕ) → a + d ≡ b + c → imbalance d b ≡ imbalance c a
imbalance-cancel a b c d h = ground arith

-- The matcher of one token, between calls.
pub record IsValidMatcher (m : TokenTransferMatcher) : Type 0 where
  pub deposits_valid : IsValid m.deposits
  pub withdrawals_valid : IsValid m.withdrawals
  pub deposits_fit : (a : AccountId) → amount_for m.deposits a ≤ u128_max
  pub withdrawals_fit : (a : AccountId) → amount_for m.withdrawals a ≤ u128_max

-- `finalize_into`, for every matcher: it neither panics nor runs on; it reports the imbalance of the
-- two totals; and where they are equal, every account has sent what it withdrew and received what
-- it deposited. Transfers of other tokens stay as they were.
pub record Finalizes (m : TokenTransferMatcher) (token : TokenId) (ts ts' : Transfers)
    : Type 0 where
  pub formed : IsWellFormed ts'
  pub sent :
      total m.deposits ≡ total m.withdrawals
      → (a : AccountId) → outflow ts' a token ≡ outflow ts a token + amount_for m.withdrawals a
  pub received :
      total m.deposits ≡ total m.withdrawals
      → (a : AccountId) → inflow ts' a token ≡ inflow ts a token + amount_for m.deposits a
  pub others :
      (a b : AccountId) (u : TokenId)
      → u ≢ token
      → (amount ts' a b u ≡ amount ts a b u)
        × (outflow ts' a u ≡ outflow ts a u)
        × (inflow ts' a u ≡ inflow ts a u)

amount_for-same :
    (l m : AccountAmounts) (a : AccountId) → get l a ≡ get m a → amount_for l a ≡ amount_for m a
unfolding get_or_default
amount_for-same l m a h = ground arith

-- An account holds at most the total, so where nothing is left in all nothing is left for it.
amount_for-le-total : (l : AccountAmounts) (a : AccountId) → amount_for l a ≤ total l
amount_for-le-total l a = weight-le-sum_of (λ n. n) l a refl

nothing_left :
    (ws ds : AccountAmounts)
    → (ws ≡ []) ⊎ (ds ≡ [])
    → total ws ≡ total ds
    → (total ws ≡ 0) × (total ds ≡ 0)
nothing_left [] ds h e = omega arith
nothing_left (x ∷ ws) [] h e = omega arith
nothing_left (x ∷ ws) (y ∷ ds) h e = ground arith

finalize_into-step :
    (m : TokenTransferMatcher) (token : TokenId) (ts : Transfers) {ts' : Transfers}
    {ws' ds' : AccountAmounts}
    → match_loop
        (suc (length (sort_desc m.withdrawals) + length (sort_desc m.deposits)))
        token
        ts
        (sort_desc m.withdrawals)
        (sort_desc m.deposits)
      ≡ some (ts', ws', ds')
    → finalize_into m token ts ≡ some (ts', leftover ws' ds')
unfolding finalize_into
finalize_into-step m token ts q = rw (q, finalize_into)

pub finalize_into_lem :
    (m : TokenTransferMatcher) (token : TokenId) (ts : Transfers)
    → IsValidMatcher m
    → IsWellFormed ts
    → ((a b : AccountId) → amount ts a b token ≡ 0)
    → (ts' : Transfers) × (finalize_into m token ts
        ≡ some (ts', imbalance (total m.deposits) (total m.withdrawals)))
      × Finalizes m token ts ts'
finalize_into_lem m token ts v f z =
    let ws = sort_desc m.withdrawals in
    let ds = sort_desc m.deposits in
    let sw = sort_desc-Sorts m.withdrawals v.withdrawals_valid in
    let sd = sort_desc-Sorts m.deposits v.deposits_valid in
    let had : (a : AccountId) → amount_for ws a ≡ amount_for m.withdrawals a =
      λ a. amount_for-same ws m.withdrawals a (sw.same_entries a) in
    let got : (a : AccountId) → amount_for ds a ≡ amount_for m.deposits a =
      λ a. amount_for-same ds m.deposits a (sd.same_entries a) in
    let ready : Ready token ts ws ds = record {
      formed = f;
      senders = sw.valid;
      receivers = sd.valid;
      fits = λ a. omega (arith, had a, v.withdrawals_fit a);
      free = λ a b _ _. z a b;
    } in
    let (ts', ws', ds', q, ends, moves) =
      match_loop_lem (suc (length ws + length ds)) token ts ws ds ready (omega arith) in
    let same : imbalance (total ds') (total ws')
        ≡ imbalance (total m.deposits) (total m.withdrawals) =
      rw (← sw.same_total, ← sd.same_total)
        (imbalance-cancel (total ws) (total ws') (total ds) (total ds')
          (omega (arith, moves.balanced))) in
    let empty : total m.deposits ≡ total m.withdrawals → (total ws' ≡ 0) × (total ds' ≡ 0) = λ e.
      nothing_left ws' ds' ends (omega (arith, moves.balanced, sw.same_total, sd.same_total)) in
    (
      ts',
      finalize_into-step m token ts q
          ∙ ap (λ r. some (ts', r))
              (leftover_lem ws' ds' moves.senders moves.receivers ends ∙ same),
      record {
        formed = moves.formed;
        sent = λ e a. omega (arith, moves.sent a, had a, empty e, amount_for-le-total ws' a);
        received =
            λ e a. omega (arith, moves.received a, got a, empty e, amount_for-le-total ds' a);
        others = moves.others;
      },
    )

-- For a valid matcher of a token that no transfer mentions yet, whose deposits and withdrawals have
-- the same total: `finalize_into` returns `Ok`, and every account then sends exactly what it
-- withdrew and receives exactly what it deposited.
pub finalize_into-balanced :
    (m : TokenTransferMatcher) (token : TokenId) (ts : Transfers)
    → IsValidMatcher m
    → IsWellFormed ts
    → ((a b : AccountId) → amount ts a b token ≡ 0)
    → total m.deposits ≡ total m.withdrawals
    → (ts' : Transfers) × (finalize_into m token ts ≡ some (ts', matched))
      × IsWellFormed ts'
      × ((a : AccountId)
          → (outflow ts' a token ≡ outflow ts a token + amount_for m.withdrawals a)
            × (inflow ts' a token ≡ inflow ts a token + amount_for m.deposits a))
finalize_into-balanced m token ts v f z e =
    let (ts', q, h) = finalize_into_lem m token ts v f z in
    let none_left : imbalance (total m.deposits) (total m.withdrawals) ≡ matched =
      ground (arith, e) in
    (ts', q ∙ ap (λ r. some (ts', r)) none_left, h.formed, λ a. (h.sent e a, h.received e a))
