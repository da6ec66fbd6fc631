-- ===== src/Matcher/Settle.antt =====
-- `TransferMatcher::finalize`: all tokens at once.
use intents.Prelude.{
  ◌≡◌, refl, sym, ◌∙◌, ap, inl, inr, false, [], ◌∷◌, some, nat_default, string_eq, arith,
}
use intents.Prelude.Int.{◌+ℤ◌, int_default}
use intents.MapUtils.{get, get_or_default, is_empty}
use intents.MapUtils.Laws.{IsDistinct}
use intents.Amounts.{amount_for, apply_delta}
use intents.TokenId.{AccountId, TokenId, token_eq}
use intents.Matcher.{
  Transfers, TransferMatcher, TokenDeltas, finalize_loop, finalize, Finalized, ok, err,
  unmatched_deltas, overflow, map_default, matcher_default,
}
use intents.Matcher.Sort.{total}
use intents.Matcher.Flow.{outflow, inflow, IsWellFormed}
use intents.Matcher.Finalize.{finalize_into_lem}
use intents.Matcher.Round.{
  gap, IsFar, Flows, Describes, Fresh, AllValid, imbalance-cases, step_matched, step_overflow,
  step_unmatched, get_or_default-cons, add_zero, zero_add, head_untouched, matched-Fresh,
  apply_delta-reads, unmatched-Fresh, matched-Describes, unmatched-Describes,
}

nil-Flows : (ts : Transfers) (t : TokenId) → Flows (get_or_default [] t) ts ts t
unfolding get_or_default get
nil-Flows ts t = (refl, λ a. omega arith)

nil-gap :
    (deltas : TokenDeltas) (t : TokenId)
    → amount_for deltas t ≡ amount_for deltas t +ℤ gap (get_or_default [] t)
unfolding get_or_default get
nil-gap deltas t = sym (add_zero (amount_for deltas t))

finalize_loop_lem :
    (rest : TransferMatcher) (ts : Transfers) (deltas : TokenDeltas)
    → Fresh rest ts deltas
    → (fin : Finalized) × (finalize_loop rest ts deltas ≡ some fin) × Describes rest ts deltas fin
unfolding finalize_loop
finalize_loop_lem [] ts [] f = (ok ts, refl, (refl, f.formed, λ t. nil-Flows ts t))
finalize_loop_lem [] ts (x ∷ deltas) f =
    (err (unmatched_deltas (x ∷ deltas)), refl, (refl, λ t. nil-gap (x ∷ deltas) t))
finalize_loop_lem ((token, m) ∷ rest) ts deltas f =
    let (ts', q, done) =
      finalize_into_lem m token ts f.matchers.0 f.formed
        (head_untouched token m rest ts deltas f).1 in
    elim (imbalance-cases (total m.deposits) (total m.withdrawals)) [
      | inl (e, i) ↦
          let (fin, r, d) =
            finalize_loop_lem rest ts' deltas (matched-Fresh token m rest ts ts' deltas f done) in
          (
            fin,
            step_matched token m rest ts ts' deltas (q ∙ ap (λ x. some (ts', x)) i) ∙ r,
            matched-Describes token m rest ts ts' deltas f done e fin d,
          )
      | inr (inl (ne, fits, i)) ↦
          let z = gap m in
          let (v, res, _) = apply_delta-reads token m rest ts ts' deltas f done z fits in
          let (fin, r, d) =
            finalize_loop_lem rest ts' (apply_delta deltas token z).0
              (unmatched-Fresh token m rest ts ts' deltas f done z fits) in
          (
            fin,
            step_unmatched token m rest ts ts' deltas z (q ∙ ap (λ x. some (ts', x)) i) ne res ∙ r,
            unmatched-Describes token m rest ts ts' deltas f done z fits ne refl fin d,
          )
      | inr (inr (far, i)) ↦ (
        err overflow,
        step_overflow token m rest ts ts' deltas (q ∙ ap (λ x. some (ts', x)) i),
        (
          token,
          ground (arith, get_or_default-cons token m rest token, token_eq.beq_iff token token, far),
        ),
      )
    ]

-- What `finalize` answers about the matcher: transfers that send and deliver, for every account and
-- token, what was withdrawn and deposited; or the differences of the tokens; or an overflow.
abbrev pub Answers : TransferMatcher → Finalized → Type 0
Answers m (ok ts) =
    IsWellFormed ts
    × ((t : TokenId)
        → let entry = get_or_default m t in
          (total entry.deposits ≡ total entry.withdrawals)
          × ((a : AccountId)
              → (outflow ts a t ≡ amount_for entry.withdrawals a)
                × (inflow ts a t ≡ amount_for entry.deposits a)))
Answers m (err (unmatched_deltas d)) =
    (is_empty d ≡ false) × ((t : TokenId) → amount_for d t ≡ gap (get_or_default m t))
Answers m (err overflow) = (t : TokenId) × IsFar (get_or_default m t)

empty-Fresh : (m : TransferMatcher) → IsDistinct m → AllValid m → Fresh m [] []
unfolding get_or_default get
empty-Fresh m d v = record {
  formed = record { senders = tt; receivers = λ s. tt; tokens = λ s r. (tt, tt) };
  distinct = d;
  matchers = v;
  deltas_valid = (tt, tt);
  untouched = λ t h. (refl, λ a b. refl);
}

outflow-nil : (a : AccountId) (t : TokenId) → outflow [] a t ≡ 0
unfolding get_or_default get
outflow-nil a t = refl

Describes-Answers : (m : TransferMatcher) (fin : Finalized) → Describes m [] [] fin → Answers m fin
unfolding get_or_default get
Describes-Answers m (ok ts) (_, formed, flows) =
    (formed, λ t. ((flows t).0, λ a. omega (arith, (flows t).1 a, outflow-nil a t)))
Describes-Answers m (err (unmatched_deltas d)) (some_left, reads) =
    (some_left, λ t. reads t ∙ zero_add (gap (get_or_default m t)))
Describes-Answers m (err overflow) far = far

pub finalize-Answers :
    (m : TransferMatcher)
    → IsDistinct m
    → AllValid m
    → (fin : Finalized) × (finalize m ≡ some fin) × Answers m fin
unfolding finalize
finalize-Answers m d v =
    let (fin, q, h) = finalize_loop_lem m [] [] (empty-Fresh m d v) in
    (fin, q, Describes-Answers m fin h)
