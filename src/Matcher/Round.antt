-- ===== src/Matcher/Round.antt =====
-- One round of `TransferMatcher::finalize`: a token of its own, beside those that are to come.
use native.Mathlib.Decide.{dec_le, ℕ_discrete}
use intents.Prelude.{
  ℕ, ◌+◌, ◌-◌, ◌≡◌, refl, sym, ◌∙◌, ap, ◌<◌, ◌≢◌, ◌⊎◌, inl, inr, false, [], ◌∷◌, some, none, ◌==◌,
  if◌then◌else◌, nat_default, string_eq, arith, beq_refl, Bool-cases,
}
use mathlib.Core.Path.{subst}
use intents.Prelude.Int.{ℤ, pos, sub_ℕ, ◌+ℤ◌, int_default, int_laws, beq_ℤ_iff}
use intents.NumUtils.{i128_max, to_i128, checked_add_i128}
use intents.MapUtils.{get, get_or_default, is_empty}
use intents.MapUtils.Laws.{IsDistinct}
use intents.Amounts.{amount_for, apply_delta}
use intents.Amounts.Laws.{
  IsValid, checked_apply-result, amount_for-checked_apply, checked_apply-IsValid,
}
use intents.TokenId.{AccountId, TokenId, token_eq}
use intents.Matcher.{
  Transfers, TokenTransferMatcher, TransferMatcher, TokenDeltas, matched, unmatched, finalize_into,
  finalize_loop, Finalized, ok, err, unmatched_deltas, overflow, map_default, matcher_default,
  empty_matcher,
}
use intents.Matcher.Sort.{total}
use intents.Matcher.Flow.{amount, outflow, inflow, IsWellFormed}
use intents.Matcher.Finalize.{IsValidMatcher, Finalizes, imbalance}

-- How much more of a token was deposited than withdrawn.
abbrev pub gap : TokenTransferMatcher → ℤ
gap m = sub_ℕ (total m.deposits) (total m.withdrawals)

abbrev pub IsFar : TokenTransferMatcher → Type 0
IsFar m =
    i128_max < (total m.deposits - total m.withdrawals) + (total m.withdrawals - total m.deposits)

pub imbalance-cases :
    (d w : ℕ)
    → ((d ≡ w) × (imbalance d w ≡ matched))
      ⊎ ((sub_ℕ d w ≢ pos 0)
          × (to_i128 (sub_ℕ d w) ≡ some (sub_ℕ d w))
          × (imbalance d w ≡ unmatched (sub_ℕ d w)))
      ⊎ ((i128_max < (d - w) + (w - d)) × (imbalance d w ≡ unmatched (pos 0)))
imbalance-cases d w = elim (ℕ_discrete d w) [
  | yes e ↦ inl (e, ground arith)
  | no n ↦ elim (dec_le ((d - w) + (w - d)) i128_max) [
    | yes l ↦ inr (inl (ground arith, ground arith, ground arith))
    | no g ↦ inr (inr (ground arith, ground arith))
  ]
]

pub step_matched :
    (token : TokenId) (m : TokenTransferMatcher) (rest : TransferMatcher) (ts ts' : Transfers)
    (deltas : TokenDeltas)
    → finalize_into m token ts ≡ some (ts', matched)
    → finalize_loop ((token, m) ∷ rest) ts deltas ≡ finalize_loop rest ts' deltas
unfolding finalize_loop
step_matched token m rest ts ts' deltas q = rw (q, finalize_loop)

pub step_overflow :
    (token : TokenId) (m : TokenTransferMatcher) (rest : TransferMatcher) (ts ts' : Transfers)
    (deltas : TokenDeltas)
    → finalize_into m token ts ≡ some (ts', unmatched (pos 0))
    → finalize_loop ((token, m) ∷ rest) ts deltas ≡ some (err overflow)
unfolding finalize_loop
step_overflow token m rest ts ts' deltas q = rw (q, finalize_loop)

pub step_unmatched :
    (token : TokenId) (m : TokenTransferMatcher) (rest : TransferMatcher) (ts ts' : Transfers)
    (deltas : TokenDeltas) (z : ℤ) {v : ℤ}
    → finalize_into m token ts ≡ some (ts', unmatched z)
    → z ≢ pos 0
    → (apply_delta deltas token z).1 ≡ some v
    → finalize_loop ((token, m) ∷ rest) ts deltas
      ≡ finalize_loop rest ts' (apply_delta deltas token z).0
unfolding finalize_loop
step_unmatched token m rest ts ts' deltas z q n r =
    rw (q, finalize_loop) (ground (arith, beq_ℤ_iff z (pos 0)))

pub get_or_default-cons :
    (token : TokenId) (m : TokenTransferMatcher) (rest : TransferMatcher) (t : TokenId)
    → get_or_default ((token, m) ∷ rest) t ≡ (if token == t then m else get_or_default rest t)
unfolding get_or_default get
get_or_default-cons token m rest t = ground arith

pub zero_add : (z : ℤ) → pos 0 +ℤ z ≡ z
zero_add z = omega int_laws

pub add_zero : (z : ℤ) → z +ℤ pos 0 ≡ z
add_zero z = omega int_laws

-- Every token's matcher is valid.
abbrev pub AllValid : TransferMatcher → Type 0
AllValid [] = Unit
AllValid ((t, m) ∷ rest) = IsValidMatcher m × AllValid rest

-- A token is balanced, and its transfers have grown by what each account withdrew and deposited.
abbrev pub Flows : TokenTransferMatcher → Transfers → Transfers → TokenId → Type 0
Flows m ts ts' t =
    (total m.deposits ≡ total m.withdrawals)
    × ((a : AccountId)
        → (outflow ts' a t ≡ outflow ts a t + amount_for m.withdrawals a)
          × (inflow ts' a t ≡ inflow ts a t + amount_for m.deposits a))

-- What the loop answers, given what it began with.
abbrev pub Describes : TransferMatcher → Transfers → TokenDeltas → Finalized → Type 0
Describes rest ts deltas (ok ts') =
    (deltas ≡ []) × IsWellFormed ts' × ((t : TokenId) → Flows (get_or_default rest t) ts ts' t)
Describes rest ts deltas (err (unmatched_deltas d)) =
    (is_empty d ≡ false)
    × ((t : TokenId) → amount_for d t ≡ amount_for deltas t +ℤ gap (get_or_default rest t))
Describes rest ts deltas (err overflow) = (t : TokenId) × IsFar (get_or_default rest t)

-- What holds before each round: nothing is recorded yet for the tokens that are to come.
pub record Fresh (rest : TransferMatcher) (ts : Transfers) (deltas : TokenDeltas) : Type 0 where
  pub formed : IsWellFormed ts
  pub distinct : IsDistinct rest
  pub matchers : AllValid rest
  pub deltas_valid : IsValid deltas
  pub untouched :
      (t : TokenId)
      → get rest t ≢ none
      → (amount_for deltas t ≡ pos 0) × ((a b : AccountId) → amount ts a b t ≡ 0)

get-ne_head :
    (token : TokenId) (m : TokenTransferMatcher) (rest : TransferMatcher) (t : TokenId)
    → get rest token ≡ none
    → get rest t ≢ none
    → (t ≢ token) × (get ((token, m) ∷ rest) t ≢ none)
unfolding get
get-ne_head token m rest t new h = (λ e. h (rw e new), ground (arith, h))

pub head_untouched :
    (token : TokenId) (m : TokenTransferMatcher) (rest : TransferMatcher) (ts : Transfers)
    (deltas : TokenDeltas)
    → Fresh ((token, m) ∷ rest) ts deltas
    → (amount_for deltas token ≡ pos 0) × ((a b : AccountId) → amount ts a b token ≡ 0)
unfolding get
head_untouched token m rest ts deltas f = f.untouched token (ground (arith, beq_refl token))

amount_for-nil : (a : AccountId) → amount_for {V = ℕ} [] a ≡ 0
unfolding get_or_default get
amount_for-nil a = refl

amount_for-nil_ℤ : (t : TokenId) → amount_for {V = ℤ} [] t ≡ pos 0
unfolding get_or_default get
amount_for-nil_ℤ t = refl

module _ (token : TokenId) (m : TokenTransferMatcher) (rest : TransferMatcher) (ts ts' : Transfers)
    (deltas : TokenDeltas) (f : Fresh ((token, m) ∷ rest) ts deltas)
    (done : Finalizes m token ts ts') where
  pub matched-Fresh : Fresh rest ts' deltas
  matched-Fresh = record {
    formed = done.formed;
    distinct = f.distinct.1;
    matchers = f.matchers.1;
    deltas_valid = f.deltas_valid;
    untouched = λ t h.
        let (n, h') = get-ne_head token m rest t f.distinct.0 h in
        let (d, z) = f.untouched t h' in (d, λ a b. (done.others a b t n).0 ∙ z a b);
  }

  -- A recorded difference is there for its token alone.
  pub apply_delta-reads :
      (z : ℤ)
      → to_i128 z ≡ some z
      → (v : ℤ) × ((apply_delta deltas token z).1 ≡ some v)
        × ((t : TokenId)
            → amount_for (apply_delta deltas token z).0 t
              ≡ (if token == t then z else amount_for deltas t))
  unfolding apply_delta
  apply_delta-reads z fits =
      let zero : amount_for deltas token ≡ pos 0 = (head_untouched token m rest ts deltas f).0 in
      let sum : checked_add_i128 (amount_for deltas token) z ≡ some z =
        rw zero (rw (zero_add z) fits) in
      (
        z,
        checked_apply-result deltas token (λ a. checked_add_i128 a z) ∙ sum,
        λ t. rw (sum) at (amount_for-checked_apply deltas token t (λ a. checked_add_i128 a z)),
      )

  pub unmatched-Fresh : (z : ℤ) → to_i128 z ≡ some z → Fresh rest ts' (apply_delta deltas token z).0
  unfolding apply_delta
  unmatched-Fresh z fits =
      let old = matched-Fresh in
      record {
        formed = old.formed;
        distinct = old.distinct;
        matchers = old.matchers;
        deltas_valid =
            checked_apply-IsValid deltas token (λ a. checked_add_i128 a z) f.deltas_valid;
        untouched = λ t h.
            let (n, h') = get-ne_head token m rest t f.distinct.0 h in
            let reads = (apply_delta-reads z fits).2 t in
            (
              reads ∙ ground (arith, old.untouched t h, token_eq.beq_iff token t, n),
              (old.untouched t h).1,
            );
      }

  rest_empty : get_or_default rest token ≡ empty_matcher
  unfolding get_or_default
  rest_empty = rw (f.distinct.0, get_or_default)

  matched_head :
      (ts'' : Transfers)
      → total m.deposits ≡ total m.withdrawals
      → Flows (get_or_default rest token) ts' ts'' token
      → Flows m ts ts'' token
  matched_head ts'' e h =
      let (_, more) : Flows empty_matcher ts' ts'' token = rw rest_empty at h in
      (e, λ a. omega (arith, more a, done.sent e a, done.received e a, amount_for-nil a))

  matched_tail :
      (ts'' : Transfers) (n : TokenTransferMatcher) (t : TokenId)
      → t ≢ token
      → Flows n ts' ts'' t
      → Flows n ts ts'' t
  matched_tail ts'' n t ne (e, more) = (e, λ a. omega (arith, more a, done.others a a t ne))

  gap-rest_empty : gap (get_or_default rest token) ≡ pos 0
  gap-rest_empty = rw rest_empty

  gap-balanced : total m.deposits ≡ total m.withdrawals → gap m ≡ pos 0
  gap-balanced e = ground arith

  -- A token of the rest with a difference that is too large is not the head's.
  IsFar-rest :
      (t : TokenId)
      → IsFar (get_or_default rest t)
      → (u : TokenId) × IsFar (get_or_default ((token, m) ∷ rest) u)
  IsFar-rest t far = (
    t,
    ground (arith, get_or_default-cons token m rest t, rest_empty, far, token_eq.beq_iff token t),
  )

  -- A statement about each token, from the head and from the others.
  by_token :
      (P : TokenId → TokenTransferMatcher → Type 0)
      → P token m
      → ((t : TokenId) → t ≢ token → P t (get_or_default rest t))
      → (t : TokenId) → P t (get_or_default ((token, m) ∷ rest) t)
  by_token P head tail t = elim (Bool-cases (token == t)) [
    | inl same ↦
        rw (get_or_default-cons token m rest t, same)
          (subst (λ u. P u m) ((token_eq.beq_iff token t).0 same) head)
    | inr other ↦
        rw (get_or_default-cons token m rest t, other)
          (tail t (ground (arith, token_eq.beq_iff token t)))
  ]

  -- The answer for the rest is the answer for all, where this token's totals agree.
  pub matched-Describes :
      total m.deposits ≡ total m.withdrawals
      → (fin : Finalized) → Describes rest ts' deltas fin
      → Describes ((token, m) ∷ rest) ts deltas fin
  matched-Describes e (ok ts'') (none_left, formed, flows) = (
    none_left,
    formed,
    by_token (λ t n. Flows n ts ts'' t) (matched_head ts'' e (flows token))
        (λ t ne. matched_tail ts'' (get_or_default rest t) t ne (flows t)),
  )
  matched-Describes e (err (unmatched_deltas d)) (some_left, reads) = (
    some_left,
    by_token (λ t n. amount_for d t ≡ amount_for deltas t +ℤ gap n)
        (reads token
          ∙ ap (λ z. amount_for deltas token +ℤ z) (gap-rest_empty ∙ sym (gap-balanced e)))
        (λ t ne. reads t),
  )
  matched-Describes e (err overflow) (t, far) = IsFar-rest t far

  recorded_self : (z : ℤ) → to_i128 z ≡ some z → amount_for (apply_delta deltas token z).0 token ≡ z
  recorded_self z fits =
      ground (arith, (apply_delta-reads z fits).2 token, token_eq.beq_iff token token)

  recorded_other :
      (z : ℤ)
      → to_i128 z ≡ some z
      → (t : TokenId) → t ≢ token
      → amount_for (apply_delta deltas token z).0 t ≡ amount_for deltas t
  recorded_other z fits t ne =
      ground (arith, (apply_delta-reads z fits).2 t, token_eq.beq_iff token t)

  recorded_head :
      (z : ℤ)
      → to_i128 z ≡ some z
      → z ≡ gap m
      → (d : TokenDeltas)
      → amount_for d token
        ≡ amount_for (apply_delta deltas token z).0 token +ℤ gap (get_or_default rest token)
      → amount_for d token ≡ amount_for deltas token +ℤ gap m
  recorded_head z fits is_gap d h =
      h
      ∙ ap (λ x. x +ℤ gap (get_or_default rest token)) (recorded_self z fits)
      ∙ ap (λ x. z +ℤ x) gap-rest_empty
      ∙ add_zero z
      ∙ is_gap
      ∙ sym (zero_add (gap m))
      ∙ ap (λ x. x +ℤ gap m) (sym (head_untouched token m rest ts deltas f).0)

  -- Where this token's totals differ the difference stays recorded, so the answer is no success.
  pub unmatched-Describes :
      (z : ℤ)
      → to_i128 z ≡ some z
      → z ≢ pos 0
      → z ≡ gap m
      → (fin : Finalized) → Describes rest ts' (apply_delta deltas token z).0 fin
      → Describes ((token, m) ∷ rest) ts deltas fin
  unmatched-Describes z fits ne is_gap (ok ts'') (none_left, formed, flows) =
      absurd (ne (sym (recorded_self z fits) ∙ rw none_left (amount_for-nil_ℤ token)))
  unmatched-Describes z fits ne is_gap (err (unmatched_deltas d)) (some_left, reads) = (
    some_left,
    by_token (λ t n. amount_for d t ≡ amount_for deltas t +ℤ gap n)
        (recorded_head z fits is_gap d (reads token))
        (λ t other.
          reads t ∙ ap (λ x. x +ℤ gap (get_or_default rest t)) (recorded_other z fits t other)),
  )
  unmatched-Describes z fits ne is_gap (err overflow) (t, far) = IsFar-rest t far
