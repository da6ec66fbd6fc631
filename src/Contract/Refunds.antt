-- ===== src/Contract/Refunds.antt =====
-- The loop over the tokens of a refund, in `resolve_deposit_internal`.
use native.Mathlib.Decide.{dec_le}
use intents.Prelude.{
  beq_refl, ◌≢◌, suc, sym, ap, ◌∙◌, none, some, map, nat_beq_iff, inl, ℕ, ◌+◌, ◌≤◌, ◌≡◌, refl, ◌⊎◌,
  inr, Option, List, [], ◌∷◌, length, nat_beq, min, ◌==◌, string_eq, nat_default, arith,
  if◌then◌else◌, Bool-cases,
}
use intents.Amounts.{amount_for}
use intents.TokenId.{TokenId, token_eq}
use intents.Error.{ok}
use intents.Contract.Tokens.{
  requested_refunds, repeat_none, Books, unwrap_or, refund_amount, refund_token, refund_tokens,
}
use intents.Contract.Books.{Withdrawn, sub-ok, sub_enough}

-- What a receiver asks to send back of a deposit: all of it, where there is no answer.
abbrev pub wanted : ℕ → Option ℕ → ℕ
wanted deposited asked = min (unwrap_or asked deposited) deposited

-- The tokens that are sent back, with their amounts.
abbrev pub paired : List (TokenId × ℕ) → List ℕ → List (TokenId × ℕ)
paired [] refunds = []
paired (_ ∷ _) [] = []
paired ((token, _) ∷ l) (r ∷ refunds) = (token, r) ∷ paired l refunds

-- Every refund is what is wanted of its deposit, or less where the receiver has nothing left.
abbrev pub AreRefunds : (TokenId → ℕ) → List (TokenId × ℕ) → List (Option ℕ) → List ℕ → Type 0
AreRefunds left [] _ [] = Unit
AreRefunds left ((token, deposited) ∷ l) (asked ∷ requests) (r ∷ refunds) =
    ((r ≡ wanted deposited asked) ⊎ ((r ≤ wanted deposited asked) × (left token ≡ 0)))
    × AreRefunds left l requests refunds
AreRefunds _ _ _ _ = ⊥

-- One token of a refund, over books in which the account has no more than the supply.
record OneRefund (b : Books) (token : TokenId) (deposited : ℕ) (asked : Option ℕ) (b' : Books)
    (r : ℕ) : Type 0 where
  answers : refund_token b token deposited asked ≡ ok (b', r)
  amount : r ≡ refund_amount b token deposited asked
  supply :
      (u : TokenId)
      → amount_for b'.supplies u + (if token == u then r else 0) ≡ amount_for b.supplies u
  balance :
      (u : TokenId)
      → amount_for b'.balances u + (if token == u then r else 0) ≡ amount_for b.balances u

refund_token_lem :
    (b : Books) (token : TokenId) (deposited : ℕ) (asked : Option ℕ)
    → amount_for b.balances token ≤ amount_for b.supplies token
    → (b' : Books) × (r : ℕ) × OneRefund b token deposited asked b' r
unfolding refund_token
refund_token_lem b token deposited asked h =
    let r = refund_amount b token deposited asked in
    elim (Bool-cases (nat_beq r 0)) [
      | inl nothing ↦ (
        b,
        r,
        record {
          answers = ground arith;
          amount = refl;
          supply = λ u. ground arith;
          balance = λ u. ground arith;
        },
      )
      | inr something ↦
          let (t, g) = sub_enough b.balances token r (omega arith) in
          let (s, g') = sub_enough b.supplies token r (omega arith) in
          (
            record { supplies = s.0; balances = t.0 },
            r,
            record {
              answers =
                  rw (something, refund_token) (rw (g, refund_token) (rw (g', refund_token) refl));
              amount = refl;
              supply = λ u. (sub-ok b.supplies token r g').1 u;
              balance = λ u. (sub-ok b.balances token r g).1 u;
            },
          )
    ]

-- A refund that is less than what is wanted leaves nothing.
fair_one :
    (want before after last r : ℕ)
    → r ≡ min want before
    → after + r ≡ before
    → last ≤ after
    → (r ≡ want) ⊎ ((r ≤ want) × (last ≡ 0))
fair_one want before after last r e f g = elim (dec_le want before) [
  | yes le ↦ inl (omega arith)
  | no gt ↦ inr (omega arith)
]

pub refund_tokens-Returns :
    (b : Books) (l : List (TokenId × ℕ)) (requests : List (Option ℕ))
    → ((u : TokenId) → amount_for b.balances u ≤ amount_for b.supplies u)
    → length requests ≡ length l
    → (b' : Books) × (refunds : List ℕ) × (refund_tokens b l requests ≡ ok (b', refunds))
      × Withdrawn (paired l refunds) b b'
      × AreRefunds (λ u. amount_for b'.balances u) l requests refunds
unfolding refund_tokens
refund_tokens-Returns b [] requests h n =
    (b, [], ground arith, record { supply = λ u. omega arith; balance = λ u. omega arith }, tt)
refund_tokens-Returns b ((token, deposited) ∷ l) [] h n = absurd (omega arith)
refund_tokens-Returns b ((token, deposited) ∷ l) (asked ∷ requests) h n =
    let (c, r, one) = refund_token_lem b token deposited asked (h token) in
    let (b', refunds, q, taken, fair) =
      refund_tokens-Returns c l requests (λ u. omega (arith, h u, one.supply u, one.balance u))
        (omega arith) in
    (
      b',
      r ∷ refunds,
      rw (one.answers, refund_tokens) (rw (q, refund_tokens) refl),
      record {
        supply = λ u. omega (arith, one.supply u, taken.supply u);
        balance = λ u. omega (arith, one.balance u, taken.balance u);
      },
      (
        fair_one (wanted deposited asked) (amount_for b.balances token)
            (amount_for c.balances token) (amount_for b'.balances token) r one.amount
            (rw (beq_refl token) at (one.balance token)) (omega (arith, taken.balance token)),
        fair,
      ),
    )

-- What a receiver asks to have sent back of some amounts: what its answer says, if that has as many,
-- and otherwise all of them.
abbrev pub IsAsked : (answer : Option (List ℕ)) (amounts asked : List ℕ) → Type 0
IsAsked none amounts asked = asked ≡ amounts
IsAsked (some refunds) amounts asked =
    ((length refunds ≡ length amounts) × (asked ≡ refunds))
    ⊎ ((length refunds ≢ length amounts) × (asked ≡ amounts))

-- What is sent back of each deposit: all that is asked for of it, or less where the receiver has
-- nothing left.
abbrev pub AreSentBack : (TokenId → ℕ) → List (TokenId × ℕ) → (asked refunds : List ℕ) → Type 0
AreSentBack left [] [] [] = Unit
AreSentBack left ((token, deposited) ∷ l) (want ∷ asked) (r ∷ refunds) =
    ((r ≡ min want deposited) ⊎ ((r ≤ min want deposited) × (left token ≡ 0)))
    × AreSentBack left l asked refunds
AreSentBack _ _ _ _ = ⊥

abbrev pub amounts_of : List (TokenId × ℕ) → List ℕ
amounts_of l = map (λ entry. entry.1) l

AreRefunds-some :
    (left : TokenId → ℕ) (l : List (TokenId × ℕ)) (asked refunds : List ℕ)
    → length asked ≡ length l
    → AreRefunds left l (map some asked) refunds
    → AreSentBack left l asked refunds
AreRefunds-some left [] [] [] n h = tt
AreRefunds-some left [] [] (r ∷ refunds) n h = absurd h
AreRefunds-some left [] (want ∷ asked) refunds n h = absurd (omega (arith, n))
AreRefunds-some left (x ∷ l) [] refunds n h = absurd (omega (arith, n))
AreRefunds-some left (x ∷ l) (want ∷ asked) [] n h = absurd h
AreRefunds-some left ((t, x) ∷ l) (want ∷ asked) (r ∷ refunds) n (one, rest) =
    (one, AreRefunds-some left l asked refunds (omega (arith, n)) rest)

AreRefunds-none :
    (left : TokenId → ℕ) (l : List (TokenId × ℕ)) (refunds : List ℕ)
    → AreRefunds left l (repeat_none (length l)) refunds
    → AreSentBack left l (amounts_of l) refunds
AreRefunds-none left [] [] h = tt
AreRefunds-none left [] (r ∷ refunds) h = absurd h
AreRefunds-none left (x ∷ l) [] h = absurd h
AreRefunds-none left ((t, x) ∷ l) (r ∷ refunds) (one, rest) =
    (one, AreRefunds-none left l refunds rest)

length-amounts_of : (l : List (TokenId × ℕ)) → length (amounts_of l) ≡ length l
length-amounts_of [] = refl
length-amounts_of (x ∷ l) = ap suc (length-amounts_of l)

-- What the loop takes for the requests is what is asked for.
pub AreRefunds-AreSentBack :
    (left : TokenId → ℕ) (l : List (TokenId × ℕ)) (answer : Option (List ℕ)) (refunds : List ℕ)
    → AreRefunds left l (requested_refunds answer (length l)) refunds
    → (asked : List ℕ) × IsAsked answer (amounts_of l) asked × AreSentBack left l asked refunds
unfolding requested_refunds
AreRefunds-AreSentBack left l none refunds h =
    (amounts_of l, refl, AreRefunds-none left l refunds h)
AreRefunds-AreSentBack left l (some asked) refunds h =
    let size = length-amounts_of l in
    elim (Bool-cases (nat_beq (length asked) (length l))) [
      | inl e ↦
          let same = (nat_beq_iff (length asked) (length l)).0 e in
          (
            asked,
            inl (same ∙ sym size, refl),
            AreRefunds-some left l asked refunds same (rw (e, requested_refunds) at h),
          )
      | inr e ↦ (
        amounts_of l,
        inr (ground (arith, size, nat_beq_iff (length asked) (length l)), refl),
        AreRefunds-none left l refunds (rw (e, requested_refunds) at h),
      )
    ]
