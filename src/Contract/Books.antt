-- ===== src/Contract/Books.antt =====
-- The loops over deposited, withdrawn and refunded tokens, as changes of the books: of the total
-- supplies and of the balances of one account.
use intents.Prelude.{
  ℕ, ◌+◌, ◌-◌, ◌≤◌, ◌≡◌, refl, true, not, Option, none, some, List, [], ◌∷◌, ◌==◌, nat_beq, ltb,
  String, sym, ◌∙◌, string_eq, nat_default, arith, if◌then◌else◌, inl, inr, Bool-cases,
}
use intents.NumUtils.{checked_add, checked_sub, u128_max}
use intents.Amounts.{Amounts, amount_for, add, sub}
use intents.Amounts.Laws.{checked_apply-result, amount_for-checked_apply}
use intents.Amounts.Many.{sum_at}
use intents.TokenId.{AccountId, TokenId, token_beq, token_eq}
use intents.Error.{ok, guard, guard-not-passes, >>=-returns, invalid_intent, nft_already_deposited}
use intents.Contract.Tokens.{
  or_overflow, check_unique, Books, deposit_token, deposit_tokens, withdraw_token, withdraw_tokens,
}

-- What a supply may be: it fits a `u128`, and there is at most one of a non-fungible token.
pub record IsSound (supplies : Amounts TokenId ℕ) : Type 0 where
  pub bounded : (u : TokenId) → amount_for supplies u ≤ u128_max
  pub unique : (a : AccountId) (x : String) → amount_for supplies (TokenId.nep171 a x) ≤ 1

or_overflow-ok :
    (x : Amounts TokenId ℕ × Option ℕ) {r : Amounts TokenId ℕ × ℕ}
    → or_overflow x ≡ ok r
    → (x.1 ≡ some r.1) × (x.0 ≡ r.0)
or_overflow-ok (m, none) q = cc
or_overflow-ok (m, some t) {r} q = let e : r ≡ (m, t) = cc in rw e (refl, refl)

-- A checked addition that succeeds.
pub add-ok :
    (m : Amounts TokenId ℕ) (k : TokenId) (a : ℕ) {r : Amounts TokenId ℕ × ℕ}
    → or_overflow (add m k a) ≡ ok r
    → (r.1 ≡ amount_for m k + a)
      × (r.1 ≤ u128_max)
      × ((u : TokenId) → amount_for r.0 u ≡ (if k == u then amount_for m u + a else amount_for m u))
unfolding add
add-ok m k a q =
    let (e, same) = or_overflow-ok (add m k a) q in
    let result = sym (checked_apply-result m k (λ b. checked_add b a)) ∙ e in
    (
      ground arith,
      ground arith,
      λ u. rw (← same) (
          ground
            (arith, amount_for-checked_apply m k u (λ b. checked_add b a), token_eq.beq_iff k u)),
    )

-- A checked subtraction that succeeds.
pub sub-ok :
    (m : Amounts TokenId ℕ) (k : TokenId) (a : ℕ) {r : Amounts TokenId ℕ × ℕ}
    → or_overflow (sub m k a) ≡ ok r
    → (a ≤ amount_for m k)
      × ((u : TokenId) → amount_for r.0 u + (if k == u then a else 0) ≡ amount_for m u)
unfolding sub
sub-ok m k a q =
    let (e, same) = or_overflow-ok (sub m k a) q in
    let result = sym (checked_apply-result m k (λ b. checked_sub b a)) ∙ e in
    (
      ground arith,
      λ u. rw (← same) (
          ground
            (arith, amount_for-checked_apply m k u (λ b. checked_sub b a), token_eq.beq_iff k u)),
    )

-- A key that has enough can be taken from.
pub sub_enough :
    (m : Amounts TokenId ℕ) (k : TokenId) (a : ℕ)
    → a ≤ amount_for m k
    → (r : Amounts TokenId ℕ × ℕ) × (or_overflow (sub m k a) ≡ ok r)
unfolding sub
sub_enough m k a h = (
  ((sub m k a).0, amount_for m k - a),
  ground (arith, checked_apply-result m k (λ b. checked_sub b a)),
)

-- A key can be given what still fits.
pub add_enough :
    (m : Amounts TokenId ℕ) (k : TokenId) (a : ℕ)
    → amount_for m k + a ≤ u128_max
    → (r : Amounts TokenId ℕ × ℕ) × (or_overflow (add m k a) ≡ ok r)
unfolding add
add_enough m k a h = (
  ((add m k a).0, amount_for m k + a),
  ground (arith, checked_apply-result m k (λ b. checked_add b a)),
)

-- The books with one amount more, or with one amount less, for a token.
pub record Raised (token : TokenId) (x : ℕ) (b b' : Books) : Type 0 where
  pub supply :
      (u : TokenId)
      → amount_for b'.supplies u ≡ amount_for b.supplies u + (if token == u then x else 0)
  pub balance :
      (u : TokenId)
      → amount_for b'.balances u ≡ amount_for b.balances u + (if token == u then x else 0)

check_unique-passes :
    (token : TokenId) (total : ℕ) (a : AccountId) (y : String)
    → check_unique token total ≡ ok tt
    → token_beq token (TokenId.nep171 a y) ≡ true
    → total ≤ 1
check_unique-passes (TokenId.nep141 _) total a y q e = cc
check_unique-passes (TokenId.nep171 b z) total a y q e =
    ground (arith, guard-not-passes (ltb 1 total) (nft_already_deposited b z) q)
check_unique-passes (TokenId.nep245 _ _) total a y q e = cc
check_unique-passes (TokenId.imt _ _) total a y q e = cc

-- The supply of a token after a checked addition is sound, if it was before.
add-IsSound :
    (m m' : Amounts TokenId ℕ) (token : TokenId) (x total : ℕ)
    → total ≡ amount_for m token + x
    → total ≤ u128_max
    → check_unique token total ≡ ok tt
    → ((u : TokenId)
        → amount_for m' u ≡ (if token == u then amount_for m u + x else amount_for m u))
    → IsSound m
    → IsSound m'
add-IsSound m m' token x total e fits one reads sound = record {
  bounded = λ u. elim (Bool-cases (token == u)) [
    | inl same ↦
        let is_u = (token_eq.beq_iff token u).0 same in
        rw (reads u) (rw same (rw (← is_u) (omega arith)))
    | inr other ↦ rw (reads u) (rw other (sound.bounded u))
  ];
  unique = λ a y. elim (Bool-cases (token == TokenId.nep171 a y)) [
    | inl same ↦
        let is_u = (token_eq.beq_iff token (TokenId.nep171 a y)).0 same in
        let low = check_unique-passes token total a y one same in
        rw (reads (TokenId.nep171 a y)) (rw same (rw (← is_u) (omega arith)))
    | inr other ↦ rw (reads (TokenId.nep171 a y)) (rw other (sound.unique a y))
  ];
}

deposit_token-ok :
    (b : Books) (token : TokenId) (x : ℕ) {b' : Books}
    → deposit_token b token x ≡ ok b'
    → Raised token x b b' × (IsSound b.supplies → IsSound b'.supplies)
unfolding deposit_token
deposit_token-ok b token x {b'} q =
    let (_, g1, q1) = >>=-returns _ (guard (not (nat_beq x 0)) invalid_intent) q in
    let (s, g2, q2) = >>=-returns _ (or_overflow (add b.supplies token x)) q1 in
    let (_, g3, q3) = >>=-returns _ (check_unique token s.1) q2 in
    let (t, g4, q4) = >>=-returns _ (or_overflow (add b.balances token x)) q3 in
    let same : b' ≡ record { supplies = s.0; balances = t.0 } = cc in
    let (e, fits, reads) = add-ok b.supplies token x g2 in
    let (_, _, reads') = add-ok b.balances token x g4 in
    rw same (
      record { supply = λ u. ground (arith, reads u); balance = λ u. ground (arith, reads' u) },
      add-IsSound b.supplies s.0 token x s.1 e fits g3 reads,
    )

-- What a loop over amounts has put in.
pub record Deposited (l : List (TokenId × ℕ)) (b b' : Books) : Type 0 where
  pub supply : (u : TokenId) → amount_for b'.supplies u ≡ amount_for b.supplies u + sum_at u l
  pub balance : (u : TokenId) → amount_for b'.balances u ≡ amount_for b.balances u + sum_at u l
  pub sound : IsSound b.supplies → IsSound b'.supplies

pub deposit_tokens-Deposited :
    (b : Books) (l : List (TokenId × ℕ)) {b' : Books}
    → deposit_tokens b l ≡ ok b'
    → Deposited l b b'
unfolding deposit_tokens
deposit_tokens-Deposited b [] {b'} q =
    let same : b' ≡ b = cc in
    rw same (record { supply = λ u. omega arith; balance = λ u. omega arith; sound = λ s. s })
deposit_tokens-Deposited b ((token, x) ∷ l) q =
    let (c, q1, q2) = >>=-returns _ (deposit_token b token x) q in
    let (one, kept) = deposit_token-ok b token x q1 in
    let rest = deposit_tokens-Deposited c l q2 in
    record {
      supply = λ u. omega (arith, one.supply u, rest.supply u);
      balance = λ u. omega (arith, one.balance u, rest.balance u);
      sound = λ s. rest.sound (kept s);
    }

-- What a loop over amounts has taken out.
pub record Withdrawn (l : List (TokenId × ℕ)) (b b' : Books) : Type 0 where
  pub supply : (u : TokenId) → amount_for b'.supplies u + sum_at u l ≡ amount_for b.supplies u
  pub balance : (u : TokenId) → amount_for b'.balances u + sum_at u l ≡ amount_for b.balances u

-- A supply that has become less is sound, if it was before.
pub less-IsSound :
    (m m' : Amounts TokenId ℕ) (l : TokenId → ℕ)
    → ((u : TokenId) → amount_for m' u + l u ≡ amount_for m u)
    → IsSound m
    → IsSound m'
less-IsSound m m' l less sound = record {
  bounded = λ u. omega (arith, less u, sound.bounded u);
  unique = λ a y. omega (arith, less (TokenId.nep171 a y), sound.unique a y);
}

pub withdraw_tokens-Withdrawn :
    (b : Books) (l : List (TokenId × ℕ)) {b' : Books}
    → withdraw_tokens b l ≡ ok b'
    → Withdrawn l b b'
unfolding withdraw_tokens withdraw_token
withdraw_tokens-Withdrawn b [] {b'} q =
    let same : b' ≡ b = cc in
    rw same (record { supply = λ u. omega arith; balance = λ u. omega arith })
withdraw_tokens-Withdrawn b ((token, x) ∷ l) q =
    let (c, q1, q2) = >>=-returns _ (withdraw_token b token x) q in
    let (_, g1, q3) = >>=-returns _ (guard (not (nat_beq x 0)) invalid_intent) q1 in
    let (t, g2, q4) = >>=-returns _ (or_overflow (sub b.balances token x)) q3 in
    let (s, g3, q5) = >>=-returns _ (or_overflow (sub b.supplies token x)) q4 in
    let same : c ≡ record { supplies = s.0; balances = t.0 } = cc in
    let (_, less) = sub-ok b.balances token x g2 in
    let (_, less') = sub-ok b.supplies token x g3 in
    let rest =
      withdraw_tokens-Withdrawn (record { supplies = s.0; balances = t.0 }) l (rw same at q2) in
    record {
      supply = λ u. omega (arith, less' u, rest.supply u);
      balance = λ u. omega (arith, less u, rest.balance u);
    }
