-- ===== src/TokenDiff/Closure.antt =====
-- The closure of a delta balances it exactly, fees and rounding included.
use native.Mathlib.Decide.{dec_lt}
use intents.Prelude.{
  ℕ, zero, suc, ◌*◌, ◌/◌, ◌≡◌, refl, sym, ◌∙◌, ap, ◌≤◌, ◌<◌, some, none, arith, Option-cases, inl,
  inr,
}
use intents.Prelude.Int.{ℤ, pos, negsuc, neg_ℕ, ◌+ℤ◌, ◌-ℤ◌}
use intents.NumUtils.{
  div_ceil, to_i128, i128_max, checked_neg, checked_mul_div_ceil_i128, checked_mul_div_euclid_i128,
}
use intents.Fees.{Pips, IsPips, max_pips, invert}
use intents.TokenId.{TokenId}
use intents.TokenDiff.{token_fee, supply_delta, closure_supply_delta, closure_delta}
use intents.TokenDiff.Rounding.{
  div_ceil_ℤ-neg, div_euclid_ℤ-neg, scale_up_down, le-scale_up, scale_up_full,
}

token_fee-IsPips : (t : TokenId) (a : ℕ) (fee : Pips) → IsPips fee → IsPips (token_fee t a fee)
unfolding token_fee
token_fee-IsPips t a fee h = ground arith

-- The share that is left after the fee.
abbrev share : TokenId → ℕ → Pips → ℕ
share t a fee = invert (token_fee t a fee)

-- An amount that grows above 1 keeps its fee, and one unit that pays none stays one unit.
share_same :
    (t : TokenId) (n : ℕ) (fee : Pips)
    → IsPips fee
    → 1 ≤ n
    → 0 < share t n fee
    → share t (div_ceil (n * max_pips) (share t n fee)) fee ≡ share t n fee
unfolding token_fee invert
share_same t n fee h one some_left = grind (
  arith,
  le-scale_up n (share t n fee) max_pips some_left (omega arith),
  scale_up_full n max_pips,
)

neg_ℕ-suc : (x : ℕ) → neg_ℕ (suc x) ≡ negsuc x
neg_ℕ-suc x = ground arith

mul_div_ceil-neg :
    (x m d : ℕ) → 0 < d → checked_mul_div_ceil_i128 (negsuc x) m d ≡ to_i128 (neg_ℕ (suc x * m / d))
unfolding checked_mul_div_ceil_i128
mul_div_ceil-neg x m d h = ground (arith, div_ceil_ℤ-neg (suc x * m) d h)

mul_div_euclid-neg :
    (x m d : ℕ)
    → 0 < d
    → checked_mul_div_euclid_i128 (negsuc x) m d ≡ to_i128 (neg_ℕ (div_ceil (suc x * m) d))
unfolding checked_mul_div_euclid_i128
mul_div_euclid-neg x m d h = ground (arith, div_euclid_ℤ-neg (suc x * m) d h)

supply_neg :
    (t : TokenId) (x : ℕ) (fee : Pips)
    → supply_delta t (negsuc x) fee ≡ to_i128 (neg_ℕ (suc x * share t (suc x) fee / max_pips))
unfolding supply_delta
supply_neg t x fee = mul_div_ceil-neg x (share t (suc x) fee) max_pips (omega arith)

checked_neg-pos : (n : ℕ) → n < i128_max → checked_neg (pos (suc n)) ≡ some (negsuc n)
unfolding ◌-ℤ◌
checked_neg-pos n h = ground arith

closure_pos :
    (t : TokenId) (n : ℕ) (fee : Pips)
    → n < i128_max
    → 0 < share t (suc n) fee
    → closure_supply_delta t (pos (suc n)) fee
      ≡ to_i128 (neg_ℕ (div_ceil (suc n * max_pips) (share t (suc n) fee)))
unfolding closure_supply_delta
closure_pos t n fee le h =
    rw (checked_neg-pos n le, closure_supply_delta)
      (mul_div_euclid-neg n max_pips (share t (suc n) fee) h)

mul_div_euclid-zero : (z : ℤ) (m : ℕ) → checked_mul_div_euclid_i128 z m 0 ≡ none
unfolding checked_mul_div_euclid_i128
mul_div_euclid-zero z m = refl

closure_none :
    (t : TokenId) (n : ℕ) (fee : Pips)
    → n < i128_max
    → share t (suc n) fee ≡ 0
    → closure_supply_delta t (pos (suc n)) fee ≡ none
unfolding closure_supply_delta
closure_none t n fee le z =
    rw (checked_neg-pos n le, closure_supply_delta) (rw z (mul_div_euclid-zero (negsuc n) max_pips))

-- The share that remains is zero only where the code divides by zero, and gives no closure.
closure_share :
    (t : TokenId) (n : ℕ) (fee : Pips) {c : ℤ}
    → n < i128_max
    → closure_supply_delta t (pos (suc n)) fee ≡ some c
    → 0 < share t (suc n) fee
closure_share t n fee le h = elim (dec_lt 0 (share t (suc n) fee)) [
  | yes p ↦ p
  | no p ↦ cc (closure_none t n fee le (omega arith))
]

supply_of_neg :
    (t : TokenId) (k : ℕ) (fee : Pips)
    → 0 < k
    → supply_delta t (neg_ℕ k) fee ≡ to_i128 (neg_ℕ (k * share t k fee / max_pips))
supply_of_neg t zero fee h = absurd (omega arith)
supply_of_neg t (suc x) fee h = rw (neg_ℕ-suc x) (supply_neg t x fee)

to_i128-neg : (n : ℕ) → n < i128_max → to_i128 (neg_ℕ (suc n)) ≡ some (negsuc n)
to_i128-neg n h = ground arith

share-le : (t : TokenId) (n : ℕ) (fee : Pips) → share t n fee ≤ max_pips
unfolding invert
share-le t n fee = omega arith

supply_of_closure :
    (t : TokenId) (n : ℕ) (fee : Pips)
    → IsPips fee
    → n < i128_max
    → 0 < share t (suc n) fee
    → supply_delta t (neg_ℕ (div_ceil (suc n * max_pips) (share t (suc n) fee))) fee
      ≡ some (negsuc n)
supply_of_closure t n fee h le some_left =
    let q = share t (suc n) fee in
    let k = div_ceil (suc n * max_pips) q in
    let grows : suc n ≤ k = le-scale_up (suc n) q max_pips some_left (share-le t (suc n) fee) in
    supply_of_neg t k fee (omega arith)
    ∙ ap (λ s. to_i128 (neg_ℕ (k * s / max_pips)))
        (share_same t (suc n) fee h (omega arith) some_left)
    ∙ ap (λ s. to_i128 (neg_ℕ s))
        (scale_up_down (suc n) q max_pips some_left (share-le t (suc n) fee))
    ∙ to_i128-neg n le

to_i128-some : (z : ℤ) {c : ℤ} → to_i128 z ≡ some c → c ≡ z
to_i128-some (pos n) h = ground arith
to_i128-some (negsuc n) h = ground arith

-- The case of a delta that is received: the closure gives it back, fee included.
exact-pos :
    (t : TokenId) (n : ℕ) (fee : Pips) {c : ℤ}
    → IsPips fee
    → n < i128_max
    → closure_supply_delta t (pos (suc n)) fee ≡ some c
    → supply_delta t c fee ≡ some (negsuc n)
exact-pos t n fee {c} h le e =
    let some_left = closure_share t n fee le e in
    let is : c ≡ neg_ℕ (div_ceil (suc n * max_pips) (share t (suc n) fee)) =
      to_i128-some _ (sym (closure_pos t n fee le some_left) ∙ e) in
    rw is (supply_of_closure t n fee h le some_left)

-- A total that is given up needs no fee to be received.
supply-pos : (t : TokenId) (n : ℕ) (fee : Pips) → supply_delta t (pos n) fee ≡ some (pos n)
unfolding supply_delta
supply-pos t n fee = refl

closure_neg :
    (t : TokenId) (n : ℕ) (fee : Pips) {c : ℤ}
    → closure_supply_delta t (negsuc n) fee ≡ some c
    → c ≡ pos (suc n)
unfolding closure_supply_delta ◌-ℤ◌
closure_neg t n fee h = ground arith

closure_zero :
    (t : TokenId) (fee : Pips) {c : ℤ} → closure_supply_delta t (pos 0) fee ≡ some c → c ≡ pos 0
unfolding closure_supply_delta ◌-ℤ◌
closure_zero t fee h = cc

-- The supply delta of a `closure_supply_delta` is the opposite of the total it is the closure of.
supply-closure :
    (t : TokenId) (s : ℤ) (fee : Pips) {c : ℤ}
    → IsPips fee
    → to_i128 s ≡ some s
    → closure_supply_delta t s fee ≡ some c
    → (s' : ℤ) × (supply_delta t c fee ≡ some s') × (s +ℤ s' ≡ pos 0)
unfolding ◌+ℤ◌
supply-closure t (pos zero) fee h fits e =
    (pos 0, rw (closure_zero t fee e) (supply-pos t 0 fee), refl)
supply-closure t (pos (suc n)) fee h fits e =
    (negsuc n, exact-pos t n fee h (ground arith) e, ground arith)
supply-closure t (negsuc n) fee h fits e =
    (pos (suc n), rw (closure_neg t n fee e) (supply-pos t (suc n) fee), ground arith)

to_i128_self : (z : ℤ) {s : ℤ} → to_i128 z ≡ some s → to_i128 s ≡ some s
to_i128_self (pos n) h = ground arith
to_i128_self (negsuc n) h = ground arith

supply_fits :
    (t : TokenId) (d : ℤ) (fee : Pips) {s : ℤ}
    → to_i128 d ≡ some d
    → supply_delta t d fee ≡ some s
    → to_i128 s ≡ some s
supply_fits t (pos n) fee {s} fits e =
    let same : s ≡ pos n = cc (supply-pos t n fee) in rw same fits
supply_fits t (negsuc n) fee fits e =
    to_i128_self (neg_ℕ (suc n * share t (suc n) fee / max_pips)) (sym (supply_neg t n fee) ∙ e)

-- Whenever `closure_delta` gives a closure for a delta, the supply deltas of the two are defined and
-- cancel exactly, for every token, fraction and amount.
pub closure_delta-exact :
    (t : TokenId) (d : ℤ) (fee : Pips) {c : ℤ}
    → IsPips fee
    → to_i128 d ≡ some d
    → closure_delta t d fee ≡ some c
    → (s : ℤ) × (s' : ℤ) × (supply_delta t d fee ≡ some s)
      × (supply_delta t c fee ≡ some s')
      × (s +ℤ s' ≡ pos 0)
unfolding closure_delta
closure_delta-exact t d fee h fits e = elim (Option-cases (supply_delta t d fee)) [
  | inl q ↦ cc (rw (q, closure_delta) at e)
  | inr (s, q) ↦
      let (s', r, z) =
        supply-closure t s fee h (supply_fits t d fee fits q) (rw (q, closure_delta) at e) in
      (s, s', q, r, z)
]
