-- ===== src/Escrow/Fill/Bounds.antt =====
-- The amounts of a fill: what the taker gets and pays, and where it goes.
use intents.Prelude.{
  refl, ◌+◌, ◌⊎◌, true, ℕ, ◌*◌, ◌/◌, ◌≡◌, ◌≤◌, ◌<◌, inl, inr, Bool, false, not, ltb, arith, Option,
  none, some, Bool-cases, ltb→lt, string_eq,
}
use mathlib.Core.Path.{subst}
use intents.Prelude.Outcome.{done, bind-done, done-injective, fail_if-done}
use intents.NumUtils.{checked_mul_div, checked_mul_div_ceil, div_ceil}
use intents.NumUtils.MulDiv.{div_floor_bounds, div_ceil_bounds, mul_lt}
use native.Mathlib.Nat.{mul-le-mul_right}
use native.Mathlib.Decide.{dec_lt}
use intents.Decimal.{Ud128, checked_div, checked_mul_ceil, denominator}
use intents.Decimal.Compare.{ten_positive}
use intents.Escrow.{EscrowError, State, ok_or, integer_overflow, partial_fills_not_allowed}
use intents.Escrow.Fill.{taker_swap}

pub ok_or-done {ℓ} :
    {A : Type ℓ} (o : Option A) (why : EscrowError) (a : A) → ok_or o why ≡ done a → o ≡ some a
ok_or-done none why a q = cc
ok_or-done (some b) why a q = cc

-- The amounts of a swap at a price: no more than what is left and than what the taker sent. Either all
-- that is left goes, for the least amount that is worth it at the price; or, if partial fills are
-- allowed, all that was sent is used, for the most that it buys.
pub record IsSwap (remaining taker_dst_in : ℕ) (price : Ud128) (partial : Bool) (out used : ℕ)
    : Type 0 where
  pub out_left : out ≤ remaining
  pub used_sent : used ≤ taker_dst_in
  pub worth : out * price.digits ≤ used * denominator price
  pub fair :
      ((out ≡ remaining) × (used * denominator price < out * price.digits + denominator price))
      ⊎ ((partial ≡ true)
          × (out < remaining)
          × (used ≡ taker_dst_in)
          × (used * denominator price < out * price.digits + price.digits))

floor_swap : (n den dig : ℕ) → 0 < dig → n * den / dig * dig ≤ n * den
floor_swap n den dig h = (div_floor_bounds (n * den) dig h).0

-- What is left costs no more than what was sent, if the amount sent buys at least that much.
ceil_swap :
    (rem n den dig : ℕ)
    → 0 < dig
    → 0 < den
    → rem ≤ n * den / dig
    → (div_ceil (rem * dig) den ≤ n)
      × (rem * dig ≤ div_ceil (rem * dig) den * den)
      × (div_ceil (rem * dig) den * den < rem * dig + den)
ceil_swap rem n den dig h g le =
    let cost = mul-le-mul_right dig le in
    let floor = floor_swap n den dig h in
    let ceil = div_ceil_bounds (rem * dig) den g in
    (
      elim (dec_lt n (div_ceil (rem * dig) den)) [
        | yes more ↦
            absurd (omega (arith, mul_lt n (div_ceil (rem * dig) den) den more, ceil, cost, floor))
        | no fine ↦ omega arith
      ],
      ceil.0,
      ceil.1,
    )

pub checked_mul_div-some :
    (a mul div r : ℕ) → checked_mul_div a mul div ≡ some r → (0 < div) × (r ≡ a * mul / div)
unfolding checked_mul_div
checked_mul_div-some a mul div r q = ground arith

pub checked_mul_div_ceil-some :
    (a mul div r : ℕ)
    → checked_mul_div_ceil a mul div ≡ some r
    → (0 < div) × (r ≡ div_ceil (a * mul) div)
unfolding checked_mul_div_ceil
checked_mul_div_ceil-some a mul div r q = ground arith

want_less :
    (rem n : ℕ) (price : Ud128) (want : ℕ) (partial : Bool)
    → partial ≡ true
    → 0 < price.digits
    → want ≡ n * denominator price / price.digits
    → want < rem
    → IsSwap rem n price partial want n
want_less rem n price want partial allowed h e lt = record {
  out_left = omega (arith, lt);
  used_sent = omega arith;
  worth = rw e (floor_swap n (denominator price) price.digits h);
  fair =
      inr (allowed, lt, refl, rw e ((div_floor_bounds (n * denominator price) price.digits h).1));
}

want_all :
    (rem n : ℕ) (price : Ud128) (partial : Bool) (want used : ℕ)
    → 0 < price.digits
    → want ≡ n * denominator price / price.digits
    → used ≡ div_ceil (rem * price.digits) (denominator price)
    → rem ≤ want
    → IsSwap rem n price partial rem used
want_all rem n price partial want used h e c le =
    let (sent, worth, least) =
      ceil_swap rem n (denominator price) price.digits h (ten_positive price.decimals)
        (omega (arith, e, le)) in
    record {
      out_left = omega arith;
      used_sent = rw c sent;
      worth = rw c worth;
      fair = inl (refl, rw c least);
    }

not_less : (a b : ℕ) → ltb a b ≡ false → b ≤ a
not_less a b h = ground arith

pub taker_swap-IsSwap :
    (s : State) (taker_dst_in : ℕ) (price : Ud128) (partial : Bool) (out used : ℕ)
    → taker_swap s taker_dst_in price partial ≡ done (out, used)
    → IsSwap s.maker_src_remaining taker_dst_in price partial out used
unfolding taker_swap checked_div checked_mul_ceil
taker_swap-IsSwap s n price partial out used q =
    let (want, w, rest) = bind-done (ok_or (checked_div n price) integer_overflow) _ q in
    let (positive, value) =
      checked_mul_div-some n (denominator price) price.digits want
        (ok_or-done _ integer_overflow want w) in
    elim (Bool-cases (ltb want s.maker_src_remaining)) [
      | inl less ↦
          let (allowed, e) =
            fail_if-done (not partial) partial_fills_not_allowed _ (rw less at rest) in
          subst (λ (y : ℕ × ℕ). IsSwap s.maker_src_remaining n price partial y.0 y.1)
            (done-injective _ (out, used) e)
            (want_less s.maker_src_remaining n price want partial (ground (arith, allowed)) positive
              value (ltb→lt want s.maker_src_remaining less))
      | inr enough ↦
          let (u, v, e) =
            bind-done (ok_or (checked_mul_ceil s.maker_src_remaining price) integer_overflow) _
              (rw enough at rest) in
          let (_, cost) =
            checked_mul_div_ceil-some s.maker_src_remaining price.digits (denominator price) u
              (ok_or-done _ integer_overflow u v) in
          subst (λ (y : ℕ × ℕ). IsSwap s.maker_src_remaining n price partial y.0 y.1)
            (done-injective _ (out, used) e)
            (want_all s.maker_src_remaining n price partial want u positive value cost
              (not_less want s.maker_src_remaining enough))
    ]
