-- ===== src/Escrow/Fill/Charges.antt =====
-- The fees of a fill: what is due to whom, and the transfers that pay it.
use intents.Prelude.{
  false, ℕ, zero, suc, ◌+◌, ◌-◌, ◌*◌, ◌≡◌, refl, ◌≤◌, ◌<◌, ◌⊎◌, inl, inr, Option, none, some, List,
  [], ◌∷◌, ◌++◌, Bool-cases, nat_beq, nat_beq_iff, arith,
}
use intents.Prelude.Outcome.{done, bind-done, done-injective}
use intents.MapUtils.{Map}
use intents.NumUtils.{checked_sub, div_ceil, checked_mul_div, checked_mul_div_ceil}
use intents.NumUtils as Num
use intents.NumUtils.MulDiv.{div_floor_bounds, div_ceil_bounds}
use intents.Fees.{Pips, max_pips, fee_ceil}
use intents.TokenId.{AccountId, TokenId}
use intents.Decimal.{Ud128, denominator, checked_mul}
use intents.Escrow.{ProtocolFees, Params, Send, ok_or, excessive_fees, integer_overflow, panicked}
use intents.Escrow.Fill.{
  Collected, fee_of, collect, collect_protocol, to_collector_amount, integrator_amounts,
  collect_fees,
}
use intents.Escrow.Fill.Bounds.{ok_or-done, checked_mul_div-some, checked_mul_div_ceil-some}

-- A fraction in millionths of an amount, rounded up.
pub record IsShare (p : Pips) (amount f : ℕ) : Type 0 where
  pub enough : amount * p ≤ f * max_pips
  pub least : f * max_pips < amount * p + max_pips

fee_of-IsShare : (p : Pips) (amount f : ℕ) → fee_of p amount ≡ done f → IsShare p amount f
unfolding fee_ceil
fee_of-IsShare p amount f q =
    let (positive, e) = checked_mul_div_ceil-some amount p max_pips f (ok_or-done _ panicked f q) in
    let (enough, least) = div_ceil_bounds (amount * p) max_pips positive in
    rw e (record { enough = enough; least = least })

-- Of the surplus, what is used beyond the worth of the source at the maker's price, rounded down.
abbrev pub IsSurplus : ProtocolFees → (out used : ℕ) → (price : Ud128) → (surplus : ℕ) → Type 0
IsSurplus f out used price surplus =
    ((f.surplus ≡ 0) × (surplus ≡ 0))
    ⊎ ((want : ℕ) × (want * denominator price ≤ out * price.digits)
        × (out * price.digits < want * denominator price + denominator price)
        × IsShare f.surplus (used - want) surplus)

-- What is due to the protocol, and to the integrators.
abbrev pub ProtocolDue :
    Option ProtocolFees → (out used : ℕ) → (price : Ud128) → List (AccountId × ℕ) → Type 0
ProtocolDue none out used price l = l ≡ []
ProtocolDue (some f) out used price l =
    (fee : ℕ) × (surplus : ℕ) × IsShare f.fee used fee
    × IsSurplus f out used price surplus
    × (l ≡ (f.collector, fee + surplus) ∷ [])

abbrev pub IntegratorsDue : Map AccountId Pips → (used : ℕ) → List (AccountId × ℕ) → Type 0
IntegratorsDue [] used [] = Unit
IntegratorsDue ((who, p) ∷ fees) used ((collector, f) ∷ l) =
    (collector ≡ who) × IsShare p used f × IntegratorsDue fees used l
IntegratorsDue _ used _ = ⊥

-- A transfer for each amount that is not zero.
abbrev pub ArePaid : TokenId → List (AccountId × ℕ) → List Send → Type 0
ArePaid token [] sends = sends ≡ []
ArePaid token ((who, zero) ∷ l) sends = ArePaid token l sends
ArePaid token ((who, suc n) ∷ l) [] = ⊥
ArePaid token ((who, suc n) ∷ l) (s ∷ ss) =
    (s ≡ record { token = token; receiver_id = who; amount = suc n }) × ArePaid token l ss

pub record IsCharged (p : Params) (out used : ℕ) (sends : List Send) : Type 0 where
  pub protocol : List (AccountId × ℕ)
  pub integrators : List (AccountId × ℕ)
  pub protocol_due : ProtocolDue p.protocol_fees out used p.price protocol
  pub integrators_due : IntegratorsDue p.integrator_fees used integrators
  pub paid : ArePaid p.dst_token (protocol ++ integrators) sends

pub integrator_amounts-IntegratorsDue :
    (fees : Map AccountId Pips) (used : ℕ) (l : List (AccountId × ℕ))
    → integrator_amounts fees used ≡ done l
    → IntegratorsDue fees used l
unfolding integrator_amounts
integrator_amounts-IntegratorsDue [] used l q = let e : [] ≡ l = done-injective _ _ q in rw (← e) tt
integrator_amounts-IntegratorsDue ((who, p) ∷ fees) used l q =
    let (f, a, q1) = bind-done (fee_of p used) _ q in
    let (rest, b, q2) = bind-done (integrator_amounts fees used) _ q1 in
    let e : (who, f) ∷ rest ≡ l = done-injective _ _ q2 in
    rw (← e) (refl, fee_of-IsShare p used f a, integrator_amounts-IntegratorsDue fees used rest b)

collect-due :
    (f : ProtocolFees) (out used : ℕ) (price : Ud128) (c : Collected)
    → collect f out used price ≡ done c
    → IsShare f.fee used c.fee × IsSurplus f out used price c.surplus × (c.collector ≡ f.collector)
unfolding collect checked_mul
collect-due f out used price c q =
    let (fee, a, q1) = bind-done (fee_of f.fee used) _ q in
    let share = fee_of-IsShare f.fee used fee a in
    elim (Bool-cases (nat_beq f.surplus 0)) [
      | inl free ↦
          let e : record { fee = fee; surplus = 0; collector = f.collector } ≡ c =
            done-injective _ _ (rw free at q1) in
          rw (← e) (share, inl ((nat_beq_iff f.surplus 0).0 free, refl), refl)
      | inr some_share ↦
          let (want, w, q2) =
            bind-done (ok_or (checked_mul out price) integer_overflow) _ (rw some_share at q1) in
          let (surplus, b, q3) = bind-done (fee_of f.surplus (used - want)) _ q2 in
          let (positive, value) =
            checked_mul_div-some out price.digits (denominator price) want
              (ok_or-done _ integer_overflow want w) in
          let (low, high) = div_floor_bounds (out * price.digits) (denominator price) positive in
          let e : record { fee = fee; surplus = surplus; collector = f.collector } ≡ c =
            done-injective _ _ q3 in
          rw (← e) (
            share,
            inr (
              want,
              rw value low,
              rw value high,
              fee_of-IsShare f.surplus (used - want) surplus b,
            ),
            refl,
          )
    ]

checked_add-some : (a b r : ℕ) → Num.checked_add a b ≡ some r → r ≡ a + b
checked_add-some a b r q = ground arith

pub to_collector_amount-ProtocolDue :
    (o : Option ProtocolFees) (out used : ℕ) (price : Ud128) (c : Option Collected)
    (l : List (AccountId × ℕ))
    → collect_protocol o out used price ≡ done c
    → to_collector_amount c ≡ done l
    → ProtocolDue o out used price l
unfolding collect_protocol to_collector_amount
to_collector_amount-ProtocolDue none out used price c l q g =
    let e : none ≡ c = done-injective _ _ q in
    let z : [] ≡ l = done-injective _ _ (rw (← e, to_collector_amount) at g) in rw (← z) refl
to_collector_amount-ProtocolDue (some f) out used price c l q g =
    let (x, a, q1) = bind-done (collect f out used price) _ q in
    let e : some x ≡ c = done-injective _ _ q1 in
    let (total, b, q2) =
      bind-done (ok_or (Num.checked_add x.fee x.surplus) excessive_fees) _
        (rw (← e, to_collector_amount) at g) in
    let z : (x.collector, total) ∷ [] ≡ l = done-injective _ _ q2 in
    let (share, surplus, who) = collect-due f out used price x a in
    let sum = checked_add-some x.fee x.surplus total (ok_or-done _ excessive_fees total b) in
    (x.fee, x.surplus, share, surplus, rw (← z) (rw (who, sum) refl))

pub collect_fees-ArePaid :
    (token : TokenId) (l : List (AccountId × ℕ)) (out : ℕ) (x : List Send × ℕ)
    → collect_fees token l out ≡ done x
    → ArePaid token l x.0
unfolding collect_fees
collect_fees-ArePaid token [] out x q =
    let e : ([], out) ≡ x = done-injective _ _ q in rw (← e) refl
collect_fees-ArePaid token ((who, zero) ∷ l) out x q = collect_fees-ArePaid token l out x q
collect_fees-ArePaid token ((who, suc n) ∷ l) out x q =
    let some_fee : nat_beq (suc n) 0 ≡ false = ground arith in
    let (left, _, q1) =
      bind-done (ok_or (checked_sub out (suc n)) excessive_fees) _
        (rw (some_fee, collect_fees) at q) in
    let (rest, a, q2) = bind-done (collect_fees token l left) _ q1 in
    let e : (record { token = token; receiver_id = who; amount = suc n } ∷ rest.0, rest.1) ≡ x =
      done-injective _ _ q2 in
    rw (← e) (refl, collect_fees-ArePaid token l left rest a)
