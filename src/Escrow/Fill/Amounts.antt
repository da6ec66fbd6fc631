-- ===== src/Escrow/Fill/Amounts.antt =====
-- Where the tokens of a fill go.
use Prim.Native.Nat.{Ordering}
use intents.Prelude.{
  ◌⊎◌, Option-cases, ℕ, ◌+◌, ◌-◌, ◌≡◌, ◌≢◌, refl, inl, inr, true, false, not, nat_beq, arith, none,
  some, List, [], ◌∷◌, ◌++◌, Bool-cases, nat_beq_iff, ◌||◌, string_eq,
}
use mathlib.Core.Path.{subst}
use intents.Prelude.Int.{ℤ, ltb_ℤ}
use intents.Prelude.Outcome.{Outcome, done, ◌>>?◌, fail_if, bind-done, done-injective, fail_if-done}
use intents.MapUtils.{is_empty, contains}
use intents.NumUtils.{checked_sub}
use intents.TokenId.{AccountId, TokenId}
use intents.Decimal.{cmp}
use intents.Escrow.{
  OverrideSend, EscrowError, State, Params, Send, ok_or, excessive_fees, integer_overflow,
  insufficient_amount, unauthorized, price_too_low, deadline_expired, with_src, with_in_flight,
  register_callback,
}
use intents.Escrow.Fill.{
  receiver_or, FillAction, Filled, taker_swap, collect_fees, collect_protocol, integrator_amounts,
  to_collector_amount, fill_amounts, fill, filled, price_lt, has_msg,
}
use intents.Escrow.Fill.Charges.{
  ArePaid, IsCharged, collect_fees-ArePaid, integrator_amounts-IntegratorsDue,
  to_collector_amount-ProtocolDue,
}
use intents.Escrow.Fill.Bounds.{ok_or-done, IsSwap, taker_swap-IsSwap}

-- The amounts of transfers, together.
pub sum_sends : List Send → ℕ
sum_sends [] = 0
sum_sends (s ∷ ss) = s.amount + sum_sends ss

checked_sub-some : (a b r : ℕ) → checked_sub a b ≡ some r → r + b ≡ a
checked_sub-some a b r q = ground arith

-- The fees and what is left of the amount are the amount.
collect_fees-sum :
    (token : TokenId) (fees : List (AccountId × ℕ)) (out : ℕ) (x : List Send × ℕ)
    → collect_fees token fees out ≡ done x
    → sum_sends x.0 + x.1 ≡ out
unfolding collect_fees sum_sends
collect_fees-sum token [] out x q = let e : ([], out) ≡ x = cc in rw (← e) (omega arith)
collect_fees-sum token ((collector, fee) ∷ fees) out x q = elim (Bool-cases (nat_beq fee 0)) [
  | inl zero_fee ↦ collect_fees-sum token fees out x (rw (zero_fee, collect_fees) at q)
  | inr some_fee ↦
      let (left, l, rest) =
        bind-done (ok_or (checked_sub out fee) excessive_fees) _
          (rw (some_fee, collect_fees) at q) in
      let (others, o, e) = bind-done (collect_fees token fees left) _ rest in
      let ih = collect_fees-sum token fees left others o in
      let taken = checked_sub-some out fee left (ok_or-done _ excessive_fees left l) in
      let same : (
        record { token = token; receiver_id = collector; amount = fee } ∷ others.0,
        others.1,
      )
          ≡ x =
        cc in
      rw (← same) (omega (arith, ih, taken))
]

pub register_callback-done :
    (s t : State) → register_callback s ≡ done t → t ≡ with_in_flight s (s.in_flight + 1)
unfolding register_callback
register_callback-done s t q = ground arith

-- Who receives what is sent: whom the override names, or else the one it overrides.
abbrev pub Receives : OverrideSend → (default receiver : AccountId) → Type 0
Receives to default receiver =
    ((name : AccountId) × (to.receiver_id ≡ some name) × (receiver ≡ name))
    ⊎ ((to.receiver_id ≡ none) × (receiver ≡ default))

-- What a fill does to the order, and where the tokens go.
pub record IsFill (p : Params) (sender_id : AccountId) (taker_dst_in : ℕ) (msg : FillAction)
    (s t : State) (x : Filled) : Type 0 where
  pub swapped :
      IsSwap s.maker_src_remaining taker_dst_in msg.price p.partial_fills_allowed x.taker_src_out
        x.taker_dst_used
  pub state_after :
      t ≡ with_in_flight (with_src s (s.maker_src_remaining - x.taker_src_out)) (s.in_flight + 1)
  pub source_out : x.taker_src_out ≢ 0
  pub source_sent : x.to_taker.amount ≡ x.taker_src_out
  pub source_token : x.to_taker.token ≡ p.src_token
  pub taker_gets : Receives msg.receive_src_to sender_id x.to_taker.receiver_id
  pub maker_gets : x.maker_dst_out ≢ 0
  pub maker_sent : x.to_maker.amount ≡ x.maker_dst_out
  pub maker_token : x.to_maker.token ≡ p.dst_token
  pub maker_receives : Receives p.receive_dst_to p.maker x.to_maker.receiver_id
  pub charged : IsCharged p x.taker_src_out x.taker_dst_used x.fees
  pub used_up : sum_sends x.fees + x.maker_dst_out ≡ x.taker_dst_used
  pub returned : x.refund + x.taker_dst_used ≡ taker_dst_in
  pub called_back : x.callback ≡ record {
    maker_src = none;
    maker_dst = some (record { amount = x.maker_dst_out; is_call = has_msg p.receive_dst_to });
  }

receiver_or-Receives :
    (to : OverrideSend) (default : AccountId) → Receives to default (receiver_or to default)
receiver_or-Receives to default = elim (Option-cases to.receiver_id) [
  | inl e ↦ inr (e, ground arith)
  | inr (name, e) ↦ inl (name, e, ground arith)
]

filled-IsFill :
    (s : State) (p : Params) (sender : AccountId) (n : ℕ) (msg : FillAction) (out used : ℕ)
    (all : List (AccountId × ℕ)) (fees : List Send × ℕ) (after : State) (refund : ℕ) (t : State)
    (x : Filled)
    → IsSwap s.maker_src_remaining n msg.price p.partial_fills_allowed out used
    → ((sends : List Send) → ArePaid p.dst_token all sends → IsCharged p out used sends)
    → nat_beq out 0 ≡ false
    → collect_fees p.dst_token all used ≡ done fees
    → nat_beq fees.1 0 ≡ false
    → register_callback (with_src s (s.maker_src_remaining - out)) ≡ done after
    → checked_sub n used ≡ some refund
    → ◌≡◌ {A = State × Filled} (after, filled p sender msg out used fees.1 fees.0 refund) (t, x)
    → IsFill p sender n msg s t x
unfolding filled
filled-IsFill s p sender n msg out used all fees after refund t x w due some_out f some_left a r e =
    subst (λ (y : State × Filled). IsFill p sender n msg s y.0 y.1) e
      (record {
        swapped = w;
        state_after = register_callback-done _ after a;
        source_out = ground (arith, some_out, nat_beq_iff out 0);
        source_sent = refl;
        source_token = refl;
        taker_gets = receiver_or-Receives msg.receive_src_to sender;
        maker_gets = ground (arith, some_left, nat_beq_iff fees.1 0);
        maker_sent = refl;
        maker_token = refl;
        maker_receives = receiver_or-Receives p.receive_dst_to p.maker;
        charged = due fees.0 (collect_fees-ArePaid p.dst_token all used fees f);
        used_up = collect_fees-sum p.dst_token all used fees f;
        returned = checked_sub-some n used refund r;
        called_back = refl;
      })

-- The transfers of a fill, once the amounts of its fees are known.
abbrev end_of_fill :
    State
    → Params
    → AccountId
    → ℕ
    → FillAction
    → ℕ
    → ℕ
    → List (AccountId × ℕ)
    → Outcome EscrowError (State × Filled)
end_of_fill s p sender n msg out used all = collect_fees p.dst_token all used >>? λ fees.
    fail_if (nat_beq fees.1 0) insufficient_amount (
      register_callback (with_src s (s.maker_src_remaining - out)) >>? λ after.
      ok_or (checked_sub n used) integer_overflow >>? λ refund.
      done (after, filled p sender msg out used fees.1 fees.0 refund))

end_of_fill-IsFill :
    (s : State) (p : Params) (sender : AccountId) (n : ℕ) (msg : FillAction) (out used : ℕ)
    (all : List (AccountId × ℕ)) (t : State) (x : Filled)
    → IsSwap s.maker_src_remaining n msg.price p.partial_fills_allowed out used
    → ((sends : List Send) → ArePaid p.dst_token all sends → IsCharged p out used sends)
    → nat_beq out 0 ≡ false
    → end_of_fill s p sender n msg out used all ≡ done (t, x)
    → IsFill p sender n msg s t x
end_of_fill-IsFill s p sender n msg out used all t x w due some_out q =
    let (fees, f, q5) = bind-done (collect_fees p.dst_token all used) _ q in
    let (some_left, q6) = fail_if-done (nat_beq fees.1 0) insufficient_amount _ q5 in
    let (after, a, q7) =
      bind-done (register_callback (with_src s (s.maker_src_remaining - out))) _ q6 in
    let (refund, r, e) = bind-done (ok_or (checked_sub n used) integer_overflow) _ q7 in
    filled-IsFill s p sender n msg out used all fees after refund t x w due some_out f some_left a
      (ok_or-done _ integer_overflow refund r) (done-injective _ _ e)

fill_amounts-IsFill :
    (s : State) (p : Params) (sender : AccountId) (n : ℕ) (msg : FillAction) (out used : ℕ)
    (t : State) (x : Filled)
    → IsSwap s.maker_src_remaining n msg.price p.partial_fills_allowed out used
    → fill_amounts s p sender n msg out used ≡ done (t, x)
    → IsFill p sender n msg s t x
unfolding fill_amounts
fill_amounts-IsFill s p sender n msg out used t x w q =
    let (some_out, q1) = fail_if-done (nat_beq out 0) insufficient_amount _ q in
    let (protocol, c, q2) = bind-done (collect_protocol p.protocol_fees out used p.price) _ q1 in
    let (integrators, i, q3) = bind-done (integrator_amounts p.integrator_fees used) _ q2 in
    let (protocol_fee, d, q4) = bind-done (to_collector_amount protocol) _ q3 in
    end_of_fill-IsFill s p sender n msg out used (protocol_fee ++ integrators) t x w
      (λ sends paid. record {
        protocol = protocol_fee;
        integrators = integrators;
        protocol_due =
            to_collector_amount-ProtocolDue p.protocol_fees out used p.price protocol protocol_fee c
              d;
        integrators_due = integrator_amounts-IntegratorsDue p.integrator_fees used integrators i;
        paid = paid;
      })
      some_out q4

-- A fill that succeeds is by a taker that the whitelist allows, at a price that is not below the
-- maker's and before the deadline of the taker. Either all of the source that is left goes to the
-- taker, for the least of the destination that is worth it at the taker's price; or, where partial
-- fills are allowed, all that was sent is used, and the taker gets the most that this buys. The source
-- is sent to the taker or whom it names. Of what is used the protocol and each integrator are sent
-- their shares, rounded up, the protocol also that of what is used beyond the worth at the maker's
-- price, and the maker or whom this names is sent the rest, which is not nothing; all that in the
-- destination token. What is not used is returned. What is left of the source is less by what the
-- taker gets, and one more callback is in flight, for the maker's transfer.
pub fill-IsFill :
    (now : ℤ) (s : State) (p : Params) (sender_id : AccountId) (taker_dst_in : ℕ) (msg : FillAction)
    (t : State) (x : Filled)
    → fill now s p sender_id taker_dst_in msg ≡ done (t, x)
    → ((is_empty p.taker_whitelist || contains p.taker_whitelist sender_id) ≡ true)
      × (cmp msg.price p.price ≢ Ordering.lt)
      × (ltb_ℤ msg.deadline now ≡ false)
      × IsFill p sender_id taker_dst_in msg s t x
unfolding fill
fill-IsFill now s p sender_id n msg t x q =
    let (allowed, q1) =
      fail_if-done (not (is_empty p.taker_whitelist || contains p.taker_whitelist sender_id))
        unauthorized _ q in
    let (fair, q2) = fail_if-done (price_lt msg.price p.price) price_too_low _ q1 in
    let (timely, q3) = fail_if-done (ltb_ℤ msg.deadline now) deadline_expired _ q2 in
    let (amounts, w, q4) = bind-done (taker_swap s n msg.price p.partial_fills_allowed) _ q3 in
    (
      ground (arith, allowed),
      ground (arith, fair),
      timely,
      fill_amounts-IsFill s p sender_id n msg amounts.0 amounts.1 t x
          (taker_swap-IsSwap s n msg.price p.partial_fills_allowed amounts.0 amounts.1 w) q4,
    )
