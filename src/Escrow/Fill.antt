-- ===== src/Escrow/Fill.antt =====
-- contracts/escrow-swap/src/contract/fill.rs: a taker's fill of the order, and its fees.
pub mod Bounds
pub mod Charges
pub mod Amounts
use Prim.Native.Nat.{Ordering}
use intents.Prelude.{
  ℕ, ◌+◌, ◌-◌, Bool, true, false, String, Option, none, some, List, [], ◌∷◌, ◌++◌, leb, ltb,
  nat_beq, not, ◌||◌, string_eq,
}
use intents.Prelude.Int.{ℤ, ltb_ℤ}
use intents.Prelude.Outcome.{Outcome, done, failed, ◌>>?◌, fail_if}
use intents.MapUtils.{Map, is_empty, contains}
use intents.NumUtils.{checked_sub, to_u128}
use intents.NumUtils as Num
use intents.Fees.{Pips, fee_ceil}
use intents.TokenId.{AccountId, TokenId}
use intents.Decimal.{Ud128, cmp, checked_mul, checked_mul_ceil, checked_div}
use intents.Escrow.{
  EscrowError, excessive_fees, integer_overflow, insufficient_amount, partial_fills_not_allowed,
  price_too_low, unauthorized, deadline_expired, panicked, ok_or, ProtocolFees, OverrideSend,
  Params, State, Send, Sent, Callback, with_src, register_callback,
}

-- action.rs
pub record FillAction : Type 0 where
  pub price : Ud128
  pub deadline : ℤ
  pub receive_src_to : OverrideSend

-- `<` on prices
abbrev pub price_lt : Ud128 → Ud128 → Bool
price_lt a b = elim (cmp a b) [ Ordering.lt ↦ true | _ ↦ false ]

abbrev pub receiver_or : OverrideSend → AccountId → AccountId
receiver_or to id = elim to.receiver_id [ none ↦ id | some receiver ↦ receiver ]

abbrev pub has_msg : OverrideSend → Bool
has_msg to = elim to.msg [ none ↦ false | some _ ↦ true ]

unfoldable pub taker_swap :
    State
    → (taker_dst_in : ℕ) (taker_price : Ud128) (partial_fills_allowed : Bool)
    → Outcome EscrowError (ℕ × ℕ)
taker_swap s taker_dst_in taker_price partial_fills_allowed =
    ok_or (checked_div taker_dst_in taker_price) integer_overflow >>? λ taker_want_src.
    elim (ltb taker_want_src s.maker_src_remaining) [
      | true ↦
          fail_if (not partial_fills_allowed) partial_fills_not_allowed
            (done (taker_want_src, taker_dst_in))
      | false ↦
          ok_or (checked_mul_ceil s.maker_src_remaining taker_price) integer_overflow >>? λ used.
          done (s.maker_src_remaining, used)
    ]

-- `fee_ceil`, where `none` is its `unreachable!()`.
abbrev pub fee_of : Pips → ℕ → Outcome EscrowError ℕ
fee_of p amount = ok_or (fee_ceil p amount) panicked

-- `ProtocolFeesCollected`
pub record Collected : Type 0 where
  pub fee : ℕ
  pub surplus : ℕ
  pub collector : AccountId

unfoldable pub collect :
    ProtocolFees
    → (src_out taker_dst_used : ℕ) (maker_price : Ud128) → Outcome EscrowError Collected
collect f src_out taker_dst_used maker_price = fee_of f.fee taker_dst_used >>? λ fee.
    elim (nat_beq f.surplus 0) [
      | true ↦ done (record { fee = fee; surplus = 0; collector = f.collector })
      | false ↦ ok_or (checked_mul src_out maker_price) integer_overflow >>? λ maker_want_dst.
          fee_of f.surplus (taker_dst_used - maker_want_dst) >>? λ surplus.
          done (record { fee = fee; surplus = surplus; collector = f.collector })
    ]

-- `.map(|p| p.collect(..)).transpose()?`
unfoldable pub collect_protocol :
    Option ProtocolFees
    → (src_out taker_dst_used : ℕ) (maker_price : Ud128) → Outcome EscrowError (Option Collected)
unfolding collect
collect_protocol none src_out taker_dst_used maker_price = done none
collect_protocol (some f) src_out taker_dst_used maker_price =
    collect f src_out taker_dst_used maker_price >>? λ collected. done (some collected)

-- The protocol's fee with its collector, if there is one.
unfoldable pub to_collector_amount : Option Collected → Outcome EscrowError (List (AccountId × ℕ))
to_collector_amount none = done []
to_collector_amount (some c) = ok_or (Num.checked_add c.fee c.surplus) excessive_fees >>? λ total.
    done ((c.collector, total) ∷ [])

unfoldable pub integrator_amounts :
    Map AccountId Pips → (taker_dst_used : ℕ) → Outcome EscrowError (List (AccountId × ℕ))
integrator_amounts [] taker_dst_used = done []
integrator_amounts ((collector, fee) ∷ fees) taker_dst_used =
    fee_of fee taker_dst_used >>? λ amount.
    integrator_amounts fees taker_dst_used >>? λ rest. done ((collector, amount) ∷ rest)

-- `collect_fees`: a transfer for each fee that is not zero, and what is left of `out`.
unfoldable pub collect_fees :
    TokenId → List (AccountId × ℕ) → (out : ℕ) → Outcome EscrowError (List Send × ℕ)
collect_fees token [] out = done ([], out)
collect_fees token ((collector, fee_amount) ∷ fees) out = elim (nat_beq fee_amount 0) [
  | true ↦ collect_fees token fees out
  | false ↦ ok_or (checked_sub out fee_amount) excessive_fees >>? λ left.
      collect_fees token fees left >>? λ rest.
      done (record { token = token; receiver_id = collector; amount = fee_amount } ∷ rest.0, rest.1)
]

-- What a fill does: the transfers to the maker, to the taker and of the fees, the callback, and what
-- is returned to the taker.
pub record Filled : Type 0 where
  pub taker_src_out : ℕ
  pub taker_dst_used : ℕ
  pub maker_dst_out : ℕ
  pub to_maker : Send
  pub to_taker : Send
  pub fees : List Send
  pub callback : Callback
  pub refund : ℕ

-- The transfers of a fill, from the amounts that were found.
unfoldable pub filled :
    Params
    → (sender_id : AccountId) → FillAction
    → (taker_src_out taker_dst_used maker_dst_out : ℕ) → (fees : List Send) (refund : ℕ) → Filled
filled p sender_id msg taker_src_out taker_dst_used maker_dst_out fees refund = record {
  taker_src_out = taker_src_out;
  taker_dst_used = taker_dst_used;
  maker_dst_out = maker_dst_out;
  to_maker = record {
    token = p.dst_token;
    receiver_id = receiver_or p.receive_dst_to p.maker;
    amount = maker_dst_out;
  };
  to_taker = record {
    token = p.src_token;
    receiver_id = receiver_or msg.receive_src_to sender_id;
    amount = taker_src_out;
  };
  fees = fees;
  callback = record {
    maker_src = none;
    maker_dst = some (record { amount = maker_dst_out; is_call = has_msg p.receive_dst_to });
  };
  refund = refund;
}

-- From the amounts of the swap on.
unfoldable pub fill_amounts :
    State
    → Params
    → (sender_id : AccountId) (taker_dst_in : ℕ) → FillAction
    → (taker_src_out taker_dst_used : ℕ) → Outcome EscrowError (State × Filled)
unfolding collect_protocol integrator_amounts to_collector_amount collect_fees register_callback
    filled
fill_amounts s p sender_id taker_dst_in msg taker_src_out taker_dst_used =
    fail_if (nat_beq taker_src_out 0) insufficient_amount (
      collect_protocol p.protocol_fees taker_src_out taker_dst_used p.price >>? λ protocol.
      integrator_amounts p.integrator_fees taker_dst_used >>? λ integrators.
      to_collector_amount protocol >>? λ protocol_fee.
      collect_fees p.dst_token (protocol_fee ++ integrators) taker_dst_used >>? λ fees.
      fail_if (nat_beq fees.1 0) insufficient_amount (
        register_callback (with_src s (s.maker_src_remaining - taker_src_out)) >>? λ after.
        ok_or (checked_sub taker_dst_in taker_dst_used) integer_overflow >>? λ refund.
        done (after, filled p sender_id msg taker_src_out taker_dst_used fees.1 fees.0 refund)))

unfoldable pub fill :
    (now : ℤ)
    → State
    → Params
    → (sender_id : AccountId) (taker_dst_in : ℕ) → FillAction
    → Outcome EscrowError (State × Filled)
unfolding taker_swap fill_amounts
fill now s p sender_id taker_dst_in msg =
    fail_if (not (is_empty p.taker_whitelist || contains p.taker_whitelist sender_id)) unauthorized
      (fail_if (price_lt msg.price p.price) price_too_low (
        fail_if (ltb_ℤ msg.deadline now) deadline_expired (
          taker_swap s taker_dst_in msg.price p.partial_fills_allowed >>? λ swapped.
          fill_amounts s p sender_id taker_dst_in msg swapped.0 swapped.1)))
