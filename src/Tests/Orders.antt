-- ===== src/Tests/Orders.antt =====
-- An order of the escrow: funded, filled with a fee, paid, and cleaned up.
use Prim.Native.Nat.{compare, Ordering}
use intents.Prelude.{
  ℕ, ◌*◌, ◌^◌, ◌≡◌, ◌≢◌, refl, true, false, ◌||◌, [], ◌∷◌, some, none, arith, string_eq,
}
use intents.Prelude.Int.{pos, ltb_ℤ}
use intents.Prelude.Outcome.{done}
use intents.MapUtils.{is_empty, contains}
use intents.NumUtils.{checked_mul_div, checked_mul_div_ceil, div_ceil}
use intents.Fees.{fee_ceil}
use intents.TokenId.{TokenId}
use intents.Decimal as Decimal
use intents.Decimal.{
  Ud128, IsUd128, cmp, strip, strip_all, checked_mul, checked_mul_ceil, checked_div,
}
use intents.Decimal.Compare.{cmp_lem}
use intents.Escrow as Escrow
use intents.Escrow.{Params, ProtocolFees, OverrideSend, State, Storage, Callback, register_callback}
use intents.Escrow.Fill.{
  FillAction, Filled, taker_swap, collect, collect_protocol, to_collector_amount,
  integrator_amounts, collect_fees, filled, fill_amounts, fill,
}
use intents.Escrow.Fill.Amounts.{IsFill, fill-IsFill}
use intents.Escrow.Life.{Life, Flow}

abbrev half : Ud128
half = record { decimals = 1; digits = 5 }

abbrev third : Ud128
third = record { decimals = 4; digits = 3333 }

-- 0.5000, normalized
half-new : Decimal.new 4 5000 ≡ some half
unfolding Decimal.new strip_all strip
half-new = refl

cmp_lem_example :
    cmp half third ≡ compare (half.digits * 10 ^ third.decimals) (third.digits * 10 ^ half.decimals)
cmp_lem_example =
    cmp_lem half third (record { few_decimals = omega arith; is_u128 = omega arith })
      (record { few_decimals = omega arith; is_u128 = omega arith })

abbrev plainly : OverrideSend
plainly = record { receiver_id = none; memo = none; msg = none; min_gas = none }

abbrev order : Params
order = record {
  maker = "maker.near";
  src_token = TokenId.nep141 "usdc.near";
  dst_token = TokenId.nep141 "wnear.near";
  price = third;
  deadline = pos 100;
  partial_fills_allowed = false;
  refund_src_to = plainly;
  receive_dst_to = plainly;
  taker_whitelist = [];
  protocol_fees = some (record { fee = 10000; surplus = 0; collector = "fees.near" });
  integrator_fees = [];
  auth_caller = none;
  salt = 11;
}

abbrev salt_of : Params → ℕ
salt_of p = p.salt

abbrev storage : (src lost in_flight : ℕ) → Storage
storage src lost in_flight = record {
  params_hash = 11;
  state = record {
    maker_src_remaining = src;
    maker_dst_lost = lost;
    deadline = pos 100;
    closed = false;
    in_flight = in_flight;
  };
}

abbrev offer : FillAction
offer = record { price = half; deadline = pos 60; receive_src_to = plainly }

-- 60 are sent for the 100 that are left: 50 are used, 1 of them for the fee.
abbrev fill_100 : Filled
fill_100 =
    filled order "taker.near" offer 100 50 49
      (record { token = TokenId.nep141 "wnear.near"; receiver_id = "fees.near"; amount = 1 } ∷ [])
      10

fill-runs :
    fill (pos 50) (storage 100 0 0).state order "taker.near" 60 offer
    ≡ done ((storage 0 0 1).state, fill_100)
unfolding fill fill_amounts filled taker_swap collect_protocol collect to_collector_amount
    integrator_amounts collect_fees register_callback cmp checked_div checked_mul_ceil
    checked_mul_div checked_mul_div_ceil div_ceil fee_ceil
fill-runs = refl

fill-IsFill_example :
    ((is_empty order.taker_whitelist || contains order.taker_whitelist "taker.near") ≡ true)
    × (cmp offer.price order.price ≢ Ordering.lt)
    × (ltb_ℤ offer.deadline (pos 50) ≡ false)
    × IsFill order "taker.near" 60 offer (storage 100 0 0).state (storage 0 0 1).state fill_100
fill-IsFill_example =
    fill-IsFill (pos 50) (storage 100 0 0).state order "taker.near" 60 offer (storage 0 0 1).state
      fill_100 fill-runs

abbrev whole_life : Flow
whole_life = record {
  source_in = 100;
  source_out = 100;
  source_back = 0;
  maker_due = 49;
  maker_got = 49;
  source_unsure = 0;
  maker_unsure = 0;
}
