-- ===== src/Escrow.antt =====
-- contracts/escrow-swap/src: a maker's order that takers fill. What a call asks the tokens to do is
-- kept as data: a transfer with its receiver and amount, and the callback that follows the maker's
-- transfers. Memos, messages and gas go along unread, but that a transfer with a message is a call.
pub mod Fill
pub mod Settle
pub mod Life
use intents.Prelude.{
  ℕ, ◌+◌, ◌-◌, Bool, true, false, String, Option, none, some, List, [], ◌∷◌, leb, nat_beq, not,
}
use intents.Prelude.Int.{ℤ}
use intents.Prelude.Outcome.{Outcome, done, failed, ◌>>?◌, fail_if}
use intents.MapUtils.{Map}
use intents.Fees.{Pips, checked_add}
use intents.TokenId.{AccountId, TokenId, token_eq}
use intents.Prelude.{◌==◌}
use intents.Decimal.{Ud128, is_zero}

-- error.rs, and a panic.
pub data EscrowError : Type 0 where
  cleanup_in_progress is_closed deadline_expired excessive_fees integer_overflow : EscrowError
  insufficient_amount invalid_data json partial_fills_not_allowed price_too_low : EscrowError
  same_tokens unauthorized wrong_token panicked : EscrowError

-- `.ok_or(why)?`
abbrev pub ok_or {ℓ} : {A : Type ℓ} → Option A → EscrowError → Outcome EscrowError A
ok_or none why = failed why
ok_or (some a) why = done a

pub record ProtocolFees : Type 0 where
  pub fee : Pips
  pub surplus : Pips
  pub collector : AccountId

pub record OverrideSend : Type 0 where
  pub receiver_id : Option AccountId
  pub memo : Option String
  pub msg : Option String
  pub min_gas : Option ℕ

pub record Params : Type 0 where
  pub maker : AccountId
  pub src_token : TokenId
  pub dst_token : TokenId
  pub price : Ud128
  pub deadline : ℤ
  pub partial_fills_allowed : Bool
  pub refund_src_to : OverrideSend
  pub receive_dst_to : OverrideSend
  pub taker_whitelist : Map AccountId (Unit {0})
  pub protocol_fees : Option ProtocolFees
  pub integrator_fees : Map AccountId Pips
  pub auth_caller : Option AccountId
  pub salt : ℕ

-- 25 percent
abbrev pub max_fee : Pips
max_fee = 250000

unfoldable pub fold_fees : Pips → Map AccountId Pips → Option Pips
fold_fees total [] = some total
fold_fees total ((_, fee) ∷ fees) = elim (checked_add total fee) [
  | none ↦ none
  | some more ↦ fold_fees more fees
]

unfoldable pub total_fee : Params → Option Pips
unfolding fold_fees
total_fee p = fold_fees (elim p.protocol_fees [ none ↦ 0 | some f ↦ f.fee ]) p.integrator_fees

unfoldable pub validate_fees : Params → Bool
unfolding total_fee
validate_fees p = elim (total_fee p) [ none ↦ false | some total ↦ leb total max_fee ]

unfoldable pub validate : Params → Outcome EscrowError (Unit {0})
unfolding validate_fees
validate p = fail_if (p.src_token == p.dst_token) same_tokens (
    fail_if (is_zero p.price) price_too_low
      (fail_if (not (validate_fees p)) excessive_fees (done tt)))

pub record State : Type 0 where
  pub maker_src_remaining : ℕ
  pub maker_dst_lost : ℕ
  pub deadline : ℤ
  pub closed : Bool
  pub in_flight : ℕ

pub record Storage : Type 0 where
  pub params_hash : ℕ
  pub state : State

-- `Storage::new`, over the hash of parameters.
unfoldable pub new : (hash : Params → ℕ) → Params → Outcome EscrowError Storage
unfolding validate
new hash p = validate p >>? λ _. done (record {
  params_hash = hash p;
  state = record {
    maker_src_remaining = 0;
    maker_dst_lost = 0;
    deadline = p.deadline;
    closed = false;
    in_flight = 0;
  };
})

abbrev pub with_src : State → ℕ → State
with_src s n = record {
  maker_src_remaining = n;
  maker_dst_lost = s.maker_dst_lost;
  deadline = s.deadline;
  closed = s.closed;
  in_flight = s.in_flight;
}

abbrev pub with_lost : State → ℕ → State
with_lost s n = record {
  maker_src_remaining = s.maker_src_remaining;
  maker_dst_lost = n;
  deadline = s.deadline;
  closed = s.closed;
  in_flight = s.in_flight;
}

abbrev pub with_closed : State → Bool → State
with_closed s b = record {
  maker_src_remaining = s.maker_src_remaining;
  maker_dst_lost = s.maker_dst_lost;
  deadline = s.deadline;
  closed = b;
  in_flight = s.in_flight;
}

abbrev pub with_in_flight : State → ℕ → State
with_in_flight s n = record {
  maker_src_remaining = s.maker_src_remaining;
  maker_dst_lost = s.maker_dst_lost;
  deadline = s.deadline;
  closed = s.closed;
  in_flight = n;
}

-- What a callback knows of a transfer to the maker.
pub record Sent : Type 0 where
  pub amount : ℕ
  pub is_call : Bool

pub record Send : Type 0 where
  pub token : TokenId
  pub receiver_id : AccountId
  pub amount : ℕ

-- The callback `es_resolve_transfers`.
pub record Callback : Type 0 where
  pub maker_src : Option Sent
  pub maker_dst : Option Sent

-- `callback()` and `on_callback()`: `in_flight` is a u32, and both panic out of its range.
unfoldable pub register_callback : State → Outcome EscrowError State
register_callback s =
    fail_if (not (leb (s.in_flight + 1) 4294967295)) panicked
      (done (with_in_flight s (s.in_flight + 1)))

unfoldable pub on_callback : State → Outcome EscrowError State
on_callback s = fail_if (nat_beq s.in_flight 0) panicked (done (with_in_flight s (s.in_flight - 1)))
