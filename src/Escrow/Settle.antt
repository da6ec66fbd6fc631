-- ===== src/Escrow/Settle.antt =====
-- contracts/escrow-swap/src/contract: funding the order, closing it, sending the maker what is left,
-- the callback that finds out what did not arrive, and the cleanup of the contract. A method panics
-- on an error and loses what it changed, the drop of its guard included.
use intents.Prelude.{
  ℕ, ◌-◌, ◌++◌, if◌then◌else◌, min, Bool, true, false, Option, none, some, List, [], ◌∷◌, nat_beq,
  not, ◌&&◌, ◌||◌, ◌==◌, string_eq, length,
}
use intents.Prelude.Int.{ℤ, ltb_ℤ}
use intents.Prelude.Outcome.{Outcome, done, ◌>>?◌, fail_if}
use intents.MapUtils.{contains}
use intents.NumUtils.{checked_add}
use intents.TokenId.{AccountId, TokenId, token_eq}
use intents.Escrow.{
  EscrowError, is_closed, integer_overflow, unauthorized, wrong_token, ok_or, Params, State, Send,
  Sent, Callback, OverrideSend, with_src, with_lost, with_closed, register_callback,
}
use intents.Escrow.Fill.{FillAction, Filled, fill, receiver_or, has_msg}

unfoldable pub fund :
    State → Params → (sender_id : AccountId) (amount : ℕ) → Outcome EscrowError State
fund s p sender_id amount = fail_if (not (sender_id == p.maker)) unauthorized (
    ok_or (checked_add s.maker_src_remaining amount) integer_overflow >>? λ remaining.
    done (with_src s remaining))

-- action.rs
pub data TransferAction : Type 0 where
  fund_action : TransferAction
  fill_action : FillAction → TransferAction

-- What was received: a funding of the order, or a fill of it.
pub data Received : Type 0 where
  funded : (amount : ℕ) → Received
  was_filled : Filled → Received

unfoldable pub state_on_receive :
    (now : ℤ)
    → State
    → Params
    → (sender_id : AccountId) → TokenId
    → (amount : ℕ) → TransferAction
    → Outcome EscrowError (State × Received)
unfolding fund
state_on_receive now s p sender_id token_id amount fund_action =
    fail_if (s.closed || ltb_ℤ s.deadline now) is_closed (
      fail_if (not (token_id == p.src_token)) wrong_token
        (fund s p sender_id amount >>? λ after. done (after, funded amount)))
state_on_receive now s p sender_id token_id amount (fill_action msg) =
    fail_if (s.closed || ltb_ℤ s.deadline now) is_closed (
      fail_if (not (token_id == p.dst_token)) wrong_token
        (fill now s p sender_id amount msg >>? λ x. done (x.0, was_filled x.1)))

-- A transfer to the maker that a callback follows, if there is an amount to send.
unfoldable pub send_for_resolve :
    TokenId → AccountId → OverrideSend → (amount : ℕ) → Option (Send × Sent)
send_for_resolve token maker to amount = elim (nat_beq amount 0) [
  | true ↦ none
  | false ↦ some (
    record { token = token; receiver_id = receiver_or to maker; amount = amount },
    record { amount = amount; is_call = has_msg to },
  )
]

abbrev pub sent_of : Option (Send × Sent) → Option Sent
sent_of none = none
sent_of (some x) = some x.1

abbrev pub send_of : Option (Send × Sent) → List Send
send_of none = []
send_of (some x) = x.0 ∷ []

-- What is sent to the maker, and the callback.
pub record Refunded : Type 0 where
  pub sends : List Send
  pub callback : Callback

abbrev pub refunded_of : (src dst : Option (Send × Sent)) → Refunded
refunded_of src dst = record {
  sends = send_of src ++ send_of dst;
  callback = record { maker_src = sent_of src; maker_dst = sent_of dst };
}

-- The transfers that there are, with a callback after them.
unfoldable pub refund_maker :
    State → (src dst : Option (Send × Sent)) → Outcome EscrowError (State × Option Refunded)
unfolding register_callback
refund_maker s none none = done (s, none)
refund_maker s src dst = register_callback s >>? λ after. done (after, some (refunded_of src dst))

-- `State::lost_found`: what is left of the source, if the order is closed, and what was lost.
unfoldable pub lost_found : State → Params → Outcome EscrowError (State × Option Refunded)
unfolding send_for_resolve refund_maker
lost_found s p =
    refund_maker (with_lost (if s.closed then with_src s 0 else s) 0)
      (send_for_resolve p.src_token p.maker p.refund_src_to
        (if s.closed then s.maker_src_remaining else 0))
      (send_for_resolve p.dst_token p.maker p.receive_dst_to s.maker_dst_lost)

-- Who may close an order that is not closed.
unfoldable pub may_close : (now : ℤ) → State → (signer_id : AccountId) → Params → Bool
may_close now s signer_id p =
    ltb_ℤ s.deadline now
    || (nat_beq s.maker_src_remaining 0 && signer_id == p.maker)
    || (nat_beq (length p.taker_whitelist) 1 && contains p.taker_whitelist signer_id)

unfoldable pub close :
    (now : ℤ)
    → State
    → (signer_id : AccountId) → Params
    → Outcome EscrowError (State × Option Refunded)
unfolding may_close lost_found
close now s signer_id p =
    fail_if (not s.closed && not (may_close now s signer_id p)) unauthorized
      (lost_found (with_closed s true) p)

-- What a node says of the promise that a transfer was: that it failed or that its result is too
-- long, that it returned nothing, an amount, or something else.
pub data TransferResult : Type 0 where
  promise_failed returned_nothing returned_other : TransferResult
  returned_amount : ℕ → TransferResult

-- `Sent::resolve_used`: a failed call counts as used; a failed transfer does not.
unfoldable pub resolve_used : Sent → TransferResult → ℕ
resolve_used sent result = elim sent.is_call [
  | true ↦ elim result [
    | returned_amount used ↦ min used sent.amount
    | returned_nothing ↦ 0
    | returned_other ↦ 0
    | promise_failed ↦ sent.amount
  ]
  | false ↦ elim result [ returned_nothing ↦ sent.amount | _ ↦ 0 ]
]

unfoldable pub resolve_refund : Sent → TransferResult → ℕ
unfolding resolve_used
resolve_refund sent result = sent.amount - resolve_used sent result

-- The refund of a transfer that was made is added to what is lost.
unfoldable pub add_refund : Option Sent → TransferResult → (lost : ℕ) → Outcome EscrowError ℕ
unfolding resolve_refund
add_refund none result lost = done lost
add_refund (some sent) result lost =
    ok_or (checked_add lost (resolve_refund sent result)) integer_overflow

-- The destination's transfer is the first one if there is none of the source.
abbrev pub second_result : Option Sent → TransferResult × TransferResult → TransferResult
second_result none results = results.0
second_result (some _) results = results.1

-- The results of the transfers, in their order: that of the source first, if there is one.
unfoldable pub resolve_transfers :
    State → Callback → (results : TransferResult × TransferResult) → Outcome EscrowError State
unfolding add_refund
resolve_transfers s c results = add_refund c.maker_src results.0 s.maker_src_remaining >>? λ src.
    add_refund c.maker_dst (second_result c.maker_src results) s.maker_dst_lost >>? λ dst.
    done (with_lost (with_src s src) dst)
