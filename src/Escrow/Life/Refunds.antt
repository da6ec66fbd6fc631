-- ===== src/Escrow/Life/Refunds.antt =====
-- What goes back to the maker of an order, and what its callback finds out, on the accounts.
use intents.Prelude.{
  ℕ, ◌+◌, ◌-◌, ◌≡◌, ◌≢◌, refl, sym, ap, ◌∙◌, ◌≤◌, Option, none, some, List, [], ◌∷◌, ◌++◌,
  length-append, nat_beq_iff, arith, inl, inr, ◌⊎◌, if◌then◌else◌,
}
use mathlib.Core.Path.{subst}
use intents.Prelude.Outcome.{done, ◌>>?◌, bind-done}
use intents.NumUtils.{checked_add}
use intents.TokenId.{AccountId, TokenId}
use intents.Escrow.{
  Params, State, Send, Sent, Callback, with_src, with_lost, with_in_flight, on_callback,
  register_callback, integer_overflow, OverrideSend,
}
use intents.Escrow.Fill.Bounds.{ok_or-done}
use intents.Escrow.Fill.Amounts.{register_callback-done}
use intents.Escrow.Settle.{
  Refunded, lost_found, TransferResult, resolve_used, resolve_refund, add_refund, resolve_transfers,
  second_result, send_for_resolve, sent_of, refund_maker, refunded_of,
}
use intents.Escrow.Life.{Flow, refunded_callbacks, arrived, unsure, resolved_flow}
use intents.Escrow.Life.Accounts.{sent_amount, source_pending, maker_pending, IsBalanced}

send_for_resolve-amount :
    (token : TokenId) (maker : AccountId) (to : OverrideSend) (amount : ℕ)
    → sent_amount (sent_of (send_for_resolve token maker to amount)) ≡ amount
unfolding send_for_resolve
send_for_resolve-amount token maker to amount = ground arith

-- What a retry takes out of the state: what is left of the source once closed, and what was lost.
abbrev to_refund : State → ℕ
to_refund s = if s.closed then s.maker_src_remaining else 0

abbrev taken : State → State
taken s = with_lost (if s.closed then with_src s 0 else s) 0

taken_source : (s : State) → (taken s).maker_src_remaining + to_refund s ≡ s.maker_src_remaining
taken_source s = ground arith

taken_calls : (s : State) → (taken s).in_flight ≡ s.in_flight
taken_calls s = ground arith

-- Nothing is sent, or a callback follows what is.
IsRefund : State → (src dst : ℕ) → State → Option Refunded → Type 0
IsRefund s src dst t r =
    ((r ≡ none) × (t ≡ s) × (src ≡ 0) × (dst ≡ 0))
    ⊎ ((x : Refunded) × (r ≡ some x)
        × (t ≡ with_in_flight s (s.in_flight + 1))
        × (sent_amount x.callback.maker_src ≡ src)
        × (sent_amount x.callback.maker_dst ≡ dst))

called_back :
    (s t : State) (src dst : Option (Send × Sent)) (r : Option Refunded)
    → ◌>>?◌ {B = State × Option Refunded}
        (register_callback s)
        (λ after. done (after, some (refunded_of src dst)))
      ≡ done (t, r)
    → (x : Refunded) × (r ≡ some x)
      × (t ≡ with_in_flight s (s.in_flight + 1))
      × (sent_amount x.callback.maker_src ≡ sent_amount (sent_of src))
      × (sent_amount x.callback.maker_dst ≡ sent_amount (sent_of dst))
called_back s t src dst r q =
    let (after, a, e) = bind-done (register_callback s) _ q in
    let same : after ≡ t = cc in
    (refunded_of src dst, cc, sym same ∙ register_callback-done s after a, refl, refl)

refund_maker-IsRefund :
    (s t : State) (src dst : Option (Send × Sent)) (r : Option Refunded)
    → refund_maker s src dst ≡ done (t, r)
    → IsRefund s (sent_amount (sent_of src)) (sent_amount (sent_of dst)) t r
unfolding refund_maker IsRefund
refund_maker-IsRefund s t none none r q = inl (cc, cc, refl, refl)
refund_maker-IsRefund s t none (some d) r q = inr (called_back s t none (some d) r q)
refund_maker-IsRefund s t (some c) none r q = inr (called_back s t (some c) none r q)
refund_maker-IsRefund s t (some c) (some d) r q = inr (called_back s t (some c) (some d) r q)

lost_found-done :
    (s t : State) (p : Params) (r : Option Refunded)
    → lost_found s p ≡ done (t, r)
    → IsRefund (taken s) (to_refund s) s.maker_dst_lost t r
unfolding lost_found
lost_found-done s t p r q =
    let a = send_for_resolve-amount p.src_token p.maker p.refund_src_to (to_refund s) in
    let b = send_for_resolve-amount p.dst_token p.maker p.receive_dst_to s.maker_dst_lost in
    subst (λ n. IsRefund (taken s) n s.maker_dst_lost t r) a
      (subst
        (λ n.
          IsRefund (taken s)
            (sent_amount
              (sent_of (send_for_resolve p.src_token p.maker p.refund_src_to (to_refund s))))
            n t r)
        b (refund_maker-IsRefund (taken s) t _ _ r q))

pub lost_found-IsBalanced :
    (s t : State) (p : Params) (r : Option Refunded) (pending : List Callback) (f : Flow)
    → lost_found s p ≡ done (t, r)
    → IsBalanced s pending f
    → IsBalanced t (refunded_callbacks r pending) f
unfolding source_pending maker_pending IsRefund
lost_found-IsBalanced s t p r pending f q h = elim (lost_found-done s t p r q) [
  | inl (e, after, no_source, no_lost) ↦
      rw (e, after)
        (record {
          counted = taken_calls s ∙ h.counted;
          source = omega (arith, h.source, taken_source s, no_source);
          maker = omega (arith, h.maker, no_lost);
        })
  | inr (x, e, after, src, dst) ↦
      rw (e, after)
        (record {
          counted = omega (arith, taken_calls s, h.counted);
          source = omega (arith, h.source, taken_source s, src);
          maker = omega (arith, h.maker, dst);
        })
]

on_callback-done :
    (s t : State)
    → on_callback s ≡ done t
    → (s.in_flight ≢ 0) × (t ≡ with_in_flight s (s.in_flight - 1))
unfolding on_callback
on_callback-done s t q = ground (arith, nat_beq_iff s.in_flight 0)

used_bound : (sent : Sent) (result : TransferResult) → resolve_used sent result ≤ sent.amount
unfolding resolve_used
used_bound sent result = ground arith

-- What was sent has arrived, went along with a call that failed, or is added to what is lost.
add_refund-sum :
    (sent : Option Sent) (result : TransferResult) (lost after : ℕ)
    → add_refund sent result lost ≡ done after
    → after + arrived sent result + unsure sent result ≡ lost + sent_amount sent
unfolding add_refund resolve_refund resolve_used
add_refund-sum none result lost after q = ground arith
add_refund-sum (some sent) result lost after q =
    let e =
      ok_or-done (checked_add lost (sent.amount - resolve_used sent result)) integer_overflow after
        q in
    ground (arith, used_bound sent result)

source_pending-append :
    (a b : List Callback) → source_pending (a ++ b) ≡ source_pending a + source_pending b
unfolding source_pending
source_pending-append [] b = omega arith
source_pending-append (c ∷ a) b = omega (arith, source_pending-append a b)

maker_pending-append :
    (a b : List Callback) → maker_pending (a ++ b) ≡ maker_pending a + maker_pending b
unfolding maker_pending
maker_pending-append [] b = omega arith
maker_pending-append (c ∷ a) b = omega (arith, maker_pending-append a b)

pub resolve_transfers-IsBalanced :
    (s called t : State) (c : Callback) (results : TransferResult × TransferResult)
    (earlier later : List Callback) (f : Flow)
    → on_callback s ≡ done called
    → resolve_transfers called c results ≡ done t
    → IsBalanced s (earlier ++ c ∷ later) f
    → IsBalanced t (earlier ++ later) (resolved_flow f c results)
unfolding resolve_transfers source_pending maker_pending
resolve_transfers-IsBalanced s called t c results earlier later f q r h =
    let (src, a, rest) =
      bind-done (add_refund c.maker_src results.0 called.maker_src_remaining) _ r in
    let (dst, b, e) =
      bind-done (add_refund c.maker_dst (second_result c.maker_src results) called.maker_dst_lost) _
        rest in
    let same : with_lost (with_src called src) dst ≡ t = cc in
    let (one, rest_state) = on_callback-done s called q in
    let i : called.in_flight ≡ s.in_flight - 1 = ap (λ (z : State). z.in_flight) rest_state in
    let m : called.maker_src_remaining ≡ s.maker_src_remaining =
      ap (λ (z : State). z.maker_src_remaining) rest_state in
    let l : called.maker_dst_lost ≡ s.maker_dst_lost =
      ap (λ (z : State). z.maker_dst_lost) rest_state in
    subst (λ (z : State). IsBalanced z (earlier ++ later) (resolved_flow f c results)) same
      (record {
        counted = omega (
          arith,
          one,
          i,
          h.counted,
          length-append earlier (c ∷ later),
          length-append earlier later,
        );
        source = omega (
          arith,
          h.source,
          add_refund-sum c.maker_src results.0 called.maker_src_remaining src a,
          source_pending-append earlier (c ∷ later),
          source_pending-append earlier later,
          m,
        );
        maker = omega (
          arith,
          h.maker,
          add_refund-sum c.maker_dst (second_result c.maker_src results) called.maker_dst_lost dst
              b,
          maker_pending-append earlier (c ∷ later),
          maker_pending-append earlier later,
          l,
        );
      })
