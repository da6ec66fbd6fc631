-- ===== src/Escrow/Life/Accounts.antt =====
-- Every token of an order is accounted for, at every point of its life.
use intents.Prelude.{
  ℕ, ◌+◌, ◌≡◌, refl, ap, true, Option, none, some, List, [], ◌∷◌, length, arith, Bool-cases, inl,
  inr,
}
use intents.Prelude.Int.{ℤ}
use intents.Prelude.Outcome.{done}
use intents.TokenId.{AccountId}
use intents.Escrow.{Params, State, Sent, Callback, with_src}
use intents.Escrow.Fill.{Filled, FillAction}
use intents.Escrow.Fill.Amounts.{IsFill}
use intents.Escrow.Settle.{funded, was_filled, fund}
use intents.Escrow.Life.{
  ContractStorage, should_cleanup, maybe_cleanup, Flow, received_flow, received_callbacks,
}

abbrev pub sent_amount : Option Sent → ℕ
sent_amount none = 0
sent_amount (some s) = s.amount

-- What the transfers that are not resolved yet have taken with them.
unfoldable pub source_pending : List Callback → ℕ
source_pending [] = 0
source_pending (c ∷ cs) = sent_amount c.maker_src + source_pending cs

unfoldable pub maker_pending : List Callback → ℕ
maker_pending [] = 0
maker_pending (c ∷ cs) = sent_amount c.maker_dst + maker_pending cs

-- The callbacks are counted; the source that came in is left, went to takers, is back with the maker,
-- went along with a call that failed or is on its way; what is due to the maker was lost, has arrived,
-- went along with a call that failed or is on its way.
pub record IsBalanced (s : State) (pending : List Callback) (f : Flow) : Type 0 where
  pub counted : s.in_flight ≡ length pending
  pub source :
      f.source_in
      ≡ s.maker_src_remaining
        + f.source_out
        + f.source_back
        + f.source_unsure
        + source_pending pending
  pub maker : f.maker_due ≡ s.maker_dst_lost + f.maker_got + f.maker_unsure + maker_pending pending

-- A contract that is gone has left nothing behind.
unfoldable pub IsAccounted : ContractStorage → List Callback → Flow → Type 0
IsAccounted none pending f =
    (pending ≡ [])
    × (f.source_in ≡ f.source_out + f.source_back + f.source_unsure)
    × (f.maker_due ≡ f.maker_got + f.maker_unsure)
IsAccounted (some c) pending f = IsBalanced c.state pending f

none_pending : (pending : List Callback) → length pending ≡ 0 → pending ≡ []
none_pending [] q = refl
none_pending (c ∷ cs) q = cc

should_cleanup-empty :
    (now : ℤ) (s : State)
    → should_cleanup now s ≡ true
    → (s.in_flight ≡ 0) × (s.maker_src_remaining ≡ 0) × (s.maker_dst_lost ≡ 0)
unfolding should_cleanup
should_cleanup-empty now s q = ground arith

all_done :
    (now : ℤ) (s : State) (pending : List Callback) (f : Flow)
    → should_cleanup now s ≡ true
    → IsBalanced s pending f
    → (pending ≡ [])
      × (f.source_in ≡ f.source_out + f.source_back + f.source_unsure)
      × (f.maker_due ≡ f.maker_got + f.maker_unsure)
all_done now s pending f q h =
    let (calls, source, lost) = should_cleanup-empty now s q in
    let e = none_pending pending (omega (arith, calls, h.counted)) in
    let no_source : source_pending pending ≡ 0 = unfold source_pending in rw e refl in
    let no_maker : maker_pending pending ≡ 0 = unfold maker_pending in rw e refl in
    (e, omega (arith, h.source, source, no_source), omega (arith, h.maker, lost, no_maker))

pub maybe_cleanup-IsAccounted :
    (now : ℤ) (c : ContractStorage) (pending : List Callback) (f : Flow)
    → IsAccounted c pending f
    → IsAccounted (maybe_cleanup now c).0 pending f
unfolding maybe_cleanup IsAccounted
maybe_cleanup-IsAccounted now none pending f h = h
maybe_cleanup-IsAccounted now (some c) pending f h =
    elim (Bool-cases (should_cleanup now c.state)) [
      | inl over ↦ rw (over, maybe_cleanup) (all_done now c.state pending f over h)
      | inr stays ↦
          rw (stays, maybe_cleanup)
            (record { counted = h.counted; source = h.source; maker = h.maker })
    ]

fund-done :
    (s t : State) (p : Params) (sender : AccountId) (amount : ℕ)
    → fund s p sender amount ≡ done t
    → t ≡ with_src s (s.maker_src_remaining + amount)
unfolding fund
fund-done s t p sender amount q = ground arith

pub fund-IsBalanced :
    (s t : State) (p : Params) (sender : AccountId) (amount : ℕ) (pending : List Callback)
    (f : Flow)
    → fund s p sender amount ≡ done t
    → IsBalanced s pending f
    → IsBalanced t (received_callbacks (funded amount) pending) (received_flow f (funded amount))
fund-IsBalanced s t p sender amount pending f q h =
    rw (fund-done s t p sender amount q)
      (record { counted = h.counted; source = omega (arith, h.source); maker = h.maker })

pub fill-IsBalanced :
    (s t : State) (p : Params) (sender : AccountId) (n : ℕ) (msg : FillAction) (x : Filled)
    (pending : List Callback) (f : Flow)
    → IsFill p sender n msg s t x
    → IsBalanced s pending f
    → IsBalanced t (received_callbacks (was_filled x) pending) (received_flow f (was_filled x))
unfolding source_pending maker_pending
fill-IsBalanced s t p sender n msg x pending f w h =
    let src : sent_amount x.callback.maker_src ≡ 0 =
      ap (λ (c : Callback). sent_amount c.maker_src) w.called_back in
    let dst : sent_amount x.callback.maker_dst ≡ x.maker_dst_out =
      ap (λ (c : Callback). sent_amount c.maker_dst) w.called_back in
    rw w.state_after (record {
      counted = omega (arith, h.counted);
      source = omega (arith, h.source, w.source_sent, w.swapped.out_left, src);
      maker = omega (arith, h.maker, w.maker_sent, dst);
    })
