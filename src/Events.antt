-- ===== src/Events.antt =====
-- crates/near/nep245/src/events.rs and checked.rs: the events of tokens, and the check that the event
-- of a refund, which repeats an event with the memo of refunds, would still fit the log. A length is
-- taken in bytes; the length of the log of an event, which serde_json writes, is a parameter.
use Prim.Native.String.{len}
use intents.Prelude.{ℕ, ◌+◌, ◌-◌, not, String, Option, none, some, List, [], ◌∷◌, map, ltb}
use intents.TokenId.{AccountId}
use intents.Error.{Result, guard, log_too_long}

-- `MtMintEvent`, `MtBurnEvent` and `MtTransferEvent`, whose `authorized_id` is never set. The texts
-- of tokens and the amounts are two lists of one length in the source.
pub record MtMintEvent : Type 0 where
  pub owner_id : AccountId
  pub tokens : List (String × ℕ)
  pub memo : Option String

pub record MtBurnEvent : Type 0 where
  pub owner_id : AccountId
  pub tokens : List (String × ℕ)
  pub memo : Option String

pub record MtTransferEvent : Type 0 where
  pub old_owner_id : AccountId
  pub new_owner_id : AccountId
  pub tokens : List (String × ℕ)
  pub memo : Option String

pub data MtEvent : Type 0 where
  mt_mint : List MtMintEvent → MtEvent
  mt_burn : List MtBurnEvent → MtEvent
  mt_transfer : List MtTransferEvent → MtEvent

abbrev pub refund_memo : String
refund_memo = "refund"

abbrev pub refund_str_len : ℕ
refund_str_len = 6

-- The length of `,"memo":""` beside that of the memo.
abbrev pub refund_extra_bytes : ℕ
refund_extra_bytes = 10 + refund_str_len

abbrev pub total_log_length_limit : ℕ
total_log_length_limit = 16384

pub record RefundLogDelta : Type 0 where
  pub overhead : ℕ
  pub savings : ℕ

-- The subtractions saturate, in the source too.
unfoldable pub new : ℕ → ℕ → RefundLogDelta
new overhead savings = record { overhead = overhead - savings; savings = savings - overhead }

-- The sums of lengths of texts in memory do not reach the bound at which `usize` saturates.
unfoldable pub saturating_add : RefundLogDelta → RefundLogDelta → RefundLogDelta
unfolding new
saturating_add a b = new (a.overhead + b.overhead) (a.savings + b.savings)

unfoldable pub refund_log_delta : Option String → RefundLogDelta
unfolding new
refund_log_delta none = record { overhead = refund_extra_bytes; savings = 0 }
refund_log_delta (some m) = new refund_str_len (len m)

-- `fold(RefundLogDelta::default(), RefundLogDelta::saturating_add)`
unfoldable pub total_delta : RefundLogDelta → List (Option String) → RefundLogDelta
unfolding saturating_add refund_log_delta
total_delta acc [] = acc
total_delta acc (memo ∷ memos) = total_delta (saturating_add acc (refund_log_delta memo)) memos

abbrev pub memos_of : MtEvent → List (Option String)
memos_of (mt_mint events) = map (λ (e : MtMintEvent). e.memo) events
memos_of (mt_burn events) = map (λ (e : MtBurnEvent). e.memo) events
memos_of (mt_transfer events) = map (λ (e : MtTransferEvent). e.memo) events

unfoldable pub compute_refund_delta : MtEvent → RefundLogDelta
unfolding total_delta
compute_refund_delta e = total_delta (record { overhead = 0; savings = 0 }) (memos_of e)

unfoldable pub check_refund : (MtEvent → ℕ) → MtEvent → Result (Unit {0})
unfolding compute_refund_delta
check_refund log_len e =
    let delta = compute_refund_delta e in
    guard (not (ltb total_log_length_limit (log_len e + delta.overhead - delta.savings)))
      log_too_long
