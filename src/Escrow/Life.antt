-- ===== src/Escrow/Life.antt =====
-- contracts/escrow-swap/src/contract: the methods of the contract over its storage, which is gone
-- once the order is cleaned up, and the life of an order: calls of the methods in any order, and the
-- callbacks that they leave pending, each of which the chain runs once, with whatever the transfers
-- have come to. The hash of parameters is a parameter, and a message is given as it parses.
pub mod Accounts
pub mod Refunds
pub mod Invariant
use intents.Prelude.{
  min, ℕ, ◌+◌, ◌-◌, ◌≡◌, Bool, true, false, Option, none, some, List, [], ◌∷◌, ◌++◌, nat_beq, not,
  ◌&&◌, ◌||◌, ◌==◌, string_eq, if◌then◌else◌,
}
use intents.Prelude.Int.{ℤ, ltb_ℤ}
use intents.Prelude.Outcome.{Outcome, done, failed, ◌>>?◌, fail_if}
use intents.TokenId.{AccountId, TokenId}
use intents.Escrow.{
  EscrowError, cleanup_in_progress, json, unauthorized, insufficient_amount, invalid_data, Params,
  State, Storage, Sent, Callback, with_closed, on_callback, new,
}
use intents.Escrow.Fill.{Filled}
use intents.Escrow.Settle.{
  TransferAction, Received, funded, was_filled, state_on_receive, Refunded, lost_found, close,
  TransferResult, promise_failed, returned_nothing, returned_amount, returned_other,
  resolve_transfers,
}

-- `ContractStorage`: nothing is left once the contract is being deleted.
abbrev pub ContractStorage : Type 0
ContractStorage = Option Storage

abbrev pub with_state : Storage → State → Storage
with_state c s = record { params_hash = c.params_hash; state = s }

-- An order past its deadline is closed here.
unfoldable pub close_expired : (now : ℤ) → State → State
close_expired now s = with_closed s (s.closed || ltb_ℤ s.deadline now)

unfoldable pub should_cleanup : (now : ℤ) → State → Bool
unfolding close_expired
should_cleanup now s =
    (close_expired now s).closed
    && nat_beq s.in_flight 0
    && nat_beq s.maker_src_remaining 0
    && nat_beq s.maker_dst_lost 0
    && ltb_ℤ s.deadline now

-- The storage after `maybe_cleanup`, which the drop of a guard calls too, and whether it deletes the
-- contract.
unfoldable pub maybe_cleanup : (now : ℤ) → ContractStorage → ContractStorage × Bool
unfolding should_cleanup close_expired
maybe_cleanup now none = (none, false)
maybe_cleanup now (some c) = elim (should_cleanup now c.state) [
  | true ↦ (none, true)
  | false ↦ (some (with_state c (close_expired now c.state)), false)
]

abbrev pub try_as_alive : ContractStorage → Outcome EscrowError Storage
try_as_alive none = failed cleanup_in_progress
try_as_alive (some c) = done c

-- After the call of a method: what is returned is the promise to refund, or whether the contract was
-- just deleted.
unfoldable pub after_refund :
    (now : ℤ) → Storage → State × Option Refunded → ContractStorage × Option Refunded × Bool
unfolding maybe_cleanup
after_refund now c (s, none) =
    let (left, cleaned) = maybe_cleanup now (some (with_state c s)) in
    ((maybe_cleanup now left).0, none, cleaned)
after_refund now c (s, some refunded) =
    ((maybe_cleanup now (some (with_state c s))).0, some refunded, false)

abbrev pub may_call : Option AccountId → AccountId → Bool
may_call none predecessor_id = false
may_call (some caller) predecessor_id = caller == predecessor_id

module _ (params_hash_of : Params → ℕ) where
  -- `verify_mut`
  unfoldable pub verify : Storage → Params → Outcome EscrowError State
  verify c p = fail_if (not (nat_beq c.params_hash (params_hash_of p))) invalid_data (done c.state)

  unfoldable pub on_receive :
      (now : ℤ)
      → ContractStorage
      → (sender_id : AccountId) → TokenId
      → (amount : ℕ) → Option (Params × TransferAction)
      → Outcome EscrowError (ContractStorage × Received)
  unfolding verify maybe_cleanup
  on_receive now storage sender_id token_id amount none =
      fail_if (nat_beq amount 0) insufficient_amount (failed json)
  on_receive now storage sender_id token_id amount (some (p, action)) =
      fail_if (nat_beq amount 0) insufficient_amount (
        try_as_alive storage >>? λ c. verify c p >>? λ s.
        state_on_receive now s p sender_id token_id amount action >>? λ x.
        done ((maybe_cleanup now (some (with_state c x.0))).0, x.1))

  unfoldable pub es_close :
      (now : ℤ)
      → ContractStorage
      → (signer_id : AccountId) → Params
      → Outcome EscrowError (ContractStorage × Option Refunded × Bool)
  unfolding verify after_refund
  es_close now storage signer_id p = try_as_alive storage >>? λ c.
      verify c p >>? λ s. close now s signer_id p >>? λ x. done (after_refund now c x)

  unfoldable pub es_lost_found :
      (now : ℤ)
      → ContractStorage
      → Params
      → Outcome EscrowError (ContractStorage × Option Refunded × Bool)
  unfolding verify after_refund
  es_lost_found now storage p = try_as_alive storage >>? λ c.
      verify c p >>? λ s. lost_found s p >>? λ x. done (after_refund now c x)

  -- auth_call.rs: `internal_on_auth`, whose only action is to close.
  unfoldable pub on_auth :
      (now : ℤ)
      → ContractStorage
      → (predecessor_id signer_id : AccountId) → Option Params
      → Outcome EscrowError (ContractStorage × Option Refunded)
  unfolding verify maybe_cleanup
  on_auth now storage predecessor_id signer_id none = failed json
  on_auth now storage predecessor_id signer_id (some p) = try_as_alive storage >>? λ c.
      verify c p >>? λ s.
      fail_if (not (may_call p.auth_caller predecessor_id)) unauthorized (
        close now s signer_id p >>? λ x.
        done ((maybe_cleanup now (some (with_state c x.0))).0, x.1))

-- The second cleanup is that of the guard's drop.
unfoldable pub es_resolve_transfers :
    (now : ℤ)
    → ContractStorage
    → Callback
    → TransferResult × TransferResult
    → Outcome EscrowError (ContractStorage × Bool)
unfolding maybe_cleanup
es_resolve_transfers now storage callback results = try_as_alive storage >>? λ c.
    on_callback c.state >>? λ s. resolve_transfers s callback results >>? λ after.
    (let cleaned = maybe_cleanup now (some (with_state c after)) in
      done ((maybe_cleanup now cleaned.0).0, cleaned.1))

-- The tokens that have gone in and out: the source that was funded, that takers got and that the
-- maker got back; the destination that was meant for the maker and that the maker got; and of both
-- what a transfer with a message has taken along that failed, which may or may not have arrived and is
-- not sent again.
pub record Flow : Type 0 where
  pub source_in : ℕ
  pub source_out : ℕ
  pub source_back : ℕ
  pub maker_due : ℕ
  pub maker_got : ℕ
  pub source_unsure : ℕ
  pub maker_unsure : ℕ

abbrev pub received_flow : Flow → Received → Flow
received_flow f (funded amount) = record {
  source_in = f.source_in + amount;
  source_out = f.source_out;
  source_back = f.source_back;
  maker_due = f.maker_due;
  maker_got = f.maker_got;
  source_unsure = f.source_unsure;
  maker_unsure = f.maker_unsure;
}
received_flow f (was_filled x) = record {
  source_in = f.source_in;
  source_out = f.source_out + x.to_taker.amount;
  source_back = f.source_back;
  maker_due = f.maker_due + x.to_maker.amount;
  maker_got = f.maker_got;
  source_unsure = f.source_unsure;
  maker_unsure = f.maker_unsure;
}

abbrev pub received_callbacks : Received → List Callback → List Callback
received_callbacks (funded amount) pending = pending
received_callbacks (was_filled x) pending = x.callback ∷ pending

abbrev pub refunded_callbacks : Option Refunded → List Callback → List Callback
refunded_callbacks none pending = pending
refunded_callbacks (some x) pending = x.callback ∷ pending

-- What a transfer has brought to the maker: a plain one all of it, if it returns nothing, as it does on
-- success; one with a message what it says was kept, no more than was sent.
abbrev pub arrived : Option Sent → TransferResult → ℕ
arrived none _ = 0
arrived (some _) promise_failed = 0
arrived (some sent) returned_nothing = if sent.is_call then 0 else sent.amount
arrived (some sent) (returned_amount kept) = if sent.is_call then min kept sent.amount else 0
arrived (some _) returned_other = 0

-- What a transfer with a message had with it when it failed.
abbrev pub unsure : Option Sent → TransferResult → ℕ
unsure none _ = 0
unsure (some sent) promise_failed = if sent.is_call then sent.amount else 0
unsure (some _) returned_nothing = 0
unsure (some _) (returned_amount _) = 0
unsure (some _) returned_other = 0

-- The results stand in the order of the transfers, that of the source first, if there is one.
abbrev pub maker_result : Option Sent → TransferResult × TransferResult → TransferResult
maker_result none results = results.0
maker_result (some _) results = results.1

abbrev pub resolved_flow : Flow → Callback → TransferResult × TransferResult → Flow
resolved_flow f callback results = record {
  source_in = f.source_in;
  source_out = f.source_out;
  source_back = f.source_back + arrived callback.maker_src results.0;
  maker_due = f.maker_due;
  maker_got = f.maker_got + arrived callback.maker_dst (maker_result callback.maker_src results);
  source_unsure = f.source_unsure + unsure callback.maker_src results.0;
  maker_unsure =
      f.maker_unsure + unsure callback.maker_dst (maker_result callback.maker_src results);
}

abbrev pub no_flow : Flow
no_flow = record {
  source_in = 0;
  source_out = 0;
  source_back = 0;
  maker_due = 0;
  maker_got = 0;
  source_unsure = 0;
  maker_unsure = 0;
}

module _ (params_hash_of : Params → ℕ) where
  pub data Life : ContractStorage → List Callback → Flow → Type 0 where
    created : (p : Params) (c : Storage) → new params_hash_of p ≡ done c → Life (some c) [] no_flow
    received :
        {storage : ContractStorage} {pending : List Callback} {flow : Flow} (now : ℤ)
        (sender_id : AccountId) (token_id : TokenId) (amount : ℕ)
        (msg : Option (Params × TransferAction)) (after : ContractStorage) (r : Received)
        → Life storage pending flow
        → on_receive params_hash_of now storage sender_id token_id amount msg ≡ done (after, r)
        → Life after (received_callbacks r pending) (received_flow flow r)
    closed :
        {storage : ContractStorage} {pending : List Callback} {flow : Flow} (now : ℤ)
        (signer_id : AccountId) (p : Params) (after : ContractStorage) (refunded : Option Refunded)
        (cleaned : Bool)
        → Life storage pending flow
        → es_close params_hash_of now storage signer_id p ≡ done (after, refunded, cleaned)
        → Life after (refunded_callbacks refunded pending) flow
    authorized :
        {storage : ContractStorage} {pending : List Callback} {flow : Flow} (now : ℤ)
        (predecessor_id signer_id : AccountId) (msg : Option Params) (after : ContractStorage)
        (refunded : Option Refunded)
        → Life storage pending flow
        → on_auth params_hash_of now storage predecessor_id signer_id msg ≡ done (after, refunded)
        → Life after (refunded_callbacks refunded pending) flow
    retried :
        {storage : ContractStorage} {pending : List Callback} {flow : Flow} (now : ℤ) (p : Params)
        (after : ContractStorage) (refunded : Option Refunded) (cleaned : Bool)
        → Life storage pending flow
        → es_lost_found params_hash_of now storage p ≡ done (after, refunded, cleaned)
        → Life after (refunded_callbacks refunded pending) flow
    resolved :
        {storage : ContractStorage} {flow : Flow} (now : ℤ) (earlier later : List Callback)
        (callback : Callback) (results : TransferResult × TransferResult) (after : ContractStorage)
        (cleaned : Bool)
        → Life storage (earlier ++ callback ∷ later) flow
        → es_resolve_transfers now storage callback results ≡ done (after, cleaned)
        → Life after (earlier ++ later) (resolved_flow flow callback results)
