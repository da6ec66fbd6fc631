-- ===== src/Tests/Run.antt =====
-- A run of the engine over a small ledger.
use intents.Prelude.{
  ◌*◌, ◌^◌, ℕ, ◌+◌, ◌-◌, ◌≡◌, ◌≤◌, refl, ◌∙◌, ap, Bool-cases, inl, inr, true, false, List, [], ◌∷◌,
  none, some, ◌==◌, leb, if◌then◌else◌, string_eq, arith, nat_default,
}
use intents.Prelude.Int.{pos, negsuc, ◌-ℤ◌, ◌+ℤ◌}
use intents.MapUtils.{get, get_or_default, insert, store}
use intents.Amounts.{add, sub, checked_apply}
use intents.TokenId.{AccountId, TokenId, token_eq}
use intents.Matcher.{Transfers, matcher_default, map_default}
use intents.Matcher.Flow.{outflow, inflow}
use intents.Matcher.Change.{empty-IsConsistent}
use intents.Error.{PublicKey, Result, ok, err, balance_overflow, ed25519, ◌>>=◌}
use intents.Intents.{Intent}
use intents.State.{State, internal_apply_deltas}
use intents.Deltas
use intents.Deltas.{Deltas, deltas_state, new}
use intents.Deltas.Tracks.{
  share, IsLedger, Tracks, internal_add_balance-Tracks, internal_sub_balance-Tracks,
  finalize-balances,
}
use intents.Execute.{Engine, Inspector, DefuseEvent}
use intents.Engine.NonceCheck.{verify_intent_nonce-passes}
use intents.Nonce.{maybe_from, swap_bytes, versioned_magic_prefix}
use intents.Engine.{is_before, verify_intent_nonce, Signed, DefusePayload, execute_signed_intent}
use intents.Engine.Balances.{Passed, execute_signed_intent-authorized}

-- Balances, and nothing else.
abbrev Ledger : Type 0
Ledger = AccountId → TokenId → ℕ

unfoldable put : Ledger → AccountId → List (TokenId × ℕ) → Result Ledger
put s owner [] = ok s
put s owner ((token, x) ∷ l) = put (λ a u. s a u + share owner token a u x) owner l

unfoldable take : Ledger → AccountId → List (TokenId × ℕ) → Result Ledger
take s owner [] = ok s
take s owner ((token, x) ∷ l) =
    (if leb x (s owner token)
      then ok (λ a u. s a u - share owner token a u x)
      else err balance_overflow)
    >>= λ s'. take s' owner l

abbrev ledger : State Ledger
ledger = record {
  verifying_contract = λ s. "intents.near";
  wnear_id = λ s. "wrap.near";
  fee = λ s. 1;
  fee_collector = λ s. "collector";
  has_public_key = λ s a k. true;
  iter_public_keys = λ s a. [];
  is_nonce_used = λ s a n. false;
  balance_of = λ s. s;
  is_account_locked = λ s a. false;
  is_auth_by_predecessor_id_enabled = λ s a. true;
  is_valid_salt = λ s n. true;
  add_public_key = λ s a k. ok s;
  remove_public_key = λ s a k. ok s;
  commit_nonce = λ s a n. ok s;
  cleanup_nonce_by_prefix = λ s a n. ok (s, false);
  internal_add_balance = put;
  internal_sub_balance = take;
  ft_withdraw = λ s a w. take s a ((TokenId.nep141 w.token, w.amount) ∷ []);
  nft_withdraw = λ s a w. take s a ((TokenId.nep171 w.token w.token_id, 1) ∷ []);
  mt_withdraw = λ s a w. ok s;
  native_withdraw = λ s a w. take s a ((TokenId.nep141 "wrap.near", w.amount) ∷ []);
  notify_on_transfer = λ s a b ts n. s;
  storage_deposit = λ s a w. take s a ((TokenId.nep141 "wrap.near", w.amount) ∷ []);
  set_auth_by_predecessor_id = λ s a on. ok (s, false);
  auth_call = λ s a c. ok s;
  mint = λ s a ts memo. put s a ts;
  burn = λ s a ts memo. take s a ts;
}

ok_inj : {A : Type 0} {x y : A} → ok x ≡ ok y → x ≡ y
ok_inj h = cc

put-reads :
    (s : Ledger) (owner : AccountId) (token : TokenId) (x : ℕ) {s' : Ledger}
    → put s owner ((token, x) ∷ []) ≡ ok s'
    → (a : AccountId) (u : TokenId) → s' a u ≡ s a u + share owner token a u x
unfolding put
put-reads s owner token x {s'} h a u =
    let same : (λ b w. s b w + share owner token b w x) ≡ s' = ok_inj h in rw (← same) refl

enough :
    (s : Ledger) (owner a : AccountId) (token u : TokenId) (x : ℕ)
    → leb x (s owner token) ≡ true
    → share owner token a u x ≤ s a u
enough s owner a token u x le = elim (Bool-cases (owner == a)) [
  | inr other ↦ ground (arith, other)
  | inl same ↦ elim (Bool-cases (token == u)) [
    | inr other ↦ ground (arith, other)
    | inl also ↦
        let held : s owner token ≡ s a u =
          ap (λ b. s b token) ((string_eq.beq_iff owner a).0 same)
          ∙ ap (λ w. s a w) ((token_eq.beq_iff token u).0 also) in
        ground arith
  ]
]

take-reads :
    (s : Ledger) (owner : AccountId) (token : TokenId) (x : ℕ) {s' : Ledger}
    → take s owner ((token, x) ∷ []) ≡ ok s'
    → (a : AccountId) (u : TokenId) → s' a u + share owner token a u x ≡ s a u
unfolding take
take-reads s owner token x {s'} h a u = elim (Bool-cases (leb x (s owner token))) [
  | inr less ↦ cc (rw less at h)
  | inl le ↦
      let same : (λ b w. s b w - share owner token b w x) ≡ s' = ok_inj (rw le at h) in
      let fits = enough s owner a token u x le in rw (← same) (omega (arith, fits))
]

ledger-IsLedger : IsLedger ledger
ledger-IsLedger = record { added = put-reads; taken = take-reads }

abbrev usdc : TokenId
usdc = TokenId.nep141 "usdc"

-- Everybody starts with 100 of every token.
abbrev start : Ledger
start a u = 100

abbrev inspector : Inspector (List DefuseEvent)
inspector = record {
  on_deadline = λ i t. i;
  on_event = λ i event. event ∷ i;
  on_intent_executed = λ i a hash nonce. i;
}

abbrev signed : Signed DefusePayload
signed = record {
  verify = λ p. some (ed25519 1);
  hash = λ p. 7;
  extract_defuse_payload = λ p. ok p;
}

abbrev payment : DefusePayload
payment = record {
  signer_id = "alice";
  verifying_contract = "intents.near";
  deadline = pos 100;
  nonce = 300;
  intents =
      Intent.transfer
        (record { receiver_id = "bob"; tokens = (usdc, 5) ∷ []; memo = none; notification = none })
      ∷ [];
}

abbrev engine : Engine Ledger (List DefuseEvent)
engine = record { state = new ledger start; inspector = [] }

abbrev settled : Transfers
settled = ("alice", ("bob", (usdc, 5) ∷ []) ∷ []) ∷ []

abbrev nothing : DefusePayload
nothing = record {
  signer_id = "alice";
  verifying_contract = "intents.near";
  deadline = pos 100;
  nonce = 301;
  intents = [];
}

nothing-runs : execute_signed_intent ledger inspector signed (pos 50) engine nothing ≡ ok engine
unfolding execute_signed_intent ◌-ℤ◌
nothing-runs = refl

execute_signed_intent-authorized_example :
    (key : PublicKey) × (p : DefusePayload) × (some (ed25519 1) ≡ some key)
    × (ok nothing ≡ ok p)
    × Passed ledger inspector signed (pos 50) engine key 7 p engine
execute_signed_intent-authorized_example =
    execute_signed_intent-authorized ledger inspector signed (pos 50) engine nothing nothing-runs

new-Tracks : Tracks ledger start (new ledger start)
unfolding ◌+ℤ◌ get_or_default get
new-Tracks = record { consistent = empty-IsConsistent; tracked = λ a u. refl }

abbrev paid : Deltas Ledger
paid = record {
  state = λ a u. 100 - share "alice" usdc a u 5;
  deltas = (usdc, record { deposits = []; withdrawals = ("alice", 5) ∷ [] }) ∷ [];
}

paid-runs : Deltas.internal_sub_balance ledger (new ledger start) "alice" ((usdc, 5) ∷ []) ≡ ok paid
unfolding Deltas.internal_sub_balance take get_or_default get add sub checked_apply store insert
paid-runs = refl

internal_sub_balance-Tracks_example : Tracks ledger start paid
internal_sub_balance-Tracks_example =
    internal_sub_balance-Tracks ledger ledger-IsLedger start (new ledger start) "alice"
      ((usdc, 5) ∷ []) new-Tracks paid-runs

paid-Tracks : Tracks ledger start paid
paid-Tracks =
    internal_sub_balance-Tracks ledger ledger-IsLedger start (new ledger start) "alice"
      ((usdc, 5) ∷ []) new-Tracks paid-runs

abbrev received : Deltas Ledger
received = record {
  state = λ a u. 100 - share "alice" usdc a u 5 + share "bob" usdc a u 5;
  deltas = (usdc, record { deposits = ("bob", 5) ∷ []; withdrawals = ("alice", 5) ∷ [] }) ∷ [];
}

received-runs : Deltas.internal_add_balance ledger paid "bob" ((usdc, 5) ∷ []) ≡ ok received
unfolding Deltas.internal_add_balance put get_or_default get add sub checked_apply store insert
received-runs = refl

internal_add_balance-Tracks_example : Tracks ledger start received
internal_add_balance-Tracks_example =
    internal_add_balance-Tracks ledger ledger-IsLedger start paid "bob" ((usdc, 5) ∷ []) paid-Tracks
      received-runs

received-Tracks : Tracks ledger start received
received-Tracks =
    internal_add_balance-Tracks ledger ledger-IsLedger start paid "bob" ((usdc, 5) ∷ []) paid-Tracks
      received-runs

received-settles : Deltas.finalize received ≡ ok settled
unfolding Deltas.finalize add get_or_default get store insert
received-settles = refl

finalize-balances_example :
    (100 - share "alice" usdc "alice" usdc 5 + share "bob" usdc "alice" usdc 5)
      + outflow settled "alice" usdc
    ≡ 100 + inflow settled "alice" usdc
finalize-balances_example =
    finalize-balances ledger start received settled "alice" usdc received-Tracks received-settles

apply_deltas-runs :
    internal_apply_deltas (deltas_state ledger) (new ledger start) "alice" ((usdc, negsuc 4) ∷ [])
    ≡ ok paid
unfolding internal_apply_deltas Deltas.internal_sub_balance take get_or_default get add sub
    checked_apply store insert
apply_deltas-runs = refl

-- A versioned nonce with salt 0 and deadline 0.
abbrev versioned : ℕ
versioned = versioned_magic_prefix * 2 ^ 224

versioned-runs : maybe_from versioned ≡ some (record { salt = 0; deadline = pos 0; nonce = 0 })
unfolding maybe_from swap_bytes
versioned-runs = refl

versioned-verified :
    verify_intent_nonce ledger inspector engine (negsuc 9) versioned (negsuc 0) ≡ ok tt
unfolding verify_intent_nonce maybe_from swap_bytes ◌-ℤ◌
versioned-verified = refl

verify_intent_nonce-passes_example :
    (true ≡ true) × (is_before (pos 0) (negsuc 0) ≡ false) × (is_before (pos 0) (negsuc 9) ≡ false)
verify_intent_nonce-passes_example =
    verify_intent_nonce-passes ledger inspector engine (negsuc 9) versioned (negsuc 0)
      versioned-runs versioned-verified
