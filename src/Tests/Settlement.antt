-- ===== src/Tests/Settlement.antt =====
-- The matcher of contracts/defuse/core/src/engine/state/deltas.rs on a swap between two accounts.
use intents.Prelude.{
  ◌+◌, ◌≡◌, refl, ◌≤◌, ◌<◌, ◌⊎◌, Bool, true, false, [], ◌∷◌, some, nat_default, string_eq, arith,
}
use intents.Prelude.Int.{pos, neg_ℕ, ◌+ℤ◌}
use intents.NumUtils.{u128_max}
use intents.MapUtils.{get, get_or_default, insert, store}
use intents.Amounts.{amount_for, add, sub, checked_apply}
use intents.Amounts.Laws.{IsValid}
use intents.TokenId.{AccountId, TokenId, token_eq}
use intents.Matcher.{
  Transfers, AccountAmounts, TokenTransferMatcher, TransferMatcher, finalize, finalize_into,
  matched, deposit, withdraw, with_token, sub_add, match_loop, grow, ok,
}
use intents.Matcher.Net.{sub_add-Moved}
use intents.Matcher.Flow.{IsWellFormed, amount, outflow, inflow}
use intents.Matcher.Sort.{total}
use intents.Matcher.Loop.{Ready, match_loop-Moves}
use intents.Matcher.Finalize.{finalize_into-balanced}
use intents.Matcher.Change.{
  IsConsistent, net_of, empty-IsConsistent, deposit-net_of, withdraw-net_of,
}

abbrev usdc : TokenId
usdc = TokenId.nep141 "usdc"

abbrev alice_pays : TransferMatcher
alice_pays = (usdc, record { deposits = []; withdrawals = ("alice", 5) ∷ [] }) ∷ []

abbrev bob_is_paid : TokenTransferMatcher
bob_is_paid = record { deposits = ("bob", 5) ∷ []; withdrawals = ("alice", 5) ∷ [] }

alice_pays-runs : with_token (λ e. withdraw e "alice" 5) [] usdc ≡ some (alice_pays, true)
unfolding with_token withdraw sub_add grow sub add checked_apply store get_or_default get insert
alice_pays-runs = refl

bob_is_paid-runs :
    with_token (λ e. deposit e "bob" 5) alice_pays usdc ≡ some ((usdc, bob_is_paid) ∷ [], true)
unfolding with_token deposit sub_add grow sub add checked_apply store get_or_default get insert
bob_is_paid-runs = refl

withdraw-net_of_example :
    IsConsistent alice_pays × (net_of alice_pays "alice" usdc ≡ net_of [] "alice" usdc +ℤ neg_ℕ 5)
withdraw-net_of_example =
    withdraw-net_of [] "alice" usdc 5 "alice" usdc empty-IsConsistent alice_pays-runs

alice_pays-IsConsistent : IsConsistent alice_pays
alice_pays-IsConsistent =
    (withdraw-net_of [] "alice" usdc 5 "alice" usdc empty-IsConsistent alice_pays-runs).0

deposit-net_of_example :
    IsConsistent ((usdc, bob_is_paid) ∷ [])
    × (net_of ((usdc, bob_is_paid) ∷ []) "bob" usdc ≡ net_of alice_pays "bob" usdc +ℤ pos 5)
deposit-net_of_example =
    deposit-net_of alice_pays "bob" usdc 5 "bob" usdc alice_pays-IsConsistent bob_is_paid-runs

swap-IsConsistent : IsConsistent ((usdc, bob_is_paid) ∷ [])
swap-IsConsistent =
    (deposit-net_of alice_pays "bob" usdc 5 "bob" usdc alice_pays-IsConsistent bob_is_paid-runs).0

-- The swap is settled by one transfer.
finalize-swap :
    finalize ((usdc, bob_is_paid) ∷ []) ≡ some (ok (("alice", ("bob", (usdc, 5) ∷ []) ∷ []) ∷ []))
unfolding finalize add get_or_default get store insert
finalize-swap = refl

no_transfers-IsWellFormed : IsWellFormed []
unfolding get_or_default get
no_transfers-IsWellFormed = record { senders = tt; receivers = λ s. tt; tokens = λ s r. (tt, tt) }

no_amount : (a b : AccountId) → amount [] a b usdc ≡ 0
unfolding get_or_default get
no_amount a b = refl

finalize_into-balanced_example :
    (ts' : Transfers) × (finalize_into bob_is_paid usdc [] ≡ some (ts', matched))
    × IsWellFormed ts'
    × ((a : AccountId)
        → (outflow ts' a usdc ≡ outflow [] a usdc + amount_for (("alice", 5) ∷ []) a)
          × (inflow ts' a usdc ≡ inflow [] a usdc + amount_for (("bob", 5) ∷ []) a))
finalize_into-balanced_example =
    finalize_into-balanced bob_is_paid usdc [] swap-IsConsistent.matchers.0
      no_transfers-IsWellFormed no_amount refl

abbrev entries : AccountAmounts
entries = ("alice", 2) ∷ ("bob", 7) ∷ []

entries-IsValid : IsValid entries
unfolding get
entries-IsValid = ((refl, (refl, tt)), (refl, (refl, tt)))

-- The owner of a withdrawal deposits more than it withdrew.
sub_add-Moved_example :
    (subs' : AccountAmounts) × (adds' : AccountAmounts) × (done : Bool) × (sub_add entries []
        "alice" 3
      ≡ some (subs', adds', done))
    × IsValid subs'
    × IsValid adds'
    × (((done ≡ true)
          × (amount_for adds' "alice" + amount_for entries "alice"
              ≡ amount_for {K = AccountId} [] "alice" + amount_for subs' "alice" + 3))
        ⊎ ((done ≡ false) × (u128_max < amount_for {K = AccountId} [] "alice" + 3)))
sub_add-Moved_example = sub_add-Moved entries [] "alice" 3 "alice" entries-IsValid (tt, tt)

entries-fit : (a : AccountId) → amount_for entries a ≤ u128_max
unfolding get_or_default get
entries-fit a = ground arith

entries-Ready : Ready usdc [] entries (("carol", 4) ∷ [])
unfolding get_or_default get
entries-Ready = record {
  formed = no_transfers-IsWellFormed;
  senders = entries-IsValid;
  receivers = ((refl, tt), (refl, tt));
  fits = entries-fit;
  free = λ a b _ _. no_amount a b;
}

match_loop-Moves_example :
    (ts' : Transfers) × (ws' : AccountAmounts) × (ds' : AccountAmounts) × (match_loop 4 usdc []
        entries
        (("carol", 4) ∷ [])
      ≡ some (ts', ws', ds'))
    × ((ws' ≡ []) ⊎ (ds' ≡ []))
    × (total ws' + total (("carol", 4) ∷ []) ≡ total entries + total ds')
    × ((a : AccountId)
        → (outflow ts' a usdc + amount_for ws' a ≡ outflow [] a usdc + amount_for entries a)
          × (inflow ts' a usdc + amount_for ds' a
              ≡ inflow [] a usdc + amount_for (("carol", 4) ∷ []) a))
match_loop-Moves_example =
    match_loop-Moves 4 usdc [] entries (("carol", 4) ∷ []) entries-Ready (omega arith)
