-- ===== src/Engine/Conserves.antt =====
-- The engine moves balances only as its deltas say, for intents that stay inside the ledger.
use intents.Prelude.{ℕ, ◌≡◌, ◌∙◌, ap, Bool, true, false, List, [], ◌∷◌, string_eq, nat_default}
use intents.Prelude.Int.{pos}
use intents.Amounts.{Amounts}
use intents.TokenId.{AccountId, TokenId, token_eq}
use intents.Error.{PublicKey, ok}
use intents.Intents.{Intent, NotifyOnTransfer}
use intents.State.{State}
use intents.Deltas.{Deltas}
use intents.Deltas.Tracks.{
  IsLedger, Tracks, internal_add_balance-Tracks, internal_sub_balance-Tracks,
  internal_apply_deltas-Tracks,
}
use intents.Engine.Keeps.{is_internal, IsClosed, AllOpen}

-- The calls that leave every balance alone.
pub record IsQuiet {S : Type 0} (st : State S) : Type 0 where
  pub key_added :
      (s : S) (b : AccountId) (k : PublicKey) {s' : S}
      → st.add_public_key s b k ≡ ok s'
      → (a : AccountId) (u : TokenId) → st.balance_of s' a u ≡ st.balance_of s a u
  pub key_removed :
      (s : S) (b : AccountId) (k : PublicKey) {s' : S}
      → st.remove_public_key s b k ≡ ok s'
      → (a : AccountId) (u : TokenId) → st.balance_of s' a u ≡ st.balance_of s a u
  pub nonce_committed :
      (s : S) (b : AccountId) (n : ℕ) {s' : S}
      → st.commit_nonce s b n ≡ ok s'
      → (a : AccountId) (u : TokenId) → st.balance_of s' a u ≡ st.balance_of s a u
  pub auth_set :
      (s : S) (b : AccountId) (on : Bool) {s' : S} {toggled : Bool}
      → st.set_auth_by_predecessor_id s b on ≡ ok (s', toggled)
      → (a : AccountId) (u : TokenId) → st.balance_of s' a u ≡ st.balance_of s a u
  pub notified :
      (s : S) (b c : AccountId) (ts : Amounts TokenId ℕ) (n : NotifyOnTransfer)
      → (a : AccountId) (u : TokenId)
      → st.balance_of (st.notify_on_transfer s b c ts n) a u ≡ st.balance_of s a u

abbrev pub AllInternal : List Intent → Type 0
AllInternal [] = Unit
AllInternal (i ∷ l) = (is_internal i ≡ true) × AllInternal l

module _ {S : Type 0} (st : State S) (law : IsLedger st) (quiet : IsQuiet st) (s0 : S) where
  same_balances :
      (d : Deltas S) {s' : S}
      → Tracks st s0 d
      → ((a : AccountId) (u : TokenId) → st.balance_of s' a u ≡ st.balance_of d.state a u)
      → Tracks st s0 (record { state = s'; deltas = d.deltas })
  same_balances d h same = record {
    consistent = h.consistent;
    tracked = λ a u. ap pos (same a u) ∙ h.tracked a u;
  }

  -- So do the operations of the engine, which leaves the balances tracked.
  pub Tracks-IsClosed : IsClosed st (Tracks st s0)
  Tracks-IsClosed = record {
    added = λ d a l. internal_add_balance-Tracks st law s0 d a l;
    taken = λ d a l. internal_sub_balance-Tracks st law s0 d a l;
    applied = λ d a l. internal_apply_deltas-Tracks st law s0 d a l;
    key_added = λ d b k h q. same_balances d h (quiet.key_added d.state b k q);
    key_removed = λ d b k h q. same_balances d h (quiet.key_removed d.state b k q);
    nonce_committed = λ d b n h q. same_balances d h (quiet.nonce_committed d.state b n q);
    auth_set = λ d b on h q. same_balances d h (quiet.auth_set d.state b on q);
    notified = λ d b c ts n h. same_balances d h (quiet.notified d.state b c ts n);
  }

internal_not_external : (i : Intent) → is_internal i ≡ true → is_internal i ≡ false → ⊥
internal_not_external i h n = cc

-- Intents inside the ledger need nothing of the operations that leave it.
pub AllInternal-AllOpen :
    {S : Type 0} (st : State S) (Inv : Deltas S → Type 0) (l : List Intent)
    → AllInternal l
    → AllOpen st Inv l
AllInternal-AllOpen st Inv [] h = tt
AllInternal-AllOpen st Inv (i ∷ l) h =
    (λ n. absurd (internal_not_external i h.0 n), AllInternal-AllOpen st Inv l h.1)
