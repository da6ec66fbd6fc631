-- ===== src/Contract/Resolved.antt =====
-- The resolution of a transfer: `mt_resolve_transfer` of contract/tokens/nep245/resolver.rs as a whole.
use intents.Prelude.{
  ◌⊎◌, ◌==◌, false, none, ℕ, ◌+◌, ◌≤◌, ◌≡◌, refl, sym, true, Option, some, List, [], ◌∷◌, String,
  string_eq, nat_default, nat_beq, arith, min, length, inl, inr, Bool-cases, nat_beq_iff, ◌∙◌,
}
use intents.TokenId.{AccountId, TokenId, token_eq}
use intents.TokenId.Text.{parse}
use intents.Error.{ok}
use intents.Contract.{Host, Contract, balance_of}
use intents.Contract.Supply.{IsBacked, gained}
use intents.Contract.Moves.{Passed-IsBacked}
use intents.Contract.Refunds.{IsAsked}
use intents.Contract.Settled.{AreResolvable, AreSettled, resolve_tokens-Returns}
use intents.Contract.Transfers.{entries, refunds_or_all, resolve_transfer}

-- The texts of a transfer parse, and its previous owners are all the sender.
abbrev pub AllParse : Host → List String → Type 0
AllParse host [] = Unit
AllParse host (text ∷ texts) =
    ((token : TokenId) × (parse host.is_account_id text ≡ some token)) × AllParse host texts

abbrev pub AllAre : AccountId → List AccountId → Type 0
AllAre sender [] = Unit
AllAre sender (owner ∷ owners) = (owner ≡ sender) × AllAre sender owners

-- Of every amount, what is not used is refunded: all that is asked for of it, or less where nothing
-- is left.
abbrev pub AreResolved :
    Host → (TokenId → ℕ) → List String → (amounts asked used : List ℕ) → List (TokenId × ℕ) → Type 0
AreResolved host left [] [] [] [] [] = Unit
AreResolved host left (text ∷ texts) (x ∷ amounts) (want ∷ asked) (u ∷ used) ((token, r) ∷ l) =
    (parse host.is_account_id text ≡ some token)
    × (u + r ≡ x)
    × (r ≤ min want x)
    × ((r ≡ min want x) ⊎ (left token ≡ 0))
    × AreResolved host left texts amounts asked used l
AreResolved host left _ _ _ _ _ = ⊥

module _ (host : Host) where
  entries-AreResolvable :
      (sender : AccountId) (texts : List String) (owners : List AccountId) (amounts asked : List ℕ)
      → AllParse host texts
      → AllAre sender owners
      → AreResolvable host sender (entries host texts owners amounts asked)
  unfolding entries
  entries-AreResolvable sender [] owners amounts asked h g = tt
  entries-AreResolvable sender (t ∷ texts) [] amounts asked h g = tt
  entries-AreResolvable sender (t ∷ texts) (o ∷ owners) [] asked h g = tt
  entries-AreResolvable sender (t ∷ texts) (o ∷ owners) (x ∷ amounts) [] h g = tt
  entries-AreResolvable sender (t ∷ texts) (o ∷ owners) (x ∷ amounts) (w ∷ asked) h g =
      (h.0, g.0, entries-AreResolvable sender texts owners amounts asked h.1 g.1)

  AreSettled-AreResolved :
      (left : TokenId → ℕ) (texts : List String) (owners : List AccountId)
      (amounts asked used : List ℕ) (l : List (TokenId × ℕ))
      → length owners ≡ length texts
      → length amounts ≡ length texts
      → length asked ≡ length texts
      → AreSettled host left (entries host texts owners amounts asked) used l
      → AreResolved host left texts amounts asked used l
  unfolding entries
  AreSettled-AreResolved left [] owners [] [] [] [] n m k h = tt
  AreSettled-AreResolved left [] owners [] [] (u ∷ used) l n m k h = absurd h
  AreSettled-AreResolved left [] owners [] [] [] (r ∷ l) n m k h = absurd h
  AreSettled-AreResolved left [] owners (x ∷ amounts) asked used l n m k h =
      absurd (omega (arith, m))
  AreSettled-AreResolved left [] owners [] (w ∷ asked) used l n m k h = absurd (omega (arith, k))
  AreSettled-AreResolved left (t ∷ texts) [] amounts asked used l n m k h =
      absurd (omega (arith, n))
  AreSettled-AreResolved left (t ∷ texts) (o ∷ owners) [] asked used l n m k h =
      absurd (omega (arith, m))
  AreSettled-AreResolved left (t ∷ texts) (o ∷ owners) (x ∷ amounts) [] used l n m k h =
      absurd (omega (arith, k))
  AreSettled-AreResolved left (t ∷ texts) (o ∷ owners) (x ∷ amounts) (w ∷ asked) [] l n m k h =
      absurd h
  AreSettled-AreResolved left (t ∷ texts) (o ∷ owners) (x ∷ amounts) (w ∷ asked) (u ∷ used) [] n m k
        h =
      absurd h
  AreSettled-AreResolved left (t ∷ texts) (o ∷ owners) (x ∷ amounts) (w ∷ asked) (u ∷ used)
        ((token, r) ∷ l) n m k (p, exact, few, fair, rest) =
      (
        p,
        exact,
        few,
        fair,
        AreSettled-AreResolved left texts owners amounts asked used l (omega (arith, n))
            (omega (arith, m)) (omega (arith, k)) rest,
      )

  refunds_or_all-IsAsked :
      (answer : Option (List ℕ)) (amounts : List ℕ)
      → IsAsked answer amounts (refunds_or_all host answer amounts)
        × (length (refunds_or_all host answer amounts) ≡ length amounts)
  refunds_or_all-IsAsked none amounts = (refl, refl)
  refunds_or_all-IsAsked (some refunds) amounts =
      elim (Bool-cases (nat_beq (length refunds) (length amounts))) [
        | inl e ↦
            let same = (nat_beq_iff (length refunds) (length amounts)).0 e in
            rw e (inl (same, refl), same)
        | inr e ↦
            rw e (inr (ground (arith, nat_beq_iff (length refunds) (length amounts)), refl), refl)
      ]

-- The resolution of a transfer to another account never panics where every supply is the sum of the
-- balances, on what the contract sends itself: lists of one length, texts that parse, one previous
-- owner, and no approvals. What is asked for is what the receiver's answer says, if it has an amount
-- for each that was sent, and otherwise all of them. Of every amount what is not used is refunded:
-- all that is asked for of it, or less where the receiver then has nothing left. The refunds leave
-- the receiver's balances for the sender's and change no other, and every supply is still the sum of
-- the balances.
pub resolve_transfer-Returns :
    (host : Host) (c : Contract) (sender : AccountId) (others : List AccountId)
    (receiver : AccountId) (token_ids : List String) (amounts : List ℕ) (answer : Option (List ℕ))
    → IsBacked c
    → (sender == receiver) ≡ false
    → length token_ids ≡ length (sender ∷ others)
    → length amounts ≡ length token_ids
    → AllParse host token_ids
    → AllAre sender others
    → (c' : Contract) × (asked : List ℕ) × (used : List ℕ) × (l : List (TokenId × ℕ))
      × (resolve_transfer host c (sender ∷ others) receiver token_ids amounts true answer
          ≡ ok (c', used))
      × IsAsked answer amounts asked
      × AreResolved host (balance_of c' receiver) token_ids amounts asked used l
      × IsBacked c'
      × ((a : AccountId) (u : TokenId)
          → balance_of c' a u + gained receiver l a u ≡ balance_of c a u + gained sender l a u)
unfolding resolve_transfer
resolve_transfer-Returns host c sender others receiver token_ids amounts answer h apart n m p o =
    let asked = refunds_or_all host answer amounts in
    let (is_asked, size) = refunds_or_all-IsAsked host answer amounts in
    let es = entries host token_ids (sender ∷ others) amounts asked in
    let sent =
      entries-AreResolvable host sender token_ids (sender ∷ others) amounts asked p (refl, o) in
    let (c', used, l, q, done, passed) =
      resolve_tokens-Returns host sender receiver apart c es h sent in
    (
      c',
      asked,
      used,
      l,
      ground arith,
      is_asked,
      AreSettled-AreResolved host (balance_of c' receiver) token_ids (sender ∷ others) amounts asked
          used l (sym n) m (size ∙ m) done,
      Passed-IsBacked c c' receiver sender l passed h,
      passed.reads,
    )
