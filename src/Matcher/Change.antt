-- ===== src/Matcher/Change.antt =====
-- `TransferMatcher::deposit` and `withdraw`: the invariant, and the net change of every account.
use intents.Prelude.{
  ℕ, ◌≡◌, refl, sym, ◌∙◌, ◌⊎◌, inl, inr, Bool, true, [], ◌∷◌, Option, some, ◌==◌, ◌&&◌,
  if◌then◌else◌, nat_default, string_eq, arith, Bool-cases,
}
use mathlib.Core.Path.{subst}
use intents.Prelude.Int.{ℤ, pos, neg_ℕ, sub_ℕ, ◌+ℤ◌, int_laws}
use intents.MapUtils.{get, insert, remove, get_or_default, store}
use intents.MapUtils.Laws.{IsDistinct, store-IsDistinct, get_or_default-store}
use intents.Amounts.{amount_for}
use intents.TokenId.{AccountId, TokenId, token_eq}
use intents.Matcher.{
  TokenTransferMatcher, TransferMatcher, deposit, withdraw, with_token, matcher_default,
  empty_matcher, is_empty_matcher,
}
use intents.Matcher.Net.{IsNetted, sub_add_lem}
use intents.Matcher.Finalize.{IsValidMatcher}
use intents.Matcher.Round.{AllValid}

-- What an account has been given, less what it has given away.
abbrev pub net : TokenTransferMatcher → AccountId → ℤ
net m a = sub_ℕ (amount_for m.deposits a) (amount_for m.withdrawals a)

swap : {A B : Type 0} → A ⊎ B → B ⊎ A
swap (inl a) = inr a
swap (inr b) = inl b

-- One change of one token's matcher by `z` for `owner`.
pub record Changed (m : TokenTransferMatcher) (owner : AccountId) (z : ℤ)
    (m' : TokenTransferMatcher) (done : Bool) : Type 0 where
  pub valid : IsValidMatcher m'
  pub netted : IsNetted m.deposits m.withdrawals → IsNetted m'.deposits m'.withdrawals
  pub changed :
      done ≡ true → (a : AccountId) → net m' a ≡ net m a +ℤ (if owner == a then z else pos 0)

deposit-Changed :
    (m : TokenTransferMatcher) (owner : AccountId) (x : ℕ)
    → IsValidMatcher m
    → (m' : TokenTransferMatcher) × (done : Bool) × (deposit m owner x ≡ some (m', done))
      × Changed m owner (pos x) m' done
unfolding deposit
deposit-Changed m owner x v =
    let (subs, adds, done, q, moved) =
      sub_add_lem m.withdrawals m.deposits owner x v.withdrawals_valid v.deposits_valid in
    (
      record { deposits = adds; withdrawals = subs },
      done,
      rw (q, deposit),
      record {
        valid = record {
          deposits_valid = moved.adds_valid;
          withdrawals_valid = moved.subs_valid;
          deposits_fit = moved.adds_fit v.deposits_fit;
          withdrawals_fit = moved.subs_fit v.withdrawals_fit;
        };
        netted = λ h a. ground (arith, moved.netted (λ b. swap (h b)) a);
        changed = λ d a. unfold ◌+ℤ◌ in ground (arith, moved.moved d a);
      },
    )

withdraw-Changed :
    (m : TokenTransferMatcher) (owner : AccountId) (x : ℕ)
    → IsValidMatcher m
    → (m' : TokenTransferMatcher) × (done : Bool) × (withdraw m owner x ≡ some (m', done))
      × Changed m owner (neg_ℕ x) m' done
unfolding withdraw
withdraw-Changed m owner x v =
    let (subs, adds, done, q, moved) =
      sub_add_lem m.deposits m.withdrawals owner x v.deposits_valid v.withdrawals_valid in
    (
      record { deposits = subs; withdrawals = adds },
      done,
      rw (q, withdraw),
      record {
        valid = record {
          deposits_valid = moved.subs_valid;
          withdrawals_valid = moved.adds_valid;
          deposits_fit = moved.subs_fit v.deposits_fit;
          withdrawals_fit = moved.adds_fit v.withdrawals_fit;
        };
        netted = λ h a. ground (arith, moved.netted h a);
        changed = λ d a. unfold ◌+ℤ◌ in ground (arith, moved.moved d a);
      },
    )

-- The net change of an account in one token.
abbrev pub net_of : TransferMatcher → AccountId → TokenId → ℤ
net_of m a t = net (get_or_default m t) a

pub record IsConsistent (m : TransferMatcher) : Type 0 where
  pub distinct : IsDistinct m
  pub matchers : AllValid m
  pub netted :
      (t : TokenId) → IsNetted (get_or_default m t).deposits (get_or_default m t).withdrawals

empty-IsValidMatcher : IsValidMatcher empty_matcher
unfolding get_or_default get
empty-IsValidMatcher = record {
  deposits_valid = (tt, tt);
  withdrawals_valid = (tt, tt);
  deposits_fit = λ a. omega arith;
  withdrawals_fit = λ a. omega arith;
}

pub empty-IsConsistent : IsConsistent []
unfolding get_or_default get
empty-IsConsistent = record { distinct = tt; matchers = tt; netted = λ t a. inl refl }

IsValidMatcher-get :
    (m : TransferMatcher) (t : TokenId) → AllValid m → IsValidMatcher (get_or_default m t)
unfolding get_or_default get
IsValidMatcher-get [] t v = empty-IsValidMatcher
IsValidMatcher-get ((u, e) ∷ m) t v = elim (Bool-cases (u == t)) [
  | inl same ↦ rw (same, get_or_default, get) v.0
  | inr other ↦ rw (other, get_or_default, get) (IsValidMatcher-get m t v.1)
]

AllValid-insert :
    (m : TransferMatcher) (t : TokenId) (e : TokenTransferMatcher)
    → IsValidMatcher e
    → AllValid m
    → AllValid (insert m t e)
unfolding insert
AllValid-insert [] t e w v = (w, tt)
AllValid-insert ((u, x) ∷ m) t e w v = elim (Bool-cases (u == t)) [
  | inl same ↦ rw (same, insert) (w, v.1)
  | inr other ↦ rw (other, insert) (v.0, AllValid-insert m t e w v.1)
]

AllValid-remove : (m : TransferMatcher) (t : TokenId) → AllValid m → AllValid (remove m t)
unfolding remove
AllValid-remove [] t v = tt
AllValid-remove ((u, x) ∷ m) t v = elim (Bool-cases (u == t)) [
  | inl same ↦ rw (same, remove) (AllValid-remove m t v.1)
  | inr other ↦ rw (other, remove) (v.0, AllValid-remove m t v.1)
]

AllValid-store :
    (m : TransferMatcher) (t : TokenId) (e : TokenTransferMatcher)
    → IsValidMatcher e
    → AllValid m
    → AllValid (store m t e)
unfolding store
AllValid-store m t e w v = elim (Bool-cases (is_empty_matcher e)) [
  | inl gone ↦ rw (gone, store) (AllValid-remove m t v)
  | inr kept ↦ rw (kept, store) (AllValid-insert m t e w v)
]

-- What a change of one account and one token has done to the whole.
pub record Records (m : TransferMatcher) (owner : AccountId) (token : TokenId) (z : ℤ)
    (m' : TransferMatcher) (done : Bool) : Type 0 where
  pub consistent : IsConsistent m'
  pub recorded :
      done ≡ true
      → (a : AccountId) (u : TokenId)
      → net_of m' a u ≡ net_of m a u +ℤ (if (owner == a) && (token == u) then z else pos 0)

add_zero : (z : ℤ) → z +ℤ pos 0 ≡ z
add_zero z = omega int_laws

store-Records :
    (m : TransferMatcher) (owner : AccountId) (token : TokenId) (z : ℤ) (e : TokenTransferMatcher)
    (done : Bool)
    → IsConsistent m
    → Changed (get_or_default m token) owner z e done
    → Records m owner token z (store m token e) done
store-Records m owner token z e done c h = record {
  consistent = record {
    distinct = store-IsDistinct m token e c.distinct;
    matchers = AllValid-store m token e h.valid c.matchers;
    netted = λ t. elim (Bool-cases (token == t)) [
      | inl same ↦ rw (get_or_default-store m token t e, same) (h.netted (c.netted token))
      | inr other ↦ rw (get_or_default-store m token t e, other) (c.netted t)
    ];
  };
  recorded = λ d a u. elim (Bool-cases (token == u)) [
    | inl same ↦
        let e' : token ≡ u = (token_eq.beq_iff token u).0 same in
        rw (get_or_default-store m token u e, same)
          (subst (λ t. net e a ≡ net_of m a t +ℤ (if (owner == a) && true then z else pos 0)) e'
            (ground (arith, h.changed d a)))
    | inr other ↦
        rw (get_or_default-store m token u e, other) (ground (arith, add_zero (net_of m a u)))
  ];
}

-- A deposit is recorded for its account and token, and for no other.
deposit-Records :
    (m : TransferMatcher) (owner : AccountId) (token : TokenId) (x : ℕ)
    → IsConsistent m
    → (m' : TransferMatcher) × (done : Bool) × (with_token (λ e. deposit e owner x) m token
        ≡ some (m', done))
      × Records m owner token (pos x) m' done
unfolding with_token
deposit-Records m owner token x c =
    let (e, done, q, h) =
      deposit-Changed (get_or_default m token) owner x (IsValidMatcher-get m token c.matchers) in
    (store m token e, done, rw (q, with_token), store-Records m owner token (pos x) e done c h)

withdraw-Records :
    (m : TransferMatcher) (owner : AccountId) (token : TokenId) (x : ℕ)
    → IsConsistent m
    → (m' : TransferMatcher) × (done : Bool) × (with_token (λ e. withdraw e owner x) m token
        ≡ some (m', done))
      × Records m owner token (neg_ℕ x) m' done
unfolding with_token
withdraw-Records m owner token x c =
    let (e, done, q, h) =
      withdraw-Changed (get_or_default m token) owner x (IsValidMatcher-get m token c.matchers) in
    (store m token e, done, rw (q, with_token), store-Records m owner token (neg_ℕ x) e done c h)

some_pair :
    {a b : TransferMatcher} {x y : Bool}
    → ◌≡◌ {A = Option (TransferMatcher × Bool)} (some (a, x)) (some (b, y))
    → (a ≡ b) × (x ≡ y)
some_pair h = (cc, cc)

done-net_of :
    {m : TransferMatcher} {owner : AccountId} {token : TokenId} {z : ℤ} {m' : TransferMatcher}
    (n : TransferMatcher) (done : Bool)
    → ◌≡◌ {A = Option (TransferMatcher × Bool)} (some (n, done)) (some (m', true))
    → Records m owner token z n done
    → (a : AccountId) (u : TokenId)
    → IsConsistent m'
      × (net_of m' a u ≡ net_of m a u +ℤ (if (owner == a) && (token == u) then z else pos 0))
done-net_of n done q h a u =
    let (same, yes_done) = some_pair q in rw (← same) (h.consistent, h.recorded yes_done a u)

-- A deposit that is accepted keeps the matcher consistent, and adds its amount to the net change of
-- its account in its token, and of no other.
pub deposit-net_of :
    (m : TransferMatcher) (owner : AccountId) (token : TokenId) (x : ℕ) (a : AccountId)
    (u : TokenId) {m' : TransferMatcher}
    → IsConsistent m
    → with_token (λ e. deposit e owner x) m token ≡ some (m', true)
    → IsConsistent m'
      × (net_of m' a u ≡ net_of m a u +ℤ (if (owner == a) && (token == u) then pos x else pos 0))
deposit-net_of m owner token x a u c q =
    let (n, done, r, h) = deposit-Records m owner token x c in done-net_of n done (sym r ∙ q) h a u

-- A withdrawal that is accepted keeps the matcher consistent, and takes its amount from the net
-- change of its account in its token, and of no other.
pub withdraw-net_of :
    (m : TransferMatcher) (owner : AccountId) (token : TokenId) (x : ℕ) (a : AccountId)
    (u : TokenId) {m' : TransferMatcher}
    → IsConsistent m
    → with_token (λ e. withdraw e owner x) m token ≡ some (m', true)
    → IsConsistent m'
      × (net_of m' a u ≡ net_of m a u +ℤ (if (owner == a) && (token == u) then neg_ℕ x else pos 0))
withdraw-net_of m owner token x a u c q =
    let (n, done, r, h) = withdraw-Records m owner token x c in done-net_of n done (sym r ∙ q) h a u
