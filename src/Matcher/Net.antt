-- ===== src/Matcher/Net.antt =====
-- Deposits and withdrawals of an account are netted: after any change one of the two is zero, and
-- their difference has moved by the amount.
use intents.Prelude.{
  Bool-cases, ℕ, ◌+◌, ◌-◌, ◌≡◌, refl, ◌≤◌, ◌<◌, ◌⊎◌, inl, inr, Bool, true, false, some, ◌==◌,
  if◌then◌else◌, nat_default, string_eq, arith, min,
}
use native.Mathlib.Decide.{dec_lt, ℕ_discrete}
use intents.NumUtils.{u128_max}
use intents.Amounts.{amount_for, add, sub}
use intents.Amounts.Laws.{IsValid, add_lem, sub_lem}
use intents.TokenId.{AccountId}
use intents.Matcher
use intents.Matcher.{AccountAmounts, grow, sub_add}

abbrev pub IsNetted : AccountAmounts → AccountAmounts → Type 0
IsNetted xs ys = (j : AccountId) → (amount_for xs j ≡ 0) ⊎ (amount_for ys j ≡ 0)

abbrev pub IsBounded : AccountAmounts → Type 0
IsBounded xs = (j : AccountId) → amount_for xs j ≤ u128_max

-- What `sub_add` did with the amounts of one account.
pub record Moved (subs adds : AccountAmounts) (owner : AccountId) (amount : ℕ)
    (subs' adds' : AccountAmounts) (done : Bool) : Type 0 where
  pub subs_valid : IsValid subs'
  pub adds_valid : IsValid adds'
  pub netted : IsNetted subs adds → IsNetted subs' adds'
  pub moved :
      done ≡ true
      → (j : AccountId)
      → amount_for adds' j + amount_for subs j
        ≡ amount_for adds j + amount_for subs' j + (if owner == j then amount else 0)
  pub full : done ≡ false → u128_max < amount_for adds owner + amount
  pub subs_fit : IsBounded subs → IsBounded subs'
  pub adds_fit : IsBounded adds → IsBounded adds'

grow-Moved :
    (subs adds : AccountAmounts) (owner : AccountId) (amount : ℕ)
    → IsValid subs
    → IsValid adds
    → amount_for subs owner ≡ 0
    → (adds' : AccountAmounts) × (done : Bool) × (grow subs adds owner amount
        ≡ some (subs, adds', done))
      × Moved subs adds owner amount subs adds' done
unfolding grow
grow-Moved subs adds owner amount v w z = (
  (add adds owner amount).0,
  Matcher.is_some (add adds owner amount).1,
  refl,
  record {
    subs_valid = v;
    adds_valid = (add_lem adds owner owner amount w).0;
    netted = λ h j. ground (arith, h j, add_lem adds owner j amount w, string_eq.beq_iff owner j);
    moved = λ d j. ground (arith, add_lem adds owner j amount w, string_eq.beq_iff owner j);
    full = λ d. ground (arith, add_lem adds owner owner amount w);
    subs_fit = λ h. h;
    adds_fit = λ h j. ground (arith, h j, add_lem adds owner j amount w, string_eq.beq_iff owner j);
  },
)

-- Taking `a` from the one side and putting the rest on the other.
Moved-trans :
    (subs adds subs' adds' : AccountAmounts) (owner : AccountId) (amount a : ℕ) (done : Bool)
    → a ≤ amount
    → a ≤ amount_for subs owner
    → ((j : AccountId)
        → amount_for subs' j
          ≡ (if owner == j then amount_for subs owner - a else amount_for subs j))
    → Moved subs' adds owner (amount - a) subs' adds' done
    → Moved subs adds owner amount subs' adds' done
Moved-trans subs adds subs' adds' owner amount a done le have reads m = record {
  subs_valid = m.subs_valid;
  adds_valid = m.adds_valid;
  netted = λ h. m.netted (λ j. ground (arith, h j, reads j, string_eq.beq_iff owner j));
  moved = λ d j. ground (arith, m.moved d j, reads j, string_eq.beq_iff owner j);
  full = λ d. ground (arith, m.full d);
  subs_fit = λ h. m.subs_fit (λ j. ground (arith, h j, reads j, string_eq.beq_iff owner j));
  adds_fit = m.adds_fit;
}

taken-Moved :
    (subs adds subs' : AccountAmounts) (owner : AccountId)
    → IsValid subs'
    → IsValid adds
    → Moved subs' adds owner 0 subs' adds true
taken-Moved subs adds subs' owner v w = record {
  subs_fit = λ h. h;
  adds_fit = λ h. h;
  subs_valid = v;
  adds_valid = w;
  netted = λ h. h;
  moved = λ d j. ground arith;
  full = λ d. cc;
}

-- `sub_add` never reaches its `unreachable!()`; it keeps both maps valid and netted, it moves the
-- difference of the two sides by the amount, and it refuses only an overflow.
pub sub_add_lem :
    (subs adds : AccountAmounts) (owner : AccountId) (amount : ℕ)
    → IsValid subs
    → IsValid adds
    → (subs' : AccountAmounts) × (adds' : AccountAmounts) × (done : Bool) × (sub_add subs adds owner
          amount
        ≡ some (subs', adds', done))
      × Moved subs adds owner amount subs' adds' done
unfolding sub_add
sub_add_lem subs adds owner amount v w = elim (dec_lt 0 (amount_for subs owner)) [
  | no z ↦
      let (adds', done, q, m) = grow-Moved subs adds owner amount v w (omega arith) in
      (subs, adds', done, ground arith, m)
  | yes p ↦
      let a = min (amount_for subs owner) amount in
      let subs' = (sub subs owner a).0 in
      let v' = (sub_lem subs owner owner a v).0 in
      let reads : (j : AccountId)
          → amount_for subs' j
            ≡ (if owner == j then amount_for subs owner - a else amount_for subs j) =
        λ j. ground (arith, sub_lem subs owner j a v) in
      elim (ℕ_discrete (amount - a) 0) [
        | yes z ↦ (
          subs',
          adds,
          true,
          ground (arith, sub_lem subs owner owner a v),
          Moved-trans subs adds subs' adds owner amount a true (omega arith) (omega arith) reads
              (rw z (taken-Moved subs adds subs' owner v' w)),
        )
        | no n ↦
            let (adds', done, q, m) =
              grow-Moved subs' adds owner (amount - a) v' w
                (ground (arith, reads owner, string_eq.beq_iff owner owner)) in
            (
              subs',
              adds',
              done,
              ground (arith, sub_lem subs owner owner a v),
              Moved-trans subs adds subs' adds' owner amount a done (omega arith) (omega arith)
                  reads m,
            )
      ]
]

-- On valid maps `sub_add` returns, never at its `unreachable!()`; both maps stay valid; and it either
-- moves the difference of the two sides by the amount, for this owner alone, or reports that the
-- owner's entry would not fit a `u128`.
pub sub_add-Moved :
    (subs adds : AccountAmounts) (owner : AccountId) (amount : ℕ) (j : AccountId)
    → IsValid subs
    → IsValid adds
    → (subs' : AccountAmounts) × (adds' : AccountAmounts) × (done : Bool) × (sub_add subs adds owner
          amount
        ≡ some (subs', adds', done))
      × IsValid subs'
      × IsValid adds'
      × (((done ≡ true)
            × (amount_for adds' j + amount_for subs j
                ≡ amount_for adds j + amount_for subs' j + (if owner == j then amount else 0)))
          ⊎ ((done ≡ false) × (u128_max < amount_for adds owner + amount)))
sub_add-Moved subs adds owner amount j v w =
    let (subs', adds', done, q, m) = sub_add_lem subs adds owner amount v w in
    (
      subs',
      adds',
      done,
      q,
      m.subs_valid,
      m.adds_valid,
      elim (Bool-cases done) [ inl d ↦ inl (d, m.moved d j) | inr d ↦ inr (d, m.full d) ],
    )
