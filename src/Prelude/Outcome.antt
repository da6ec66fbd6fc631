-- ===== src/Prelude/Outcome.antt =====
-- A fallible call of a contract, over the contract's own errors.
use mathlib.Core.Path.{◌≡◌, refl, ap}
use mathlib.Core.Logic.{◌⊎◌, inl, inr}
use mathlib.Core.Bool.{Bool, true, false}

-- `Result<A, E>`. A contract method panics on an error, and what it changed before is lost: only
-- success carries a state.
pub data Outcome {ε ℓ} (E : Type ε) (A : Type ℓ) : Type (ε ⊔ ℓ) where
  done : A → Outcome E A
  failed : E → Outcome E A

module _ {ε} {E : Type ε} where
  -- The `?` of a call whose value goes on to the next one.
  infixl 5 ◌>>?◌
  abbrev pub ◌>>?◌ {ℓ κ} :
      {A : Type ℓ} {B : Type κ} (r : Outcome E A) (next : A → Outcome E B) → Outcome E B
  done x >>? next = next x
  failed why >>? next = failed why

  -- `if test { return Err(why) }`
  abbrev pub fail_if {ℓ} : {A : Type ℓ} (test : Bool) (why : E) (next : Outcome E A) → Outcome E A
  fail_if true why next = failed why
  fail_if false why next = next

  -- A call that goes on after another succeeds only if both do.
  pub bind-done {ℓ κ} :
      {A : Type ℓ} {B : Type κ} {y : B} (r : Outcome E A) (next : A → Outcome E B)
      → (r >>? next) ≡ done y
      → (x : A) × (r ≡ done x) × (next x ≡ done y)
  bind-done (done x) next q = (x, refl, q)
  bind-done (failed why) next q = cc

  value_of {ℓ} : {A : Type ℓ} → A → Outcome E A → A
  value_of a (done b) = b
  value_of a (failed why) = a

  pub done-injective {ℓ} : {A : Type ℓ} (a b : A) → ◌≡◌ {A = Outcome E A} (done a) (done b) → a ≡ b
  unfolding value_of
  done-injective a b q = ap (value_of a) q

  pub fail_if-done {ℓ} :
      {A : Type ℓ} {y : A} (test : Bool) (why : E) (next : Outcome E A)
      → fail_if test why next ≡ done y
      → (test ≡ false) × (next ≡ done y)
  fail_if-done true why next q = cc
  fail_if-done false why next q = (refl, q)

pub Outcome-cases {ε ℓ} :
    {E : Type ε} {A : Type ℓ} (o : Outcome E A)
    → ((e : E) × (o ≡ failed e)) ⊎ ((a : A) × (o ≡ done a))
Outcome-cases (failed e) = inl (e, refl)
Outcome-cases (done a) = inr (a, refl)
