-- ===== src/Amounts.antt =====
-- contracts/defuse/core/src/amounts.rs: `Amounts`, a map from keys to amounts, where a missing key
-- stands for zero.
pub mod Laws
pub mod Many
use intents.Prelude.{
  ℕ, ◌+◌, Bool, Option, none, some, List, [], ◌∷◌, Eq, ◌==◌, Default, if◌then◌else◌, nat_default,
}
use intents.Prelude.Int.{ℤ, int_default}
use intents.NumUtils.{checked_add, checked_sub, checked_add_i128}
use intents.MapUtils.{Map, get_or_default, store}

abbrev pub Amounts {ℓ κ} : Type ℓ → Type κ → Type (ℓ ⊔ κ)
Amounts K V = Map K V

module _ {ℓ κ} {K : Type ℓ} {V : Type κ} ⦃e : Eq K⦄ ⦃d : Default V⦄ where
  abbrev pub amount_for : Amounts K V → K → V
  amount_for m k = get_or_default m k

  -- The entry is dropped on both paths: with the new value, or with the old one where `f` fails.
  unfoldable pub checked_apply : Amounts K V → K → (V → Option V) → Amounts K V × Option V
  checked_apply m k f = elim (f (amount_for m k)) [
    | none ↦ (store m k (amount_for m k), none)
    | some v ↦ (store m k v, some v)
  ]

  -- The methods that consume the map and return it: `self.add(..)?; Some(self)` and the like.
  abbrev pub with_apply : Amounts K V → K → (V → Option V) → Option (Amounts K V)
  with_apply m k f = let (m', r) = checked_apply m k f in elim r [ none ↦ none | some _ ↦ some m' ]

module _ {ℓ} {K : Type ℓ} ⦃e : Eq K⦄ where
  unfoldable pub add : Amounts K ℕ → K → ℕ → Amounts K ℕ × Option ℕ
  unfolding checked_apply
  add m k amount = checked_apply m k (λ a. checked_add a amount)

  unfoldable pub sub : Amounts K ℕ → K → ℕ → Amounts K ℕ × Option ℕ
  unfolding checked_apply
  sub m k amount = checked_apply m k (λ a. checked_sub a amount)

  unfoldable pub apply_delta : Amounts K ℤ → K → ℤ → Amounts K ℤ × Option ℤ
  unfolding checked_apply
  apply_delta m k delta = checked_apply m k (λ a. checked_add_i128 a delta)

  unfoldable pub with_apply_delta : Amounts K ℤ → K → ℤ → Option (Amounts K ℤ)
  unfolding checked_apply
  with_apply_delta m k delta = with_apply m k (λ a. checked_add_i128 a delta)

  unfoldable pub with_add : Amounts K ℕ → K → ℕ → Option (Amounts K ℕ)
  unfolding checked_apply
  with_add m k amount = with_apply m k (λ a. checked_add a amount)

  unfoldable pub with_sub : Amounts K ℕ → K → ℕ → Option (Amounts K ℕ)
  unfolding checked_apply
  with_sub m k amount = with_apply m k (λ a. checked_sub a amount)

  -- The `try_fold`s.
  unfoldable pub with_add_many : Amounts K ℕ → List (K × ℕ) → Option (Amounts K ℕ)
  unfolding with_add
  with_add_many m [] = some m
  with_add_many m ((k, amount) ∷ l) = elim (with_add m k amount) [
    | none ↦ none
    | some m' ↦ with_add_many m' l
  ]

  unfoldable pub with_sub_many : Amounts K ℕ → List (K × ℕ) → Option (Amounts K ℕ)
  unfolding with_sub
  with_sub_many m [] = some m
  with_sub_many m ((k, amount) ∷ l) = elim (with_sub m k amount) [
    | none ↦ none
    | some m' ↦ with_sub_many m' l
  ]

  unfoldable pub with_apply_deltas : Amounts K ℤ → List (K × ℤ) → Option (Amounts K ℤ)
  unfolding with_apply_delta
  with_apply_deltas m [] = some m
  with_apply_deltas m ((k, delta) ∷ l) = elim (with_apply_delta m k delta) [
    | none ↦ none
    | some m' ↦ with_apply_deltas m' l
  ]
