-- ===== src/Amounts/Laws.antt =====
-- One call of `add`, `sub` or `apply_delta`: what every key reads afterwards, and what is kept.
use native.Mathlib.Decide.{dec_le}
use intents.Prelude.{
  ◌⊎◌, ℕ, ◌+◌, ◌-◌, ◌≡◌, ◌<◌, ◌≤◌, Option, none, some, Eq, ◌==◌, Default, arith, if◌then◌else◌, inl,
  inr, Option-cases, nat_default,
}
use intents.Prelude.Int.{int_default}
use intents.NumUtils.{checked_add, checked_sub, u128_max}
use intents.MapUtils.{store}
use intents.MapUtils.Laws.{
  IsDistinct, IsClean, get_or_default-store, store-IsDistinct, store-IsClean, store-same,
}
use intents.Amounts.{Amounts, amount_for, checked_apply, add, sub, with_apply}

module _ {ℓ κ} {K : Type ℓ} {V : Type κ} ⦃e : Eq K⦄ ⦃d : Default V⦄ where
  -- The invariant of `Amounts`: no key twice, and no entry with the default amount.
  abbrev pub IsValid : Amounts K V → Type κ
  IsValid m = IsDistinct m × IsClean m

  -- The result is that of `f`, at the amount that the key had.
  pub checked_apply-result :
      (m : Amounts K V) (k : K) (f : V → Option V) → (checked_apply m k f).1 ≡ f (amount_for m k)
  unfolding checked_apply
  checked_apply-result m k f = elim (Option-cases (f (amount_for m k))) [
    | inl q ↦ rw (q, checked_apply)
    | inr (v, q) ↦ rw (q, checked_apply)
  ]

  -- On success the key has the new amount; every other key, and every key on failure, has its own.
  pub amount_for-checked_apply :
      (m : Amounts K V) (k j : K) (f : V → Option V)
      → amount_for (checked_apply m k f).0 j ≡ elim (f (amount_for m k)) [
        | none ↦ amount_for m j
        | some v ↦ if k == j then v else amount_for m j
      ]
  unfolding checked_apply
  amount_for-checked_apply m k j f = elim (Option-cases (f (amount_for m k))) [
    | inl q ↦
        rw (q, checked_apply)
          (ground (arith, get_or_default-store m k j (amount_for m k), e.beq_iff k j))
    | inr (v, q) ↦ rw (q, checked_apply) (get_or_default-store m k j v)
  ]

  pub checked_apply-IsValid :
      (m : Amounts K V) (k : K) (f : V → Option V) → IsValid m → IsValid (checked_apply m k f).0
  unfolding checked_apply
  checked_apply-IsValid m k f h = elim (Option-cases (f (amount_for m k))) [
    | inl q ↦ rw (q, checked_apply) (store-IsDistinct m k _ h.0, store-IsClean m k _ h.1)
    | inr (v, q) ↦ rw (q, checked_apply) (store-IsDistinct m k v h.0, store-IsClean m k v h.1)
  ]

  -- A failed call leaves the map as it was, and not only what can be read from it.
  checked_apply-none :
      (m : Amounts K V) (k : K) (f : V → Option V)
      → IsValid m
      → f (amount_for m k) ≡ none
      → (checked_apply m k f).0 ≡ m
  unfolding checked_apply
  checked_apply-none m k f h q = rw (q, checked_apply) (store-same m k h.1)

module _ {ℓ} {K : Type ℓ} ⦃e : Eq K⦄ where
  -- `add` on every branch: it adds the amount to its key and returns the new amount, or returns
  -- nothing and leaves the map alone, which is exactly when the sum exceeds `u128`.
  pub add_lem :
      (m : Amounts K ℕ) (k j : K) (amount : ℕ)
      → IsValid m
      → let (m', r) = add m k amount in
        IsValid m'
        × (amount_for m k + amount ≤ u128_max
            → (r ≡ some (amount_for m k + amount))
              × (amount_for m' j ≡ (if k == j then amount_for m k + amount else amount_for m j)))
        × (u128_max < amount_for m k + amount → (r ≡ none) × (m' ≡ m))
  unfolding add
  add_lem m k j amount h = (
    checked_apply-IsValid m k (λ a. checked_add a amount) h,
    λ fits. ground (
      arith,
      checked_apply-result m k (λ a. checked_add a amount),
      amount_for-checked_apply m k j (λ a. checked_add a amount),
    ),
    λ over. ground (
      arith,
      checked_apply-result m k (λ a. checked_add a amount),
      checked_apply-none m k (λ a. checked_add a amount) h,
    ),
  )

  -- `sub` on every branch: it takes the amount from its key, or returns nothing and leaves the map
  -- alone, which is exactly when the key has less.
  pub sub_lem :
      (m : Amounts K ℕ) (k j : K) (amount : ℕ)
      → IsValid m
      → let (m', r) = sub m k amount in
        IsValid m'
        × (amount ≤ amount_for m k
            → (r ≡ some (amount_for m k - amount))
              × (amount_for m' j ≡ (if k == j then amount_for m k - amount else amount_for m j)))
        × (amount_for m k < amount → (r ≡ none) × (m' ≡ m))
  unfolding sub
  sub_lem m k j amount h = (
    checked_apply-IsValid m k (λ a. checked_sub a amount) h,
    λ fits. ground (
      arith,
      checked_apply-result m k (λ a. checked_sub a amount),
      amount_for-checked_apply m k j (λ a. checked_sub a amount),
    ),
    λ over. ground (
      arith,
      checked_apply-result m k (λ a. checked_sub a amount),
      checked_apply-none m k (λ a. checked_sub a amount) h,
    ),
  )

  -- `add` keeps a valid map valid, and either adds the amount to its key and to no other, or
  -- returns nothing and leaves the map as it was, where the sum does not fit a `u128`.
  add-reads :
      (m : Amounts K ℕ) (k j : K) (amount : ℕ)
      → IsValid m
      → let (m', r) = add m k amount in
        IsValid m'
        × (((r ≡ some (amount_for m k + amount))
              × (amount_for m' j ≡ (if k == j then amount_for m k + amount else amount_for m j)))
            ⊎ ((u128_max < amount_for m k + amount) × (r ≡ none) × (m' ≡ m)))
  add-reads m k j amount h =
      let (v, fits, over) = add_lem m k j amount h in
      (
        v,
        elim (dec_le (amount_for m k + amount) u128_max) [
          | yes le ↦ inl (fits le)
          | no gt ↦
              let lt : u128_max < amount_for m k + amount = omega arith in
              let (q, same) = over lt in inr (lt, q, same)
        ],
      )

  -- `sub` keeps a valid map valid, and either takes the amount from its key and from no other, or
  -- returns nothing and leaves the map as it was, where the key has less.
  sub-reads :
      (m : Amounts K ℕ) (k j : K) (amount : ℕ)
      → IsValid m
      → let (m', r) = sub m k amount in
        IsValid m'
        × (((amount ≤ amount_for m k)
              × (r ≡ some (amount_for m k - amount))
              × (amount_for m' j ≡ (if k == j then amount_for m k - amount else amount_for m j)))
            ⊎ ((amount_for m k < amount) × (r ≡ none) × (m' ≡ m)))
  sub-reads m k j amount h =
      let (v, fits, over) = sub_lem m k j amount h in
      (
        v,
        elim (dec_le amount (amount_for m k)) [
          | yes le ↦ let (q, reads) = fits le in inl (le, q, reads)
          | no gt ↦
              let lt : amount_for m k < amount = omega arith in
              let (q, same) = over lt in inr (lt, q, same)
        ],
      )

module _ {ℓ κ} {K : Type ℓ} {V : Type κ} ⦃e : Eq K⦄ ⦃d : Default V⦄ where
  -- Inversion of the methods that consume the map.
  pub with_apply-some :
      (m : Amounts K V) (k : K) (f : V → Option V) {m' : Amounts K V}
      → with_apply m k f ≡ some m'
      → (v : V) × (f (amount_for m k) ≡ some v) × (m' ≡ store m k v)
  unfolding checked_apply
  with_apply-some m k f h = elim (Option-cases (f (amount_for m k))) [
    | inl q ↦ ground arith
    | inr (v, q) ↦ (v, q, ground arith)
  ]

  pub with_apply_enough :
      (m : Amounts K V) (k : K) (f : V → Option V) {v : V}
      → f (amount_for m k) ≡ some v
      → with_apply m k f ≡ some (store m k v)
  unfolding checked_apply
  with_apply_enough m k f q = ground arith
