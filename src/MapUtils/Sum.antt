-- ===== src/MapUtils/Sum.antt =====
-- The sum of a weight over the entries of a map, under each write.
use intents.Prelude.{
  ℕ, ◌+◌, ◌≤◌, ◌≡◌, Option, none, some, [], ◌∷◌, Eq, Default, arith, inl, inr, Option-cases,
}
use intents.MapUtils.{Map, get, insert, remove, get_or_default, store}
use intents.MapUtils.Laws.{IsDistinct, remove-none}

module _ {ℓ κ} {K : Type ℓ} {V : Type κ} where
  abbrev pub sum_of : (V → ℕ) → Map K V → ℕ
  sum_of f [] = 0
  sum_of f ((k, v) ∷ m) = f v + sum_of f m

abbrev pub weight {κ} : {V : Type κ} → (V → ℕ) → Option V → ℕ
weight f none = 0
weight f (some v) = f v

module _ {ℓ κ} {K : Type ℓ} {V : Type κ} ⦃e : Eq K⦄ where
  pub sum_of-insert :
      (f : V → ℕ) (m : Map K V) (k : K) (v : V)
      → sum_of f (insert m k v) + weight f (get m k) ≡ sum_of f m + f v
  unfolding get insert
  sum_of-insert f [] k v = omega arith
  sum_of-insert f ((i, w) ∷ m) k v = ground (arith, sum_of-insert f m k v)

module _ {ℓ κ} {K : Type ℓ} {V : Type κ} ⦃e : Eq K⦄ ⦃d : Default V⦄ where
  sum_of-remove :
      (f : V → ℕ) (m : Map K V) (k : K)
      → IsDistinct m
      → sum_of f (remove m k) + weight f (get m k) ≡ sum_of f m
  unfolding get remove
  sum_of-remove f [] k h = omega arith
  sum_of-remove f ((i, w) ∷ m) k h =
      ground (arith, sum_of-remove f m k h.1, remove-none m k, e.beq_iff i k)

  pub sum_of-store :
      (f : V → ℕ) (m : Map K V) (k : K) (v : V)
      → IsDistinct m
      → f d.default ≡ 0
      → sum_of f (store m k v) + f (get_or_default m k) ≡ sum_of f m + f v
  unfolding store get_or_default
  sum_of-store f m k v h z = elim (Option-cases (get m k)) [
    | inl g ↦ ground (arith, d.is_default_iff v, sum_of-insert f m k v, sum_of-remove f m k h)
    | inr (w, g) ↦ ground (arith, d.is_default_iff v, sum_of-insert f m k v, sum_of-remove f m k h)
  ]

  -- One entry weighs at most the whole.
  pub weight-le-sum_of :
      (f : V → ℕ) (m : Map K V) (k : K) → f d.default ≡ 0 → f (get_or_default m k) ≤ sum_of f m
  unfolding get_or_default get
  weight-le-sum_of f [] k z = omega arith
  weight-le-sum_of f ((i, w) ∷ m) k z = ground (arith, weight-le-sum_of f m k z)
