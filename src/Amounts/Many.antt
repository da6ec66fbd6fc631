-- ===== src/Amounts/Many.antt =====
-- The folds over many changes: each key ends with its own total, whatever the order.
use intents.Prelude.{
  ℕ, ◌+◌, ◌≡◌, refl, sym, ◌∙◌, ◌≤◌, ◌↔◌, true, some, List, [], ◌∷◌, Eq, ◌==◌, arith, if◌then◌else◌,
  inl, inr, Option-cases, nat_default, beq_refl,
}
use intents.Prelude.Int.{ℤ, pos, ◌+ℤ◌, int_default, int_laws}
use intents.NumUtils.{checked_add, checked_add_i128, u128_max}
use intents.MapUtils.{store, is_empty, get, get_or_default}
use intents.MapUtils.Laws.{get_or_default-store, store-IsDistinct, store-IsClean, is_empty_iff}
use intents.Amounts.{
  Amounts, amount_for, with_add, with_add_many, with_apply_delta, with_apply_deltas,
}
use intents.Amounts.Laws.{IsValid, with_apply-some, with_apply_enough}

module _ {ℓ} {K : Type ℓ} ⦃e : Eq K⦄ where
  -- What a list of changes adds to one key.
  abbrev pub sum_at : K → List (K × ℕ) → ℕ
  sum_at k [] = 0
  sum_at k ((j, a) ∷ l) = (if j == k then a else 0) + sum_at k l

  abbrev pub delta_at : K → List (K × ℤ) → ℤ
  delta_at k [] = pos 0
  delta_at k ((j, a) ∷ l) = (if j == k then a else pos 0) +ℤ delta_at k l

  with_apply_delta-step :
      (m : Amounts K ℤ) (j : K) (a : ℤ) {m' : Amounts K ℤ}
      → IsValid m
      → with_apply_delta m j a ≡ some m'
      → IsValid m'
        × ((k : K) → amount_for m' k ≡ (if j == k then amount_for m k +ℤ a else amount_for m k))
  unfolding with_apply_delta
  with_apply_delta-step m j a v h =
      let (w, q, s) = with_apply-some m j (λ b. checked_add_i128 b a) h in
      rw s (
        (store-IsDistinct m j w v.0, store-IsClean m j w v.1),
        λ k. ground (arith, get_or_default-store m j k w, e.beq_iff j k),
      )

  -- Whenever the deltas can be applied, the map stays valid and each key ends with its own total.
  with_apply_deltas_lem :
      (m : Amounts K ℤ) (l : List (K × ℤ)) {m' : Amounts K ℤ}
      → IsValid m
      → with_apply_deltas m l ≡ some m'
      → IsValid m' × ((k : K) → amount_for m' k ≡ amount_for m k +ℤ delta_at k l)
  unfolding with_apply_deltas
  with_apply_deltas_lem m [] {m'} v h = let same : m' ≡ m = cc in rw same (v, λ k. omega int_laws)
  with_apply_deltas_lem m ((j, a) ∷ l) v h = elim (Option-cases (with_apply_delta m j a)) [
    | inl q ↦ cc (rw (q, with_apply_deltas) at h)
    | inr (n, q) ↦
        let (v', reads) = with_apply_delta-step m j a v q in
        let (w, all) = with_apply_deltas_lem n l v' (rw (q, with_apply_deltas) at h) in
        (w, λ k. grind (int_laws, all k, reads k))
  ]

  zero_add_delta : (k : K) (l : List (K × ℤ)) → amount_for [] k +ℤ delta_at k l ≡ delta_at k l
  unfolding get_or_default get
  zero_add_delta k l = omega int_laws

  -- From the empty map: the deltas leave no entry exactly when they cancel for every key.
  with_apply_deltas-is_empty :
      (l : List (K × ℤ)) {m : Amounts K ℤ}
      → with_apply_deltas [] l ≡ some m
      → (is_empty m ≡ true) ↔ ((k : K) → delta_at k l ≡ pos 0)
  with_apply_deltas-is_empty l {m} h =
      let (v, reads) = with_apply_deltas_lem [] l (tt, tt) h in
      let iff = is_empty_iff m v.1 in
      let total : (k : K) → amount_for m k ≡ delta_at k l = λ k. reads k ∙ zero_add_delta k l in
      (λ q k. sym (total k) ∙ iff.0 q k, λ all. iff.1 (λ k. total k ∙ all k))

  with_add-step :
      (m : Amounts K ℕ) (j : K) (a : ℕ)
      → IsValid m
      → amount_for m j + a ≤ u128_max
      → (m' : Amounts K ℕ) × (with_add m j a ≡ some m')
        × IsValid m'
        × ((k : K) → amount_for m' k ≡ (if j == k then amount_for m k + a else amount_for m k))
  unfolding with_add
  with_add-step m j a v h = (
    store m j (amount_for m j + a),
    with_apply_enough m j (λ b. checked_add b a) (ground arith),
    (store-IsDistinct m j _ v.0, store-IsClean m j _ v.1),
    λ k. ground (arith, get_or_default-store m j k (amount_for m j + a), e.beq_iff j k),
  )

  -- If no key ends above `u128`, adding a whole list succeeds, and each key ends with its total.
  with_add_many_lem :
      (m : Amounts K ℕ) (l : List (K × ℕ))
      → IsValid m
      → ((k : K) → amount_for m k + sum_at k l ≤ u128_max)
      → (m' : Amounts K ℕ) × (with_add_many m l ≡ some m')
        × IsValid m'
        × ((k : K) → amount_for m' k ≡ amount_for m k + sum_at k l)
  unfolding with_add_many
  with_add_many_lem m [] v h = (m, refl, v, λ k. omega arith)
  with_add_many_lem m ((j, a) ∷ l) v h =
      let (n, q, v', reads) = with_add-step m j a v (ground (arith, h j, beq_refl j)) in
      let (m', q', w, all) = with_add_many_lem n l v' (λ k. ground (arith, h k, reads k)) in
      (m', ground arith, w, λ k. ground (arith, all k, reads k))
