-- ===== src/MapUtils/Laws.antt =====
-- Reading a map after a write, and the invariants that every write keeps.
use intents.Prelude.{
  ◌≡◌, refl, ◌≢◌, true, false, none, some, [], ◌∷◌, Eq, ◌==◌, Default, arith, if◌then◌else◌,
  beq_refl, ◌↔◌, inl, inr, Option-cases,
}
use intents.MapUtils.{Map, get, insert, remove, get_or_default, store, is_empty}

module _ {ℓ κ} {K : Type ℓ} {V : Type κ} ⦃e : Eq K⦄ where
  pub get-insert :
      (m : Map K V) (k j : K) (v : V) → get (insert m k v) j ≡ (if k == j then some v else get m j)
  unfolding get insert
  get-insert [] k j v = refl
  get-insert ((i, w) ∷ m) k j v =
      ground (arith, e.beq_iff k j, e.beq_iff i k, e.beq_iff i j, get-insert m k j v)

  pub get-remove : (m : Map K V) (k j : K) → get (remove m k) j ≡ (if k == j then none else get m j)
  unfolding get remove
  get-remove [] k j = ground arith
  get-remove ((i, w) ∷ m) k j =
      ground (arith, e.beq_iff k j, e.beq_iff i k, e.beq_iff i j, get-remove m k j)

  -- Each key stands in the map once.
  abbrev pub IsDistinct : Map K V → Type κ
  IsDistinct [] = Unit
  IsDistinct ((k, v) ∷ m) = (get m k ≡ none) × IsDistinct m

  insert-IsDistinct : (m : Map K V) (k : K) (v : V) → IsDistinct m → IsDistinct (insert m k v)
  unfolding get insert
  insert-IsDistinct [] k v h = (refl, tt)
  insert-IsDistinct ((i, w) ∷ m) k v h =
      ground (arith, insert-IsDistinct m k v h.1, get-insert m k i v, e.beq_iff i k, e.beq_iff k i)

  remove-IsDistinct : (m : Map K V) (k : K) → IsDistinct m → IsDistinct (remove m k)
  unfolding get remove
  remove-IsDistinct [] k h = tt
  remove-IsDistinct ((i, w) ∷ m) k h =
      ground (arith, remove-IsDistinct m k h.1, get-remove m k i, e.beq_iff i k, e.beq_iff k i)

module _ {ℓ κ} {K : Type ℓ} {V : Type κ} ⦃e : Eq K⦄ ⦃d : Default V⦄ where
  -- Reading after the drop of an entry: the key has its new value, the default one included.
  pub get_or_default-store :
      (m : Map K V) (k j : K) (v : V)
      → get_or_default (store m k v) j ≡ (if k == j then v else get_or_default m j)
  unfolding get_or_default store
  get_or_default-store m k j v =
      ground (arith, get-insert m k j v, get-remove m k j, d.is_default_iff v)

  get_or_default-store_self : (m : Map K V) (k : K) (v : V) → get_or_default (store m k v) k ≡ v
  get_or_default-store_self m k v = ground (arith, get_or_default-store m k k v, beq_refl k)

  pub store-IsDistinct : (m : Map K V) (k : K) (v : V) → IsDistinct m → IsDistinct (store m k v)
  unfolding store
  store-IsDistinct m k v h = ground (arith, insert-IsDistinct m k v h, remove-IsDistinct m k h)

  -- No entry holds the default value: what the drop of an entry takes care of.
  abbrev pub IsClean : Map K V → Type 0
  IsClean [] = Unit
  IsClean ((k, v) ∷ m) = (d.is_default v ≡ false) × IsClean m

  insert-IsClean :
      (m : Map K V) (k : K) (v : V) → d.is_default v ≡ false → IsClean m → IsClean (insert m k v)
  unfolding insert
  insert-IsClean [] k v n h = (n, tt)
  insert-IsClean ((i, w) ∷ m) k v n h = ground (arith, insert-IsClean m k v n h.1)

  remove-IsClean : (m : Map K V) (k : K) → IsClean m → IsClean (remove m k)
  unfolding remove
  remove-IsClean [] k h = tt
  remove-IsClean ((i, w) ∷ m) k h = ground (arith, remove-IsClean m k h.1)

  pub store-IsClean : (m : Map K V) (k : K) (v : V) → IsClean m → IsClean (store m k v)
  unfolding store
  store-IsClean m k v h = ground (arith, insert-IsClean m k v, remove-IsClean m k h)

  -- An entry of a clean map reads as something else than the default.
  IsClean-get : (m : Map K V) (k : K) (v : V) → IsClean m → get m k ≡ some v → v ≢ d.default
  unfolding get
  IsClean-get [] k v h g = cc
  IsClean-get ((i, w) ∷ m) k v h g = ground (arith, IsClean-get m k v h.1, d.is_default_iff w)

  pub remove-none : (m : Map K V) (k : K) → get m k ≡ none → remove m k ≡ m
  unfolding get remove
  remove-none [] k g = refl
  remove-none ((i, w) ∷ m) k g = ground (arith, remove-none m k)

  insert-same : (m : Map K V) (k : K) (v : V) → get m k ≡ some v → insert m k v ≡ m
  unfolding get insert
  insert-same [] k v g = cc
  insert-same ((i, w) ∷ m) k v g = ground (arith, insert-same m k v, e.beq_iff i k)

  -- Dropping an entry that was only read leaves the map as it was.
  pub store-same : (m : Map K V) (k : K) → IsClean m → store m k (get_or_default m k) ≡ m
  unfolding store get_or_default
  store-same m k h = elim (Option-cases (get m k)) [
    | inl g ↦ ground (arith, remove-none m k g, d.is_default_iff d.default)
    | inr (v, g) ↦ ground (arith, insert-same m k v g, IsClean-get m k v h g, d.is_default_iff v)
  ]

  -- A clean map is empty exactly when every key reads as the default.
  pub is_empty_iff :
      (m : Map K V) → IsClean m → (is_empty m ≡ true) ↔ ((k : K) → get_or_default m k ≡ d.default)
  unfolding get_or_default get
  is_empty_iff [] h = (λ _ k. refl, λ _. refl)
  is_empty_iff ((i, w) ∷ m) h =
      (λ q. cc, λ all. ground (arith, all i, beq_refl i, d.is_default_iff w))
