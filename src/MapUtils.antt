-- ===== src/MapUtils.antt =====
-- crates/map-utils: maps, and the entries of crates/map-utils/src/cleanup.rs that vanish from the
-- map when they become the default value.
-- A `HashMap` or a `BTreeMap` is the list of its entries, each key once (`IsDistinct`); the order
-- of the list stands for the order in which the source happens to iterate.
pub mod Laws
pub mod Sum
use intents.Prelude.{
  ℕ, Bool, true, false, Option, none, some, List, [], ◌∷◌, Eq, ◌==◌, Default, if◌then◌else◌,
}

abbrev pub Map {ℓ κ} : Type ℓ → Type κ → Type (ℓ ⊔ κ)
Map K V = List (K × V)

module _ {ℓ κ} {K : Type ℓ} {V : Type κ} where
  -- `is_empty`
  abbrev pub is_empty : Map K V → Bool
  is_empty [] = true
  is_empty (x ∷ m) = false

module _ {ℓ κ} {K : Type ℓ} {V : Type κ} ⦃e : Eq K⦄ where
  unfoldable pub get : Map K V → K → Option V
  get [] k = none
  get ((j, v) ∷ m) k = if j == k then some v else get m k

  unfoldable pub insert : Map K V → K → V → Map K V
  insert [] k v = (k, v) ∷ []
  insert ((j, w) ∷ m) k v = if j == k then (k, v) ∷ m else (j, w) ∷ insert m k v

  unfoldable pub remove : Map K V → K → Map K V
  remove [] k = []
  remove ((j, w) ∷ m) k = if j == k then remove m k else (j, w) ∷ remove m k

  abbrev pub contains : Map K V → K → Bool
  contains m k = elim (get m k) [ none ↦ false | some _ ↦ true ]

module _ {ℓ κ} {K : Type ℓ} {V : Type κ} ⦃e : Eq K⦄ ⦃d : Default V⦄ where
  -- what `*map.entry_or_default(k)` reads
  unfoldable pub get_or_default : Map K V → K → V
  get_or_default m k = elim (get m k) [ none ↦ d.default | some v ↦ v ]

  -- The drop of an entry of `entry_or_default(k)` that holds `v`: it is removed, or never inserted,
  -- if `v` is the default.
  unfoldable pub store : Map K V → K → V → Map K V
  store m k v = if d.is_default v then remove m k else insert m k v
