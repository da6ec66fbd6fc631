-- ===== src/Salts.antt =====
-- contracts/defuse/src/contract/state/salt_registry.rs and contract/salts.rs: the salts of nonces. A
-- salt is its four bytes as a number. The seed of the block and the digest are parameters.
pub mod Laws
use intents.Prelude.{
  ℕ, zero, suc, ◌+◌, ◌*◌, Bool, true, false, not, ◌||◌, Option, none, some, List, [], ◌∷◌, ◌++◌,
  nat_beq, nat_eq, if◌then◌else◌,
}
use intents.MapUtils.{Map, get, insert, contains}
use intents.Error.{Result, ok, err, or_undone, ◌>>=◌, salt_generation_failed, invalid_salt}

pub record SaltRegistry : Type 0 where
  pub previous : Map ℕ Bool
  pub current : ℕ

-- The first four bytes of a digest.
unfoldable pub salt_of : List ℕ → ℕ
salt_of (a ∷ b ∷ c ∷ d ∷ rest) = ((a * 256 + b) * 256 + c) * 256 + d
salt_of _ = 0

unfoldable pub is_used : SaltRegistry → ℕ → Bool
is_used r salt = nat_beq salt r.current || contains r.previous salt

unfoldable pub is_valid : SaltRegistry → ℕ → Bool
is_valid r salt = nat_beq salt r.current || elim (get r.previous salt) [ none ↦ false | some v ↦ v ]

module _ (sha256 : List ℕ → List ℕ) where
  unfoldable pub derive_salt : List ℕ → ℕ → ℕ
  unfolding salt_of
  derive_salt seed num = salt_of (sha256 (seed ++ num ∷ []))

  unfoldable pub new : List ℕ → SaltRegistry
  unfolding derive_salt
  new seed = record { previous = []; current = derive_salt seed 0 }

  -- `(num..).take(rounds).map(derive_salt).find(unused)`
  unfoldable pub find_unused : SaltRegistry → List ℕ → ℕ → ℕ → Option ℕ
  unfolding derive_salt is_used
  find_unused r seed num zero = none
  find_unused r seed num (suc rounds) =
      let rest = find_unused r seed (num + 1) rounds in
      if not (is_used r (derive_salt seed num)) then some (derive_salt seed num) else rest

  unfoldable pub derive_next_salt : SaltRegistry → List ℕ → Result ℕ
  unfolding find_unused
  derive_next_salt r seed = elim (find_unused r seed 0 256) [
    | none ↦ err salt_generation_failed
    | some salt ↦ ok salt
  ]

  -- The new registry, and the salt that was the current one.
  unfoldable pub set_new : SaltRegistry → List ℕ → Result (SaltRegistry × ℕ)
  unfolding derive_next_salt
  set_new r seed = derive_next_salt r seed >>= λ salt.
      ok (record { previous = insert r.previous r.current true; current = salt }, r.current)

  -- `get_mut(&salt).map(|v| *v = false)`
  unfoldable pub deactivate : SaltRegistry → ℕ → Result SaltRegistry
  deactivate r salt = elim (get r.previous salt) [
    | none ↦ err invalid_salt
    | some _ ↦ ok (record { previous = insert r.previous salt false; current = r.current })
  ]

  unfoldable pub invalidate : SaltRegistry → List ℕ → ℕ → Result SaltRegistry
  unfolding set_new deactivate
  invalidate r seed salt =
      if nat_beq salt r.current
      then (set_new r seed >>= λ done. deactivate done.0 salt)
      else deactivate r salt

  -- The `filter` of `invalidate_salts`. An error leaves the registry as it was: one of `set_new` comes
  -- before any change, and what `set_new` has just put into `previous` is there.
  unfoldable pub invalidate_salts : SaltRegistry → List ℕ → List ℕ → SaltRegistry
  unfolding invalidate
  invalidate_salts r seed [] = r
  invalidate_salts r seed (salt ∷ salts) =
      invalidate_salts (or_undone r (invalidate r seed salt)) seed salts

  -- One that panics is undone.
  unfoldable pub update_current_salt : SaltRegistry → List ℕ → Result SaltRegistry
  unfolding set_new
  update_current_salt r seed = set_new r seed >>= λ done. ok done.0

-- The calls of a salt manager, each in a block with its seed.
pub data SaltCall : Type 0 where
  update : List ℕ → SaltCall
  invalidation : List ℕ → List ℕ → SaltCall

module _ (sha256 : List ℕ → List ℕ) where
  unfoldable pub serve_salt : SaltRegistry → SaltCall → SaltRegistry
  unfolding update_current_salt invalidate_salts
  serve_salt r (update seed) = or_undone r (update_current_salt sha256 r seed)
  serve_salt r (invalidation seed salts) = invalidate_salts sha256 r seed salts

  unfoldable pub serve_salts : SaltRegistry → List SaltCall → SaltRegistry
  unfolding serve_salt
  serve_salts r [] = r
  serve_salts r (call ∷ calls) = serve_salts (serve_salt r call) calls
