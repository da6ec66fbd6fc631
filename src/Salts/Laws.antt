-- ===== src/Salts/Laws.antt =====
-- Salts that were invalidated, and what is called afterwards.
use intents.Prelude.{
  ℕ, zero, suc, ◌+◌, ◌≡◌, refl, true, false, none, some, List, [], ◌∷◌, nat_beq, nat_eq,
  nat_beq_iff, arith, inl, inr, Bool-cases, Option-cases,
}
use intents.MapUtils.{get, insert}
use intents.MapUtils.Laws.{get-insert}
use intents.Error.{ok, or_undone, or_undone-keeps, >>=-returns}
use intents.Salts.{
  SaltRegistry, is_used, is_valid, find_unused, derive_salt, derive_next_salt, set_new, deactivate,
  invalidate, update_current_salt, invalidate_salts, SaltCall, update, invalidation, serve_salt,
  serve_salts,
}

-- The current salt is not among the previous ones.
pub record IsRegistry (r : SaltRegistry) : Type 0 where
  pub apart : get r.previous r.current ≡ none

-- A salt that was invalidated.
pub record IsRetired (r : SaltRegistry) (salt : ℕ) : Type 0 where
  pub kept : get r.previous salt ≡ some false
  pub passed : nat_beq salt r.current ≡ false

IsRetired-not_valid : (r : SaltRegistry) (salt : ℕ) → IsRetired r salt → is_valid r salt ≡ false
unfolding is_valid
IsRetired-not_valid r salt h = rw (h.passed, h.kept) refl

module _ (sha256 : List ℕ → List ℕ) where
  find_unused-unused :
      (r : SaltRegistry) (seed : List ℕ) (num rounds : ℕ) {salt : ℕ}
      → find_unused sha256 r seed num rounds ≡ some salt
      → is_used r salt ≡ false
  unfolding find_unused
  find_unused-unused r seed num zero q = cc
  find_unused-unused r seed num (suc rounds) q =
      elim (Bool-cases (is_used r (derive_salt sha256 seed num))) [
        | inl used ↦ find_unused-unused r seed (num + 1) rounds (rw used at q)
        | inr fresh ↦ ground arith
      ]

  derive_next_salt-unused :
      (r : SaltRegistry) (seed : List ℕ) {salt : ℕ}
      → derive_next_salt sha256 r seed ≡ ok salt
      → is_used r salt ≡ false
  unfolding derive_next_salt
  derive_next_salt-unused r seed q = elim (Option-cases (find_unused sha256 r seed 0 256)) [
    | inl e ↦ cc
    | inr (found, e) ↦ ground (arith, find_unused-unused r seed 0 256 e)
  ]

  not_used :
      (r : SaltRegistry) (salt : ℕ)
      → is_used r salt ≡ false
      → (nat_beq salt r.current ≡ false) × (get r.previous salt ≡ none)
  unfolding is_used
  not_used r salt h = ground arith

  -- What `set_new` leaves.
  pub record Rotated (r r' : SaltRegistry) : Type 0 where
    pub fresh : is_used r r'.current ≡ false
    pub replaced : r'.previous ≡ insert r.previous r.current true

  set_new-Rotated :
      (r : SaltRegistry) (seed : List ℕ) {done : SaltRegistry × ℕ}
      → set_new sha256 r seed ≡ ok done
      → Rotated r done.0
  unfolding set_new
  set_new-Rotated r seed {done} q =
      let (salt, q1, q2) = >>=-returns _ (derive_next_salt sha256 r seed) q in
      let same : done.0 ≡ record { previous = insert r.previous r.current true; current = salt } =
        cc in
      rw same (record { fresh = derive_next_salt-unused r seed q1; replaced = refl })

  Rotated-IsRegistry : (r r' : SaltRegistry) → Rotated r r' → IsRegistry r'
  Rotated-IsRegistry r r' h = record {
    apart = ground (
      arith,
      h.replaced,
      not_used r r'.current h.fresh,
      get-insert r.previous r.current r'.current true,
    );
  }

  Rotated-IsRetired :
      (r r' : SaltRegistry) (salt : ℕ) → Rotated r r' → IsRetired r salt → IsRetired r' salt
  Rotated-IsRetired r r' salt h retired = record {
    kept = ground (
      arith,
      h.replaced,
      retired.kept,
      retired.passed,
      get-insert r.previous r.current salt true,
    );
    passed =
        ground (arith, not_used r r'.current h.fresh, retired.kept, nat_beq_iff salt r'.current);
  }

  -- After a `deactivate` that succeeds: this salt is retired, and what was retired still is.
  deactivate-IsRetired :
      (r : SaltRegistry) (salt : ℕ) {r' : SaltRegistry}
      → IsRegistry r
      → deactivate sha256 r salt ≡ ok r'
      → IsRegistry r' × IsRetired r' salt × ((other : ℕ) → IsRetired r other → IsRetired r' other)
  unfolding deactivate
  deactivate-IsRetired r salt {r'} h q = elim (Option-cases (get r.previous salt)) [
    | inl e ↦ cc
    | inr (v, e) ↦
        let same : r' ≡ record { previous = insert r.previous salt false; current = r.current } =
          ground arith in
        rw same (
          record { apart = ground (arith, h.apart, e, get-insert r.previous salt r.current false) },
          record {
            kept = ground (arith, get-insert r.previous salt salt false);
            passed = ground (arith, h.apart, e, nat_beq_iff salt r.current);
          },
          λ other retired. record {
            kept = ground (arith, retired.kept, get-insert r.previous salt other false);
            passed = retired.passed;
          },
        )
  ]

  invalidate-IsRetired :
      (r : SaltRegistry) (seed : List ℕ) (salt : ℕ) {r' : SaltRegistry}
      → IsRegistry r
      → invalidate sha256 r seed salt ≡ ok r'
      → IsRegistry r' × IsRetired r' salt × ((other : ℕ) → IsRetired r other → IsRetired r' other)
  unfolding invalidate
  invalidate-IsRetired r seed salt h q = elim (Bool-cases (nat_beq salt r.current)) [
    | inl now ↦
        let (done, q1, q2) =
          >>=-returns (λ done. deactivate sha256 done.0 salt) (set_new sha256 r seed)
            (rw now at q) in
        let rotated = set_new-Rotated r seed q1 in
        let (a, b, c) = deactivate-IsRetired done.0 salt (Rotated-IsRegistry r done.0 rotated) q2 in
        (a, b, λ other retired. c other (Rotated-IsRetired r done.0 other rotated retired))
    | inr other ↦ deactivate-IsRetired r salt h (rw other at q)
  ]

  -- A good registry in which a salt is retired.
  Kept : ℕ → SaltRegistry → Type 0
  Kept salt r = IsRegistry r × IsRetired r salt

  invalidate_salts-Kept :
      (r : SaltRegistry) (seed salts : List ℕ) (other : ℕ)
      → Kept other r
      → Kept other (invalidate_salts sha256 r seed salts)
  unfolding invalidate_salts Kept
  invalidate_salts-Kept r seed [] other h = h
  invalidate_salts-Kept r seed (salt ∷ salts) other h =
      invalidate_salts-Kept (or_undone r (invalidate sha256 r seed salt)) seed salts other (
        or_undone-keeps (Kept other) r (invalidate sha256 r seed salt) h
          λ b q. let (a, _, c) = invalidate-IsRetired r seed salt h.0 q in (a, c other h.1))

  serve_salt-Kept :
      (r : SaltRegistry) (call : SaltCall) (other : ℕ)
      → Kept other r
      → Kept other (serve_salt sha256 r call)
  unfolding serve_salt update_current_salt Kept
  serve_salt-Kept r (update seed) other h =
      or_undone-keeps (Kept other) r (update_current_salt sha256 r seed) h λ b q.
        let (done, q1, q2) = >>=-returns _ (set_new sha256 r seed) q in
        let same : done.0 ≡ b = cc in
        let rotated = set_new-Rotated r seed q1 in
        rw (← same)
          (Rotated-IsRegistry r done.0 rotated, Rotated-IsRetired r done.0 other rotated h.1)
  serve_salt-Kept r (invalidation seed salts) other h = invalidate_salts-Kept r seed salts other h

  serve_salts-Kept :
      (r : SaltRegistry) (calls : List SaltCall) (other : ℕ)
      → Kept other r
      → Kept other (serve_salts sha256 r calls)
  unfolding serve_salts
  serve_salts-Kept r [] other h = h
  serve_salts-Kept r (call ∷ calls) other h =
      serve_salts-Kept (serve_salt sha256 r call) calls other (serve_salt-Kept r call other h)

  -- In a registry whose current salt is not among its previous ones: once a salt was invalidated,
  -- it is not valid after any further calls of the salt manager, in whatever blocks; no rotation
  -- ever derives it again.
  pub invalidate-not_valid :
      (r : SaltRegistry) (seed : List ℕ) (salt : ℕ) (calls : List SaltCall) {r' : SaltRegistry}
      → IsRegistry r
      → invalidate sha256 r seed salt ≡ ok r'
      → is_valid (serve_salts sha256 r' calls) salt ≡ false
  unfolding Kept
  invalidate-not_valid r seed salt calls {r'} h q =
      let (a, b, _) = invalidate-IsRetired r seed salt h q in
      IsRetired-not_valid (serve_salts sha256 r' calls) salt
        (serve_salts-Kept r' calls salt (a, b)).1
