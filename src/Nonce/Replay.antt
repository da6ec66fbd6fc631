-- ===== src/Nonce/Replay.antt =====
-- A nonce can be committed once.
use intents.Prelude.{ℕ, ◌≡◌, sym, ◌∙◌, true, false, arith, nat_beq, if◌then◌else◌}
use intents.Bitmap
use intents.Bitmap.Laws.{IsValid, bit_operations}
use intents.Error.{ok, err, nonce_used}
use intents.Nonce.{Nonces, is_used, commit}

-- `commit` on both branches.
commit_lem :
    (m : Nonces) (n k : ℕ)
    → IsValid m
    → (is_used m n ≡ true → commit m n ≡ err nonce_used)
      × (is_used m n ≡ false
          → (m' : Nonces) × (commit m n ≡ ok m')
            × IsValid m'
            × (is_used m' k ≡ (if nat_beq n k then true else is_used m k)))
unfolding commit is_used
commit_lem m n k h =
    let ops = bit_operations m n k h in
    (λ u. ground (arith, ops.0), λ f. ((Bitmap.set_bit m n).0, ground (arith, ops.0), ops.6, ops.3))

ok-inj : {A : Type 0} {a b : A} → ok a ≡ ok b → a ≡ b
ok-inj h = cc

-- A nonce that is in use is refused.
pub commit-used :
    (m : Nonces) (n : ℕ) → IsValid m → is_used m n ≡ true → commit m n ≡ err nonce_used
commit-used m n h u = (commit_lem m n n h).0 u

-- A nonce that is not in use is accepted; it is in use from then on, and refused if it is committed
-- again; every other nonce is in use exactly if it was before.
pub commit-fresh :
    (m : Nonces) (n k : ℕ)
    → IsValid m
    → is_used m n ≡ false
    → (m' : Nonces) × (commit m n ≡ ok m')
      × IsValid m'
      × (commit m' n ≡ err nonce_used)
      × (is_used m' k ≡ (if nat_beq n k then true else is_used m k))
commit-fresh m n k h f =
    let (m', q, v, r) = (commit_lem m n k h).1 f in
    let (m2, q2, _, r2) = (commit_lem m n n h).1 f in
    let same : m2 ≡ m' = ok-inj (sym q2 ∙ q) in
    (m', q, v, commit-used m' n v (rw (← same) (r2 ∙ ground arith)), r)
