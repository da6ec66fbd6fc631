-- ===== src/Wallet/Requests/Deposits.antt =====
-- The deposit of a request is the sum of all of its deposits, up to the largest u128.
use intents.Prelude.{ℕ, ◌+◌, min, ◌≡◌, refl, ◌≤◌, List, [], ◌∷◌, map, arith}
use intents.NumUtils.{u128_max}
use intents.Wallet.Requests.{
  Request, NearPromise, action_deposit, fold_deposits, promise_total_deposit, total_deposit,
}

-- The deposits, without a bound.
pub sum : List ℕ → ℕ
sum [] = 0
sum (d ∷ ds) = d + sum ds

pub exact_promises : List NearPromise → ℕ
exact_promises [] = 0
exact_promises (p ∷ ps) = sum (map action_deposit p.actions) + exact_promises ps

fold_deposits_lem :
    (start : ℕ) (ds : List ℕ)
    → start ≤ u128_max
    → fold_deposits start ds ≡ min u128_max (start + sum ds)
unfolding fold_deposits sum
fold_deposits_lem start [] h = omega (arith, h)
fold_deposits_lem start (d ∷ ds) h =
    omega (arith, fold_deposits_lem (min u128_max (start + d)) ds (omega arith))

-- Cutting each promise's deposit off first does not change the sum that is cut off.
capped_sum :
    (ps : List NearPromise) (start : ℕ)
    → min u128_max (start + sum (map promise_total_deposit ps))
      ≡ min u128_max (start + exact_promises ps)
unfolding sum exact_promises promise_total_deposit
capped_sum [] start = refl
capped_sum (p ∷ ps) start = omega (
  arith,
  capped_sum ps (start + promise_total_deposit p),
  fold_deposits_lem 0 (map action_deposit p.actions) (omega arith),
)

-- The total deposit of a request, a saturating sum of the saturating sums of its promises, is the
-- exact sum of the deposits of all actions, or the largest u128 if that is less.
total_deposit_lem : (r : Request) → total_deposit r ≡ min u128_max (exact_promises r.external)
unfolding total_deposit
total_deposit_lem r = omega (
  arith,
  fold_deposits_lem 0 (map promise_total_deposit r.external) (omega arith),
  capped_sum r.external 0,
)
