-- ===== src/Tests/Values.antt =====
-- Amounts, fees, closures, bits and nonces at concrete values.
use intents.Prelude.{
  ℕ, ◌+◌, ◌≡◌, refl, ◌≤◌, true, false, not, List, [], ◌∷◌, some, nat_default, nat_eq, string_eq,
  arith,
}
use intents.Prelude.Int.{ℤ, pos, negsuc, ◌+ℤ◌, ◌-ℤ◌, int_default}
use intents.NumUtils.{checked_mul_div_ceil_i128, div_ceil_ℤ}
use intents.MapUtils.{get, get_or_default, insert, remove, store}
use intents.Amounts.{with_apply_deltas, with_apply_delta}
use intents.TokenId.{TokenId, token_eq}
use intents.Fees.{fee, fee_ceil, invert}
use intents.Fees.Bounds.{fee_ceil-fee-invert}
use intents.TokenDiff.{supply_delta, closure_supply_delta, closure_delta, token_fee}
use intents.TokenDiff.Closure.{closure_delta-exact}
use intents.Bitmap.{get_bit, set_bit, clear_bit, toggle_bit}
use intents.Bitmap.Laws as BitLaws
use intents.Error.{ok, err, nonce_used}
use intents.Nonce.{Nonces, commit, is_used}
use intents.Nonce.Replay.{commit-fresh}

abbrev cancelling : List (ℕ × ℤ)
cancelling = (1, pos 5) ∷ (2, pos 1) ∷ (1, negsuc 4) ∷ (2, negsuc 0) ∷ []

cancelling-runs : with_apply_deltas [] cancelling ≡ some []
unfolding with_apply_deltas with_apply_delta store get_or_default get insert remove ◌+ℤ◌
cancelling-runs = refl

fee_ceil-fee-invert_example :
    (f : ℕ) × (g : ℕ) × (r : ℕ) × (fee_ceil 1 100 ≡ some f)
    × (fee 1 100 ≡ some g)
    × (fee (invert 1) 100 ≡ some r)
    × (f + r ≡ 100)
    × (g ≤ f)
    × (f ≤ g + 1)
fee_ceil-fee-invert_example = fee_ceil-fee-invert 1 100 (omega arith) (omega arith)

abbrev usdc : TokenId
usdc = TokenId.nep141 "usdc"

closure_delta-runs : closure_delta usdc (negsuc 99) 10_000 ≡ some (pos 99)
unfolding closure_delta supply_delta closure_supply_delta token_fee invert checked_mul_div_ceil_i128
    div_ceil_ℤ ◌-ℤ◌
closure_delta-runs = refl

closure_delta-exact_example :
    (s : ℤ) × (s' : ℤ) × (supply_delta usdc (negsuc 99) 10_000 ≡ some s)
    × (supply_delta usdc (pos 99) 10_000 ≡ some s')
    × (s +ℤ s' ≡ pos 0)
closure_delta-exact_example =
    closure_delta-exact usdc (negsuc 99) 10_000 (omega arith) refl closure_delta-runs

empty-IsValid : BitLaws.IsValid []
unfolding get
empty-IsValid w l q = ground arith

bit_operations_example :
    ((set_bit [] 7).1 ≡ get_bit [] 7)
    × ((clear_bit [] 7).1 ≡ get_bit [] 7)
    × ((toggle_bit [] 7).1 ≡ get_bit [] 7)
    × (get_bit (set_bit [] 7).0 7 ≡ true)
    × (get_bit (clear_bit [] 7).0 7 ≡ false)
    × (get_bit (toggle_bit [] 7).0 7 ≡ not (get_bit [] 7))
    × BitLaws.IsValid (set_bit [] 7).0
    × BitLaws.IsValid (clear_bit [] 7).0
    × BitLaws.IsValid (toggle_bit [] 7).0
bit_operations_example = BitLaws.bit_operations [] 7 7 empty-IsValid

nothing_used : is_used [] 300 ≡ false
unfolding is_used get_bit get
nothing_used = refl

commit-fresh_example :
    (m' : Nonces) × (commit [] 300 ≡ ok m')
    × BitLaws.IsValid m'
    × (commit m' 300 ≡ err nonce_used)
    × (is_used m' 301 ≡ is_used [] 301)
commit-fresh_example = commit-fresh [] 300 301 empty-IsValid nothing_used
