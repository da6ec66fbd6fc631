-- ===== src/Contract/Resolve.antt =====
-- The refund of a deposit: `resolve_deposit_internal` as a whole.
use intents.Prelude.{
  ℕ, zero, suc, ◌+◌, ◌≡◌, refl, ap, ◌∙◌, Option, none, some, List, [], ◌∷◌, length, map, ◌==◌,
  string_eq, nat_default, nat_beq, nat_beq_iff, arith, if◌then◌else◌, inl, inr, Option-cases,
  Bool-cases, beq_refl,
}
use mathlib.Core.Path.{fun_ext}
use intents.MapUtils.{get}
use intents.Amounts.Many.{sum_at}
use intents.TokenId.{AccountId, TokenId, token_eq}
use intents.Error.{ok}
use intents.Contract.{Contract, balance_of}
use intents.Contract.Tokens.{
  with_books, books_of, requested_refunds, repeat_none, resolve_deposit_internal,
}
use intents.Contract.Books.{less-IsSound}
use intents.Contract.Refunds.{
  IsAsked, AreSentBack, amounts_of, AreRefunds-AreSentBack, paired, AreRefunds,
  refund_tokens-Returns,
}
use intents.Contract.Supply.{
  has, IsBacked, balance_of-le, balance_of-some, balance_of-none, balance_of-with_books,
  with_books-IsBacked, gained, lower_balance,
}

length-repeat_none : (n : ℕ) → length (repeat_none n) ≡ n
length-repeat_none zero = refl
length-repeat_none (suc n) = ap suc (length-repeat_none n)

length-map-some : (l : List ℕ) → length (map some l) ≡ length l
length-map-some [] = refl
length-map-some (x ∷ l) = ap suc (length-map-some l)

length-requested_refunds :
    (result : Option (List ℕ)) (n : ℕ) → length (requested_refunds result n) ≡ n
unfolding requested_refunds
length-requested_refunds none n = length-repeat_none n
length-requested_refunds (some refunds) n = elim (Bool-cases (nat_beq (length refunds) n)) [
  | inl e ↦ rw e (length-map-some refunds ∙ (nat_beq_iff (length refunds) n).0 e)
  | inr e ↦ rw e (length-repeat_none n)
]

AreRefunds-same :
    (left left' : TokenId → ℕ) (l : List (TokenId × ℕ)) (requests : List (Option ℕ))
    (refunds : List ℕ)
    → ((u : TokenId) → left' u ≡ left u)
    → AreRefunds left l requests refunds
    → AreRefunds left' l requests refunds
AreRefunds-same left left' l requests refunds same h = rw (fun_ext same) h

AreRefunds-zeros :
    (left : TokenId → ℕ) (l : List (TokenId × ℕ)) (requests : List (Option ℕ))
    → length requests ≡ length l
    → ((u : TokenId) → left u ≡ 0)
    → AreRefunds left l requests (map (λ _. 0) l)
AreRefunds-zeros left [] requests n z = tt
AreRefunds-zeros left ((t, x) ∷ l) [] n z = absurd (omega arith)
AreRefunds-zeros left ((t, x) ∷ l) (asked ∷ requests) n z =
    (inr (omega arith, z t), AreRefunds-zeros left l requests (omega arith) z)

sum_at-zeros : (l : List (TokenId × ℕ)) (u : TokenId) → sum_at u (paired l (map (λ _. 0) l)) ≡ 0
sum_at-zeros [] u = refl
sum_at-zeros ((t, x) ∷ l) u = ground (arith, sum_at-zeros l u)

if_self : (a : AccountId) (x y : ℕ) → (if a == a then x else y) ≡ x
if_self a x y = rw (beq_refl a) refl

-- The refund of a deposit never panics where every supply is the sum of the balances, whatever
-- the receiver answers. What is asked for is what the answer says, if it has an amount for each
-- deposit, and otherwise all of them. Of each deposit all that is asked for is sent back, no more
-- than was deposited, or less where the receiver then has nothing left; the amounts leave the
-- receiver's balances and no other's, and every supply is still the sum of the balances.
pub resolve_deposit_internal-Returns :
    (c : Contract) (receiver : AccountId) (l : List (TokenId × ℕ)) (result : Option (List ℕ))
    → IsBacked c
    → (c' : Contract) × (refunds : List ℕ) × (asked : List ℕ) × (resolve_deposit_internal c receiver
          l result
        ≡ ok (c', refunds))
      × IsBacked c'
      × IsAsked result (amounts_of l) asked
      × AreSentBack (balance_of c' receiver) l asked refunds
      × ((a : AccountId) (u : TokenId)
          → balance_of c' a u + gained receiver (paired l refunds) a u ≡ balance_of c a u)
unfolding resolve_deposit_internal
resolve_deposit_internal-Returns c receiver l result h =
    elim (Option-cases (get c.accounts receiver)) [
      | inl e ↦
          let (asked, is_asked, fair) =
            AreRefunds-AreSentBack (balance_of c receiver) l result (map (λ _. 0) l) (
              AreRefunds-zeros (balance_of c receiver) l (requested_refunds result (length l))
                (length-requested_refunds result (length l))
                (λ u. balance_of-none c receiver u e)) in
          (
            c,
            map (λ _. 0) l,
            asked,
            rw (e, resolve_deposit_internal) refl,
            h,
            is_asked,
            fair,
            λ a u. ground (arith, sum_at-zeros l u),
          )
      | inr (account, e) ↦
          let own : (u : TokenId) → balance_of c receiver u ≡ has u account =
            λ u. balance_of-some c receiver account u e in
          let (b, refunds, q, done, fair) =
            refund_tokens-Returns (books_of c account) l (requested_refunds result (length l))
              (λ u. omega (arith, own u, balance_of-le c receiver u h))
              (length-requested_refunds result (length l)) in
          let kept =
            with_books-IsBacked c receiver account b own
              (λ u. omega (arith, done.supply u, done.balance u))
              (less-IsSound c.total_supplies b.supplies (λ u. sum_at u (paired l refunds))
                done.supply h.sound)
              h in
          let (asked, is_asked, sent_back) =
            AreRefunds-AreSentBack (balance_of (with_books c receiver account b) receiver) l result
              refunds
              (AreRefunds-same _ _ l (requested_refunds result (length l)) refunds
                (λ u. balance_of-with_books c receiver receiver account b u ∙ if_self receiver _ _)
                fair) in
          (
            with_books c receiver account b,
            refunds,
            asked,
            rw (e, resolve_deposit_internal) (rw (q, resolve_deposit_internal) refl),
            kept,
            is_asked,
            sent_back,
            λ a u. lower_balance c receiver account b (paired l refunds) a u own (done.balance u),
          )
    ]
