-- ===== src/Matcher/Loop.antt =====
-- The loop of `finalize_into`: it ends within its fuel, never reaches its `unreachable!()`, and moves
-- from the two lists into the transfers exactly what it takes from them.
use intents.Prelude.{
  ℕ, zero, suc, ◌+◌, ◌-◌, ◌≡◌, refl, ◌∙◌, ◌≤◌, ◌<◌, ◌≢◌, ◌⊎◌, inl, inr, [], ◌∷◌, some, ◌==◌,
  if◌then◌else◌, nat_default, string_eq, arith, length, min,
}
use intents.NumUtils.{u128_max}
use intents.MapUtils.{get, get_or_default}
use intents.Amounts.{amount_for}
use intents.Amounts.Laws.{IsValid}
use intents.TokenId.{AccountId, TokenId, token_eq}
use intents.Matcher.{Transfers, AccountAmounts, transfer, advance, match_loop}
use intents.Matcher.Sort.{total}
use intents.Matcher.Flow.{
  amount, outflow, inflow, IsWellFormed, transfer-result, transfer-IsWellFormed, amount-transfer,
  outflow-transfer, inflow-transfer,
}

-- The current entry of a list, with part of its amount gone.
module _ (k : AccountId) (b left : ℕ) (l : AccountAmounts) (v : IsValid {V = ℕ} ((k, b) ∷ l)) where
  amount_for-advance :
      (j : AccountId) → amount_for (advance k left l) j ≡ (if k == j then left else amount_for l j)
  unfolding advance get_or_default get
  amount_for-advance j = ground (arith, v.0.0, string_eq.beq_iff k j)

  advance-IsValid : IsValid (advance k left l)
  unfolding advance
  advance-IsValid = ground (arith, v.0, v.1)

  total-advance : total (advance k left l) ≡ left + total l
  unfolding advance
  total-advance = ground arith

amount_for-cons :
    (k : AccountId) (b : ℕ) (l : AccountAmounts) (j : AccountId)
    → amount_for ((k, b) ∷ l) j ≡ (if k == j then b else amount_for l j)
unfolding get_or_default get
amount_for-cons k b l j = ground arith

length-advance :
    (k : AccountId) (left : ℕ) (l : AccountAmounts)
    → (length (advance k left l) ≤ suc (length l))
      × (left ≡ 0 → length (advance k left l) ≡ length l)
unfolding advance
length-advance k left l = ground arith

-- What holds before each round: an amount is still to move only between accounts that have no
-- transfer of this token yet.
pub record Ready (token : TokenId) (ts : Transfers) (ws ds : AccountAmounts) : Type 0 where
  pub formed : IsWellFormed ts
  pub senders : IsValid ws
  pub receivers : IsValid ds
  pub fits : (a : AccountId) → amount_for ws a ≤ u128_max
  pub free : (a b : AccountId) → 0 < amount_for ws a → 0 < amount_for ds b → amount ts a b token ≡ 0

-- What the rounds from one state to another have done.
pub record Moves (token : TokenId) (ts : Transfers) (ws ds : AccountAmounts) (ts' : Transfers)
    (ws' ds' : AccountAmounts) : Type 0 where
  pub formed : IsWellFormed ts'
  pub senders : IsValid ws'
  pub receivers : IsValid ds'
  pub sent :
      (a : AccountId)
      → outflow ts' a token + amount_for ws' a ≡ outflow ts a token + amount_for ws a
  pub received :
      (a : AccountId) → inflow ts' a token + amount_for ds' a ≡ inflow ts a token + amount_for ds a
  pub balanced : total ws' + total ds ≡ total ws + total ds'
  pub others :
      (a b : AccountId) (u : TokenId)
      → u ≢ token
      → (amount ts' a b u ≡ amount ts a b u)
        × (outflow ts' a u ≡ outflow ts a u)
        × (inflow ts' a u ≡ inflow ts a u)

Moves-refl :
    {token : TokenId} {ts : Transfers} {ws ds : AccountAmounts}
    → Ready token ts ws ds
    → Moves token ts ws ds ts ws ds
Moves-refl h = record {
  formed = h.formed;
  senders = h.senders;
  receivers = h.receivers;
  sent = λ a. refl;
  received = λ a. refl;
  balanced = refl;
  others = λ a b u n. (refl, refl, refl);
}

Moves-trans :
    {token : TokenId} {ts ts₁ ts₂ : Transfers} {ws ds ws₁ ds₁ ws₂ ds₂ : AccountAmounts}
    → Moves token ts ws ds ts₁ ws₁ ds₁
    → Moves token ts₁ ws₁ ds₁ ts₂ ws₂ ds₂
    → Moves token ts ws ds ts₂ ws₂ ds₂
Moves-trans m n = record {
  formed = n.formed;
  senders = n.senders;
  receivers = n.receivers;
  sent = λ a. omega (arith, m.sent a, n.sent a);
  received = λ a. omega (arith, m.received a, n.received a);
  balanced = omega (arith, m.balanced, n.balanced);
  others = λ a b u x. omega (arith, m.others a b u x, n.others a b u x);
}

module _ (token : TokenId) (ts : Transfers) (s r : AccountId) (send receive : ℕ)
    (ws ds : AccountAmounts) (h : Ready token ts ((s, send) ∷ ws) ((r, receive) ∷ ds)) where
  abbrev moved : ℕ
  moved = min send receive

  abbrev ts_next : Transfers
  ts_next = (transfer ts s r token moved).0

  abbrev ws_next : AccountAmounts
  ws_next = advance s (send - moved) ws

  abbrev ds_next : AccountAmounts
  ds_next = advance r (receive - moved) ds

  -- The two current entries hold something, so their accounts have no transfer yet.
  pair_fits : amount ts s r token + min send receive ≤ u128_max
  pair_fits = ground (
    arith,
    h.free s r,
    h.fits s,
    amount_for-cons s send ws s,
    amount_for-cons r receive ds r,
    string_eq.beq_iff s s,
    string_eq.beq_iff r r,
    h.senders.1.0,
    h.receivers.1.0,
  )

  step-Ready : Ready token ts_next ws_next ds_next
  step-Ready = record {
    formed = transfer-IsWellFormed ts s r token moved h.formed pair_fits;
    senders = advance-IsValid s send (send - moved) ws h.senders;
    receivers = advance-IsValid r receive (receive - moved) ds h.receivers;
    fits = λ a. ground (
      arith,
      h.fits a,
      amount_for-cons s send ws a,
      amount_for-advance s send (send - moved) ws h.senders a,
    );
    free = λ a b. ground (
      arith,
      h.free a b,
      amount_for-cons s send ws a,
      amount_for-cons r receive ds b,
      amount_for-advance s send (send - moved) ws h.senders a,
      amount_for-advance r receive (receive - moved) ds h.receivers b,
      amount-transfer ts s r token moved h.formed pair_fits a b token,
    );
  }

  step-Moves : Moves token ts ((s, send) ∷ ws) ((r, receive) ∷ ds) ts_next ws_next ds_next
  step-Moves = record {
    formed = transfer-IsWellFormed ts s r token moved h.formed pair_fits;
    senders = advance-IsValid s send (send - moved) ws h.senders;
    receivers = advance-IsValid r receive (receive - moved) ds h.receivers;
    sent = λ a. ground (
      arith,
      amount_for-cons s send ws a,
      amount_for-advance s send (send - moved) ws h.senders a,
      outflow-transfer ts s r token moved h.formed pair_fits a token,
      token_eq.beq_iff token token,
    );
    received = λ a. ground (
      arith,
      amount_for-cons r receive ds a,
      amount_for-advance r receive (receive - moved) ds h.receivers a,
      inflow-transfer ts s r token moved h.formed pair_fits a token,
      token_eq.beq_iff token token,
    );
    balanced = omega (
      arith,
      total-advance s send (send - moved) ws h.senders,
      total-advance r receive (receive - moved) ds h.receivers,
    );
    others = λ a b u n. ground (
      arith,
      amount-transfer ts s r token moved h.formed pair_fits a b u,
      outflow-transfer ts s r token moved h.formed pair_fits a u,
      inflow-transfer ts s r token moved h.formed pair_fits a u,
      token_eq.beq_iff token u,
    );
  }

  -- One of the two lists gets shorter, and neither gets longer.
  step-length :
      length ws_next + length ds_next < length ((s, send) ∷ ws) + length ((r, receive) ∷ ds)
  step-length =
      ground (arith, length-advance s (send - moved) ws, length-advance r (receive - moved) ds)

match_loop-step :
    (fuel : ℕ) (token : TokenId) (ts : Transfers) (s r : AccountId) (send receive : ℕ)
    (ws ds : AccountAmounts) {n : ℕ}
    → (transfer ts s r token (min send receive)).1 ≡ some n
    → match_loop (suc fuel) token ts ((s, send) ∷ ws) ((r, receive) ∷ ds)
      ≡ match_loop fuel token
          (transfer ts s r token (min send receive)).0
          (advance s (send - min send receive) ws)
          (advance r (receive - min send receive) ds)
unfolding match_loop
match_loop-step fuel token ts s r send receive ws ds e = ground arith

-- With more fuel than there are entries the loop returns, with one of the two lists used up.
pub match_loop_lem :
    (fuel : ℕ) (token : TokenId) (ts : Transfers) (ws ds : AccountAmounts)
    → Ready token ts ws ds
    → length ws + length ds < fuel
    → (ts' : Transfers) × (ws' : AccountAmounts) × (ds' : AccountAmounts) × (match_loop fuel token
          ts ws ds
        ≡ some (ts', ws', ds'))
      × ((ws' ≡ []) ⊎ (ds' ≡ []))
      × Moves token ts ws ds ts' ws' ds'
unfolding match_loop
match_loop_lem zero token ts ws ds h lt = elim lt [ ]
match_loop_lem (suc fuel) token ts [] ds h lt = (ts, [], ds, refl, inl refl, Moves-refl h)
match_loop_lem (suc fuel) token ts (w ∷ ws) [] h lt = (ts, w ∷ ws, [], refl, inr refl, Moves-refl h)
match_loop_lem (suc fuel) token ts ((s, send) ∷ ws) ((r, receive) ∷ ds) h lt =
    let (ts', ws', ds', q, ends, m) =
      match_loop_lem fuel token (transfer ts s r token (min send receive)).0
        (advance s (send - min send receive) ws) (advance r (receive - min send receive) ds)
        (step-Ready token ts s r send receive ws ds h)
        (omega (arith, step-length token ts s r send receive ws ds h)) in
    (
      ts',
      ws',
      ds',
      match_loop-step fuel token ts s r send receive ws ds (
            transfer-result ts s r token (min send receive) h.formed
              (pair_fits token ts s r send receive ws ds h))
          ∙ q,
      ends,
      Moves-trans (step-Moves token ts s r send receive ws ds h) m,
    )

-- With more fuel than there are entries, from transfers that have nothing yet between the given
-- senders and receivers, the loop returns; one side is then used up, every account has sent and
-- received what the loop took from its entry, and both sides have lost the same total.
pub match_loop-Moves :
    (fuel : ℕ) (token : TokenId) (ts : Transfers) (ws ds : AccountAmounts)
    → Ready token ts ws ds
    → length ws + length ds < fuel
    → (ts' : Transfers) × (ws' : AccountAmounts) × (ds' : AccountAmounts) × (match_loop fuel token
          ts ws ds
        ≡ some (ts', ws', ds'))
      × ((ws' ≡ []) ⊎ (ds' ≡ []))
      × (total ws' + total ds ≡ total ws + total ds')
      × ((a : AccountId)
          → (outflow ts' a token + amount_for ws' a ≡ outflow ts a token + amount_for ws a)
            × (inflow ts' a token + amount_for ds' a ≡ inflow ts a token + amount_for ds a))
match_loop-Moves fuel token ts ws ds h lt =
    let (ts', ws', ds', q, ends, m) = match_loop_lem fuel token ts ws ds h lt in
    (ts', ws', ds', q, ends, m.balanced, λ a. (m.sent a, m.received a))
