-- ===== src/Wallet/Nonces/Replay.antt =====
-- A nonce that was committed is not accepted again before its message has expired.
use intents.Prelude.{
  ℕ, ◌||◌, ◌≡◌, refl, ◌⊎◌, inl, inr, true, false, arith, min, nat_eq, nat_beq_iff, Bool-cases, not,
}
use intents.Prelude.Int.{ℤ, pos, ◌+ℤ◌, ◌-ℤ◌, ◌≤ℤ◌, ◌<ℤ◌, +ℤ_parts, -ℤ_parts}
use intents.Prelude.Outcome.{done, failed, fail_if-done}
use intents.WordBitmap.{get_bit, set_bit}
use intents.WordBitmap.Laws.{set_bit-get, set_bit-old}
use intents.Wallet.Nonces.{
  Nonces, NonceError, already_used, expired_or_future, word_bits, check_cleanup, is_in_window,
  use_nonce, commit,
}

-- The nonce of a message created at `c` is known, in the new or in the old bit map, as long as the
-- message has not expired.
IsSpent : ℤ → Nonces → ℕ → ℤ → Type 0
IsSpent now n nonce c =
    ((get_bit word_bits n.current nonce ≡ true) × (c ≤ℤ n.last_cleaned_at +ℤ pos n.timeout))
    ⊎ ((get_bit word_bits n.old nonce ≡ true) × (c ≤ℤ n.last_cleaned_at))
    ⊎ (c <ℤ now -ℤ pos n.timeout)

check_cleanup-IsSpent :
    (now later : ℤ) (n : Nonces) (nonce : ℕ) (c : ℤ)
    → now ≤ℤ later
    → IsSpent now n nonce c
    → IsSpent later (check_cleanup later n) nonce c
unfolding check_cleanup IsSpent
check_cleanup-IsSpent now later n nonce c le h = ground (
  arith,
  +ℤ_parts n.last_cleaned_at (pos n.timeout),
  -ℤ_parts now (pos n.timeout),
  -ℤ_parts later (pos n.timeout),
  -ℤ_parts (later -ℤ pos n.timeout) (pos n.timeout),
)

pub check_cleanup-timeout : (now : ℤ) (n : Nonces) → (check_cleanup now n).timeout ≡ n.timeout
unfolding check_cleanup
check_cleanup-timeout now n = ground arith

-- What a commit that succeeds says: the window and the old bits allow it, and the bit is set.
commit-done :
    (now : ℤ) (n m : Nonces) (nonce : ℕ) (c : ℤ) (timeout : ℕ)
    → commit now n nonce c timeout ≡ done m
    → (is_in_window now (check_cleanup now n) c timeout ≡ true)
      × (get_bit word_bits (check_cleanup now n).old nonce ≡ false)
      × (get_bit word_bits (check_cleanup now n).current nonce ≡ false)
      × (m.timeout ≡ n.timeout)
      × (m.last_cleaned_at ≡ (check_cleanup now n).last_cleaned_at)
      × (m.old ≡ (check_cleanup now n).old)
      × (m.current ≡ (set_bit word_bits (check_cleanup now n).current nonce).0)
unfolding commit use_nonce
commit-done now n m nonce c timeout q =
    let w =
      fail_if-done (not (is_in_window now (check_cleanup now n) c timeout)) expired_or_future _ q in
    let u =
      fail_if-done
        (get_bit word_bits (check_cleanup now n).old nonce
          || (set_bit word_bits (check_cleanup now n).current nonce).1)
        already_used _ w.1 in
    ground (
      arith,
      w,
      u,
      set_bit-old word_bits (check_cleanup now n).current nonce,
      check_cleanup-timeout now n,
    )

-- Writing more bits of the new bit map keeps what is known.
grow-IsSpent :
    (now : ℤ) (n m : Nonces) (nonce other : ℕ) (c : ℤ)
    → m.timeout ≡ n.timeout
    → m.last_cleaned_at ≡ n.last_cleaned_at
    → m.old ≡ n.old
    → m.current ≡ (set_bit word_bits n.current other).0
    → IsSpent now n nonce c
    → IsSpent now m nonce c
unfolding IsSpent
grow-IsSpent now n m nonce other c t l o cur h =
    rw (t, l, o, cur)
      (elim h [
        | inl (b, le) ↦ inl (ground (arith, set_bit-get word_bits n.current other nonce), le)
        | inr (inl old) ↦ inr (inl old)
        | inr (inr expired) ↦ inr (inr expired)
      ])

-- A later commit of any nonce keeps what is known of another.
commit-IsSpent :
    (now later : ℤ) (n m : Nonces) (nonce : ℕ) (c : ℤ) (other : ℕ) (c' : ℤ) (timeout : ℕ)
    → now ≤ℤ later
    → commit later n other c' timeout ≡ done m
    → IsSpent now n nonce c
    → IsSpent later m nonce c
commit-IsSpent now later n m nonce c other c' timeout le q h =
    let (_, _, _, t, l, o, cur) = commit-done later n m other c' timeout q in
    grow-IsSpent later (check_cleanup later n) m nonce other c
      (ground (arith, t, check_cleanup-timeout later n)) l o cur
      (check_cleanup-IsSpent now later n nonce c le h)

commit-spends :
    (now : ℤ) (n m : Nonces) (nonce : ℕ) (c : ℤ) (timeout : ℕ)
    → commit now n nonce c timeout ≡ done m
    → IsSpent now m nonce c
commit-spends now n m nonce c timeout q =
    let d = commit-done now n m nonce c timeout q in
    unfold IsSpent is_in_window check_cleanup in
    ground (
      arith,
      d,
      set_bit-get word_bits (check_cleanup now n).current nonce nonce,
      nat_beq_iff nonce nonce,
      +ℤ_parts n.last_cleaned_at (pos n.timeout),
      -ℤ_parts now (pos n.timeout),
      +ℤ_parts now (pos n.timeout),
    )

-- An expired message is outside of the window, and a known bit is refused.
IsSpent-refused :
    (now : ℤ) (n : Nonces) (nonce : ℕ) (c c' : ℤ) (timeout : ℕ)
    → IsSpent now n nonce c
    → c' ≤ℤ c
    → (is_in_window now n c' timeout ≡ false) ⊎ (use_nonce n nonce ≡ failed already_used)
unfolding IsSpent is_in_window use_nonce
IsSpent-refused now n nonce c c' timeout h le = elim h [
  | inl (b, _) ↦ inr (ground (arith, set_bit-old word_bits n.current nonce))
  | inr (inl (b, _)) ↦ inr (ground arith)
  | inr (inr expired) ↦
      inl (ground (arith, -ℤ_parts now (pos n.timeout), -ℤ_parts now (pos (min n.timeout timeout))))
]

-- No message created at the same time or before commits a nonce that is spent.
IsSpent-fails :
    (now : ℤ) (n : Nonces) (nonce : ℕ) (c c' : ℤ) (timeout : ℕ)
    → IsSpent now n nonce c
    → c' ≤ℤ c
    → (why : NonceError) × (commit now n nonce c' timeout ≡ failed why)
unfolding commit
IsSpent-fails now n nonce c c' timeout h le =
    elim (Bool-cases (is_in_window now (check_cleanup now n) c' timeout)) [
      | inr out ↦ (expired_or_future, rw out refl)
      | inl ok ↦ (
        already_used,
        rw ok
            (elim (IsSpent-refused now (check_cleanup now n) nonce c c' timeout
              (check_cleanup-IsSpent now now n nonce c (omega arith) h) le) [
                | inl out ↦ ground (arith, ok, out)
                | inr used ↦ used
              ]),
      )
    ]

-- What calls of the contract do to the nonces while time goes on.
pub data Later (t : ℤ) (n : Nonces) : ℤ → Nonces → Type 0 where
  here : Later t n t n
  committed :
      {now next : ℤ} {m k : Nonces} (nonce : ℕ) (c : ℤ) (timeout : ℕ)
      → Later t n now m
      → now ≤ℤ next
      → commit next m nonce c timeout ≡ done k
      → Later t n next k
  cleaned :
      {now next : ℤ} {m : Nonces}
      → Later t n now m
      → now ≤ℤ next
      → Later t n next (check_cleanup next m)

Later-IsSpent :
    {t : ℤ} {n : Nonces} {now : ℤ} {m : Nonces} (nonce : ℕ) (c : ℤ)
    → Later t n now m
    → IsSpent t n nonce c
    → IsSpent now m nonce c
Later-IsSpent nonce c here h = h
Later-IsSpent nonce c (committed _ _ _ l le q) h =
    commit-IsSpent _ _ _ _ nonce c _ _ _ le q (Later-IsSpent nonce c l h)
Later-IsSpent nonce c (cleaned l le) h =
    check_cleanup-IsSpent _ _ _ nonce c le (Later-IsSpent nonce c l h)

-- What is known stays so as time goes on.
later-IsSpent :
    (now later : ℤ) (n : Nonces) (nonce : ℕ) (c : ℤ)
    → now ≤ℤ later
    → IsSpent now n nonce c
    → IsSpent later n nonce c
unfolding IsSpent
later-IsSpent now later n nonce c le h =
    ground (arith, -ℤ_parts now (pos n.timeout), -ℤ_parts later (pos n.timeout))

-- Once a message has committed its nonce, no message with that nonce that was created at the same
-- time or before commits again, whatever commits and cleanups the contract makes in between, at
-- times that do not decrease, and however long the timeout of the message is.
pub commit-no_replay :
    (t : ℤ) (n m : Nonces) {now : ℤ} {k : Nonces} (later : ℤ) (nonce : ℕ) (c c' : ℤ)
    (timeout timeout' : ℕ)
    → commit t n nonce c timeout ≡ done m
    → Later t m now k
    → now ≤ℤ later
    → c' ≤ℤ c
    → (why : NonceError) × (commit later k nonce c' timeout' ≡ failed why)
commit-no_replay t n m {now = now} {k = k} later nonce c c' timeout timeout' q l le older =
    IsSpent-fails later k nonce c c' timeout'
      (later-IsSpent now later k nonce c le
        (Later-IsSpent nonce c l (commit-spends t n m nonce c timeout q)))
      older
