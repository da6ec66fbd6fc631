-- ===== src/Contract/Settled.antt =====
-- The loop of `mt_resolve_transfer` (contract/tokens/nep245/resolver.rs) over its entries.
use intents.Prelude.{
  ◌⊎◌, ◌==◌, false, none, ℕ, ◌+◌, ◌-◌, ◌≤◌, ◌≡◌, refl, sym, some, List, [], ◌∷◌, string_eq,
  nat_default, nat_beq, arith, min, map, inl, inr, Option-cases, Bool-cases, beq_refl,
}
use intents.NumUtils.{u128_max}
use intents.MapUtils.{get}
use intents.TokenId.{AccountId, TokenId, token_eq}
use intents.TokenId.Text.{parse}
use intents.Lock.{Lock}
use intents.Error.{ok}
use intents.Account.{Account}
use intents.Contract.{Host, Contract, balance_of}
use intents.Contract.Supply.{balance_of-none, balance_of-some, has, IsBacked, balance_of-le-held}
use intents.Contract.Moves.{
  send-Took, receive-Gave, send_enough, receive_enough, Passed, Passed-nothing, Passed-zero,
  Passed-one, Passed-to, Passed-next, Passed-IsBacked,
}
use intents.Contract.Transfers.{Entry, refund_entry, resolve_tokens}

-- The entries of a transfer: tokens that parse, of one previous owner.
abbrev pub AreResolvable : Host → AccountId → List Entry → Type 0
AreResolvable host sender [] = Unit
AreResolvable host sender (e ∷ l) =
    ((token : TokenId) × (parse host.is_account_id e.token_id ≡ some token))
    × (e.previous_owner_id ≡ sender)
    × AreResolvable host sender l

-- Of every amount, what is not used is refunded: what is asked for of it, or less where nothing is
-- left.
abbrev pub AreSettled : Host → (TokenId → ℕ) → List Entry → List ℕ → List (TokenId × ℕ) → Type 0
AreSettled host left [] [] [] = Unit
AreSettled host left (e ∷ es) (used ∷ us) ((token, refund) ∷ l) =
    (parse host.is_account_id e.token_id ≡ some token)
    × (used + refund ≡ e.amount)
    × (refund ≤ min e.refund e.amount)
    × ((refund ≡ min e.refund e.amount) ⊎ (left token ≡ 0))
    × AreSettled host left es us l
AreSettled host left _ _ _ = ⊥

nothing_or_none : (m b : ℕ) → min m b ≡ 0 → (0 ≡ m) ⊎ (b ≡ 0)
nothing_or_none m b z = elim (Bool-cases (nat_beq b 0)) [
  | inl e ↦ inr (ground arith)
  | inr e ↦ inl (ground arith)
]

all_or_rest : (m b rest : ℕ) → rest + min m b ≡ b → (min m b ≡ m) ⊎ (rest ≡ 0)
all_or_rest m b rest e = elim (Bool-cases (nat_beq rest 0)) [
  | inl z ↦ inr (ground arith)
  | inr z ↦ inl (ground arith)
]

module _ (host : Host) (sender receiver : AccountId) (apart : (sender == receiver) ≡ false) where
  -- What the receiver has left only becomes less.
  none_left :
      (c c' : Contract) (l : List (TokenId × ℕ)) (u : TokenId)
      → Passed c receiver sender l c'
      → balance_of c receiver u ≡ 0
      → balance_of c' receiver u ≡ 0
  none_left c c' l u passed z = ground (arith, passed.reads receiver u, beq_refl receiver)

  all_left :
      (d c' : Contract) (l : List (TokenId × ℕ)) (token : TokenId) (r : ℕ) (e : Entry)
      → Passed d receiver sender l c'
      → (r ≡ min e.refund e.amount) ⊎ (balance_of d receiver token ≡ 0)
      → (r ≡ min e.refund e.amount) ⊎ (balance_of c' receiver token ≡ 0)
  all_left d c' l token r e passed (inl whole) = inl whole
  all_left d c' l token r e passed (inr z) = inr (none_left d c' l token passed z)

  -- One refund that is paid.
  refund_entry-Returns :
      (c : Contract) (account : Lock Account) (token : TokenId) (e : Entry)
      → IsBacked c
      → get c.accounts receiver ≡ some account
      → e.previous_owner_id ≡ sender
      → (d : Contract) × (used : ℕ) × (r : ℕ) × (refund_entry host c receiver account token e
          ≡ ok (d, used))
        × (used + r ≡ e.amount)
        × (r ≤ min e.refund e.amount)
        × ((r ≡ min e.refund e.amount) ⊎ (balance_of d receiver token ≡ 0))
        × Passed c receiver sender ((token, r) ∷ []) d
  unfolding refund_entry
  refund_entry-Returns c account token e h found own =
      let r = min (min e.refund e.amount) (has token account) in
      elim (Bool-cases (nat_beq r 0)) [
        | inl nothing ↦ (
          c,
          e.amount,
          0,
          rw nothing refl,
          omega arith,
          omega arith,
          nothing_or_none (min e.refund e.amount) (balance_of c receiver token)
              (ground (arith, balance_of-some c receiver account token found)),
          Passed-zero c receiver sender token,
        )
        | inr something ↦
            let (sent, q) = send_enough c receiver account token r (omega arith) in
            let took = send-Took c receiver account token r found q in
            let room : balance_of sent e.previous_owner_id token + r ≤ u128_max = ground (
              arith,
              balance_of-le-held sent e.previous_owner_id token,
              took.together token,
              h.backed token,
              h.sound.bounded token,
              beq_refl token,
            ) in
            let (d, q') = receive_enough host sent e.previous_owner_id token r room in
            let passed = Passed-to c d receiver e.previous_owner_id sender ((token, r) ∷ []) own (
              Passed-one c sent d receiver e.previous_owner_id token r took
                (receive-Gave host sent e.previous_owner_id token r q')) in
            (
              d,
              e.amount - r,
              r,
              rw (something, refund_entry) (rw (q, refund_entry) (rw (q', refund_entry) refl)),
              omega arith,
              omega arith,
              all_or_rest (min e.refund e.amount) (has token account) (balance_of d receiver token)
                  (ground (
                    arith,
                    passed.reads receiver token,
                    balance_of-some c receiver account token found,
                    beq_refl receiver,
                    beq_refl token,
                  )),
              passed,
            )
      ]

  -- Where the receiver has no account, nothing is refunded.
  nothing_refunded :
      (c : Contract) (es : List Entry)
      → AreResolvable host sender es
      → get c.accounts receiver ≡ none
      → (l : List (TokenId × ℕ)) × AreSettled host
          (balance_of c receiver)
          es
          (map (λ (x : Entry). x.amount) es)
          l
        × Passed c receiver sender l c
  nothing_refunded c [] h absent = ([], tt, Passed-nothing c receiver sender)
  nothing_refunded c (e ∷ es) ((token, p), own, more) absent =
      let (l, done, passed) = nothing_refunded c es more absent in
      (
        (token, 0) ∷ l,
        (p, omega arith, omega arith, inr (balance_of-none c receiver token absent), done),
        Passed-next c c c receiver sender token 0 l (Passed-zero c receiver sender token) passed,
      )

  pub resolve_tokens-Returns :
      (c : Contract) (es : List Entry)
      → IsBacked c
      → AreResolvable host sender es
      → (c' : Contract) × (used : List ℕ) × (l : List (TokenId × ℕ)) × (resolve_tokens host c sender
            receiver es
          ≡ ok (c', used))
        × AreSettled host (balance_of c' receiver) es used l
        × Passed c receiver sender l c'
  unfolding resolve_tokens
  resolve_tokens-Returns c [] h p = (c, [], [], refl, tt, Passed-nothing c receiver sender)
  resolve_tokens-Returns c (e ∷ es) h ((token, p), own, more) =
      let same = (string_eq.beq_iff sender e.previous_owner_id).1 (sym own) in
      elim (Option-cases (get c.accounts receiver)) [
        | inl absent ↦
            let (l, done, passed) = nothing_refunded c (e ∷ es) ((token, p), own, more) absent in
            (
              c,
              map (λ (x : Entry). x.amount) (e ∷ es),
              l,
              rw (p, resolve_tokens) (rw (same, resolve_tokens) (rw (absent, resolve_tokens) refl)),
              done,
              passed,
            )
        | inr (account, found) ↦
            let (d, used, r, q, exact, capped, whole, one) =
              refund_entry-Returns c account token e h found own in
            let (c', useds, l, q', done, rest) =
              resolve_tokens-Returns d es
                (Passed-IsBacked c d receiver sender ((token, r) ∷ []) one h) more in
            (
              c',
              used ∷ useds,
              (token, r) ∷ l,
              rw (p, resolve_tokens)
                  (rw (same, resolve_tokens)
                    (rw (found, resolve_tokens)
                      (rw (q, resolve_tokens) (rw (q', resolve_tokens) refl)))),
              (p, exact, capped, all_left d c' l token r e rest whole, done),
              Passed-next c d c' receiver sender token r l one rest,
            )
      ]
