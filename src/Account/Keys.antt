-- ===== src/Account/Keys.antt =====
-- The keys of an account as a set, with the implicit one (accounts/account/mod.rs).
use intents.Prelude.{
  Bool, ◌≡◌, refl, true, false, not, ◌==◌, ◌||◌, ◌&&◌, arith, string_eq, if◌then◌else◌,
}
use intents.MapUtils.{get, contains}
use intents.MapUtils.Laws.{get-insert, get-remove}
use intents.TokenId.{AccountId}
use intents.Error.{PublicKey, public_key_eq}
use intents.Account.{Ids, Account, add_public_key, remove_public_key, has_public_key, new}

-- A key counts as another of the account if it is the same, or if both have the account's id for
-- their implicit one, as far as the hash in these ids lets keys collide.
abbrev pub counts_as : Ids → AccountId → PublicKey → PublicKey → Bool
counts_as ids me k j =
    (k == j) || ((me == ids.to_implicit_account_id k) && (me == ids.to_implicit_account_id j))

-- The implicit key of an account has its flag, and does not stand among the other keys.
pub record IsKeyed (ids : Ids) (me : AccountId) (a : Account) : Type 0 where
  pub explicit :
      (k : PublicKey) → ids.to_implicit_account_id k ≡ me → contains a.public_keys k ≡ false

module _ (ids : Ids) (me : AccountId) where
  pub new-IsKeyed : IsKeyed ids me (new ids me)
  unfolding new get
  new-IsKeyed = record { explicit = λ k e. refl }

  module _ (a : Account) (k j : PublicKey) (h : IsKeyed ids me a) where
    add_public_key_lem :
        ((add_public_key ids a me k).1 ≡ not (has_public_key ids a me k))
        × (has_public_key ids (add_public_key ids a me k).0 me j
            ≡ (if counts_as ids me k j then true else has_public_key ids a me j))
        × (contains (add_public_key ids a me k).0.public_keys j
            ≡ ((not (me == ids.to_implicit_account_id k) && (k == j)) || contains a.public_keys j))
    unfolding add_public_key has_public_key
    add_public_key_lem = ground (
      arith,
      h.explicit k,
      h.explicit j,
      get-insert a.public_keys k j tt,
      public_key_eq.beq_iff k j,
      string_eq.beq_iff me (ids.to_implicit_account_id k),
      string_eq.beq_iff me (ids.to_implicit_account_id j),
    )

    remove_public_key_lem :
        ((remove_public_key ids a me k).1 ≡ has_public_key ids a me k)
        × (has_public_key ids (remove_public_key ids a me k).0 me j
            ≡ (if counts_as ids me k j then false else has_public_key ids a me j))
        × (contains a.public_keys j ≡ false
            → contains (remove_public_key ids a me k).0.public_keys j ≡ false)
    unfolding remove_public_key has_public_key
    remove_public_key_lem = ground (
      arith,
      h.explicit k,
      h.explicit j,
      get-remove a.public_keys k j,
      public_key_eq.beq_iff k j,
      string_eq.beq_iff me (ids.to_implicit_account_id k),
      string_eq.beq_iff me (ids.to_implicit_account_id j),
    )

  -- For an account whose implicit key is not among its other keys: adding a key returns whether the
  -- account did not have it, removing one whether it had it. The account then has the key, or has it
  -- no longer, with any that has the same implicit id if this is the account's own, and every other
  -- key exactly if it had it before; and it stays so formed.
  pub key_operations :
      (a : Account) (k j : PublicKey)
      → IsKeyed ids me a
      → ((add_public_key ids a me k).1 ≡ not (has_public_key ids a me k))
        × ((remove_public_key ids a me k).1 ≡ has_public_key ids a me k)
        × (has_public_key ids (add_public_key ids a me k).0 me j
            ≡ (if counts_as ids me k j then true else has_public_key ids a me j))
        × (has_public_key ids (remove_public_key ids a me k).0 me j
            ≡ (if counts_as ids me k j then false else has_public_key ids a me j))
        × IsKeyed ids me (add_public_key ids a me k).0
        × IsKeyed ids me (remove_public_key ids a me k).0
  key_operations a k j h =
      let added = add_public_key_lem a k j h in
      let removed = remove_public_key_lem a k j h in
      (
        added.0,
        removed.0,
        added.1,
        removed.1,
        record {
          explicit = λ i e. ground (
            arith,
            (add_public_key_lem a k i h).2,
            h.explicit i e,
            public_key_eq.beq_iff k i,
            string_eq.beq_iff me (ids.to_implicit_account_id k),
          );
        },
        record { explicit = λ i e. (remove_public_key_lem a k i h).2 (h.explicit i e) },
      )
