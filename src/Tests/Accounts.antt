-- ===== src/Tests/Accounts.antt =====
-- Accounts, salts and the texts of token ids.
use intents.Prelude.{
  ℕ, ◌/◌, ◌≡◌, refl, Bool, true, false, not, none, some, List, [], ◌∷◌, ◌==◌, nat_beq, nat_eq,
  string_eq, if◌then◌else◌,
}
use intents.MapUtils.{get, insert}
use intents.TokenId.{AccountId, TokenId}
use intents.TokenId.Text.{NoColon, parse, to_string, parse-to_string}
use intents.Error.{ed25519, p256, public_key_eq, ok, err, nonce_used}
use intents.Account.{
  Ids, AccountType, Account, MaybeLegacyNonces, new, add_public_key, remove_public_key,
  has_public_key, is_used, is_legacy_used, commit, cleanup_by_prefix,
}
use intents.Account.Keys.{counts_as, IsKeyed, new-IsKeyed, key_operations}
use intents.Account.Used.{nonce_operations}
use intents.Bitmap.{set_bit}
use intents.Bitmap.Laws.{IsValid}
use intents.Salts.{
  SaltRegistry, invalidate, is_valid, serve_salts, SaltCall, update, invalidation, set_new,
  deactivate, derive_next_salt, find_unused, derive_salt, salt_of,
}
use intents.Salts
use intents.Salts.Laws.{IsRegistry, invalidate-not_valid}

-- Every key has the account's id for its implicit one: they all collide.
abbrev ids : Ids
ids = record {
  to_implicit_account_id = λ _. "implicit";
  from_implicit_account_id = λ _. none;
  get_account_type = λ _. AccountType.near_implicit;
}

abbrev bare : Account
bare = new ids "implicit"

key_operations_example :
    let (added, was_new) = add_public_key ids bare "implicit" (ed25519 2) in
    let (removed, was_there) = remove_public_key ids bare "implicit" (ed25519 2) in
    (was_new ≡ not (has_public_key ids bare "implicit" (ed25519 2)))
    × (was_there ≡ has_public_key ids bare "implicit" (ed25519 2))
    × (has_public_key ids added "implicit" (p256 2) ≡ (
        if counts_as ids "implicit" (ed25519 2) (p256 2)
        then true
        else has_public_key ids bare "implicit" (p256 2)))
    × (has_public_key ids removed "implicit" (p256 2) ≡ (
        if counts_as ids "implicit" (ed25519 2) (p256 2)
        then false
        else has_public_key ids bare "implicit" (p256 2)))
    × IsKeyed ids "implicit" added
    × IsKeyed ids "implicit" removed
key_operations_example =
    key_operations ids "implicit" bare (ed25519 2) (p256 2) (new-IsKeyed ids "implicit")

-- An account that has used the nonce 300 before its present form.
abbrev aged : MaybeLegacyNonces
aged = record { nonces = []; legacy = some (set_bit [] 300).0 }

aged-IsValid : IsValid aged.nonces
unfolding get
aged-IsValid w l q = cc

nonce_operations_example :
    (is_used aged 300 ≡ true → commit aged 300 ≡ err nonce_used)
    × (is_used aged 300 ≡ false
        → (n' : MaybeLegacyNonces) × (commit aged 300 ≡ ok n')
          × IsValid n'.nonces
          × (is_used n' 301 ≡ (if nat_beq 300 301 then true else is_used aged 301)))
    × (is_used (cleanup_by_prefix aged 1).0 301
        ≡ (if nat_beq 1 (301 / 256) then is_legacy_used aged.legacy 301 else is_used aged 301))
    × IsValid (cleanup_by_prefix aged 1).0.nonces
nonce_operations_example = nonce_operations aged 300 1 301 aged-IsValid

-- A digest that is the seed itself.
abbrev plain : List ℕ → List ℕ
plain seed = seed

abbrev salts : SaltRegistry
salts = record { previous = []; current = 7 }

abbrev rotated : SaltRegistry
rotated = record { previous = (7, false) ∷ []; current = 66051 }

salts-IsRegistry : IsRegistry salts
salts-IsRegistry = record { apart = unfold get in refl }

invalidates : invalidate plain salts (0 ∷ 1 ∷ 2 ∷ 3 ∷ []) 7 ≡ ok rotated
unfolding invalidate set_new derive_next_salt find_unused derive_salt salt_of Salts.is_used
    deactivate get insert
invalidates = refl

invalidate-not_valid_example :
    is_valid
      (serve_salts plain rotated
        (update (9 ∷ 9 ∷ 9 ∷ 9 ∷ []) ∷ invalidation (1 ∷ 1 ∷ 1 ∷ 1 ∷ []) (66051 ∷ 7 ∷ []) ∷ []))
      7
    ≡ false
invalidate-not_valid_example =
    invalidate-not_valid plain salts (0 ∷ 1 ∷ 2 ∷ 3 ∷ []) 7
      (update (9 ∷ 9 ∷ 9 ∷ 9 ∷ []) ∷ invalidation (1 ∷ 1 ∷ 1 ∷ 1 ∷ []) (66051 ∷ 7 ∷ []) ∷ [])
      salts-IsRegistry invalidates

abbrev is_usd : AccountId → Bool
is_usd a = a == "usd"

is_usd-NoColon : (a : AccountId) → is_usd a ≡ true → NoColon a
is_usd-NoColon a h = rw ((string_eq.beq_iff a "usd").0 h) (refl, (refl, (refl, tt)))

parse-to_string_example :
    parse is_usd (to_string (TokenId.nep245 "usd" "a:b")) ≡ some (TokenId.nep245 "usd" "a:b")
parse-to_string_example = parse-to_string is_usd (TokenId.nep245 "usd" "a:b") is_usd-NoColon refl
