-- ===== src/Error.antt =====
-- contracts/defuse/core/src/error.rs: `DefuseError`, and the outcome of a fallible call.
use intents.Prelude.{not, ℕ, ◌≡◌, refl, ◌↔◌, Bool, true, false, String, Eq, ◌==◌, nat_eq, arith}
use intents.TokenId.{AccountId}
use intents.Matcher.{InvariantViolated}

-- contracts/defuse/core/src/public_key.rs: the bytes of a key, as a number, on its curve.
pub data PublicKey : Type 0 where
  ed25519 secp256k1 p256 : ℕ → PublicKey

abbrev pub public_key_beq : PublicKey → PublicKey → Bool
public_key_beq (ed25519 a) (ed25519 b) = a == b
public_key_beq (secp256k1 a) (secp256k1 b) = a == b
public_key_beq (p256 a) (p256 b) = a == b
public_key_beq _ _ = false

pub public_key_beq_iff : (a b : PublicKey) → (public_key_beq a b ≡ true) ↔ (a ≡ b)
public_key_beq_iff a b = ground arith

instance abbrev pub public_key_eq : Eq PublicKey
public_key_eq = record { beq = public_key_beq; beq_iff = public_key_beq_iff }

-- The errors without the texts that some of them carry.
pub data DefuseError : Type 0 where
  account_not_found : AccountId → DefuseError
  account_locked : AccountId → DefuseError
  auth_by_predecessor_id_disabled : AccountId → DefuseError
  balance_overflow : DefuseError
  deadline_expired : DefuseError
  deadline_greater_than_nonce : DefuseError
  gas_overflow : DefuseError
  invalid_intent : DefuseError
  invalid_signature : DefuseError
  invariant_violated : InvariantViolated → DefuseError
  json : DefuseError
  nft_already_deposited : AccountId → String → DefuseError
  nonce_used : DefuseError
  nonce_expired : DefuseError
  invalid_nonce : DefuseError
  public_key_exists : AccountId → PublicKey → DefuseError
  public_key_not_exist : AccountId → PublicKey → DefuseError
  parse_token_id : DefuseError
  wrong_verifying_contract : DefuseError
  invalid_salt : DefuseError
  salt_generation_failed : DefuseError
  token_id_too_large : ℕ → DefuseError
  log_too_long : DefuseError

-- `Result<A>`, or a panic. On an error or a panic the call is aborted and its state is lost, so
-- only success carries a state.
pub data Result {ℓ} (A : Type ℓ) : Type ℓ where
  ok : A → Result A
  err : DefuseError → Result A
  panicked : Result A

-- The `?` of a call whose value goes on to the next one.
infixl 5 ◌>>=◌
abbrev pub ◌>>=◌ {ℓ κ} :
    {B : Type κ} {C : Type ℓ} (r : Result B) (next : (x : B) → Result C) → Result C
panicked >>= next = panicked
err why >>= next = err why
ok x >>= next = next x

-- The same without a value, after a test that only fails or passes.
infixl 5 ◌>>◌
abbrev pub ◌>>◌ {ℓ} : {C : Type ℓ} (r : Result (Unit {0})) (next : Result C) → Result C
r >> next = r >>= λ _. next

-- `if !test { return Err(e) }`
abbrev pub guard : Bool → DefuseError → Result (Unit {0})
guard true e = ok tt
guard false e = err e

-- A call that goes on after another returns only if both do.
pub >>=-returns {ℓ κ} :
    {B : Type κ} {C : Type ℓ} {y : C} (next : B → Result C) (r : Result B)
    → (r >>= next) ≡ ok y
    → (x : B) × (r ≡ ok x) × (next x ≡ ok y)
>>=-returns next (err e) q = cc
>>=-returns next panicked q = cc
>>=-returns next (ok x) q = (x, refl, q)

-- A guard that lets a call go on has passed its test.
pub guard-passes : (test : Bool) (why : DefuseError) → guard test why ≡ ok tt → test ≡ true
guard-passes true why h = refl
guard-passes false why h = cc

pub guard-not-passes :
    (test : Bool) (why : DefuseError) → guard (not test) why ≡ ok tt → test ≡ false
guard-not-passes true why h = cc
guard-not-passes false why h = refl

-- What is there after a call that is undone if it fails.
abbrev pub or_undone : {A : Type 0} → A → Result A → A
or_undone a (ok b) = b
or_undone a (err _) = a
or_undone a panicked = a

-- What holds before a call and after it, if it succeeds, holds in any case.
pub or_undone-keeps {ℓ} :
    {A : Type 0} (P : A → Type ℓ) (a : A) (r : Result A)
    → P a
    → ((b : A) → r ≡ ok b → P b)
    → P (or_undone a r)
or_undone-keeps P a (ok b) h k = k b refl
or_undone-keeps P a (err _) h k = h
or_undone-keeps P a panicked h k = h
