-- ===== src/TokenId.antt =====
-- crates/primitives/token-id: the identifiers of tokens, and accounts.
pub mod Text
use intents.Prelude.{◌≡◌, ◌↔◌, ◌&&◌, Bool, true, false, String, arith, Eq, ◌==◌, string_eq}

-- The text of a `near_account_id::AccountId`. The program compares account ids and never looks into
-- them here.
abbrev pub AccountId : Type 0
AccountId = String

-- `TokenId`, with the fields of the structs inside: the contract (or the minter of an `imt` token)
-- and the name of the token there.
pub data TokenId : Type 0 where
  nep141 : AccountId → TokenId
  nep171 : AccountId → String → TokenId
  nep245 : AccountId → String → TokenId
  imt : AccountId → String → TokenId

pub data TokenIdType : Type 0 where
  nep141 nep171 nep245 imt : TokenIdType

abbrev pub token_id_type : TokenId → TokenIdType
token_id_type (TokenId.nep141 _) = TokenIdType.nep141
token_id_type (TokenId.nep171 _ _) = TokenIdType.nep171
token_id_type (TokenId.nep245 _ _) = TokenIdType.nep245
token_id_type (TokenId.imt _ _) = TokenIdType.imt

abbrev pub token_beq : TokenId → TokenId → Bool
token_beq (TokenId.nep141 a) (TokenId.nep141 b) = a == b
token_beq (TokenId.nep171 a x) (TokenId.nep171 b y) = (a == b) && (x == y)
token_beq (TokenId.nep245 a x) (TokenId.nep245 b y) = (a == b) && (x == y)
token_beq (TokenId.imt a x) (TokenId.imt b y) = (a == b) && (x == y)
token_beq _ _ = false

pub token_beq_iff : (s t : TokenId) → (token_beq s t ≡ true) ↔ (s ≡ t)
token_beq_iff (TokenId.nep141 a) (TokenId.nep141 b) = ground (arith, string_eq.beq_iff a b)
token_beq_iff (TokenId.nep171 a x) (TokenId.nep171 b y) =
    ground (arith, string_eq.beq_iff a b, string_eq.beq_iff x y)
token_beq_iff (TokenId.nep245 a x) (TokenId.nep245 b y) =
    ground (arith, string_eq.beq_iff a b, string_eq.beq_iff x y)
token_beq_iff (TokenId.imt a x) (TokenId.imt b y) =
    ground (arith, string_eq.beq_iff a b, string_eq.beq_iff x y)
token_beq_iff _ _ = ground arith

instance abbrev pub token_eq : Eq TokenId
token_eq = record { beq = token_beq; beq_iff = token_beq_iff }
