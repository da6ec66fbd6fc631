-- ===== src/TokenId/Text.antt =====
-- crates/primitives/token-id: the text of a token id, and its parsing. Whether a text is an account
-- id is up to near-account-id: a parameter.
use Prim.Native.Char.{code}
use Prim.Native.String
use Prim.Native.String.append
use intents.Prelude.{
  ◌≡◌, refl, Bool, true, false, String, Option, none, some, nat_beq, string_eq, ◌==◌, arith,
  if◌then◌else◌,
}
use intents.TokenId.{AccountId, TokenId, TokenIdType, token_id_type}

abbrev pub type_name : TokenIdType → String
type_name TokenIdType.nep141 = "nep141"
type_name TokenIdType.nep171 = "nep171"
type_name TokenIdType.nep245 = "nep245"
type_name TokenIdType.imt = "imt"

-- `write!(f, "{}:{}", a, b)`
abbrev pub joined : String → String → String
joined a b = String.◌++◌ a (String.◌++◌ ":" b)

-- The text of the id below its type: an account, or an account and a name.
abbrev pub data_text : TokenId → String
data_text (TokenId.nep141 contract) = contract
data_text (TokenId.nep171 contract token) = joined contract token
data_text (TokenId.nep245 contract token) = joined contract token
data_text (TokenId.imt minter token) = joined minter token

unfoldable pub to_string : TokenId → String
to_string t = joined (type_name (token_id_type t)) (data_text t)

-- `s.split_once(':')`
unfoldable pub split_once : String → Option (String × String)
split_once String.[] = none
split_once (String.◌∷◌ c s) = elim (nat_beq (code c) b':') [
  | true ↦ some ("", s)
  | false ↦ elim (split_once s) [
    | none ↦ none
    | some (left, right) ↦ some (String.◌∷◌ c left, right)
  ]
]

unfoldable pub parse_type : String → Option TokenIdType
parse_type s =
    if s == "nep141"
    then some TokenIdType.nep141
    else if s == "nep171"
    then some TokenIdType.nep171
    else if s == "nep245"
    then some TokenIdType.nep245
    else if s == "imt"
    then some TokenIdType.imt
    else none

module _ (is_account_id : AccountId → Bool) where
  unfoldable pub parse_account : String → Option AccountId
  parse_account s = if is_account_id s then some s else none

  -- `FromStr` of the ids with an account and a name.
  unfoldable pub parse_pair : (AccountId → String → TokenId) → String → Option TokenId
  unfolding split_once parse_account
  parse_pair make text = elim (split_once text) [
    | none ↦ none
    | some (account, token) ↦ elim (parse_account account) [
      | none ↦ none
      | some id ↦ some (make id token)
    ]
  ]

  abbrev pub parse_as : TokenIdType → String → Option TokenId
  parse_as TokenIdType.nep141 text = elim (parse_account text) [
    | none ↦ none
    | some id ↦ some (TokenId.nep141 id)
  ]
  parse_as TokenIdType.nep171 text = parse_pair TokenId.nep171 text
  parse_as TokenIdType.nep245 text = parse_pair TokenId.nep245 text
  parse_as TokenIdType.imt text = parse_pair TokenId.imt text

  unfoldable pub parse : String → Option TokenId
  unfolding split_once parse_type parse_pair
  parse s = elim (split_once s) [
    | none ↦ none
    | some (typ, text) ↦ elim (parse_type typ) [ none ↦ none | some t ↦ parse_as t text ]
  ]

-- No colon: what keeps an account id apart from what follows.
abbrev pub NoColon : String → Type 0
NoColon String.[] = Unit
NoColon (String.◌∷◌ c s) = (nat_beq (code c) b':' ≡ false) × NoColon s

split_once-joined : (a b : String) → NoColon a → split_once (joined a b) ≡ some (a, b)
unfolding split_once
split_once-joined String.[] b h =
    rw (append.nil (String.◌++◌ ":" b)) (rw (append.cons ":" "" b) (rw (append.nil b) refl))
split_once-joined (String.◌∷◌ c a) b h =
    rw (append.cons c a (String.◌++◌ ":" b), split_once)
      (ground (arith, h.0, split_once-joined a b h.1))

-- The account of a token id.
abbrev pub account_of : TokenId → AccountId
account_of (TokenId.nep141 contract) = contract
account_of (TokenId.nep171 contract _) = contract
account_of (TokenId.nep245 contract _) = contract
account_of (TokenId.imt minter _) = minter

parse_pair-joined :
    (is_account_id : AccountId → Bool) (make : AccountId → String → TokenId) (a b : String)
    → NoColon a
    → is_account_id a ≡ true
    → parse_pair is_account_id make (joined a b) ≡ some (make a b)
unfolding parse_pair parse_account
parse_pair-joined is_account_id make a b n h = rw (split_once-joined a b n, parse_pair) (rw h refl)

type_name-NoColon : (t : TokenIdType) → NoColon (type_name t)
type_name-NoColon TokenIdType.nep141 = (refl, (refl, (refl, (refl, (refl, (refl, tt))))))
type_name-NoColon TokenIdType.nep171 = (refl, (refl, (refl, (refl, (refl, (refl, tt))))))
type_name-NoColon TokenIdType.nep245 = (refl, (refl, (refl, (refl, (refl, (refl, tt))))))
type_name-NoColon TokenIdType.imt = (refl, (refl, (refl, tt)))

parse_type-type_name : (t : TokenIdType) → parse_type (type_name t) ≡ some t
unfolding parse_type
parse_type-type_name TokenIdType.nep141 = refl
parse_type-type_name TokenIdType.nep171 = refl
parse_type-type_name TokenIdType.nep245 = refl
parse_type-type_name TokenIdType.imt = refl

parse_as-data_text :
    (is_account_id : AccountId → Bool) (t : TokenId)
    → NoColon (account_of t)
    → is_account_id (account_of t) ≡ true
    → parse_as is_account_id (token_id_type t) (data_text t) ≡ some t
unfolding parse_account
parse_as-data_text is_account_id (TokenId.nep141 c) n h = rw (h, parse_as) refl
parse_as-data_text is_account_id (TokenId.nep171 c x) n h =
    parse_pair-joined is_account_id TokenId.nep171 c x n h
parse_as-data_text is_account_id (TokenId.nep245 c x) n h =
    parse_pair-joined is_account_id TokenId.nep245 c x n h
parse_as-data_text is_account_id (TokenId.imt c x) n h =
    parse_pair-joined is_account_id TokenId.imt c x n h

-- The text of a token id parses to it, whatever characters the name of the token has, if its account
-- has a valid account id, which has no colon.
pub parse-to_string :
    (is_account_id : AccountId → Bool) (t : TokenId)
    → ((a : AccountId) → is_account_id a ≡ true → NoColon a)
    → is_account_id (account_of t) ≡ true
    → parse is_account_id (to_string t) ≡ some t
unfolding parse to_string
parse-to_string is_account_id t plain h =
    let typ = token_id_type t in
    rw (split_once-joined (type_name typ) (data_text t) (type_name-NoColon typ), parse)
      (rw (parse_type-type_name typ, parse)
        (parse_as-data_text is_account_id t (plain (account_of t) h) h))
