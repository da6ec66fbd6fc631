-- ===== src/Nep641.antt =====
-- crates/signatures/nep641: the messages of offchain authorizations, and what a contract answers to
-- one. The resolver of a whole authorization is a module of its own.
pub mod Resolver
use intents.Prelude.{String, List, [], ◌∷◌, ◌++◌, Bool, true, false}
use intents.Prelude.Int.{ℤ}
use intents.TokenId.{AccountId}

pub record OffchainMessage : Type 0 where
  pub chain_id : String
  pub signer_id : AccountId
  pub path : List AccountId
  pub timestamp : ℤ
  pub payload : String

-- A sub-authorization that is to be resolved on another account, with the payload to expect.
pub record PendingAuthorization : Type 0 where
  pub account_id : AccountId
  pub authorization : String
  pub expect : String

pub record AuthorizationResolution : Type 0 where
  pub payload : String
  pub pending : List PendingAuthorization

unfoldable pub new : String → AuthorizationResolution
new payload = record { payload = payload; pending = [] }

unfoldable pub add_pending :
    AuthorizationResolution → AccountId → (authorization expect : String) → AuthorizationResolution
add_pending r account_id authorization expect = record {
  payload = r.payload;
  pending =
      r.pending
      ++ record { account_id = account_id; authorization = authorization; expect = expect } ∷ [];
}

unfoldable pub is_leaf : AuthorizationResolution → Bool
is_leaf r = elim r.pending [ [] ↦ true | _ ∷ _ ↦ false ]
