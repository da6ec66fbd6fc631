-- ===== src/Tests/Resolving.antt =====
-- A tree of authorizations, resolved in two orders.
use intents.Prelude.{
  ℕ, ◌≡◌, refl, ◌↔◌, List, [], ◌∷◌, some, String, ◌==◌, string_eq, arith, if◌then◌else◌,
}
use intents.Prelude.Outcome.{Outcome, done, failed}
use intents.TokenId.{AccountId}
use intents.Nep641.{PendingAuthorization}
use intents.Nep641.Resolver.{
  Access, finality, Resolved, ResolveErrorKind, resolve_auth, resolve_loop, resolve_single,
  do_resolve_single, either_way, is_other_block, check_payload, complete, sub_authorization,
  is_too_deep, access_key, ResolveError, max_depth_exceeded, at,
}
use intents.Nep641.Resolver.Rounds.{resolve_auth-returns}
use intents.Nep641.Resolver.Order.{resolve_auth_iff, IsResolved}

abbrev no_keys : Access
no_keys _ _ _ _ = failed access_key

abbrev answer : List PendingAuthorization → Outcome ResolveErrorKind Resolved
answer pending = done (record {
  res = record { payload = "payload"; pending = pending };
  block_hash = 4;
  block_height = 9;
})

abbrev ask : AccountId → PendingAuthorization
ask id = record { account_id = id; authorization = ""; expect = "payload" }

-- The wallet waits for two extensions, the first of them for a third account.
abbrev accounts : Access
accounts id path authorization block =
    if id == "wallet"
    then answer (ask "ext1" ∷ ask "ext2" ∷ [])
    else if id == "ext1"
    then answer (ask "owner" ∷ [])
    else answer []

-- The first of the futures in flight, or the second.
abbrev in_order : ℕ → ℕ
in_order _ = 0

abbrev out_of_order : ℕ → ℕ
out_of_order _ = 1

resolved :
    resolve_auth no_keys accounts 3 2 out_of_order finality "wallet" "" ≡ some (done "payload")
unfolding resolve_auth resolve_loop resolve_single do_resolve_single either_way is_other_block
    check_payload complete sub_authorization is_too_deep
resolved = refl

-- One level less is too deep.
too_deep :
    resolve_auth no_keys accounts 3 1 in_order finality "wallet" ""
    ≡ some (failed (at (max_depth_exceeded 1) "ext1" ("wallet" ∷ [])))
unfolding resolve_auth resolve_loop resolve_single do_resolve_single either_way is_other_block
    check_payload complete sub_authorization is_too_deep at
too_deep = refl

resolve_auth_iff_example :
    (resolve_auth no_keys accounts 3 2 in_order finality "wallet" "" ≡ some (done "payload"))
    ↔ IsResolved no_keys accounts 3 2 finality "wallet" "" "payload"
resolve_auth_iff_example =
    resolve_auth_iff no_keys accounts 3 2 finality "wallet" "" in_order "payload" (omega arith)

resolve_auth-returns_example :
    (r : Outcome ResolveError String) × (resolve_auth no_keys accounts 3 2 out_of_order finality
        "wallet" ""
      ≡ some r)
resolve_auth-returns_example =
    resolve_auth-returns no_keys accounts 3 2 out_of_order (omega arith) finality "wallet" ""
