-- ===== src/Tests/Simulation.antt =====
-- A simulation over a view, in which a balance that is spent in full is there again.
use intents.Prelude.{
  ℕ, ◌-◌, ◌≡◌, ◌≢◌, refl, ◌≤◌, false, [], ◌∷◌, nat_beq, nat_eq, nat_default, string_eq,
  if◌then◌else◌,
}
use intents.MapUtils.{get, insert, remove, get_or_default, store}
use intents.Amounts.{add, sub, checked_apply}
use intents.TokenId.{TokenId}
use intents.Error.{ok}
use intents.Cached.{
  View, CachedAccounts, balance_of, is_account_locked, get_or_create, fetch, sub_amounts,
  internal_sub_balance,
}
use intents.Cached.Balances.{internal_sub_balance-balance_of}

abbrev usdc : TokenId
usdc = TokenId.nep141 "usdc.near"

abbrev ten_each : View
ten_each = record {
  view_balance_of = λ _ _. 10;
  view_is_account_locked = λ _. false;
  view_has_public_key = λ _ _. false;
  view_is_nonce_used = λ _ _. false;
}

abbrev emptied : CachedAccounts
emptied =
    (
      "alice.near",
      record {
        locked = false;
        value = record {
          nonces = [];
          auth_by_predecessor_id_toggled = false;
          public_keys_added = [];
          public_keys_removed = [];
          token_amounts = [];
        };
      },
    )
    ∷ []

spends_all : internal_sub_balance ten_each [] "alice.near" ((usdc, 10) ∷ []) ≡ ok emptied
unfolding internal_sub_balance get_or_create sub_amounts fetch add sub checked_apply get_or_default
    store get insert remove
spends_all = refl

spends_again : internal_sub_balance ten_each emptied "alice.near" ((usdc, 10) ∷ []) ≡ ok emptied
unfolding internal_sub_balance get_or_create sub_amounts fetch add sub checked_apply get_or_default
    store get insert remove
spends_again = refl

internal_sub_balance-balance_of_example :
    (is_account_locked ten_each [] "alice.near" ≡ false)
    × (◌≢◌ {A = ℕ} 10 0)
    × (10 ≤ balance_of ten_each [] "alice.near" usdc)
    × (balance_of ten_each emptied "alice.near" usdc ≡ (
        if nat_beq 10 (balance_of ten_each [] "alice.near" usdc)
        then 10
        else balance_of ten_each [] "alice.near" usdc - 10))
internal_sub_balance-balance_of_example =
    internal_sub_balance-balance_of ten_each [] emptied "alice.near" usdc 10 spends_all
