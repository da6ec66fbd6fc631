-- ===== src/Intents.antt =====
-- contracts/defuse/core/src/intents: the intents that a signer can ask for.
-- A `NearToken` or a `Gas` is its number; a `StateInit` of near-sdk, which is only passed on, is the
-- text it is written as.
use intents.Prelude.{ℕ, Bool, String, List, Option, none, some, ltb, ◌*◌, ◌^◌, if◌then◌else◌}
use intents.Prelude.Int.{ℤ}
use intents.Amounts.{Amounts}
use intents.TokenId.{AccountId, TokenId}
use intents.Error.{PublicKey}

pub record NotifyOnTransfer : Type 0 where
  pub state_init : Option String
  pub msg : String
  pub min_gas : Option ℕ

pub record Transfer : Type 0 where
  pub receiver_id : AccountId
  pub tokens : Amounts TokenId ℕ
  pub memo : Option String
  pub notification : Option NotifyOnTransfer

pub record FtWithdraw : Type 0 where
  pub token : AccountId
  pub receiver_id : AccountId
  pub amount : ℕ
  pub memo : Option String
  pub msg : Option String
  pub storage_deposit : Option ℕ
  pub min_gas : Option ℕ

pub record NftWithdraw : Type 0 where
  pub token : AccountId
  pub receiver_id : AccountId
  pub token_id : String
  pub memo : Option String
  pub msg : Option String
  pub storage_deposit : Option ℕ
  pub min_gas : Option ℕ

pub record MtWithdraw : Type 0 where
  pub token : AccountId
  pub receiver_id : AccountId
  pub token_ids : List String
  pub amounts : List ℕ
  pub memo : Option String
  pub msg : Option String
  pub storage_deposit : Option ℕ
  pub min_gas : Option ℕ

pub record NativeWithdraw : Type 0 where
  pub receiver_id : AccountId
  pub amount : ℕ

pub record StorageDeposit : Type 0 where
  pub contract_id : AccountId
  pub deposit_for_account_id : AccountId
  pub amount : ℕ

pub record TokenDiff : Type 0 where
  pub diff : Amounts TokenId ℤ
  pub memo : Option String
  pub referral : Option AccountId

pub record AuthCall : Type 0 where
  pub contract_id : AccountId
  pub state_init : Option String
  pub msg : String
  pub attached_deposit : ℕ
  pub min_gas : Option ℕ

pub record ImtMint : Type 0 where
  pub receiver_id : AccountId
  pub tokens : Amounts String ℕ
  pub memo : Option String
  pub notification : Option NotifyOnTransfer

pub record ImtBurn : Type 0 where
  pub minter_id : AccountId
  pub tokens : Amounts String ℕ
  pub memo : Option String

pub data Intent : Type 0 where
  add_public_key remove_public_key : PublicKey → Intent
  transfer : Transfer → Intent
  ft_withdraw : FtWithdraw → Intent
  nft_withdraw : NftWithdraw → Intent
  mt_withdraw : MtWithdraw → Intent
  native_withdraw : NativeWithdraw → Intent
  storage_deposit : StorageDeposit → Intent
  token_diff : TokenDiff → Intent
  set_auth_by_predecessor_id : Bool → Intent
  auth_call : AuthCall → Intent
  imt_mint : ImtMint → Intent
  imt_burn : ImtBurn → Intent

-- `MT_ON_TRANSFER_GAS_MIN` and `MT_ON_TRANSFER_GAS_DEFAULT`: 5 and 30 TGas.
abbrev pub mt_on_transfer_gas_min : ℕ
mt_on_transfer_gas_min = 5 * 10 ^ 12

abbrev pub mt_on_transfer_gas_default : ℕ
mt_on_transfer_gas_default = 30 * 10 ^ 12

abbrev pub gas_or : Option ℕ → ℕ → ℕ
gas_or none default_gas = default_gas
gas_or (some gas) default_gas = gas

abbrev pub at_least : ℕ → ℕ → ℕ
at_least gas low = if ltb gas low then low else gas

-- The adjustment of `min_gas` before a notification is sent.
unfoldable pub with_gas : NotifyOnTransfer → NotifyOnTransfer
with_gas n = record {
  state_init = n.state_init;
  msg = n.msg;
  min_gas = some (at_least (gas_or n.min_gas mt_on_transfer_gas_default) mt_on_transfer_gas_min);
}
