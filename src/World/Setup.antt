-- ===== src/World/Setup.antt =====
-- The configuration (src/configuration/configuration.service.ts) and the functions of viem that
-- the program calls; both are parameters.
use avasettile.Common.{ℕ, Bool, String, Option, List}
use avasettile.Common.Int.{ℤ}
use avasettile.Records.Common.{SettlementNetwork, SettlementAsset}

pub record AssetRuntimeConfig : Type 0 where
  pub address : Option ℕ
  pub decimals : ℕ
  pub max_payout_amount : Option String

pub record Config : Type 0 where
  pub settlement_network : SettlementNetwork
  pub chain_id : ℕ
  pub get_asset_config : SettlementAsset → AssetRuntimeConfig
  -- the address of the treasury key, of the operator key, and whether the mnemonic is there
  pub treasury_account : Option ℕ
  pub vault_operator : Option ℕ
  pub has_mnemonic : Bool
  pub settlement_vault_address : Option ℕ
  pub payment_router_address : Option ℕ
  pub private_settlement_registry_address : Option ℕ
  -- the addresses of the registrar key and of the auditor key
  pub registrar_account : Option ℕ
  pub auditor_account : Option ℕ
  pub min_confirmations : ℕ
  pub wait_for_receipt : Bool
  pub payin_lookback_blocks : ℕ
  pub payin_default_expiration_minutes : Option ℕ
  pub auto_sweep : Bool
  pub webhook_retry_attempts : ℕ

pub record Viem : Type 0 where
  -- `none` where `parseUnits` throws
  pub parse_units : String → ℕ → Option ℤ
  pub format_units : ℕ → ℕ → String
  pub is_address : ℕ → Bool
  -- `keccak256(stringToBytes(s))`, and `keccak256(encodeAbiParameters(…))`
  pub keccak_text : String → ℕ
  pub keccak_words : List ℕ → ℕ
  -- the address of `mnemonicToAccount` at an index
  pub derive_address : ℕ → ℕ
