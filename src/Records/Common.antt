-- ===== src/Records/Common.antt =====
-- Types that several parts share (src/configuration/configuration.types.ts,
-- src/audit/audit.types.ts, src/payouts/payout.types.ts). UUIDs, addresses and hashes are numbers,
-- since they are only compared and passed on; timestamps are in milliseconds.
use avasettile.Common.{ℕ, Bool, String, Option, List}
use avasettile.Effect.{Error}

pub data SettlementNetwork : Type 0 where
  avalanche_fuji avalanche_mainnet : SettlementNetwork

pub data SettlementAsset : Type 0 where
  usdc usdt : SettlementAsset

abbrev pub same_asset : SettlementAsset → SettlementAsset → Bool
same_asset usdc usdc = Bool.true
same_asset usdt usdt = Bool.true
same_asset _ _ = Bool.false

abbrev pub asset_text : SettlementAsset → String
asset_text usdc = "USDC"
asset_text usdt = "USDT"

-- A value of a JSON object that is stored or sent.
pub data Value : Type 0 where
  null : Value
  text : String → Value
  number : ℕ → Value
  flag : Bool → Value
  reason : Error → Value

abbrev pub Json : Type 0
Json = List (String × Value)

pub record RequestContext : Type 0 where
  pub client_id : Option ℕ
  pub client_name : Option String
  pub correlation_id : Option String
  pub idempotency_key : Option String
  pub actor : Option String
  pub source_ip : Option String

pub data AuditEventType : Type 0 where
  payout_prepared payout_idempotent_replay payout_authorized payout_broadcasted : AuditEventType
  payout_confirmed payout_failed payout_reconciled : AuditEventType
  payin_created payin_reconciled payin_swept payin_sweep_failed payin_accepted : AuditEventType
  payin_topup private_settlement_recorded private_settlement_revealed : AuditEventType

pub record AuditActor : Type 0 where
  pub client_id : Option ℕ
  pub actor : Option String
  pub correlation_id : Option String
  pub source_ip : Option String

pub record AuditEvent : Type 0 where
  pub id : ℕ
  pub client_id : Option ℕ
  pub type : AuditEventType
  pub subject_id : ℕ
  pub actor : AuditActor
  pub payload : Json
  pub created_at : ℕ
