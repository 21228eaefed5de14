-- ===== src/Records/Payout.antt =====
-- A payout (src/payouts/payout.types.ts) and the partial update of its row
-- (src/payouts/payout-ledger.service.ts). An atomic amount, stored as decimal text, is a number;
-- a stored failure message is the error that it is the message of.
use avasettile.Common.{ℕ, Bool, true, false, ◌||◌, String, Option, none, List, any, or_default}
use avasettile.Effect.{Error}
use avasettile.Records.Common.{SettlementNetwork, SettlementAsset, Json}

pub data PayoutStatus : Type 0 where
  prepared authorized broadcasted confirmed failed : PayoutStatus

pub record PayoutRecord : Type 0 where
  pub id : ℕ
  pub client_id : Option ℕ
  pub external_id : String
  pub chain_flow_request_id : Option String
  pub status : PayoutStatus
  pub network : SettlementNetwork
  pub chain_id : ℕ
  pub asset : SettlementAsset
  pub token_address : ℕ
  pub amount : String
  pub amount_atomic : ℕ
  pub beneficiary_address : ℕ
  pub beneficiary_name : Option String
  pub treasury_address : Option ℕ
  pub transaction_hash : Option ℕ
  pub failure_reason : Option Error
  pub memo : Option String
  pub metadata : Json
  pub created_at : ℕ
  pub updated_at : ℕ
  pub authorized_at : Option ℕ
  pub broadcasted_at : Option ℕ
  pub confirmed_at : Option ℕ

abbrev pub payout_key : PayoutRecord → ℕ
payout_key p = p.id

abbrev pub same_status : PayoutStatus → PayoutStatus → Bool
same_status prepared prepared = true
same_status authorized authorized = true
same_status broadcasted broadcasted = true
same_status confirmed confirmed = true
same_status failed failed = true
same_status _ _ = false

-- `status = ANY($n)`
abbrev pub status_in : PayoutStatus → List PayoutStatus → Bool
status_in s expected = any (same_status s) expected

-- `status === Broadcasted || status === Confirmed`
abbrev pub is_sent : PayoutStatus → Bool
is_sent s = same_status s broadcasted || same_status s confirmed

-- The fields that `PATCH_COLUMNS` allows; `none` is a field that the patch does not have.
pub record PayoutPatch : Type 0 where
  pub status : Option PayoutStatus
  pub treasury_address : Option (Option ℕ)
  pub transaction_hash : Option (Option ℕ)
  pub failure_reason : Option (Option Error)
  pub metadata : Option Json
  pub authorized_at : Option (Option ℕ)
  pub broadcasted_at : Option (Option ℕ)
  pub confirmed_at : Option (Option ℕ)

abbrev pub no_patch : PayoutPatch
no_patch = record {
  status = none;
  treasury_address = none;
  transaction_hash = none;
  failure_reason = none;
  metadata = none;
  authorized_at = none;
  broadcasted_at = none;
  confirmed_at = none;
}

-- `SET …, updated_at = now()`
abbrev pub apply_patch : ℕ → PayoutPatch → PayoutRecord → PayoutRecord
apply_patch now patch p = record p {
  status = or_default patch.status p.status;
  treasury_address = or_default patch.treasury_address p.treasury_address;
  transaction_hash = or_default patch.transaction_hash p.transaction_hash;
  failure_reason = or_default patch.failure_reason p.failure_reason;
  metadata = or_default patch.metadata p.metadata;
  updated_at = now;
  authorized_at = or_default patch.authorized_at p.authorized_at;
  broadcasted_at = or_default patch.broadcasted_at p.broadcasted_at;
  confirmed_at = or_default patch.confirmed_at p.confirmed_at;
}
