-- ===== src/Records/PayIn.antt =====
-- A pay-in (src/payins/payins.types.ts) and the partial update of its row
-- (src/payins/payin-ledger.service.ts).
use avasettile.Common.{ℕ, Bool, true, false, String, Option, none, List, or_default}
use avasettile.Common.Int.{ℤ}
use avasettile.Effect.{Error}
use avasettile.Records.Common.{SettlementNetwork, SettlementAsset, Json}

pub data PayInStatus : Type 0 where
  pending detected confirmed expired underpaid overpaid : PayInStatus

pub data PayInCollectionMode : Type 0 where
  derived_address payment_router : PayInCollectionMode

pub data PayInSweepStatus : Type 0 where
  not_required pending broadcasted confirmed failed : PayInSweepStatus

pub record PayInTransferRecord : Type 0 where
  pub hash : ℕ
  pub log_index : Option ℕ
  pub from : ℕ
  pub to : ℕ
  pub amount : String
  pub amount_atomic : ℕ
  pub block_number : ℕ

pub record PayInRecord : Type 0 where
  pub id : ℕ
  pub client_id : Option ℕ
  pub external_id : String
  pub chain_flow_request_id : Option String
  pub status : PayInStatus
  pub network : SettlementNetwork
  pub chain_id : ℕ
  pub asset : SettlementAsset
  pub token_address : ℕ
  pub expected_amount : String
  pub expected_amount_atomic : ℕ
  pub received_amount : String
  pub received_amount_atomic : ℕ
  pub deposit_address : ℕ
  pub derivation_index : ℤ
  pub collection_mode : PayInCollectionMode
  pub router_address : Option ℕ
  pub router_invoice_id : Option ℕ
  pub start_block : ℕ
  pub last_scanned_block : Option ℕ
  pub expires_at : Option ℕ
  pub metadata : Json
  pub transfers : List PayInTransferRecord
  pub sweep_status : PayInSweepStatus
  pub sweep_transaction_hash : Option ℕ
  pub swept_amount : String
  pub swept_amount_atomic : ℕ
  pub swept_at : Option ℕ
  pub sweep_failure_reason : Option Error
  pub created_at : ℕ
  pub updated_at : ℕ
  pub detected_at : Option ℕ
  pub confirmed_at : Option ℕ
  pub accepted_at : Option ℕ
  pub acceptance_note : Option String

abbrev pub payin_key : PayInRecord → ℕ
payin_key p = p.id

abbrev pub same_status : PayInStatus → PayInStatus → Bool
same_status PayInStatus.pending PayInStatus.pending = true
same_status detected detected = true
same_status PayInStatus.confirmed PayInStatus.confirmed = true
same_status expired expired = true
same_status underpaid underpaid = true
same_status overpaid overpaid = true
same_status _ _ = false

abbrev pub same_sweep_status : PayInSweepStatus → PayInSweepStatus → Bool
same_sweep_status not_required not_required = true
same_sweep_status PayInSweepStatus.pending PayInSweepStatus.pending = true
same_sweep_status broadcasted broadcasted = true
same_sweep_status PayInSweepStatus.confirmed PayInSweepStatus.confirmed = true
same_sweep_status failed failed = true
same_sweep_status _ _ = false

-- `collectionMode === PayInCollectionMode.PaymentRouter`
abbrev pub is_router : PayInCollectionMode → Bool
is_router payment_router = true
is_router derived_address = false

-- The fields of `PATCH_COLUMNS` that the service patches; `none` is a field not in the patch.
pub record PayInPatch : Type 0 where
  pub status : Option PayInStatus
  pub received_amount : Option String
  pub received_amount_atomic : Option ℕ
  pub sweep_status : Option PayInSweepStatus
  pub sweep_transaction_hash : Option (Option ℕ)
  pub swept_amount : Option String
  pub swept_amount_atomic : Option ℕ
  pub swept_at : Option (Option ℕ)
  pub sweep_failure_reason : Option (Option Error)
  pub last_scanned_block : Option (Option ℕ)
  pub accepted_at : Option (Option ℕ)
  pub acceptance_note : Option (Option String)
  pub metadata : Option Json
  pub transfers : Option (List PayInTransferRecord)
  pub detected_at : Option (Option ℕ)
  pub confirmed_at : Option (Option ℕ)

abbrev pub no_patch : PayInPatch
no_patch = record {
  status = none;
  received_amount = none;
  received_amount_atomic = none;
  sweep_status = none;
  sweep_transaction_hash = none;
  swept_amount = none;
  swept_amount_atomic = none;
  swept_at = none;
  sweep_failure_reason = none;
  last_scanned_block = none;
  accepted_at = none;
  acceptance_note = none;
  metadata = none;
  transfers = none;
  detected_at = none;
  confirmed_at = none;
}

-- `SET …, updated_at = now()`
abbrev pub apply_patch : ℕ → PayInPatch → PayInRecord → PayInRecord
apply_patch now patch p = record p {
  status = or_default patch.status p.status;
  received_amount = or_default patch.received_amount p.received_amount;
  received_amount_atomic = or_default patch.received_amount_atomic p.received_amount_atomic;
  last_scanned_block = or_default patch.last_scanned_block p.last_scanned_block;
  metadata = or_default patch.metadata p.metadata;
  transfers = or_default patch.transfers p.transfers;
  sweep_status = or_default patch.sweep_status p.sweep_status;
  sweep_transaction_hash = or_default patch.sweep_transaction_hash p.sweep_transaction_hash;
  swept_amount = or_default patch.swept_amount p.swept_amount;
  swept_amount_atomic = or_default patch.swept_amount_atomic p.swept_amount_atomic;
  swept_at = or_default patch.swept_at p.swept_at;
  sweep_failure_reason = or_default patch.sweep_failure_reason p.sweep_failure_reason;
  updated_at = now;
  detected_at = or_default patch.detected_at p.detected_at;
  confirmed_at = or_default patch.confirmed_at p.confirmed_at;
  accepted_at = or_default patch.accepted_at p.accepted_at;
  acceptance_note = or_default patch.acceptance_note p.acceptance_note;
}
