-- ===== src/Records/Settlement.antt =====
-- A private settlement (src/settlements/settlements.types.ts) and the partial update of its row
-- (src/settlements/settlements.repository.ts).
use avasettile.Common.{ℕ, String, Option, none, or_default}
use avasettile.Records.Common.{SettlementAsset, Json}

pub data PrivateSettlementStatus : Type 0 where
  recorded revealed : PrivateSettlementStatus

pub record PrivateSettlementRecord : Type 0 where
  pub id : ℕ
  pub client_id : Option ℕ
  pub external_id : String
  pub settlement_id : ℕ
  pub settlement_ref : ℕ
  pub commitment : ℕ
  pub asset : SettlementAsset
  pub token_address : ℕ
  pub amount : String
  pub amount_atomic : ℕ
  pub counterparty : ℕ
  pub nonce : ℕ
  pub status : PrivateSettlementStatus
  pub transaction_hash : Option ℕ
  pub reveal_transaction_hash : Option ℕ
  pub metadata : Json
  pub created_at : ℕ
  pub updated_at : ℕ

abbrev pub settlement_key : PrivateSettlementRecord → ℕ
settlement_key s = s.id

-- The `patch` of `update`; `none` leaves a column as it is.
pub record SettlementPatch : Type 0 where
  pub status : Option PrivateSettlementStatus
  pub transaction_hash : Option (Option ℕ)
  pub reveal_transaction_hash : Option (Option ℕ)

abbrev pub no_patch : SettlementPatch
no_patch = record { status = none; transaction_hash = none; reveal_transaction_hash = none }

abbrev pub apply_patch : ℕ → SettlementPatch → PrivateSettlementRecord → PrivateSettlementRecord
apply_patch now patch s = record s {
  status = or_default patch.status s.status;
  transaction_hash = or_default patch.transaction_hash s.transaction_hash;
  reveal_transaction_hash = or_default patch.reveal_transaction_hash s.reveal_transaction_hash;
  updated_at = now;
}

-- A call of the PrivateSettlementRegistry that was handed to the network. `commitment` is that of the
-- row whose preimage is revealed, which the program knows at that point and the call does not show.
pub data Publication : Type 0 where
  record_commitment : (settlement_ref commitment : ℕ) → Publication
  reveal_preimage :
      (commitment settlement_id amount token_address counterparty nonce : ℕ) → Publication
