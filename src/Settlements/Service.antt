-- ===== src/Settlements/Service.antt =====
-- SettlementsService (src/settlements/settlements.service.ts).
use avasettile.Common.{
  ℕ, Bool, true, false, String, Option, none, some, List, [], ◌∷◌, map, is_some, or_default, not,
  if◌then◌else◌,
}
use avasettile.Effect.{
  Error, not_configured, record_not_found, pure, throw, call, or_throw, try_catch, ok, ◌>>=◌, ◌>>◌,
}
use avasettile.Records.Common.{SettlementAsset, Json, text, number, AuditEventType, RequestContext}
use avasettile.Records.Settlement.{
  PrivateSettlementRecord, PrivateSettlementStatus, recorded, revealed, SettlementPatch, no_patch,
}
use avasettile.World.{
  Config, Viem, Handler, get_now, random_uuid, record_event, to_audit_actor, parse_amount, throw_if,
  require_asset,
}
use avasettile.Blockchain.Rail.{TransferExecution}
use avasettile.Settlements.Registry.{
  settlement_ref_from_external_id, compute_settlement_id, compute_settlement_commitment,
  record_private_settlement, reveal_private_settlement,
}
use avasettile.Settlements.Repository.{
  create_or_get_existing, find_by_id, list_settlements, update_settlement, delete_settlement,
}

-- `CreateSettlementDto`; `getAddress` of a counterparty keeps the address.
pub record CreateSettlement : Type 0 where
  pub external_id : String
  pub asset : SettlementAsset
  pub amount : String
  pub counterparty : ℕ
  pub metadata : Option Json

-- `PrivateSettlementResponse`: the record without its nonce.
pub record SettlementResponse : Type 0 where
  pub id : ℕ
  pub client_id : Option ℕ
  pub external_id : String
  pub settlement_id : ℕ
  pub settlement_ref : ℕ
  pub commitment : ℕ
  pub asset : SettlementAsset
  pub token_address : ℕ
  pub amount : String
  pub amount_atomic : ℕ
  pub counterparty : ℕ
  pub status : PrivateSettlementStatus
  pub transaction_hash : Option ℕ
  pub reveal_transaction_hash : Option ℕ
  pub metadata : Json
  pub created_at : ℕ
  pub updated_at : ℕ
  pub idempotent_replay : Bool

abbrev pub to_settlement_response : PrivateSettlementRecord → Bool → SettlementResponse
to_settlement_response s replay = record {
  id = s.id;
  client_id = s.client_id;
  external_id = s.external_id;
  settlement_id = s.settlement_id;
  settlement_ref = s.settlement_ref;
  commitment = s.commitment;
  asset = s.asset;
  token_address = s.token_address;
  amount = s.amount;
  amount_atomic = s.amount_atomic;
  counterparty = s.counterparty;
  status = s.status;
  transaction_hash = s.transaction_hash;
  reveal_transaction_hash = s.reveal_transaction_hash;
  metadata = s.metadata;
  created_at = s.created_at;
  updated_at = s.updated_at;
  idempotent_replay = replay;
}

abbrev pub is_revealed : PrivateSettlementStatus → Bool
is_revealed revealed = true
is_revealed recorded = false

-- `bytesToHex(randomBytes(32))`
abbrev pub random_nonce : Handler ℕ
random_nonce = call (λ env w. (ok env.random_bytes, w))

unfoldable pub require_settlement : ℕ → RequestContext → Handler PrivateSettlementRecord
require_settlement id ctx = do or_throw (← find_by_id id ctx.client_id) record_not_found

unfoldable pub get_settlement : ℕ → RequestContext → Handler SettlementResponse
unfolding require_settlement
get_settlement id ctx = do s ← require_settlement id ctx; pure (to_settlement_response s false)

unfoldable pub list_settlement_responses :
    (limit offset : Option ℕ) → RequestContext → Handler (List SettlementResponse)
list_settlement_responses limit offset ctx = do
  records ← list_settlements ctx.client_id (or_default limit 100) (or_default offset 0)
  pure (map (λ s. to_settlement_response s false) records)

module _ (config : Config) (viem : Viem) (ctx : RequestContext) where
  -- The row that `record` inserts.
  abbrev pub new_settlement :
      CreateSettlement → (id now token amount_atomic nonce : ℕ) → PrivateSettlementRecord
  new_settlement dto id now token amount_atomic nonce =
      let settlement_ref = settlement_ref_from_external_id viem dto.external_id in
      record {
        id = id;
        client_id = ctx.client_id;
        external_id = dto.external_id;
        settlement_id = compute_settlement_id viem settlement_ref;
        settlement_ref = settlement_ref;
        commitment = compute_settlement_commitment viem amount_atomic token dto.counterparty nonce;
        asset = dto.asset;
        token_address = token;
        amount = dto.amount;
        amount_atomic = amount_atomic;
        counterparty = dto.counterparty;
        nonce = nonce;
        status = recorded;
        transaction_hash = none;
        reveal_transaction_hash = none;
        metadata = or_default dto.metadata [];
        created_at = now;
        updated_at = now;
      }

  abbrev pub recorded_patch : TransferExecution → SettlementPatch
  recorded_patch exec = record no_patch { transaction_hash = some (some exec.hash) }

  -- The body of the `try`.
  unfoldable pub publish_settlement : PrivateSettlementRecord → Handler SettlementResponse
  unfolding record_private_settlement
  publish_settlement s = do
    exec ← record_private_settlement config viem s.settlement_ref s.commitment
    updated ← update_settlement s.id (recorded_patch exec)
    record_event AuditEventType.private_settlement_recorded s.id (to_audit_actor ctx none) (
        ("externalId", text s.external_id)
        ∷ ("settlementId", number s.settlement_id)
        ∷ ("commitment", number s.commitment)
        ∷ ("transactionHash", number exec.hash)
        ∷ [])
    pure (to_settlement_response (or_default updated s) false)

  -- The `catch`: the claim is released.
  unfoldable pub release_claim : PrivateSettlementRecord → Error → Handler SettlementResponse
  unfolding delete_settlement
  release_claim s e = do delete_settlement s.id; throw e

  -- After the claim. The settlement id and the commitment are those of the row that was inserted.
  unfoldable pub publish_or_replay : PrivateSettlementRecord × Bool → Handler SettlementResponse
  unfolding publish_settlement release_claim
  publish_or_replay (s, true) = pure (to_settlement_response s true)
  publish_or_replay (s, false) = try_catch (publish_settlement s) (release_claim s)

  unfoldable pub record_settlement : CreateSettlement → Handler SettlementResponse
  unfolding publish_or_replay
  record_settlement dto = do
    throw_if (not (is_some config.private_settlement_registry_address)) not_configured
    token ← require_asset config dto.asset
    amount_atomic ← parse_amount viem dto.amount (config.get_asset_config dto.asset)
    nonce ← random_nonce
    id ← random_uuid
    now ← get_now
    claimed ← create_or_get_existing (new_settlement dto id now token amount_atomic nonce)
    publish_or_replay claimed

  abbrev pub revealed_patch : TransferExecution → SettlementPatch
  revealed_patch exec = record no_patch {
    status = some revealed;
    reveal_transaction_hash = some (some exec.hash);
  }

  unfoldable pub reveal_recorded : ℕ → PrivateSettlementRecord → Handler SettlementResponse
  unfolding reveal_private_settlement
  reveal_recorded id s = do
    exec ← reveal_private_settlement config viem s
    updated ← update_settlement id (revealed_patch exec)
    record_event AuditEventType.private_settlement_revealed id (to_audit_actor ctx none)
        (("settlementId", number s.settlement_id) ∷ ("transactionHash", number exec.hash) ∷ [])
    pure (to_settlement_response (or_default updated s) false)

  unfoldable pub reveal_settlement : ℕ → Handler SettlementResponse
  unfolding require_settlement reveal_recorded
  reveal_settlement id = do
    s ← require_settlement id ctx
    if is_revealed s.status then pure (to_settlement_response s true) else reveal_recorded id s
