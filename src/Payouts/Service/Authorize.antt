-- ===== src/Payouts/Service/Authorize.antt =====
-- `authorizePayout` and `createPayout` (src/payouts/payouts.service.ts). What stands in the `try`
-- block is `send_authorized`; `return this.toResponse(updated)` is not awaited there, so what it
-- throws passes the `catch` block by, which is `send_failed`.
use avasettile.Common.{
  ℕ, Bool, true, false, String, Option, none, some, [], ◌∷◌, ltb, or_default, is_some,
  if◌then◌else◌,
}
use avasettile.Effect.{
  Error, payout_exceeds_max, insufficient_treasury_balance, not_authorizable, broadcast_failed,
  null_dereference, is_conflict, pure, throw, from_result, try_catch, ◌>>=◌, ◌>>◌,
}
use avasettile.Records.Common.{
  asset_text, Value, text, null, reason, number, AuditEventType, RequestContext,
}
use avasettile.Records.Payout.{
  PayoutRecord, PayoutStatus, PayoutPatch, prepared, authorized, failed, no_patch, is_sent,
  same_status,
}
use avasettile.World.{
  Config, Viem, Handler, get_now, random_uuid, record_event, to_audit_actor, enqueue, parse_amount,
  parse_atomic_amount, throw_if,
}
use avasettile.Blockchain.Rail.{
  TransferExecution, ExecutionStatus, get_asset_balance, vault_payout, send_erc20_transfer,
}
use avasettile.Payouts.Ledger.{create_or_get_existing, update_payout}
use avasettile.Payouts.Service.Defs.{
  CreatePayout, AuthorizePayout, no_approval, PayoutResponse, to_response, require_payout,
}

abbrev pub text_or_null : Option String → Value
text_or_null none = null
text_or_null (some s) = text s

abbrev pub number_or_null : Option ℕ → Value
number_or_null none = null
number_or_null (some n) = number n

abbrev pub payout_status_of : ExecutionStatus → PayoutStatus
payout_status_of ExecutionStatus.confirmed = PayoutStatus.confirmed
payout_status_of ExecutionStatus.broadcasted = PayoutStatus.broadcasted

abbrev pub confirmation_time : ExecutionStatus → ℕ → Option ℕ
confirmation_time ExecutionStatus.confirmed now = some now
confirmation_time ExecutionStatus.broadcasted now = none

abbrev pub sent_event : ExecutionStatus → AuditEventType
sent_event ExecutionStatus.confirmed = AuditEventType.payout_confirmed
sent_event ExecutionStatus.broadcasted = AuditEventType.payout_broadcasted

-- The patches of the four transitions.
abbrev pub claim_patch : ℕ → PayoutPatch
claim_patch now = record no_patch { status = some authorized; authorized_at = some (some now) }

abbrev pub sent_patch : ℕ → TransferExecution → PayoutPatch
sent_patch now transfer = record no_patch {
  status = some (payout_status_of transfer.status);
  transaction_hash = some (some transfer.hash);
  broadcasted_at = some (some now);
  confirmed_at = some (confirmation_time transfer.status now);
  failure_reason = some none;
}

abbrev pub release_patch : Error → PayoutPatch
release_patch e = record no_patch { status = some prepared; failure_reason = some (some e) }

abbrev pub failure_patch : Error → PayoutPatch
failure_patch e = record no_patch { status = some failed; failure_reason = some (some e) }

abbrev pub rail_name : Config → String
rail_name config = if is_some config.settlement_vault_address then "vault" else "direct"

-- `if (status === PayoutStatus.Confirmed) await this.webhook.enqueue(updated.clientId, …)`
abbrev pub notify_confirmed : ExecutionStatus → Option PayoutRecord → Handler (Unit {0})
notify_confirmed ExecutionStatus.broadcasted updated = pure tt
notify_confirmed ExecutionStatus.confirmed none = throw null_dereference
notify_confirmed ExecutionStatus.confirmed (some p) = enqueue p.client_id "payout.confirmed" (
    ("id", number p.id)
    ∷ ("externalId", text p.external_id)
    ∷ ("asset", text (asset_text p.asset))
    ∷ ("amount", text p.amount)
    ∷ ("beneficiaryAddress", number p.beneficiary_address)
    ∷ ("transactionHash", number_or_null p.transaction_hash)
    ∷ ("confirmedAt", number_or_null p.confirmed_at)
    ∷ [])

abbrev pub respond : Option PayoutRecord → Handler PayoutResponse
respond none = throw null_dereference
respond (some p) = to_response p false

abbrev pub reject_failed : Option PayoutRecord → Handler (Option PayoutRecord)
reject_failed none = throw null_dereference
reject_failed (some p) = do to_response p false; throw broadcast_failed

module _ (config : Config) (viem : Viem) (dto : AuthorizePayout) (ctx : RequestContext) where
  -- The claim was not granted: a replay, or a status that cannot be authorized.
  unfoldable pub claim_refused : ℕ → Handler PayoutResponse
  claim_refused id = do
    current ← require_payout id ctx
    if same_status current.status authorized
        then to_response current true
        else if is_sent current.status
        then to_response current true
        else throw not_authorizable

  -- The vault if one is configured, else a direct transfer from the treasury.
  unfoldable pub transfer_of : ℕ → PayoutRecord → Handler TransferExecution
  transfer_of id p =
      if is_some config.settlement_vault_address
      then vault_payout config viem id p.asset p.beneficiary_address p.amount_atomic
      else send_erc20_transfer config viem id p.asset p.beneficiary_address p.amount_atomic

  -- The body of the `try` block.
  unfoldable pub send_authorized : ℕ → ℕ → PayoutRecord → Handler (Option PayoutRecord)
  unfolding transfer_of
  send_authorized id now p = do
    balance ← get_asset_balance config viem p.asset
    throw_if (ltb balance p.amount_atomic) insufficient_treasury_balance
    transfer ← transfer_of id p
    updated ← update_payout id (sent_patch now transfer) (some (authorized ∷ []))
    record_event (sent_event transfer.status) id (to_audit_actor ctx dto.approved_by)
        (("transactionHash", number transfer.hash) ∷ ("rail", text (rail_name config)) ∷ [])
    notify_confirmed transfer.status updated
    pure updated

  -- The `catch` block.
  unfoldable pub send_failed : ℕ → Error → Handler (Option PayoutRecord)
  send_failed id e =
      if is_conflict e
      then (do update_payout id (release_patch e) (some (authorized ∷ [])); throw e)
      else (do
        updated ← update_payout id (failure_patch e) (some (authorized ∷ []))
        record_event AuditEventType.payout_failed id (to_audit_actor ctx dto.approved_by)
            (("failureReason", reason e) ∷ [])
        reject_failed updated)

  unfoldable pub settle_claimed : ℕ → ℕ → Option PayoutRecord → Handler PayoutResponse
  unfolding claim_refused send_authorized send_failed
  settle_claimed id now none = claim_refused id
  settle_claimed id now (some p) = do
    record_event AuditEventType.payout_authorized id (to_audit_actor ctx dto.approved_by) (
        ("riskDecisionId", text_or_null dto.risk_decision_id)
        ∷ ("notes", text_or_null dto.notes)
        ∷ [])
    updated ← try_catch (send_authorized id now p) (send_failed id)
    respond updated

  unfoldable pub claim_and_settle : ℕ → Handler PayoutResponse
  unfolding settle_claimed
  claim_and_settle id = do
    now ← get_now
    claimed ← update_payout id (claim_patch now) (some (prepared ∷ []))
    settle_claimed id now claimed

  unfoldable pub authorize_payout : ℕ → Handler PayoutResponse
  unfolding claim_and_settle
  authorize_payout id = do
    payout ← require_payout id ctx
    if is_sent payout.status then to_response payout true else claim_and_settle id

-- `createPayout`
module _ (config : Config) (viem : Viem) (ctx : RequestContext) where
  abbrev pub max_exceeded : Option String → ℕ → ℕ → Handler (Unit {0})
  max_exceeded none decimals amount = pure tt
  max_exceeded (some limit) decimals amount = do
    max_atomic ← from_result (parse_atomic_amount viem limit decimals)
    throw_if (ltb max_atomic amount) payout_exceeds_max

  -- The row that is inserted; the token address is asserted to be there (`assetConfig.address!`).
  abbrev pub new_payout : CreatePayout → ℕ → ℕ → ℕ → PayoutRecord
  new_payout dto id now amount_atomic = record {
    id = id;
    client_id = ctx.client_id;
    external_id = dto.external_id;
    chain_flow_request_id = dto.chain_flow_request_id;
    status = prepared;
    network = config.settlement_network;
    chain_id = config.chain_id;
    asset = dto.asset;
    token_address = or_default (config.get_asset_config dto.asset).address 0;
    amount = dto.amount;
    amount_atomic = amount_atomic;
    beneficiary_address = dto.beneficiary_address;
    beneficiary_name = dto.beneficiary_name;
    treasury_address = config.treasury_account;
    transaction_hash = none;
    failure_reason = none;
    memo = dto.memo;
    metadata = or_default dto.metadata [];
    created_at = now;
    updated_at = now;
    authorized_at = none;
    broadcasted_at = none;
    confirmed_at = none;
  }

  unfoldable pub finish_create : CreatePayout → PayoutRecord × Bool → Handler PayoutResponse
  finish_create dto (p, true) = do
    record_event AuditEventType.payout_idempotent_replay p.id (to_audit_actor ctx none)
        (("externalId", text dto.external_id) ∷ [])
    to_response p true
  finish_create dto (p, false) = do
    record_event AuditEventType.payout_prepared p.id (to_audit_actor ctx none) (
        ("externalId", text p.external_id)
        ∷ ("amount", text p.amount)
        ∷ ("asset", text (asset_text p.asset))
        ∷ ("beneficiaryAddress", number p.beneficiary_address)
        ∷ [])
    if dto.execute_immediately
        then authorize_payout config viem no_approval ctx p.id
        else to_response p false

  unfoldable pub create_payout : CreatePayout → Handler PayoutResponse
  unfolding finish_create
  create_payout dto = do
    amount_atomic ← parse_amount viem dto.amount (config.get_asset_config dto.asset)
    max_exceeded (config.get_asset_config dto.asset).max_payout_amount
        (config.get_asset_config dto.asset).decimals amount_atomic
    now ← get_now
    id ← random_uuid
    result ← create_or_get_existing (new_payout dto id now amount_atomic)
    finish_create dto result
