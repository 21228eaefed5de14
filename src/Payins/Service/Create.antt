-- ===== src/Payins/Service/Create.antt =====
-- `createPayIn` (src/payins/payins.service.ts).
use avasettile.Common.{
  ℕ, zero, suc, ◌+◌, ◌*◌, Bool, true, false, String, Option, none, some, [], ◌∷◌, or_default,
}
use avasettile.Common.Int.{ℤ, pos, negsuc}
use avasettile.Effect.{not_configured, pure, or_throw, ◌>>=◌, ◌>>◌}
use avasettile.Records.Common.{
  Value, null, text, number, asset_text, AuditEventType, RequestContext,
}
use avasettile.Records.PayIn.{
  PayInRecord, PayInCollectionMode, derived_address, payment_router, PayInStatus, PayInSweepStatus,
}
use avasettile.World.{
  Config, Viem, Handler, read_chain, get_now, random_uuid, parse_amount, record_event,
  to_audit_actor,
}
use avasettile.Blockchain.Deposit.{derive_payin_address}
use avasettile.Blockchain.Logs.{router_invoice_id_from_external_id}
use avasettile.Payins.Ledger.{
  create_or_get_existing, find_by_idempotency_key, store_idempotency_key, claim_next_payin_index,
}
use avasettile.Payins.Service.Defs.{CreatePayIn, PayInResponse, to_payin_response}

-- Where the payment goes.
pub record Collection : Type 0 where
  pub router_address : Option ℕ
  pub router_invoice_id : Option ℕ
  pub derivation_index : ℤ
  pub deposit_address : ℕ

abbrev collection_mode_of : CreatePayIn → PayInCollectionMode
collection_mode_of dto = or_default dto.collection_mode derived_address

abbrev sweep_status_at_first : PayInCollectionMode → PayInSweepStatus
sweep_status_at_first payment_router = PayInSweepStatus.not_required
sweep_status_at_first derived_address = PayInSweepStatus.pending

-- `expirationMinutes ? now + expirationMinutes * 60_000 : null`
abbrev expires_at_of : ℕ → Option ℕ → Option ℕ
expires_at_of now none = none
expires_at_of now (some zero) = none
expires_at_of now (some (suc m)) = some (now + suc m * 60000)

abbrev index_value : ℤ → Value
index_value (pos n) = number n
index_value (negsuc n) = text "-1"

abbrev option_value : Option ℕ → Value
option_value none = null
option_value (some n) = number n

abbrev mode_text : PayInCollectionMode → String
mode_text derived_address = "derived-address"
mode_text payment_router = "payment-router"

module _ (config : Config) (viem : Viem) (ctx : RequestContext) where
  -- `requirePaymentRouterAddress` is called at once; the derivation index is claimed late.
  abbrev pub router_of : CreatePayIn → PayInCollectionMode → Handler (Option ℕ)
  router_of dto derived_address = pure none
  router_of dto payment_router = do
    router ← or_throw config.payment_router_address not_configured
    pure (some router)

  abbrev invoice_id_of : CreatePayIn → PayInCollectionMode → Option ℕ
  invoice_id_of dto derived_address = none
  invoice_id_of dto payment_router = some (
      or_default dto.router_invoice_id
        (router_invoice_id_from_external_id config viem dto.external_id))

  abbrev pub collect_at : CreatePayIn → Option ℕ → Handler Collection
  collect_at dto (some router) = pure (record {
    router_address = some router;
    router_invoice_id = invoice_id_of dto payment_router;
    derivation_index = negsuc 0;
    deposit_address = router;
  })
  collect_at dto none = do
    index ← claim_next_payin_index
    address ← derive_payin_address config viem index
    pure (record {
      router_address = none;
      router_invoice_id = none;
      derivation_index = pos index;
      deposit_address = address;
    })

  abbrev pub new_payin : CreatePayIn → ℕ → ℕ → ℕ → ℕ → Collection → PayInRecord
  new_payin dto id now start_block expected collection = record {
    id = id;
    client_id = ctx.client_id;
    external_id = dto.external_id;
    chain_flow_request_id = dto.chain_flow_request_id;
    status = PayInStatus.pending;
    network = config.settlement_network;
    chain_id = config.chain_id;
    asset = dto.asset;
    token_address = or_default (config.get_asset_config dto.asset).address 0;
    expected_amount = dto.amount;
    expected_amount_atomic = expected;
    received_amount = "0";
    received_amount_atomic = 0;
    deposit_address = collection.deposit_address;
    derivation_index = collection.derivation_index;
    collection_mode = collection_mode_of dto;
    router_address = collection.router_address;
    router_invoice_id = collection.router_invoice_id;
    start_block = start_block;
    last_scanned_block = none;
    expires_at = expires_at_of now (elim dto.expires_in_minutes [
      | some minutes ↦ some minutes
      | none ↦ config.payin_default_expiration_minutes
    ]);
    metadata = or_default dto.metadata [];
    transfers = [];
    sweep_status = sweep_status_at_first (collection_mode_of dto);
    sweep_transaction_hash = none;
    swept_amount = "0";
    swept_amount_atomic = 0;
    swept_at = none;
    sweep_failure_reason = none;
    created_at = now;
    updated_at = now;
    detected_at = none;
    confirmed_at = none;
    accepted_at = none;
    acceptance_note = none;
  }

  abbrev pub store_key_for : Option String → ℕ → Handler (Unit {0})
  store_key_for none id = pure tt
  store_key_for (some key) id = store_idempotency_key ctx.client_id key id

  -- After `createOrGetExisting`.
  unfoldable pub finish_create_payin : PayInRecord × Bool → Handler PayInResponse
  finish_create_payin (p, true) = to_payin_response p true
  finish_create_payin (p, false) = do
    store_key_for ctx.idempotency_key p.id
    record_event AuditEventType.payin_created p.id (to_audit_actor ctx none) (
        ("externalId", text p.external_id)
        ∷ ("depositAddress", number p.deposit_address)
        ∷ ("derivationIndex", index_value p.derivation_index)
        ∷ ("collectionMode", text (mode_text p.collection_mode))
        ∷ ("routerInvoiceId", option_value p.router_invoice_id)
        ∷ ("expectedAmount", text p.expected_amount)
        ∷ ("asset", text (asset_text p.asset))
        ∷ [])
    to_payin_response p false

  unfoldable pub create_new_payin : CreatePayIn → Handler PayInResponse
  unfolding finish_create_payin
  create_new_payin dto = do
    expected ← parse_amount viem dto.amount (config.get_asset_config dto.asset)
    router ← router_of dto (collection_mode_of dto)
    start_block ← read_chain (λ env. env.block_number)
    now ← get_now
    collection ← collect_at dto router
    id ← random_uuid
    result ← create_or_get_existing (new_payin dto id now start_block expected collection)
    finish_create_payin result

  abbrev pub prior_of : Option String → Handler (Option PayInRecord)
  prior_of none = pure none
  prior_of (some key) = find_by_idempotency_key ctx.client_id key

  abbrev pub replay_or_create : CreatePayIn → Option PayInRecord → Handler PayInResponse
  replay_or_create dto (some p) = to_payin_response p true
  replay_or_create dto none = create_new_payin dto

  unfoldable pub create_payin : CreatePayIn → Handler PayInResponse
  unfolding create_new_payin
  create_payin dto = do prior ← prior_of ctx.idempotency_key; replay_or_create dto prior
