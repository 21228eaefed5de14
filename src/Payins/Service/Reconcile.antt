-- ===== src/Payins/Service/Reconcile.antt =====
-- `reconcilePayIn` (src/payins/payins.service.ts). The row is written with no guard. The
-- helpers take the id from the row that was found by it.
use avasettile.Common.{
  ℕ, Bool, true, false, not, Option, none, some, List, [], ◌∷◌, length, is_some, ltb, if◌then◌else◌,
  ◌&&◌,
}
use avasettile.Effect.{router_has_no_invoice, pure, or_throw, ◌>>=◌, ◌>>◌}
use avasettile.Records.Common.{
  Value, null, text, number, asset_text, AuditEventType, RequestContext,
}
use avasettile.Records.PayIn.{
  PayInRecord, PayInTransferRecord, PayInStatus, PayInCollectionMode, derived_address,
  payment_router, PayInPatch, same_status, no_patch, is_router,
}
use avasettile.World.{
  Config, Viem, Handler, read_chain, get_now, record_event, to_audit_actor, enqueue,
}
use avasettile.Blockchain.Logs.{find_incoming_erc20_transfers, find_payment_router_invoice_payments}
use avasettile.Payins.Ledger.{no_guard, update_payin}
use avasettile.Payins.Scan.{
  scan_from_block, merge_transfers, total_received, latest_block_of, enough_confirmations,
  is_expired, status_of,
}
use avasettile.Payins.Service.Defs.{PayInResponse, to_payin_response, require_payin, or_update_lost}

abbrev pub status_text : PayInStatus → Value
status_text PayInStatus.pending = text "pending"
status_text PayInStatus.detected = text "detected"
status_text PayInStatus.confirmed = text "confirmed"
status_text PayInStatus.expired = text "expired"
status_text PayInStatus.underpaid = text "underpaid"
status_text PayInStatus.overpaid = text "overpaid"

abbrev pub time_value : Option ℕ → Value
time_value none = null
time_value (some t) = number t

-- `isFirstDetection`
abbrev pub is_first_detection : PayInRecord → List PayInTransferRecord → Bool
is_first_detection p transfers = ltb 0 (length transfers) && not (is_some p.detected_at)

-- `isNewConfirmation`
abbrev pub is_new_confirmation : PayInRecord → PayInStatus → Bool
is_new_confirmation p status =
    same_status status PayInStatus.confirmed && not (is_some p.confirmed_at)

module _ (config : Config) (viem : Viem) (ctx : RequestContext) where
  abbrev pub transfers_by_mode :
      PayInCollectionMode → PayInRecord → ℕ → Handler (List PayInTransferRecord)
  transfers_by_mode derived_address p to_block =
      find_incoming_erc20_transfers config viem p.asset p.deposit_address (scan_from_block p)
        to_block
  transfers_by_mode payment_router p to_block = do
    invoice_ref ← or_throw p.router_invoice_id router_has_no_invoice
    find_payment_router_invoice_payments config viem p.asset invoice_ref p.expected_amount_atomic
        (scan_from_block p) to_block

  unfoldable pub find_payin_transfers : PayInRecord → ℕ → Handler (List PayInTransferRecord)
  find_payin_transfers p to_block = transfers_by_mode p.collection_mode p to_block

  -- The status from the merged transfers, at the second reading of the clock.
  abbrev pub reconciled_status : PayInRecord → List PayInTransferRecord → ℕ → ℕ → PayInStatus
  reconciled_status p transfers latest current =
      status_of (total_received transfers) p.expected_amount_atomic
        (enough_confirmations config.min_confirmations latest (latest_block_of none transfers))
        (is_expired p.expires_at current)

  abbrev pub payin_patch :
      PayInRecord → List PayInTransferRecord → (latest now : ℕ) → PayInStatus → PayInPatch
  payin_patch p transfers latest now status = record no_patch {
    status = some status;
    received_amount_atomic = some (total_received transfers);
    received_amount =
        some
          (viem.format_units (total_received transfers) (config.get_asset_config p.asset).decimals);
    transfers = some transfers;
    last_scanned_block = some (some latest);
    detected_at = some (if is_first_detection p transfers then some now else p.detected_at);
    confirmed_at = some (if is_new_confirmation p status then some now else p.confirmed_at);
  }

  abbrev pub notify_detected : Bool → PayInRecord → Handler (Unit {0})
  notify_detected false u = pure tt
  notify_detected true u = enqueue u.client_id "payin.detected" (
      ("id", number u.id)
      ∷ ("externalId", text u.external_id)
      ∷ ("asset", text (asset_text u.asset))
      ∷ ("depositAddress", number u.deposit_address)
      ∷ ("receivedAmount", text u.received_amount)
      ∷ ("expectedAmount", text u.expected_amount)
      ∷ ("detectedAt", time_value u.detected_at)
      ∷ [])

  abbrev pub notify_confirmed : Bool → PayInRecord → Handler (Unit {0})
  notify_confirmed false u = pure tt
  notify_confirmed true u = enqueue u.client_id "payin.confirmed" (
      ("id", number u.id)
      ∷ ("externalId", text u.external_id)
      ∷ ("asset", text (asset_text u.asset))
      ∷ ("receivedAmount", text u.received_amount)
      ∷ ("depositAddress", number u.deposit_address)
      ∷ ("confirmedAt", time_value u.confirmed_at)
      ∷ [])

  -- Whether `topUpAndSweep` is started; it is not awaited, so it is a request of its own.
  abbrev pub starts_sweep : PayInRecord → PayInStatus → Bool
  starts_sweep p status =
      is_new_confirmation p status && config.auto_sweep && not (is_router p.collection_mode)

  unfoldable pub write_reconciled :
      PayInRecord
      → List PayInTransferRecord
      → (latest now : ℕ) → PayInStatus
      → Handler (PayInResponse × Bool)
  write_reconciled p transfers latest now status = do
    written ← update_payin p.id (payin_patch p transfers latest now status) no_guard
    updated ← or_update_lost written
    record_event AuditEventType.payin_reconciled p.id (to_audit_actor ctx none) (
        ("status", status_text status)
        ∷ ("receivedAmountAtomic", number (total_received transfers))
        ∷ ("transferCount", number (length transfers))
        ∷ [])
    notify_detected (is_first_detection p transfers) updated
    notify_confirmed (is_new_confirmation p status) updated
    response ← to_payin_response updated false
    pure (response, starts_sweep p status)

  unfoldable pub reconcile_open : PayInRecord → Handler (PayInResponse × Bool)
  unfolding find_payin_transfers write_reconciled
  reconcile_open p = do
    latest ← read_chain (λ env. env.block_number)
    incoming ← find_payin_transfers p latest
    let transfers = merge_transfers p.transfers incoming
    now ← get_now
    current ← get_now
    write_reconciled p transfers latest now (reconciled_status p transfers latest current)

  abbrev pub replay_confirmed : PayInRecord → Handler (PayInResponse × Bool)
  replay_confirmed p = do response ← to_payin_response p true; pure (response, false)

  -- The response, and whether a sweep is started.
  unfoldable pub reconcile_payin : ℕ → Handler (PayInResponse × Bool)
  unfolding reconcile_open
  reconcile_payin id = do
    p ← require_payin id ctx
    if same_status p.status PayInStatus.confirmed then replay_confirmed p else reconcile_open p
