-- ===== src/Payins/Service/Sweep.antt =====
-- `sweepPayIn`, `topUpPayIn`, `topUpAndSweep` and `retryPendingSweeps`
-- (src/payins/payins.service.ts). The helpers take the id from the row that was found by it.
use avasettile.Common.{
  ℕ, ◌+◌, Bool, true, false, String, Option, none, some, List, [], ◌∷◌, or_default, if◌then◌else◌,
  ◌||◌,
}
use avasettile.Common.Int.{ℤ, pos}
use avasettile.Effect.{
  Error, router_needs_no_top_up, malformed_amount, Result, ok, err, pure, throw, attempt,
  from_result, try_catch, ◌>>=◌, ◌>>◌,
}
use avasettile.Records.Common.{Value, null, text, number, reason, AuditEventType, RequestContext}
use avasettile.Records.PayIn.{
  PayInRecord, PayInSweepStatus, PayInPatch, same_sweep_status, no_patch, is_router,
}
use avasettile.World.{
  Config, Viem, Handler, get_now, parse_amount, record_event, to_audit_actor, throw_if,
}
use avasettile.Blockchain.Rail.{ExecutionStatus, TransferExecution}
use avasettile.Blockchain.Deposit.{
  SweepExecution, sweep_derived_payin, send_native_transfer, wait_for_transaction,
}
use avasettile.Payins.Ledger.{Guard, no_guard, update_payin, list_sweep_retry_candidates}
use avasettile.Payins.Service.Defs.{
  SweepPayIn, TopUp, no_top_up, PayInResponse, to_payin_response, require_payin, or_update_lost,
}

abbrev pub not_yet_swept : Guard
not_yet_swept = record {
  expected_status = none;
  expected_sweep_status = some (PayInSweepStatus.pending ∷ PayInSweepStatus.failed ∷ []);
}

abbrev sweep_status_of : ExecutionStatus → PayInSweepStatus
sweep_status_of ExecutionStatus.confirmed = PayInSweepStatus.confirmed
sweep_status_of ExecutionStatus.broadcasted = PayInSweepStatus.broadcasted

abbrev pub swept_patch : SweepExecution → ℕ → PayInPatch
swept_patch sweep now = record no_patch {
  sweep_status = some (sweep_status_of sweep.status);
  sweep_transaction_hash = some (some sweep.hash);
  swept_amount = some sweep.amount;
  swept_amount_atomic = some sweep.amount_atomic;
  swept_at = some (some now);
  sweep_failure_reason = some none;
}

abbrev pub sweep_failure_patch : Error → PayInPatch
sweep_failure_patch e = record no_patch {
  sweep_status = some PayInSweepStatus.failed;
  sweep_failure_reason = some (some e);
}

abbrev pub not_required_patch : PayInPatch
not_required_patch = record no_patch {
  sweep_status = some PayInSweepStatus.not_required;
  sweep_failure_reason = some none;
}

abbrev note_value : Option String → Value
note_value none = null
note_value (some s) = text s

abbrev execution_text : ExecutionStatus → Value
execution_text ExecutionStatus.confirmed = text "confirmed"
execution_text ExecutionStatus.broadcasted = text "broadcasted"

-- `SWEEP_RETRY_COOLDOWN_MINUTES`
abbrev pub sweep_retry_cooldown_minutes : ℕ
sweep_retry_cooldown_minutes = 10

module _ (config : Config) (viem : Viem) (ctx : RequestContext) where
  abbrev pub amount_to_sweep : PayInRecord → Option String → Handler (Option ℕ)
  amount_to_sweep p none = pure none
  amount_to_sweep p (some amount) = do
    atomic ← parse_amount viem amount (config.get_asset_config p.asset)
    pure (some atomic)

  abbrev pub updated_or_reread : ℕ → Option PayInRecord → Handler (PayInRecord × Bool)
  updated_or_reread id (some updated) = pure (updated, false)
  updated_or_reread id none = do current ← require_payin id ctx; pure (current, true)

  -- The body of the `try`: the row to respond with, and whether it is a replay. The response is made
  -- outside of it, since its promise is returned and not awaited there.
  unfoldable pub sweep_now : PayInRecord → SweepPayIn → Option ℕ → Handler (PayInRecord × Bool)
  sweep_now p dto amount = do
    sweep ← sweep_derived_payin config viem p.asset p.derivation_index p.deposit_address amount
    now ← get_now
    updated ← update_payin p.id (swept_patch sweep now) not_yet_swept
    record_event AuditEventType.payin_swept p.id (to_audit_actor ctx none) (
        ("transactionHash", number sweep.hash)
        ∷ ("from", number sweep.from)
        ∷ ("to", number sweep.to)
        ∷ ("amount", text sweep.amount)
        ∷ ("amountAtomic", number sweep.amount_atomic)
        ∷ ("notes", note_value dto.notes)
        ∷ [])
    updated_or_reread p.id updated

  abbrev pub updated_or_rethrow : Error → Option PayInRecord → Handler (PayInRecord × Bool)
  updated_or_rethrow e (some updated) = pure (updated, false)
  updated_or_rethrow e none = throw e

  -- The body of the `catch`.
  unfoldable pub sweep_failed : PayInRecord → SweepPayIn → Error → Handler (PayInRecord × Bool)
  sweep_failed p dto e = do
    updated ← update_payin p.id (sweep_failure_patch e) not_yet_swept
    record_event AuditEventType.payin_sweep_failed p.id (to_audit_actor ctx none)
        (("failureReason", reason e) ∷ ("notes", note_value dto.notes) ∷ [])
    updated_or_rethrow e updated

  unfoldable pub sweep_derived : PayInRecord → SweepPayIn → Handler PayInResponse
  unfolding sweep_now sweep_failed
  sweep_derived p dto =
      if same_sweep_status p.sweep_status PayInSweepStatus.broadcasted
        || same_sweep_status p.sweep_status PayInSweepStatus.confirmed
      then to_payin_response p true
      else (do
        amount ← amount_to_sweep p dto.amount
        outcome ← try_catch (sweep_now p dto amount) (sweep_failed p dto)
        to_payin_response outcome.0 outcome.1)

  abbrev pub sweep_not_required : ℕ → Handler PayInResponse
  sweep_not_required id = do
    written ← update_payin id not_required_patch no_guard
    updated ← or_update_lost written
    to_payin_response updated true

  unfoldable pub sweep_payin : ℕ → SweepPayIn → Handler PayInResponse
  unfolding sweep_derived
  sweep_payin id dto = do
    p ← require_payin id ctx
    if is_router p.collection_mode then sweep_not_required id else sweep_derived p dto

  -- `parseEther`; the DTOs admit no sign.
  abbrev wei_of : Option ℤ → Result ℕ
  wei_of (some (pos wei)) = ok wei
  wei_of _ = err malformed_amount

  abbrev parse_ether : String → Result ℕ
  parse_ether amount = wei_of (viem.parse_units amount 18)

  -- `sendNativeTransfer` to the deposit address, and its audit event.
  unfoldable pub top_up : PayInRecord → Option String → Handler TransferExecution
  top_up p amount_avax = do
    throw_if (is_router p.collection_mode) router_needs_no_top_up
    wei ← from_result (parse_ether (or_default amount_avax "0.002"))
    transfer ← send_native_transfer config viem p.deposit_address wei
    record_event AuditEventType.payin_topup p.id (to_audit_actor ctx none) (
        ("depositAddress", number p.deposit_address)
        ∷ ("amountAvax", text (viem.format_units wei 18))
        ∷ ("transactionHash", number transfer.hash)
        ∷ ("status", execution_text transfer.status)
        ∷ [])
    pure transfer

  unfoldable pub top_up_payin : ℕ → Option String → Handler PayInResponse
  unfolding top_up
  top_up_payin id amount_avax = do
    p ← require_payin id ctx
    top_up p amount_avax
    to_payin_response p false

  abbrev pub await_landing : TransferExecution → Handler (Unit {0})
  await_landing transfer = elim transfer.status [
    | ExecutionStatus.broadcasted ↦ wait_for_transaction transfer.hash
    | ExecutionStatus.confirmed ↦ pure tt
  ]

  unfoldable pub top_up_and_sweep : ℕ → TopUp → Handler PayInResponse
  unfolding top_up sweep_payin
  top_up_and_sweep id dto = do
    p ← require_payin id ctx
    transfer ← top_up p dto.amount_avax
    await_landing transfer
    sweep_payin id (record { amount = none; notes = dto.notes })

  unfoldable pub sweep_each : List PayInRecord → ℕ → Handler ℕ
  unfolding top_up_and_sweep
  sweep_each [] attempted = pure attempted
  sweep_each (p ∷ ps) attempted = do
    outcome ← attempt (top_up_and_sweep p.id no_top_up)
    sweep_each ps (attempted + 1)

  unfoldable pub retry_pending_sweeps : ℕ → Handler ℕ
  unfolding sweep_each
  retry_pending_sweeps limit = do
    candidates ← list_sweep_retry_candidates limit sweep_retry_cooldown_minutes
    sweep_each candidates 0
