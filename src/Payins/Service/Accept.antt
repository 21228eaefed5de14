-- ===== src/Payins/Service/Accept.antt =====
-- `acceptPayIn` (src/payins/payins.service.ts).
use avasettile.Common.{
  ℕ, true, false, String, Option, none, some, [], ◌∷◌, or_default, if◌then◌else◌,
}
use avasettile.Effect.{not_acceptable, throw, ◌>>=◌, ◌>>◌}
use avasettile.Records.Common.{
  Value, null, text, number, flag, asset_text, AuditEventType, RequestContext,
}
use avasettile.Records.PayIn.{PayInRecord, PayInStatus, PayInPatch, same_status, no_patch}
use avasettile.World.{Handler, get_now, record_event, to_audit_actor, enqueue}
use avasettile.Payins.Ledger.{Guard, update_payin}
use avasettile.Payins.Service.Defs.{PayInResponse, to_payin_response, require_payin}
use avasettile.Payins.Service.Reconcile.{status_text, time_value}

abbrev pub acceptable : Guard
acceptable = record {
  expected_status = some (PayInStatus.underpaid ∷ PayInStatus.overpaid ∷ []);
  expected_sweep_status = none;
}

-- `confirmedAt: payin.confirmedAt ?? now`
abbrev pub accept_patch : PayInRecord → ℕ → Option String → PayInPatch
accept_patch p now note = record no_patch {
  status = some PayInStatus.confirmed;
  accepted_at = some (some now);
  acceptance_note = some note;
  confirmed_at = some (some (or_default p.confirmed_at now));
}

abbrev note_value : Option String → Value
note_value none = null
note_value (some s) = text s

module _ (ctx : RequestContext) where
  -- Where the guarded write did not apply.
  abbrev pub replay_or_refuse : PayInRecord → Handler PayInResponse
  replay_or_refuse current =
      if same_status current.status PayInStatus.confirmed
      then to_payin_response current true
      else throw not_acceptable

  unfoldable pub accepted : PayInRecord → Option String → Option PayInRecord → Handler PayInResponse
  accepted p remark none = do current ← require_payin p.id ctx; replay_or_refuse current
  accepted p remark (some updated) = do
    record_event AuditEventType.payin_accepted p.id (to_audit_actor ctx none) (
        ("previousStatus", status_text p.status)
        ∷ ("receivedAmount", text p.received_amount)
        ∷ ("expectedAmount", text p.expected_amount)
        ∷ ("note", note_value remark)
        ∷ [])
    enqueue updated.client_id "payin.confirmed" (
        ("id", number updated.id)
        ∷ ("externalId", text updated.external_id)
        ∷ ("asset", text (asset_text updated.asset))
        ∷ ("receivedAmount", text updated.received_amount)
        ∷ ("depositAddress", number updated.deposit_address)
        ∷ ("confirmedAt", time_value updated.confirmed_at)
        ∷ ("acceptedManually", flag true)
        ∷ [])
    to_payin_response updated false

  unfoldable pub accept_payin : ℕ → Option String → Handler PayInResponse
  unfolding accepted
  accept_payin id note = do
    p ← require_payin id ctx
    now ← get_now
    updated ← update_payin id (accept_patch p now note) acceptable
    accepted p note updated
