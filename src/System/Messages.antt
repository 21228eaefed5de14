-- ===== src/System/Messages.antt =====
-- The requests of these services, reconciliation runs and the dispatcher's ticks, at the same time
-- (src/payouts/payouts.service.ts, src/payins/payins.service.ts, src/settlements/settlements.service.ts,
-- src/webhooks/webhook.service.ts, src/reconciliation/).
use avasettile.Common.{ℕ, Bool, true, ◌≡◌, String, some, List, []}
use avasettile.Common.Table.{find_row}
use avasettile.Effect.{pure, attempt, ◌>>=◌, ◌>>◌}
use avasettile.Effect.Pool.{Task, Event, run_pool}
use avasettile.Effect.Grows.{Nothing, Steps-Grows, Grows-attempt, run_pool-grows}
use avasettile.Records.Common.{Json, RequestContext}
use avasettile.Records.Outbox.{OutboxRow, outbox_key}
use avasettile.World.{World, Outside, Config, Viem, Handler}
use avasettile.Payouts.AtMostOnce.Requests.{PayoutRequest}
use avasettile.Payouts.AtMostOnce.Requests as Payouts
use avasettile.Payins.Confirmed.Requests.{PayInRequest}
use avasettile.Payins.Confirmed.Requests as Payins
use avasettile.Settlements.Requests.{SettlementRequest}
use avasettile.Settlements.Requests as Settlements
use avasettile.Webhooks.Outbox.{list_recent_deliveries, is_delivered}
use avasettile.Webhooks.Delivery.{dispatch_due_events}
use avasettile.Webhooks.Progress.{
  Progress, Progress-refl, Progress-trans, Stored, Accepted, IsHonest, Extends,
}
use avasettile.Webhooks.Along.{Along, Along-then, Along-pure}
use avasettile.Webhooks.Delivered.{Along-dispatch_due_events}
use avasettile.Reconciliation.Service.{run_reconciliation, tick}
use avasettile.System.Quiet.Reconciliation.{Quiet-run_reconciliation, Quiet-tick}
use avasettile.System.Rules.{Quiet, bind, done, reading}
use avasettile.System.Quiet.Payouts.{
  Quiet-create_payout, Quiet-authorize_payout, Quiet-authorize_payout_batch, Quiet-reconcile_payout,
  Quiet-get_payout, Quiet-get_payout_by_external_id, Quiet-list_payout_responses,
}
use avasettile.System.Quiet.PayinLedger.{Quiet-get_payin, Quiet-list_payin_responses}
use avasettile.System.Quiet.Settlements.{
  Quiet-record_settlement, Quiet-get_settlement, Quiet-list_settlement_responses,
  Quiet-reveal_settlement,
}
use avasettile.System.Quiet.Payins.{
  Quiet-create_payin, Quiet-reconcile_payin, Quiet-sweep_payin, Quiet-accept_payin,
  Quiet-top_up_payin, Quiet-top_up_and_sweep, Quiet-retry_pending_sweeps,
}

pub data Request : Type 0 where
  of_payouts : PayoutRequest → Request
  of_payins : PayInRequest → Request
  of_settlements : SettlementRequest → Request
  -- a tick of the dispatcher, with its batch size
  dispatch : ℕ → Request
  -- a reconciliation run that a client starts, and the timer's
  reconcile_all : RequestContext → Request
  auto_reconcile : Request
  recent : (client_id limit : ℕ) → Bool → Request

Quiet-ending : {A : Type 0} (p : Handler A) → Quiet p → Quiet (do answer ← p; pure tt)
Quiet-ending p h = bind p _ h (λ _. done tt)

module _ (config : Config) (viem : Viem) (hmac_sha256 : String → Json → String) where
  unfoldable pub serve : Request → Task Outside World
  unfolding Payouts.serve Payins.serve Settlements.serve
  serve (of_payouts req) = Payouts.serve config viem req
  serve (of_payins req) = Payins.serve config viem req
  serve (of_settlements req) = Settlements.serve config viem req
  serve (dispatch batch) = attempt (dispatch_due_events config hmac_sha256 batch) >> pure tt
  serve (reconcile_all ctx) = do answer ← run_reconciliation config viem ctx; pure tt
  serve auto_reconcile = tick config viem
  serve (recent client_id limit only_failed) = do
    answer ← list_recent_deliveries client_id limit only_failed
    pure tt

  Quiet-payouts : (req : PayoutRequest) → Quiet (Payouts.serve config viem req)
  unfolding Payouts.serve Payouts.ending
  Quiet-payouts (Payouts.create dto ctx) = Quiet-ending _ (Quiet-create_payout config viem ctx dto)
  Quiet-payouts (Payouts.authorize id dto ctx) =
      Quiet-ending _ (Quiet-authorize_payout config viem dto ctx id)
  Quiet-payouts (Payouts.authorize_batch ids dto ctx) =
      Quiet-ending _ (Quiet-authorize_payout_batch config viem dto ctx ids)
  Quiet-payouts (Payouts.reconcile id ctx) =
      Quiet-ending _ (Quiet-reconcile_payout config viem ctx id)
  Quiet-payouts (Payouts.get id ctx) = Quiet-ending _ (Quiet-get_payout id ctx)
  Quiet-payouts (Payouts.get_by_external_id e ctx) =
      Quiet-ending _ (Quiet-get_payout_by_external_id e ctx)
  Quiet-payouts (Payouts.list filters ctx) =
      Quiet-ending _ (Quiet-list_payout_responses filters ctx)

  Quiet-payins : (req : PayInRequest) → Quiet (Payins.serve config viem req)
  unfolding Payins.serve Payins.ending
  Quiet-payins (Payins.create dto ctx) = Quiet-ending _ (Quiet-create_payin config viem ctx dto)
  Quiet-payins (Payins.get id ctx) = Quiet-ending _ (Quiet-get_payin id ctx)
  Quiet-payins (Payins.list filters ctx) = Quiet-ending _ (Quiet-list_payin_responses filters ctx)
  Quiet-payins (Payins.reconcile id ctx) = Quiet-ending _ (Quiet-reconcile_payin config viem ctx id)
  Quiet-payins (Payins.sweep id dto ctx) = Quiet-ending _ (Quiet-sweep_payin config viem ctx id dto)
  Quiet-payins (Payins.accept id remark ctx) = Quiet-ending _ (Quiet-accept_payin ctx id remark)
  Quiet-payins (Payins.top_up_gas id amount ctx) =
      Quiet-ending _ (Quiet-top_up_payin config viem ctx id amount)
  Quiet-payins (Payins.top_up_then_sweep id dto ctx) =
      Quiet-ending _ (Quiet-top_up_and_sweep config viem ctx id dto)
  Quiet-payins (Payins.retry_sweeps limit ctx) =
      Quiet-ending _ (Quiet-retry_pending_sweeps config viem ctx limit)

  Quiet-settlements : (req : SettlementRequest) → Quiet (Settlements.serve config viem req)
  unfolding Settlements.serve Settlements.ending
  Quiet-settlements (Settlements.submit dto ctx) =
      Quiet-ending _ (Quiet-record_settlement config viem ctx dto)
  Quiet-settlements (Settlements.get id ctx) = Quiet-ending _ (Quiet-get_settlement id ctx)
  Quiet-settlements (Settlements.list limit offset ctx) =
      Quiet-ending _ (Quiet-list_settlement_responses limit offset ctx)
  Quiet-settlements (Settlements.reveal id ctx) =
      Quiet-ending _ (Quiet-reveal_settlement config viem ctx id)

  serve-grows : (req : Request) (w : World) → Along (serve req) Nothing w
  unfolding serve list_recent_deliveries
  serve-grows (of_payouts req) w = Steps-Grows Progress _ w (Quiet-payouts req)
  serve-grows (of_payins req) w = Steps-Grows Progress _ w (Quiet-payins req)
  serve-grows (of_settlements req) w = Steps-Grows Progress _ w (Quiet-settlements req)
  serve-grows (reconcile_all ctx) w =
      Steps-Grows Progress _ w (Quiet-ending _ (Quiet-run_reconciliation config viem ctx))
  serve-grows auto_reconcile w = Steps-Grows Progress _ w (Quiet-tick config viem)
  serve-grows (dispatch batch) w =
      Along-then _ _ _ w
        (Grows-attempt Progress Progress-refl Progress-trans _ Nothing w
          (Along-dispatch_due_events config hmac_sha256 batch w))
        (λ _ v _ _. Along-pure tt v)
  serve-grows (recent client_id limit only_failed) w =
      Steps-Grows Progress _ w (bind _ _ (reading _) (λ _. done tt))

  -- Take an outbox row's id, client, event and payload that the world holds, in whatever state of
  -- delivery. After any arrivals of requests to PayoutsService, PayinsService and SettlementsService, ticks
  -- of the webhook dispatcher, reads of the delivery log and reconciliation runs, any interleaving of their calls, any answers of the
  -- database, the chain and the receivers, and any crashes, the outbox still has a row with that id,
  -- client, event and payload.
  pub messages-kept :
      (es : List (Event Outside Request)) (w : World) (r : OutboxRow)
      → Stored r w
      → Stored r (run_pool serve es (w, [])).0
  messages-kept es w r =
      (run_pool-grows Progress Progress-refl Progress-trans serve serve-grows es w).stored r

  -- Take a world in which each row that the outbox finds under its id as delivered has a POST of the
  -- row's payload, sent for that row, that was answered with a status from 200 to 299. Then the same holds
  -- of a row that is found as delivered after any arrivals of requests to PayoutsService,
  -- PayinsService and SettlementsService, ticks of the webhook dispatcher, reads of the delivery log and reconciliation runs, any interleaving of
  -- their calls, any answers of the database, the chain and the receivers, and any crashes.
  pub delivered-Accepted :
      (es : List (Event Outside Request)) (w : World) (r : OutboxRow)
      → IsHonest w
      → find_row outbox_key r.id (run_pool serve es (w, [])).0.outbox ≡ some r
      → is_delivered r.status ≡ true
      → Accepted r (run_pool serve es (w, [])).0
  delivered-Accepted es w r h =
      (run_pool-grows Progress Progress-refl Progress-trans serve serve-grows es w).honest h r

  -- After any arrivals of requests to PayoutsService, PayinsService and SettlementsService, ticks of the
  -- webhook dispatcher, reads of the delivery log and reconciliation runs, any interleaving of their calls, any answers of the
  -- database, the chain and the receivers, and any crashes, the audit log is what it was before with
  -- entries added at its end: none is changed or removed.
  pub audit_log-Extends :
      (es : List (Event Outside Request)) (w : World)
      → Extends w.audit_events (run_pool serve es (w, [])).0.audit_events
  audit_log-Extends es w =
      (run_pool-grows Progress Progress-refl Progress-trans serve serve-grows es w).audited
