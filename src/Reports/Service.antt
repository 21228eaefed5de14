-- ===== src/Reports/Service.antt =====
-- ReportsService less its sums of amounts (src/reports/reports.service.ts), and `listForTrail` of
-- src/audit/audit.service.ts.
use avasettile.Common.{
  ℕ, Bool, true, false, Option, none, some, List, [], ◌∷◌, length, take, filter, any, sort_by, leb,
  if◌then◌else◌, ◌==◌, ◌&&◌, or_default,
}
use avasettile.Common.Members.{reverse}
use avasettile.Effect.{pure, call, ◌>>=◌}
use avasettile.Records.Common.{AuditEvent}
use avasettile.Records.Outbox.{Delivery}
use avasettile.Records.PayIn.{
  PayInRecord, PayInStatus, PayInSweepStatus, same_status, same_sweep_status,
}
use avasettile.World.{Handler, query, get_now}
use avasettile.Payins.Ledger.{nulls_last}
use avasettile.Webhooks.Outbox.{list_recent_deliveries}

-- A report's `generatedAt`, `count` and `items` or `events`
pub record Report (A : Type 0) : Type 0 where
  pub generated_at : ℕ
  pub count : ℕ
  pub items : List A

-- The filters of `listForTrail`; times are compared as numbers.
pub record TrailFilters : Type 0 where
  pub client_id : Option ℕ
  pub subject_id : Option ℕ
  pub from : Option ℕ
  pub to : Option ℕ
  pub limit : ℕ

abbrev pub same_client : Option ℕ → Option ℕ → Bool
same_client none client_id = true
same_client (some c) none = false
same_client (some c) (some d) = d == c

abbrev pub passes : (ℕ → ℕ → Bool) → Option ℕ → ℕ → Bool
passes test none n = true
passes test (some bound) n = test bound n

abbrev pub in_trail : TrailFilters → AuditEvent → Bool
in_trail filters e =
    same_client filters.client_id e.client_id
    && (passes (λ subject n. n == subject) filters.subject_id e.subject_id
        && (passes leb filters.from e.created_at
            && passes (λ bound n. leb n bound) filters.to e.created_at))

abbrev pub min : ℕ → ℕ → ℕ
min a b = if leb a b then a else b

-- `ORDER BY created_at DESC LIMIT …`, turned around
abbrev pub trail_page : TrailFilters → List AuditEvent → List AuditEvent
trail_page filters events = reverse (
    take (min filters.limit 1000) (
      sort_by (λ (a b : AuditEvent). leb b.created_at a.created_at)
        (filter (in_trail filters) events)))

unfoldable pub list_for_trail : TrailFilters → Handler (List AuditEvent)
list_for_trail filters = call (query (λ _ w. (trail_page filters w.audit_events, w)))

abbrev pub report_of : {A : Type 0} → ℕ → List A → Report A
report_of now items = record { generated_at = now; count = length items; items = items }

abbrev pub trail_filters : ℕ → (from to subject_id limit : Option ℕ) → TrailFilters
trail_filters client_id from to subject_id limit = record {
  client_id = some client_id;
  subject_id = subject_id;
  from = from;
  to = to;
  limit = or_default limit 200;
}

unfoldable pub get_audit_trail :
    ℕ → (from to subject_id limit : Option ℕ) → Handler (Report AuditEvent)
unfolding list_for_trail
get_audit_trail client_id from to subject_id limit = do
  events ← list_for_trail (trail_filters client_id from to subject_id limit)
  now ← get_now
  pure (report_of now events)

unfoldable pub get_webhook_deliveries : (client_id limit : ℕ) → Bool → Handler (Report Delivery)
get_webhook_deliveries client_id limit only_failed = do
  items ← list_recent_deliveries client_id (min limit 500) only_failed
  now ← get_now
  pure (report_of now items)

-- `WHERE status = $1 AND sweep_status IN ($2, $3)`
abbrev pub in_sweep_queue : PayInRecord → Bool
in_sweep_queue p =
    same_status p.status PayInStatus.confirmed
    && any (same_sweep_status p.sweep_status)
        (PayInSweepStatus.pending ∷ PayInSweepStatus.failed ∷ [])

abbrev pub sweep_queue : List PayInRecord → List PayInRecord
sweep_queue ps =
    sort_by (λ (a b : PayInRecord). nulls_last a.confirmed_at b.confirmed_at)
      (filter in_sweep_queue ps)

-- An item is the pay-in's row, of which the report takes some columns.
unfoldable pub get_sweep_queue : Handler (Report PayInRecord)
get_sweep_queue = do
  items ← call (query (λ _ w. (sweep_queue w.payins, w)))
  now ← get_now
  pure (report_of now items)
