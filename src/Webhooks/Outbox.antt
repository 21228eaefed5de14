-- ===== src/Webhooks/Outbox.antt =====
-- The statements of WebhookService on its two tables (src/webhooks/webhook.service.ts). The trigger of
-- db/migrations/001_init.sql stamps `updated_at` on every update of the outbox.
use avasettile.Common.{
  ℕ, ◌+◌, Bool, true, false, not, ◌&&◌, ◌||◌, Option, none, some, List, [], ◌∷◌, ◌++◌, map, filter,
  take, sort_by, member, ltb, leb, ◌==◌, if◌then◌else◌,
}
use avasettile.Common.Table.{find_row, update_row}
use avasettile.Effect.{pure, call, attempt, ◌>>◌}
use avasettile.Records.Outbox.{
  OutboxStatus, OutboxRow, outbox_key, DeliveryError, Delivery, ClientRecord, client_key,
}
use avasettile.World.{World, Handler, query}

abbrev pub is_pending : OutboxStatus → Bool
is_pending OutboxStatus.pending = true
is_pending _ = false

abbrev pub is_delivering : OutboxStatus → Bool
is_delivering OutboxStatus.delivering = true
is_delivering _ = false

abbrev pub is_delivered : OutboxStatus → Bool
is_delivered OutboxStatus.delivered = true
is_delivered _ = false

-- `STUCK_DELIVERY_TIMEOUT`
abbrev pub stuck_delivery_timeout : ℕ
stuck_delivery_timeout = 300000

-- `status = 'delivering' AND updated_at < now() - interval '5 minutes'`
abbrev pub is_stuck : ℕ → OutboxRow → Bool
is_stuck now r = is_delivering r.status && ltb (r.updated_at + stuck_delivery_timeout) now

abbrev pub recover_row : ℕ → OutboxRow → OutboxRow
recover_row now r =
    if is_stuck now r then record r { status = OutboxStatus.pending; updated_at = now } else r

-- The first statement of `dispatchDueEvents`.
unfoldable pub recover_stuck : Handler (Unit {0})
recover_stuck =
    call (query (λ env w. (tt, record w { outbox = map (recover_row env.now) w.outbox })))

-- `status = 'pending' AND next_attempt_at <= now()`
abbrev pub is_due : ℕ → OutboxRow → Bool
is_due now r = is_pending r.status && leb r.next_attempt_at now

-- The sub-select of the claim: `ORDER BY next_attempt_at LIMIT $1`.
abbrev pub due_ids : ℕ → ℕ → List OutboxRow → List ℕ
due_ids now batch rows = map outbox_key (
    take batch (
      sort_by (λ (a b : OutboxRow). leb a.next_attempt_at b.next_attempt_at)
        (filter (is_due now) rows)))

abbrev pub claim_row : ℕ → List ℕ → OutboxRow → OutboxRow
claim_row now ids r =
    if member r.id ids then record r { status = OutboxStatus.delivering; updated_at = now } else r

-- `RETURNING`, here in the order in which the rows were selected.
abbrev pub rows_of : List OutboxRow → List ℕ → List OutboxRow
rows_of rows [] = []
rows_of rows (i ∷ ids) = elim (find_row outbox_key i rows) [
  | none ↦ rows_of rows ids
  | some r ↦ r ∷ rows_of rows ids
]

abbrev pub claim : ℕ → ℕ → World → List OutboxRow × World
claim now batch w =
    let ids = due_ids now batch w.outbox in
    let rows = map (claim_row now ids) w.outbox in (rows_of rows ids, record w { outbox = rows })

-- The second statement of `dispatchDueEvents`.
unfoldable pub claim_due : ℕ → Handler (List OutboxRow)
claim_due batch = call (query (λ env w. claim env.now batch w))

abbrev pub set_row : ℕ → (OutboxRow → OutboxRow) → World → World
set_row i f w = record w { outbox = update_row outbox_key i f w.outbox }

-- `setStatus`
unfoldable pub set_status : ℕ → OutboxStatus → ℕ → Option DeliveryError → Handler (Unit {0})
set_status id status attempts last_error = call (
    query (λ env w. (
      tt,
      set_row id
          (λ r. record r {
            status = status;
            attempts = attempts;
            last_error = last_error;
            updated_at = env.now;
          })
          w,
    )))

-- `RETRY_DELAYS_MS[Math.min(attempts - 1, RETRY_DELAYS_MS.length - 1)]`, for one attempt or more
abbrev pub retry_delay : ℕ → ℕ
retry_delay attempts = if leb attempts 1 then 1000 else if attempts == 2 then 5000 else 30000

-- `reschedule`
unfoldable pub reschedule : OutboxRow → ℕ → DeliveryError → Handler (Unit {0})
reschedule row attempts last_error = call (
    query (λ env w. (
      tt,
      set_row row.id
          (λ r. record r {
            status = OutboxStatus.pending;
            attempts = attempts;
            last_error = some last_error;
            next_attempt_at = env.now + retry_delay attempts;
            updated_at = env.now;
          })
          w,
    )))

-- `recordDelivery`: a failure is logged and not passed on.
unfoldable pub record_delivery : (ℕ → ℕ → Delivery) → Handler (Unit {0})
record_delivery delivery = do
  attempt (
      call (
        query (λ env w.
          (tt, record w { deliveries = w.deliveries ++ delivery env.uuid env.now ∷ [] }))))
  pure tt

-- `ClientsRepository.findById`
unfoldable pub find_client : ℕ → Handler (Option ClientRecord)
find_client id = call (query (λ _ w. (find_row client_key id w.clients, w)))

-- `listRecentDeliveries`: newest first
abbrev pub recent_deliveries : ℕ → ℕ → Bool → List Delivery → List Delivery
recent_deliveries client_id limit only_failed rows = take limit (
    sort_by (λ (a b : Delivery). leb b.created_at a.created_at)
      (filter (λ (d : Delivery). d.client_id == client_id && (not only_failed || not d.success))
        rows))

unfoldable pub list_recent_deliveries : ℕ → ℕ → Bool → Handler (List Delivery)
list_recent_deliveries client_id limit only_failed =
    call (query (λ _ w. (recent_deliveries client_id limit only_failed w.deliveries, w)))
