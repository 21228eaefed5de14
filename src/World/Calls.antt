-- ===== src/World/Calls.antt =====
-- The calls that every part makes: a database statement, the clock, a fresh UUID, an answer of the
-- RPC node, an audit event (src/audit/audit.service.ts) and an outbox row
-- (`enqueue` of src/webhooks/webhook.service.ts).
use avasettile.Common.{
  ℕ, zero, suc, Bool, true, false, String, Option, none, some, List, [], ◌∷◌, ◌++◌, any, filter,
  sort_by, leb, if◌then◌else◌, ◌==◌,
}
use avasettile.Common.Int.{ℤ, pos, negsuc}
use avasettile.Effect.{
  Error, invalid_amount, database_error, rpc_error, not_configured, Result, ok, err, Action, Prog,
  malformed_amount, pure, throw, call, attempt, from_result, or_throw, ◌>>=◌, ◌>>◌,
}
use avasettile.Records.Common.{
  Json, text, number, AuditEvent, AuditEventType, AuditActor, RequestContext, SettlementAsset,
}
use avasettile.Records.Outbox.{OutboxRow, OutboxStatus}
use avasettile.World.State.{World, Outside, DatabaseAnswer, answered, refused, reply_lost}
use avasettile.World.Setup.{Config, Viem, AssetRuntimeConfig}

abbrev pub Handler : Type 0 → Type 1
Handler A = Prog Outside World A

abbrev pub reply : {A : Type 0} → DatabaseAnswer → A × World → World → Result A × World
reply answered s old = (ok s.0, s.1)
reply refused s old = (err database_error, old)
reply reply_lost s old = (err database_error, s.1)

-- `database.query`: the statement is one atomic step.
abbrev pub query : {A : Type 0} → (Outside → World → A × World) → Action Outside World A
query statement env w = reply env.database (statement env w) w

abbrev pub answer_of : {A : Type 0} → Option A → Result A
answer_of none = err rpc_error
answer_of (some a) = ok a

-- A read from the RPC node.
abbrev pub read_chain : {A : Type 0} → (Outside → Option A) → Handler A
read_chain field = call (λ env w. (answer_of (field env), w))

abbrev pub get_now : Handler ℕ
get_now = call (λ env w. (ok env.now, w))

abbrev pub random_uuid : Handler ℕ
random_uuid = call (λ env w. (ok env.uuid, w))

abbrev pub throw_if : Bool → Error → Handler (Unit {0})
throw_if true e = throw e
throw_if false e = pure tt

-- `toAuditActor`
abbrev pub to_audit_actor : RequestContext → Option String → AuditActor
to_audit_actor ctx override = record {
  client_id = ctx.client_id;
  actor = elim override [ none ↦ ctx.actor | some name ↦ some name ];
  correlation_id = ctx.correlation_id;
  source_ip = ctx.source_ip;
}

-- `INSERT … ON CONFLICT (id) DO NOTHING`
abbrev pub insert_event : AuditEvent → List AuditEvent → List AuditEvent
insert_event event events =
    if any (λ (e : AuditEvent). e.id == event.id) events then events else events ++ event ∷ []

-- `AuditService.record`
unfoldable pub record_event : AuditEventType → ℕ → AuditActor → Json → Handler AuditEvent
record_event type subject_id actor payload = do
  id ← random_uuid
  now ← get_now
  let event : AuditEvent = record {
    id = id;
    client_id = actor.client_id;
    type = type;
    subject_id = subject_id;
    actor = actor;
    payload = payload;
    created_at = now;
  }
  call (query (λ _ w. (tt, record w { audit_events = insert_event event w.audit_events })))
  pure event

-- `WHERE subject_id = $1 ORDER BY created_at ASC`
abbrev trail_of : ℕ → List AuditEvent → List AuditEvent
trail_of subject_id events =
    sort_by (λ (a b : AuditEvent). leb a.created_at b.created_at)
      (filter (λ (e : AuditEvent). e.subject_id == subject_id) events)

abbrev add_outbox : Outside → ℕ → String → ℕ → Json → World → World
add_outbox env client_id event timestamp payload w = record w { outbox = w.outbox ++ row ∷ [] }
  where
    row : OutboxRow
    row = record {
      id = env.uuid;
      client_id = client_id;
      event = event;
      payload = ("event", text event) ∷ ("timestamp", number timestamp) ∷ payload;
      status = OutboxStatus.pending;
      attempts = 0;
      next_attempt_at = env.now;
      last_error = none;
      updated_at = env.now;
    }

-- `AuditService.listBySubject`
unfoldable pub list_by_subject : ℕ → Handler (List AuditEvent)
list_by_subject subject_id = call (query (λ _ w. (trail_of subject_id w.audit_events, w)))

-- `WebhookService.enqueue`: a failure to enqueue is logged and not passed on.
unfoldable pub enqueue : Option ℕ → String → Json → Handler (Unit {0})
enqueue none event payload = pure tt
enqueue (some client_id) event payload = do
  timestamp ← get_now
  attempt (call (query (λ env w. (tt, add_outbox env client_id event timestamp payload w))))
  pure tt

abbrev positive : Option ℤ → Result ℕ
positive none = err malformed_amount
positive (some (pos zero)) = err malformed_amount
positive (some (pos (suc n))) = ok (suc n)
positive (some (negsuc n)) = err malformed_amount

-- `parseAtomicAmount`
unfoldable pub parse_atomic_amount : Viem → String → ℕ → Result ℕ
parse_atomic_amount viem amount decimals = positive (viem.parse_units amount decimals)

-- `parseAmount`: what `parseAtomicAmount` throws becomes a `BadRequestException`.
abbrev bad_request : Result ℕ → Result ℕ
bad_request (ok n) = ok n
bad_request (err _) = err invalid_amount

unfoldable pub parse_amount : Viem → String → AssetRuntimeConfig → Handler ℕ
unfolding parse_atomic_amount
parse_amount viem amount asset =
    from_result (bad_request (parse_atomic_amount viem amount asset.decimals))

-- `requireAsset`, of which the callers use the address
unfoldable pub require_asset : Config → SettlementAsset → Handler ℕ
require_asset config asset = or_throw (config.get_asset_config asset).address not_configured
