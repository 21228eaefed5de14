-- ===== src/Tests/Webhooks.antt =====
-- A webhook that is dispatched, retried and skipped (src/webhooks/webhook.service.ts).
use avasettile.Common.{
  inl, ℕ, zero, suc, ◌≤◌, ◌≡◌, refl, true, false, String, none, some, List, [], ◌∷◌, map, length,
  member, arith,
}
use avasettile.Common.Table.{find_row}
use avasettile.Effect.{◌>>=◌, attempt, call, for_each, ok}
use avasettile.Effect.Sequential.{run}
use avasettile.Effect.Pool.{Event, arrive, turn, run_pool}
use avasettile.Records.Common.{Json, text}
use avasettile.Records.Outbox.{OutboxStatus, OutboxRow, outbox_key, ClientRecord}
use avasettile.World.{World, Outside, refused}
use avasettile.Webhooks.Outbox.{claim, recover_row}
use avasettile.Webhooks.Delivery.{deliver_once, dispatch_due_events}
use avasettile.Webhooks.Progress.{Stored, Accepted, SameMessage, Extends}
use avasettile.Webhooks.AllDue.{claim-all_due}
use avasettile.Webhooks.Claims.{claim-due, claims-disjoint, HasDue}
use avasettile.Webhooks.Outcome.{Verdict, judged}
use avasettile.Webhooks.Verdict.{IsVerdict, deliver_once-verdict}
use avasettile.Webhooks.Unloaded.{StillPending, attempts_on-unloaded}
use avasettile.Webhooks.Retry.{attempts_on, attempts_on-ends}
use avasettile.System.Messages.{
  Request, dispatch, serve, messages-kept, delivered-Accepted, audit_log-Extends,
}
use avasettile.Tests.Setup.{test_config, test_viem, fair_weather, one_payout}

abbrev event_row : OutboxRow
event_row = record {
  id = 5;
  client_id = 4;
  event = "payout.confirmed";
  payload = ("event", text "payout.confirmed") ∷ [];
  status = OutboxStatus.pending;
  attempts = 0;
  next_attempt_at = 900;
  last_error = none;
  updated_at = 900;
}

abbrev client : ClientRecord
client = record {
  id = 4;
  active = true;
  webhook_url = some "https://client.example/hook";
  webhook_secret = some "secret";
}

abbrev one_event : World
one_event = record one_payout { outbox = event_row ∷ []; clients = client ∷ [] }

abbrev hmac : String → Json → String
hmac secret payload = secret

abbrev turns : ℕ → List (Event Outside Request)
turns zero = []
turns (suc n) = turn 0 fair_weather ∷ turns n

abbrev one_tick : List (Event Outside Request)
one_tick = arrive (dispatch 10) ∷ turns 9

abbrev delivered_row : OutboxRow
delivered_row = record event_row {
  status = OutboxStatus.delivered;
  attempts = 1;
  updated_at = 1000;
}

after_tick :
    find_row outbox_key 5
      (run_pool (serve test_config test_viem hmac) one_tick (one_event, [])).0.outbox
    ≡ some delivered_row
unfolding run_pool serve ◌>>=◌ attempt dispatch_due_events call for_each
after_tick = refl

messages-kept_example :
    Stored event_row (run_pool (serve test_config test_viem hmac) one_tick (one_event, [])).0
messages-kept_example =
    messages-kept test_config test_viem hmac one_tick one_event event_row
      (event_row, refl, (refl, refl, refl))

delivered-Accepted_example :
    Accepted delivered_row (run_pool (serve test_config test_viem hmac) one_tick (one_event, [])).0
delivered-Accepted_example =
    delivered-Accepted test_config test_viem hmac one_tick one_event delivered_row
      (λ r found sent. ground arith) after_tick refl

audit_log-Extends_example :
    Extends [] (run_pool (serve test_config test_viem hmac) one_tick (one_event, [])).0.audit_events
audit_log-Extends_example = audit_log-Extends test_config test_viem hmac one_tick one_event

claim-due_example : (length (claim 1000 10 one_event).0 ≤ 10) × HasDue 1000 5 one_event.outbox
claim-due_example = claim-due 1000 10 5 one_event refl

claim-all_due_example : member 5 (map outbox_key (claim 1000 10 one_event).0) ≡ true
claim-all_due_example =
    claim-all_due 1000 10 5 one_event (omega arith) (inl (refl, refl, omega arith))

-- Another dispatcher looks four minutes later.
claims-disjoint_example :
    member 5 (
      map outbox_key
        (claim 241000 10 (record (claim 1000 10 one_event).1 {
          outbox = map (recover_row 240000) (claim 1000 10 one_event).1.outbox;
        })).0)
    ≡ false
claims-disjoint_example = claims-disjoint 1000 10 240000 241000 10 5 one_event (omega arith) refl

abbrev always_fair : ℕ → Outside
always_fair n = fair_weather

deliver_once-verdict_example :
    ((run always_fair 0 (deliver_once test_config hmac event_row) one_event).0 ≡ ok tt)
    × ((run always_fair 0 (deliver_once test_config hmac event_row) one_event).1.clients
        ≡ client ∷ [])
    × ((v : Verdict) × ((run always_fair 0
            (deliver_once test_config hmac event_row)
            one_event).1.outbox
          ≡ judged v 0 1000 event_row ∷ [])
        × IsVerdict 5 1 (some client) (some 200) v)
deliver_once-verdict_example =
    deliver_once-verdict test_config hmac always_fair 1000 (λ n. refl) (λ n. refl) event_row 0
      one_event

-- The load of the client fails in every attempt, after a hundred attempts.
abbrev worn_row : OutboxRow
worn_row = record event_row { attempts = 100 }

abbrev worn_event : World
worn_event = record one_event { outbox = worn_row ∷ [] }

abbrev down_first : ℕ → ℕ → Outside
down_first k zero = record fair_weather { database = refused }
down_first k (suc n) = fair_weather

attempts_on-unloaded_example :
    StillPending test_config hmac 5 worn_row 3 worn_event
      (attempts_on test_config hmac down_first 5 3 worn_event)
attempts_on-unloaded_example =
    attempts_on-unloaded test_config hmac 5 worn_row down_first worn_event (λ k e. ground arith)
      (λ k. refl) refl refl 3

-- The receiver is down.
abbrev bad_gateway : ℕ → ℕ → Outside
bad_gateway k n = record fair_weather { http_status = some 502 }

attempts_on-ends_example :
    (q : OutboxRow) × (find_row outbox_key 5
        (attempts_on test_config hmac bad_gateway 5 5 one_event).outbox
      ≡ some q)
    × SameMessage event_row q
    × (q.status ≡ OutboxStatus.failed)
    × (q.attempts ≤ 5)
attempts_on-ends_example =
    attempts_on-ends test_config hmac 5 event_row (client, "https://client.example/hook")
      bad_gateway (λ k. 1000) one_event (λ k n. refl) (λ k n. refl) (λ k. refl) refl refl refl refl
