-- ===== src/Webhooks/Delivery.antt =====
-- One delivery attempt and one run of the dispatcher (src/webhooks/webhook.service.ts,
-- src/webhooks/webhook-dispatcher.service.ts). The outbound request's log entry is left out.
use Prim.Native.String.{◌++◌ as str_append}
use avasettile.Common.{
  ℕ, ◌+◌, Bool, true, false, not, ◌&&◌, ◌||◌, String, Option, none, some, [], ◌∷◌, ◌++◌, ltb, leb,
  length, ◌==◌, str_eq, if◌then◌else◌,
}
use avasettile.Effect.{
  network_error, Result, ok, err, Action, pure, call, attempt, try_catch, for_each, ◌>>=◌, ◌>>◌,
}
use avasettile.Records.Outbox.{
  OutboxStatus, OutboxRow, DeliveryError, http_error, raised, no_endpoint, Delivery, Post,
  ClientRecord,
}
use avasettile.Records.Common.{Json}
use avasettile.World.{World, Outside, Handler, Config, get_now}
use avasettile.Webhooks.Outbox.{
  recover_stuck, claim_due, set_status, reschedule, record_delivery, find_client,
}

-- `response.ok`
abbrev pub response_ok : ℕ → Bool
response_ok status = leb 200 status && ltb status 300

-- `isRetryableStatus`
abbrev pub is_retryable_status : ℕ → Bool
is_retryable_status status = status == 429 || leb 500 status

-- `x ? x : null` of a nullable text
abbrev pub truthy : Option String → Option String
truthy none = none
truthy (some s) = if str_eq s "" then none else some s

abbrev pub at_least_one : ℕ → ℕ
at_least_one n = if n == 0 then 1 else n

-- The client's endpoint, if the client is there, is active and has a URL.
abbrev pub endpoint : Option ClientRecord → Option (ClientRecord × String)
endpoint none = none
endpoint (some client) =
    if client.active
    then elim (truthy client.webhook_url) [ none ↦ none | some url ↦ some (client, url) ]
    else none

-- `none` is a `fetch` that throws; the receiver may have been reached all the same.
abbrev pub answer_of_post : Option ℕ → Result ℕ
answer_of_post none = err network_error
answer_of_post (some status) = ok status

module _ (config : Config) (hmac_sha256 : String → Json → String) where
  -- The header `x-avasettle-signature`; `hmac_sha256 secret payload` is the digest of the payload's text.
  abbrev pub signature_of : Option String → Json → Option String
  signature_of secret payload = elim (truthy secret) [
    | none ↦ none
    | some key ↦ some (str_append "sha256=" (hmac_sha256 key payload))
  ]

  abbrev pub post_of : OutboxRow → ClientRecord → String → Option ℕ → Post
  post_of row client url status = record {
    row = row.id;
    url = url;
    body = row.payload;
    signature = signature_of client.webhook_secret row.payload;
    status = status;
  }

  abbrev pub send_post : OutboxRow → ClientRecord → String → Action Outside World ℕ
  send_post row client url env w = (
    answer_of_post env.http_status,
    record w { posts = w.posts ++ post_of row client url env.http_status ∷ [] },
  )

  abbrev pub delivery_of :
      OutboxRow
      → ClientRecord
      → String
      → Bool
      → ℕ
      → Option DeliveryError
      → Option ℕ
      → ℕ
      → ℕ
      → Delivery
  delivery_of row client url success attempts last_error delivered_at id now = record {
    id = id;
    client_id = client.id;
    event = row.event;
    url = url;
    payload = row.payload;
    success = success;
    attempts = attempts;
    last_error = last_error;
    delivered_at = delivered_at;
    created_at = now;
  }

  -- The body of the `if (response.ok)`.
  unfoldable pub mark_delivered : OutboxRow → ClientRecord → String → ℕ → Handler (Unit {0})
  unfolding set_status record_delivery
  mark_delivered row client url attempts = do
    set_status row.id OutboxStatus.delivered attempts none
    now ← get_now
    record_delivery (delivery_of row client url true attempts none (some now))

  -- The `try` block; `none` where it returns, else the error and whether to retry.
  unfoldable pub send_once :
      OutboxRow → ClientRecord → String → ℕ → Handler (Option (DeliveryError × Bool))
  unfolding mark_delivered
  send_once row client url attempts = do
    status ← call (send_post row client url)
    if response_ok status
        then mark_delivered row client url attempts >> pure none
        else pure (some (http_error status, is_retryable_status status))

  -- What follows the `try` block.
  unfoldable pub after_failure :
      OutboxRow → ClientRecord → String → ℕ → Option (DeliveryError × Bool) → Handler (Unit {0})
  unfolding set_status record_delivery reschedule
  after_failure row client url attempts none = pure tt
  after_failure row client url attempts (some (last_error, retryable)) =
      if not retryable || leb (at_least_one config.webhook_retry_attempts) attempts
      then set_status row.id OutboxStatus.failed attempts (some last_error)
        >> record_delivery (delivery_of row client url false attempts (some last_error) none)
      else reschedule row attempts last_error

  unfoldable pub deliver_to : OutboxRow → Option (ClientRecord × String) → Handler (Unit {0})
  unfolding set_status send_once after_failure
  deliver_to row none = set_status row.id OutboxStatus.skipped row.attempts (some no_endpoint)
  deliver_to row (some (client, url)) = do
    outcome ←
        try_catch (send_once row client url (row.attempts + 1)) (λ e. pure (some (raised e, true)))
    after_failure row client url (row.attempts + 1) outcome

  abbrev pub after_load : OutboxRow → Result (Option ClientRecord) → Handler (Unit {0})
  after_load row (err e) = reschedule row (row.attempts + 1) (raised e)
  after_load row (ok client) = deliver_to row (endpoint client)

  -- `deliverOnce`
  unfoldable pub deliver_once : OutboxRow → Handler (Unit {0})
  unfolding find_client reschedule deliver_to
  deliver_once row = attempt (find_client row.client_id) >>= after_load row

  -- `dispatchDueEvents`
  unfoldable pub dispatch_due_events : ℕ → Handler ℕ
  unfolding recover_stuck claim_due deliver_once
  dispatch_due_events batch = do
    recover_stuck
    claimed ← claim_due batch
    for_each deliver_once claimed
    pure (length claimed)

  -- The fields of WebhookDispatcherService that outlive a tick.
  pub record Dispatcher : Type 0 where
    pub running : Bool

  -- `tick`, of which a process has at most one under way; what it throws is logged.
  unfoldable pub tick : Dispatcher → Dispatcher × Option (Handler (Unit {0}))
  unfolding dispatch_due_events
  tick d =
      if d.running
      then (d, none)
      else (record { running = true }, some (attempt (dispatch_due_events 10) >> pure tt))

  -- The `finally` of `tick`.
  unfoldable pub tick_ended : Dispatcher → Dispatcher
  tick_ended d = record { running = false }
