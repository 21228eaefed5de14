-- ===== src/Webhooks/Delivered.antt =====
-- The handlers of the webhook service and of its dispatcher (src/webhooks/webhook.service.ts,
-- src/webhooks/webhook-dispatcher.service.ts), run at the same time by any number of processes.
use avasettile.Common.{
  ℕ, ◌+◌, Bool, true, ◌≡◌, refl, inl, inr, String, Option, none, some, Bool-cases, ◌||◌, not, [],
  ◌∷◌, ◌++◌, leb,
}
use avasettile.Effect.{Result, ok, err, pure, call, handle}
use avasettile.Effect.Grows.{Grows->>=, Grows-call, Grows-attempt, Grows-for_each, Nothing, OnOk}
use avasettile.Records.Common.{Json}
use avasettile.Records.Outbox.{
  OutboxStatus, OutboxRow, DeliveryError, raised, no_endpoint, ClientRecord,
}
use avasettile.World.{World, Config}
use avasettile.Webhooks.Delivery.{
  send_post, mark_delivered, send_once, after_failure, deliver_to, deliver_once,
  dispatch_due_events, response_ok, answer_of_post, post_of, after_load, endpoint, at_least_one,
}
use avasettile.Webhooks.Progress.{
  Progress, Progress-refl, Progress-trans, Progress-post, Stored, Accepted, HasPost-last,
}
use avasettile.Webhooks.Along.{
  Along, Along-then, Along-pure, Along-recover_stuck, Along-claim_due, Along-set_status,
  Along-reschedule, Along-record_delivery, Along-find_client, Along-get_now,
}

module _ (config : Config) (hmac_sha256 : String → Json → String) where
  post-Accepted :
      (row : OutboxRow) (client : ClientRecord) (url : String) (status : Option ℕ) (w : World)
      → OnOk
          (λ code v. response_ok code ≡ true → Accepted row v)
          (answer_of_post status)
          (record w { posts = w.posts ++ post_of config hmac_sha256 row client url status ∷ [] })
  post-Accepted row client url none w = tt
  post-Accepted row client url (some status) w =
      λ success. HasPost-last row w.posts _ (refl, refl, success)

  Along-send_post :
      (row : OutboxRow) (client : ClientRecord) (url : String) (w : World)
      → Along
          (call (send_post config hmac_sha256 row client url))
          (λ status v. response_ok status ≡ true → Accepted row v)
          w
  Along-send_post row client url w =
      Grows-call Progress Progress-refl Progress-trans _ _ w
        λ env v moved. (Progress-post v _, post-Accepted row client url env.http_status v)

  Along-mark_delivered :
      (row : OutboxRow) (client : ClientRecord) (url : String) (attempts : ℕ) (w : World)
      → Stored row w
      → Accepted row w
      → Along (mark_delivered config hmac_sha256 row client url attempts) Nothing w
  unfolding mark_delivered
  Along-mark_delivered row client url attempts w stored accepted =
      Along-then _ _ _ w
        (Along-set_status row OutboxStatus.delivered attempts none w (λ _. (stored, accepted)))
        λ _ v _ _. Along-then _ _ _ v (Along-get_now v) (λ now u _ _. Along-record_delivery _ u)

  Along-send_once :
      (row : OutboxRow) (client : ClientRecord) (url : String) (attempts : ℕ) (w : World)
      → Stored row w
      → Along (send_once config hmac_sha256 row client url attempts) Nothing w
  unfolding send_once
  Along-send_once row client url attempts w stored =
      Along-then _ _ _ w (Along-send_post row client url w) λ status v moved accepted.
        elim (Bool-cases (response_ok status)) [
          | inl e ↦ rw e (
              Along-then _ _ _ v
                (Along-mark_delivered row client url attempts v (moved.stored row stored)
                  (accepted e))
                (λ _ u _ _. Along-pure none u))
          | inr e ↦ rw e (Along-pure _ v)
        ]

  Along-after_failure :
      (row : OutboxRow) (client : ClientRecord) (url : String) (attempts : ℕ)
      (outcome : Option (DeliveryError × Bool)) (w : World)
      → Along (after_failure config hmac_sha256 row client url attempts outcome) Nothing w
  unfolding after_failure
  Along-after_failure row client url attempts none w = Along-pure tt w
  Along-after_failure row client url attempts (some (last_error, retryable)) w =
      elim (Bool-cases
        (not retryable || leb (at_least_one config.webhook_retry_attempts) attempts)) [
          | inl e ↦ rw e (
              Along-then _ _ _ w
                (Along-set_status row OutboxStatus.failed attempts (some last_error) w (λ bad. cc))
                (λ _ v _ _. Along-record_delivery _ v))
          | inr e ↦ rw e (Along-reschedule row attempts last_error w)
        ]

  Along-deliver_to :
      (row : OutboxRow) (target : Option (ClientRecord × String)) (w : World)
      → Stored row w
      → Along (deliver_to config hmac_sha256 row target) Nothing w
  unfolding deliver_to
  Along-deliver_to row none w stored =
      Along-set_status row OutboxStatus.skipped row.attempts (some no_endpoint) w (λ bad. cc)
  Along-deliver_to row (some (client, url)) w stored =
      Along-then _ _ Nothing w
        (Grows->>= Progress Progress-refl Progress-trans _ _ _ _ w
          (Grows-attempt Progress Progress-refl Progress-trans _ Nothing w
            (Along-send_once row client url (row.attempts + 1) w stored))
          (λ r v _ _. caught r v))
        (λ outcome v _ _. Along-after_failure row client url (row.attempts + 1) outcome v)
    where
      caught :
          (r : Result (Option (DeliveryError × Bool))) (v : World)
          → Along (handle (λ e. pure (some (raised e, true))) r) Nothing v
      caught (ok a) v = Along-pure a v
      caught (err e) v = Along-pure _ v

  Along-deliver_once :
      (row : OutboxRow) (w : World)
      → Stored row w
      → Along (deliver_once config hmac_sha256 row) Nothing w
  unfolding deliver_once
  Along-deliver_once row w stored =
      Along-then _ _ _ w
        (Grows-attempt Progress Progress-refl Progress-trans _ Nothing w
          (Along-find_client row.client_id w))
        (λ r v moved _. loaded r v (moved.stored row stored))
    where
      loaded :
          (r : Result (Option ClientRecord)) (v : World)
          → Stored row v
          → Along (after_load config hmac_sha256 row r) Nothing v
      loaded (err e) v h = Along-reschedule row (row.attempts + 1) (raised e) v
      loaded (ok client) v h = Along-deliver_to row (endpoint client) v h

  pub Along-dispatch_due_events :
      (batch : ℕ) (w : World) → Along (dispatch_due_events config hmac_sha256 batch) Nothing w
  unfolding dispatch_due_events
  Along-dispatch_due_events batch w = Along-then _ _ _ w (Along-recover_stuck w) λ _ v _ _.
      Along-then _ _ _ v (Along-claim_due batch v) λ claimed u _ stored.
        Along-then _ _ _ u
          (Grows-for_each Progress Progress-refl Progress-trans _ Stored
            (λ row x y moved. moved.stored row) Along-deliver_once claimed u stored)
          (λ _ x _ _. Along-pure _ x)
