-- ===== src/Webhooks/Outcome.antt =====
-- What `deliverOnce` does with a row (src/webhooks/webhook.service.ts), against a table of the outcomes.
use avasettile.Common.{
  ℕ, zero, suc, ◌+◌, Bool, true, false, ◌≡◌, ◌∙◌, refl, inl, inr, String, Option, none, some,
  Bool-cases, ◌&&◌, [], ◌∷◌, ◌++◌, if◌then◌else◌, arith, leb, ltb,
}
use avasettile.Common.Table.{update_row}
use avasettile.Effect.{network_error, ok}
use avasettile.Effect.Sequential.{
  run, trace, traces, run-trace, trace-call, trace->>=, trace-attempt, trace-pure, resume-ok,
  resume-err,
}
use avasettile.Records.Common.{Json}
use avasettile.Records.Outbox.{
  OutboxStatus, OutboxRow, outbox_key, Delivery, DeliveryError, http_error, raised, no_endpoint,
  ClientRecord, client_key,
}
use avasettile.World.{World, Outside, Config, answered}
use avasettile.Common.Table.{find_row}
use avasettile.Webhooks.Outbox.{retry_delay, set_row, set_status, record_delivery, reschedule}
use avasettile.Webhooks.Delivery.{
  deliver_once, deliver_to, endpoint, is_retryable_status, response_ok, at_least_one, send_once,
  after_failure, mark_delivered,
}

pub data Verdict : Type 0 where
  no_target : Verdict
  success : Verdict
  gave_up : DeliveryError → Verdict
  try_again : DeliveryError → Verdict

-- After so many attempts, of at most `limit`, of which the last failed.
abbrev pub failure : (limit attempts : ℕ) → Bool → DeliveryError → Verdict
failure limit attempts retryable e =
    if retryable && ltb attempts limit then try_again e else gave_up e

-- By the response's status, where there was one.
abbrev pub response : (limit attempts : ℕ) → Option ℕ → Verdict
response limit attempts none = failure limit attempts true (raised network_error)
response limit attempts (some status) =
    if response_ok status
    then success
    else failure limit attempts (is_retryable_status status) (http_error status)

abbrev pub verdict : (limit attempts : ℕ) → Option (ClientRecord × String) → Option ℕ → Verdict
verdict limit attempts none status = no_target
verdict limit attempts (some target) status = response limit attempts status

-- How long to wait after the next failure, by the attempts before it: 1, 5, and then 30 seconds.
abbrev pub backoff : ℕ → ℕ
backoff zero = 1000
backoff (suc zero) = 5000
backoff (suc (suc n)) = 30000

pub retry_delay-backoff : (before : ℕ) → retry_delay (before + 1) ≡ backoff before
retry_delay-backoff zero = refl
retry_delay-backoff (suc zero) = refl
retry_delay-backoff (suc (suc n)) = ground arith

-- The row after a verdict at the time `now`; it had been attempted `before` times.
abbrev pub judged : Verdict → (before now : ℕ) → OutboxRow → OutboxRow
judged no_target before now r = record r {
  status = OutboxStatus.skipped;
  attempts = before;
  last_error = some no_endpoint;
  updated_at = now;
}
judged success before now r = record r {
  status = OutboxStatus.delivered;
  attempts = before + 1;
  last_error = none;
  updated_at = now;
}
judged (gave_up e) before now r = record r {
  status = OutboxStatus.failed;
  attempts = before + 1;
  last_error = some e;
  updated_at = now;
}
judged (try_again e) before now r = record r {
  status = OutboxStatus.pending;
  attempts = before + 1;
  last_error = some e;
  next_attempt_at = now + backoff before;
  updated_at = now;
}

module _ (config : Config) (hmac_sha256 : String → Json → String) (outside : ℕ → Outside) (now : ℕ)
    (up : (n : ℕ) → (outside n).database ≡ answered) (at : (n : ℕ) → (outside n).now ≡ now) where
  abbrev limit : ℕ
  limit = at_least_one config.webhook_retry_attempts

  pub trace-set_status :
      (id : ℕ) (status : OutboxStatus) (attempts : ℕ) (last_error : Option DeliveryError) (n : ℕ)
      (w : World)
      → trace outside n (set_status id status attempts last_error) w ≡ (
        ok tt,
        set_row id
            (λ r. record r {
              status = status;
              attempts = attempts;
              last_error = last_error;
              updated_at = now;
            })
            w,
        suc n,
      )
  unfolding set_status
  trace-set_status id status attempts last_error n w =
      trace-call outside n _ w ∙ rw (up n, at n) refl

  pub trace-record_delivery :
      (delivery : ℕ → ℕ → Delivery) (n : ℕ) (w : World)
      → trace outside n (record_delivery delivery) w ≡ (
        ok tt,
        record w { deliveries = w.deliveries ++ delivery (outside n).uuid now ∷ [] },
        suc n,
      )
  unfolding record_delivery
  trace-record_delivery delivery n w = simp traces (rw (up n, at n) refl)

  pub trace-reschedule :
      (row : OutboxRow) (attempts : ℕ) (last_error : DeliveryError) (n : ℕ) (w : World)
      → trace outside n (reschedule row attempts last_error) w ≡ (
        ok tt,
        set_row row.id
            (λ r. record r {
              status = OutboxStatus.pending;
              attempts = attempts;
              last_error = some last_error;
              next_attempt_at = now + retry_delay attempts;
              updated_at = now;
            })
            w,
        suc n,
      )
  unfolding reschedule
  trace-reschedule row attempts last_error n w = trace-call outside n _ w ∙ rw (up n, at n) refl

  ruleset steps = (
    trace->>=, trace-attempt, trace-call, trace-pure, resume-ok, resume-err, trace-set_status,
    trace-record_delivery, trace-reschedule,
  )

  -- What follows the `try` block, after an attempt that failed.
  trace-after_failure :
      (row : OutboxRow) (client : ClientRecord) (url : String) (e : DeliveryError)
      (retryable : Bool) (n : ℕ) (w : World)
      → let s =
          trace outside n
            (after_failure config hmac_sha256 row client url
              (row.attempts + 1)
              (some (e, retryable)))
            w in
        (s.0 ≡ ok tt)
        × (s.1.clients ≡ w.clients)
        × (s.1.outbox
            ≡ update_row outbox_key row.id
                (judged (failure limit (row.attempts + 1) retryable e) row.attempts now)
                w.outbox)
  unfolding after_failure
  trace-after_failure row client url e true n w = elim (Bool-cases (leb limit (row.attempts + 1))) [
    | inl h ↦
        let h' : ltb (row.attempts + 1) limit ≡ false = ground arith in
        rw (h, h') (simp (steps, up, at) (refl, refl, refl))
    | inr h ↦
        let h' : ltb (row.attempts + 1) limit ≡ true = ground arith in
        rw (h, h') (simp (steps, up, at, retry_delay-backoff) (refl, refl, refl))
  ]
  trace-after_failure row client url e false n w = simp (steps, up, at) (refl, refl, refl)

  by_status :
      (row : OutboxRow) (client : ClientRecord) (url : String) (n : ℕ) (w : World)
      (status : Option ℕ)
      → (outside n).http_status ≡ status
      → let s = trace outside n (deliver_to config hmac_sha256 row (some (client, url))) w in
        (s.0 ≡ ok tt)
        × (s.1.clients ≡ w.clients)
        × (s.1.outbox
            ≡ update_row outbox_key row.id
                (judged (response limit (row.attempts + 1) status) row.attempts now)
                w.outbox)
  unfolding deliver_to send_once mark_delivered
  by_status row client url n w none e =
      simp (steps, e) (trace-after_failure row client url (raised network_error) true (suc n) _)
  by_status row client url n w (some status) e = elim (Bool-cases (response_ok status)) [
    | inl h ↦ rw h (simp (steps, e, up, at, h) (refl, refl, refl))
    | inr h ↦ rw h (
        simp (steps, e, h)
          (trace-after_failure row client url (http_error status) (is_retryable_status status)
            (suc n) _))
  ]

  pub deliver_to-verdict :
      (row : OutboxRow) (target : Option (ClientRecord × String)) (n : ℕ) (w : World)
      → let s = trace outside n (deliver_to config hmac_sha256 row target) w in
        (s.0 ≡ ok tt)
        × (s.1.clients ≡ w.clients)
        × (s.1.outbox
            ≡ update_row outbox_key row.id
                (judged
                  (verdict limit (row.attempts + 1) target (outside n).http_status)
                  row.attempts
                  now)
                w.outbox)
  unfolding deliver_to
  deliver_to-verdict row none n w =
      rw (trace-set_status row.id OutboxStatus.skipped row.attempts (some no_endpoint) n w)
        (refl, refl, refl)
  deliver_to-verdict row (some (client, url)) n w =
      by_status row client url n w (outside n).http_status refl

  -- What an attempt does, by the program's own tests.
  pub deliver_once-judged :
      (row : OutboxRow) (n : ℕ) (w : World)
      → let s = run outside n (deliver_once config hmac_sha256 row) w in
        let target = endpoint (find_row client_key row.client_id w.clients) in
        (s.0 ≡ ok tt)
        × (s.1.clients ≡ w.clients)
        × (s.1.outbox
            ≡ update_row outbox_key row.id
                (judged
                  (verdict limit (row.attempts + 1) target (outside (suc n)).http_status)
                  row.attempts
                  now)
                w.outbox)
  unfolding deliver_once
  deliver_once-judged row n w = rw (run-trace outside n (deliver_once config hmac_sha256 row) w) (
      simp (steps, up)
        (deliver_to-verdict row (endpoint (find_row client_key row.client_id w.clients)) (suc n) w))
