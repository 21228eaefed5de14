-- ===== src/Webhooks/Unloaded.antt =====
-- Attempts on a row whose client cannot be loaded (src/webhooks/webhook.service.ts).
use avasettile.Common.{ℕ, zero, suc, ◌+◌, ◌≡◌, ◌≢◌, ◌∙◌, sym, subst, refl, ap, String, some, arith}
use avasettile.Common.Table.{find_row, update_row, find_row-update_row, key-find_row}
use avasettile.Effect.{database_error, ok}
use avasettile.Effect.Sequential.{run, traces, run-trace}
use avasettile.Records.Common.{Json}
use avasettile.Records.Outbox.{OutboxStatus, OutboxRow, outbox_key, raised}
use avasettile.World.{World, Outside, Config, DatabaseAnswer, answered, refused, reply_lost}
use avasettile.Webhooks.Delivery.{deliver_once}
use avasettile.Webhooks.Progress.{SameMessage}
use avasettile.Webhooks.Outcome.{judged, try_again, retry_delay-backoff}
use avasettile.Webhooks.Retry.{attempt_found, attempt_row, attempts_on}

-- One attempt whose load of the client is not answered.
deliver_once-unloaded :
    (config : Config) (hmac_sha256 : String → Json → String) (outside : ℕ → Outside)
    (row : OutboxRow) (w : World)
    → (outside 0).database ≢ answered
    → (outside 1).database ≡ answered
    → let s = run outside 0 (deliver_once config hmac_sha256 row) w in
      (s.0 ≡ ok tt)
      × (s.1.posts ≡ w.posts)
      × (s.1.outbox
          ≡ update_row outbox_key row.id
              (judged (try_again (raised database_error)) row.attempts (outside 1).now)
              w.outbox)
unfolding deliver_once
deliver_once-unloaded config hmac_sha256 outside row w down up =
    by_answer (outside 0).database refl down
  where
    by_answer :
        (d : DatabaseAnswer)
        → (outside 0).database ≡ d
        → d ≢ answered
        → let s = run outside 0 (deliver_once config hmac_sha256 row) w in
          (s.0 ≡ ok tt)
          × (s.1.posts ≡ w.posts)
          × (s.1.outbox
              ≡ update_row outbox_key row.id
                  (judged (try_again (raised database_error)) row.attempts (outside 1).now)
                  w.outbox)
    by_answer answered e bad = absurd (bad refl)
    by_answer refused e bad =
        rw (run-trace outside 0 (deliver_once config hmac_sha256 row) w)
          (simp (traces, e, up, retry_delay-backoff) (refl, refl, refl))
    by_answer reply_lost e bad =
        rw (run-trace outside 0 (deliver_once config hmac_sha256 row) w)
          (simp (traces, e, up, retry_delay-backoff) (refl, refl, refl))

module _ (config : Config) (hmac_sha256 : String → Json → String) (i : ℕ) (r : OutboxRow) where
  -- The row is still pending after `k` attempts more, and nothing new was sent.
  abbrev pub StillPending : ℕ → World → World → Type 0
  StillPending k before w =
      (q : OutboxRow) × (find_row outbox_key i w.outbox ≡ some q)
      × SameMessage r q
      × (q.status ≡ OutboxStatus.pending)
      × (q.attempts ≡ r.attempts + k)
      × (w.posts ≡ before.posts)

  still_pending :
      (outside : ℕ → Outside) (k : ℕ) (before w : World)
      → (outside 0).database ≢ answered
      → (outside 1).database ≡ answered
      → StillPending k before w
      → StillPending (suc k) before (attempt_row config hmac_sha256 outside i w)
  unfolding attempt_row
  still_pending outside k before w down up (q, found, same, st, n, none_sent) =
      let (_, posts, outbox) = deliver_once-unloaded config hmac_sha256 outside q w down up in
      let now = (outside 1).now in
      let next = judged (try_again (raised database_error)) q.attempts now in
      let stored : find_row outbox_key i (update_row outbox_key q.id next w.outbox)
          ≡ some (next q) =
        find_row-update_row outbox_key next (λ x. refl) q.id i w.outbox
        ∙ ground (arith, found, key-find_row outbox_key i w.outbox q) in
      let moved : attempt_row config hmac_sha256 outside i w
          ≡ (run outside 0 (deliver_once config hmac_sha256 q) w).1 =
        ap (attempt_found config hmac_sha256 outside w) found ∙ rw st refl in
      subst (StillPending (suc k) before) (sym moved) (
        next q,
        ap (find_row outbox_key i) outbox ∙ stored,
        same,
        refl,
        omega (arith, n),
        posts ∙ none_sent,
      )

  -- Take a pending row, with any number of attempts so far. If in each of `k` attempts, one by one, the load of the
  -- client is not answered and the next statement is, then after them the row is there with its message, is still
  -- pending and counts `k` attempts more, and no POST was sent: however large `k` is against the
  -- configured limit, the row is never failed.
  pub attempts_on-unloaded :
      (outside : ℕ → ℕ → Outside) (w : World)
      → ((k : ℕ) → (outside k 0).database ≢ answered)
      → ((k : ℕ) → (outside k 1).database ≡ answered)
      → find_row outbox_key i w.outbox ≡ some r
      → r.status ≡ OutboxStatus.pending
      → (k : ℕ) → StillPending k w (attempts_on config hmac_sha256 outside i k w)
  unfolding attempts_on
  attempts_on-unloaded outside w down up found st zero =
      (r, found, (refl, refl, refl), st, omega arith, refl)
  attempts_on-unloaded outside w down up found st (suc k) =
      still_pending (outside k) k w _ (down k) (up k)
        (attempts_on-unloaded outside w down up found st k)
