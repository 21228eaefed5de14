-- ===== src/Webhooks/Retry.antt =====
-- How delivery attempts of one outbox row follow each other (src/webhooks/webhook.service.ts).
use avasettile.Common.{
  ℕ, zero, suc, ◌+◌, ◌≤◌, ◌<◌, Bool, true, false, ◌≡◌, ◌∙◌, sym, subst, refl, ap, ◌⊎◌, inl, inr,
  String, Option, none, some, Bool-cases, List, if◌then◌else◌, arith, ltb,
}
use avasettile.Common.Table.{find_row, update_row, find_row-update_row, key-find_row}
use avasettile.Effect.Sequential.{run}
use avasettile.Records.Common.{Json}
use avasettile.Records.Outbox.{
  OutboxStatus, OutboxRow, outbox_key, DeliveryError, ClientRecord, client_key,
}
use avasettile.World.{World, Outside, Config, answered}
use avasettile.Webhooks.Outbox.{is_pending}
use avasettile.Webhooks.Delivery.{deliver_once, endpoint, response_ok, at_least_one}
use avasettile.Webhooks.Progress.{SameMessage}
use avasettile.Webhooks.Outcome.{
  Verdict, failure, gave_up, try_again, judged, verdict, response, deliver_once-judged,
}

module _ (config : Config) (hmac_sha256 : String → Json → String) where
  abbrev pub attempt_found : (ℕ → Outside) → World → Option OutboxRow → World
  attempt_found outside w none = w
  attempt_found outside w (some r) =
      if is_pending r.status then (run outside 0 (deliver_once config hmac_sha256 r) w).1 else w

  -- One attempt on a row, made when the row is pending.
  unfoldable pub attempt_row : (ℕ → Outside) → ℕ → World → World
  attempt_row outside i w = attempt_found outside w (find_row outbox_key i w.outbox)

  -- So many attempts one after the other, each with answers of its own.
  unfoldable pub attempts_on : (ℕ → ℕ → Outside) → ℕ → ℕ → World → World
  unfolding attempt_row
  attempts_on outside i zero w = w
  attempts_on outside i (suc k) w = attempt_row (outside k) i (attempts_on outside i k w)

-- No response, or one without success.
abbrev pub IsFailure : Option ℕ → Type 0
IsFailure none = Unit
IsFailure (some status) = response_ok status ≡ false

-- A failed attempt leaves the row pending with one attempt more, or failed.
abbrev InRetry : (limit k : ℕ) → OutboxRow → Type 0
InRetry limit k q =
    ((q.status ≡ OutboxStatus.pending) × (q.attempts ≡ k) × (k < limit))
    ⊎ ((q.status ≡ OutboxStatus.failed) × (q.attempts ≤ limit))

failure-InRetry :
    (limit k : ℕ) (retryable : Bool) (e : DeliveryError) (now : ℕ) (r : OutboxRow)
    → k < limit
    → InRetry limit (k + 1) (judged (failure limit (k + 1) retryable e) k now r)
failure-InRetry limit k false e now r h = inr (refl, omega arith)
failure-InRetry limit k true e now r h = elim (Bool-cases (ltb (k + 1) limit)) [
  | inl more ↦ rw more (inl (refl, refl, ground arith))
  | inr last ↦ rw last (inr (refl, omega arith))
]

response-InRetry :
    (limit k : ℕ) (status : Option ℕ) (now : ℕ) (r : OutboxRow)
    → k < limit
    → IsFailure status
    → InRetry limit (k + 1) (judged (response limit (k + 1) status) k now r)
response-InRetry limit k none now r h f = failure-InRetry limit k true _ now r h
response-InRetry limit k (some status) now r h f = rw f (failure-InRetry limit k _ _ now r h)

judged-keeps :
    (v : Verdict) (before now : ℕ) (r : OutboxRow)
    → ((judged v before now r).id ≡ r.id) × SameMessage r (judged v before now r)
judged-keeps Verdict.no_target before now r = (refl, (refl, refl, refl))
judged-keeps Verdict.success before now r = (refl, (refl, refl, refl))
judged-keeps (gave_up e) before now r = (refl, (refl, refl, refl))
judged-keeps (try_again e) before now r = (refl, (refl, refl, refl))

module _ (config : Config) (hmac_sha256 : String → Json → String) (i : ℕ) (r : OutboxRow)
    (target : ClientRecord × String) where
  abbrev limit : ℕ
  limit = at_least_one config.webhook_retry_attempts

  -- After `k` failed attempts.
  abbrev Retried : ℕ → World → Type 0
  Retried k w =
      (endpoint (find_row client_key r.client_id w.clients) ≡ some target)
      × ((q : OutboxRow) × (find_row outbox_key i w.outbox ≡ some q)
          × SameMessage r q
          × InRetry limit k q)

  module _ (outside : ℕ → Outside) (now : ℕ) (up : (n : ℕ) → (outside n).database ≡ answered)
      (at : (n : ℕ) → (outside n).now ≡ now) (fails : IsFailure (outside 1).http_status) where
    attempt_row-pending :
        (w : World) (q : OutboxRow)
        → endpoint (find_row client_key r.client_id w.clients) ≡ some target
        → find_row outbox_key i w.outbox ≡ some q
        → SameMessage r q
        → q.status ≡ OutboxStatus.pending
        → q.attempts < limit
        → Retried (q.attempts + 1) (attempt_row config hmac_sha256 outside i w)
    unfolding attempt_row
    attempt_row-pending w q client found same st lt =
        let (_, clients, outbox) = deliver_once-judged config hmac_sha256 outside now up at q 0 w in
        let answer = (outside 1).http_status in
        let verdict' = response limit (q.attempts + 1) answer in
        let row' = judged verdict' q.attempts now q in
        let to_target : endpoint (find_row client_key q.client_id w.clients) ≡ some target =
          ap (λ (c : ℕ). endpoint (find_row client_key c w.clients)) same.0 ∙ client in
        let kept = judged-keeps verdict' q.attempts now in
        let stored : find_row outbox_key i
              (update_row outbox_key q.id (judged verdict' q.attempts now) w.outbox)
            ≡ some row' =
          find_row-update_row outbox_key (judged verdict' q.attempts now) (λ x. (kept x).0) q.id i
            w.outbox
          ∙ ground (arith, found, key-find_row outbox_key i w.outbox q) in
        let written =
          outbox
          ∙ ap
              (λ (t : Option (ClientRecord × String)).
                update_row outbox_key q.id
                  (judged (verdict limit (q.attempts + 1) t answer) q.attempts now) w.outbox)
              to_target in
        let moved : attempt_row config hmac_sha256 outside i w
            ≡ (run outside 0 (deliver_once config hmac_sha256 q) w).1 =
          ap (attempt_found config hmac_sha256 outside w) found ∙ rw st refl in
        let (c, e, p) = (kept q).1 in
        let (c', e', p') = same in
        subst (Retried (q.attempts + 1)) (sym moved) (
          ap (λ (cs : List ClientRecord). endpoint (find_row client_key r.client_id cs)) clients
              ∙ client,
          (
            row',
            ap (find_row outbox_key i) written ∙ stored,
            (c ∙ c', e ∙ e', p ∙ p'),
            response-InRetry limit q.attempts answer now q lt fails,
          ),
        )

    attempt_row-Retried :
        (k : ℕ) (w : World)
        → Retried k w
        → Retried (suc k) (attempt_row config hmac_sha256 outside i w)
    unfolding attempt_row
    attempt_row-Retried k w (client, (q, found, same, inr (st, le))) =
        let still : attempt_row config hmac_sha256 outside i w ≡ w =
          ap (attempt_found config hmac_sha256 outside w) found ∙ rw st refl in
        subst (Retried (suc k)) (sym still) (client, (q, found, same, inr (st, le)))
    attempt_row-Retried k w (client, (q, found, same, inl (st, n, lt))) =
        subst (λ m. Retried m (attempt_row config hmac_sha256 outside i w)) (omega (arith, n))
          (attempt_row-pending w q client found same st (omega (arith, n)))

  attempts_on-Retried :
      (outside : ℕ → ℕ → Outside) (now : ℕ → ℕ)
      → ((k n : ℕ) → (outside k n).database ≡ answered)
      → ((k n : ℕ) → (outside k n).now ≡ now k)
      → ((k : ℕ) → IsFailure (outside k 1).http_status)
      → (k : ℕ) (w : World) → Retried 0 w
      → Retried k (attempts_on config hmac_sha256 outside i k w)
  unfolding attempts_on
  attempts_on-Retried outside now up at fails zero w h = h
  attempts_on-Retried outside now up at fails (suc k) w h =
      attempt_row-Retried (outside k) (now k) (up k) (at k) (fails k) k _
        (attempts_on-Retried outside now up at fails k w h)

  -- Take a pending row with no attempts so far whose client has an active endpoint. Where the database
  -- answers every call, the clock stands still within each attempt, and every attempt is answered with
  -- no status from 200 to 299 or not at all, then after as many attempts one by one as the configured
  -- limit (at least 1) the row is there with its message, is failed, and counts no more attempts than
  -- the limit.
  pub attempts_on-ends :
      (outside : ℕ → ℕ → Outside) (now : ℕ → ℕ) (w : World)
      → ((k n : ℕ) → (outside k n).database ≡ answered)
      → ((k n : ℕ) → (outside k n).now ≡ now k)
      → ((k : ℕ) → IsFailure (outside k 1).http_status)
      → endpoint (find_row client_key r.client_id w.clients) ≡ some target
      → find_row outbox_key i w.outbox ≡ some r
      → r.status ≡ OutboxStatus.pending
      → r.attempts ≡ 0
      → (q : OutboxRow) × (find_row outbox_key i
            (attempts_on config hmac_sha256 outside i limit w).outbox
          ≡ some q)
        × SameMessage r q
        × (q.status ≡ OutboxStatus.failed)
        × (q.attempts ≤ limit)
  attempts_on-ends outside now w up at fails client found st none_yet =
      let (_, (q, there, same, state)) =
        attempts_on-Retried outside now up at fails limit w
          (client, (r, found, (refl, refl, refl), inl (st, none_yet, positive))) in
      elim state [
        | inl (_, _, lt) ↦ absurd (omega arith)
        | inr (gone, le) ↦ (q, there, same, gone, le)
      ]
    where
      positive : 0 < limit
      positive = ground arith
