-- ===== src/Webhooks/Verdict.antt =====
-- When an attempt delivers, gives up, tries again or skips (src/webhooks/webhook.service.ts), by the
-- client's row, the response's status and the number of attempts.
use avasettile.Common.{
  ℕ, suc, ◌+◌, ◌≤◌, ◌<◌, Bool, true, false, ◌≡◌, ◌≢◌, ◌⊎◌, refl, inl, inr, subst, String, Option,
  none, some, Bool-cases, Option-cases, ltb, str_eq, arith,
}
use text.Mathlib.TextEquality.{eq_iff}
use avasettile.Common.Table.{find_row, update_row}
use avasettile.Effect.{network_error, ok}
use avasettile.Effect.Sequential.{run}
use avasettile.Records.Common.{Json}
use avasettile.Records.Outbox.{
  OutboxRow, outbox_key, DeliveryError, http_error, raised, ClientRecord, client_key,
}
use avasettile.World.{World, Outside, Config, answered}
use avasettile.Webhooks.Delivery.{
  deliver_once, endpoint, truthy, is_retryable_status, response_ok, at_least_one,
}
use avasettile.Webhooks.Outcome.{
  Verdict, no_target, success, gave_up, try_again, failure, response, verdict, judged,
  deliver_once-judged,
}

-- The client is there, is active and has a URL.
abbrev pub HasEndpoint : Option ClientRecord → Type 0
HasEndpoint none = ⊥
HasEndpoint (some c) =
    (c.active ≡ true) × ((url : String) × (c.webhook_url ≡ some url) × (url ≢ ""))

-- No response, or one outside of 200 to 299; with what is written as the error.
abbrev pub FailsWith : Option ℕ → DeliveryError → Type 0
FailsWith none e = e ≡ raised network_error
FailsWith (some status) e = (e ≡ http_error status) × ((status < 200) ⊎ (300 ≤ status))

-- No response, 429, or a failure of the server.
abbrev pub MayPass : Option ℕ → Type 0
MayPass none = Unit
MayPass (some status) = (status ≡ 429) ⊎ (500 ≤ status)

-- Which verdict the last of so many attempts gets.
abbrev pub IsVerdict : (configured attempts : ℕ) → Option ClientRecord → Option ℕ → Verdict → Type 0
IsVerdict configured attempts c status no_target = ¬ HasEndpoint c
IsVerdict configured attempts c status success =
    HasEndpoint c × ((s : ℕ) × (status ≡ some s) × (200 ≤ s) × (s < 300))
IsVerdict configured attempts c status (gave_up e) =
    HasEndpoint c × FailsWith status e × ((configured ≤ attempts) ⊎ (¬ MayPass status))
IsVerdict configured attempts c status (try_again e) =
    HasEndpoint c × FailsWith status e × (attempts < configured) × MayPass status

at_least_one-le : (n m : ℕ) → n ≤ m → 1 ≤ m → at_least_one n ≤ m
at_least_one-le n m h k = ground arith

failure-IsVerdict :
    (configured before : ℕ) (c : Option ClientRecord) (status : Option ℕ) (retryable : Bool)
    (e : DeliveryError)
    → HasEndpoint c
    → FailsWith status e
    → (retryable ≡ true → MayPass status)
    → (retryable ≡ false → ¬ MayPass status)
    → IsVerdict configured
        (before + 1)
        c
        status
        (failure (at_least_one configured) (before + 1) retryable e)
failure-IsVerdict configured before c status false e there fails may final =
    (there, fails, inr (final refl))
failure-IsVerdict configured before c status true e there fails may final =
    elim (Bool-cases (ltb (before + 1) (at_least_one configured))) [
      | inl more ↦ rw more (there, fails, ground arith, may refl)
      | inr last ↦ rw last (there, fails, inl (ground arith))
    ]

retryable-MayPass : (s : ℕ) → is_retryable_status s ≡ true → MayPass (some s)
retryable-MayPass s h = ground arith

final-MayPass : (s : ℕ) → is_retryable_status s ≡ false → ¬ MayPass (some s)
final-MayPass s h (inl e) = absurd (ground arith)
final-MayPass s h (inr le) = absurd (ground arith)

response-IsVerdict :
    (configured before : ℕ) (c : Option ClientRecord) (status : Option ℕ)
    → HasEndpoint c
    → IsVerdict configured
        (before + 1)
        c
        status
        (response (at_least_one configured) (before + 1) status)
response-IsVerdict configured before c none there =
    failure-IsVerdict configured before c none true (raised network_error) there refl (λ _. tt)
      (λ h. absurd (ground arith))
response-IsVerdict configured before c (some s) there = elim (Bool-cases (response_ok s)) [
  | inl good ↦ rw good (there, (s, refl, ground arith, ground arith))
  | inr bad ↦ rw bad (
      failure-IsVerdict configured before c (some s) (is_retryable_status s) (http_error s) there
        (refl, ground arith) (retryable-MayPass s) (final-MayPass s))
]

truthy-some : (o : Option String) (url : String) → truthy o ≡ some url → (o ≡ some url) × (url ≢ "")
truthy-some none url h = absurd (ground arith)
truthy-some (some s) url h = elim (Bool-cases (str_eq s "")) [
  | inl empty ↦ absurd (ground (arith, rw empty at h))
  | inr full ↦
      let same : some s ≡ some url = rw full at h in
      (same, λ e. ground (arith, full, eq_iff s "", let t : s ≡ url = cc same in t))
]

truthy-none : (o : Option String) → truthy o ≡ none → (url : String) → o ≡ some url → url ≡ ""
truthy-none none h url e = absurd (ground arith)
truthy-none (some s) h url e = elim (Bool-cases (str_eq s "")) [
  | inl empty ↦ let t : s ≡ url = cc e in subst (λ u. u ≡ "") t ((eq_iff s "").0 empty)
  | inr full ↦ absurd (ground (arith, rw full at h))
]

endpoint-cases :
    (c : Option ClientRecord)
    → ((endpoint c ≡ none) × (¬ HasEndpoint c))
      ⊎ ((t : ClientRecord × String) × (endpoint c ≡ some t) × HasEndpoint c)
endpoint-cases none = inl (refl, λ h. h)
endpoint-cases (some c) = elim (Bool-cases c.active) [
  | inr off ↦ inl (rw off refl, λ h. absurd (ground (arith, h.0, off)))
  | inl on ↦ elim (Option-cases (truthy c.webhook_url)) [
    | inl without ↦ inl (
      simp (on, without) refl,
      λ h. let (active, (url, e, full)) = h in full (truthy-none c.webhook_url without url e),
    )
    | inr (url, e) ↦ inr (
      (c, url),
      simp (on, e) refl,
      let (stored, full) = truthy-some c.webhook_url url e in (on, (url, stored, full)),
    )
  ]
]

verdict-IsVerdict :
    (configured before : ℕ) (c : Option ClientRecord) (status : Option ℕ)
    → IsVerdict configured
        (before + 1)
        c
        status
        (verdict (at_least_one configured) (before + 1) (endpoint c) status)
verdict-IsVerdict configured before c status = elim (endpoint-cases c) [
  | inl (e, nowhere) ↦ rw e nowhere
  | inr (t, e, there) ↦ rw e (response-IsVerdict configured before c status there)
]

module _ (config : Config) (hmac_sha256 : String → Json → String) (outside : ℕ → Outside) (now : ℕ)
    (up : (n : ℕ) → (outside n).database ≡ answered) (at : (n : ℕ) → (outside n).now ≡ now) where
  -- Where the database answers every call and the clock stands still, `deliverOnce` of a claimed row
  -- returns, changes no client, and changes in the outbox only the row with its id, by one of four verdicts. Skipped: the
  -- client is not there, is not active, or has no URL or an empty one; else it has an endpoint. Delivered: the
  -- response is from 200 to 299. Failed: there is no response or another one, and the attempts, this one
  -- included, have reached the configured number, or the response is below 500 and not 429. Pending: likewise,
  -- with fewer attempts, and no response, 429, or 500 and above; the next attempt is due 1, 5 and then 30 seconds
  -- later.
  pub deliver_once-verdict :
      (row : OutboxRow) (n : ℕ) (w : World)
      → let s = run outside n (deliver_once config hmac_sha256 row) w in
        (s.0 ≡ ok tt)
        × (s.1.clients ≡ w.clients)
        × ((v : Verdict) × (s.1.outbox
              ≡ update_row outbox_key row.id (judged v row.attempts now) w.outbox)
            × IsVerdict config.webhook_retry_attempts
                (row.attempts + 1)
                (find_row client_key row.client_id w.clients)
                (outside (suc n)).http_status
                v)
  deliver_once-verdict row n w =
      let (returned, clients, outbox) =
        deliver_once-judged config hmac_sha256 outside now up at row n w in
      (
        returned,
        clients,
        (
          _,
          outbox,
          verdict-IsVerdict config.webhook_retry_attempts row.attempts
              (find_row client_key row.client_id w.clients) (outside (suc n)).http_status,
        ),
      )
