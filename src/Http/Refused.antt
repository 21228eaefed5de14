-- ===== src/Http/Refused.antt =====
-- How long the rate limit refuses a bucket (src/common/throttle.middleware.ts).
use text.Mathlib.TextPositions.{eq_refl}
use avasettile.Common.{
  ℕ, zero, suc, ◌+◌, ◌≤◌, ◌<◌, ◌≡◌, refl, sym, ◌∙◌, inl, inr, String, Option, none, some, List, [],
  ◌∷◌, str_eq, arith, Bool-cases,
}
use avasettile.Http.ApiKey.{HttpRequest}
use avasettile.Http.Bucket
use avasettile.Http.Throttle.{
  WindowEntry, Windows, admitted, too_many, bucket_key, throttle, prune, if_live, Event, request,
  cleanup, run_throttle,
}
use avasettile.Http.Windows.{Before, throttle-own, throttle-other}

-- The bucket has used up its limit until `u`.
abbrev IsFull : ℕ → ℕ → Option WindowEntry → Type 0
IsFull limit u o = (e : WindowEntry) × (o ≡ some e) × (limit ≤ e.count) × (e.reset_at ≡ u)

refused-IsFull :
    (limit now ms : ℕ) (o : Option WindowEntry)
    → (Bucket.answer limit now o).0 ≡ too_many ms
    → IsFull limit (now + ms) (Bucket.answer limit now o).1
refused-IsFull zero now ms o h = absurd (ground arith)
refused-IsFull (suc limit) now ms none h = absurd (ground arith)
refused-IsFull (suc limit) now ms (some e) h = (e, ground arith, ground arith, ground arith)

answer-IsFull :
    (limit now u : ℕ) (o : Option WindowEntry)
    → now < u
    → IsFull (suc limit) u o
    → IsFull (suc limit) u (Bucket.answer (suc limit) now o).1
answer-IsFull limit now u o lt (e, at, full, reset) = rw at (e, ground arith, full, reset)

if_live-IsFull :
    (limit now u : ℕ) (o : Option WindowEntry)
    → now < u
    → IsFull limit u o
    → IsFull limit u (if_live now o)
if_live-IsFull limit now u o lt (e, at, full, reset) = rw at (e, ground arith, full, reset)

answer_of_full :
    (limit now u : ℕ) (o : Option WindowEntry)
    → u ≤ now
    → IsFull limit u o
    → (Bucket.answer limit now o).0 ≡ admitted
answer_of_full zero now u o le h = refl
answer_of_full (suc limit) now u o le (e, at, full, reset) = rw at (ground arith)

module _ (sha256 : String → String) (limit : ℕ) (key : String) where
  still-IsFull :
      (es : List Event) (u : ℕ) (m : Windows)
      → Before u es
      → IsFull (suc limit) u (m key)
      → IsFull (suc limit) u ((run_throttle sha256 (suc limit) es m).1 key)
  unfolding run_throttle prune
  still-IsFull [] u m before full = full
  still-IsFull (cleanup now ∷ es) u m (lt, before) full =
      still-IsFull es u _ before (if_live-IsFull (suc limit) now u (m key) lt full)
  still-IsFull (request now req ∷ es) u m (lt, before) full =
      still-IsFull es u _ before (elim (Bool-cases (str_eq (bucket_key sha256 req) key)) [
        | inl same ↦
            rw (throttle-own (suc limit) now (bucket_key sha256 req) key m same).1
              (answer-IsFull limit now u (m key) lt full)
        | inr other ↦ rw (throttle-other (suc limit) now (bucket_key sha256 req) key m other) full
      ])

module _ (sha256 : String → String) where
  -- Take a request that is refused at `now` and told to come back after `ms`. After any requests and clean-ups
  -- at readings of the clock before `now + ms`, those of the same bucket included, a request of that bucket at
  -- `now + ms` or later is admitted: what is refused does not prolong the refusal.
  pub refused-admitted :
      (limit now ms : ℕ) (req : HttpRequest) (m : Windows) (es : List Event) (later : ℕ)
      → (throttle limit now (bucket_key sha256 req) m).0 ≡ too_many ms
      → Before (now + ms) es
      → now + ms ≤ later
      → (throttle limit later
          (bucket_key sha256 req)
          (run_throttle sha256 limit es (throttle limit now (bucket_key sha256 req) m).1).1).0
        ≡ admitted
  unfolding throttle
  refused-admitted zero now ms req m es later h before le = absurd (ground arith)
  refused-admitted (suc limit) now ms req m es later h before le =
      let key = bucket_key sha256 req in
      let after = (throttle (suc limit) now key m).1 in
      let refused = throttle-own (suc limit) now key key m (eq_refl key) in
      let full : IsFull (suc limit) (now + ms) (after key) =
        rw refused.1 (refused-IsFull (suc limit) now ms (m key) (sym refused.0 ∙ h)) in
      let still = still-IsFull sha256 limit key es (now + ms) after before full in
      let final = (run_throttle sha256 (suc limit) es after).1 in
      (throttle-own (suc limit) later key key final (eq_refl key)).0
      ∙ answer_of_full (suc limit) later (now + ms) (final key) le still
