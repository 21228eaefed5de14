-- ===== src/Http/Limit.antt =====
-- What the rate limit promises (src/common/throttle.middleware.ts).
use avasettile.Common.{
  ℕ, zero, suc, ◌+◌, ◌-◌, ◌*◌, ◌≤◌, ◌<◌, inl, inr, String, Option, none, some, List, [], ◌∷◌, leb,
  str_eq, if◌then◌else◌, arith, Bool-cases,
}
use avasettile.Common.{All}
use avasettile.Http.Bucket
use avasettile.Http.Throttle.{
  WindowEntry, Windows, Verdict, admitted, too_many, bucket_key, Event, request, cleanup,
  run_throttle,
}
use avasettile.Http.Windows.{IsChronological, Before, answers_of, times_of, run_throttle-refines}

abbrev pub count_admitted : List Verdict → ℕ
count_admitted [] = 0
count_admitted (admitted ∷ vs) = suc (count_admitted vs)
count_admitted (too_many ms ∷ vs) = count_admitted vs

-- How many more requests the bucket's limiter can admit before `u`, which no second window reaches.
abbrev room : ℕ → ℕ → Option WindowEntry → ℕ
room limit u none = limit
room limit u (some e) = if leb u e.reset_at then limit - e.count else (limit - e.count) + limit

room-le : (limit u : ℕ) (o : Option WindowEntry) → room limit u o ≤ 2 * limit
room-le limit u none = omega arith
room-le limit u (some e) = ground arith

abbrev InSecond : ℕ → ℕ → Type 0
InSecond a now = (a ≤ now) × (now < a + 1000)

step-room :
    (limit a now : ℕ) (o : Option WindowEntry) (vs : List Verdict)
    → InSecond a now
    → count_admitted vs ≤ room (suc limit) (a + 1000) (Bucket.answer (suc limit) now o).1
    → count_admitted ((Bucket.answer (suc limit) now o).0 ∷ vs) ≤ room (suc limit) (a + 1000) o
step-room limit a now none vs within h = ground arith
step-room limit a now (some e) vs within h = ground arith

run-room :
    (limit a : ℕ) (times : List ℕ) (o : Option WindowEntry)
    → All (InSecond a) times
    → count_admitted (Bucket.run (suc limit) times o) ≤ room (suc limit) (a + 1000) o
run-room limit a [] o h = omega arith
run-room limit a (now ∷ times) o (within, h) =
    step-room limit a now o _ within (run-room limit a times (Bucket.answer (suc limit) now o).1 h)

module _ (sha256 : String → String) (key : String) where
  times_of-InSecond :
      (es : List Event) (a t : ℕ)
      → a ≤ t
      → IsChronological t es
      → Before (a + 1000) es
      → All (InSecond a) (times_of sha256 key es)
  times_of-InSecond [] a t le chron before = tt
  times_of-InSecond (cleanup now ∷ es) a t le (le', chron) (lt, before) =
      times_of-InSecond es a now (omega arith) chron before
  times_of-InSecond (request now req ∷ es) a t le (le', chron) (lt, before) =
      let rest = times_of-InSecond es a now (omega arith) chron before in
      elim (Bool-cases (str_eq (bucket_key sha256 req) key)) [
        | inl same ↦ rw same ((omega arith, lt), rest)
        | inr other ↦ rw other rest
      ]

  -- With a limit above 0, at most twice the limit of a bucket's requests are admitted in any one second (from a
  -- reading `a` of the clock and before `a + 1000`), whatever the map holds at its start, and whatever other
  -- requests and clean-ups there are, if the clock does not go back.
  pub count_admitted-le :
      (limit a : ℕ) (es : List Event) (m : Windows)
      → 0 < limit
      → IsChronological a es
      → Before (a + 1000) es
      → count_admitted (answers_of key (run_throttle sha256 limit es m).0) ≤ 2 * limit
  count_admitted-le (suc limit) a es m lt chron before =
      let bound =
        run-room limit a (times_of sha256 key es) (m key)
          (times_of-InSecond es a a (omega arith) chron before) in
      rw (run_throttle-refines sha256 (suc limit) key es a m chron)
        (omega (arith, bound, room-le (suc limit) (a + 1000) (m key)))
  count_admitted-le zero a es m lt chron before = absurd (omega arith)
