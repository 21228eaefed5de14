-- ===== src/Http/Throttle.antt =====
-- The rate limit (src/common/throttle.middleware.ts).
use Prim.Native.String.{String, ◌++◌, len, slice}
use text.Mathlib.Text.{starts_with}
use avasettile.Common.{
  ℕ, zero, suc, ◌+◌, ◌-◌, Option, none, some, List, [], ◌∷◌, leb, or_default, str_eq, if◌then◌else◌,
}
use avasettile.Http.ApiKey.{HttpRequest, extract_api_key}

pub record WindowEntry : Type 0 where
  pub count : ℕ
  pub reset_at : ℕ

-- The map `windows`.
abbrev pub Windows : Type 0
Windows = String → Option WindowEntry

abbrev pub set_entry : String → WindowEntry → Windows → Windows
set_entry key entry windows other = if str_eq key other then some entry else windows other

-- `next()`, or the answer 429 with its `retryAfterMs`
pub data Verdict : Type 0 where
  admitted : Verdict
  too_many : ℕ → Verdict

abbrev pub new_window : ℕ → WindowEntry
new_window now = record { count = 1; reset_at = now + 1000 }

abbrev without_mapped_prefix : String → String
without_mapped_prefix ip =
    if starts_with ip "::ffff:" then slice ip (len "::ffff:") (len ip) else ip

-- `bucketKey`; `sha256` gives the digest in hexadecimal digits.
module _ (sha256 : String → String) where
  abbrev bucket_of : Option String → Option String → String
  bucket_of (some key) ip = "key:" ++ slice (sha256 key) 0 16
  bucket_of none ip = "ip:" ++ without_mapped_prefix (or_default ip "unknown")

  unfoldable pub bucket_key : HttpRequest → String
  bucket_key req = bucket_of (extract_api_key req) req.ip

-- What `use` does with the entry it has found.
abbrev pub with_entry : ℕ → ℕ → String → Windows → Option WindowEntry → Verdict × Windows
with_entry limit now key windows none = (admitted, set_entry key (new_window now) windows)
with_entry limit now key windows (some entry) =
    if leb entry.reset_at now
    then (admitted, set_entry key (new_window now) windows)
    else if leb limit entry.count
    then (too_many (entry.reset_at - now), windows)
    else (admitted, set_entry key (record entry { count = entry.count + 1 }) windows)

-- `use`; a negative limit is as 0.
unfoldable pub throttle : (limit now : ℕ) → String → Windows → Verdict × Windows
throttle zero now key windows = (admitted, windows)
throttle (suc limit) now key windows = with_entry (suc limit) now key windows (windows key)

abbrev pub if_live : ℕ → Option WindowEntry → Option WindowEntry
if_live now none = none
if_live now (some entry) = if leb entry.reset_at now then none else some entry

-- `prune`
unfoldable pub prune : ℕ → Windows → Windows
prune now windows key = if_live now (windows key)

-- What happens to the middleware, with the clock's reading.
pub data Event : Type 0 where
  request : ℕ → HttpRequest → Event
  cleanup : ℕ → Event

module _ (sha256 : String → String) (limit : ℕ) where
  -- Each request's bucket and answer, in order.
  unfoldable pub run_throttle : List Event → Windows → List (String × Verdict) × Windows
  unfolding throttle prune
  run_throttle [] windows = ([], windows)
  run_throttle (request now req ∷ es) windows =
      let key = bucket_key sha256 req in
      let (verdict, windows') = throttle limit now key windows in
      let (answers, final) = run_throttle es windows' in ((key, verdict) ∷ answers, final)
  run_throttle (cleanup now ∷ es) windows = run_throttle es (prune now windows)
