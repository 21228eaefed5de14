-- ===== src/Tests/Http.antt =====
-- Two tenants and an anonymous caller at a limit of two requests (src/common/throttle.middleware.ts).
use avasettile.Common.{◌≤◌, ◌≡◌, refl, String, none, some, List, [], ◌∷◌, arith}
use avasettile.Http.ApiKey.{HttpRequest, absent, single, extract_api_key}
use avasettile.Http.Bucket
use avasettile.Http.Throttle.{
  Windows, admitted, too_many, bucket_key, throttle, prune, Event, request, cleanup, run_throttle,
}
use avasettile.Http.Windows.{answers_of, times_of, run_throttle-refines}
use avasettile.Http.Limit.{count_admitted, count_admitted-le}
use avasettile.Http.Refused.{refused-admitted}

abbrev digest : String → String
digest key = key

abbrev tenant : HttpRequest
tenant = record {
  avasettle_api_key = single "avk_0123456789abcdef";
  authorization = none;
  ip = some "10.0.0.1";
}

abbrev other_tenant : HttpRequest
other_tenant = record {
  avasettle_api_key = absent;
  authorization = some "Bearer  avk_other ";
  ip = some "10.0.0.1";
}

abbrev anonymous : HttpRequest
anonymous = record { avasettle_api_key = absent; authorization = none; ip = some "::ffff:10.0.0.1" }

bearer : extract_api_key other_tenant ≡ some "avk_other"
unfolding extract_api_key
bearer = refl

by_address : bucket_key digest anonymous ≡ "ip:10.0.0.1"
unfolding bucket_key extract_api_key
by_address = refl

abbrev nothing_yet : Windows
nothing_yet key = none

abbrev burst : List Event
burst =
    request 10 tenant
    ∷ request 20 tenant
    ∷ request 20 other_tenant
    ∷ request 30 tenant
    ∷ cleanup 40
    ∷ request 600 anonymous
    ∷ []

third_refused :
    answers_of "key:avk_0123456789ab" (run_throttle digest 2 burst nothing_yet).0
    ≡ admitted ∷ admitted ∷ too_many 980 ∷ []
unfolding run_throttle throttle prune bucket_key extract_api_key
third_refused = refl

run_throttle-refines_example :
    answers_of "key:avk_0123456789ab" (run_throttle digest 2 burst nothing_yet).0
    ≡ Bucket.run 2 (times_of digest "key:avk_0123456789ab" burst) none
run_throttle-refines_example =
    run_throttle-refines digest 2 "key:avk_0123456789ab" burst 0 nothing_yet (ground arith)

count_admitted-le_example :
    count_admitted (answers_of "key:avk_0123456789ab" (run_throttle digest 2 burst nothing_yet).0)
    ≤ 4
count_admitted-le_example =
    count_admitted-le digest "key:avk_0123456789ab" 2 0 burst nothing_yet (omega arith)
      (ground arith) (ground arith)

abbrev one_used : Windows
one_used key = some (record { count = 2; reset_at = 1010 })

refused_now : (throttle 2 30 (bucket_key digest tenant) one_used).0 ≡ too_many 980
unfolding throttle
refused_now = refl

refused-admitted_example :
    (throttle 2 1010
      (bucket_key digest tenant)
      (run_throttle digest 2
        (request 40 tenant ∷ request 900 tenant ∷ [])
        (throttle 2 30 (bucket_key digest tenant) one_used).1).1).0
    ≡ admitted
refused-admitted_example =
    refused-admitted digest 2 30 980 tenant one_used (request 40 tenant ∷ request 900 tenant ∷ [])
      1010 refused_now (ground arith) (omega arith)
