-- ===== src/Tests/Clients.antt =====
-- A client that is found by its key, and a key that is changed meanwhile (src/clients/clients.service.ts).
use Prim.Native.String.{slice}
use avasettile.Common.{some, ℕ, zero, suc, ◌≡◌, refl, true, String, none, List, [], ◌∷◌}
use avasettile.Effect.{ok, call, ◌>>=◌}
use avasettile.Effect.Sequential.{trace}
use avasettile.Effect.Pool.{Event, arrive, turn, run_pool}
use avasettile.Effect.Yields.{Yields}
use avasettile.World.{answered}
use avasettile.Http.ApiKey.{HttpRequest, single, extract_api_key}
use avasettile.Clients.Directory.{ClientRow, Directory, Answer, find_active_by_api_key_hash}
use avasettile.Clients.Service.{resolve_active_client_by_api_key, look_up, can_activate}
use avasettile.Clients.Admin.{admin_api_key, admit_operator}
use avasettile.Clients.Sound.{IsSound, Own}
use avasettile.Clients.Requests.{
  ClientRequest, authenticate, rotate_key, serve, resolve-Own, cache-IsSound,
}

abbrev digest : String → String
digest key = key

abbrev shop : ClientRow
shop = record {
  id = 4;
  name = "shop";
  active = true;
  api_key_hash = "avk_shop";
  api_key_prefix = "avk_shop";
  webhook_url = none;
  webhook_secret = none;
  metadata = [];
  created_at = 10;
  updated_at = 10;
}

abbrev one_client : Directory
one_client = record { clients = shop ∷ []; api_key_cache = λ hash. none }

abbrev reply : Answer
reply = record {
  database = answered;
  now = 1000;
  uuid = 70;
  random_hex = "00112233445566778899aabb";
}

abbrev with_shop_key : HttpRequest
with_shop_key = record { avasettle_api_key = single "avk_shop"; authorization = none; ip = none }

let_in : (trace (λ n. reply) 0 (can_activate digest with_shop_key) one_client).0 ≡ ok shop
unfolding trace can_activate extract_api_key resolve_active_client_by_api_key look_up
    find_active_by_api_key_hash ◌>>=◌ call
let_in = refl

abbrev turns : ℕ → List (Event Answer ClientRequest)
turns zero = []
turns (suc n) = turn 0 reply ∷ turn 1 reply ∷ turns n

abbrev rotated_meanwhile : List (Event Answer ClientRequest)
rotated_meanwhile = arrive (authenticate with_shop_key) ∷ arrive (rotate_key 4) ∷ turns 6

resolve-Own_example :
    Yields IsSound (resolve_active_client_by_api_key digest "avk_shop") (Own (digest "avk_shop"))
resolve-Own_example = resolve-Own digest "avk_shop"

cache-IsSound_example : IsSound (run_pool (serve digest) rotated_meanwhile (one_client, [])).0
cache-IsSound_example = cache-IsSound digest rotated_meanwhile one_client (λ hash. tt)

operator_let_in : admit_operator digest (some " avk_shop ") with_shop_key ≡ ok tt
unfolding admit_operator admin_api_key extract_api_key
operator_let_in = refl

-- A digest of the first eight characters, with which keys collide.
abbrev short_digest : String → String
short_digest key = slice key 0 8
