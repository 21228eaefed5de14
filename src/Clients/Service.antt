-- ===== src/Clients/Service.antt =====
-- ClientsService and ClientApiKeyGuard (src/clients/clients.service.ts, src/auth/client-api-key.guard.ts).
use Prim.Native.String.{String, ◌++◌, slice}
use avasettile.Common.{
  ℕ, ◌+◌, Bool, true, false, Option, none, some, List, [], map, ltb, or_default, str_eq, is_some,
  if◌then◌else◌,
}
use avasettile.Effect.{
  Action, ok, pure, throw, call, or_throw, ◌>>=◌, ◌>>◌, record_not_found, missing_api_key,
  invalid_api_key,
}
use avasettile.Records.Common.{Json}
use avasettile.Http.ApiKey.{HttpRequest, extract_api_key, or_undefined}
use avasettile.Clients.Directory.{
  ClientRow, CacheEntry, Directory, Answer, Handler, ClientPatch, find_active_by_api_key_hash,
  find_by_id, list_rows, insert_client, update, rotate,
}

-- `CreateClientDto`
pub record CreateClient : Type 0 where
  pub name : String
  pub webhook_url : Option String
  pub webhook_secret : Option String
  pub metadata : Option Json

-- `ClientResponse`: the row without the secret.
pub record ClientResponse : Type 0 where
  pub id : ℕ
  pub name : String
  pub active : Bool
  pub api_key_prefix : String
  pub webhook_url : Option String
  pub webhook_secret_configured : Bool
  pub metadata : Json
  pub created_at : ℕ
  pub updated_at : ℕ

abbrev pub has_text : Option String → Bool
has_text none = false
has_text (some s) = is_some (or_undefined s)

abbrev pub to_response : ClientRow → ClientResponse
to_response c = record {
  id = c.id;
  name = c.name;
  active = c.active;
  api_key_prefix = c.api_key_prefix;
  webhook_url = c.webhook_url;
  webhook_secret_configured = has_text c.webhook_secret;
  metadata = c.metadata;
  created_at = c.created_at;
  updated_at = c.updated_at;
}

abbrev pub api_key_cache_ttl_ms : ℕ
api_key_cache_ttl_ms = 30000

abbrev pub set_entry : String → Option CacheEntry → Directory → Directory
set_entry hash entry w = record w {
  api_key_cache = λ other. if str_eq hash other then entry else w.api_key_cache other;
}

-- A step on the process's own memory and clock.
abbrev pub local : {A : Type 0} → (Answer → Directory → A × Directory) → Action Answer Directory A
local step env w = (ok (step env w).0, (step env w).1)

unfoldable pub clear_cache : Handler (Unit {0})
clear_cache = call (local (λ _ w. (tt, record w { api_key_cache = λ _. none })))

unfoldable pub require_client : ℕ → Handler ClientRow
require_client id = do or_throw (← find_by_id id) record_not_found

-- `cached && cached.expiresAt > Date.now()`
abbrev pub live_entry : ℕ → Option CacheEntry → Option ClientRow
live_entry now none = none
live_entry now (some e) = if ltb now e.expires_at then some e.client else none

abbrev pub remembered : ℕ → Option ClientRow → Option CacheEntry
remembered now none = none
remembered now (some c) = some (record { client = c; expires_at = now + api_key_cache_ttl_ms })

unfoldable pub look_up : String → Handler (Option ClientRow)
look_up hash = do
  client ← find_active_by_api_key_hash hash
  call (local (λ env w. (tt, set_entry hash (remembered env.now client) w)))
  pure client

abbrev pub cached_or : String → Option ClientRow → Handler (Option ClientRow)
cached_or hash (some c) = pure (some c)
cached_or hash none = look_up hash

unfoldable pub list_clients : Handler (List ClientResponse)
list_clients = do clients ← list_rows; pure (map to_response clients)

unfoldable pub get_client : ℕ → Handler ClientResponse
unfolding require_client
get_client id = do client ← require_client id; pure (to_response client)

unfoldable pub update_client : ℕ → ClientPatch → Handler ClientResponse
unfolding require_client clear_cache
update_client id patch = do
  found ← require_client id
  updated ← or_throw (← update id patch) record_not_found
  clear_cache
  pure (to_response updated)

module _ (sha256 : String → String) where
  -- `generateApiKey`, of the random digits: the key, its hash and its prefix
  abbrev pub generate_api_key : String → String × String × String
  generate_api_key random = let key = "avk_" ++ random in (key, sha256 key, slice key 0 12)

  abbrev pub draw : Handler String
  draw = call (local (λ env w. (env.random_hex, w)))

  abbrev pub new_client : CreateClient → (id now : ℕ) → (hash prefix : String) → ClientRow
  new_client dto id now hash prefix = record {
    id = id;
    name = dto.name;
    active = true;
    api_key_hash = hash;
    api_key_prefix = prefix;
    webhook_url = dto.webhook_url;
    webhook_secret = dto.webhook_secret;
    metadata = or_default dto.metadata [];
    created_at = now;
    updated_at = now;
  }

  unfoldable pub create_client : CreateClient → Handler (ClientResponse × String)
  create_client dto = do
    random ← draw
    let key = generate_api_key random
    id ← call (local (λ env w. (env.uuid, w)))
    now ← call (local (λ env w. (env.now, w)))
    client ← insert_client (new_client dto id now key.1 key.2)
    pure (to_response client, key.0)

  unfoldable pub rotate_api_key : ℕ → Handler (ClientResponse × String)
  unfolding require_client clear_cache
  rotate_api_key id = do
    found ← require_client id
    random ← draw
    let key = generate_api_key random
    updated ← or_throw (← rotate id key.1 key.2) record_not_found
    clear_cache
    pure (to_response updated, key.0)

  unfoldable pub resolve_active_client_by_api_key : String → Handler (Option ClientRow)
  unfolding look_up
  resolve_active_client_by_api_key api_key = do
    cached ← call (local (λ env w. (live_entry env.now (w.api_key_cache (sha256 api_key)), w)))
    cached_or (sha256 api_key) cached

  abbrev pub with_key : Option String → Handler ClientRow
  with_key none = throw missing_api_key
  with_key (some api_key) = do or_throw (← resolve_active_client_by_api_key api_key) invalid_api_key

  -- `ClientApiKeyGuard.canActivate`: the client that is attached to the request
  unfoldable pub can_activate : HttpRequest → Handler ClientRow
  unfolding resolve_active_client_by_api_key
  can_activate req = with_key (extract_api_key req)
