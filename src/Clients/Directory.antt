-- ===== src/Clients/Directory.antt =====
-- The table of clients and the cache of API keys (src/clients/clients.repository.ts,
-- src/clients/client.types.ts), and the calls on them.
use avasettile.Common.{
  ℕ, Bool, String, Option, none, some, List, [], ◌∷◌, ◌++◌, sort_by, leb, or_default, str_eq,
  if◌then◌else◌, ◌&&◌,
}
use avasettile.Common.Table.{find_row, update_row}
use avasettile.Effect.{Result, ok, err, Action, Prog, call, database_error}
use avasettile.Records.Common.{Json}
use avasettile.World.{DatabaseAnswer, answered, refused, reply_lost}

-- A row; a `ClientRecord` is the row less the hash of its key, which is kept with it here.
pub record ClientRow : Type 0 where
  pub id : ℕ
  pub name : String
  pub active : Bool
  pub api_key_hash : String
  pub api_key_prefix : String
  pub webhook_url : Option String
  pub webhook_secret : Option String
  pub metadata : Json
  pub created_at : ℕ
  pub updated_at : ℕ

abbrev pub row_key : ClientRow → ℕ
row_key c = c.id

pub record CacheEntry : Type 0 where
  pub client : ClientRow
  pub expires_at : ℕ

pub record Directory : Type 0 where
  pub clients : List ClientRow
  pub api_key_cache : String → Option CacheEntry

-- What one call is answered; `random_hex` is 24 random bytes in hexadecimal digits.
pub record Answer : Type 0 where
  pub database : DatabaseAnswer
  pub now : ℕ
  pub uuid : ℕ
  pub random_hex : String

abbrev pub Handler : Type 0 → Type 1
Handler A = Prog Answer Directory A

abbrev pub replied :
    {A : Type 0} → DatabaseAnswer → A × Directory → Directory → Result A × Directory
replied answered s old = (ok s.0, s.1)
replied refused s old = (err database_error, old)
replied reply_lost s old = (err database_error, s.1)

abbrev pub query : {A : Type 0} → (Answer → Directory → A × Directory) → Action Answer Directory A
query statement env w = replied env.database (statement env w) w

-- A key of the undefined kind is left out of the patch; `some none` is `null`.
pub record ClientPatch : Type 0 where
  pub name : Option String
  pub active : Option Bool
  pub webhook_url : Option (Option String)
  pub webhook_secret : Option (Option String)
  pub metadata : Option Json

abbrev pub find_active : String → List ClientRow → Option ClientRow
find_active hash [] = none
find_active hash (c ∷ cs) =
    if str_eq c.api_key_hash hash && c.active then some c else find_active hash cs

unfoldable pub find_active_by_api_key_hash : String → Handler (Option ClientRow)
find_active_by_api_key_hash hash = call (query (λ _ w. (find_active hash w.clients, w)))

unfoldable pub find_by_id : ℕ → Handler (Option ClientRow)
find_by_id id = call (query (λ _ w. (find_row row_key id w.clients, w)))

unfoldable pub list_rows : Handler (List ClientRow)
list_rows =
    call
      (query (λ _ w. (sort_by (λ (a b : ClientRow). leb a.created_at b.created_at) w.clients, w)))

unfoldable pub insert_client : ClientRow → Handler ClientRow
insert_client row = call (query (λ _ w. (row, record w { clients = w.clients ++ row ∷ [] })))

abbrev pub patched : ℕ → ClientPatch → ClientRow → ClientRow
patched now patch row = record row {
  name = or_default patch.name row.name;
  active = or_default patch.active row.active;
  webhook_url = or_default patch.webhook_url row.webhook_url;
  webhook_secret = or_default patch.webhook_secret row.webhook_secret;
  metadata = or_default patch.metadata row.metadata;
  updated_at = now;
}

abbrev pub rotated : ℕ → (hash prefix : String) → ClientRow → ClientRow
rotated now hash prefix row = record row {
  api_key_hash = hash;
  api_key_prefix = prefix;
  updated_at = now;
}

-- `UPDATE … WHERE id = $1 RETURNING …`
abbrev pub update_clients : ℕ → (ClientRow → ClientRow) → Directory → Option ClientRow × Directory
update_clients id f w =
    let rows = update_row row_key id f w.clients in
    (find_row row_key id rows, record w { clients = rows })

unfoldable pub update : ℕ → ClientPatch → Handler (Option ClientRow)
update id patch = call (query (λ env w. update_clients id (patched env.now patch) w))

unfoldable pub rotate : ℕ → (hash prefix : String) → Handler (Option ClientRow)
rotate id hash prefix = call (query (λ env w. update_clients id (rotated env.now hash prefix) w))
