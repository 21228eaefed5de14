-- ===== src/Clients/Requests.antt =====
-- Whom an API key is taken for (src/clients/clients.service.ts, src/auth/client-api-key.guard.ts), with
-- all requests served at the same time.
use avasettile.Common.{ℕ, refl, String, Option, none, some, List, [], arith}
use avasettile.Effect.{pure, ◌>>=◌, Result, ok, err}
use avasettile.Effect.Weakest.{Safe, Wp-mono}
use avasettile.Effect.Pool.{Task, Event, run_pool, run_pool-bounded}
use avasettile.Effect.Yields.{On, Anything, Yields, Yields->>=, Yields-throw, no_potential}
use avasettile.Http.ApiKey.{HttpRequest, extract_api_key}
use avasettile.Clients.Directory.{
  ClientRow, Directory, Answer, Handler, ClientPatch, list_rows, insert_client, update, rotate,
}
use avasettile.Clients.Service.{
  CreateClient, create_client, list_clients, get_client, update_client, rotate_api_key,
  resolve_active_client_by_api_key, with_key, can_activate,
}
use avasettile.Clients.Sound.{
  IsSound, Own, Keeps, then_any, done, Keeps-or_throw, drawn, stated, Keeps-require_client,
  Keeps-clear_cache, Own-cached_or, live_entry-Own, Yields-own_memory,
}

-- The requests that reach the service, and the guard of the others.
pub data ClientRequest : Type 0 where
  create : CreateClient → ClientRequest
  list : ClientRequest
  get : ℕ → ClientRequest
  change : ℕ → ClientPatch → ClientRequest
  rotate_key : ℕ → ClientRequest
  authenticate : HttpRequest → ClientRequest

unfoldable pub ending : {A : Type 0} → Handler A → Task Answer Directory
ending p = do answer ← p; pure tt

module _ (sha256 : String → String) where
  unfoldable pub serve : ClientRequest → Task Answer Directory
  serve (create dto) = ending (create_client sha256 dto)
  serve list = ending list_clients
  serve (get id) = ending (get_client id)
  serve (change id patch) = ending (update_client id patch)
  serve (rotate_key id) = ending (rotate_api_key sha256 id)
  serve (authenticate req) = ending (can_activate sha256 req)

  -- In every interleaving with handlers that keep the cache sound (each entry holds a client
  -- that was active with a key of the entry's hash), resolveActiveClientByApiKey keeps it sound and, if it returns a
  -- client, then one that was active, with a key of the given key's hash, when it was read.
  pub resolve-Own :
      (api_key : String)
      → Yields IsSound (resolve_active_client_by_api_key sha256 api_key) (Own (sha256 api_key))
  unfolding resolve_active_client_by_api_key
  resolve-Own api_key =
      Yields->>= IsSound _ _ (Own (sha256 api_key)) (Own (sha256 api_key))
        (Yields-own_memory _ _
          (λ env w sound. (sound, live_entry-Own _ env.now _ (sound (sha256 api_key)))))
        (Own-cached_or (sha256 api_key))

  Keeps-resolve : (api_key : String) → Keeps (resolve_active_client_by_api_key sha256 api_key)
  unfolding Yields
  Keeps-resolve api_key t =
      Wp-mono IsSound no_potential _ t (On (Own (sha256 api_key))) (On Anything) weaker
        (resolve-Own api_key t)
    where
      weaker :
          (r : Result (Option ClientRow)) (t' : ℕ)
          → On (Own (sha256 api_key)) r t'
          → On Anything r t'
      weaker (ok a) t' h = tt
      weaker (err e) t' h = tt

  Keeps-with_key : (o : Option String) → Keeps (with_key sha256 o)
  Keeps-with_key none = Yields-throw Answer IsSound _ Anything
  Keeps-with_key (some api_key) = then_any _ _ (Keeps-resolve api_key) (λ o. Keeps-or_throw o _)

  Keeps-ending : {A : Type 0} (p : Handler A) → Keeps p → Keeps (ending p)
  unfolding ending
  Keeps-ending p h = then_any p _ h (λ a. done tt)

  Keeps-serve : (req : ClientRequest) → Keeps (serve req)
  unfolding serve create_client list_clients get_client update_client rotate_api_key can_activate
      insert_client list_rows update rotate
  Keeps-serve (create dto) = Keeps-ending _ (
      then_any _ _ (drawn _) λ random.
        then_any _ _ (drawn _)
          λ id. then_any _ _ (drawn _) λ now. then_any _ _ (stated _ (λ env w. refl)) λ c. done _)
  Keeps-serve list = Keeps-ending _ (then_any _ _ (stated _ (λ env w. refl)) λ cs. done _)
  Keeps-serve (get id) = Keeps-ending _ (then_any _ _ (Keeps-require_client id) λ c. done _)
  Keeps-serve (change id patch) = Keeps-ending _ (
      then_any _ _ (Keeps-require_client id) λ c.
        then_any _ _ (stated _ (λ env w. refl))
          λ o. then_any _ _ (Keeps-or_throw o _) λ u. then_any _ _ Keeps-clear_cache λ _. done _)
  Keeps-serve (rotate_key id) = Keeps-ending _ (
      then_any _ _ (Keeps-require_client id) λ c. then_any _ _ (drawn _) λ random.
        then_any _ _ (stated _ (λ env w. refl))
          λ o. then_any _ _ (Keeps-or_throw o _) λ u. then_any _ _ Keeps-clear_cache λ _. done _)
  Keeps-serve (authenticate req) = Keeps-ending _ (Keeps-with_key (extract_api_key req))

  serve-Safe : (req : ClientRequest) → Safe IsSound no_potential (serve req) 0
  unfolding Yields
  serve-Safe req =
      Wp-mono IsSound no_potential (serve req) 0 (On Anything) (λ _ _. Unit) (λ r t h. tt)
        (Keeps-serve req 0)

  -- If each entry of the cache of API keys holds a client that was active with a key of the entry's hash, then
  -- the same holds after any arrivals of requests to ClientsService and to the guard, any interleaving of their calls,
  -- any answers of the database, and any crashes of handlers.
  pub cache-IsSound :
      (es : List (Event Answer ClientRequest)) (w : Directory)
      → IsSound w
      → IsSound (run_pool serve es (w, [])).0
  cache-IsSound es w sound =
      (run_pool-bounded IsSound no_potential serve serve-Safe 0 es w sound (omega arith)).0
