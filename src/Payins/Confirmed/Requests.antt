-- ===== src/Payins/Confirmed/Requests.antt =====
-- The requests of PayinsService (src/payins/payins.service.ts), served at the same time by any number
-- of processes, and what holds of a confirmed pay-in.
use avasettile.Common.{ℕ, refl, false, String, Option, List, [], arith}
use avasettile.Common.Table.{find_row}
use avasettile.Effect.{pure, ◌>>=◌}
use avasettile.Effect.Weakest.{Safe, Wp-mono}
use avasettile.Effect.Yields.{Anything, On, Yields, Yields-promise_all, no_potential}
use avasettile.Effect.Pool.{Task, Event, run_pool, run_pool-bounded}
use avasettile.Records.Common.{RequestContext}
use avasettile.Records.PayIn.{payin_key}
use avasettile.World.{World, Outside, Config, Viem, Handler}
use avasettile.Payins.Ledger.{Filters, list_payins}
use avasettile.Payins.Service.{
  CreatePayIn, SweepPayIn, TopUp, create_payin, get_payin, list_payin_responses, reconcile_payin,
  sweep_payin, accept_payin, top_up_payin, top_up_and_sweep, retry_pending_sweeps,
}
use avasettile.Payins.Confirmed.Row.{Inv, IsSoundRow}
use avasettile.Payins.Confirmed.Calls.{
  Stable, Stable-then, Stable-pure, Stable-query, Stable-to_payin_response,
}
use avasettile.Payins.Confirmed.Handlers.{after_read, Stable-reconcile_payin, Stable-accept_payin}
use avasettile.Payins.Confirmed.Sweeps.{
  Stable-sweep_payin, Stable-top_up_payin, Stable-top_up_and_sweep, Stable-retry_pending_sweeps,
}
use avasettile.Payins.Confirmed.Create.{Stable-create_payin}

-- The public methods of PayinsService with their arguments. The auto-sweep that `reconcilePayIn` starts
-- is a `top_up_then_sweep` of its own.
pub data PayInRequest : Type 0 where
  create : CreatePayIn → RequestContext → PayInRequest
  get : ℕ → RequestContext → PayInRequest
  list : Filters → RequestContext → PayInRequest
  reconcile : ℕ → RequestContext → PayInRequest
  sweep : ℕ → SweepPayIn → RequestContext → PayInRequest
  accept : ℕ → Option String → RequestContext → PayInRequest
  top_up_gas : ℕ → Option String → RequestContext → PayInRequest
  top_up_then_sweep : ℕ → TopUp → RequestContext → PayInRequest
  retry_sweeps : ℕ → RequestContext → PayInRequest

-- The answer to the caller is dropped.
unfoldable pub ending : {A : Type 0} → Handler A → Task Outside World
ending p = do answer ← p; pure tt

module _ (config : Config) (viem : Viem) where
  unfoldable pub serve : PayInRequest → Task Outside World
  serve (create dto ctx) = ending (create_payin config viem ctx dto)
  serve (get id ctx) = ending (get_payin id ctx)
  serve (list filters ctx) = ending (list_payin_responses filters ctx)
  serve (reconcile id ctx) = ending (reconcile_payin config viem ctx id)
  serve (sweep id dto ctx) = ending (sweep_payin config viem ctx id dto)
  serve (accept id note ctx) = ending (accept_payin ctx id note)
  serve (top_up_gas id amount ctx) = ending (top_up_payin config viem ctx id amount)
  serve (top_up_then_sweep id dto ctx) = ending (top_up_and_sweep config viem ctx id dto)
  serve (retry_sweeps limit ctx) = ending (retry_pending_sweeps config viem ctx limit)

module _ (i expected : ℕ) where
  Stable-ending : {A : Type 0} (p : Handler A) → Stable i expected p → Stable i expected (ending p)
  unfolding ending
  Stable-ending p h = Stable-then i expected p _ h (λ answer. Stable-pure i expected tt)

  Stable-get_payin : (id : ℕ) (ctx : RequestContext) → Stable i expected (get_payin id ctx)
  unfolding get_payin
  Stable-get_payin id ctx =
      after_read i expected id ctx _ (λ p read. Stable-to_payin_response i expected p false)

  Stable-list_payin_responses :
      (filters : Filters) (ctx : RequestContext)
      → Stable i expected (list_payin_responses filters ctx)
  unfolding list_payin_responses list_payins
  Stable-list_payin_responses filters ctx =
      Stable-then i expected _ _ (Stable-query i expected _ (λ env w. refl)) λ records.
        Yields-promise_all (Inv i expected) _ records
          (λ p. Stable-to_payin_response i expected p false)

  module _ (config : Config) (viem : Viem) where
    Stable-serve : (req : PayInRequest) → Stable i expected (serve config viem req)
    unfolding serve
    Stable-serve (create dto ctx) =
        Stable-ending _ (Stable-create_payin i expected config viem ctx dto)
    Stable-serve (get id ctx) = Stable-ending _ (Stable-get_payin id ctx)
    Stable-serve (list filters ctx) = Stable-ending _ (Stable-list_payin_responses filters ctx)
    Stable-serve (reconcile id ctx) =
        Stable-ending _ (Stable-reconcile_payin i expected config viem ctx id)
    Stable-serve (sweep id dto ctx) =
        Stable-ending _ (Stable-sweep_payin i expected config viem ctx id dto)
    Stable-serve (accept id note ctx) =
        Stable-ending _ (Stable-accept_payin i expected config viem ctx id note)
    Stable-serve (top_up_gas id amount ctx) =
        Stable-ending _ (Stable-top_up_payin i expected config viem ctx id amount)
    Stable-serve (top_up_then_sweep id dto ctx) =
        Stable-ending _ (Stable-top_up_and_sweep i expected config viem ctx id dto)
    Stable-serve (retry_sweeps limit ctx) =
        Stable-ending _ (Stable-retry_pending_sweeps i expected config viem ctx limit)

    serve-Safe : (req : PayInRequest) → Safe (Inv i expected) no_potential (serve config viem req) 0
    unfolding Yields
    serve-Safe req =
        Wp-mono (Inv i expected) no_potential (serve config viem req) 0 (On Anything) (λ _ _. Unit)
          (λ r t h. tt) (Stable-serve req 0)

-- Take a pay-in whose row is there, expects some amount, and if it is confirmed has a time of
-- confirmation and was accepted by hand or received exactly what it expects. Then after any arrivals
-- of requests to PayinsService, any interleaving of their calls, any answers of the database and the
-- chain, and any crashes, the row is still there, expects the same, and again if it is confirmed has
-- a time of confirmation and was accepted by hand or received exactly what it expects.
pub confirmed-IsSoundRow :
    (config : Config) (viem : Viem) (i expected : ℕ) (es : List (Event Outside PayInRequest))
    (w : World)
    → IsSoundRow expected (find_row payin_key i w.payins)
    → IsSoundRow expected (find_row payin_key i (run_pool (serve config viem) es (w, [])).0.payins)
confirmed-IsSoundRow config viem i expected es w sound =
    (run_pool-bounded (Inv i expected) no_potential (serve config viem)
      (serve-Safe i expected config viem) 0 es w sound (omega arith)).0
