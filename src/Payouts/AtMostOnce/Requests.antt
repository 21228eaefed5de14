-- ===== src/Payouts/AtMostOnce/Requests.antt =====
-- The requests of PayoutsService, served at the same time by any number of processes, and the bound
-- on the broadcasts of a payout.
use avasettile.Common.{ℕ, ◌+◌, ◌≤◌, String, List, [], arith}
use avasettile.Effect.{pure, ◌>>=◌}
use avasettile.Effect.Weakest.{Safe}
use avasettile.Effect.Pool.{Task, Event, run_pool, run_pool-bounded}
use avasettile.Records.Common.{RequestContext}
use avasettile.World.{World, Outside, Config, Viem, Handler}
use avasettile.Payouts.Ledger.{Filters}
use avasettile.Payouts.Service.{
  CreatePayout, AuthorizePayout, create_payout, authorize_payout, authorize_payout_batch,
  reconcile_payout, get_payout, get_payout_by_external_id, list_payout_responses,
}
use avasettile.Payouts.AtMostOnce.Potential.{
  Inv, potential, potential_lem, legs_of, row_of, row_weight, IsSoundRow,
}
use avasettile.Payouts.AtMostOnce.Calls.{Neutral-end}
use avasettile.Payouts.AtMostOnce.Updates.{Pays}
use avasettile.Payouts.AtMostOnce.Authorize.{Any, Idle-Any, then_all, authorize_payout-Any}
use avasettile.Payouts.AtMostOnce.Batch.{authorize_payout_batch-Any}
use avasettile.Payouts.AtMostOnce.Service.{
  create_payout-Any, reconcile_payout-Any, get_payout-Any, get_payout_by_external_id-Any,
  list_payout_responses-Any,
}

-- The public methods of PayoutsService with their arguments.
pub data PayoutRequest : Type 0 where
  create : CreatePayout → RequestContext → PayoutRequest
  authorize : ℕ → AuthorizePayout → RequestContext → PayoutRequest
  authorize_batch : List ℕ → AuthorizePayout → RequestContext → PayoutRequest
  reconcile : ℕ → RequestContext → PayoutRequest
  get : ℕ → RequestContext → PayoutRequest
  get_by_external_id : String → RequestContext → PayoutRequest
  list : Filters → RequestContext → PayoutRequest

-- The answer to the caller is dropped.
unfoldable pub ending : {A : Type 0} → Handler A → Task Outside World
ending p = do answer ← p; pure tt

module _ (config : Config) (viem : Viem) where
  unfoldable pub serve : PayoutRequest → Task Outside World
  serve (create dto ctx) = ending (create_payout config viem ctx dto)
  serve (authorize id dto ctx) = ending (authorize_payout config viem dto ctx id)
  serve (authorize_batch ids dto ctx) = ending (authorize_payout_batch config viem dto ctx ids)
  serve (reconcile id ctx) = ending (reconcile_payout config viem ctx id)
  serve (get id ctx) = ending (get_payout id ctx)
  serve (get_by_external_id external_id ctx) = ending (get_payout_by_external_id external_id ctx)
  serve (list filters ctx) = ending (list_payout_responses filters ctx)

module _ (i : ℕ) where
  ending-Any : {A : Type 0} (p : Handler A) (t : ℕ) → Pays i p t Any → Pays i (ending p) t Any
  unfolding ending
  ending-Any p t h = then_all i p _ t Any h (λ a s. Idle-Any i _ s (Neutral-end i tt))

  serve-Safe :
      (config : Config) (viem : Viem) (req : PayoutRequest)
      → Safe (Inv i) (potential i) (serve config viem req) 0
  unfolding serve
  serve-Safe config viem (create dto ctx) =
      ending-Any _ 0 (create_payout-Any i config viem ctx dto 0)
  serve-Safe config viem (authorize id dto ctx) =
      ending-Any _ 0 (authorize_payout-Any i config viem dto ctx id 0)
  serve-Safe config viem (authorize_batch ids dto ctx) =
      ending-Any _ 0 (authorize_payout_batch-Any i config viem dto ctx ids 0)
  serve-Safe config viem (reconcile id ctx) =
      ending-Any _ 0 (reconcile_payout-Any i config viem ctx id 0)
  serve-Safe config viem (get id ctx) = ending-Any _ 0 (get_payout-Any i id ctx 0)
  serve-Safe config viem (get_by_external_id external_id ctx) =
      ending-Any _ 0 (get_payout_by_external_id-Any i external_id ctx 0)
  serve-Safe config viem (list filters ctx) =
      ending-Any _ 0 (list_payout_responses-Any i filters ctx 0)

-- Take any payout id, and a world in which its row, if there is one, has no transaction hash while
-- it is prepared or authorized, and in which its broadcast legs, plus one if its row is prepared or
-- missing, are at most one. Then after any arrivals of requests to PayoutsService, any
-- interleaving of their calls, any answers of the database and the chain, and any crashes, at most
-- one leg has been broadcast for that payout.
pub broadcast-at_most_once :
    (config : Config) (viem : Viem) (i : ℕ) (es : List (Event Outside PayoutRequest)) (w : World)
    → IsSoundRow (row_of i w)
    → legs_of i w.broadcasts + row_weight (row_of i w) ≤ 1
    → legs_of i (run_pool (serve config viem) es (w, [])).0.broadcasts ≤ 1
broadcast-at_most_once config viem i es w sound once =
    let before = potential_lem i w in
    let (_, bounded) =
      run_pool-bounded (Inv i) (potential i) (serve config viem) (serve-Safe i config viem) 1 es w
        sound (omega (arith, before)) in
    omega (arith, bounded, potential_lem i (run_pool (serve config viem) es (w, [])).0)
