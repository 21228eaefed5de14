-- ===== src/System/Quiet/Reconciliation.antt =====
-- A reconciliation run and the ticks that start it (src/reconciliation/) make progress with the outbox.
use avasettile.Common.{ℕ, zero, suc, Bool, true, false, List, [], ◌∷◌}
use avasettile.Records.Common.{RequestContext}
use avasettile.World.{Config, Viem, Handler}
use avasettile.Payouts.Service.{PayoutResponse}
use avasettile.Payins.Service.{PayInResponse}
use avasettile.Reconciliation.Service.{
  in_batches, all_settled, Candidates, find_open, find_candidates, check_payout, check_payin,
  check_candidates, run_reconciliation, retry_sweeps, tick,
}
use avasettile.System.Rules.{Quiet, control, bind, done, tried, together}
use avasettile.System.Quiet.Payouts.{Quiet-reconcile_payout, Quiet-list_payout_responses}
use avasettile.System.Quiet.PayinLedger.{Quiet-list_payin_responses}
use avasettile.System.Quiet.Payins.{Quiet-reconcile_payin, Quiet-retry_pending_sweeps}

Quiet-in_batches :
    {A B : Type 0} (f : A → Handler B)
    → ((x : A) → Quiet (f x))
    → (fuel : ℕ) (xs : List A) → Quiet (in_batches f fuel xs)
unfolding in_batches all_settled
Quiet-in_batches f h fuel [] = done []
Quiet-in_batches f h zero (x ∷ xs) = done []
Quiet-in_batches f h (suc fuel) (x ∷ xs) =
    bind _ _ (together _ _ (λ y. tried _ (h y)))
      λ settled. bind _ _ (Quiet-in_batches f h fuel _) (λ rest. done _)

Quiet-find_candidates : (ctx : RequestContext) → Quiet (find_candidates ctx)
unfolding find_candidates find_open
Quiet-find_candidates ctx =
    search (control, Quiet-list_payout_responses, Quiet-list_payin_responses) depth 20

module _ (config : Config) (viem : Viem) where
  module _ (ctx : RequestContext) where
    Quiet-check_payout : (p : PayoutResponse) → Quiet (check_payout config viem ctx p)
    unfolding check_payout
    Quiet-check_payout p = search (control, Quiet-reconcile_payout) depth 20

    Quiet-check_payin : (p : PayInResponse) → Quiet (check_payin config viem ctx p)
    unfolding check_payin
    Quiet-check_payin p = search (control, Quiet-reconcile_payin) depth 20

    Quiet-check_candidates : (found : Candidates) → Quiet (check_candidates config viem ctx found)
    unfolding check_candidates
    Quiet-check_candidates found =
        search (control, Quiet-in_batches, Quiet-check_payout, Quiet-check_payin) depth 30

    pub Quiet-run_reconciliation : Quiet (run_reconciliation config viem ctx)
    unfolding run_reconciliation
    Quiet-run_reconciliation = bind _ _ (Quiet-find_candidates ctx) Quiet-check_candidates

  Quiet-retry_sweeps : (b : Bool) → Quiet (retry_sweeps config viem b)
  Quiet-retry_sweeps false = done tt
  Quiet-retry_sweeps true = search (control, Quiet-retry_pending_sweeps) depth 20

  pub Quiet-tick : Quiet (tick config viem)
  unfolding tick
  Quiet-tick = search (control, Quiet-run_reconciliation, Quiet-retry_sweeps) depth 20
