-- ===== src/Reconciliation/Service.antt =====
-- ReconciliationService and the ticks of AutoReconcileService
-- (src/reconciliation/reconciliation.service.ts, src/reconciliation/auto-reconcile.service.ts).
use avasettile.Common.{
  ℕ, zero, suc, Bool, true, false, Option, none, some, List, [], ◌∷◌, ◌++◌, length, take, drop,
  filter, ltb,
}
use avasettile.Effect.{Error, Result, ok, err, pure, attempt, promise_all, ◌>>=◌, ◌>>◌, try_catch}
use avasettile.Records.Common.{RequestContext}
use avasettile.Records.Payout.{PayoutStatus}
use avasettile.Records.PayIn.{PayInStatus}
use avasettile.World.{Handler, Config, Viem, get_now}
use avasettile.Payouts.Ledger as Payouts
use avasettile.Payins.Ledger as Payins
use avasettile.Payouts.Service.{PayoutResponse, list_payout_responses, reconcile_payout}
use avasettile.Payins.Service.{
  PayInResponse, list_payin_responses, reconcile_payin, retry_pending_sweeps,
}

pub data ItemType : Type 0 where
  payout payin : ItemType

pub data ItemStatus : Type 0 where
  payout_status : PayoutStatus → ItemStatus
  payin_status : PayInStatus → ItemStatus

-- `ReconciliationItemResult`
pub record ItemResult : Type 0 where
  pub type : ItemType
  pub id : ℕ
  pub status : ItemStatus
  pub ok : Bool
  pub error : Option Error

-- `ReconciliationRunResult`
pub record RunResult : Type 0 where
  pub started_at : ℕ
  pub completed_at : ℕ
  pub payouts_checked : ℕ
  pub payins_checked : ℕ
  pub results : List ItemResult

abbrev pub reconciliation_concurrency : ℕ
reconciliation_concurrency = 10

abbrev pub batch_limit : ℕ
batch_limit = 1000

-- `if (s.status === 'fulfilled') results.push(s.value)`
abbrev pub fulfilled : {A : Type 0} → List (Result A) → List A
fulfilled [] = []
fulfilled (ok a ∷ rs) = a ∷ fulfilled rs
fulfilled (err e ∷ rs) = fulfilled rs

-- `Promise.allSettled`
unfoldable pub all_settled : {A B : Type 0} → (A → Handler B) → List A → Handler (List (Result B))
all_settled f xs = promise_all (λ x. attempt (f x)) xs

-- The loop over batches: on fuel, of which the number of elements is enough.
unfoldable pub in_batches : {A B : Type 0} → (A → Handler B) → ℕ → List A → Handler (List B)
unfolding all_settled
in_batches f fuel [] = pure []
in_batches f zero (x ∷ xs) = pure []
in_batches f (suc fuel) (x ∷ xs) = do
  settled ← all_settled f (take reconciliation_concurrency (x ∷ xs))
  rest ← in_batches f fuel (drop reconciliation_concurrency (x ∷ xs))
  pure (fulfilled settled ++ rest)

-- `!p.expiresAt || p.expiresAt > now`
abbrev pub not_expired : ℕ → PayInResponse → Bool
not_expired now p = elim p.payin.expires_at [ none ↦ true | some t ↦ ltb now t ]

abbrev pub payouts_with : PayoutStatus → Payouts.Filters
payouts_with status = record {
  client_id = none;
  status = some status;
  external_id = none;
  limit = some batch_limit;
  offset = none;
}

abbrev pub payins_with : PayInStatus → Payins.Filters
payins_with status = record {
  client_id = none;
  status = some status;
  external_id = none;
  limit = some batch_limit;
  offset = none;
}

-- `[...pendingCandidates, ...detected, ...underpaid]`
abbrev pub payin_candidates : ℕ → List (List PayInResponse) → List PayInResponse
payin_candidates now (pending ∷ detected ∷ underpaid ∷ []) =
    filter (not_expired now) pending ++ detected ++ underpaid
payin_candidates now _ = []

pub record Candidates : Type 0 where
  pub started_at : ℕ
  pub payouts : List PayoutResponse
  pub payins : List PayInResponse

module _ (ctx : RequestContext) where
  -- The four lists, for a run that started at `started_at`.
  unfoldable pub find_open : (started_at now : ℕ) → Handler Candidates
  find_open started_at now = do
    payouts ← list_payout_responses (payouts_with PayoutStatus.broadcasted) ctx
    payins ←
        promise_all (λ status. list_payin_responses (payins_with status) ctx)
          (PayInStatus.pending ∷ PayInStatus.detected ∷ PayInStatus.underpaid ∷ [])
    pure (record {
      started_at = started_at;
      payouts = payouts;
      payins = payin_candidates now payins;
    })

  unfoldable pub find_candidates : Handler Candidates
  unfolding find_open
  find_candidates = do started_at ← get_now; now ← get_now; find_open started_at now

module _ (config : Config) (viem : Viem) (ctx : RequestContext) where
  abbrev pub payout_done : ℕ → PayoutResponse → ItemResult
  payout_done id reconciled = record {
    type = payout;
    id = id;
    status = payout_status reconciled.payout.status;
    ok = true;
    error = none;
  }

  abbrev pub payout_failed : PayoutResponse → Error → ItemResult
  payout_failed p e = record {
    type = payout;
    id = p.payout.id;
    status = payout_status p.payout.status;
    ok = false;
    error = some e;
  }

  unfoldable pub check_payout : PayoutResponse → Handler ItemResult
  check_payout p =
      try_catch
        (reconcile_payout config viem ctx p.payout.id >>= λ reconciled.
          pure (payout_done p.payout.id reconciled))
        (λ e. pure (payout_failed p e))

  abbrev pub payin_done : ℕ → PayInResponse → ItemResult
  payin_done id reconciled = record {
    type = payin;
    id = id;
    status = payin_status reconciled.payin.status;
    ok = true;
    error = none;
  }

  abbrev pub payin_failed : PayInResponse → Error → ItemResult
  payin_failed p e = record {
    type = payin;
    id = p.payin.id;
    status = payin_status p.payin.status;
    ok = false;
    error = some e;
  }

  -- The sweep that a reconciled pay-in may start runs on its own.
  unfoldable pub check_payin : PayInResponse → Handler ItemResult
  check_payin p =
      try_catch
        (reconcile_payin config viem ctx p.payin.id >>= λ reconciled.
          pure (payin_done p.payin.id reconciled.0))
        (λ e. pure (payin_failed p e))

  -- The two loops over batches, and the answer.
  unfoldable pub check_candidates : Candidates → Handler RunResult
  unfolding in_batches check_payout check_payin
  check_candidates found = do
    payout_results ← in_batches check_payout (length found.payouts) found.payouts
    payin_results ← in_batches check_payin (length found.payins) found.payins
    completed_at ← get_now
    pure (record {
      started_at = found.started_at;
      completed_at = completed_at;
      payouts_checked = length found.payouts;
      payins_checked = length found.payins;
      results = payout_results ++ payin_results;
    })

  -- `run`
  unfoldable pub run_reconciliation : Handler RunResult
  unfolding find_candidates check_candidates
  run_reconciliation = do check_candidates (← find_candidates ctx)

abbrev pub sweep_retry_batch : ℕ
sweep_retry_batch = 5

-- `SYSTEM_CONTEXT`
abbrev pub system_context : RequestContext
system_context = record {
  client_id = none;
  client_name = none;
  correlation_id = none;
  idempotency_key = none;
  actor = some "auto-reconcile";
  source_ip = none;
}

module _ (config : Config) (viem : Viem) where
  abbrev pub retry_sweeps : Bool → Handler (Unit {0})
  retry_sweeps false = pure tt
  retry_sweeps true =
      attempt (retry_pending_sweeps config viem system_context sweep_retry_batch) >> pure tt

  -- `AutoReconcileService.tick`
  unfoldable pub tick : Handler (Unit {0})
  unfolding run_reconciliation
  tick = do
    result ← attempt (run_reconciliation config viem system_context)
    retry_sweeps config.auto_sweep
