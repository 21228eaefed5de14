-- ===== src/Payins/Confirmed/Sweeps.antt =====
-- `sweepPayIn`, `topUpPayIn`, `topUpAndSweep` and `retryPendingSweeps` of
-- src/payins/payins.service.ts keep the row of a pay-in sound.
use avasettile.Common.{ℕ, ◌+◌, refl, true, false, String, Option, none, some, List, [], ◌∷◌}
use avasettile.Effect.{Error}
use avasettile.Effect.Yields.{Anything, Yields-try_catch, Yields-attempt}
use avasettile.Records.Common.{RequestContext}
use avasettile.Records.PayIn.{PayInRecord}
use avasettile.World.{Config, Viem, parse_amount}
use avasettile.Blockchain.Rail.{ExecutionStatus}
use avasettile.Blockchain.Deposit.{SweepExecution}
use avasettile.Payins.Ledger.{no_guard, list_sweep_retry_candidates}
use avasettile.Payins.Service.{
  sweep_payin, sweep_derived, sweep_now, sweep_failed, swept_patch, sweep_failure_patch,
  not_yet_swept, top_up, top_up_payin, top_up_and_sweep, sweep_each, retry_pending_sweeps,
  SweepPayIn, TopUp, no_top_up, amount_to_sweep, updated_or_reread, updated_or_rethrow,
  sweep_not_required, await_landing, not_required_patch,
}
use avasettile.Payins.Confirmed.Row.{Inv, Allowed}
use avasettile.Payins.Confirmed.Calls.{
  Stable, Stable-then, Stable-pure, Stable-throw, Stable-throw_if, Stable-or_throw,
  Stable-from_result, Stable-get_now, Stable-record_event, Stable-query, Stable-to_payin_response,
  Stable-update_payin,
}
use avasettile.Payins.Confirmed.Chain.{
  Stable-if, Stable-sweep_derived_payin, Stable-send_native_transfer, Stable-wait_for_transaction,
}
use avasettile.Payins.Confirmed.Handlers.{after_read}

swept_patch-Allowed :
    (sweep : SweepExecution) (now expected : ℕ)
    → Allowed expected (swept_patch sweep now) not_yet_swept
swept_patch-Allowed sweep now expected at q same sound granted = sound

module _ (i expected : ℕ) (config : Config) (viem : Viem) (ctx : RequestContext) where
  Stable-amount_to_sweep :
      (p : PayInRecord) (amount : Option String)
      → Stable i expected (amount_to_sweep config viem ctx p amount)
  unfolding parse_amount
  Stable-amount_to_sweep p none = Stable-pure i expected none
  Stable-amount_to_sweep p (some amount) =
      Stable-then i expected _ _ (Stable-from_result i expected _)
        (λ atomic. Stable-pure i expected _)

  Stable-updated_or_reread :
      (id : ℕ) (updated : Option PayInRecord)
      → Stable i expected (updated_or_reread config viem ctx id updated)
  Stable-updated_or_reread id (some updated) = Stable-pure i expected _
  Stable-updated_or_reread id none =
      after_read i expected id ctx _ (λ p read. Stable-pure i expected _)

  Stable-sweep_now :
      (p : PayInRecord) (dto : SweepPayIn) (amount : Option ℕ)
      → Stable i expected (sweep_now config viem ctx p dto amount)
  unfolding sweep_now
  Stable-sweep_now p dto amount =
      Stable-then i expected _ _
        (Stable-sweep_derived_payin i expected config viem p.asset p.derivation_index
          p.deposit_address amount)
        λ sweep. Stable-then i expected _ _ (Stable-get_now i expected) λ now.
          Stable-then i expected _ _
            (Stable-update_payin i expected p.id _ not_yet_swept
              (λ mine. swept_patch-Allowed sweep now expected))
            λ updated.
              Stable-then i expected _ _ (Stable-record_event i expected _ p.id _ _)
                (λ _. Stable-updated_or_reread p.id updated)

  Stable-updated_or_rethrow :
      (e : Error) (updated : Option PayInRecord)
      → Stable i expected (updated_or_rethrow config viem ctx e updated)
  Stable-updated_or_rethrow e (some updated) = Stable-pure i expected _
  Stable-updated_or_rethrow e none = Stable-throw i expected _ e

  Stable-sweep_failed :
      (p : PayInRecord) (dto : SweepPayIn) (e : Error)
      → Stable i expected (sweep_failed config viem ctx p dto e)
  unfolding sweep_failed
  Stable-sweep_failed p dto e =
      Stable-then i expected _ _
        (Stable-update_payin i expected p.id (sweep_failure_patch e) not_yet_swept
          (λ mine at q same sound granted. sound))
        λ updated.
          Stable-then i expected _ _ (Stable-record_event i expected _ p.id _ _)
            (λ _. Stable-updated_or_rethrow e updated)

  Stable-sweep_derived :
      (p : PayInRecord) (dto : SweepPayIn) → Stable i expected (sweep_derived config viem ctx p dto)
  unfolding sweep_derived
  Stable-sweep_derived p dto =
      Stable-if i expected _ _ _ (Stable-to_payin_response i expected p true) (
        Stable-then i expected _ _ (Stable-amount_to_sweep p dto.amount) λ amount.
          Stable-then i expected _ _
            (Yields-try_catch (Inv i expected) _ _ Anything (Stable-sweep_now p dto amount)
              (Stable-sweep_failed p dto))
            (λ outcome. Stable-to_payin_response i expected outcome.0 outcome.1))

  Stable-sweep_not_required : (id : ℕ) → Stable i expected (sweep_not_required config viem ctx id)
  Stable-sweep_not_required id =
      Stable-then i expected _ _
        (Stable-update_payin i expected id not_required_patch no_guard
          (λ mine at q same sound granted. sound))
        λ written.
          Stable-then i expected _ _ (Stable-or_throw i expected written _)
            (λ updated. Stable-to_payin_response i expected updated true)

  pub Stable-sweep_payin :
      (id : ℕ) (dto : SweepPayIn) → Stable i expected (sweep_payin config viem ctx id dto)
  unfolding sweep_payin
  Stable-sweep_payin id dto = after_read i expected id ctx _ λ p read.
      Stable-if i expected _ _ _ (Stable-sweep_not_required id) (Stable-sweep_derived p dto)

  Stable-top_up :
      (p : PayInRecord) (amount : Option String)
      → Stable i expected (top_up config viem ctx p amount)
  unfolding top_up
  Stable-top_up p amount = Stable-then i expected _ _ (Stable-throw_if i expected _ _) λ _.
      Stable-then i expected _ _ (Stable-from_result i expected _) λ wei.
        Stable-then i expected _ _
          (Stable-send_native_transfer i expected config viem p.deposit_address wei)
          λ transfer.
            Stable-then i expected _ _ (Stable-record_event i expected _ p.id _ _)
              (λ _. Stable-pure i expected transfer)

  pub Stable-top_up_payin :
      (id : ℕ) (amount : Option String) → Stable i expected (top_up_payin config viem ctx id amount)
  unfolding top_up_payin
  Stable-top_up_payin id amount = after_read i expected id ctx _ λ p read.
      Stable-then i expected _ _ (Stable-top_up p amount)
        (λ _. Stable-to_payin_response i expected p false)

  Stable-await_landing :
      (hash : ℕ) (status : ExecutionStatus)
      → Stable i expected (await_landing config viem ctx (record { hash = hash; status = status }))
  Stable-await_landing hash ExecutionStatus.broadcasted =
      Stable-wait_for_transaction i expected hash
  Stable-await_landing hash ExecutionStatus.confirmed = Stable-pure i expected tt

  pub Stable-top_up_and_sweep :
      (id : ℕ) (dto : TopUp) → Stable i expected (top_up_and_sweep config viem ctx id dto)
  unfolding top_up_and_sweep
  Stable-top_up_and_sweep id dto = after_read i expected id ctx _ λ p read.
      Stable-then i expected _ _ (Stable-top_up p dto.amount_avax) λ transfer.
        Stable-then i expected _ _ (Stable-await_landing transfer.hash transfer.status)
          (λ _. Stable-sweep_payin id (record { amount = none; notes = dto.notes }))

  Stable-sweep_each :
      (ps : List PayInRecord) (attempted : ℕ)
      → Stable i expected (sweep_each config viem ctx ps attempted)
  unfolding sweep_each
  Stable-sweep_each [] attempted = Stable-pure i expected attempted
  Stable-sweep_each (p ∷ ps) attempted =
      Stable-then i expected _ _
        (Yields-attempt (Inv i expected) _ Anything (Stable-top_up_and_sweep p.id no_top_up))
        (λ outcome. Stable-sweep_each ps (attempted + 1))

  pub Stable-retry_pending_sweeps :
      (limit : ℕ) → Stable i expected (retry_pending_sweeps config viem ctx limit)
  unfolding retry_pending_sweeps list_sweep_retry_candidates
  Stable-retry_pending_sweeps limit =
      Stable-then i expected _ _ (Stable-query i expected _ (λ env w. refl))
        (λ candidates. Stable-sweep_each candidates 0)
