-- ===== src/System/Quiet/Payins.antt =====
-- The handlers of PayinsService (src/payins/payins.service.ts) make progress with the outbox.
use avasettile.Common.{ℕ, Bool, true, false, String, Option, none, some, List, [], ◌∷◌}
use avasettile.Effect.{Error, pure}
use avasettile.Records.Common.{RequestContext}
use avasettile.Records.PayIn.{
  PayInRecord, PayInTransferRecord, PayInCollectionMode, derived_address, payment_router,
  PayInStatus,
}
use avasettile.World.{Config, Viem}
use avasettile.Blockchain.Rail.{ExecutionStatus, TransferExecution, broadcasted, confirmed}
use avasettile.Blockchain.Deposit.{wait_for_transaction}
use avasettile.Payins.Service.{
  CreatePayIn, SweepPayIn, TopUp, router_of, collect_at, store_key_for, finish_create_payin,
  create_new_payin, prior_of, replay_or_create, create_payin, transfers_by_mode,
  find_payin_transfers, write_reconciled, reconcile_open, reconcile_payin, amount_to_sweep,
  updated_or_reread, sweep_now, updated_or_rethrow, sweep_failed, sweep_derived, sweep_payin,
  top_up, top_up_payin, await_landing, top_up_and_sweep, sweep_each, retry_pending_sweeps,
  no_top_up, replay_or_refuse, accepted, accept_payin,
}
use avasettile.Payins.Service.Reconcile.{notify_detected, notify_confirmed}
use avasettile.System.Rules.{
  Quiet, control, bind, done, thrown, tried, Quiet-enqueue, Quiet-parse_amount,
}
use avasettile.System.Quiet.Chain.{
  Quiet-derive_payin_address, Quiet-sweep_derived_payin, Quiet-send_native_transfer,
  Quiet-find_incoming_erc20_transfers, Quiet-find_payment_router_invoice_payments,
  Quiet-wait_for_transaction,
}
use avasettile.System.Quiet.PayinLedger.{
  ledger, Quiet-create_or_get_existing, Quiet-find_by_idempotency_key, Quiet-store_idempotency_key,
  Quiet-claim_next_payin_index, Quiet-to_payin_response, Quiet-list_sweep_retry_candidates,
}

module _ (config : Config) (viem : Viem) (ctx : RequestContext) where
  Quiet-router_of :
      (dto : CreatePayIn) (m : PayInCollectionMode) → Quiet (router_of config viem ctx dto m)
  Quiet-router_of dto derived_address = done none
  Quiet-router_of dto payment_router = search (control) depth 10

  Quiet-collect_at : (dto : CreatePayIn) (o : Option ℕ) → Quiet (collect_at config viem ctx dto o)
  Quiet-collect_at dto (some router) = done _
  Quiet-collect_at dto none =
      search (control, Quiet-claim_next_payin_index, Quiet-derive_payin_address) depth 20

  Quiet-store_key_for :
      (key : Option String) (id : ℕ) → Quiet (store_key_for config viem ctx key id)
  Quiet-store_key_for none id = done tt
  Quiet-store_key_for (some key) id = Quiet-store_idempotency_key _ key id

  Quiet-finish_create_payin :
      (r : PayInRecord × Bool) → Quiet (finish_create_payin config viem ctx r)
  unfolding finish_create_payin
  Quiet-finish_create_payin (p, true) = Quiet-to_payin_response p true
  Quiet-finish_create_payin (p, false) = search (control, ledger, Quiet-store_key_for) depth 20

  Quiet-create_new_payin : (dto : CreatePayIn) → Quiet (create_new_payin config viem ctx dto)
  unfolding create_new_payin
  Quiet-create_new_payin dto =
      search
        (
          control, Quiet-parse_amount, Quiet-router_of, Quiet-collect_at,
          Quiet-create_or_get_existing, Quiet-finish_create_payin,
        )
        depth 40

  Quiet-prior_of : (key : Option String) → Quiet (prior_of config viem ctx key)
  Quiet-prior_of none = done none
  Quiet-prior_of (some key) = Quiet-find_by_idempotency_key _ key

  Quiet-replay_or_create :
      (dto : CreatePayIn) (o : Option PayInRecord) → Quiet (replay_or_create config viem ctx dto o)
  Quiet-replay_or_create dto (some p) = Quiet-to_payin_response p true
  Quiet-replay_or_create dto none = Quiet-create_new_payin dto

  pub Quiet-create_payin : (dto : CreatePayIn) → Quiet (create_payin config viem ctx dto)
  unfolding create_payin
  Quiet-create_payin dto = bind _ _ (Quiet-prior_of _) (Quiet-replay_or_create dto)

  Quiet-transfers_by_mode :
      (m : PayInCollectionMode) (p : PayInRecord) (to : ℕ)
      → Quiet (transfers_by_mode config viem ctx m p to)
  Quiet-transfers_by_mode derived_address p to =
      Quiet-find_incoming_erc20_transfers config viem _ _ _ _
  Quiet-transfers_by_mode payment_router p to =
      search (control, Quiet-find_payment_router_invoice_payments) depth 20

  Quiet-find_payin_transfers :
      (p : PayInRecord) (to : ℕ) → Quiet (find_payin_transfers config viem ctx p to)
  unfolding find_payin_transfers
  Quiet-find_payin_transfers p to = Quiet-transfers_by_mode p.collection_mode p to

  Quiet-notify_detected : (b : Bool) (p : PayInRecord) → Quiet (notify_detected config viem ctx b p)
  Quiet-notify_detected true p = Quiet-enqueue _ _ _
  Quiet-notify_detected false p = done tt

  Quiet-notify_confirmed :
      (b : Bool) (p : PayInRecord) → Quiet (notify_confirmed config viem ctx b p)
  Quiet-notify_confirmed true p = Quiet-enqueue _ _ _
  Quiet-notify_confirmed false p = done tt

  Quiet-write_reconciled :
      (p : PayInRecord) (ts : List PayInTransferRecord) (latest now : ℕ) (st : PayInStatus)
      → Quiet (write_reconciled config viem ctx p ts latest now st)
  unfolding write_reconciled
  Quiet-write_reconciled p ts latest now st =
      search (control, ledger, Quiet-notify_detected, Quiet-notify_confirmed) depth 40

  Quiet-reconcile_open : (p : PayInRecord) → Quiet (reconcile_open config viem ctx p)
  unfolding reconcile_open
  Quiet-reconcile_open p =
      search (control, Quiet-find_payin_transfers, Quiet-write_reconciled) depth 40

  pub Quiet-reconcile_payin : (id : ℕ) → Quiet (reconcile_payin config viem ctx id)
  unfolding reconcile_payin
  Quiet-reconcile_payin id = search (control, ledger, Quiet-reconcile_open) depth 40

  Quiet-amount_to_sweep :
      (p : PayInRecord) (o : Option String) → Quiet (amount_to_sweep config viem ctx p o)
  Quiet-amount_to_sweep p none = done none
  Quiet-amount_to_sweep p (some amount) = search (control, Quiet-parse_amount) depth 10

  Quiet-updated_or_reread :
      (id : ℕ) (o : Option PayInRecord) → Quiet (updated_or_reread config viem ctx id o)
  Quiet-updated_or_reread id (some p) = done _
  Quiet-updated_or_reread id none = search (control, ledger) depth 10

  Quiet-sweep_now :
      (p : PayInRecord) (dto : SweepPayIn) (amount : Option ℕ)
      → Quiet (sweep_now config viem ctx p dto amount)
  unfolding sweep_now
  Quiet-sweep_now p dto amount =
      search (control, ledger, Quiet-sweep_derived_payin, Quiet-updated_or_reread) depth 40

  Quiet-updated_or_rethrow :
      (e : Error) (o : Option PayInRecord) → Quiet (updated_or_rethrow config viem ctx e o)
  Quiet-updated_or_rethrow e (some p) = done _
  Quiet-updated_or_rethrow e none = thrown _ _

  Quiet-sweep_failed :
      (p : PayInRecord) (dto : SweepPayIn) (e : Error)
      → Quiet (sweep_failed config viem ctx p dto e)
  unfolding sweep_failed
  Quiet-sweep_failed p dto e = search (control, ledger, Quiet-updated_or_rethrow) depth 40

  Quiet-sweep_derived :
      (p : PayInRecord) (dto : SweepPayIn) → Quiet (sweep_derived config viem ctx p dto)
  unfolding sweep_derived
  Quiet-sweep_derived p dto =
      search (control, ledger, Quiet-amount_to_sweep, Quiet-sweep_now, Quiet-sweep_failed) depth 40

  pub Quiet-sweep_payin : (id : ℕ) (dto : SweepPayIn) → Quiet (sweep_payin config viem ctx id dto)
  unfolding sweep_payin
  Quiet-sweep_payin id dto = search (control, ledger, Quiet-sweep_derived) depth 40

  Quiet-top_up :
      (p : PayInRecord) (amount : Option String) → Quiet (top_up config viem ctx p amount)
  unfolding top_up
  Quiet-top_up p amount = search (control, ledger, Quiet-send_native_transfer) depth 40

  pub Quiet-top_up_payin :
      (id : ℕ) (amount : Option String) → Quiet (top_up_payin config viem ctx id amount)
  unfolding top_up_payin
  Quiet-top_up_payin id amount = search (control, ledger, Quiet-top_up) depth 40

  Quiet-await_landing :
      (transfer : TransferExecution) → Quiet (await_landing config viem ctx transfer)
  Quiet-await_landing transfer = by_status transfer.status
    where
      by_status :
          (st : ExecutionStatus)
          → Quiet
              (elim st [ broadcasted ↦ wait_for_transaction transfer.hash | confirmed ↦ pure tt ])
      by_status broadcasted = Quiet-wait_for_transaction _
      by_status confirmed = done tt

  pub Quiet-top_up_and_sweep :
      (id : ℕ) (dto : TopUp) → Quiet (top_up_and_sweep config viem ctx id dto)
  unfolding top_up_and_sweep
  Quiet-top_up_and_sweep id dto =
      search (control, ledger, Quiet-top_up, Quiet-await_landing, Quiet-sweep_payin) depth 40

  Quiet-sweep_each : (ps : List PayInRecord) (n : ℕ) → Quiet (sweep_each config viem ctx ps n)
  unfolding sweep_each
  Quiet-sweep_each [] n = done n
  Quiet-sweep_each (p ∷ ps) n =
      bind _ _ (tried _ (Quiet-top_up_and_sweep p.id no_top_up)) (λ _. Quiet-sweep_each ps _)

  pub Quiet-retry_pending_sweeps : (limit : ℕ) → Quiet (retry_pending_sweeps config viem ctx limit)
  unfolding retry_pending_sweeps
  Quiet-retry_pending_sweeps limit =
      bind _ _ (Quiet-list_sweep_retry_candidates _ _) (λ ps. Quiet-sweep_each ps 0)

module _ (ctx : RequestContext) where
  Quiet-replay_or_refuse : (p : PayInRecord) → Quiet (replay_or_refuse ctx p)
  Quiet-replay_or_refuse p = search (control, ledger) depth 10

  Quiet-accepted :
      (p : PayInRecord) (remark : Option String) (o : Option PayInRecord)
      → Quiet (accepted ctx p remark o)
  unfolding accepted
  Quiet-accepted p remark none = search (control, ledger, Quiet-replay_or_refuse) depth 20
  Quiet-accepted p remark (some u) = search (control, ledger) depth 20

  pub Quiet-accept_payin : (id : ℕ) (remark : Option String) → Quiet (accept_payin ctx id remark)
  unfolding accept_payin
  Quiet-accept_payin id remark = search (control, ledger, Quiet-accepted) depth 40
