-- ===== src/System/Quiet/Payouts.antt =====
-- The handlers of PayoutsService (src/payouts/payouts.service.ts) make progress with the outbox.
use avasettile.Common.{arith, ℕ, Bool, true, false, String, Option, none, some, List, [], ◌∷◌, ◌++◌}
use avasettile.Common.Table.{find_row}
use avasettile.Effect.{Error, claim_lost, throw, ◌>>◌}
use avasettile.Records.Common.{SettlementAsset, RequestContext}
use avasettile.Records.Payout.{PayoutRecord, PayoutStatus, PayoutPatch, payout_key}
use avasettile.World.{World, Config, Viem}
use avasettile.Blockchain.Rail.{ExecutionStatus, TransferExecution, broadcasted, confirmed}
use avasettile.Payouts.Ledger.{
  find_by_id, find_by_external_id, insert_payout, existing_or_throw, created_or_existing,
  create_or_get_existing, update_found, update_payout, Filters, list_payouts,
}
use avasettile.Payouts.Service.{
  CreatePayout, AuthorizePayout, to_response, require_payout, get_payout, get_payout_by_external_id,
  list_payout_responses, notify_confirmed, respond, reject_failed, claim_refused, transfer_of,
  send_authorized, send_failed, settle_claimed, claim_and_settle, authorize_payout, max_exceeded,
  finish_create, create_payout, roll_back, claim_all, audit_sent, send_batch, batch_failed,
  claim_and_send, check_and_send, authorize_payout_batch, reconcile_with, reconcile_payout,
}
use avasettile.Webhooks.Progress.{Progress, Progress-refl, Progress-elsewhere}
use avasettile.System.Rules.{
  Quiet, control, bind, done, thrown, statement, reading, Quiet-record_event, Quiet-list_by_subject,
  Quiet-enqueue, Quiet-parse_amount,
}
use avasettile.System.Quiet.Chain.{
  Quiet-send_erc20_transfer, Quiet-vault_payout, Quiet-vault_payout_batch, Quiet-get_asset_balance,
  Quiet-reconcile_transaction,
}

Quiet-find_by_id : (id : ℕ) (scope : Option ℕ) → Quiet (find_by_id id scope)
unfolding find_by_id
Quiet-find_by_id id scope = reading _

Quiet-find_by_external_id : (c : Option ℕ) (e : String) → Quiet (find_by_external_id c e)
unfolding find_by_external_id
Quiet-find_by_external_id c e = reading _

Progress-insert_payout : (p : PayoutRecord) (w : World) → Progress w (insert_payout p w).1
Progress-insert_payout p w = Progress-elsewhere w _ (ground arith) (ground arith) (ground arith)

Quiet-existing_or_throw : (o : Option PayoutRecord) → Quiet (existing_or_throw o)
Quiet-existing_or_throw none = thrown _ _
Quiet-existing_or_throw (some p) = done _

Quiet-created_or_existing :
    (p : PayoutRecord) (o : Option PayoutRecord) → Quiet (created_or_existing p o)
Quiet-created_or_existing p (some q) = done _
Quiet-created_or_existing p none = bind _ _ (Quiet-find_by_external_id _ _) Quiet-existing_or_throw

Quiet-create_or_get_existing : (p : PayoutRecord) → Quiet (create_or_get_existing p)
unfolding create_or_get_existing
Quiet-create_or_get_existing p =
    bind _ _ (statement _ (λ env w. Progress-insert_payout p w))
      (λ inserted. search (control, Quiet-created_or_existing) depth 10)

Progress-update_found :
    (now : ℕ) (patch : PayoutPatch) (guard : Option (List PayoutStatus)) (w : World)
    (o : Option PayoutRecord)
    → Progress w (update_found now patch guard w o).1
Progress-update_found now patch guard w none = Progress-refl w
Progress-update_found now patch guard w (some p) =
    Progress-elsewhere w _ (ground arith) (ground arith) (ground arith)

Quiet-update_payout :
    (id : ℕ) (patch : PayoutPatch) (guard : Option (List PayoutStatus))
    → Quiet (update_payout id patch guard)
unfolding update_payout
Quiet-update_payout id patch guard =
    statement _
      (λ env w. Progress-update_found env.now patch guard w (find_row payout_key id w.payouts))

Quiet-list_payouts : (filters : Filters) → Quiet (list_payouts filters)
unfolding list_payouts
Quiet-list_payouts filters = reading _

Quiet-to_response : (p : PayoutRecord) (replay : Bool) → Quiet (to_response p replay)
unfolding to_response
Quiet-to_response p replay = search (control, Quiet-list_by_subject) depth 10

Quiet-require_payout : (id : ℕ) (ctx : RequestContext) → Quiet (require_payout id ctx)
unfolding require_payout
Quiet-require_payout id ctx = search (control, Quiet-find_by_id) depth 10

Quiet-notify_confirmed :
    (st : ExecutionStatus) (o : Option PayoutRecord) → Quiet (notify_confirmed st o)
Quiet-notify_confirmed broadcasted o = done tt
Quiet-notify_confirmed confirmed none = thrown _ _
Quiet-notify_confirmed confirmed (some p) = Quiet-enqueue _ _ _

Quiet-respond : (o : Option PayoutRecord) → Quiet (respond o)
Quiet-respond none = thrown _ _
Quiet-respond (some p) = Quiet-to_response p false

Quiet-reject_failed : (o : Option PayoutRecord) → Quiet (reject_failed o)
Quiet-reject_failed none = thrown _ _
Quiet-reject_failed (some p) = search (control, Quiet-to_response) depth 10

ruleset ledger = (
  bind, Quiet-update_payout, Quiet-to_response, Quiet-require_payout, Quiet-record_event,
  Quiet-notify_confirmed, Quiet-respond,
)

module _ (config : Config) (viem : Viem) (dto : AuthorizePayout) (ctx : RequestContext) where
  Quiet-claim_refused : (id : ℕ) → Quiet (claim_refused config viem dto ctx id)
  unfolding claim_refused
  Quiet-claim_refused id = search (control, ledger) depth 20

  Quiet-transfer_of : (id : ℕ) (p : PayoutRecord) → Quiet (transfer_of config viem dto ctx id p)
  unfolding transfer_of
  Quiet-transfer_of id p = search (control, Quiet-vault_payout, Quiet-send_erc20_transfer) depth 20

  Quiet-send_authorized :
      (id now : ℕ) (p : PayoutRecord) → Quiet (send_authorized config viem dto ctx id now p)
  unfolding send_authorized
  Quiet-send_authorized id now p =
      search (control, ledger, Quiet-get_asset_balance, Quiet-transfer_of) depth 40

  Quiet-send_failed : (id : ℕ) (e : Error) → Quiet (send_failed config viem dto ctx id e)
  unfolding send_failed
  Quiet-send_failed id e = search (control, ledger, Quiet-reject_failed) depth 40

  Quiet-settle_claimed :
      (id now : ℕ) (o : Option PayoutRecord) → Quiet (settle_claimed config viem dto ctx id now o)
  unfolding settle_claimed
  Quiet-settle_claimed id now none = Quiet-claim_refused id
  Quiet-settle_claimed id now (some p) =
      search (control, ledger, Quiet-send_authorized, Quiet-send_failed) depth 40

  Quiet-claim_and_settle : (id : ℕ) → Quiet (claim_and_settle config viem dto ctx id)
  unfolding claim_and_settle
  Quiet-claim_and_settle id = search (control, ledger, Quiet-settle_claimed) depth 40

  pub Quiet-authorize_payout : (id : ℕ) → Quiet (authorize_payout config viem dto ctx id)
  unfolding authorize_payout
  Quiet-authorize_payout id = search (control, ledger, Quiet-claim_and_settle) depth 40

  Quiet-roll_back : (claimed : List PayoutRecord) → Quiet (roll_back config viem dto ctx claimed)
  unfolding roll_back
  Quiet-roll_back claimed = search (control, ledger) depth 20

  Quiet-claim_all :
      (now : ℕ) (claimed ps : List PayoutRecord)
      → Quiet (claim_all config viem dto ctx now claimed ps)
  unfolding claim_all
  Quiet-claim_all now claimed [] = done claimed
  Quiet-claim_all now claimed (p ∷ ps) = bind _ _ (Quiet-update_payout _ _ _) λ o.
      elim o
        as (λ k. Quiet {A = List PayoutRecord} (elim k [
          | none ↦ roll_back config viem dto ctx claimed >> throw claim_lost
          | some c ↦ claim_all config viem dto ctx now (claimed ++ c ∷ []) ps
        ])) [
          | none ↦ bind _ _ (Quiet-roll_back claimed) (λ _. thrown (List PayoutRecord) claim_lost)
          | some c ↦ Quiet-claim_all now (claimed ++ c ∷ []) ps
        ]

  Quiet-audit_sent :
      (exec : TransferExecution) (o : Option PayoutRecord)
      → Quiet (audit_sent config viem dto ctx exec o)
  Quiet-audit_sent exec none = thrown _ _
  Quiet-audit_sent exec (some u) = search (control, ledger) depth 20

  Quiet-send_batch :
      (asset : SettlementAsset) (now : ℕ) (claimed : List PayoutRecord)
      → Quiet (send_batch config viem dto ctx asset now claimed)
  unfolding send_batch
  Quiet-send_batch asset now claimed =
      search (control, ledger, Quiet-vault_payout_batch, Quiet-audit_sent) depth 40

  Quiet-batch_failed :
      (claimed : List PayoutRecord) (e : Error) → Quiet (batch_failed config viem dto ctx claimed e)
  unfolding batch_failed
  Quiet-batch_failed claimed e = search (control, ledger) depth 40

  Quiet-claim_and_send :
      (asset : SettlementAsset) (payouts : List PayoutRecord)
      → Quiet (claim_and_send config viem dto ctx asset payouts)
  unfolding claim_and_send
  Quiet-claim_and_send asset payouts =
      search (control, ledger, Quiet-claim_all, Quiet-send_batch, Quiet-batch_failed) depth 40

  Quiet-check_and_send :
      (payouts : List PayoutRecord) → Quiet (check_and_send config viem dto ctx payouts)
  Quiet-check_and_send [] = thrown _ _
  Quiet-check_and_send (first ∷ rest) =
      search (control, Quiet-get_asset_balance, Quiet-claim_and_send) depth 40

  pub Quiet-authorize_payout_batch :
      (ids : List ℕ) → Quiet (authorize_payout_batch config viem dto ctx ids)
  unfolding authorize_payout_batch
  Quiet-authorize_payout_batch ids = search (control, ledger, Quiet-check_and_send) depth 40

module _ (config : Config) (viem : Viem) (ctx : RequestContext) where
  Quiet-max_exceeded :
      (limit : Option String) (decimals amount : ℕ)
      → Quiet (max_exceeded config viem ctx limit decimals amount)
  Quiet-max_exceeded none decimals amount = done tt
  Quiet-max_exceeded (some limit) decimals amount = search (control) depth 20

  Quiet-finish_create :
      (dto : CreatePayout) (result : PayoutRecord × Bool)
      → Quiet (finish_create config viem ctx dto result)
  unfolding finish_create
  Quiet-finish_create dto (p, true) = search (control, ledger) depth 20
  Quiet-finish_create dto (p, false) = search (control, ledger, Quiet-authorize_payout) depth 20

  pub Quiet-create_payout : (dto : CreatePayout) → Quiet (create_payout config viem ctx dto)
  unfolding create_payout
  Quiet-create_payout dto =
      search
        (
          control, Quiet-parse_amount, Quiet-max_exceeded, Quiet-create_or_get_existing,
          Quiet-finish_create,
        )
        depth 40

  Quiet-reconcile_with :
      (id : ℕ) (p : PayoutRecord) (hash : ℕ) → Quiet (reconcile_with config viem ctx id p hash)
  unfolding reconcile_with
  Quiet-reconcile_with id p hash = search (control, ledger, Quiet-reconcile_transaction) depth 40

  pub Quiet-reconcile_payout : (id : ℕ) → Quiet (reconcile_payout config viem ctx id)
  unfolding reconcile_payout
  Quiet-reconcile_payout id = search (control, ledger, Quiet-reconcile_with) depth 40

pub Quiet-get_payout : (id : ℕ) (ctx : RequestContext) → Quiet (get_payout id ctx)
unfolding get_payout
Quiet-get_payout id ctx = search (control, ledger) depth 20

pub Quiet-get_payout_by_external_id :
    (e : String) (ctx : RequestContext) → Quiet (get_payout_by_external_id e ctx)
unfolding get_payout_by_external_id
Quiet-get_payout_by_external_id e ctx = search (control, ledger, Quiet-find_by_external_id) depth 20

pub Quiet-list_payout_responses :
    (filters : Filters) (ctx : RequestContext) → Quiet (list_payout_responses filters ctx)
unfolding list_payout_responses
Quiet-list_payout_responses filters ctx = search (control, ledger, Quiet-list_payouts) depth 20
