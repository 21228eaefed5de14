-- ===== src/System/Quiet/PayinLedger.antt =====
-- The statements on pay-ins (src/payins/payin-ledger.service.ts) and the read paths of PayinsService make progress with the outbox.
use avasettile.Common.{arith, ℕ, Bool, String, refl, Option, none, some}
use avasettile.Common.Table.{find_row}
use avasettile.Records.Common.{RequestContext}
use avasettile.Records.PayIn.{PayInRecord, PayInPatch, payin_key}
use avasettile.World.{World}
use avasettile.Payins.Ledger.{
  find_by_id, find_by_external_id, insert_payin, existing_or_throw, created_or_existing,
  create_or_get_existing, Guard, update_found, update_payin, Filters, list_payins,
  list_sweep_retry_candidates, found_by_key, find_by_idempotency_key, store_idempotency_key,
  claim_next_payin_index,
}
use avasettile.Payins.Service.{to_payin_response, require_payin, get_payin, list_payin_responses}
use avasettile.Webhooks.Progress.{Progress, Progress-refl, Progress-elsewhere}
use avasettile.System.Rules.{
  Quiet, control, bind, done, thrown, tried, statement, elsewhere, reading, from_option,
  Quiet-record_event, Quiet-list_by_subject, Quiet-enqueue, Quiet-parse_amount,
}

Quiet-find_by_id : (id : ℕ) (scope : Option ℕ) → Quiet (find_by_id id scope)
unfolding find_by_id
Quiet-find_by_id id scope = reading _

Quiet-find_by_external_id : (c : Option ℕ) (e : String) → Quiet (find_by_external_id c e)
unfolding find_by_external_id
Quiet-find_by_external_id c e = reading _

Progress-insert_payin : (p : PayInRecord) (w : World) → Progress w (insert_payin p w).1
Progress-insert_payin p w = Progress-elsewhere w _ (ground arith) (ground arith) (ground arith)

Quiet-existing_or_throw : (o : Option PayInRecord) → Quiet (existing_or_throw o)
Quiet-existing_or_throw none = thrown _ _
Quiet-existing_or_throw (some p) = done _

Quiet-created_or_existing :
    (p : PayInRecord) (o : Option PayInRecord) → Quiet (created_or_existing p o)
Quiet-created_or_existing p (some q) = done _
Quiet-created_or_existing p none = bind _ _ (Quiet-find_by_external_id _ _) Quiet-existing_or_throw

pub Quiet-create_or_get_existing : (p : PayInRecord) → Quiet (create_or_get_existing p)
unfolding create_or_get_existing
Quiet-create_or_get_existing p =
    bind _ _ (statement _ (λ env w. Progress-insert_payin p w))
      (λ inserted. search (control, Quiet-created_or_existing) depth 10)

Progress-update_found :
    (now : ℕ) (patch : PayInPatch) (guard : Guard) (w : World) (o : Option PayInRecord)
    → Progress w (update_found now patch guard w o).1
Progress-update_found now patch guard w none = Progress-refl w
Progress-update_found now patch guard w (some p) =
    Progress-elsewhere w _ (ground arith) (ground arith) (ground arith)

pub Quiet-update_payin :
    (id : ℕ) (patch : PayInPatch) (guard : Guard) → Quiet (update_payin id patch guard)
unfolding update_payin
Quiet-update_payin id patch guard =
    statement _
      (λ env w. Progress-update_found env.now patch guard w (find_row payin_key id w.payins))

Quiet-list_payins : (filters : Filters) → Quiet (list_payins filters)
unfolding list_payins
Quiet-list_payins filters = reading _

pub Quiet-list_sweep_retry_candidates :
    (limit cooldown : ℕ) → Quiet (list_sweep_retry_candidates limit cooldown)
unfolding list_sweep_retry_candidates
Quiet-list_sweep_retry_candidates limit cooldown = reading _

Quiet-found_by_key : (o : Option ℕ) → Quiet (found_by_key o)
Quiet-found_by_key none = done _
Quiet-found_by_key (some id) = Quiet-find_by_id id none

pub Quiet-find_by_idempotency_key :
    (c : Option ℕ) (key : String) → Quiet (find_by_idempotency_key c key)
unfolding find_by_idempotency_key
Quiet-find_by_idempotency_key c key = bind _ _ (reading _) Quiet-found_by_key

pub Quiet-store_idempotency_key :
    (c : Option ℕ) (key : String) (id : ℕ) → Quiet (store_idempotency_key c key id)
unfolding store_idempotency_key
Quiet-store_idempotency_key c key id = elsewhere _ (λ env w. (refl, refl, refl))

pub Quiet-claim_next_payin_index : Quiet claim_next_payin_index
unfolding claim_next_payin_index
Quiet-claim_next_payin_index = elsewhere _ (λ env w. (refl, refl, refl))

pub Quiet-to_payin_response : (p : PayInRecord) (replay : Bool) → Quiet (to_payin_response p replay)
unfolding to_payin_response
Quiet-to_payin_response p replay = search (control, Quiet-list_by_subject) depth 10

pub Quiet-require_payin : (id : ℕ) (ctx : RequestContext) → Quiet (require_payin id ctx)
unfolding require_payin
Quiet-require_payin id ctx = search (control, Quiet-find_by_id) depth 10

pub ruleset ledger = (
  bind, Quiet-update_payin, Quiet-to_payin_response, Quiet-require_payin, Quiet-record_event,
  Quiet-enqueue,
)

pub Quiet-get_payin : (id : ℕ) (ctx : RequestContext) → Quiet (get_payin id ctx)
unfolding get_payin
Quiet-get_payin id ctx = search (control, ledger) depth 20

pub Quiet-list_payin_responses :
    (filters : Filters) (ctx : RequestContext) → Quiet (list_payin_responses filters ctx)
unfolding list_payin_responses
Quiet-list_payin_responses filters ctx = search (control, ledger, Quiet-list_payins) depth 20
