-- ===== src/Payins/Confirmed/Handlers.antt =====
-- Every handler of src/payins/payins.service.ts keeps the row of the pay-in sound.
use avasettile.Common.{
  ℕ, ◌≡◌, refl, inl, inr, Bool, true, false, not, String, Option, none, some, List, is_some,
  if◌then◌else◌, ◌&&◌, ◌∙◌, sym,
}
use avasettile.Effect.{◌>>=◌, router_has_no_invoice}
use avasettile.Effect.Yields.{Anything, Yields->>=}
use avasettile.Records.Common.{RequestContext}
use avasettile.Records.PayIn.{
  PayInRecord, PayInTransferRecord, PayInCollectionMode, derived_address, payment_router,
}
use avasettile.World.{Config, Viem, Handler}
use avasettile.Payins.Ledger.{no_guard}
use avasettile.Payins.Scan.{merge_transfers, total_received, status_of}
use avasettile.Payins.Scan.Status.{status_of-confirmed}
use avasettile.Payins.Service.{
  reconcile_payin, reconcile_open, find_payin_transfers, write_reconciled, payin_patch,
  reconciled_status, accept_payin, accepted, accept_patch, acceptable, transfers_by_mode,
  require_payin, notify_detected, notify_confirmed,
}
use avasettile.Payins.Confirmed.Row.{Inv, Allowed}
use avasettile.Payins.Confirmed.Calls.{
  Stable, Stable-then, Stable-pure, Stable-throw, Stable-or_throw, Stable-read_chain,
  Stable-get_now, Stable-record_event, Stable-enqueue, Stable-to_payin_response,
  Stable-update_payin, IsRead, Gives-require_payin,
}
use avasettile.Payins.Confirmed.Chain.{Stable-if, Stable-find_incoming, Stable-find_payments}

-- The time of confirmation after a status that is confirmed.
kept_time :
    (b : Bool) (o : Option ℕ) (now : ℕ)
    → b ≡ true
    → is_some (if b && not (is_some o) then some now else o) ≡ true
kept_time b none now h = rw h refl
kept_time b (some t) now h = rw h refl

-- What `reconcilePayIn` writes: the status confirmed comes with the exact total.
payin_patch-Allowed :
    (config : Config) (viem : Viem) (ctx : RequestContext) (p : PayInRecord)
    (transfers : List PayInTransferRecord) (latest now : ℕ) (enough past : Bool) (expected : ℕ)
    → p.expected_amount_atomic ≡ expected
    → Allowed expected
        (payin_patch config viem ctx p transfers latest now
          (status_of (total_received transfers) p.expected_amount_atomic enough past))
        no_guard
payin_patch-Allowed config viem ctx p transfers latest now enough past expected same at q same'
      sound granted =
    λ confirmed'.
      let (_, exact, _) =
        (status_of-confirmed (total_received transfers) p.expected_amount_atomic enough past).0
          confirmed' in
      (kept_time _ p.confirmed_at now confirmed', inr (exact ∙ same ∙ sym same'))

accept_patch-Allowed :
    (p : PayInRecord) (now : ℕ) (note : Option String) (expected : ℕ)
    → Allowed expected (accept_patch p now note) acceptable
accept_patch-Allowed p now remark expected at q same sound granted = λ _. (refl, inl refl)

module _ (i expected : ℕ) where
  -- The rule for a handler that reads the pay-in first.
  pub after_read :
      {B : Type 0} (id : ℕ) (ctx : RequestContext) (f : PayInRecord → Handler B)
      → ((p : PayInRecord) → IsRead i expected id p → Stable i expected (f p))
      → Stable i expected (require_payin id ctx >>= f)
  after_read id ctx f h =
      Yields->>= (Inv i expected) _ _ (IsRead i expected id) Anything
        (Gives-require_payin i expected id ctx) h

  module _ (config : Config) (viem : Viem) (ctx : RequestContext) where
    Stable-transfers_by_mode :
        (mode : PayInCollectionMode) (p : PayInRecord) (to_block : ℕ)
        → Stable i expected (transfers_by_mode config viem ctx mode p to_block)
    Stable-transfers_by_mode derived_address p to_block =
        Stable-find_incoming i expected config viem p.asset p.deposit_address _ to_block
    Stable-transfers_by_mode payment_router p to_block =
        Stable-then i expected _ _
          (Stable-or_throw i expected p.router_invoice_id router_has_no_invoice)
          (λ ref.
            Stable-find_payments i expected config viem p.asset ref p.expected_amount_atomic _
              to_block)

    Stable-notify_detected :
        (b : Bool) (u : PayInRecord) → Stable i expected (notify_detected config viem ctx b u)
    Stable-notify_detected false u = Stable-pure i expected tt
    Stable-notify_detected true u = Stable-enqueue i expected _ _ _

    Stable-notify_confirmed :
        (b : Bool) (u : PayInRecord) → Stable i expected (notify_confirmed config viem ctx b u)
    Stable-notify_confirmed false u = Stable-pure i expected tt
    Stable-notify_confirmed true u = Stable-enqueue i expected _ _ _

    Stable-write_reconciled :
        (id : ℕ) (p : PayInRecord) (transfers : List PayInTransferRecord) (latest now current : ℕ)
        → IsRead i expected id p
        → Stable i expected (
            write_reconciled config viem ctx p transfers latest now
              (reconciled_status config viem ctx p transfers latest current))
    unfolding write_reconciled
    Stable-write_reconciled id p transfers latest now current (same_id, same) =
        Stable-then i expected _ _
          (Stable-update_payin i expected p.id _ no_guard (λ mine.
            payin_patch-Allowed config viem ctx p transfers latest now _ _ expected
              (same (rw same_id at mine))))
          λ written. Stable-then i expected _ _ (Stable-or_throw i expected written _) λ updated.
            Stable-then i expected _ _ (Stable-record_event i expected _ p.id _ _) λ _.
              Stable-then i expected _ _ (Stable-notify_detected _ updated) λ _.
                Stable-then i expected _ _ (Stable-notify_confirmed _ updated) λ _.
                  Stable-then i expected _ _ (Stable-to_payin_response i expected updated false)
                    (λ response. Stable-pure i expected _)

    Stable-reconcile_open :
        (id : ℕ) (p : PayInRecord)
        → IsRead i expected id p
        → Stable i expected (reconcile_open config viem ctx p)
    unfolding reconcile_open find_payin_transfers
    Stable-reconcile_open id p read =
        Stable-then i expected _ _ (Stable-read_chain i expected _) λ latest.
          Stable-then i expected _ _ (Stable-transfers_by_mode p.collection_mode p latest)
            λ incoming. Stable-then i expected _ _ (Stable-get_now i expected) λ now.
              Stable-then i expected _ _ (Stable-get_now i expected) λ current.
                Stable-write_reconciled id p (merge_transfers p.transfers incoming) latest now
                  current read

    pub Stable-reconcile_payin : (id : ℕ) → Stable i expected (reconcile_payin config viem ctx id)
    unfolding reconcile_payin
    Stable-reconcile_payin id = after_read id ctx _ λ p read.
        Stable-if i expected _ _ _
          (Stable-then i expected _ _ (Stable-to_payin_response i expected p true)
            (λ response. Stable-pure i expected _))
          (Stable-reconcile_open id p read)

    Stable-accepted :
        (p : PayInRecord) (note : Option String) (updated : Option PayInRecord)
        → Stable i expected (accepted ctx p note updated)
    unfolding accepted
    Stable-accepted p remark none = after_read p.id ctx _ λ current read.
        Stable-if i expected _ _ _ (Stable-to_payin_response i expected current true)
          (Stable-throw i expected _ _)
    Stable-accepted p remark (some updated) =
        Stable-then i expected _ _ (Stable-record_event i expected _ p.id _ _) λ _.
          Stable-then i expected _ _ (Stable-enqueue i expected _ _ _)
            (λ _. Stable-to_payin_response i expected updated false)

    pub Stable-accept_payin :
        (id : ℕ) (note : Option String) → Stable i expected (accept_payin ctx id note)
    unfolding accept_payin
    Stable-accept_payin id note = after_read id ctx _ λ p read.
        Stable-then i expected _ _ (Stable-get_now i expected) λ now.
          Stable-then i expected _ _
            (Stable-update_payin i expected id _ acceptable
              (λ mine. accept_patch-Allowed p now note expected))
            (Stable-accepted p note)
