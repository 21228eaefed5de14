-- ===== src/Payouts/Service/Reconcile.antt =====
-- `reconcilePayout` (src/payouts/payouts.service.ts). The row is written with no guard, from what
-- was read before the calls to the chain.
use avasettile.Common.{ℕ, Bool, true, false, Option, none, some, [], ◌∷◌, if◌then◌else◌}
use avasettile.Effect.{no_transaction_hash, reverted_on_chain, or_throw, ◌>>=◌, ◌>>◌}
use avasettile.Records.Common.{flag, number, AuditEventType, RequestContext}
use avasettile.Records.Payout.{PayoutRecord, PayoutPatch, confirmed, failed, no_patch}
use avasettile.World.{Config, Viem, Handler, get_now, record_event, to_audit_actor}
use avasettile.Blockchain.Rail.{
  TransactionReconciliation, ReconciliationStatus, reverted, reconcile_transaction,
}
use avasettile.Payouts.Ledger.{update_payout}
use avasettile.Payouts.Service.Defs.{PayoutResponse, require_payout}
use avasettile.Payouts.Service.Authorize.{respond}

abbrev pub is_reverted : ReconciliationStatus → Bool
is_reverted reverted = true
is_reverted _ = false

-- What `reconcilePayout` writes: finalized wins over reverted, and otherwise the read values stay.
abbrev pub reconcile_patch : ℕ → TransactionReconciliation → PayoutRecord → PayoutPatch
reconcile_patch now r p =
    if r.finalized
    then record no_patch {
      status = some confirmed;
      confirmed_at = some (some now);
      failure_reason = some none;
    }
    else if is_reverted r.status
    then record no_patch {
      status = some failed;
      confirmed_at = some p.confirmed_at;
      failure_reason = some (some reverted_on_chain);
    }
    else record no_patch {
      status = some p.status;
      confirmed_at = some p.confirmed_at;
      failure_reason = some p.failure_reason;
    }

module _ (config : Config) (viem : Viem) (ctx : RequestContext) where
  abbrev pub audited :
      ℕ → ℕ → TransactionReconciliation → Option PayoutRecord → Handler PayoutResponse
  audited id hash r updated = do
    record_event AuditEventType.payout_reconciled id (to_audit_actor ctx none) (
        ("hash", number hash)
        ∷ ("reverted", flag (is_reverted r.status))
        ∷ ("confirmations", number r.confirmations)
        ∷ ("finalized", flag r.finalized)
        ∷ [])
    respond updated

  -- The clock is read in every case here, and used only for a finalized transaction, the one case in
  -- which the source reads it.
  unfoldable pub reconcile_with : ℕ → PayoutRecord → ℕ → Handler PayoutResponse
  reconcile_with id p hash = do
    r ← reconcile_transaction config viem hash
    now ← get_now
    updated ← update_payout id (reconcile_patch now r p) none
    audited id hash r updated

  unfoldable pub reconcile_payout : ℕ → Handler PayoutResponse
  unfolding reconcile_with
  reconcile_payout id = do
    p ← require_payout id ctx
    hash ← or_throw p.transaction_hash no_transaction_hash
    reconcile_with id p hash
