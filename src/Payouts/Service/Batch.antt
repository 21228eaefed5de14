-- ===== src/Payouts/Service/Batch.antt =====
-- `authorizePayoutBatch` (src/payouts/payouts.service.ts). The single updates of a `Promise.all`
-- are taken in the order of the batch.
use avasettile.Common.{
  ℕ, Bool, true, Option, none, some, List, [], ◌∷◌, ◌++◌, ltb, is_some, not, any, map, sum_of,
  erase_all, if◌then◌else◌,
}
use avasettile.Effect.{
  Error, vault_required, no_payout_ids, mixed_assets, not_prepared, insufficient_treasury_balance,
  claim_lost, broadcast_failed, null_dereference, is_conflict, pure, throw, try_catch, for_each,
  promise_all, ◌>>=◌, ◌>>◌,
}
use avasettile.Records.Common.{
  SettlementAsset, same_asset, text, flag, reason, number, AuditEventType, RequestContext,
}
use avasettile.Records.Payout.{
  PayoutRecord, PayoutPatch, prepared, authorized, no_patch, same_status,
}
use avasettile.World.{Config, Viem, Handler, get_now, record_event, to_audit_actor, throw_if}
use avasettile.Blockchain.Rail.{TransferExecution, get_asset_balance, vault_payout_batch}
use avasettile.Payouts.Ledger.{update_payout}
use avasettile.Payouts.Service.Defs.{AuthorizePayout, PayoutResponse, require_payout}
use avasettile.Payouts.Service.Authorize.{
  text_or_null, claim_patch, sent_patch, sent_event, release_patch, failure_patch, notify_confirmed,
  respond,
}

-- `[...new Set(payoutIds)]`
abbrev pub distinct : List ℕ → List ℕ
distinct [] = []
distinct (i ∷ is) = i ∷ erase_all i (distinct is)

abbrev pub leg_input : PayoutRecord → ℕ × ℕ × ℕ
leg_input p = (p.id, p.beneficiary_address, p.amount_atomic)

-- A status other than `prepared`.
abbrev pub is_unprepared : PayoutRecord → Bool
is_unprepared p = not (same_status p.status prepared)

abbrev pub rollback_patch : PayoutPatch
rollback_patch = record no_patch { status = some prepared }

-- `release_patch` or `failure_patch`
abbrev pub batch_failure_patch : Error → PayoutPatch
batch_failure_patch e = if is_conflict e then release_patch e else failure_patch e

module _ (config : Config) (viem : Viem) (dto : AuthorizePayout) (ctx : RequestContext) where
  -- The claimed legs are released, each if it is still authorized.
  unfoldable pub roll_back : List PayoutRecord → Handler (List (Option PayoutRecord))
  roll_back claimed =
      promise_all (λ (c : PayoutRecord). update_payout c.id rollback_patch (some (authorized ∷ [])))
        claimed

  -- The claiming loop; `claimed` is what it has claimed so far.
  unfoldable pub claim_all : ℕ → List PayoutRecord → List PayoutRecord → Handler (List PayoutRecord)
  unfolding roll_back
  claim_all now claimed [] = pure claimed
  claim_all now claimed (p ∷ ps) =
      update_payout p.id (claim_patch now) (some (prepared ∷ [])) >>= elim [
        | none ↦ roll_back claimed >> throw claim_lost
        | some c ↦ claim_all now (claimed ++ c ∷ []) ps
      ]

  abbrev pub audit_claim : PayoutRecord → Handler (Unit {0})
  audit_claim c = do
    record_event AuditEventType.payout_authorized c.id (to_audit_actor ctx dto.approved_by) (
        ("batch", flag true)
        ∷ ("riskDecisionId", text_or_null dto.risk_decision_id)
        ∷ ("notes", text_or_null dto.notes)
        ∷ [])
    pure tt

  -- One turn of the loop over the updated rows; a row that was not updated is `null`.
  abbrev pub audit_sent : TransferExecution → Option PayoutRecord → Handler (Unit {0})
  audit_sent exec none = throw null_dereference
  audit_sent exec (some u) = do
    record_event (sent_event exec.status) u.id (to_audit_actor ctx dto.approved_by)
        (("transactionHash", number exec.hash) ∷ ("rail", text "vault") ∷ ("batch", flag true) ∷ [])
    notify_confirmed exec.status (some u)

  -- The body of the `try` block.
  unfoldable pub send_batch :
      SettlementAsset → ℕ → List PayoutRecord → Handler (List (Option PayoutRecord))
  send_batch asset now claimed = do
    exec ← vault_payout_batch config viem asset (map leg_input claimed)
    updated ←
        promise_all
          (λ (c : PayoutRecord). update_payout c.id (sent_patch now exec) (some (authorized ∷ [])))
          claimed
    for_each (audit_sent exec) updated
    pure updated

  abbrev pub audit_failure : Error → PayoutRecord → Handler (Unit {0})
  audit_failure e c = do
    record_event AuditEventType.payout_failed c.id (to_audit_actor ctx dto.approved_by)
        (("failureReason", reason e) ∷ ("batch", flag true) ∷ [])
    pure tt

  -- The `catch` block.
  unfoldable pub batch_failed : List PayoutRecord → Error → Handler (List (Option PayoutRecord))
  batch_failed claimed e = do
    promise_all
        (λ (c : PayoutRecord). update_payout c.id (batch_failure_patch e) (some (authorized ∷ [])))
        claimed
    throw_if (is_conflict e) e
    promise_all (audit_failure e) claimed
    throw broadcast_failed

  unfoldable pub claim_and_send :
      SettlementAsset → List PayoutRecord → Handler (List PayoutResponse)
  unfolding claim_all send_batch batch_failed
  claim_and_send asset payouts = do
    now ← get_now
    claimed ← claim_all now [] payouts
    promise_all audit_claim claimed
    updated ← try_catch (send_batch asset now claimed) (batch_failed claimed)
    promise_all respond updated

  -- The checks on the payouts that were read, of which the first gives the asset.
  abbrev pub check_and_send : List PayoutRecord → Handler (List PayoutResponse)
  check_and_send [] = throw no_payout_ids
  check_and_send (first ∷ rest) = do
    throw_if (any (λ (p : PayoutRecord). not (same_asset p.asset first.asset)) (first ∷ rest))
        mixed_assets
    throw_if (any is_unprepared (first ∷ rest)) not_prepared
    balance ← get_asset_balance config viem first.asset
    throw_if (ltb balance (sum_of (λ (p : PayoutRecord). p.amount_atomic) (first ∷ rest)))
        insufficient_treasury_balance
    claim_and_send first.asset (first ∷ rest)

  -- With no ids nothing is read, and `check_and_send` throws what `ids.length === 0` throws.
  unfoldable pub authorize_payout_batch : List ℕ → Handler (List PayoutResponse)
  unfolding claim_and_send
  authorize_payout_batch payout_ids = do
    throw_if (not (is_some config.settlement_vault_address)) vault_required
    payouts ← promise_all (λ id. require_payout id ctx) (distinct payout_ids)
    check_and_send payouts
