-- ===== src/Tests/Reconciliation.antt =====
-- A reconciliation run over one payout and one pay-in (src/reconciliation/reconciliation.service.ts).
use avasettile.Common.{map, inl, arith, ℕ, ◌≡◌, refl, false, some, [], ◌∷◌}
use avasettile.Effect.{ok, ◌>>=◌, call, promise_all, attempt}
use avasettile.Effect.Sequential.{trace}
use avasettile.Effect.Returns.{Returns}
use avasettile.Records.Payout.{PayoutRecord, PayoutStatus}
use avasettile.World.{World, Outside, list_by_subject}
use avasettile.Payouts.Ledger as Payouts
use avasettile.Payins.Ledger as Payins
use avasettile.Payouts.Service.{list_payout_responses, to_response}
use avasettile.Payins.Service.{list_payin_responses, to_payin_response}
use avasettile.Reconciliation.Service.{
  payin, Candidates, RunResult, find_open, find_candidates, check_candidates, run_reconciliation,
}
use avasettile.Reconciliation.Total.{
  subject, Answered, check_candidates-Returns, run_reconciliation-Answered,
}
use avasettile.Common.Some.{Some}
use avasettile.Reconciliation.Complete.{run_reconciliation-IsOpen}
use avasettile.Tests.Setup.{
  test_config, test_viem, test_context, fair_weather, one_payout, prepared_payout,
}
use avasettile.Tests.Payins.{underpaid_payin}

abbrev open_payout : PayoutRecord
open_payout = record prepared_payout {
  status = PayoutStatus.broadcasted;
  transaction_hash = some 77;
}

abbrev open_records : World
open_records = record one_payout {
  payouts = open_payout ∷ prepared_payout ∷ [];
  payins = underpaid_payin ∷ [];
}

abbrev found : Candidates
found = record {
  started_at = 1000;
  payouts = record { payout = open_payout; idempotent_replay = false; audit_trail = [] } ∷ [];
  payins = record { payin = underpaid_payin; idempotent_replay = false; audit_trail = [] } ∷ [];
}

abbrev calm : ℕ → Outside
calm n = fair_weather

found_candidates : (trace calm 0 (find_candidates test_context) open_records).0 ≡ ok found
unfolding trace find_candidates find_open ◌>>=◌ call promise_all attempt list_payout_responses
    list_payin_responses to_response to_payin_response list_by_subject Payouts.list_payouts
    Payins.list_payins
found_candidates = refl

check_candidates-Returns_example :
    Returns (check_candidates test_config test_viem test_context found) (Answered found)
check_candidates-Returns_example = check_candidates-Returns test_config test_viem test_context found

-- What the run answers.
answered_run :
    (result : RunResult) × ((trace calm 0
        (run_reconciliation test_config test_viem test_context)
        open_records).0
      ≡ ok result)
    × Answered found result
answered_run =
    run_reconciliation-Answered test_config test_viem test_context calm 0 open_records found
      found_candidates

run_reconciliation-IsOpen_example : Some (λ t. t ≡ (payin, 3)) (map subject answered_run.0.results)
run_reconciliation-IsOpen_example =
    run_reconciliation-IsOpen test_config test_viem test_context calm 0 open_records answered_run.0
      (payin, 3) (omega arith) (omega arith) answered_run.1 (inl (refl, tt, tt))
