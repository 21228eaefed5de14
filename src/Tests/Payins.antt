-- ===== src/Tests/Payins.antt =====
-- A pay-in with two transfers, one of which is scanned twice, and one that is accepted while it is
-- reconciled (src/payins/payins.service.ts).
use avasettile.Common.{
  none, zero, suc, true, false, ◌↔◌, ℕ, ◌+◌, ◌≤◌, ◌<◌, ◌≡◌, refl, ◌⊎◌, some, List, [], ◌∷◌, All,
  arith, if◌then◌else◌, ◌==◌, ◌||◌,
}
use avasettile.Blockchain.Coverage.{blocks_from}
use avasettile.Common.Int.{pos}
use avasettile.Common.Table.{find_row}
use avasettile.Effect.Pool.{Event, arrive, turn, run_pool}
use avasettile.Records.Common.{avalanche_fuji, usdc}
use avasettile.World.{World, Outside}
use avasettile.Payins.Confirmed.Row.{IsSoundRow}
use avasettile.Payins.Confirmed.Requests.{
  PayInRequest, accept, reconcile, serve, confirmed-IsSoundRow,
}
use avasettile.Tests.Setup.{test_config, test_viem, fair_weather, test_context, one_payout}
use avasettile.Records.PayIn.{
  PayInRecord, PayInSweepStatus, derived_address, payin_key, PayInTransferRecord, PayInStatus,
  same_status,
}
use avasettile.Payins.Scan.{status_of, merge_transfers, resume_from}
use avasettile.Payins.Scan.Total.{IsRecordOf, scanned, merge-incremental}
use avasettile.Payins.Scan.Status.{
  enough_confirmations-All, status_of-confirmed, resume_from-no_gap,
}

abbrev transfer_at : ℕ → PayInTransferRecord
transfer_at block = record {
  hash = block;
  log_index = some 0;
  from = 1;
  to = 2;
  amount = "1";
  amount_atomic = 1;
  block_number = block;
}

abbrev test_chain : ℕ → List PayInTransferRecord
test_chain block = if (block == 10) || (block == 12) then transfer_at block ∷ [] else []

merge-incremental_example :
    IsRecordOf
      (scanned test_chain 9 13)
      (merge_transfers (transfer_at 10 ∷ []) (scanned test_chain (resume_from 9 (some 11)) 13))
unfolding blocks_from
merge-incremental_example =
    merge-incremental test_chain 9 11 13 (transfer_at 10 ∷ []) (omega arith) (omega arith)
      (refl, (refl, tt)) ((refl, tt), (λ k. refl), refl)

enough_confirmations-All_example :
    (0 < 2)
    × All
        (λ (t : PayInTransferRecord). t.block_number + 3 ≤ 20)
        (transfer_at 10 ∷ transfer_at 12 ∷ [])
enough_confirmations-All_example =
    enough_confirmations-All (transfer_at 10 ∷ transfer_at 12 ∷ []) 3 20 refl

resume_from-no_gap_example :
    (9 ≤ resume_from 9 (some 111))
    × (resume_from 9 (some 111) ≤ 112)
    × ((resume_from 9 (some 111) ≡ 9) ⊎ (112 ≤ resume_from 9 (some 111) + 30))
resume_from-no_gap_example = resume_from-no_gap 9 111 (omega arith)

abbrev five : ℕ
five = 5

status_of-confirmed_example :
    (same_status (status_of five five true false) PayInStatus.confirmed ≡ true)
    ↔ ((0 < five) × (five ≡ five) × (true ≡ true))
status_of-confirmed_example = status_of-confirmed five five true false

abbrev pub underpaid_payin : PayInRecord
underpaid_payin = record {
  id = 3;
  client_id = none;
  external_id = "order-3";
  chain_flow_request_id = none;
  status = PayInStatus.underpaid;
  network = avalanche_fuji;
  chain_id = 43113;
  asset = usdc;
  token_address = 500;
  expected_amount = "5";
  expected_amount_atomic = 5;
  received_amount = "1";
  received_amount_atomic = 1;
  deposit_address = 1000;
  derivation_index = pos 0;
  collection_mode = derived_address;
  router_address = none;
  router_invoice_id = none;
  start_block = 9;
  last_scanned_block = some 11;
  expires_at = none;
  metadata = [];
  transfers = transfer_at 10 ∷ [];
  sweep_status = PayInSweepStatus.pending;
  sweep_transaction_hash = none;
  swept_amount = "0";
  swept_amount_atomic = 0;
  swept_at = none;
  sweep_failure_reason = none;
  created_at = 10;
  updated_at = 10;
  detected_at = some 10;
  confirmed_at = none;
  accepted_at = none;
  acceptance_note = none;
}

abbrev one_payin : World
one_payin = record one_payout { payins = underpaid_payin ∷ [] }

abbrev in_turns : ℕ → List (Event Outside PayInRequest)
in_turns zero = []
in_turns (suc n) = turn 0 fair_weather ∷ turn 1 fair_weather ∷ in_turns n

-- The pay-in is accepted by hand while it is reconciled.
abbrev accept_and_reconcile : List (Event Outside PayInRequest)
accept_and_reconcile =
    arrive (accept 3 none test_context) ∷ arrive (reconcile 3 test_context) ∷ in_turns 12

confirmed-IsSoundRow_example : IsSoundRow 5 (
    find_row payin_key 3
      (run_pool (serve test_config test_viem) accept_and_reconcile (one_payin, [])).0.payins)
confirmed-IsSoundRow_example =
    confirmed-IsSoundRow test_config test_viem 3 5 accept_and_reconcile one_payin (refl, λ c. cc)
