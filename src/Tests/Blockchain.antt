-- ===== src/Tests/Blockchain.antt =====
-- A scan of two chunks, and a receipt (src/blockchain/blockchain.service.ts).
use avasettile.Common.{ℕ, ◌+◌, ◌≤◌, ◌≡◌, ◌↔◌, ◌⊎◌, true, List, [], ◌∷◌}
use avasettile.Effect.{pure}
use avasettile.World.{Receipt}
use avasettile.Blockchain.Rail.{receipt_reconciliation}
use avasettile.Blockchain.Paginate.{paginate_logs}
use avasettile.Blockchain.Coverage.{answer_between, logs_between, paginate_logs-whole_range}
use avasettile.Blockchain.Finality.{receipt_reconciliation-finalized}
use avasettile.Tests.Setup.{test_config, test_viem}

abbrev one_per_block : ℕ → List ℕ
one_per_block block = block ∷ []

paginate_logs-whole_range_example :
    paginate_logs (answer_between one_per_block) 5 2500 ≡ pure (logs_between one_per_block 5 2500)
paginate_logs-whole_range_example = paginate_logs-whole_range one_per_block 5 2500

abbrev receipt_at_10 : Receipt
receipt_at_10 = record { success = true; block_number = 10 }

receipt_reconciliation-finalized_example :
    ((receipt_reconciliation test_config test_viem receipt_at_10 13).finalized ≡ true)
    ↔ ((true ≡ true) × ((test_config.min_confirmations ≡ 0) ⊎ (10 + 3 ≤ 13)))
receipt_reconciliation-finalized_example =
    receipt_reconciliation-finalized test_config test_viem receipt_at_10 13
