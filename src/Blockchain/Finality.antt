-- ===== src/Blockchain/Finality.antt =====
-- When `reconcileTransaction` calls a transaction final (src/blockchain/blockchain.service.ts).
use avasettile.Common.{ℕ, ◌+◌, ◌≤◌, ◌≡◌, ◌↔◌, ◌⊎◌, true, arith}
use avasettile.World.{Config, Viem, Receipt}
use avasettile.Blockchain.Rail.{receipt_reconciliation}

-- A transaction with a receipt is finalized exactly when it succeeded and its block lies at least
-- the configured minimum of confirmations below the latest block, or the minimum is 0.
pub receipt_reconciliation-finalized :
    (config : Config) (viem : Viem) (receipt : Receipt) (latest : ℕ)
    → ((receipt_reconciliation config viem receipt latest).finalized ≡ true) ↔ (
        (receipt.success ≡ true)
        × ((config.min_confirmations ≡ 0)
            ⊎ (receipt.block_number + config.min_confirmations ≤ latest)))
receipt_reconciliation-finalized config viem receipt latest = ground arith
