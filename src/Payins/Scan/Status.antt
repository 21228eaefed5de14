-- ===== src/Payins/Scan/Status.antt =====
-- The status that `reconcilePayIn` computes, and the block from which it scans
-- (src/payins/payins.service.ts).
use avasettile.Common.{
  ℕ, ◌+◌, ◌≤◌, ◌<◌, ◌≡◌, ◌↔◌, Bool, true, none, some, List, [], ◌∷◌, arith, All, length, ◌⊎◌, ltb,
  if◌then◌else◌,
}
use avasettile.Records.PayIn.{PayInTransferRecord, PayInStatus, same_status}
use avasettile.Payins.Scan.{status_of, resume_from, latest_block_of, enough_confirmations}

-- `reconcilePayIn` computes the status confirmed exactly when something was received, the total is
-- the expected amount, and there are enough confirmations.
pub status_of-confirmed :
    (total expected : ℕ) (enough past : Bool)
    → (same_status (status_of total expected enough past) PayInStatus.confirmed ≡ true)
      ↔ ((0 < total) × (total ≡ expected) × (enough ≡ true))
status_of-confirmed total expected enough past = ground arith

-- For a last scanned block that is not before the one before the start, the next scan starts at or
-- after the start block, and at most one block after the last scanned one, so that no block is left
-- out; and it reads at most 30 scanned blocks again, unless it starts at the start block.
pub resume_from-no_gap :
    (start last : ℕ)
    → start ≤ last + 1
    → (start ≤ resume_from start (some last))
      × (resume_from start (some last) ≤ last + 1)
      × ((resume_from start (some last) ≡ start) ⊎ (last + 1 ≤ resume_from start (some last) + 30))
resume_from-no_gap start last le = ground arith

latest_block_of-bounds :
    (b : ℕ) (ts : List PayInTransferRecord) (min latest : ℕ)
    → enough_confirmations min latest (latest_block_of (some b) ts) ≡ true
    → (b + min ≤ latest) × All (λ (t : PayInTransferRecord). t.block_number + min ≤ latest) ts
latest_block_of-bounds b [] min latest h = ground arith
latest_block_of-bounds b (t ∷ ts) min latest h =
    let (fits, rest) =
      latest_block_of-bounds (if ltb b t.block_number then t.block_number else b) ts min latest h in
    ground arith

-- If the confirmations are enough by the test of `reconcilePayIn`, then there is a transfer, and
-- every transfer lies at least the minimum of confirmations below the latest block.
pub enough_confirmations-All :
    (ts : List PayInTransferRecord) (min latest : ℕ)
    → enough_confirmations min latest (latest_block_of none ts) ≡ true
    → (0 < length ts) × All (λ (t : PayInTransferRecord). t.block_number + min ≤ latest) ts
enough_confirmations-All [] min latest h = cc
enough_confirmations-All (t ∷ ts) min latest h =
    let (fits, rest) = latest_block_of-bounds t.block_number ts min latest h in
    (omega arith, (fits, rest))
