-- ===== src/Payins/Scan.antt =====
-- `scanFromBlock`, `transferKey` and `mergeTransfers` of src/payins/payins.service.ts, and how the
-- status of a pay-in follows from its transfers.
use avasettile.Common.{
  ℕ, ◌+◌, ◌-◌, Bool, true, false, Option, none, some, List, [], ◌∷◌, ◌++◌, sum_of, sort_by, ltb,
  leb, if◌then◌else◌, ◌==◌, ◌&&◌,
}
use avasettile.Records.PayIn.{PayInRecord, PayInTransferRecord, PayInStatus}
pub mod Status
pub mod Keys
pub mod Sorted
pub mod Total

-- `RESCAN_OVERLAP_BLOCKS`
abbrev pub rescan_overlap_blocks : ℕ
rescan_overlap_blocks = 30

-- `resume > start ? resume : start`, where `resume` may be below 0: both sides are raised by the
-- overlap.
abbrev pub resume_from : ℕ → Option ℕ → ℕ
resume_from start none = start
resume_from start (some last) =
    if ltb (start + rescan_overlap_blocks) (last + 1)
    then last + 1 - rescan_overlap_blocks
    else start

abbrev pub scan_from_block : PayInRecord → ℕ
scan_from_block p = resume_from p.start_block p.last_scanned_block

-- The key is a text; the two forms differ in their number of colons.
pub data TransferKey : Type 0 where
  by_log : (hash log_index : ℕ) → TransferKey
  by_content : (hash from amount block : ℕ) → TransferKey

abbrev pub transfer_key : PayInTransferRecord → TransferKey
transfer_key t = elim t.log_index [
  | some index ↦ by_log t.hash index
  | none ↦ by_content t.hash t.from t.amount_atomic t.block_number
]

abbrev pub same_key : TransferKey → TransferKey → Bool
same_key (by_log h i) (by_log h' i') = h == h' && i == i'
same_key (by_content h f a b) (by_content h' f' a' b') = h == h' && f == f' && a == a' && b == b'
same_key _ _ = false

-- `byKey.set(transferKey(transfer), transfer)`: a key that is there keeps its place.
abbrev pub set_transfer : PayInTransferRecord → List PayInTransferRecord → List PayInTransferRecord
set_transfer t [] = t ∷ []
set_transfer t (u ∷ us) =
    if same_key (transfer_key u) (transfer_key t) then t ∷ us else u ∷ set_transfer t us

abbrev pub set_all : List PayInTransferRecord → List PayInTransferRecord → List PayInTransferRecord
set_all us [] = us
set_all us (t ∷ ts) = set_all (set_transfer t us) ts

-- Equal blocks stay in their order, since the comparison then puts the later one after.
abbrev pub no_later : PayInTransferRecord → PayInTransferRecord → Bool
no_later a b = leb a.block_number b.block_number

abbrev pub merge_transfers :
    List PayInTransferRecord → List PayInTransferRecord → List PayInTransferRecord
merge_transfers existing incoming = sort_by no_later (set_all [] (existing ++ incoming))

-- `totalReceivedAtomic`
abbrev pub total_received : List PayInTransferRecord → ℕ
total_received = sum_of (λ (t : PayInTransferRecord). t.amount_atomic)

-- `latestTransferBlock`
abbrev pub latest_block_of : Option ℕ → List PayInTransferRecord → Option ℕ
latest_block_of latest [] = latest
latest_block_of none (t ∷ ts) = latest_block_of (some t.block_number) ts
latest_block_of (some b) (t ∷ ts) =
    latest_block_of (some (if ltb b t.block_number then t.block_number else b)) ts

-- `enoughConfirmations`
abbrev pub enough_confirmations : (min_confirmations latest : ℕ) → Option ℕ → Bool
enough_confirmations min_confirmations latest none = false
enough_confirmations min_confirmations latest (some b) =
    ltb b latest && leb min_confirmations (latest - b)

abbrev pub is_expired : Option ℕ → ℕ → Bool
is_expired none now = false
is_expired (some at') now = ltb at' now

-- The status that `reconcilePayIn` computes.
abbrev pub status_of : (total expected : ℕ) → (enough expired : Bool) → PayInStatus
status_of total expected enough past =
    if total == 0
    then if past then PayInStatus.expired else PayInStatus.pending
    else if ltb total expected
    then PayInStatus.underpaid
    else if ltb expected total
    then PayInStatus.overpaid
    else if enough
    then PayInStatus.confirmed
    else PayInStatus.detected
