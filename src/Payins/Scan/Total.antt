-- ===== src/Payins/Scan/Total.antt =====
-- The stored transfers of a pay-in against those of the chain, over the incremental scans of
-- `reconcilePayIn` (src/payins/payins.service.ts).
use avasettile.Common.{
  ℕ, ◌+◌, ◌-◌, ◌≤◌, ◌≡◌, ◌∙◌, ap, some, List, [], ◌∷◌, ◌++◌, arith, All, sum_of-append,
}
use avasettile.Records.PayIn.{PayInTransferRecord}
use avasettile.Payins.Scan.{
  TransferKey, transfer_key, set_all, merge_transfers, total_received, resume_from,
}
use avasettile.Payins.Scan.Keys.{
  lookup, NoRepeat, IsStored, IsNewTo, set_all-stored, set_all-append, set_all-new, lookup-append,
  NoRepeat-split, NoRepeat-join, NoRepeat-IsStored,
}
use avasettile.Payins.Scan.Sorted.{total-sort_by, lookup-sort_by, NoRepeat-sort_by}
use avasettile.Blockchain.Coverage.{blocks_from, logs_between, blocks_from-cut}
use avasettile.Payins.Scan.Status.{resume_from-no_gap}

-- The stored transfers are those of the chain, each once, in some order.
abbrev pub IsRecordOf : List PayInTransferRecord → List PayInTransferRecord → Type 0
IsRecordOf chain ts =
    NoRepeat ts
    × ((k : TransferKey) → lookup k ts ≡ lookup k chain)
    × (total_received ts ≡ total_received chain)

IsStored-elsewhere :
    (us vs ts : List PayInTransferRecord)
    → ((k : TransferKey) → lookup k vs ≡ lookup k us)
    → All (IsStored us) ts
    → All (IsStored vs) ts
IsStored-elsewhere us vs [] same h = tt
IsStored-elsewhere us vs (t ∷ ts) same (h, hs) =
    (same (transfer_key t) ∙ h, IsStored-elsewhere us vs ts same hs)

new-elsewhere :
    (us vs ts : List PayInTransferRecord)
    → ((k : TransferKey) → lookup k vs ≡ lookup k us)
    → All (IsNewTo us) ts
    → All (IsNewTo vs) ts
new-elsewhere us vs [] same h = tt
new-elsewhere us vs (t ∷ ts) same (h, hs) =
    (same (transfer_key t) ∙ h, new-elsewhere us vs ts same hs)

All-end :
    (P : PayInTransferRecord → Type 0) (us ts : List PayInTransferRecord)
    → All P (us ++ ts)
    → All P ts
All-end P [] ts h = h
All-end P (u ∷ us) ts (_, h) = All-end P us ts h

-- Merging what was scanned again changes nothing, and merging what is new adds it.
merge-overlap :
    (old overlap fresh ts : List PayInTransferRecord)
    → NoRepeat ((old ++ overlap) ++ fresh)
    → IsRecordOf (old ++ overlap) ts
    → (set_all [] (ts ++ (overlap ++ fresh)) ≡ ts ++ fresh) × NoRepeat (ts ++ fresh)
merge-overlap old overlap fresh ts distinct (alone, same, total) =
    let (new, fresh_alone, old_alone) = NoRepeat-split (old ++ overlap) fresh distinct in
    let all_stored = NoRepeat-IsStored (old ++ overlap) old_alone in
    let overlap_stored =
      IsStored-elsewhere (old ++ overlap) ts overlap same (All-end _ old overlap all_stored) in
    let joined =
      NoRepeat-join ts fresh alone fresh_alone (new-elsewhere (old ++ overlap) ts fresh same new) in
    (
      set_all-append [] ts (overlap ++ fresh)
          ∙ ap (λ us. set_all us (overlap ++ fresh)) (set_all-new [] ts alone)
          ∙ set_all-append ts overlap fresh
          ∙ ap (λ us. set_all us fresh) (set_all-stored ts overlap overlap_stored)
          ∙ set_all-new ts fresh joined,
      joined,
    )

merge-IsRecordOf :
    (old overlap fresh ts : List PayInTransferRecord)
    → NoRepeat ((old ++ overlap) ++ fresh)
    → IsRecordOf (old ++ overlap) ts
    → IsRecordOf ((old ++ overlap) ++ fresh) (merge_transfers ts (overlap ++ fresh))
merge-IsRecordOf old overlap fresh ts distinct (alone, same, total) =
    let (merged, joined) = merge-overlap old overlap fresh ts distinct (alone, same, total) in
    let by_key : ((k : TransferKey)
        → lookup k (ts ++ fresh) ≡ lookup k ((old ++ overlap) ++ fresh)) =
      λ k. lookup-append k ts (old ++ overlap) fresh (same k) in
    let parts = sum_of-append (λ (t : PayInTransferRecord). t.amount_atomic) ts fresh in
    let parts' =
      sum_of-append (λ (t : PayInTransferRecord). t.amount_atomic) (old ++ overlap) fresh in
    rw merged (
      NoRepeat-sort_by (ts ++ fresh) joined,
      (λ k. lookup-sort_by k (ts ++ fresh) joined ∙ by_key k),
      total-sort_by (ts ++ fresh) ∙ omega (arith, parts, parts', total),
    )

-- The same with the parts in one.
merge_of_parts :
    (before scan after old overlap fresh ts : List PayInTransferRecord)
    → before ≡ old ++ overlap
    → scan ≡ overlap ++ fresh
    → after ≡ before ++ fresh
    → NoRepeat after
    → IsRecordOf before ts
    → IsRecordOf after (merge_transfers ts scan)
merge_of_parts before scan after old overlap fresh ts at_before at_scan at_after distinct
      is_record =
    let at_after' = rw at_before at at_after in
    rw (at_after', at_scan)
      (merge-IsRecordOf old overlap fresh ts (rw at_after' at distinct) (rw at_before at is_record))

module _ (chain : ℕ → List PayInTransferRecord) where
  -- The transfers from the start block to the last scanned one.
  abbrev pub scanned : ℕ → ℕ → List PayInTransferRecord
  scanned start last = logs_between chain start last

  -- If the chain's transfers up to the latest block have no key twice, and what is stored is the
  -- record of the chain from the start block to the last scanned one, then after the next scan,
  -- from the block where `scanFromBlock` resumes to the latest block, and `mergeTransfers`, what is
  -- stored is the record of the chain from the start block to the latest: no transfer is lost, and
  -- none of those that are scanned again is counted twice.
  pub merge-incremental :
      (start last latest : ℕ) (ts : List PayInTransferRecord)
      → start ≤ last + 1
      → last ≤ latest
      → NoRepeat (scanned start latest)
      → IsRecordOf (scanned start last) ts
      → IsRecordOf
          (scanned start latest)
          (merge_transfers ts (scanned (resume_from start (some last)) latest))
  merge-incremental start last latest ts le le' distinct is_record =
      let (ge, fits, _) = resume_from-no_gap start last le in
      let r = resume_from start (some last) in
      merge_of_parts (scanned start last) (scanned r latest) (scanned start latest)
        (blocks_from chain start (r - start)) (blocks_from chain r (last + 1 - r))
        (blocks_from chain (last + 1) (latest + 1 - (last + 1))) ts
        (blocks_from-cut chain start r (last + 1) ge fits)
        (blocks_from-cut chain r (last + 1) (latest + 1) fits (omega arith))
        (blocks_from-cut chain start (last + 1) (latest + 1) le (omega arith)) distinct is_record
