-- ===== src/Payins/Scan/Sorted.antt =====
-- The sort of `mergeTransfers` (src/payins/payins.service.ts) moves transfers, and neither adds nor
-- drops any.
use avasettile.Common.{
  ◌+◌, ◌≡◌, refl, false, none, List, [], ◌∷◌, arith, insert_sorted, sort_by, Bool-cases, inl, inr,
  ◌∙◌,
}
use avasettile.Records.PayIn.{PayInTransferRecord}
use avasettile.Payins.Scan.{TransferKey, transfer_key, same_key, no_later, total_received}
use avasettile.Payins.Scan.Keys.{lookup, NoRepeat, same_key-both, same_key-sym, head_differs}

total-insert_sorted :
    (t : PayInTransferRecord) (us : List PayInTransferRecord)
    → total_received (insert_sorted no_later t us) ≡ t.amount_atomic + total_received us
total-insert_sorted t [] = refl
total-insert_sorted t (u ∷ us) = elim (Bool-cases (no_later t u)) [
  | inl before ↦ rw before refl
  | inr after ↦ rw after (omega (arith, total-insert_sorted t us))
]

pub total-sort_by :
    (us : List PayInTransferRecord) → total_received (sort_by no_later us) ≡ total_received us
total-sort_by [] = refl
total-sort_by (u ∷ us) =
    omega (arith, total-insert_sorted u (sort_by no_later us), total-sort_by us)

swapped :
    (k : TransferKey) (t u : PayInTransferRecord) (us : List PayInTransferRecord)
    → same_key (transfer_key u) (transfer_key t) ≡ false
    → lookup k (insert_sorted no_later t us) ≡ lookup k (t ∷ us)
    → lookup k (u ∷ insert_sorted no_later t us) ≡ lookup k (t ∷ u ∷ us)
swapped k t u us ne rest = elim (Bool-cases (same_key (transfer_key u) k)) [
  | inl hit ↦ elim (Bool-cases (same_key (transfer_key t) k)) [
    | inl hit' ↦ let both = same_key-both (transfer_key u) (transfer_key t) k hit hit' in cc
    | inr miss ↦ rw (hit, miss) refl
  ]
  | inr miss ↦ rw miss rest
]

lookup-insert_sorted :
    (k : TransferKey) (t : PayInTransferRecord) (us : List PayInTransferRecord)
    → lookup (transfer_key t) us ≡ none
    → lookup k (insert_sorted no_later t us) ≡ lookup k (t ∷ us)
lookup-insert_sorted k t [] new = refl
lookup-insert_sorted k t (u ∷ us) new = elim (Bool-cases (no_later t u)) [
  | inl before ↦ rw before refl
  | inr after ↦
      let (ne, new') = head_differs (transfer_key t) u us new in
      rw after (swapped k t u us ne (lookup-insert_sorted k t us new'))
]

pub lookup-sort_by :
    (k : TransferKey) (us : List PayInTransferRecord)
    → NoRepeat us
    → (lookup k (sort_by no_later us) ≡ lookup k us)
lookup-sort_by k [] h = refl
lookup-sort_by k (u ∷ us) (new, h) =
    let same = lookup-sort_by k us h in
    lookup-insert_sorted k u (sort_by no_later us) (lookup-sort_by (transfer_key u) us h ∙ new)
    ∙ rw same refl

NoRepeat-insert_sorted :
    (t : PayInTransferRecord) (us : List PayInTransferRecord)
    → lookup (transfer_key t) us ≡ none
    → NoRepeat us
    → NoRepeat (insert_sorted no_later t us)
NoRepeat-insert_sorted t [] new h = (refl, tt)
NoRepeat-insert_sorted t (u ∷ us) new (new', h) = elim (Bool-cases (no_later t u)) [
  | inl before ↦ rw before (new, (new', h))
  | inr after ↦
      let (ne, new'') = head_differs (transfer_key t) u us new in
      rw after (
        lookup-insert_sorted (transfer_key u) t us new''
            ∙ rw (same_key-sym (transfer_key t) (transfer_key u)) (rw ne new'),
        NoRepeat-insert_sorted t us new'' h,
      )
]

pub NoRepeat-sort_by :
    (us : List PayInTransferRecord) → NoRepeat us → NoRepeat (sort_by no_later us)
NoRepeat-sort_by [] h = tt
NoRepeat-sort_by (u ∷ us) (new, h) =
    NoRepeat-insert_sorted u (sort_by no_later us) (lookup-sort_by (transfer_key u) us h ∙ new)
      (NoRepeat-sort_by us h)
