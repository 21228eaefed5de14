-- ===== src/Webhooks/Claims.antt =====
-- Which rows the dispatcher claims (src/webhooks/webhook.service.ts).
use avasettile.Common.{
  ℕ, ◌+◌, ◌≤◌, Bool, true, false, ◌&&◌, ◌≡◌, ◌∙◌, refl, ap, sym, inl, inr, Bool-cases, Option-cases,
  List, [], ◌∷◌, map, take, filter, sort_by, any, member, length, leb, ltb, ◌==◌, arith, any-filter,
  any-sort_by, any-take, both, ◌⊎◌, length-take-le, member-map, length-map, ==_iff,
}
use avasettile.Common.Table.{find_row, key-find_row}
use avasettile.Records.Outbox.{OutboxStatus, OutboxRow, outbox_key}
use avasettile.World.{World}
use avasettile.Webhooks.Outbox.{
  claim, claim_row, due_ids, is_pending, is_due, rows_of, recover_row, stuck_delivery_timeout,
}

-- Some row has the id and is due.
abbrev pub has_due : (now i : ℕ) → List OutboxRow → Bool
has_due now i rows = any (λ (r : OutboxRow). (r.id == i) && is_due now r) rows

due_ids-due :
    (now batch i : ℕ) (rows : List OutboxRow)
    → member i (due_ids now batch rows) ≡ true
    → has_due now i rows ≡ true
due_ids-due now batch i rows h =
    let before = λ (a b : OutboxRow). leb a.next_attempt_at b.next_attempt_at in
    let due = filter (is_due now) rows in
    let named = λ (r : OutboxRow). r.id == i in
    let in_taken = sym (member-map outbox_key i (take batch (sort_by before due))) ∙ h in
    let in_sorted = any-take named batch (sort_by before due) in_taken in
    sym (any-filter named (is_due now) rows) ∙ sym (any-sort_by named before due) ∙ in_sorted

rows_of-member :
    (rows : List OutboxRow) (ids : List ℕ) (i : ℕ)
    → member i (map outbox_key (rows_of rows ids)) ≡ true
    → member i ids ≡ true
rows_of-member rows [] i h = h
rows_of-member rows (j ∷ ids) i h = elim (Option-cases (find_row outbox_key j rows)) [
  | inl e ↦ ground (arith, rows_of-member rows ids i, rw (e, rows_of) at h)
  | inr (r, e) ↦
      ground
        (arith, rows_of-member rows ids i, key-find_row outbox_key j rows r e, rw (e, rows_of) at h)
]

length-rows_of-le : (rows : List OutboxRow) (ids : List ℕ) → length (rows_of rows ids) ≤ length ids
length-rows_of-le rows [] = omega arith
length-rows_of-le rows (j ∷ ids) = elim (Option-cases (find_row outbox_key j rows)) [
  | inl e ↦ rw (e, rows_of) (omega (arith, length-rows_of-le rows ids))
  | inr (r, e) ↦ rw (e, rows_of) (omega (arith, length-rows_of-le rows ids))
]

-- A row with that id is pending, and its next attempt is due.
abbrev pub HasDue : (now i : ℕ) → List OutboxRow → Type 0
HasDue now i [] = ⊥
HasDue now i (r ∷ rows) =
    ((r.id ≡ i) × (r.status ≡ OutboxStatus.pending) × (r.next_attempt_at ≤ now)) ⊎ HasDue now i rows

is_pending-pending : (s : OutboxStatus) → is_pending s ≡ true → s ≡ OutboxStatus.pending
is_pending-pending OutboxStatus.pending h = refl
is_pending-pending OutboxStatus.delivering h = absurd (ground arith)
is_pending-pending OutboxStatus.delivered h = absurd (ground arith)
is_pending-pending OutboxStatus.failed h = absurd (ground arith)
is_pending-pending OutboxStatus.skipped h = absurd (ground arith)

has_due-HasDue : (now i : ℕ) (rows : List OutboxRow) → has_due now i rows ≡ true → HasDue now i rows
has_due-HasDue now i [] h = cc
has_due-HasDue now i (r ∷ rows) h = elim (Bool-cases ((r.id == i) && is_due now r)) [
  | inr other ↦ inr (has_due-HasDue now i rows (rw other at h))
  | inl due ↦
      let (named, ready) = both _ _ due in
      let (pending, reached) = both _ _ ready in
      inl ((==_iff r.id i).0 named, is_pending-pending r.status pending, ground arith)
]

pub HasDue-has_due :
    (now i : ℕ) (rows : List OutboxRow) → HasDue now i rows → has_due now i rows ≡ true
HasDue-has_due now i [] h = absurd h
HasDue-has_due now i (r ∷ rows) (inl (named, pending, reached)) =
    let waiting = ap is_pending pending in
    let in_time : leb r.next_attempt_at now ≡ true = ground arith in
    let here : ((r.id == i) && is_due now r) ≡ true =
      simp ((==_iff r.id i).1 named, waiting, in_time) refl in
    simp here refl
HasDue-has_due now i (r ∷ rows) (inr later) = ground (arith, HasDue-has_due now i rows later)

-- The claim of `dispatchDueEvents` returns at most as many rows as its batch size, and for the id of
-- each there was a pending row in the outbox whose next attempt was due.
pub claim-due :
    (now batch i : ℕ) (w : World)
    → member i (map outbox_key (claim now batch w).0) ≡ true
    → (length (claim now batch w).0 ≤ batch) × HasDue now i w.outbox
claim-due now batch i w h =
    let rows = (claim now batch w).1.outbox in
    let ids = due_ids now batch w.outbox in
    let before = λ (a b : OutboxRow). leb a.next_attempt_at b.next_attempt_at in
    let taken = take batch (sort_by before (filter (is_due now) w.outbox)) in
    (
      omega (
        arith,
        length-rows_of-le rows ids,
        length-map outbox_key taken,
        length-take-le batch (sort_by before (filter (is_due now) w.outbox)),
      ),
      has_due-HasDue now i w.outbox
          (due_ids-due now batch i w.outbox (rows_of-member rows ids i h)),
    )

-- A row that was claimed is not due again until it counts as stuck.
claim_row-delivering :
    (now later again : ℕ) (ids : List ℕ) (r : OutboxRow)
    → later ≤ now + stuck_delivery_timeout
    → member r.id ids ≡ true
    → is_due again (recover_row later (claim_row now ids r)) ≡ false
claim_row-delivering now later again ids r h m =
    let fresh : ltb (now + stuck_delivery_timeout) later ≡ false = ground arith in
    rw (m, fresh) refl

row_not_due :
    (now later again i : ℕ) (ids : List ℕ) (r : OutboxRow)
    → later ≤ now + stuck_delivery_timeout
    → member i ids ≡ true
    → (((recover_row later (claim_row now ids r)).id == i)
        && is_due again (recover_row later (claim_row now ids r)))
      ≡ false
row_not_due now later again i ids r h m =
    elim (Bool-cases ((recover_row later (claim_row now ids r)).id == i)) [
      | inr e ↦ rw e refl
      | inl e ↦
          let same_id : (recover_row later (claim_row now ids r)).id ≡ r.id = ground arith in
          let here : r.id ≡ i = sym same_id ∙ (==_iff _ i).0 e in
          rw e
            (claim_row-delivering now later again ids r h (ap (λ (x : ℕ). member x ids) here ∙ m))
    ]

claimed_not_due :
    (now later again i : ℕ) (ids : List ℕ) (rows : List OutboxRow)
    → later ≤ now + stuck_delivery_timeout
    → member i ids ≡ true
    → has_due again i (map (recover_row later) (map (claim_row now ids) rows)) ≡ false
claimed_not_due now later again i ids [] h m = refl
claimed_not_due now later again i ids (r ∷ rows) h m =
    rw (row_not_due now later again i ids r h m) (claimed_not_due now later again i ids rows h m)

-- Take a claim of `dispatchDueEvents` and, right after it, the recovery of stuck rows and the claim of
-- another dispatcher. If the recovery is made at most five minutes after the first claim, no id is
-- returned by both claims.
pub claims-disjoint :
    (now batch later again batch' i : ℕ) (w : World)
    → later ≤ now + stuck_delivery_timeout
    → member i (map outbox_key (claim now batch w).0) ≡ true
    → let w' = (claim now batch w).1 in
      let second =
        (claim again batch' (record w' { outbox = map (recover_row later) w'.outbox })).0 in
      member i (map outbox_key second) ≡ false
claims-disjoint now batch later again batch' i w h m =
    let ids = due_ids now batch w.outbox in
    let rows = map (claim_row now ids) w.outbox in
    let rows' = map (recover_row later) rows in
    let second =
      rows_of (map (claim_row again (due_ids again batch' rows')) rows')
        (due_ids again batch' rows') in
    elim (Bool-cases (member i (map outbox_key second))) [
      | inr no_row ↦ no_row
      | inl twice ↦ cc (
        due_ids-due again batch' i rows' (rows_of-member _ (due_ids again batch' rows') i twice),
        claimed_not_due now later again i ids w.outbox h (rows_of-member rows ids i m),
      )
    ]
