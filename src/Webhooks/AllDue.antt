-- ===== src/Webhooks/AllDue.antt =====
-- The dispatcher leaves no due row behind (src/webhooks/webhook.service.ts).
use avasettile.Common.{
  ℕ, zero, suc, ◌≤◌, ◌<◌, true, ◌≡◌, ◌∙◌, refl, ap, inl, inr, Bool-cases, some, List, [], ◌∷◌, All,
  map, take, filter, sort_by, any, member, length, leb, ◌==◌, arith, any-filter, any-sort_by,
  member-map, length-map, ==_iff,
}
use avasettile.Common.Members.{All-map, All-filter_of, All-sort_by, All-take}
use avasettile.Common.Table.{find_row, find_row-map, key-find_row}
use avasettile.Records.Outbox.{OutboxRow, outbox_key}
use avasettile.World.{World}
use avasettile.Webhooks.Outbox.{claim, claim_row, due_ids, is_due, rows_of}
use avasettile.Webhooks.Claims.{HasDue, HasDue-has_due}
use mathlib.Core.Option

abbrev Found : List OutboxRow → ℕ → Type 0
Found rows i = (r : OutboxRow) × (find_row outbox_key i rows ≡ some r)

Found-cons : (x : OutboxRow) (rows : List OutboxRow) (i : ℕ) → Found rows i → Found (x ∷ rows) i
Found-cons x rows i (r, e) = elim (Bool-cases (x.id == i)) [
  | inl same ↦ (x, rw same refl)
  | inr other ↦ (r, rw other e)
]

Found-own : (rows : List OutboxRow) → All (λ (r : OutboxRow). Found rows r.id) rows
Found-own [] = tt
Found-own (x ∷ rows) = (
  (x, ground (arith, ==_iff x.id x.id)),
  All-map _ _ rows (λ r h. Found-cons x rows r.id h) (Found-own rows),
)

All-ids :
    (P : ℕ → Type 0) (rows : List OutboxRow)
    → All (λ (r : OutboxRow). P r.id) rows
    → All P (map outbox_key rows)
All-ids P [] h = tt
All-ids P (r ∷ rows) (h, hs) = (h, All-ids P rows hs)

Found-claimed :
    (now : ℕ) (ids : List ℕ) (rows : List OutboxRow) (i : ℕ)
    → Found rows i
    → Found (map (claim_row now ids) rows) i
Found-claimed now ids rows i (r, e) = (
  claim_row now ids r,
  find_row-map outbox_key (claim_row now ids) (λ q. ground arith) i rows
      ∙ ap (Option.map (claim_row now ids)) e,
)

Found-due_ids :
    (now batch : ℕ) (rows : List OutboxRow)
    → All (Found (map (claim_row now (due_ids now batch rows)) rows)) (due_ids now batch rows)
Found-due_ids now batch rows =
    let before = λ (a b : OutboxRow). leb a.next_attempt_at b.next_attempt_at in
    let due = filter (is_due now) rows in
    All-ids _ (take batch (sort_by before due)) (
      All-take _ batch (sort_by before due) (
        All-sort_by _ before due (
          All-filter_of _ (is_due now) rows (
            All-map _ _ rows (λ r h. Found-claimed now (due_ids now batch rows) rows r.id h)
              (Found-own rows)))))

rows_of_complete :
    (rows : List OutboxRow) (ids : List ℕ) (i : ℕ)
    → All (Found rows) ids
    → (length ids ≤ length (rows_of rows ids))
      × (member i ids ≡ true → member i (map outbox_key (rows_of rows ids)) ≡ true)
rows_of_complete rows [] i h = (omega arith, λ m. m)
rows_of_complete rows (j ∷ ids) i ((r, e), h) =
    let (le, kept) = rows_of_complete rows ids i h in
    let named = key-find_row outbox_key j rows r e in
    (
      rw (e, rows_of) (omega (arith, le)),
      λ m.
          rw (e, rows_of)
            (elim (Bool-cases (j == i)) [
              | inl same ↦ ground (arith, named, same)
              | inr other ↦ ground (arith, kept (rw other at m))
            ]),
    )

take-whole : {A : Type 0} (n : ℕ) (xs : List A) → length (take n xs) < n → take n xs ≡ xs
take-whole zero xs h = absurd (omega arith)
take-whole (suc n) [] h = refl
take-whole (suc n) (x ∷ xs) h = ap (λ ys. x ∷ ys) (take-whole n xs (omega arith))

-- If the claim of `dispatchDueEvents` returns fewer rows than its batch size, then it returns one with
-- the id of each pending row of the outbox whose next attempt is due.
pub claim-all_due :
    (now batch i : ℕ) (w : World)
    → length (claim now batch w).0 < batch
    → HasDue now i w.outbox
    → member i (map outbox_key (claim now batch w).0) ≡ true
claim-all_due now batch i w few due =
    let before = λ (a b : OutboxRow). leb a.next_attempt_at b.next_attempt_at in
    let named = λ (r : OutboxRow). r.id == i in
    let waiting = filter (is_due now) w.outbox in
    let ids = due_ids now batch w.outbox in
    let (le, kept) =
      rows_of_complete (map (claim_row now ids) w.outbox) ids i
        (Found-due_ids now batch w.outbox) in
    let whole =
      take-whole batch (sort_by before waiting)
        (omega (arith, le, few, length-map outbox_key (take batch (sort_by before waiting)))) in
    kept (
      member-map outbox_key i (take batch (sort_by before waiting))
      ∙ ap (any named) whole
      ∙ any-sort_by named before waiting
      ∙ any-filter named (is_due now) w.outbox
      ∙ HasDue-has_due now i w.outbox due)
