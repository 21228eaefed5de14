-- ===== src/Payouts/AtMostOnce/Potential.antt =====
-- The potential of one payout: the legs that were sent for it, and one more while it may still be
-- claimed. A handler that claims it takes a token for that one, and pays with it for the broadcast
-- or for the release. How each statement of the ledger changes the potential.
use avasettile.Common.{
  ℕ, ◌+◌, ◌*◌, ◌≤◌, ==_iff, ◌≡◌, refl, Bool, true, false, ◌||◌, Option, none, some, List, arith,
  sum_of, if◌then◌else◌, ◌==◌, Option-cases, Bool-cases, inl, inr, sym, subst,
}
use avasettile.Common.Table.{find_row, find_row-update_row, key-find_row}
use avasettile.Records.Payout.{
  PayoutRecord, PayoutStatus, PayoutPatch, payout_key, prepared, authorized, same_status,
  apply_patch,
}
use avasettile.World.{World, Leg}
use avasettile.Payouts.Ledger.{permitted, update_found}

abbrev pub is_open : PayoutStatus → Bool
is_open s = same_status s prepared || same_status s authorized

-- A payout that is not yet sent has no transaction hash.
abbrev pub IsSound : PayoutRecord → Type 0
IsSound p = is_open p.status ≡ true → p.transaction_hash ≡ none

abbrev pub IsSoundRow : Option PayoutRecord → Type 0
IsSoundRow none = Unit
IsSoundRow (some p) = IsSound p

-- One while the payout may be claimed: it is prepared, or not yet there.
abbrev pub weight : PayoutRecord → ℕ
weight p = if same_status p.status prepared then 1 else 0

abbrev pub row_weight : Option PayoutRecord → ℕ
row_weight none = 1
row_weight (some p) = weight p

module _ (i : ℕ) where
  abbrev pub owns : ℕ → ℕ
  owns id = if id == i then 1 else 0

  -- How many legs were handed to the network for the payout.
  abbrev pub legs_of : List Leg → ℕ
  legs_of = sum_of (λ (l : Leg). owns l.payout)

  abbrev pub row_of : World → Option PayoutRecord
  row_of w = find_row payout_key i w.payouts

  abbrev pub Inv : World → Type 0
  Inv w = IsSoundRow (row_of w)

  pub potential : World → ℕ
  potential w = legs_of w.broadcasts + row_weight (row_of w)

  pub potential_lem : (w : World) → potential w ≡ legs_of w.broadcasts + row_weight (row_of w)
  unfolding potential
  potential_lem w = refl

-- A change that leaves the broadcasts alone shows in the row only.
pub potential_of_row :
    (i : ℕ) (w w' : World) (row : Option PayoutRecord)
    → row_of i w' ≡ row
    → w'.broadcasts ≡ w.broadcasts
    → potential i w' ≡ legs_of i w.broadcasts + row_weight row
unfolding potential
potential_of_row i w w' row at_row same = rw (at_row, same)

-- What an update makes of the row.
abbrev row_after :
    ℕ → PayoutPatch → Option (List PayoutStatus) → Option PayoutRecord → Option PayoutRecord
row_after now patch guard none = none
row_after now patch guard (some p) =
    if permitted guard p.status then some (apply_patch now patch p) else some p

module _ (now : ℕ) (patch : PayoutPatch) (guard : Option (List PayoutStatus)) where
  row_of-update_found :
      (i id : ℕ) (w : World)
      → row_of i (update_found now patch guard w (find_row payout_key id w.payouts)).1
        ≡ (if id == i then row_after now patch guard (row_of i w) else row_of i w)
  row_of-update_found i id w = elim (Option-cases (find_row payout_key id w.payouts)) [
    | inl missing ↦ rw missing (ground (arith, missing))
    | inr (p, found) ↦ rw found (
        ground (
          arith,
          found,
          key-find_row payout_key id w.payouts p found,
          find_row-update_row payout_key (apply_patch now patch) (λ r. refl) p.id i w.payouts,
        ))
  ]

  broadcasts-update_found :
      (w : World) (found : Option PayoutRecord)
      → (update_found now patch guard w found).1.broadcasts ≡ w.broadcasts
  broadcasts-update_found w none = refl
  broadcasts-update_found w (some p) = ground arith

  -- The update of another payout.
  pub other-Keeps :
      (i id : ℕ) (w : World)
      → (id == i) ≡ false
      → Inv i w
      → let s = update_found now patch guard w (find_row payout_key id w.payouts) in
        Inv i s.1 × (potential i s.1 ≤ potential i w)
  other-Keeps i id w ne sound =
      let at_row = rw ne at (row_of-update_found i id w) in
      let found = find_row payout_key id w.payouts in
      let s = update_found now patch guard w found in
      let total = potential_of_row i w s.1 (row_of i w) at_row (broadcasts-update_found w found) in
      (subst IsSoundRow (sym at_row) sound, omega (arith, total, potential_lem i w))

-- An update returns the row that it was asked for.
abbrev pub IsRowOf : ℕ → Option PayoutRecord → Type 0
IsRowOf id none = Unit
IsRowOf id (some p) = p.id ≡ id

pub update_found-IsRowOf :
    (now : ℕ) (patch : PayoutPatch) (guard : Option (List PayoutStatus)) (id : ℕ) (w : World)
    → IsRowOf id (update_found now patch guard w (find_row payout_key id w.payouts)).0
update_found-IsRowOf now patch guard id w = elim (Option-cases (find_row payout_key id w.payouts)) [
  | inl missing ↦ rw missing tt
  | inr (p, found) ↦ rw found (by_guard p (key-find_row payout_key id w.payouts p found))
]
  where
    by_guard :
        (p : PayoutRecord) → p.id ≡ id → IsRowOf id (update_found now patch guard w (some p)).0
    by_guard p same = elim (Bool-cases (permitted guard p.status)) [
      | inl granted ↦ rw granted same
      | inr refused ↦ rw refused tt
    ]

abbrev pub gained : ℕ → Option PayoutRecord → ℕ
gained gain none = 0
gained gain (some _) = gain

-- An update that keeps rows sound, frees at most `cost`, and takes at least `gain` where it is
-- applied, does so to the potential of its payout, and leaves that of any other alone.
module _ (patch : PayoutPatch) (guard : Option (List PayoutStatus)) (cost gain : ℕ)
    (allowed : (now : ℕ) (p : PayoutRecord)
      → IsSound p
      → permitted guard p.status ≡ true
      → IsSound (apply_patch now patch p)
        × (weight (apply_patch now patch p) + gain ≤ weight p + cost)) where
  row_after-allowed :
      (now : ℕ) (w : World) (row : Option PayoutRecord)
      → IsSoundRow row
      → IsSoundRow (row_after now patch guard row)
        × (row_weight (row_after now patch guard row)
              + gained gain (update_found now patch guard w row).0
            ≤ row_weight row + cost)
  row_after-allowed now w none sound = (tt, omega arith)
  row_after-allowed now w (some p) sound = elim (Bool-cases (permitted guard p.status)) [
    | inl yes' ↦ rw yes' (allowed now p sound yes')
    | inr no' ↦ rw no' (sound, omega arith)
  ]

  self-Keeps :
      (i now : ℕ) (w : World)
      → Inv i w
      → let s = update_found now patch guard w (find_row payout_key i w.payouts) in
        Inv i s.1 × (potential i s.1 + gained gain s.0 ≤ potential i w + cost)
  self-Keeps i now w sound =
      let after = row_of-update_found now patch guard i i w in
      let (sound', fewer) = row_after-allowed now w (row_of i w) sound in
      let at_row = rw ((==_iff i i).1 refl) at after in
      let s = update_found now patch guard w (row_of i w) in
      let total =
        potential_of_row i w s.1 (row_after now patch guard (row_of i w)) at_row
          (broadcasts-update_found now patch guard w (row_of i w)) in
      (subst IsSoundRow (sym at_row) sound', omega (arith, total, potential_lem i w, fewer))

  pub update_found-Keeps :
      (i id now : ℕ) (w : World)
      → Inv i w
      → let s = update_found now patch guard w (find_row payout_key id w.payouts) in
        Inv i s.1
        × (potential i s.1 + owns i id * gained gain s.0 ≤ potential i w + owns i id * cost)
  update_found-Keeps i id now w sound = elim (Bool-cases (id == i)) [
    | inl same ↦ rw same (
        rw ((==_iff id i).0 same)
          (let (sound', fewer) = self-Keeps i now w sound in (sound', omega (arith, fewer))))
    | inr ne ↦ rw ne (
        let (sound', fewer) = other-Keeps now patch guard i id w ne sound in
        (sound', omega (arith, fewer)))
  ]
