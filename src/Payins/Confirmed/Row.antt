-- ===== src/Payins/Confirmed/Row.antt =====
-- What holds of the row of one pay-in, and how the statements of the ledger keep it
-- (src/payins/payin-ledger.service.ts).
use avasettile.Common.{
  ℕ, ◌≡◌, refl, sym, subst, ◌⊎◌, inl, inr, true, false, Option, none, some, [], ◌∷◌, ◌++◌, any,
  is_some, if◌then◌else◌, ◌==◌, ==_iff, Bool-cases, Option-cases,
}
use avasettile.Common.Table.{
  find_row, update_row, find_row-update_row, find_row-append, key-find_row,
}
use avasettile.Records.PayIn.{
  PayInRecord, PayInStatus, PayInPatch, payin_key, same_status, apply_patch,
}
use avasettile.World.{World}
use avasettile.Payins.Ledger.{Guard, permitted, update_found, insert_payin, conflicts}

-- A confirmed pay-in has a time of confirmation, and it was accepted by hand or its received total is
-- the expected amount.
abbrev pub IsSound : PayInRecord → Type 0
IsSound p =
    same_status p.status PayInStatus.confirmed ≡ true
    → (is_some p.confirmed_at ≡ true)
      × ((is_some p.accepted_at ≡ true) ⊎ (p.received_amount_atomic ≡ p.expected_amount_atomic))

-- The row is there, expects so much, and is sound.
abbrev pub IsSoundRow : ℕ → Option PayInRecord → Type 0
IsSoundRow expected none = false ≡ true
IsSoundRow expected (some p) = (p.expected_amount_atomic ≡ expected) × IsSound p

-- The patch keeps a row that expects so much sound, where its guard lets it through.
abbrev pub Allowed : ℕ → PayInPatch → Guard → Type 0
Allowed expected patch guard =
    (now : ℕ) (p : PayInRecord)
    → p.expected_amount_atomic ≡ expected
    → IsSound p
    → permitted guard p ≡ true
    → IsSound (apply_patch now patch p)

module _ (i expected : ℕ) where
  abbrev pub Inv : World → Type 0
  Inv w = IsSoundRow expected (find_row payin_key i w.payins)

  -- A table in which the row of the pay-in is unchanged.
  pub Inv-same :
      (w w' : World)
      → find_row payin_key i w'.payins ≡ find_row payin_key i w.payins
      → Inv w
      → Inv w'
  Inv-same w w' same inv = subst (IsSoundRow expected) (sym same) inv

  updated_row :
      (now : ℕ) (patch : PayInPatch) (guard : Guard) (p : PayInRecord) (row : Option PayInRecord)
      → row ≡ some p
      → permitted guard p ≡ true
      → Allowed expected patch guard
      → IsSoundRow expected row
      → IsSoundRow expected (some (apply_patch now patch p))
  updated_row now patch guard p row at_row granted allowed inv =
      let (same, sound) = rw at_row at inv in (same, allowed now p same sound granted)

  Inv-update_found_row :
      (now id : ℕ) (patch : PayInPatch) (guard : Guard) (w : World) (p : PayInRecord)
      → find_row payin_key id w.payins ≡ some p
      → permitted guard p ≡ true
      → ((id == i) ≡ true → Allowed expected patch guard)
      → Inv w
      → Inv (record w { payins = update_row payin_key p.id (apply_patch now patch) w.payins })
  Inv-update_found_row now id patch guard w p found granted allowed inv =
      let key = key-find_row payin_key id w.payins p found in
      let updated =
        find_row-update_row payin_key (apply_patch now patch) (λ r. refl) p.id i w.payins in
      elim (Bool-cases (id == i)) [
        | inl same ↦
            let found' = rw ((==_iff id i).0 same) at found in
            let same' : (p.id == i) ≡ true = rw key same in
            let at_row = rw (same', found') at updated in
            subst (IsSoundRow expected) (sym at_row) (
              updated_row now patch guard p (find_row payin_key i w.payins) found' granted
                (allowed same) inv)
        | inr ne ↦
            let ne' : (p.id == i) ≡ false = rw key ne in
            let at_row = rw ne' at updated in subst (IsSoundRow expected) (sym at_row) inv
      ]

  pub Inv-update_found :
      (now id : ℕ) (patch : PayInPatch) (guard : Guard) (w : World)
      → ((id == i) ≡ true → Allowed expected patch guard)
      → Inv w
      → Inv (update_found now patch guard w (find_row payin_key id w.payins)).1
  Inv-update_found now id patch guard w allowed inv =
      elim (Option-cases (find_row payin_key id w.payins)) [
        | inl missing ↦ rw missing inv
        | inr (p, found) ↦ rw found (elim (Bool-cases (permitted guard p)) [
          | inl granted ↦
              rw granted (Inv-update_found_row now id patch guard w p found granted allowed inv)
          | inr refused ↦ rw refused inv
        ])
      ]

  -- An insert does not touch a row that is there.
  pub Inv-insert_payin : (p : PayInRecord) (w : World) → Inv w → Inv (insert_payin p w).1
  Inv-insert_payin p w inv = elim (Bool-cases (any (conflicts p) w.payins)) [
    | inl taken ↦ rw taken inv
    | inr free ↦ rw free (elim (Option-cases (find_row payin_key p.id w.payins)) [
      | inr (r, used) ↦ rw used inv
      | inl unused ↦
          rw unused
            (appended (find_row payin_key i w.payins) (find_row-append payin_key i w.payins p) inv)
    ])
  ]
    where
      appended :
          (row : Option PayInRecord)
          → find_row payin_key i (w.payins ++ p ∷ [])
            ≡ elim row [ some q ↦ some q | none ↦ if p.id == i then some p else none ]
          → IsSoundRow expected row
          → IsSoundRow expected (find_row payin_key i (w.payins ++ p ∷ []))
      appended none at_row inv' = cc
      appended (some q) at_row inv' = subst (IsSoundRow expected) (sym at_row) inv'
