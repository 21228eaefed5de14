-- ===== src/Payouts/Exclusive.antt =====
-- What the insert of src/payouts/payout-ledger.service.ts promises to requests that race: one row is
-- made for an external id.
use avasettile.Common.{
  ℕ, ◌≡◌, refl, Bool, true, none, some, List, [], ◌∷◌, ◌++◌, arith, any, str_eq, Bool-cases,
  Option-cases, inl, inr,
}
use avasettile.Common.Table.{find_row}
use avasettile.Effect.{ok}
use avasettile.Records.Payout.{PayoutRecord, payout_key}
use avasettile.World.{World}
use avasettile.Payouts.Ledger.{insert_payout, conflicts}

any-append_last :
    (test : PayoutRecord → Bool) (ps : List PayoutRecord) (p : PayoutRecord)
    → test p ≡ true
    → any test (ps ++ p ∷ []) ≡ true
any-append_last test [] p h = rw h refl
any-append_last test (q ∷ ps) p h = ground (arith, any-append_last test ps p h)

-- If a payout of a client has been inserted, then the next insert of a payout with the same
-- client and external id finds the conflict and changes nothing.
pub insert_payout-once :
    (p q : PayoutRecord) (client : ℕ) (w : World)
    → p.client_id ≡ some client
    → q.client_id ≡ some client
    → str_eq p.external_id q.external_id ≡ true
    → (insert_payout p w).0 ≡ ok (some p)
    → insert_payout q (insert_payout p w).1 ≡ (ok none, (insert_payout p w).1)
insert_payout-once p q client w mine same_client' same_id inserted =
    elim (Bool-cases (any (conflicts p) w.payouts)) [
      | inl taken ↦ let never = rw taken at inserted in cc
      | inr free ↦ elim (Option-cases (find_row payout_key p.id w.payouts)) [
        | inr (r, used) ↦ let never = rw used at (rw free at inserted) in cc
        | inl unused ↦
            let hit : conflicts q p ≡ true = rw (mine, same_client') (rw same_id (ground arith)) in
            rw free (rw unused (rw (any-append_last (conflicts q) w.payouts p hit) refl))
      ]
    ]
