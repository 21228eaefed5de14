-- ===== src/Payouts/Ledger.antt =====
-- The statements of src/payouts/payout-ledger.service.ts. The unique index on the client and the
-- external id holds no two rows with a client, and lets rows with no client repeat, as SQL does.
use avasettile.Common.{
  ℕ, Bool, true, false, String, Option, none, some, List, [], ◌∷◌, ◌++◌, any, filter, take, drop,
  sort_by, or_default, leb, str_eq, if◌then◌else◌, ◌==◌, ◌&&◌,
}
use avasettile.Common.Table.{find_row, update_row}
use avasettile.Effect.{
  database_error, conflict_without_record, Result, ok, err, pure, throw, call, from_result, ◌>>=◌,
}
use avasettile.Records.Payout.{
  PayoutRecord, PayoutStatus, PayoutPatch, payout_key, status_in, same_status, apply_patch,
}
use avasettile.World.{World, Handler, query}

-- `client_id = $n`, which no row with a null client satisfies
abbrev pub same_client : Option ℕ → Option ℕ → Bool
same_client (some a) (some b) = a == b
same_client _ _ = false

-- `client_id IS NOT DISTINCT FROM $n`
abbrev pub not_distinct : Option ℕ → Option ℕ → Bool
not_distinct (some a) (some b) = a == b
not_distinct none none = true
not_distinct _ _ = false

-- A query with no client has no condition on it.
abbrev pub in_scope : Option ℕ → Option ℕ → Bool
in_scope none client = true
in_scope (some c) client = same_client client (some c)

abbrev pub scoped : Option ℕ → Option PayoutRecord → Option PayoutRecord
scoped scope none = none
scoped scope (some p) = if in_scope scope p.client_id then some p else none

unfoldable pub find_by_id : ℕ → Option ℕ → Handler (Option PayoutRecord)
find_by_id id scope = call (query (λ _ w. (scoped scope (find_row payout_key id w.payouts), w)))

abbrev pub first_match : (PayoutRecord → Bool) → List PayoutRecord → Option PayoutRecord
first_match test [] = none
first_match test (p ∷ ps) = if test p then some p else first_match test ps

unfoldable pub find_by_external_id : Option ℕ → String → Handler (Option PayoutRecord)
find_by_external_id client_id external_id = call (
    query (λ _ w. (
      first_match (λ p. str_eq p.external_id external_id && not_distinct p.client_id client_id)
          w.payouts,
      w,
    )))

-- `INSERT … ON CONFLICT (client_id, external_id) DO NOTHING RETURNING …`; a primary key that is
-- taken is an error.
abbrev pub conflicts : PayoutRecord → PayoutRecord → Bool
conflicts record' p =
    same_client p.client_id record'.client_id && str_eq p.external_id record'.external_id

abbrev pub insert_payout : PayoutRecord → World → Result (Option PayoutRecord) × World
insert_payout p w =
    if any (conflicts p) w.payouts
    then (ok none, w)
    else elim (find_row payout_key p.id w.payouts) [
      | some _ ↦ (err database_error, w)
      | none ↦ (ok (some p), record w { payouts = w.payouts ++ p ∷ [] })
    ]

-- The record, and whether it existed.
abbrev pub existing_or_throw : Option PayoutRecord → Handler (PayoutRecord × Bool)
existing_or_throw none = throw conflict_without_record
existing_or_throw (some p) = pure (p, true)

abbrev pub created_or_existing : PayoutRecord → Option PayoutRecord → Handler (PayoutRecord × Bool)
created_or_existing p (some q) = pure (q, false)
created_or_existing p none = find_by_external_id p.client_id p.external_id >>= existing_or_throw

unfoldable pub create_or_get_existing : PayoutRecord → Handler (PayoutRecord × Bool)
unfolding find_by_external_id
create_or_get_existing p = do
  inserted ← call (query (λ _ w. insert_payout p w))
  row ← from_result inserted
  created_or_existing p row

-- `WHERE id = $1 AND status = ANY($n)`; without a guard every status is permitted.
abbrev pub permitted : Option (List PayoutStatus) → PayoutStatus → Bool
permitted none s = true
permitted (some expected) s = status_in s expected

abbrev pub update_found :
    ℕ
    → PayoutPatch
    → Option (List PayoutStatus)
    → World
    → Option PayoutRecord
    → Option PayoutRecord × World
update_found now patch guard w none = (none, w)
update_found now patch guard w (some p) =
    if permitted guard p.status
    then (
      some (apply_patch now patch p),
      record w { payouts = update_row payout_key p.id (apply_patch now patch) w.payouts },
    )
    else (none, w)

unfoldable pub update_payout :
    ℕ → PayoutPatch → Option (List PayoutStatus) → Handler (Option PayoutRecord)
update_payout id patch guard =
    call (query (λ env w. update_found env.now patch guard w (find_row payout_key id w.payouts)))

pub record Filters : Type 0 where
  pub client_id : Option ℕ
  pub status : Option PayoutStatus
  pub external_id : Option String
  pub limit : Option ℕ
  pub offset : Option ℕ

abbrev pub meets : Filters → PayoutRecord → Bool
meets filters p =
    in_scope filters.client_id p.client_id
    && elim filters.status [ none ↦ true | some s ↦ same_status p.status s ]
    && elim filters.external_id [ none ↦ true | some e ↦ str_eq p.external_id e ]

-- `ORDER BY created_at DESC LIMIT … OFFSET …`
abbrev pub page_of : Filters → List PayoutRecord → List PayoutRecord
page_of filters ps = take (or_default filters.limit 200) (
    drop (or_default filters.offset 0)
      (sort_by (λ (a b : PayoutRecord). leb b.created_at a.created_at) (filter (meets filters) ps)))

unfoldable pub list_payouts : Filters → Handler (List PayoutRecord)
list_payouts filters = call (query (λ _ w. (page_of filters w.payouts, w)))
