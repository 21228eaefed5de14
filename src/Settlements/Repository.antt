-- ===== src/Settlements/Repository.antt =====
-- The statements of src/settlements/settlements.repository.ts. The unique index on the client and the
-- external id lets rows with no client repeat, as SQL does.
use avasettile.Common.{
  ℕ, Bool, true, false, String, Option, none, some, List, [], ◌∷◌, ◌++◌, any, filter, take, drop,
  sort_by, leb, str_eq, if◌then◌else◌, ◌&&◌,
}
use avasettile.Common.Table.{find_row, update_row, delete_row}
use avasettile.Effect.{
  database_error, null_dereference, Result, ok, err, pure, throw, call, from_result, ◌>>=◌,
}
use avasettile.Records.Settlement.{
  PrivateSettlementRecord, settlement_key, SettlementPatch, apply_patch,
}
use avasettile.World.{World, Handler, query}
use avasettile.Payouts.Ledger.{same_client, in_scope}

-- `client_id = $1 AND external_id = $2`
abbrev pub same_settlement : Option ℕ → String → PrivateSettlementRecord → Bool
same_settlement client_id external_id s =
    same_client s.client_id client_id && str_eq s.external_id external_id

abbrev pub first_match :
    (PrivateSettlementRecord → Bool) → List PrivateSettlementRecord → Option PrivateSettlementRecord
first_match test [] = none
first_match test (s ∷ ss) = if test s then some s else first_match test ss

-- `INSERT … ON CONFLICT (client_id, external_id) DO NOTHING RETURNING …`; a primary key that is taken
-- is an error.
abbrev pub insert_settlement :
    PrivateSettlementRecord → World → Result (Option PrivateSettlementRecord) × World
insert_settlement s w =
    if any (same_settlement s.client_id s.external_id) w.settlements
    then (ok none, w)
    else elim (find_row settlement_key s.id w.settlements) [
      | some _ ↦ (err database_error, w)
      | none ↦ (ok (some s), record w { settlements = w.settlements ++ s ∷ [] })
    ]

-- `rowToRecord` of a row that is not there reads a field of `undefined`.
abbrev pub existing_row : Option PrivateSettlementRecord → Handler (PrivateSettlementRecord × Bool)
existing_row none = throw null_dereference
existing_row (some s) = pure (s, true)

abbrev pub inserted_or_existing :
    PrivateSettlementRecord
    → Option PrivateSettlementRecord
    → Handler (PrivateSettlementRecord × Bool)
inserted_or_existing s (some inserted) = pure (inserted, false)
inserted_or_existing s none =
    call (query (λ _ w. (first_match (same_settlement s.client_id s.external_id) w.settlements, w)))
    >>= existing_row

-- The record, and whether it existed.
unfoldable pub create_or_get_existing :
    PrivateSettlementRecord → Handler (PrivateSettlementRecord × Bool)
create_or_get_existing s = do
  inserted ← call (query (λ _ w. insert_settlement s w))
  row ← from_result inserted
  inserted_or_existing s row

abbrev pub scoped : Option ℕ → Option PrivateSettlementRecord → Option PrivateSettlementRecord
scoped scope none = none
scoped scope (some s) = if in_scope scope s.client_id then some s else none

unfoldable pub find_by_id : ℕ → Option ℕ → Handler (Option PrivateSettlementRecord)
find_by_id id scope =
    call (query (λ _ w. (scoped scope (find_row settlement_key id w.settlements), w)))

-- `ORDER BY created_at DESC LIMIT … OFFSET …`
abbrev pub page_of :
    Option ℕ → (limit offset : ℕ) → List PrivateSettlementRecord → List PrivateSettlementRecord
page_of scope limit offset ss = take limit (
    drop offset (
      sort_by (λ (a b : PrivateSettlementRecord). leb b.created_at a.created_at)
        (filter (λ (s : PrivateSettlementRecord). in_scope scope s.client_id) ss)))

unfoldable pub list_settlements :
    Option ℕ → (limit offset : ℕ) → Handler (List PrivateSettlementRecord)
list_settlements scope limit offset =
    call (query (λ _ w. (page_of scope limit offset w.settlements, w)))

abbrev pub update_found :
    ℕ
    → SettlementPatch
    → World
    → Option PrivateSettlementRecord
    → Option PrivateSettlementRecord × World
update_found now patch w none = (none, w)
update_found now patch w (some s) = (
  some (apply_patch now patch s),
  record w { settlements = update_row settlement_key s.id (apply_patch now patch) w.settlements },
)

unfoldable pub update_settlement : ℕ → SettlementPatch → Handler (Option PrivateSettlementRecord)
update_settlement id patch =
    call (query (λ env w. update_found env.now patch w (find_row settlement_key id w.settlements)))

unfoldable pub delete_settlement : ℕ → Handler (Unit {0})
delete_settlement id =
    call
      (query (λ _ w. (tt, record w { settlements = delete_row settlement_key id w.settlements })))
