-- ===== src/Payins/Ledger.antt =====
-- The statements of src/payins/payin-ledger.service.ts, and `claimNextPayInIndex` of
-- src/database/database.service.ts.
use avasettile.Common.{
  ℕ, ◌+◌, ◌*◌, Bool, true, false, String, Option, none, some, List, [], ◌∷◌, ◌++◌, any, filter,
  take, drop, sort_by, or_default, ltb, leb, str_eq, if◌then◌else◌, ◌&&◌,
}
use avasettile.Common.Table.{find_row, update_row}
use avasettile.Effect.{
  database_error, conflict_without_record, Result, ok, err, pure, throw, call, from_result, ◌>>=◌,
}
use avasettile.Records.PayIn.{
  PayInRecord, PayInStatus, PayInSweepStatus, PayInPatch, payin_key, same_status, same_sweep_status,
  apply_patch,
}
use avasettile.World.{World, Handler, query}
use avasettile.Payouts.Ledger.{same_client, not_distinct, in_scope}

abbrev pub scoped : Option ℕ → Option PayInRecord → Option PayInRecord
scoped scope none = none
scoped scope (some p) = if in_scope scope p.client_id then some p else none

unfoldable pub find_by_id : ℕ → Option ℕ → Handler (Option PayInRecord)
find_by_id id scope = call (query (λ _ w. (scoped scope (find_row payin_key id w.payins), w)))

abbrev first_match : (PayInRecord → Bool) → List PayInRecord → Option PayInRecord
first_match test [] = none
first_match test (p ∷ ps) = if test p then some p else first_match test ps

unfoldable pub find_by_external_id : Option ℕ → String → Handler (Option PayInRecord)
find_by_external_id client_id external_id = call (
    query (λ _ w. (
      first_match (λ p. str_eq p.external_id external_id && not_distinct p.client_id client_id)
          w.payins,
      w,
    )))

-- `INSERT … ON CONFLICT (client_id, external_id) DO NOTHING RETURNING …`
abbrev pub conflicts : PayInRecord → PayInRecord → Bool
conflicts record' p =
    same_client p.client_id record'.client_id && str_eq p.external_id record'.external_id

abbrev pub insert_payin : PayInRecord → World → Result (Option PayInRecord) × World
insert_payin p w =
    if any (conflicts p) w.payins then (ok none, w) else elim (find_row payin_key p.id w.payins) [
      | some _ ↦ (err database_error, w)
      | none ↦ (ok (some p), record w { payins = w.payins ++ p ∷ [] })
    ]

abbrev pub existing_or_throw : Option PayInRecord → Handler (PayInRecord × Bool)
existing_or_throw none = throw conflict_without_record
existing_or_throw (some p) = pure (p, true)

abbrev pub created_or_existing : PayInRecord → Option PayInRecord → Handler (PayInRecord × Bool)
created_or_existing p (some q) = pure (q, false)
created_or_existing p none = find_by_external_id p.client_id p.external_id >>= existing_or_throw

-- The record, and whether it existed.
unfoldable pub create_or_get_existing : PayInRecord → Handler (PayInRecord × Bool)
unfolding find_by_external_id
create_or_get_existing p = do
  inserted ← call (query (λ _ w. insert_payin p w))
  row ← from_result inserted
  created_or_existing p row

-- `PayInUpdateGuard`
pub record Guard : Type 0 where
  pub expected_status : Option (List PayInStatus)
  pub expected_sweep_status : Option (List PayInSweepStatus)

abbrev pub no_guard : Guard
no_guard = record { expected_status = none; expected_sweep_status = none }

-- `WHERE id = $1 AND status = ANY($n) AND sweep_status = ANY($n)`
abbrev pub permitted : Guard → PayInRecord → Bool
permitted guard p =
    elim guard.expected_status [ none ↦ true | some expected ↦ any (same_status p.status) expected ]
    && elim guard.expected_sweep_status [
      | none ↦ true
      | some expected ↦ any (same_sweep_status p.sweep_status) expected
    ]

abbrev pub update_found :
    ℕ → PayInPatch → Guard → World → Option PayInRecord → Option PayInRecord × World
update_found now patch guard w none = (none, w)
update_found now patch guard w (some p) =
    if permitted guard p
    then (
      some (apply_patch now patch p),
      record w { payins = update_row payin_key p.id (apply_patch now patch) w.payins },
    )
    else (none, w)

unfoldable pub update_payin : ℕ → PayInPatch → Guard → Handler (Option PayInRecord)
update_payin id patch guard =
    call (query (λ env w. update_found env.now patch guard w (find_row payin_key id w.payins)))

pub record Filters : Type 0 where
  pub client_id : Option ℕ
  pub status : Option PayInStatus
  pub external_id : Option String
  pub limit : Option ℕ
  pub offset : Option ℕ

abbrev pub meets : Filters → PayInRecord → Bool
meets filters p =
    in_scope filters.client_id p.client_id
    && elim filters.status [ none ↦ true | some s ↦ same_status p.status s ]
    && elim filters.external_id [ none ↦ true | some e ↦ str_eq p.external_id e ]

abbrev pub page_of : Filters → List PayInRecord → List PayInRecord
page_of filters ps = take (or_default filters.limit 200) (
    drop (or_default filters.offset 0)
      (sort_by (λ (a b : PayInRecord). leb b.created_at a.created_at) (filter (meets filters) ps)))

unfoldable pub list_payins : Filters → Handler (List PayInRecord)
list_payins filters = call (query (λ _ w. (page_of filters w.payins, w)))

-- `confirmed_at ASC NULLS LAST`
abbrev pub nulls_last : Option ℕ → Option ℕ → Bool
nulls_last (some a) (some b) = leb a b
nulls_last (some a) none = true
nulls_last none (some b) = false
nulls_last none none = true

abbrev pub is_sweep_candidate : (cooldown_minutes now : ℕ) → PayInRecord → Bool
is_sweep_candidate cooldown_minutes now p =
    same_status p.status PayInStatus.confirmed
    && any (same_sweep_status p.sweep_status)
        (PayInSweepStatus.pending ∷ PayInSweepStatus.failed ∷ [])
    && ltb (p.updated_at + cooldown_minutes * 60000) now

abbrev pub sweep_candidates : (limit cooldown_minutes now : ℕ) → List PayInRecord → List PayInRecord
sweep_candidates limit cooldown_minutes now ps = take limit (
    sort_by (λ (a b : PayInRecord). nulls_last a.confirmed_at b.confirmed_at)
      (filter (is_sweep_candidate cooldown_minutes now) ps))

unfoldable pub list_sweep_retry_candidates :
    (limit cooldown_minutes : ℕ) → Handler (List PayInRecord)
list_sweep_retry_candidates limit cooldown_minutes =
    call (query (λ env w. (sweep_candidates limit cooldown_minutes env.now w.payins, w)))

-- The stored key is `client:key`, or `global:key`; here it is the pair.
abbrev same_key : Option ℕ × String → Option ℕ × String → Bool
same_key (c, k) (d, l) = not_distinct c d && str_eq k l

abbrev record_of_key : Option ℕ × String → List ((Option ℕ × String) × ℕ) → Option ℕ
record_of_key key [] = none
record_of_key key ((k, id) ∷ rows) = if same_key k key then some id else record_of_key key rows

abbrev pub found_by_key : Option ℕ → Handler (Option PayInRecord)
found_by_key none = pure none
found_by_key (some id) = find_by_id id none

unfoldable pub find_by_idempotency_key : Option ℕ → String → Handler (Option PayInRecord)
unfolding find_by_id
find_by_idempotency_key client_id key = do
  id ← call (query (λ _ w. (record_of_key (client_id, key) w.idempotency_keys, w)))
  found_by_key id

abbrev store_key :
    Option ℕ × String → ℕ → List ((Option ℕ × String) × ℕ) → List ((Option ℕ × String) × ℕ)
store_key key id rows = elim (record_of_key key rows) [
  | some _ ↦ rows
  | none ↦ rows ++ (key, id) ∷ []
]

unfoldable pub store_idempotency_key : Option ℕ → String → ℕ → Handler (Unit {0})
store_idempotency_key client_id key id = call (
    query (λ _ w.
      (tt, record w { idempotency_keys = store_key (client_id, key) id w.idempotency_keys })))

-- The counter is raised and its former value returned, in one statement.
unfoldable pub claim_next_payin_index : Handler ℕ
claim_next_payin_index = call (
    query (λ _ w.
      (w.payin_address_index, record w { payin_address_index = w.payin_address_index + 1 })))
