-- ===== src/Payins/Service/Defs.antt =====
-- Requests and responses, and the read paths of src/payins/payins.service.ts.
use avasettile.Common.{ℕ, Bool, false, String, Option, none, List, map}
use avasettile.Effect.{record_not_found, update_lost, pure, or_throw, promise_all, ◌>>=◌}
use avasettile.Records.Common.{SettlementAsset, Json, RequestContext}
use avasettile.Records.PayIn.{PayInRecord, PayInCollectionMode}
use avasettile.World.{Handler, list_by_subject}
use avasettile.Payouts.Service.{TrailEntry, trail_entry}
use avasettile.Payins.Ledger.{Filters, find_by_id, list_payins}

-- `CreatePayInDto`
pub record CreatePayIn : Type 0 where
  pub external_id : String
  pub amount : String
  pub asset : SettlementAsset
  pub collection_mode : Option PayInCollectionMode
  pub router_invoice_id : Option ℕ
  pub chain_flow_request_id : Option String
  pub expires_in_minutes : Option ℕ
  pub metadata : Option Json

-- `SweepPayInDto`, and the notes of `TopUpAndSweepDto`
pub record SweepPayIn : Type 0 where
  pub amount : Option String
  pub notes : Option String

-- `TopUpAndSweepDto`; `TopUpPayInDto` is its amount.
pub record TopUp : Type 0 where
  pub amount_avax : Option String
  pub notes : Option String

abbrev pub no_top_up : TopUp
no_top_up = record { amount_avax = none; notes = none }

-- `PayInResponse`
pub record PayInResponse : Type 0 where
  pub payin : PayInRecord
  pub idempotent_replay : Bool
  pub audit_trail : List TrailEntry

unfoldable pub to_payin_response : PayInRecord → Bool → Handler PayInResponse
to_payin_response p replay = do
  trail ← list_by_subject p.id
  pure (record { payin = p; idempotent_replay = replay; audit_trail = map trail_entry trail })

unfoldable pub require_payin : ℕ → RequestContext → Handler PayInRecord
require_payin id ctx = do or_throw (← find_by_id id ctx.client_id) record_not_found

-- `if (!updated) throw new ConflictException('Unable to update pay-in.')`
abbrev pub or_update_lost : Option PayInRecord → Handler PayInRecord
or_update_lost updated = or_throw updated update_lost

unfoldable pub get_payin : ℕ → RequestContext → Handler PayInResponse
unfolding require_payin to_payin_response
get_payin id ctx = do to_payin_response (← require_payin id ctx) false

unfoldable pub list_payin_responses : Filters → RequestContext → Handler (List PayInResponse)
unfolding to_payin_response
list_payin_responses filters ctx = do
  records ← list_payins (record filters { client_id = ctx.client_id })
  promise_all (λ p. to_payin_response p false) records
