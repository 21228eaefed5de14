-- ===== src/Payouts/Service/Defs.antt =====
-- Requests and responses, and the helpers and read paths of PayoutsService.
use avasettile.Common.{ℕ, Bool, false, String, Option, none, List, map}
use avasettile.Effect.{record_not_found, pure, or_throw, promise_all, ◌>>=◌}
use avasettile.Records.Common.{SettlementAsset, Json, AuditEvent, AuditEventType, RequestContext}
use avasettile.Records.Payout.{PayoutRecord}
use avasettile.World.{Handler, list_by_subject}
use avasettile.Payouts.Ledger.{find_by_id, find_by_external_id, list_payouts, Filters}

-- `CreatePayoutDto`
pub record CreatePayout : Type 0 where
  pub external_id : String
  pub amount : String
  pub asset : SettlementAsset
  pub beneficiary_address : ℕ
  pub beneficiary_name : Option String
  pub chain_flow_request_id : Option String
  pub memo : Option String
  pub metadata : Option Json
  pub execute_immediately : Bool

-- `AuthorizePayoutDto`
pub record AuthorizePayout : Type 0 where
  pub approved_by : Option String
  pub risk_decision_id : Option String
  pub notes : Option String

abbrev pub no_approval : AuthorizePayout
no_approval = record { approved_by = none; risk_decision_id = none; notes = none }

pub record TrailEntry : Type 0 where
  pub type : AuditEventType
  pub created_at : ℕ
  pub correlation_id : Option String

-- `PayoutResponse`
pub record PayoutResponse : Type 0 where
  pub payout : PayoutRecord
  pub idempotent_replay : Bool
  pub audit_trail : List TrailEntry

abbrev pub trail_entry : AuditEvent → TrailEntry
trail_entry e = record {
  type = e.type;
  created_at = e.created_at;
  correlation_id = e.actor.correlation_id;
}

unfoldable pub to_response : PayoutRecord → Bool → Handler PayoutResponse
to_response p replay = do
  trail ← list_by_subject p.id
  pure (record { payout = p; idempotent_replay = replay; audit_trail = map trail_entry trail })

unfoldable pub require_payout : ℕ → RequestContext → Handler PayoutRecord
require_payout id ctx = do or_throw (← find_by_id id ctx.client_id) record_not_found

unfoldable pub get_payout : ℕ → RequestContext → Handler PayoutResponse
unfolding require_payout to_response
get_payout id ctx = do to_response (← require_payout id ctx) false

unfoldable pub get_payout_by_external_id : String → RequestContext → Handler PayoutResponse
unfolding to_response
get_payout_by_external_id external_id ctx = do
  found ← find_by_external_id ctx.client_id external_id
  payout ← or_throw found record_not_found
  to_response payout false

-- `listPayouts`: the client of the context replaces that of the query.
unfoldable pub list_payout_responses : Filters → RequestContext → Handler (List PayoutResponse)
unfolding to_response
list_payout_responses filters ctx = do
  records ← list_payouts (record filters { client_id = ctx.client_id })
  promise_all (λ p. to_response p false) records
