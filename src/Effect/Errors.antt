-- ===== src/Effect/Errors.antt =====
-- What a handler throws, by the place that throws it; the exception class is read off by tests.
use avasettile.Common.{Bool, true, false}

pub data Error : Type 0 where
  -- `BadRequestException`
  invalid_amount payout_exceeds_max vault_required no_payout_ids mixed_assets : Error
  invalid_beneficiary router_has_no_invoice router_needs_no_top_up invalid_derivation_index : Error
  -- `ConflictException`
  insufficient_treasury_balance allowance_shortfall not_authorizable not_prepared : Error
  claim_lost no_transaction_hash not_acceptable update_lost : Error
  derived_signer_mismatch no_gas no_token_balance sweep_exceeds_balance no_avax : Error
  -- `NotFoundException`, `ServiceUnavailableException`, `BadGatewayException`
  record_not_found not_configured broadcast_failed : Error
  -- `UnauthorizedException`
  missing_api_key invalid_api_key admin_key_not_configured invalid_admin_api_key : Error
  -- an error of the database client, of the RPC client or of `fetch`
  database_error rpc_error network_error : Error
  -- a plain `Error`, and a `TypeError` from reading a field of `null`
  conflict_without_record malformed_amount null_dereference : Error
  -- not thrown: the text that `reconcilePayout` stores for a reverted transaction
  reverted_on_chain : Error

-- `error instanceof ConflictException`
abbrev pub is_conflict : Error → Bool
is_conflict insufficient_treasury_balance = true
is_conflict allowance_shortfall = true
is_conflict not_authorizable = true
is_conflict not_prepared = true
is_conflict claim_lost = true
is_conflict no_transaction_hash = true
is_conflict not_acceptable = true
is_conflict update_lost = true
is_conflict derived_signer_mismatch = true
is_conflict no_gas = true
is_conflict no_token_balance = true
is_conflict sweep_exceeds_balance = true
is_conflict no_avax = true
is_conflict _ = false
