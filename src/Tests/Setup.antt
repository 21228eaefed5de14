-- ===== src/Tests/Setup.antt =====
-- A configuration, answers of the outside, and rows for the tests.
use avasettile.Common.{true, false, Option, none, some, List, [], ◌∷◌, ◌+◌}
use avasettile.Common.Int.{pos}
use avasettile.Records.Common.{avalanche_fuji, usdc, RequestContext}
use avasettile.Records.Payout.{PayoutRecord, prepared}
use avasettile.World.{World, Outside, answered, sent, Config, Viem, AssetRuntimeConfig, Log}

abbrev pub usdc_config : AssetRuntimeConfig
usdc_config = record { address = some 500; decimals = 6; max_payout_amount = none }

abbrev pub test_config : Config
test_config = record {
  settlement_network = avalanche_fuji;
  chain_id = 43113;
  get_asset_config = λ _. usdc_config;
  treasury_account = some 900;
  vault_operator = none;
  has_mnemonic = true;
  settlement_vault_address = none;
  payment_router_address = none;
  private_settlement_registry_address = some 700;
  registrar_account = some 701;
  auditor_account = some 702;
  min_confirmations = 3;
  wait_for_receipt = false;
  payin_lookback_blocks = 5000;
  payin_default_expiration_minutes = some 60;
  auto_sweep = false;
  webhook_retry_attempts = 5;
}

abbrev pub test_viem : Viem
test_viem = record {
  parse_units = λ _ _. some (pos 5000000);
  format_units = λ _ _. "5";
  is_address = λ _. true;
  keccak_text = λ _. 1;
  keccak_words = λ _. 2;
  derive_address = λ index. 1000 + index;
}

abbrev pub no_logs : Option (List Log)
no_logs = some []

abbrev pub fair_weather : Outside
fair_weather = record {
  database = answered;
  now = 1000;
  uuid = 70;
  random_bytes = 41;
  block_number = some 100;
  token_balance = some 9000000;
  native_balance = some 1;
  funder = some 900;
  allowance = some 9000000;
  send = sent 77;
  receipt = none;
  logs = λ _. no_logs;
  http_status = some 200;
}

abbrev pub test_context : RequestContext
test_context = record {
  client_id = none;
  client_name = none;
  correlation_id = none;
  idempotency_key = none;
  actor = none;
  source_ip = none;
}

abbrev pub prepared_payout : PayoutRecord
prepared_payout = record {
  id = 7;
  client_id = none;
  external_id = "invoice-7";
  chain_flow_request_id = none;
  status = prepared;
  network = avalanche_fuji;
  chain_id = 43113;
  asset = usdc;
  token_address = 500;
  amount = "5";
  amount_atomic = 5000000;
  beneficiary_address = 600;
  beneficiary_name = none;
  treasury_address = none;
  transaction_hash = none;
  failure_reason = none;
  memo = none;
  metadata = [];
  created_at = 10;
  updated_at = 10;
  authorized_at = none;
  broadcasted_at = none;
  confirmed_at = none;
}

abbrev pub one_payout : World
one_payout = record {
  payouts = prepared_payout ∷ [];
  payins = [];
  idempotency_keys = [];
  payin_address_index = 0;
  audit_events = [];
  outbox = [];
  deliveries = [];
  posts = [];
  clients = [];
  settlements = [];
  publications = [];
  broadcasts = [];
  sweeps = [];
}
