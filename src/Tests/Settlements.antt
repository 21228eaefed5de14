-- ===== src/Tests/Settlements.antt =====
-- A settlement that is recorded and revealed, and two whose publication fails
-- (src/settlements/settlements.service.ts).
use avasettile.Common.{ℕ, zero, suc, ◌≡◌, refl, false, none, List, [], ◌∷◌}
use avasettile.Effect.{rpc_error, database_error, err}
use avasettile.Effect.Sequential.{run}
use avasettile.Effect.Pool.{Event, arrive, turn, run_pool}
use avasettile.Records.Common.{usdc}
use avasettile.Records.Settlement.{
  PrivateSettlementRecord, recorded, record_commitment, reveal_preimage,
}
use avasettile.World.{World, Outside, refused, not_sent}
use avasettile.Settlements.Service.{
  CreateSettlement, record_settlement, reveal_settlement, publish_or_replay,
}
use avasettile.Settlements.Opening.{Inv}
use avasettile.Settlements.Requests.{
  SettlementRequest, submit, reveal, serve, settlements-IsOpening,
}
use avasettile.Settlements.Outcome.{
  record-reveal, publish_or_replay-released, publish_or_replay-lost,
}
use avasettile.Tests.Setup.{test_config, test_viem, fair_weather, test_context, one_payout}

abbrev private_five : CreateSettlement
private_five = record {
  external_id = "settlement-1";
  asset = usdc;
  amount = "5";
  counterparty = 600;
  metadata = none;
}

abbrev turns : ℕ → List (Event Outside SettlementRequest)
turns zero = []
turns (suc n) = turn 0 fair_weather ∷ turn 1 fair_weather ∷ turns n

-- The reveal of an id that another request records at the same time.
abbrev record_and_reveal : List (Event Outside SettlementRequest)
record_and_reveal =
    arrive (reveal 70 test_context) ∷ arrive (submit private_five test_context) ∷ turns 12

settlements-IsOpening_example :
    Inv test_viem (run_pool (serve test_config test_viem) record_and_reveal (one_payout, [])).0
settlements-IsOpening_example =
    settlements-IsOpening test_config test_viem record_and_reveal one_payout (tt, tt)

abbrev always_fair : ℕ → Outside
always_fair n = fair_weather

record-reveal_example :
    (run always_fair 0
      (reveal_settlement test_config test_viem test_context 70)
      (run always_fair 0
        (record_settlement test_config test_viem test_context private_five)
        one_payout).1).1.publications
    ≡ record_commitment 1 2 ∷ reveal_preimage 2 2 5000000 500 600 41 ∷ []
record-reveal_example =
    record-reveal test_config test_viem test_context always_fair always_fair (λ n. refl) (λ n. refl)
      700 701 702 500 refl refl refl refl private_five 4999999 77 77 one_payout refl refl
      (refl, refl) refl refl

abbrev claimed : PrivateSettlementRecord
claimed = record {
  id = 9;
  client_id = none;
  external_id = "settlement-1";
  settlement_id = 2;
  settlement_ref = 1;
  commitment = 2;
  asset = usdc;
  token_address = 500;
  amount = "5";
  amount_atomic = 5000000;
  counterparty = 600;
  nonce = 41;
  status = recorded;
  transaction_hash = none;
  reveal_transaction_hash = none;
  metadata = [];
  created_at = 10;
  updated_at = 10;
}

abbrev claimed_world : World
claimed_world = record one_payout { settlements = claimed ∷ [] }

abbrev no_chain : ℕ → Outside
no_chain n = record fair_weather { send = not_sent }

publish_or_replay-released_example :
    run no_chain 0
      (publish_or_replay test_config test_viem test_context (claimed, false))
      claimed_world
    ≡ (err rpc_error, one_payout)
publish_or_replay-released_example =
    publish_or_replay-released test_config test_viem test_context no_chain 700 701 refl refl claimed
      0 claimed_world refl refl

-- The database refuses one statement.
abbrev one_outage : ℕ → Outside
one_outage (suc zero) = record fair_weather { database = refused }
one_outage _ = fair_weather

publish_or_replay-lost_example :
    run one_outage 0
      (publish_or_replay test_config test_viem test_context (claimed, false))
      claimed_world
    ≡ (err database_error, record one_payout { publications = record_commitment 1 2 ∷ [] })
publish_or_replay-lost_example =
    publish_or_replay-lost test_config test_viem test_context one_outage 700 701 refl refl claimed
      77 0 claimed_world refl refl refl refl
