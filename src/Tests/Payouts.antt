-- ===== src/Tests/Payouts.antt =====
-- Two requests that authorize one payout at the same time, two that are too late, and two inserts
-- (src/payouts/).
use avasettile.Common.{ℕ, zero, suc, ◌≤◌, refl, none, some, List, [], ◌∷◌, arith, ◌≡◌}
use avasettile.Effect.Pool.{Event, arrive, turn, run_pool}
use avasettile.Effect.{ok}
use avasettile.Records.Common.{RequestContext}
use avasettile.Records.Payout.{PayoutRecord, PayoutStatus}
use avasettile.World.{World, Outside}
use avasettile.Payouts.Ledger.{insert_payout}
use avasettile.Payouts.Exclusive.{insert_payout-once}
use avasettile.Payouts.Refused.{serve_authorize, authorize_payout-refused}
use avasettile.Payouts.Service.{AuthorizePayout, no_approval}
use avasettile.Payouts.AtMostOnce.Potential.{legs_of}
use avasettile.Payouts.AtMostOnce.Requests.{PayoutRequest, authorize, serve, broadcast-at_most_once}
use avasettile.Tests.Setup.{
  test_config, test_viem, fair_weather, test_context, one_payout, prepared_payout,
}

-- Both requests take their calls in turn.
abbrev both_turns : ℕ → List (Event Outside PayoutRequest)
both_turns zero = []
both_turns (suc n) = turn 0 fair_weather ∷ turn 1 fair_weather ∷ both_turns n

abbrev two_requests : List (Event Outside PayoutRequest)
two_requests =
    arrive (authorize 7 no_approval test_context)
    ∷ arrive (authorize 7 no_approval test_context)
    ∷ both_turns 12

broadcast-at_most_once_example :
    legs_of 7 (run_pool (serve test_config test_viem) two_requests (one_payout, [])).0.broadcasts
    ≤ 1
broadcast-at_most_once_example =
    broadcast-at_most_once test_config test_viem 7 two_requests one_payout (λ _. refl) (omega arith)

-- Two requests for a payout that failed before.
abbrev one_failed : World
one_failed = record one_payout {
  payouts = record prepared_payout { status = PayoutStatus.failed } ∷ [];
}

abbrev all_turns : ℕ → List (Event Outside (AuthorizePayout × RequestContext))
all_turns zero = []
all_turns (suc n) = turn 0 fair_weather ∷ turn 1 fair_weather ∷ all_turns n

abbrev two_late : List (Event Outside (AuthorizePayout × RequestContext))
two_late = arrive (no_approval, test_context) ∷ arrive (no_approval, test_context) ∷ all_turns 12

authorize_payout-refused_example :
    (run_pool (serve_authorize test_config test_viem 7) two_late (one_failed, [])).0 ≡ one_failed
authorize_payout-refused_example =
    authorize_payout-refused test_config test_viem 7 two_late one_failed (λ e. ground arith)

abbrev client_payout : ℕ → PayoutRecord
client_payout id = record prepared_payout { id = id; client_id = some 4 }

-- A client sends one external id twice.
insert_payout-once_example :
    insert_payout (client_payout 9) (insert_payout (client_payout 8) one_payout).1
    ≡ (ok none, (insert_payout (client_payout 8) one_payout).1)
insert_payout-once_example =
    insert_payout-once (client_payout 8) (client_payout 9) 4 one_payout refl refl refl refl
