-- ===== src/Tests/Reports.antt =====
-- An audit trail of one client (src/reports/reports.service.ts).
use avasettile.Common.{ℕ, ◌≡◌, refl, none, some, [], ◌∷◌}
use avasettile.Effect.{ok, call, ◌>>=◌}
use avasettile.Effect.Sequential.{trace}
use avasettile.Records.Common.{AuditEvent, payout_prepared}
use avasettile.World.{World, Outside}
use avasettile.Reports.Service.{Report, get_audit_trail, list_for_trail}
use avasettile.Reports.Trail.{IsTrail, get_audit_trail-IsTrail}
use avasettile.Tests.Setup.{fair_weather, one_payout}

abbrev event_of : (id client time : ℕ) → AuditEvent
event_of id client time = record {
  id = id;
  client_id = some client;
  type = payout_prepared;
  subject_id = 7;
  actor = record { client_id = some client; actor = none; correlation_id = none; source_ip = none };
  payload = [];
  created_at = time;
}

abbrev two_clients : World
two_clients = record one_payout {
  audit_events = event_of 1 4 100 ∷ event_of 2 5 200 ∷ event_of 3 4 300 ∷ event_of 4 4 400 ∷ [];
}

abbrev calm : ℕ → Outside
calm n = fair_weather

abbrev trail : Report AuditEvent
trail = record { generated_at = 1000; count = 2; items = event_of 1 4 100 ∷ event_of 3 4 300 ∷ [] }

two_events : (trace calm 0 (get_audit_trail 4 none (some 350) none none) two_clients).0 ≡ ok trail
unfolding get_audit_trail list_for_trail trace ◌>>=◌ call
two_events = refl

get_audit_trail-IsTrail_example : IsTrail 4 none (some 350) none none trail
get_audit_trail-IsTrail_example =
    get_audit_trail-IsTrail 4 none (some 350) none none calm 0 two_clients trail two_events
