-- ===== src/Reports/Trail.antt =====
-- Whose audit events a client's report shows (src/reports/reports.service.ts, src/audit/audit.service.ts).
use avasettile.Common.{
  both, ℕ, suc, ◌≤◌, ◌≡◌, refl, subst, ap, true, Option, none, some, List, All, length, take,
  filter, sort_by, leb, or_default, arith, length-take-le, ==_iff, Bool,
}
use avasettile.Common.Members.{
  All-map, All-filter, All-sort_by, All-take, All-reverse, length-reverse,
}
use avasettile.Effect.{ok, call, ◌>>=◌}
use avasettile.Effect.Sequential.{trace}
use avasettile.Records.Common.{AuditEvent}
use avasettile.World.{World, Outside, DatabaseAnswer, answered, refused, reply_lost}
use avasettile.Reports.Service.{
  Report, in_trail, trail_page, trail_filters, min, same_client, passes, list_for_trail, report_of,
  get_audit_trail,
}

-- A bound that may be left out.
abbrev pub Bounded : (ℕ → ℕ → Type 0) → Option ℕ → ℕ → Type 0
Bounded R none n = Unit
Bounded R (some b) n = R b n

-- The event is the client's, is about the subject, and lies between the two times.
abbrev pub IsRequested : ℕ → (from to subject_id : Option ℕ) → AuditEvent → Type 0
IsRequested client_id from to subject_id e =
    (e.client_id ≡ some client_id)
    × Bounded (λ b n. n ≡ b) subject_id e.subject_id
    × Bounded (λ b n. b ≤ n) from e.created_at
    × Bounded (λ b n. n ≤ b) to e.created_at

same_client-some : (c : ℕ) (o : Option ℕ) → same_client (some c) o ≡ true → o ≡ some c
same_client-some c none h = cc
same_client-some c (some d) h = ap (λ n. some n) ((==_iff d c).0 h)

passes-Bounded :
    (test : ℕ → ℕ → Bool) (R : ℕ → ℕ → Type 0)
    → ((b n : ℕ) → test b n ≡ true → R b n)
    → (o : Option ℕ) (n : ℕ) → passes test o n ≡ true
    → Bounded R o n
passes-Bounded test R holds none n h = tt
passes-Bounded test R holds (some b) n h = holds b n h

in_trail-IsRequested :
    (client_id : ℕ) (from to subject_id limit : Option ℕ) (e : AuditEvent)
    → in_trail (trail_filters client_id from to subject_id limit) e ≡ true
    → IsRequested client_id from to subject_id e
in_trail-IsRequested client_id from to subject_id limit e h =
    let (client, others) = both _ _ h in
    let (subject, times) = both _ _ others in
    let (after, before) = both _ _ times in
    (
      same_client-some client_id e.client_id client,
      passes-Bounded _ (λ b n. n ≡ b) (λ b n same. (==_iff n b).0 same) subject_id e.subject_id
          subject,
      passes-Bounded _ (λ b n. b ≤ n) (λ b n le. ground arith) from e.created_at after,
      passes-Bounded _ (λ b n. n ≤ b) (λ b n le. ground arith) to e.created_at before,
    )

min-le : (a b : ℕ) → (min a b ≤ a) × (min a b ≤ b)
min-le a b = ground arith

module _ (client_id : ℕ) (from to subject_id limit : Option ℕ) where
  -- What a report holds.
  abbrev pub IsTrail : Report AuditEvent → Type 0
  IsTrail report =
      All (IsRequested client_id from to subject_id) report.items
      × (report.count ≡ length report.items)
      × (report.count ≤ or_default limit 200)
      × (report.count ≤ 1000)

  report-IsTrail :
      (now : ℕ) (events : List AuditEvent)
      → IsTrail
          (report_of now (trail_page (trail_filters client_id from to subject_id limit) events))
  report-IsTrail now events =
      let filters = trail_filters client_id from to subject_id limit in
      let sorted =
        sort_by (λ (a b : AuditEvent). leb b.created_at a.created_at)
          (filter (in_trail filters) events) in
      let cap = min filters.limit 1000 in
      let counted = length-reverse (take cap sorted) in
      (
        All-reverse _ (take cap sorted) (
            All-take _ cap sorted (
              All-sort_by _ _ _ (
                All-map _ _ _ (in_trail-IsRequested client_id from to subject_id limit)
                  (All-filter (in_trail filters) events)))),
        refl,
        omega (arith, counted, length-take-le cap sorted, min-le filters.limit 1000),
        omega (arith, counted, length-take-le cap sorted, min-le filters.limit 1000),
      )

  -- When getAuditTrail returns a report, each event in it is one of the client's, is about the subject that was
  -- asked for, if one was, and lies between the two times, as far as they were given; its count is the number of its
  -- events, and is at most the limit (200 if none was given) and at most 1000.
  pub get_audit_trail-IsTrail :
      (outside : ℕ → Outside) (n : ℕ) (w : World) (report : Report AuditEvent)
      → (trace outside n (get_audit_trail client_id from to subject_id limit) w).0 ≡ ok report
      → IsTrail report
  unfolding get_audit_trail list_for_trail trace ◌>>=◌ call
  get_audit_trail-IsTrail outside n w report h = on_answer (outside n).database refl
    where
      on_answer : (d : DatabaseAnswer) → (outside n).database ≡ d → IsTrail report
      on_answer refused e = absurd (ground (arith, (rw (e, trace) at h)))
      on_answer reply_lost e = absurd (ground (arith, (rw (e, trace) at h)))
      on_answer answered e =
          let filters = trail_filters client_id from to subject_id limit in
          let made : report_of (outside (suc n)).now (trail_page filters w.audit_events) ≡ report =
            cc (rw (e, trace) at h) in
          subst IsTrail made (report-IsTrail (outside (suc n)).now w.audit_events)
