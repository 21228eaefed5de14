-- ===== src/Payouts/AtMostOnce/Calls.antt =====
-- The potential of one payout under the single calls: statements that leave the payouts alone,
-- updates and insertions of the ledger, and transactions.
use avasettile.Common.{
  ℕ, ◌+◌, ◌*◌, ◌≤◌, ◌≡◌, refl, sym, subst, ◌∙◌, true, false, String, Option, none, some, List, [],
  ◌∷◌, ◌++◌, arith, ◌==◌, any, Bool-cases, Option-cases, inl, inr, sum_of-append,
}
use avasettile.Common.Table.{find_row, find_row-append}
use avasettile.Effect.{database_error, rpc_error, Result, ok, err, pure, call}
use avasettile.Effect.Weakest.{Wp, Post, Keeps, Wp-call}
use avasettile.Effect.Neutral.{
  Calm, Neutral, Neutral-pure, Neutral-call, Neutral->>=, Neutral-attempt,
}
use avasettile.Records.Common.{Json, AuditEventType, AuditActor}
use avasettile.Records.Payout.{
  PayoutRecord, PayoutStatus, PayoutPatch, payout_key, prepared, apply_patch,
}
use avasettile.World.{
  World, Outside, Leg, DatabaseAnswer, answered, refused, reply_lost, SendAnswer, sent,
  sent_unknown, not_sent, reply, query, get_now, random_uuid, read_chain, answer_of, record_event,
  list_by_subject, enqueue,
}
use avasettile.Blockchain.Rail.{write_contract, handed_over, add_legs}
use avasettile.Payouts.Ledger.{update_payout, insert_payout, permitted, conflicts}
use avasettile.Payouts.AtMostOnce.Potential.{
  Inv, potential, potential_lem, potential_of_row, owns, legs_of, row_of, gained, IsSound,
  IsSoundRow, weight, row_weight, update_found-Keeps, other-Keeps, IsRowOf, update_found-IsRowOf,
}

module _ (i : ℕ) where
  -- Nothing that the potential reads is changed.
  abbrev pub SamePayouts : World → World → Type 0
  SamePayouts w w' = (w'.payouts ≡ w.payouts) × (w'.broadcasts ≡ w.broadcasts)

  SamePayouts-keeps :
      (w w' : World) → SamePayouts w w' → Inv i w → Inv i w' × (potential i w' ≤ potential i w)
  SamePayouts-keeps w w' (same_rows, same_legs) sound =
      let at_row : row_of i w' ≡ row_of i w = rw same_rows in
      let total = potential_of_row i w w' (row_of i w) at_row same_legs in
      (subst IsSoundRow (sym at_row) sound, omega (arith, total, potential_lem i w))

  -- A statement that keeps the invariant and the potential.
  pub Neutral-statement :
      {A : Type 0} (statement : Outside → World → A × World)
      → ((env : Outside) (w : World)
          → Inv i w
          → Inv i (statement env w).1 × (potential i (statement env w).1 ≤ potential i w))
      → Neutral (Inv i) (potential i) (call (query statement))
  Neutral-statement {A} statement keeps =
      Neutral-call (Inv i) (potential i) (query statement)
        λ env w sound. replied env.database w (statement env w) (keeps env w sound) sound
    where
      replied :
          (d : DatabaseAnswer) (w : World) (s : A × World)
          → Inv i s.1 × (potential i s.1 ≤ potential i w)
          → Inv i w
          → Inv i (reply d s w).1
            × (potential i (reply d s w).1 ≤ potential i w)
            × Calm (reply d s w).0
      replied answered w s (sound', le) sound = (sound', le, tt)
      replied refused w s kept sound = (sound, omega arith, refl)
      replied reply_lost w s (sound', le) sound = (sound', le, refl)

  pub Neutral-query :
      {A : Type 0} (statement : Outside → World → A × World)
      → ((env : Outside) (w : World) → SamePayouts w (statement env w).1)
      → Neutral (Inv i) (potential i) (call (query statement))
  Neutral-query statement same =
      Neutral-statement statement
        (λ env w sound. SamePayouts-keeps w (statement env w).1 (same env w) sound)

  -- The row of another payout may be written at will.
  pub Neutral-other_update :
      (id : ℕ) (patch : PayoutPatch) (guard : Option (List PayoutStatus))
      → (id == i) ≡ false
      → Neutral (Inv i) (potential i) (update_payout id patch guard)
  unfolding update_payout
  Neutral-other_update id patch guard ne =
      Neutral-statement _ (λ env w sound. other-Keeps env.now patch guard i id w ne sound)

  pub Neutral-read :
      {A : Type 0} (read : Outside → Result A)
      → ((env : Outside) → Calm (read env))
      → Neutral (Inv i) (potential i) (call {E = Outside} (λ env w. (read env, w)))
  Neutral-read read calm =
      Neutral-call (Inv i) (potential i) (λ env w. (read env, w))
        (λ env w sound. (sound, omega arith, calm env))

  pub Neutral-get_now : Neutral (Inv i) (potential i) get_now
  Neutral-get_now = Neutral-read (λ env. ok env.now) (λ env. tt)

  pub Neutral-random_uuid : Neutral (Inv i) (potential i) random_uuid
  Neutral-random_uuid = Neutral-read (λ env. ok env.uuid) (λ env. tt)

  pub Neutral-read_chain :
      {A : Type 0} (field : Outside → Option A) → Neutral (Inv i) (potential i) (read_chain field)
  Neutral-read_chain {A} field =
      Neutral-read (λ env. answer_of (field env)) (λ env. calm (field env))
    where
      calm : (o : Option A) → Calm (answer_of o)
      calm none = refl
      calm (some a) = tt

  pub Neutral-end : {A : Type 0} (a : A) → Neutral {E = Outside} (Inv i) (potential i) (pure a)
  Neutral-end a = Neutral-pure Outside (Inv i) (potential i) a

  pub Neutral-record_event :
      (type : AuditEventType) (subject : ℕ) (actor : AuditActor) (payload : Json)
      → Neutral (Inv i) (potential i) (record_event type subject actor payload)
  unfolding record_event
  Neutral-record_event type subject actor payload =
      Neutral->>= (Inv i) (potential i) _ _ Neutral-random_uuid λ id.
        Neutral->>= (Inv i) (potential i) _ _ Neutral-get_now λ now.
          Neutral->>= (Inv i) (potential i) _ _ (Neutral-query _ (λ env w. (refl, refl)))
            (λ _. Neutral-end _)

  pub Neutral-list_by_subject :
      (subject : ℕ) → Neutral (Inv i) (potential i) (list_by_subject subject)
  unfolding list_by_subject
  Neutral-list_by_subject subject = Neutral-query _ (λ env w. (refl, refl))

  pub Neutral-enqueue :
      (client : Option ℕ) (event : String) (payload : Json)
      → Neutral (Inv i) (potential i) (enqueue client event payload)
  unfolding enqueue
  Neutral-enqueue none event payload = Neutral-end tt
  Neutral-enqueue (some client) event payload =
      Neutral->>= (Inv i) (potential i) _ _ Neutral-get_now λ now.
        Neutral->>= (Inv i) (potential i) _ _
          (Neutral-attempt (Inv i) (potential i) _ (Neutral-query _ (λ env w. (refl, refl))))
          (λ _. Neutral-end tt)

  -- An update that frees at most `cost` and, where it is applied, takes `gain`: it is paid for
  -- beforehand, and the tokens that it takes come with its result.
  module _ (patch : PayoutPatch) (guard : Option (List PayoutStatus)) (cost gain : ℕ)
      (allowed : (now : ℕ) (p : PayoutRecord)
        → IsSound p
        → permitted guard p.status ≡ true
        → IsSound (apply_patch now patch p)
          × (weight (apply_patch now patch p) + gain ≤ weight p + cost)) where
    pub update_payout-Wp :
        (id t : ℕ) (Q : Post (Option PayoutRecord))
        → ((r : Option PayoutRecord) → IsRowOf id r → Q (ok r) (owns i id * gained gain r + t))
        → Q (err database_error) t
        → Wp (Inv i) (potential i) (update_payout id patch guard) (owns i id * cost + t) Q
    unfolding update_payout
    update_payout-Wp id t Q done failed = Wp-call (Inv i) (potential i) _ _ _ λ env w sound.
        replied env.database w _
          (update_found-Keeps patch guard cost gain allowed i id env.now w sound)
          (update_found-IsRowOf env.now patch guard id w) sound
      where
        replied :
            (d : DatabaseAnswer) (w : World) (s : Option PayoutRecord × World)
            → Inv i s.1
              × (potential i s.1 + owns i id * gained gain s.0 ≤ potential i w + owns i id * cost)
            → IsRowOf id s.0
            → Inv i w
            → Keeps (Inv i) (potential i) (reply d s w) w (owns i id * cost + t) Q
        replied answered w s (sound', le) same sound =
            (owns i id * gained gain s.0 + t, sound', omega arith, done s.0 same)
        replied refused w s (sound', le) same sound = (t, sound, omega arith, failed)
        replied reply_lost w s (sound', le) same sound = (t, sound', omega arith, failed)

  -- Only a change of the row counts, where the broadcasts stay.
  row_change-keeps :
      (w w' : World) (row : Option PayoutRecord)
      → row_of i w' ≡ row
      → w'.broadcasts ≡ w.broadcasts
      → IsSoundRow row
      → row_weight row ≤ row_weight (row_of i w)
      → Inv i w' × (potential i w' ≤ potential i w)
  row_change-keeps w w' row at_row same sound fewer = (
    subst IsSoundRow (sym at_row) sound,
    omega (arith, potential_of_row i w w' row at_row same, potential_lem i w),
  )

  IsSound-of_fresh :
      (p : PayoutRecord)
      → (p.status ≡ prepared) × (p.transaction_hash ≡ none)
      → IsSound p × (weight p ≡ 1)
  IsSound-of_fresh p fresh = (λ _. fresh.1, ground arith)

  abbrev appended : PayoutRecord → World → World
  appended p w = record w { payouts = w.payouts ++ p ∷ [] }

  append-keeps :
      (p : PayoutRecord) (w : World)
      → (p.status ≡ prepared) × (p.transaction_hash ≡ none)
      → Inv i w
      → Inv i (appended p w) × (potential i (appended p w) ≤ potential i w)
  append-keeps p w fresh sound = elim (Option-cases (row_of i w)) [
    | inr (q, there) ↦
        row_change-keeps w (appended p w) (row_of i w)
          (find_row-append payout_key i w.payouts p ∙ rw there) refl sound (omega arith)
    | inl missing ↦ elim (Bool-cases (p.id == i)) [
      | inl mine ↦
          let (sound', one) = IsSound-of_fresh p fresh in
          row_change-keeps w (appended p w) (some p)
            (find_row-append payout_key i w.payouts p ∙ rw (missing, mine)) refl sound'
            (rw missing (omega (arith, one)))
      | inr other ↦
          row_change-keeps w (appended p w) none
            (find_row-append payout_key i w.payouts p ∙ rw (missing, other)) refl tt
            (rw missing (omega arith))
    ]
  ]

  -- An insertion of a prepared payout with no hash.
  pub insert_payout-keeps :
      (p : PayoutRecord) (w : World)
      → (p.status ≡ prepared) × (p.transaction_hash ≡ none)
      → Inv i w
      → Inv i (insert_payout p w).1 × (potential i (insert_payout p w).1 ≤ potential i w)
  insert_payout-keeps p w fresh sound = elim (Bool-cases (any (conflicts p) w.payouts)) [
    | inl conflict ↦ rw conflict (sound, omega arith)
    | inr free ↦ elim (Option-cases (find_row payout_key p.id w.payouts)) [
      | inl unused ↦ rw (free, unused) (append-keeps p w fresh sound)
      | inr (q, used) ↦ rw (free, used) (sound, omega arith)
    ]
  ]

  potential-add_legs :
      (legs : List Leg) (w : World) → potential i (add_legs legs w) ≡ potential i w + legs_of i legs
  potential-add_legs legs w = omega (
    arith,
    potential_lem i w,
    potential_lem i (add_legs legs w),
    sum_of-append (λ (l : Leg). owns i l.payout) w.broadcasts legs,
  )

  -- A transaction is paid for with a token for each of its legs.
  pub write_contract-Wp :
      (legs : List Leg) (t : ℕ) (Q : Post ℕ)
      → ((hash : ℕ) → Q (ok hash) t)
      → Q (err rpc_error) t
      → Wp (Inv i) (potential i) (call (write_contract legs)) (legs_of i legs + t) Q
  write_contract-Wp legs t Q done failed =
      Wp-call (Inv i) (potential i) _ _ _ λ env w sound. answered_by env.send w sound
    where
      answered_by :
          (s : SendAnswer) (w : World)
          → Inv i w
          → Keeps (Inv i) (potential i) (handed_over s legs w) w (legs_of i legs + t) Q
      answered_by (sent hash) w sound =
          (t, sound, omega (arith, potential-add_legs legs w), done hash)
      answered_by sent_unknown w sound =
          (t, sound, omega (arith, potential-add_legs legs w), failed)
      answered_by not_sent w sound = (t, sound, omega arith, failed)
