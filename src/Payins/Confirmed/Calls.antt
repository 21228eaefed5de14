-- ===== src/Payins/Confirmed/Calls.antt =====
-- The calls that the handlers of PayinsService make, each of which keeps the row of the pay-in sound
-- (src/payins/payin-ledger.service.ts and the services that it is used with).
use avasettile.Common.{
  ℕ, ◌≡◌, refl, Bool, true, false, String, Option, none, some, ◌==◌, Option-cases, Bool-cases, inl,
  inr, ap, ==_iff,
}
use avasettile.Common.Table.{find_row, key-find_row}
use avasettile.Effect.{
  Error, record_not_found, Result, ok, err, pure, throw, call, from_result, or_throw, ◌>>=◌,
}
use avasettile.Effect.Yields.{
  On, Anything, Yields, Yields-pure, Yields-throw, Yields->>=, Yields-call, Yields-attempt,
  Yields-from_result,
}
use avasettile.Records.Common.{AuditEventType, AuditActor, Json, RequestContext}
use avasettile.Records.PayIn.{PayInRecord, PayInPatch, payin_key}
use avasettile.World.{
  World, Outside, DatabaseAnswer, answered, refused, reply_lost, reply, query, Handler, read_chain,
  get_now, random_uuid, throw_if, record_event, list_by_subject, enqueue,
}
use avasettile.Payins.Ledger.{Guard, update_payin, find_by_id, scoped}
use avasettile.Payouts.Ledger.{in_scope}
use avasettile.Payins.Service.{require_payin, to_payin_response}
use avasettile.Payins.Confirmed.Row.{Inv, Inv-same, Inv-update_found, Allowed}

module _ (i expected : ℕ) where
  -- A handler that keeps the row sound.
  abbrev pub Stable : {A : Type 0} → Handler A → Type 0
  Stable p = Yields (Inv i expected) p Anything

  abbrev pub Gives : {A : Type 0} → Handler A → (A → Type 0) → Type 0
  Gives p P = Yields (Inv i expected) p P

  pub Stable-then :
      {A B : Type 0} (p : Handler A) (f : A → Handler B)
      → Stable p
      → ((a : A) → Stable (f a))
      → Stable (p >>= f)
  Stable-then p f hp hf = Yields->>= (Inv i expected) p f Anything Anything hp (λ a _. hf a)

  pub Stable-pure : {A : Type 0} (a : A) → Stable (pure a)
  Stable-pure a = Yields-pure Outside (Inv i expected) a Anything tt

  pub Stable-throw : (A : Type 0) (e : Error) → Stable (let p : Handler A = throw e in p)
  Stable-throw A e = Yields-throw Outside (Inv i expected) e Anything

  pub Stable-throw_if : (b : Bool) (e : Error) → Stable (throw_if b e)
  Stable-throw_if true e = Stable-throw _ e
  Stable-throw_if false e = Stable-pure tt

  pub Stable-or_throw : {A : Type 0} (o : Option A) (e : Error) → Stable (or_throw o e)
  Stable-or_throw {A} none e = Stable-throw A e
  Stable-or_throw (some a) e = Stable-pure a

  pub Stable-from_result : {A : Type 0} (r : Result A) → Stable (from_result r)
  Stable-from_result r = Yields-from_result Outside (Inv i expected) r

  -- A statement that keeps the row sound, with what it answers.
  pub Gives-query :
      {A : Type 0} (f : Outside → World → A × World) (P : A → Type 0)
      → ((env : Outside) (w : World)
          → Inv i expected w
          → Inv i expected (f env w).1 × P (f env w).0)
      → Gives (call (query f)) P
  Gives-query {A} f P h =
      Yields-call (Inv i expected) (query f) P
        λ env w inv. replied env.database (f env w) w (h env w inv) inv
    where
      replied :
          (d : DatabaseAnswer) (s : A × World) (w : World)
          → Inv i expected s.1 × P s.0
          → Inv i expected w
          → Inv i expected (reply d s w).1 × On P (reply d s w).0 0
      replied answered s w (inv', got) inv = (inv', got)
      replied refused s w (inv', got) inv = (inv, tt)
      replied reply_lost s w (inv', got) inv = (inv', tt)

  -- A call that leaves the pay-ins alone.
  pub Stable-call :
      {A : Type 0} (c : Outside → World → Result A × World)
      → ((env : Outside) (w : World) → (c env w).1.payins ≡ w.payins)
      → Stable (call c)
  Stable-call {A} c same = Yields-call (Inv i expected) c Anything λ env w inv. (
    Inv-same i expected w (c env w).1 (ap (find_row payin_key i) (same env w)) inv,
    anything (c env w).0,
  )
    where
      anything : (r : Result A) → On Anything r 0
      anything (ok a) = tt
      anything (err e) = tt

  pub Stable-query :
      {A : Type 0} (f : Outside → World → A × World)
      → ((env : Outside) (w : World) → (f env w).1.payins ≡ w.payins)
      → Stable (call (query f))
  Stable-query f same = Gives-query f Anything λ env w inv.
      (Inv-same i expected w (f env w).1 (ap (find_row payin_key i) (same env w)) inv, tt)

  pub Stable-read_chain : {A : Type 0} (field : Outside → Option A) → Stable (read_chain field)
  Stable-read_chain field = Stable-call _ (λ env w. refl)

  pub Stable-get_now : Stable get_now
  Stable-get_now = Stable-call _ (λ env w. refl)

  pub Stable-random_uuid : Stable random_uuid
  Stable-random_uuid = Stable-call _ (λ env w. refl)

  pub Stable-record_event :
      (type : AuditEventType) (id : ℕ) (actor : AuditActor) (payload : Json)
      → Stable (record_event type id actor payload)
  unfolding record_event
  Stable-record_event type id actor payload = Stable-then _ _ Stable-random_uuid λ uuid.
      Stable-then _ _ Stable-get_now
        λ now. Stable-then _ _ (Stable-query _ (λ env w. refl)) (λ _. Stable-pure _)

  pub Stable-enqueue :
      (client : Option ℕ) (event : String) (payload : Json) → Stable (enqueue client event payload)
  unfolding enqueue
  Stable-enqueue none event payload = Stable-pure tt
  Stable-enqueue (some client) event payload = Stable-then _ _ Stable-get_now λ timestamp.
      Stable-then _ _ (Yields-attempt (Inv i expected) _ Anything (Stable-query _ (λ env w. refl)))
        (λ _. Stable-pure tt)

  pub Stable-to_payin_response :
      (p : PayInRecord) (replay : Bool) → Stable (to_payin_response p replay)
  unfolding to_payin_response list_by_subject
  Stable-to_payin_response p replay =
      Stable-then _ _ (Stable-query _ (λ env w. refl)) (λ trail. Stable-pure _)

  -- An update of another pay-in, or an allowed one.
  pub Stable-update_payin :
      (id : ℕ) (patch : PayInPatch) (guard : Guard)
      → ((id == i) ≡ true → Allowed expected patch guard)
      → Stable (update_payin id patch guard)
  unfolding update_payin
  Stable-update_payin id patch guard allowed =
      Gives-query _ Anything
        λ env w inv. (Inv-update_found i expected env.now id patch guard w allowed inv, tt)

  -- A pay-in that was read is the one that was asked for, and expects what the row does.
  abbrev pub IsRead : ℕ → PayInRecord → Type 0
  IsRead id p = (p.id ≡ id) × ((id == i) ≡ true → p.expected_amount_atomic ≡ expected)

  abbrev IsReadRow : ℕ → Option PayInRecord → Type 0
  IsReadRow id none = Unit
  IsReadRow id (some p) = IsRead id p

  read_row :
      (id : ℕ) (scope : Option ℕ) (w : World)
      → Inv i expected w
      → IsReadRow id (scoped scope (find_row payin_key id w.payins))
  read_row id scope w inv = elim (Option-cases (find_row payin_key id w.payins)) [
    | inl missing ↦ rw missing tt
    | inr (p, found) ↦ rw found (elim (Bool-cases (in_scope scope p.client_id)) [
      | inl seen ↦ rw seen (key-find_row payin_key id w.payins p found, expects p found)
      | inr hidden ↦ rw hidden tt
    ])
  ]
    where
      expects :
          (p : PayInRecord)
          → find_row payin_key id w.payins ≡ some p
          → (id == i) ≡ true
          → p.expected_amount_atomic ≡ expected
      expects p found same = let inv' = rw (rw ((==_iff id i).0 same) at found) at inv in inv'.0

  pub Gives-require_payin :
      (id : ℕ) (ctx : RequestContext) → Gives (require_payin id ctx) (IsRead id)
  unfolding require_payin find_by_id
  Gives-require_payin id ctx =
      Yields->>= (Inv i expected) _ _ (IsReadRow id) (IsRead id)
        (Gives-query _ (IsReadRow id) (λ env w inv. (inv, read_row id ctx.client_id w inv))) found
    where
      found :
          (o : Option PayInRecord)
          → IsReadRow id o
          → Gives (or_throw o record_not_found) (IsRead id)
      found none h = Yields-throw Outside (Inv i expected) record_not_found (IsRead id)
      found (some p) h = Yields-pure Outside (Inv i expected) p (IsRead id) h
