-- ===== src/System/Rules.antt =====
-- The rules by which a handler makes progress, for `search`; and the calls that every part makes.
use avasettile.Common.{
  ℕ, Bool, String, ◌≡◌, refl, Option, none, some, List, [], ◌∷◌, ◌++◌, if◌then◌else◌, arith, inl,
  inr, Option-cases, true, false,
}
use avasettile.Common.Table.{find_row, find_row-append}
use avasettile.Effect.{
  Error, Result, pure, throw, call, attempt, try_catch, from_result, or_throw, for_each,
  promise_all, ◌>>=◌,
}
use avasettile.Effect.Steps.{
  Steps, Steps->>=, Steps-pure, Steps-throw, Steps-call, Steps-if, Steps-or_throw,
  Steps-from_result, Steps-attempt, Steps-try_catch, Steps-for_each, Steps-promise_all,
}
use avasettile.Records.Common.{AuditEventType, AuditActor, Json}
use avasettile.Records.Outbox.{OutboxRow, outbox_key, OutboxStatus}
use avasettile.World.{
  World, Outside, Handler, Viem, AssetRuntimeConfig, DatabaseAnswer, answered, refused, reply_lost,
  reply, query, record_event, list_by_subject, read_chain, get_now, random_uuid, enqueue, throw_if,
  parse_amount,
}
use avasettile.Webhooks.Progress.{
  Progress, Progress-refl, Progress-elsewhere, Progress-insert_event, Extends-refl,
}

-- Whatever its calls are answered, the handler makes progress with the outbox.
abbrev pub Quiet : {A : Type 0} → Handler A → Type 0
Quiet p = Steps Progress p

pub bind :
    {A B : Type 0} (p : Handler A) (f : A → Handler B)
    → Quiet p
    → ((a : A) → Quiet (f a))
    → Quiet (p >>= f)
bind p f = Steps->>= Progress p f

pub done : {A : Type 0} (a : A) → Quiet (let p : Handler A = pure a in p)
done a = Steps-pure Outside Progress a

pub thrown : (A : Type 0) (e : Error) → Quiet (let p : Handler A = throw e in p)
thrown A e = Steps-throw Outside Progress A e

pub branch :
    {A : Type 0} (b : Bool) (p q : Handler A) → Quiet p → Quiet q → Quiet (if b then p else q)
branch b p q = Steps-if Progress b p q

pub from_option :
    {A : Type 0} (o : Option A) (e : Error) → Quiet (let p : Handler A = or_throw o e in p)
from_option o e = Steps-or_throw Outside Progress o e

pub of_result : {A : Type 0} (r : Result A) → Quiet (let p : Handler A = from_result r in p)
of_result r = Steps-from_result Outside Progress r

pub tried : {A : Type 0} (p : Handler A) → Quiet p → Quiet (attempt p)
tried p = Steps-attempt Progress p

pub caught :
    {A : Type 0} (p : Handler A) (h : Error → Handler A)
    → Quiet p
    → ((e : Error) → Quiet (h e))
    → Quiet (try_catch p h)
caught p h = Steps-try_catch Progress p h

pub each :
    {A : Type 0} (f : A → Handler (Unit {0})) (xs : List A)
    → ((x : A) → Quiet (f x))
    → Quiet (for_each f xs)
each f xs = Steps-for_each Progress f xs

pub together :
    {A B : Type 0} (f : A → Handler B) (xs : List A)
    → ((x : A) → Quiet (f x))
    → Quiet (promise_all f xs)
together f xs = Steps-promise_all Progress f xs

-- Statements.
pub statement :
    {A : Type 0} (f : Outside → World → A × World)
    → ((env : Outside) (w : World) → Progress w (f env w).1)
    → Quiet (call (query f))
statement {A} f h = Steps-call Progress (query f) λ env w. at env.database (f env w) w (h env w)
  where
    at :
        (d : DatabaseAnswer) (s : A × World) (w : World)
        → Progress w s.1
        → Progress w (reply d s w).1
    at answered s w moved = moved
    at refused s w moved = Progress-refl w
    at reply_lost s w moved = moved

pub elsewhere :
    {A : Type 0} (f : Outside → World → A × World)
    → ((env : Outside) (w : World)
        → ((f env w).1.outbox ≡ w.outbox)
          × ((f env w).1.posts ≡ w.posts)
          × ((f env w).1.audit_events ≡ w.audit_events))
    → Quiet (call (query f))
elsewhere f same =
    statement f (λ env w. Progress-elsewhere w _ (same env w).0 (same env w).1 (same env w).2)

pub reading : {A : Type 0} (f : Outside → World → A) → Quiet (call (query (λ env w. (f env w, w))))
reading f = statement _ (λ env w. Progress-refl w)

pub read : {A : Type 0} (field : Outside → Option A) → Quiet (read_chain field)
read field = Steps-call Progress _ (λ env w. Progress-refl w)

pub clock : Quiet get_now
clock = Steps-call Progress _ (λ env w. Progress-refl w)

pub fresh : Quiet random_uuid
fresh = Steps-call Progress _ (λ env w. Progress-refl w)

pub refuse_if : (b : Bool) (e : Error) → Quiet (throw_if b e)
refuse_if true e = thrown _ e
refuse_if false e = done tt

pub ruleset control = (
  bind, done, thrown, branch, from_option, of_result, tried, caught, each, together, reading, read,
  clock, fresh, refuse_if,
)

pub Quiet-record_event :
    (type : AuditEventType) (id : ℕ) (actor : AuditActor) (payload : Json)
    → Quiet (record_event type id actor payload)
unfolding record_event
Quiet-record_event type id actor payload = bind _ _ fresh λ uuid.
    bind _ _ clock λ now. bind _ _ (statement _ (λ env w. Progress-insert_event w _)) (λ _. done _)

pub Quiet-list_by_subject : (id : ℕ) → Quiet (list_by_subject id)
unfolding list_by_subject
Quiet-list_by_subject id = reading _

pub Quiet-parse_amount :
    (viem : Viem) (amount : String) (asset : AssetRuntimeConfig)
    → Quiet (parse_amount viem amount asset)
unfolding parse_amount
Quiet-parse_amount viem amount asset = of_result _

-- `enqueue` adds a row that is pending.
Progress-append :
    (w : World) (row : OutboxRow)
    → row.status ≡ OutboxStatus.pending
    → Progress w (record w { outbox = w.outbox ++ row ∷ [] })
Progress-append w row st = record {
  stored = λ r h.
      let (q, found, same) = h in
      (q, ground (arith, find_row-append outbox_key r.id w.outbox row), same);
  accepted = λ r h. h;
  audited = Extends-refl w.audit_events;
  honest = λ h r found sent. elim (Option-cases (find_row outbox_key r.id w.outbox)) [
    | inr (q, e) ↦ h r (ground (arith, find_row-append outbox_key r.id w.outbox row)) sent
    | inl e ↦ absurd (ground (arith, st, find_row-append outbox_key r.id w.outbox row))
  ];
}

pub Quiet-enqueue :
    (client : Option ℕ) (event : String) (payload : Json) → Quiet (enqueue client event payload)
unfolding enqueue
Quiet-enqueue none event payload = done tt
Quiet-enqueue (some client) event payload =
    bind _ _ clock
      λ now. bind _ _ (tried _ (statement _ (λ env w. Progress-append w _ refl))) (λ _. done tt)
