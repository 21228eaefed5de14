-- ===== src/Webhooks/Progress.antt =====
-- What no call of the program undoes, about the outbox (src/webhooks/webhook.service.ts): a row stays
-- and keeps its message, a POST that was answered with success stays, and a row is marked as delivered
-- only after such a POST of its payload.
use avasettile.Common.{
  ℕ, Bool, true, false, ◌≡◌, refl, ◌⊎◌, inl, inr, Option, none, some, List, [], ◌∷◌, ◌++◌, any,
  Bool-cases, ◌==◌, Option-cases, arith, ◌∙◌, sym, ap,
}
use mathlib.Core.Option
use mathlib.Core.List.{append_assoc, append-nil}
use avasettile.Common.Table.{find_row, key-find_row}
use avasettile.Records.Outbox.{OutboxRow, outbox_key, Post}
use avasettile.Records.Common.{AuditEvent}
use avasettile.World.{World, insert_event}
use avasettile.Webhooks.Outbox.{is_delivered}
use avasettile.Webhooks.Delivery.{response_ok}

abbrev pub SameMessage : OutboxRow → OutboxRow → Type 0
SameMessage r q = (q.client_id ≡ r.client_id) × (q.event ≡ r.event) × (q.payload ≡ r.payload)

-- The outbox has the row, in whatever state of delivery.
abbrev pub Stored : OutboxRow → World → Type 0
Stored r w = (q : OutboxRow) × (find_row outbox_key r.id w.outbox ≡ some q) × SameMessage r q

abbrev pub status_ok : Option ℕ → Bool
status_ok none = false
status_ok (some status) = response_ok status

abbrev pub IsAcceptedPost : OutboxRow → Post → Type 0
IsAcceptedPost r p = (p.row ≡ r.id) × (p.body ≡ r.payload) × (status_ok p.status ≡ true)

abbrev pub HasPost : OutboxRow → List Post → Type 0
HasPost r [] = ⊥
HasPost r (p ∷ ps) = IsAcceptedPost r p ⊎ HasPost r ps

-- A POST of the row's payload was answered with a status of success.
abbrev pub Accepted : OutboxRow → World → Type 0
Accepted r w = HasPost r w.posts

abbrev pub IsHonest : World → Type 0
IsHonest w =
    (r : OutboxRow)
    → find_row outbox_key r.id w.outbox ≡ some r
    → is_delivered r.status ≡ true
    → Accepted r w

-- Entries are only added, at the end.
abbrev pub Extends : List AuditEvent → List AuditEvent → Type 0
Extends xs ys = (zs : List AuditEvent) × (ys ≡ xs ++ zs)

pub Extends-refl : (xs : List AuditEvent) → Extends xs xs
Extends-refl xs = ([], sym (append-nil xs))

Extends-trans : (xs ys zs : List AuditEvent) → Extends xs ys → Extends ys zs → Extends xs zs
Extends-trans xs ys zs (us, e) (vs, f) =
    (us ++ vs, f ∙ ap (λ (l : List AuditEvent). l ++ vs) e ∙ append_assoc xs us vs)

pub record Progress (u v : World) : Type 0 where
  pub stored : (r : OutboxRow) → Stored r u → Stored r v
  pub accepted : (r : OutboxRow) → Accepted r u → Accepted r v
  pub honest : IsHonest u → IsHonest v
  pub audited : Extends u.audit_events v.audit_events

pub Progress-refl : (w : World) → Progress w w
Progress-refl w = record {
  stored = λ r h. h;
  accepted = λ r h. h;
  honest = λ h. h;
  audited = Extends-refl w.audit_events;
}

pub Progress-trans : (u v w : World) → Progress u v → Progress v w → Progress u w
Progress-trans u v w a b = record {
  stored = λ r h. b.stored r (a.stored r h);
  accepted = λ r h. b.accepted r (a.accepted r h);
  honest = λ h. b.honest (a.honest h);
  audited = Extends-trans u.audit_events v.audit_events w.audit_events a.audited b.audited;
}

-- A change of other tables.
pub Progress-except_audit :
    (u v : World)
    → v.outbox ≡ u.outbox
    → v.posts ≡ u.posts
    → Extends u.audit_events v.audit_events
    → Progress u v
Progress-except_audit u v same_outbox same_posts more = record {
  stored = λ r h. let (q, found, same) = h in (q, rw same_outbox found, same);
  accepted = λ r h. rw same_posts h;
  honest = λ h r found done. rw same_posts (h r (rw same_outbox at found) done);
  audited = more;
}

pub Progress-elsewhere :
    (u v : World)
    → v.outbox ≡ u.outbox
    → v.posts ≡ u.posts
    → v.audit_events ≡ u.audit_events
    → Progress u v
Progress-elsewhere u v same_outbox same_posts same_audit =
    Progress-except_audit u v same_outbox same_posts
      ([], same_audit ∙ sym (append-nil u.audit_events))

-- `AuditService.record`
pub Progress-insert_event :
    (w : World) (event : AuditEvent)
    → Progress w (record w { audit_events = insert_event event w.audit_events })
Progress-insert_event w event =
    Progress-except_audit w _ refl refl
      (elim (Bool-cases (any (λ (e : AuditEvent). e.id == event.id) w.audit_events)) [
        | inl old ↦ rw old (Extends-refl w.audit_events)
        | inr new ↦ rw new (event ∷ [], refl)
      ])

HasPost-append : (r : OutboxRow) (ps qs : List Post) → HasPost r ps → HasPost r (ps ++ qs)
HasPost-append r [] qs h = absurd h
HasPost-append r (p ∷ ps) qs (inl h) = inl h
HasPost-append r (p ∷ ps) qs (inr h) = inr (HasPost-append r ps qs h)

pub HasPost-last :
    (r : OutboxRow) (ps : List Post) (p : Post) → IsAcceptedPost r p → HasPost r (ps ++ p ∷ [])
HasPost-last r [] p h = inl h
HasPost-last r (q ∷ ps) p h = inr (HasPost-last r ps p h)

pub Progress-post : (w : World) (p : Post) → Progress w (record w { posts = w.posts ++ p ∷ [] })
Progress-post w p = record {
  stored = λ r h. h;
  accepted = λ r h. HasPost-append r w.posts (p ∷ []) h;
  honest = λ h r found done. HasPost-append r w.posts (p ∷ []) (h r found done);
  audited = Extends-refl w.audit_events;
}

pub HasPost-same :
    (q r : OutboxRow) (ps : List Post)
    → q.id ≡ r.id
    → q.payload ≡ r.payload
    → HasPost q ps
    → HasPost r ps
HasPost-same q r [] same_id same_payload h = h
HasPost-same q r (p ∷ ps) same_id same_payload (inl (a, b, c)) =
    inl (a ∙ same_id, b ∙ same_payload, c)
HasPost-same q r (p ∷ ps) same_id same_payload (inr h) =
    inr (HasPost-same q r ps same_id same_payload h)

-- A row is changed by `g`, which keeps its message and marks it as delivered only when that is earned.
module _ (w : World) (rows : List OutboxRow) (g : ℕ → OutboxRow → OutboxRow)
    (changed : (i : ℕ)
      → find_row outbox_key i rows ≡ Option.map (g i) (find_row outbox_key i w.outbox))
    (same_message : (i : ℕ) (q : OutboxRow) → SameMessage q (g i q))
    (earned : (q : OutboxRow)
      → find_row outbox_key q.id w.outbox ≡ some q
      → is_delivered (g q.id q).status ≡ true
      → (is_delivered q.status ≡ true) ⊎ Accepted q w) where
  still-Stored : (r : OutboxRow) → Stored r w → Stored r (record w { outbox = rows })
  still-Stored r (q, found, same) =
      let (c, e, p) = same_message r.id q in
      let (c', e', p') = same in (g r.id q, ground (arith, changed r.id), (c ∙ c', e ∙ e', p ∙ p'))

  honest_row :
      IsHonest w
      → (r q : OutboxRow) → find_row outbox_key q.id w.outbox ≡ some q
      → g q.id q ≡ r
      → q.id ≡ r.id
      → is_delivered r.status ≡ true
      → Accepted r w
  honest_row h r q found e same_id done =
      HasPost-same q r w.posts same_id
        (sym (same_message q.id q).2 ∙ ap (λ (x : OutboxRow). x.payload) e)
        (elim (earned q found (rw e done)) [ inl old ↦ h q found old | inr new ↦ new ])

  still-IsHonest : IsHonest w → IsHonest (record w { outbox = rows })
  still-IsHonest h r found done = elim (Option-cases (find_row outbox_key r.id w.outbox)) [
    | inl e ↦ cc (changed r.id)
    | inr (q, e) ↦
        let same_id : q.id ≡ r.id = key-find_row outbox_key r.id w.outbox q e in
        let new : g r.id q ≡ r = cc (changed r.id) in
        honest_row h r q (ap (λ (i : ℕ). find_row outbox_key i w.outbox) same_id ∙ e)
          (ap (λ (i : ℕ). g i q) same_id ∙ new) same_id done
  ]

  pub Progress-rows : Progress w (record w { outbox = rows })
  Progress-rows = record {
    stored = still-Stored;
    accepted = λ r h. h;
    honest = still-IsHonest;
    audited = Extends-refl w.audit_events;
  }
