-- ===== src/Webhooks/Along.antt =====
-- The calls of the webhook service one by one (src/webhooks/webhook.service.ts): which of them keep
-- every message and mark no row as delivered too early.
use avasettile.Common.{
  ℕ, true, ◌≡◌, refl, ap, inl, inr, sym, ◌∙◌, Option, some, Bool-cases, List, [], ◌∷◌, All, ◌==◌,
  if◌then◌else◌, Option-cases, arith,
}
use avasettile.Common.Table.{find_row, find_row-map, find_row-update_row, key-find_row}
use avasettile.Effect.{pure, call, ◌>>=◌}
use avasettile.Effect.Grows.{Grows, Grows->>=, Grows-call, Grows-attempt, Nothing, OnOk}
use avasettile.Records.Outbox.{OutboxStatus, OutboxRow, outbox_key, DeliveryError, Delivery}
use avasettile.World.{
  World, Outside, Handler, DatabaseAnswer, answered, refused, reply_lost, reply, query, get_now,
}
use avasettile.Webhooks.Outbox.{
  recover_stuck, recover_row, claim_due, claim, claim_row, due_ids, rows_of, set_row, set_status,
  reschedule, record_delivery, find_client, is_delivered,
}
use avasettile.Webhooks.Progress.{
  Progress, Progress-refl, Progress-trans, Progress-elsewhere, Progress-rows, Stored, Accepted,
  HasPost-same, SameMessage,
}

abbrev pub Along : {A : Type 0} → Handler A → (A → World → Type 0) → World → Type 0
Along = Grows Progress

pub Along-then :
    {A B : Type 0} (p : Handler A) (f : A → Handler B) (Q : A → World → Type 0) (w : World)
    → Along p Q w
    → ((a : A) (w' : World) → Progress w w' → Q a w' → Along (f a) Nothing w')
    → Along (p >>= f) Nothing w
Along-then p f Q w = Grows->>= Progress Progress-refl Progress-trans p f Q Nothing w

pub Along-pure :
    {A : Type 0} (a : A) (w : World) → Along (let p : Handler A = pure a in p) Nothing w
unfolding Grows
Along-pure a w = tt

pub Along-query :
    {A : Type 0} (f : Outside → World → A × World) (Q : A → World → Type 0) (w : World)
    → ((env : Outside) (w' : World)
        → Progress w w'
        → Progress w' (f env w').1 × Q (f env w').0 (f env w').1)
    → Along (call (query f)) Q w
Along-query {A} f Q w h =
    Grows-call Progress Progress-refl Progress-trans (query f) Q w
      λ env w' moved. at env.database (f env w') w' (h env w' moved)
  where
    at :
        (d : DatabaseAnswer) (s : A × World) (v : World)
        → Progress v s.1 × Q s.0 s.1
        → Progress v (reply d s v).1 × OnOk Q (reply d s v).0 (reply d s v).1
    at answered s v h = h
    at refused s v h = (Progress-refl v, tt)
    at reply_lost s v h = (h.0, tt)

-- Statements that neither write the outbox nor send.
pub Along-elsewhere :
    {A : Type 0} (f : Outside → World → A × World) (w : World)
    → ((env : Outside) (v : World)
        → ((f env v).1.outbox ≡ v.outbox)
          × ((f env v).1.posts ≡ v.posts)
          × ((f env v).1.audit_events ≡ v.audit_events))
    → Along (call (query f)) Nothing w
Along-elsewhere f w same =
    Along-query f Nothing w
      λ env v _. (Progress-elsewhere v (f env v).1 (same env v).0 (same env v).1 (same env v).2, tt)

pub Along-recover_stuck : (w : World) → Along recover_stuck Nothing w
unfolding recover_stuck
Along-recover_stuck w = Along-query _ Nothing w λ env v _. (
  Progress-rows v _ (λ i. recover_row env.now)
      (λ i. find_row-map outbox_key (recover_row env.now) (λ r. ground arith) i v.outbox)
      (λ i q. (ground arith, ground arith, ground arith)) (λ q found done. inl (ground arith)),
  tt,
)

rows_of-Stored : (w : World) (ids : List ℕ) → All (λ r. Stored r w) (rows_of w.outbox ids)
rows_of-Stored w [] = tt
rows_of-Stored w (i ∷ ids) = elim (Option-cases (find_row outbox_key i w.outbox)) [
  | inl e ↦ rw (e, rows_of) (rows_of-Stored w ids)
  | inr (r, e) ↦
      rw (e, rows_of)
        (
          (
            r,
            ap (λ (j : ℕ). find_row outbox_key j w.outbox) (key-find_row outbox_key i w.outbox r e)
                ∙ e,
            (refl, refl, refl),
          ),
          rows_of-Stored w ids,
        )
]

pub Along-claim_due :
    (batch : ℕ) (w : World) → Along (claim_due batch) (λ rows v. All (λ r. Stored r v) rows) w
unfolding claim_due
Along-claim_due batch w = Along-query _ _ w λ env v _.
    let ids = due_ids env.now batch v.outbox in
    (
      Progress-rows v _ (λ i. claim_row env.now ids)
          (λ i. find_row-map outbox_key (claim_row env.now ids) (λ r. ground arith) i v.outbox)
          (λ i q. (ground arith, ground arith, ground arith)) (λ q found done. inl (ground arith)),
      rows_of-Stored (claim env.now batch v).1 ids,
    )

-- One row is updated, and marked as delivered only if it was accepted.
Progress-set_row :
    (i : ℕ) (f : OutboxRow → OutboxRow) (w : World)
    → ((q : OutboxRow) → ((f q).id ≡ q.id) × SameMessage q (f q))
    → ((q : OutboxRow)
        → q.id ≡ i
        → find_row outbox_key i w.outbox ≡ some q
        → is_delivered (f q).status ≡ true
        → Accepted q w)
    → Progress w (set_row i f w)
Progress-set_row i f w keeps earned =
    Progress-rows w _ (λ j q. if i == j then f q else q)
      (λ j. ground (arith, find_row-update_row outbox_key f (λ q. (keeps q).0) i j w.outbox))
      (λ j q. elim (Bool-cases (i == j)) [
        | inl e ↦ rw e (keeps q).1
        | inr e ↦ rw e (refl, refl, refl)
      ])
      (λ q found done. elim (Bool-cases (i == q.id)) [
        | inl e ↦ inr (earned q (ground arith) (ground arith) (rw e at done))
        | inr e ↦ inl (rw e at done)
      ])

pub Along-set_status :
    (row : OutboxRow) (status : OutboxStatus) (attempts : ℕ) (last_error : Option DeliveryError)
    (w : World)
    → (is_delivered status ≡ true → Stored row w × Accepted row w)
    → Along (set_status row.id status attempts last_error) Nothing w
unfolding set_status
Along-set_status row status attempts last_error w earned = Along-query _ Nothing w λ env v moved. (
  Progress-set_row row.id _ v (λ q. (refl, (refl, refl, refl)))
      (λ q same_id found done.
        let (stored, accepted) = earned done in
        of_row v q same_id found (moved.stored row stored) (moved.accepted row accepted)),
  tt,
)
  where
    of_row :
        (v : World) (q : OutboxRow)
        → q.id ≡ row.id
        → find_row outbox_key row.id v.outbox ≡ some q
        → Stored row v
        → Accepted row v
        → Accepted q v
    of_row v q same_id found (r, there, same) accepted =
        HasPost-same row q v.posts (sym same_id) (cc (same.2)) accepted

pub Along-reschedule :
    (row : OutboxRow) (attempts : ℕ) (last_error : DeliveryError) (w : World)
    → Along (reschedule row attempts last_error) Nothing w
unfolding reschedule
Along-reschedule row attempts last_error w = Along-query _ Nothing w λ env v moved.
    (Progress-set_row row.id _ v (λ q. (refl, (refl, refl, refl))) (λ q _ _ done. cc), tt)

pub Along-record_delivery :
    (delivery : ℕ → ℕ → Delivery) (w : World) → Along (record_delivery delivery) Nothing w
unfolding record_delivery
Along-record_delivery delivery w =
    Along-then _ _ _ w
      (Grows-attempt Progress Progress-refl Progress-trans _ Nothing w
        (Along-elsewhere _ w (λ env v. (refl, refl, refl))))
      (λ _ v _ _. Along-pure tt v)

pub Along-find_client : (id : ℕ) (w : World) → Along (find_client id) Nothing w
unfolding find_client
Along-find_client id w = Along-elsewhere _ w (λ env v. (refl, refl, refl))

pub Along-get_now : (w : World) → Along get_now Nothing w
Along-get_now w =
    Grows-call Progress Progress-refl Progress-trans _ Nothing w λ env v _. (Progress-refl v, tt)
