-- ===== src/Settlements/Opening.antt =====
-- That every stored commitment can be opened by its row, and every preimage that is sent to the
-- registry opens a commitment: the invariant, and the calls that keep it
-- (src/settlements/settlements.repository.ts, src/blockchain/blockchain.service.ts).
use avasettile.Common.{ℕ, ◌≡◌, Option, none, some, All, any, Bool-cases, Option-cases, inl, inr}
use avasettile.Common.Table.{find_row, All-append, All-find_row, All-update_row, All-delete_row}
use avasettile.Effect.{Error, Result, ok, err, pure, throw, call, or_throw, ◌>>=◌}
use avasettile.Effect.Yields.{
  On, Anything, Yields, Yields-pure, Yields-throw, Yields->>=, Yields-call,
}
use avasettile.Records.Common.{AuditEventType, AuditActor, Json}
use avasettile.Records.Settlement.{
  PrivateSettlementRecord, settlement_key, SettlementPatch, apply_patch, Publication,
  record_commitment, reveal_preimage,
}
use avasettile.World.{
  World, Outside, DatabaseAnswer, answered, refused, reply_lost, reply, query, Viem, Handler,
  record_event,
}
use avasettile.Settlements.Registry.{
  compute_settlement_id, compute_settlement_commitment, settlement_ref_from_external_id,
}
use avasettile.Settlements.Repository.{
  insert_settlement, update_found, same_settlement, update_settlement, delete_settlement,
  find_by_id, scoped,
}
use avasettile.Payouts.Ledger.{in_scope}

module _ (viem : Viem) where
  -- The row's commitment is that of its own amount, token, counterparty and nonce, and its settlement id
  -- that of its external id.
  pub record IsOpening (s : PrivateSettlementRecord) : Type 0 where
    pub opens :
        s.commitment
        ≡ compute_settlement_commitment viem s.amount_atomic s.token_address s.counterparty s.nonce
    pub ref_of : s.settlement_ref ≡ settlement_ref_from_external_id viem s.external_id
    pub id_of : s.settlement_id ≡ compute_settlement_id viem s.settlement_ref

  -- A preimage that is sent hashes to the commitment of the row that it is sent for.
  abbrev pub OpensCommitment : Publication → Type 0
  OpensCommitment (record_commitment settlement_ref commitment) = Unit
  OpensCommitment (reveal_preimage commitment id amount token counterparty nonce) =
      commitment ≡ compute_settlement_commitment viem amount token counterparty nonce

  abbrev pub Inv : World → Type 0
  Inv w = All IsOpening w.settlements × All OpensCommitment w.publications

-- What was read or written, if there is anything.
abbrev pub Found : (PrivateSettlementRecord → Type 0) → Option PrivateSettlementRecord → Type 0
Found P none = Unit
Found P (some s) = P s

module _ (viem : Viem) where
  -- A handler that keeps the invariant, with what it gives.
  abbrev pub Gives : {A : Type 0} → Handler A → (A → Type 0) → Type 0
  Gives p P = Yields (Inv viem) p P

  pub Gives-then :
      {A B : Type 0} (p : Handler A) (f : A → Handler B) (P : A → Type 0)
      → Gives p P
      → ((a : A) → P a → Gives (f a) Anything)
      → Gives (p >>= f) Anything
  Gives-then p f P = Yields->>= (Inv viem) p f P Anything

  pub Gives-pure : {A : Type 0} (a : A) → Gives (let p : Handler A = pure a in p) Anything
  Gives-pure a = Yields-pure Outside (Inv viem) a Anything tt

  pub Gives-throw : (A : Type 0) (e : Error) → Gives (let p : Handler A = throw e in p) Anything
  Gives-throw A e = Yields-throw Outside (Inv viem) e Anything

  pub Gives-or_throw : {A : Type 0} (o : Option A) (e : Error) → Gives (or_throw o e) Anything
  Gives-or_throw none e = Gives-throw _ e
  Gives-or_throw (some a) e = Gives-pure a

  pub Gives-query :
      {A : Type 0} (f : Outside → World → A × World) (P : A → Type 0)
      → ((env : Outside) (w : World) → Inv viem w → Inv viem (f env w).1 × P (f env w).0)
      → Gives (call (query f)) P
  Gives-query {A} f P h =
      Yields-call (Inv viem) (query f) P
        λ env w inv. replied env.database (f env w) w (h env w inv) inv
    where
      replied :
          (d : DatabaseAnswer) (s : A × World) (w : World)
          → Inv viem s.1 × P s.0
          → Inv viem w
          → Inv viem (reply d s w).1 × On P (reply d s w).0 0
      replied answered s w (inv', got) inv = (inv', got)
      replied refused s w (inv', got) inv = (inv, tt)
      replied reply_lost s w (inv', got) inv = (inv', tt)

  -- A call that answers something and changes nothing here.
  pub Gives-call :
      {A : Type 0} (c : Outside → World → Result A × World)
      → ((env : Outside) (w : World) → Inv viem w → Inv viem (c env w).1)
      → Gives (call c) Anything
  Gives-call {A} c keep =
      Yields-call (Inv viem) c Anything (λ env w inv. (keep env w inv, anything (c env w).0))
    where
      anything : (r : Result A) → On Anything r 0
      anything (ok a) = tt
      anything (err e) = tt

  abbrev Inserted : Result (Option PrivateSettlementRecord) → Type 0
  Inserted (ok o) = Found (IsOpening viem) o
  Inserted (err e) = Unit

  Inv-insert :
      (s : PrivateSettlementRecord) (w : World)
      → IsOpening viem s
      → Inv viem w
      → Inv viem (insert_settlement s w).1 × Inserted (insert_settlement s w).0
  Inv-insert s w new (rows, sent) =
      elim (Bool-cases (any (same_settlement s.client_id s.external_id) w.settlements)) [
        | inl e ↦ rw e ((rows, sent), tt)
        | inr e ↦ elim (Option-cases (find_row settlement_key s.id w.settlements)) [
          | inl free ↦
              rw (e, free) ((All-append (IsOpening viem) w.settlements s rows new, sent), new)
          | inr (q, taken) ↦ rw (e, taken) ((rows, sent), tt)
        ]
      ]

  apply_patch-IsOpening :
      (now : ℕ) (patch : SettlementPatch) (s : PrivateSettlementRecord)
      → IsOpening viem s
      → IsOpening viem (apply_patch now patch s)
  apply_patch-IsOpening now patch s h = record {
    opens = h.opens;
    ref_of = h.ref_of;
    id_of = h.id_of;
  }

  Inv-update_found :
      (now : ℕ) (patch : SettlementPatch) (w : World) (o : Option PrivateSettlementRecord)
      → Inv viem w
      → Inv viem (update_found now patch w o).1
  Inv-update_found now patch w none inv = inv
  Inv-update_found now patch w (some s) (rows, sent) = (
    All-update_row (IsOpening viem) settlement_key s.id (apply_patch now patch) w.settlements
        (apply_patch-IsOpening now patch) rows,
    sent,
  )

  pub Gives-insert :
      (s : PrivateSettlementRecord)
      → IsOpening viem s
      → Gives (call (query (λ _ w. insert_settlement s w))) Inserted
  Gives-insert s new = Gives-query _ Inserted (λ env w inv. Inv-insert s w new inv)

  pub Gives-update_settlement :
      (id : ℕ) (patch : SettlementPatch) → Gives (update_settlement id patch) Anything
  unfolding update_settlement
  Gives-update_settlement id patch = Gives-query _ Anything (λ env w inv.
      (Inv-update_found env.now patch w (find_row settlement_key id w.settlements) inv, tt))

  pub Gives-delete_settlement : (id : ℕ) → Gives (delete_settlement id) Anything
  unfolding delete_settlement
  Gives-delete_settlement id = Gives-query _ Anything λ env w inv.
      ((All-delete_row (IsOpening viem) settlement_key id w.settlements inv.0, inv.1), tt)

  Found-IsOpening :
      (scope : Option ℕ) (o : Option PrivateSettlementRecord)
      → Found (IsOpening viem) o
      → Found (IsOpening viem) (scoped scope o)
  Found-IsOpening scope none h = tt
  Found-IsOpening scope (some s) h = elim (Bool-cases (in_scope scope s.client_id)) [
    | inl e ↦ rw e h
    | inr e ↦ rw e tt
  ]

  find_row-IsOpening :
      (id : ℕ) (w : World)
      → Inv viem w
      → Found (IsOpening viem) (find_row settlement_key id w.settlements)
  find_row-IsOpening id w (rows, sent) =
      elim (Option-cases (find_row settlement_key id w.settlements)) [
        | inl e ↦ rw e tt
        | inr (s, e) ↦ rw e (All-find_row (IsOpening viem) settlement_key id w.settlements s rows e)
      ]

  pub Gives-find_by_id :
      (id : ℕ) (scope : Option ℕ) → Gives (find_by_id id scope) (Found (IsOpening viem))
  unfolding find_by_id
  Gives-find_by_id id scope = Gives-query _ (Found (IsOpening viem)) λ env w inv. (
    inv,
    Found-IsOpening scope (find_row settlement_key id w.settlements) (find_row-IsOpening id w inv),
  )

  pub Gives-record_event :
      (type : AuditEventType) (id : ℕ) (actor : AuditActor) (payload : Json)
      → Gives (record_event type id actor payload) Anything
  unfolding record_event
  Gives-record_event type id actor payload =
      Gives-then _ _ Anything (Gives-call _ (λ env w inv. inv)) λ uuid _.
        Gives-then _ _ Anything (Gives-call _ (λ env w inv. inv)) λ now _.
          Gives-then _ _ Anything (Gives-query _ Anything (λ env w inv. (inv, tt)))
            (λ _ _. Gives-pure _)
