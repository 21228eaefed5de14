-- ===== src/Payouts/AtMostOnce/Service.antt =====
-- All requests of PayoutsService together, and the bound on the broadcasts of a payout.
use avasettile.Common.{
  ℕ, ◌≡◌, refl, Bool, true, false, String, Option, none, some, arith, ◌==◌, ==_iff, Bool-cases, inl,
  inr,
}
use avasettile.Common.Table.{find_row}
use avasettile.Effect.{
  Error, record_not_found, no_transaction_hash, Result, ok, err, pure, throw, or_throw, from_result,
  ◌>>=◌,
}
use avasettile.Effect.Weakest.{Post, Keeps, Wp-mono, Wp-pure, Wp-throw, Wp->>=, Wp-call, Then}
use avasettile.Effect.Neutral.{Neutral-promise_all}
use avasettile.Records.Common.{RequestContext}
use avasettile.Records.Payout.{PayoutRecord, payout_key, prepared}
use avasettile.World.{
  World, Outside, Config, Viem, Handler, parse_amount, DatabaseAnswer, answered, refused,
  reply_lost, reply,
}
use avasettile.Blockchain.Rail.{TransactionReconciliation}
use avasettile.Payouts.Ledger.{
  Filters, scoped, find_by_id, find_by_external_id, create_or_get_existing, list_payouts,
  existing_or_throw, created_or_existing, in_scope,
}
use avasettile.Payouts.Service.{
  CreatePayout, no_approval, create_payout, finish_create, new_payout, max_exceeded,
  reconcile_payout, reconcile_with, reconcile_patch, get_payout, get_payout_by_external_id,
  list_payout_responses, require_payout,
}
use avasettile.Payouts.AtMostOnce.Potential.{Inv, potential, row_of, IsSound, IsSoundRow, is_open}
use avasettile.Payouts.AtMostOnce.Calls.{
  Neutral-end, Neutral-query, Neutral-statement, Neutral-record_event, Neutral-get_now,
  Neutral-random_uuid, Neutral-other_update, insert_payout-keeps,
}
use avasettile.Payouts.AtMostOnce.Updates.{
  Pays, Idle, Holding, IsFinal, Idle-or_throw, throw_if-Holding, Pays-if, final-Idle,
  Idle-require_payout, Idle-to_response,
}
use avasettile.Payouts.AtMostOnce.Rail.{Idle-reconcile_transaction}
use avasettile.Payouts.AtMostOnce.Authorize.{
  Any, Idle-Any, then_any, then_all, throw-Any, authorize_payout-Any, Idle-respond,
}

closed_of_hash :
    (hash : ℕ) (p : PayoutRecord)
    → IsSound p
    → p.transaction_hash ≡ some hash
    → is_open p.status ≡ false
closed_of_hash hash p sound has = elim (Bool-cases (is_open p.status)) [
  | inl open' ↦ cc (sound open')
  | inr closed ↦ closed
]

-- What `reconcilePayout` writes is final for a payout that had a transaction.
reconcile_patch-IsFinal :
    (now hash : ℕ) (r : TransactionReconciliation) (p : PayoutRecord)
    → IsSound p
    → p.transaction_hash ≡ some hash
    → IsFinal (reconcile_patch now r p) none
reconcile_patch-IsFinal now hash r p sound has at q sound' held =
    let closed = closed_of_hash hash p sound has in ground arith

module _ (i : ℕ) where
  -- A payout that is read is as sound as the row.
  abbrev SoundRow : ℕ → Post (Option PayoutRecord)
  SoundRow id (ok o) t = (id == i) ≡ true → IsSoundRow o
  SoundRow id (err e) t = Unit

  abbrev SoundRead : ℕ → Post PayoutRecord
  SoundRead id (ok p) t = (id == i) ≡ true → IsSound p
  SoundRead id (err e) t = Unit

  scoped-IsSoundRow :
      (scope : Option ℕ) (o : Option PayoutRecord) → IsSoundRow o → IsSoundRow (scoped scope o)
  scoped-IsSoundRow scope none sound = tt
  scoped-IsSoundRow scope (some p) sound = elim (Bool-cases (in_scope scope p.client_id)) [
    | inl seen ↦ rw seen sound
    | inr hidden ↦ rw hidden tt
  ]

  find_by_id-sound :
      (id : ℕ) (scope : Option ℕ) (t : ℕ) → Pays i (find_by_id id scope) t (SoundRow id)
  unfolding find_by_id
  find_by_id-sound id scope t =
      Wp-call (Inv i) (potential i) _ t (SoundRow id) λ env w sound. replied env.database w sound
    where
      replied :
          (d : DatabaseAnswer) (w : World)
          → Inv i w
          → Keeps
              (Inv i)
              (potential i)
              (reply d (scoped scope (find_row payout_key id w.payouts), w) w)
              w
              t
              (SoundRow id)
      replied answered w sound = (
        t,
        sound,
        omega arith,
        λ same. rw ((==_iff id i).0 same) (scoped-IsSoundRow scope (row_of i w) sound),
      )
      replied refused w sound = (t, sound, omega arith, tt)
      replied reply_lost w sound = (t, sound, omega arith, tt)

  require_payout-sound :
      (id : ℕ) (ctx : RequestContext) (t : ℕ) → Pays i (require_payout id ctx) t (SoundRead id)
  unfolding require_payout
  require_payout-sound id ctx t = Wp->>= (Inv i) (potential i) _ _ t (SoundRead id) (
      Wp-mono (Inv i) (potential i) _ t (SoundRow id)
        (Then (Inv i) (potential i) (λ o. or_throw o record_not_found) (SoundRead id)) found
        (find_by_id-sound id ctx.client_id t))
    where
      found :
          (r : Result (Option PayoutRecord)) (s : ℕ)
          → SoundRow id r s
          → Then {E = Outside}
              (Inv i)
              (potential i)
              (λ o. or_throw o record_not_found)
              (SoundRead id)
              r
              s
      found (ok none) s sound =
          Wp-throw Outside (Inv i) (potential i) record_not_found s (SoundRead id) tt
      found (ok (some p)) s sound = Wp-pure Outside (Inv i) (potential i) p s (SoundRead id) sound
      found (err e) s sound = tt

  Idle-from_result : {A : Type 0} (r : Result A) (t : ℕ) → Pays i (from_result r) t Any
  Idle-from_result (ok a) t = Idle-Any i _ t (Neutral-end i a)
  Idle-from_result (err e) t = throw-Any i _ e t

  Idle-find_by_external_id :
      (client : Option ℕ) (external_id : String) → Idle i (find_by_external_id client external_id)
  unfolding find_by_external_id
  Idle-find_by_external_id client external_id = Neutral-query i _ (λ env w. (refl, refl))

  create_or_get_existing-Any :
      (p : PayoutRecord) (t : ℕ)
      → (p.status ≡ prepared) × (p.transaction_hash ≡ none)
      → Pays i (create_or_get_existing p) t Any
  unfolding create_or_get_existing
  create_or_get_existing-Any p t fresh =
      then_any i _ _ t
        (Neutral-statement i _ (λ env w sound. insert_payout-keeps i p w fresh sound))
        λ inserted. then_all i _ _ t Any (Idle-from_result inserted t) row_or_existing
    where
      existing : (o : Option PayoutRecord) (s : ℕ) → Pays i (existing_or_throw o) s Any
      existing none s = throw-Any i _ _ s
      existing (some q) s = Idle-Any i _ s (Neutral-end i (q, true))

      row_or_existing : (o : Option PayoutRecord) (s : ℕ) → Pays i (created_or_existing p o) s Any
      row_or_existing (some q) s = Idle-Any i _ s (Neutral-end i (q, false))
      row_or_existing none s =
          then_any i _ _ s (Idle-find_by_external_id p.client_id p.external_id) (λ o. existing o s)

  throw_then : {A B : Type 0} (f : A → Handler B) (e : Error) (t : ℕ) → Pays i (throw e >>= f) t Any
  unfolding ◌>>=◌
  throw_then {B} f e t = throw-Any i B e t

  pure_then :
      {A B : Type 0} (a : A) (f : A → Handler B) (t : ℕ)
      → Pays i (f a) t Any
      → Pays i (pure a >>= f) t Any
  unfolding ◌>>=◌
  pure_then a f t h = h

  pub get_payout-Any : (id : ℕ) (ctx : RequestContext) (t : ℕ) → Pays i (get_payout id ctx) t Any
  unfolding get_payout
  get_payout-Any id ctx t =
      then_any i _ _ t (Idle-require_payout i id ctx)
        (λ p. Idle-Any i _ t (Idle-to_response i p false))

  pub get_payout_by_external_id-Any :
      (external_id : String) (ctx : RequestContext) (t : ℕ)
      → Pays i (get_payout_by_external_id external_id ctx) t Any
  unfolding get_payout_by_external_id
  get_payout_by_external_id-Any external_id ctx t =
      then_any i _ _ t (Idle-find_by_external_id ctx.client_id external_id) λ found.
        then_any i _ _ t (Idle-or_throw i found record_not_found refl)
          (λ p. Idle-Any i _ t (Idle-to_response i p false))

  pub list_payout_responses-Any :
      (filters : Filters) (ctx : RequestContext) (t : ℕ)
      → Pays i (list_payout_responses filters ctx) t Any
  unfolding list_payout_responses list_payouts
  list_payout_responses-Any filters ctx t =
      then_any i _ _ t (Neutral-query i _ (λ env w. (refl, refl))) λ records.
        Idle-Any i _ t
          (Neutral-promise_all (Inv i) (potential i) _ records (λ p. Idle-to_response i p false))

  module _ (config : Config) (viem : Viem) (ctx : RequestContext) where
    finish_create-Any :
        (dto : CreatePayout) (result : PayoutRecord × Bool) (t : ℕ)
        → Pays i (finish_create config viem ctx dto result) t Any
    unfolding finish_create
    finish_create-Any dto (p, true) t =
        then_any i _ _ t (Neutral-record_event i _ p.id _ _)
          (λ _. Idle-Any i _ t (Idle-to_response i p true))
    finish_create-Any dto (p, false) t = then_any i _ _ t (Neutral-record_event i _ p.id _ _) λ _.
        Pays-if i _ _ _ t Any (authorize_payout-Any i config viem no_approval ctx p.id t)
          (Idle-Any i _ t (Idle-to_response i p false))

    max_exceeded-Any :
        (limit : Option String) (decimals amount t : ℕ)
        → Pays i (max_exceeded config viem ctx limit decimals amount) t Any
    max_exceeded-Any none decimals amount t = Idle-Any i _ t (Neutral-end i tt)
    max_exceeded-Any (some limit) decimals amount t =
        then_all i _ _ t Any (Idle-from_result _ t) λ max_atomic s.
          Wp-mono (Inv i) (potential i) _ s (Holding s) Any (λ r s' q. tt)
            (throw_if-Holding i _ _ s)

    pub create_payout-Any :
        (dto : CreatePayout) (t : ℕ) → Pays i (create_payout config viem ctx dto) t Any
    unfolding create_payout parse_amount
    create_payout-Any dto t = then_all i _ _ t Any (Idle-from_result _ t) λ amount s.
        then_all i _ _ s Any (max_exceeded-Any _ _ amount s) λ _ s'.
          then_any i _ _ s' (Neutral-get_now i) λ now.
            then_any i _ _ s' (Neutral-random_uuid i) λ id.
              then_all i _ _ s' Any
                (create_or_get_existing-Any (new_payout config viem ctx dto id now amount) s'
                  (refl, refl))
                (finish_create-Any dto)

    -- The update is final, or it is of another payout.
    reconcile_with-Any :
        (id : ℕ) (p : PayoutRecord) (hash t : ℕ)
        → ((id == i) ≡ true → IsSound p)
        → p.transaction_hash ≡ some hash
        → Pays i (reconcile_with config viem ctx id p hash) t Any
    unfolding reconcile_with
    reconcile_with-Any id p hash t sound has =
        then_any i _ _ t (Idle-reconcile_transaction i config viem hash) λ r.
          then_any i _ _ t (Neutral-get_now i) λ now.
            then_any i _ _ t
              (elim (Bool-cases (id == i)) [
                | inl same ↦
                    final-Idle i id _ none (reconcile_patch-IsFinal now hash r p (sound same) has)
                | inr ne ↦ Neutral-other_update i id _ none ne
              ])
              λ updated.
                then_any i _ _ t (Neutral-record_event i _ id _ _)
                  λ _. Idle-Any i _ t (Idle-respond i updated)

    pub reconcile_payout-Any : (id t : ℕ) → Pays i (reconcile_payout config viem ctx id) t Any
    unfolding reconcile_payout
    reconcile_payout-Any id t =
        Wp->>= (Inv i) (potential i) _ _ t Any
          (Wp-mono (Inv i) (potential i) _ t (SoundRead id) _ read (require_payout-sound id ctx t))
      where
        with_hash :
            (p : PayoutRecord) (h : Option ℕ) (s : ℕ)
            → ((id == i) ≡ true → IsSound p)
            → p.transaction_hash ≡ h
            → Pays i (or_throw h no_transaction_hash >>= reconcile_with config viem ctx id p) s Any
        with_hash p none s sound has = throw_then _ no_transaction_hash s
        with_hash p (some hash) s sound has =
            pure_then hash _ s (reconcile_with-Any id p hash s sound has)

        read :
            (r : Result PayoutRecord) (s : ℕ)
            → SoundRead id r s
            → Then {E = Outside}
                (Inv i)
                (potential i)
                (λ p.
                  or_throw p.transaction_hash no_transaction_hash
                  >>= reconcile_with config viem ctx id p)
                Any
                r
                s
        read (ok p) s sound = with_hash p p.transaction_hash s sound refl
        read (err e) s sound = tt
