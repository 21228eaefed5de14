-- ===== src/Reconciliation/Covers.antt =====
-- The search for candidates lists every record that is open (src/reconciliation/reconciliation.service.ts).
use avasettile.Common.{
  ℕ, ◌≤◌, ◌<◌, ◌≡◌, refl, sym, ap, subst, ◌∙◌, ◌⊎◌, inl, inr, Bool, true, false, Option, none, some,
  List, [], ◌∷◌, ◌++◌, filter, length, arith,
}
use avasettile.Common.Some.{Some, Some-page, Some-filter, Some-append_left, Some-append_right}
use avasettile.Effect.Returns.{Each}
use avasettile.Effect.Each.{Yields-Each, Yields-weaken, Some-Each}
use avasettile.Effect.Yields.{Anything, Yields, Yields->>=, Yields-pure}
use avasettile.Records.Common.{RequestContext}
use avasettile.Records.Payout.{PayoutRecord, PayoutStatus}
use avasettile.Records.PayIn.{PayInRecord, PayInStatus, same_status}
use avasettile.World.{World, Outside, list_by_subject}
use avasettile.World.Unchanged.{Same, Idle-read, Yields-statement}
use avasettile.Payouts.Ledger as Payouts
use avasettile.Payins.Ledger as Payins
use avasettile.Payouts.Service.{PayoutResponse, to_response, list_payout_responses}
use avasettile.Payins.Service.{PayInResponse, to_payin_response, list_payin_responses}
use avasettile.Reconciliation.Service.{not_expired, payouts_with, payins_with, payin_candidates}

-- The caller's own record, or any if the caller is no client.
abbrev pub InScope : Option ℕ → Option ℕ → Type 0
InScope none client = Unit
InScope (some c) client = client ≡ some c

abbrev pub IsOpenPayout : RequestContext → ℕ → PayoutRecord → Type 0
IsOpenPayout ctx i p =
    (p.id ≡ i) × (p.status ≡ PayoutStatus.broadcasted) × InScope ctx.client_id p.client_id

-- It does not expire, or does so later.
abbrev pub Lives : ℕ → Option ℕ → Type 0
Lives now none = Unit
Lives now (some t) = now < t

abbrev pub IsOpenStatus : ℕ → PayInRecord → PayInStatus → Type 0
IsOpenStatus now p PayInStatus.pending = Lives now p.expires_at
IsOpenStatus now p PayInStatus.detected = Unit
IsOpenStatus now p PayInStatus.underpaid = Unit
IsOpenStatus now p _ = ⊥

-- Detected, underpaid, or pending and not expired.
abbrev pub IsOpenPayIn : RequestContext → (now i : ℕ) → PayInRecord → Type 0
IsOpenPayIn ctx now i p =
    (p.id ≡ i) × InScope ctx.client_id p.client_id × IsOpenStatus now p p.status

abbrev Has : RequestContext → (now i : ℕ) → PayInStatus → PayInRecord → Type 0
Has ctx now i s p =
    (p.id ≡ i) × (p.status ≡ s) × InScope ctx.client_id p.client_id × IsOpenStatus now p s

same_status_refl : (s : PayInStatus) → same_status s s ≡ true
same_status_refl PayInStatus.pending = refl
same_status_refl PayInStatus.detected = refl
same_status_refl PayInStatus.confirmed = refl
same_status_refl PayInStatus.expired = refl
same_status_refl PayInStatus.underpaid = refl
same_status_refl PayInStatus.overpaid = refl

in_scope-InScope :
    (scope client : Option ℕ) → InScope scope client → Payouts.in_scope scope client ≡ true
in_scope-InScope none client h = refl
in_scope-InScope (some c) none h = absurd (ground arith)
in_scope-InScope (some c) (some d) h = ground arith

module _ (ctx : RequestContext) (w : World) where
  payout_meets :
      (i : ℕ) (p : PayoutRecord)
      → IsOpenPayout ctx i p
      → Payouts.meets
          (record (payouts_with PayoutStatus.broadcasted) { client_id = ctx.client_id })
          p
        ≡ true
  payout_meets i p (named, sent, mine) =
      simp (in_scope-InScope ctx.client_id p.client_id mine, sent) refl

  Yields-to_response :
      (p : PayoutRecord) (replay : Bool)
      → Yields (Same w) (to_response p replay) (λ r. r.payout ≡ p)
  unfolding to_response list_by_subject
  Yields-to_response p replay =
      Yields->>= (Same w) _ _ Anything _ (Idle-read w _)
        (λ trail _. Yields-pure Outside (Same w) _ _ refl)

  Yields-to_payin_response :
      (p : PayInRecord) (replay : Bool)
      → Yields (Same w) (to_payin_response p replay) (λ r. r.payin ≡ p)
  unfolding to_payin_response list_by_subject
  Yields-to_payin_response p replay =
      Yields->>= (Same w) _ _ Anything _ (Idle-read w _)
        (λ trail _. Yields-pure Outside (Same w) _ _ refl)

  abbrev pub ListsPayouts : ℕ → List PayoutResponse → Type 0
  ListsPayouts i rs =
      Some (IsOpenPayout ctx i) w.payouts → Some (λ (r : PayoutResponse). r.payout.id ≡ i) rs

  pub Yields-open_payouts :
      (few : length w.payouts ≤ 1000) (i : ℕ)
      → Yields
          (Same w)
          (list_payout_responses (payouts_with PayoutStatus.broadcasted) ctx)
          (ListsPayouts i)
  unfolding list_payout_responses Payouts.list_payouts
  Yields-open_payouts few i =
      Yields->>= (Same w) _ _
        (λ ps. Some (IsOpenPayout ctx i) w.payouts → Some (IsOpenPayout ctx i) ps) _
        (Yields-statement w _ _ λ env. (
          refl,
          λ there. Some-page (IsOpenPayout ctx i) 1000 _ _ (payout_meets i) w.payouts few there,
        ))
        λ records found.
          Yields-weaken (Same w) _ (Each (λ p (r : PayoutResponse). r.payout ≡ p) records) _
            (Yields-Each (Same w) _ _ records (λ p. Yields-to_response p false))
            (λ rs each there.
              Some-Each _ (IsOpenPayout ctx i) _
                (λ p r same h. ap (λ (q : PayoutRecord). q.id) same ∙ h.0) records rs each
                (found there))

  module _ (now i : ℕ) where
    payin_meets :
        (s : PayInStatus) (p : PayInRecord)
        → Has ctx now i s p
        → Payins.meets (record (payins_with s) { client_id = ctx.client_id }) p ≡ true
    payin_meets s p (named, st, mine, live) =
        simp (in_scope-InScope ctx.client_id p.client_id mine, st, same_status_refl s) refl

    -- The list of one status, as far as one record is concerned.
    abbrev pub Lists : PayInStatus → List PayInResponse → Type 0
    Lists s rs =
        Some (Has ctx now i s) w.payins → Some (λ (r : PayInResponse). Has ctx now i s r.payin) rs

    pub Yields-list_payin_responses :
        length w.payins ≤ 1000
        → (s : PayInStatus) → Yields (Same w) (list_payin_responses (payins_with s) ctx) (Lists s)
    unfolding list_payin_responses Payins.list_payins
    Yields-list_payin_responses few s =
        Yields->>= (Same w) _ _ (λ ps. Some (Has ctx now i s) w.payins → Some (Has ctx now i s) ps)
          _
          (Yields-statement w _ _ λ env. (
            refl,
            λ there. Some-page (Has ctx now i s) 1000 _ _ (payin_meets s) w.payins few there,
          ))
          λ records found.
            Yields-weaken (Same w) _ (Each (λ p (r : PayInResponse). r.payin ≡ p) records) _
              (Yields-Each (Same w) _ _ records (λ p. Yields-to_payin_response p false))
              (λ rs each there.
                Some-Each _ (Has ctx now i s) _ (λ p r same h. subst (Has ctx now i s) (sym same) h)
                  records rs each (found there))

    Some-id :
        (s : PayInStatus) (rs : List PayInResponse)
        → Some (λ (r : PayInResponse). Has ctx now i s r.payin) rs
        → Some (λ (r : PayInResponse). r.payin.id ≡ i) rs
    Some-id s [] h = h
    Some-id s (r ∷ rs) (inl h) = inl h.0
    Some-id s (r ∷ rs) (inr h) = inr (Some-id s rs h)

    abbrev OneOf : List PayInRecord → Type 0
    OneOf ps =
        Some (Has ctx now i PayInStatus.pending) ps
        ⊎ (Some (Has ctx now i PayInStatus.detected) ps
            ⊎ Some (Has ctx now i PayInStatus.underpaid) ps)

    first_OneOf :
        (p : PayInRecord) (ps : List PayInRecord) (s : PayInStatus)
        → p.status ≡ s
        → IsOpenPayIn ctx now i p
        → OneOf (p ∷ ps)
    first_OneOf p ps PayInStatus.pending st (named, mine, live) =
        inl (inl (named, st, mine, subst (IsOpenStatus now p) st live))
    first_OneOf p ps PayInStatus.detected st (named, mine, live) =
        inr (inl (inl (named, st, mine, tt)))
    first_OneOf p ps PayInStatus.underpaid st (named, mine, live) =
        inr (inr (inl (named, st, mine, tt)))
    first_OneOf p ps PayInStatus.confirmed st (named, mine, live) =
        absurd (subst (IsOpenStatus now p) st live)
    first_OneOf p ps PayInStatus.expired st (named, mine, live) =
        absurd (subst (IsOpenStatus now p) st live)
    first_OneOf p ps PayInStatus.overpaid st (named, mine, live) =
        absurd (subst (IsOpenStatus now p) st live)

    next_OneOf : (p : PayInRecord) (ps : List PayInRecord) → OneOf ps → OneOf (p ∷ ps)
    next_OneOf p ps (inl h) = inl (inr h)
    next_OneOf p ps (inr (inl h)) = inr (inl (inr h))
    next_OneOf p ps (inr (inr h)) = inr (inr (inr h))

    pub Some-OneOf : (ps : List PayInRecord) → Some (IsOpenPayIn ctx now i) ps → OneOf ps
    Some-OneOf [] h = absurd h
    Some-OneOf (p ∷ ps) (inl h) = first_OneOf p ps p.status refl h
    Some-OneOf (p ∷ ps) (inr h) = next_OneOf p ps (Some-OneOf ps h)

    live_kept :
        (r : PayInResponse) → Has ctx now i PayInStatus.pending r.payin → not_expired now r ≡ true
    live_kept r (named, st, mine, live) = by_time r.payin.expires_at refl live
      where
        by_time : (o : Option ℕ) → r.payin.expires_at ≡ o → Lives now o → not_expired now r ≡ true
        by_time none e h = ground (arith, e)
        by_time (some t) e h = ground (arith, e)

    pub candidates_cover :
        (lists : List (List PayInResponse))
        → Each Lists (PayInStatus.pending ∷ PayInStatus.detected ∷ PayInStatus.underpaid ∷ []) lists
        → OneOf w.payins
        → Some (λ (r : PayInResponse). r.payin.id ≡ i) (payin_candidates now lists)
    candidates_cover (a ∷ b ∷ c ∷ []) (pending, (detected, (underpaid, end))) (inl h) =
        let living = filter (not_expired now) a in
        Some-append_left _ (living ++ b) c (
          Some-append_left _ living b (
            Some-id PayInStatus.pending living
              (Some-filter _ (not_expired now) live_kept a (pending h))))
    candidates_cover (a ∷ b ∷ c ∷ []) (pending, (detected, (underpaid, end))) (inr (inl h)) =
        let living = filter (not_expired now) a in
        Some-append_left _ (living ++ b) c
          (Some-append_right _ living b (Some-id PayInStatus.detected b (detected h)))
    candidates_cover (a ∷ b ∷ c ∷ []) (pending, (detected, (underpaid, end))) (inr (inr h)) =
        Some-append_right _ (filter (not_expired now) a ++ b) c
          (Some-id PayInStatus.underpaid c (underpaid h))
    candidates_cover [] h s = absurd h
    candidates_cover (a ∷ []) (pending, h) s = absurd h
    candidates_cover (a ∷ b ∷ []) (pending, (detected, h)) s = absurd h
    candidates_cover (a ∷ b ∷ c ∷ d ∷ rest) (pending, (detected, (underpaid, h))) s = absurd h
