-- ===== src/Payouts/AtMostOnce/Updates.antt =====
-- The transitions of a payout: the claim takes a token, the release gives it back, and the writes
-- of an outcome are for nothing. Then the reads of the ledger and the service.
use avasettile.Common.{
  ℕ, ◌+◌, ◌*◌, ◌≤◌, ◌≡◌, refl, subst, Bool, true, false, Option, none, some, List, [], ◌∷◌, arith,
  if◌then◌else◌,
}
use avasettile.Effect.{
  Error, is_conflict, record_not_found, database_error, Result, ok, err, or_throw, ◌>>=◌,
}
use avasettile.Effect.Weakest.{Wp, Post, Wp-mono, Wp-pure, Wp-throw, Wp->>=, Then}
use avasettile.Effect.Neutral.{Calm, Neutral, Neutral-throw, Neutral->>=, Wp-then-Neutral}
use avasettile.Records.Common.{RequestContext}
use avasettile.Records.Payout.{
  PayoutRecord, PayoutStatus, PayoutPatch, prepared, authorized, apply_patch,
}
use avasettile.World.{Outside, Handler, throw_if}
use avasettile.Payouts.Ledger.{update_payout, find_by_id, permitted}
use avasettile.Payouts.Service.{claim_patch, require_payout, to_response}
use avasettile.Payouts.AtMostOnce.Potential.{
  Inv, potential, owns, gained, is_open, IsSound, weight, IsRowOf,
}
use avasettile.Payouts.AtMostOnce.Calls.{
  update_payout-Wp, Neutral-end, Neutral-query, Neutral-list_by_subject,
}

-- The tokens are those of before, and no `ConflictException` was thrown.
abbrev pub Kept : {A : Type 0} → ℕ → Post A
Kept t r t' = (t' ≡ t) × Calm r

-- The tokens are those of before.
abbrev pub Holding : {A : Type 0} → ℕ → Post A
Holding t r t' = t' ≡ t

-- Where the guard lets it through, the patch leaves a row that nobody may claim or send.
abbrev pub IsFinal : PayoutPatch → Option (List PayoutStatus) → Type 0
IsFinal patch guard =
    (now : ℕ) (p : PayoutRecord)
    → IsSound p
    → permitted guard p.status ≡ true
    → is_open (apply_patch now patch p).status ≡ false

-- The patch keeps an authorized row sound.
abbrev pub IsRelease : PayoutPatch → Type 0
IsRelease patch =
    (now : ℕ) (p : PayoutRecord)
    → IsSound p
    → permitted (some (authorized ∷ [])) p.status ≡ true
    → IsSound (apply_patch now patch p)

module _ (i : ℕ) where
  -- A handler's tokens are spent as the postcondition says.
  abbrev pub Pays : {A : Type 0} → Handler A → ℕ → Post A → Type 0
  Pays p t Q = Wp (Inv i) (potential i) p t Q

  abbrev pub Idle : {A : Type 0} → Handler A → Type 0
  Idle p = Neutral (Inv i) (potential i) p

  claim_allowed :
      (claimed_at now : ℕ) (p : PayoutRecord)
      → IsSound p
      → permitted (some (prepared ∷ [])) p.status ≡ true
      → IsSound (apply_patch now (claim_patch claimed_at) p)
        × (weight (apply_patch now (claim_patch claimed_at) p) + 1 ≤ weight p + 0)
  claim_allowed claimed_at now p sound granted = ground arith

  -- A granted claim of the payout comes with a token.
  pub claim-Pays :
      (id now t : ℕ) (Q : Post (Option PayoutRecord))
      → ((p : PayoutRecord) → p.id ≡ id → Q (ok (some p)) (owns i id + t))
      → Q (ok none) t
      → Q (err database_error) t
      → Pays (update_payout id (claim_patch now) (some (prepared ∷ []))) t Q
  claim-Pays id now t Q granted lost failed =
      subst (λ n. Pays (update_payout id (claim_patch now) (some (prepared ∷ []))) n Q)
        (omega arith)
        (update_payout-Wp i (claim_patch now) (some (prepared ∷ [])) 0 1 (claim_allowed now) id t Q
          outcome failed)
    where
      outcome : (r : Option PayoutRecord) → IsRowOf id r → Q (ok r) (owns i id * gained 1 r + t)
      outcome none same = subst (Q (ok none)) (omega arith) lost
      outcome (some p) same = subst (Q (ok (some p))) (omega arith) (granted p same)

  -- The release of an authorized payout is paid with its token.
  pub release-Pays :
      (id t : ℕ) (patch : PayoutPatch)
      → IsRelease patch
      → Pays (update_payout id patch (some (authorized ∷ []))) (owns i id + t) (Kept t)
  release-Pays id t patch release =
      subst (λ n. Pays (update_payout id patch (some (authorized ∷ []))) n (Kept t)) (omega arith)
        (update_payout-Wp i patch (some (authorized ∷ [])) 1 0 allowed id t (Kept t) outcome
          (refl, refl))
    where
      allowed :
          (now : ℕ) (p : PayoutRecord)
          → IsSound p
          → permitted (some (authorized ∷ [])) p.status ≡ true
          → IsSound (apply_patch now patch p)
            × (weight (apply_patch now patch p) + 0 ≤ weight p + 1)
      allowed now p sound held = (release now p sound held, ground arith)

      outcome :
          (r : Option PayoutRecord)
          → IsRowOf id r
          → (owns i id * gained 0 r + t ≡ t) × Calm {A = Option PayoutRecord} (ok r)
      outcome none same = (omega arith, tt)
      outcome (some p) same = (omega arith, tt)

  -- A write that leaves the payout neither prepared nor authorized costs nothing.
  pub final-Idle :
      (id : ℕ) (patch : PayoutPatch) (guard : Option (List PayoutStatus))
      → IsFinal patch guard
      → Idle (update_payout id patch guard)
  unfolding Neutral
  final-Idle id patch guard final t =
      subst (λ n. Pays (update_payout id patch guard) n (Kept t)) (omega arith)
        (update_payout-Wp i patch guard 0 0 allowed id t (Kept t) outcome (refl, refl))
    where
      allowed :
          (now : ℕ) (p : PayoutRecord)
          → IsSound p
          → permitted guard p.status ≡ true
          → IsSound (apply_patch now patch p)
            × (weight (apply_patch now patch p) + 0 ≤ weight p + 0)
      allowed now p sound held = let closed = final now p sound held in (ground arith, ground arith)

      outcome :
          (r : Option PayoutRecord)
          → IsRowOf id r
          → (owns i id * gained 0 r + t ≡ t) × Calm {A = Option PayoutRecord} (ok r)
      outcome none same = (omega arith, tt)
      outcome (some p) same = (omega arith, tt)

  -- The rules for a step that is idle.
  pub then_idle :
      {A B : Type 0} (p : Handler A) (f : A → Handler B) (t : ℕ) (Q : Post B)
      → Idle p
      → ((a : A) → Pays (f a) t Q)
      → ((e : Error) → is_conflict e ≡ false → Q (err e) t)
      → Pays (p >>= f) t Q
  then_idle = Wp-then-Neutral (Inv i) (potential i)

  pub Idle->>= :
      {A B : Type 0} (p : Handler A) (f : A → Handler B)
      → Idle p
      → ((a : A) → Idle (f a))
      → Idle (p >>= f)
  Idle->>= = Neutral->>= (Inv i) (potential i)

  pub Idle-or_throw :
      {A : Type 0} (o : Option A) (e : Error) → is_conflict e ≡ false → Idle (or_throw o e)
  Idle-or_throw {A} none e calm = Neutral-throw Outside (Inv i) (potential i) A e calm
  Idle-or_throw (some a) e calm = Neutral-end i a

  pub Idle-throw_if : (b : Bool) (e : Error) → is_conflict e ≡ false → Idle (throw_if b e)
  Idle-throw_if true e calm = Neutral-throw Outside (Inv i) (potential i) _ e calm
  Idle-throw_if false e calm = Neutral-end i tt

  pub Idle-find_by_id : (id : ℕ) (scope : Option ℕ) → Idle (find_by_id id scope)
  unfolding find_by_id
  Idle-find_by_id id scope = Neutral-query i _ (λ env w. (refl, refl))

  pub Idle-require_payout : (id : ℕ) (ctx : RequestContext) → Idle (require_payout id ctx)
  unfolding require_payout
  Idle-require_payout id ctx =
      Idle->>= _ _ (Idle-find_by_id id ctx.client_id) (λ o. Idle-or_throw o record_not_found refl)

  pub Idle-to_response : (p : PayoutRecord) (replay : Bool) → Idle (to_response p replay)
  unfolding to_response
  Idle-to_response p replay =
      Idle->>= _ _ (Neutral-list_by_subject i p.id) (λ trail. Neutral-end i _)

  pub Idle-Holding : {A : Type 0} (p : Handler A) (t : ℕ) → Idle p → Pays p t (Holding t)
  unfolding Neutral
  Idle-Holding p t idle =
      Wp-mono (Inv i) (potential i) p t (Kept t) (Holding t) (λ r t' kept. kept.0) (idle t)

  pub then_holding :
      {A B : Type 0} (p : Handler A) (f : A → Handler B) (t : ℕ) (Q : Post B)
      → Pays p t (Holding t)
      → ((a : A) → Pays (f a) t Q)
      → ((e : Error) → Q (err e) t)
      → Pays (p >>= f) t Q
  then_holding {A} p f t Q holding next failed =
      Wp->>= (Inv i) (potential i) p f t Q (
        Wp-mono (Inv i) (potential i) p t (Holding t) (Then (Inv i) (potential i) f Q) cases
          holding)
    where
      cases : (r : Result A) (t' : ℕ) → t' ≡ t → Then (Inv i) (potential i) f Q r t'
      cases (ok a) t' e = rw e (next a)
      cases (err x) t' e = rw e (failed x)

  pub throw_if-Holding : (b : Bool) (e : Error) (t : ℕ) → Pays (throw_if b e) t (Holding t)
  throw_if-Holding true e t = Wp-throw Outside (Inv i) (potential i) e t (Holding t) refl
  throw_if-Holding false e t = Wp-pure Outside (Inv i) (potential i) tt t (Holding t) refl

  pub Idle-if :
      {A : Type 0} (b : Bool) (p q : Handler A) → Idle p → Idle q → Idle (if b then p else q)
  Idle-if true p q hp hq = hp
  Idle-if false p q hp hq = hq

  pub Pays-if :
      {A : Type 0} (b : Bool) (p q : Handler A) (t : ℕ) (Q : Post A)
      → Pays p t Q
      → Pays q t Q
      → Pays (if b then p else q) t Q
  Pays-if true p q t Q hp hq = hp
  Pays-if false p q t Q hp hq = hq
