-- ===== src/Payouts/AtMostOnce/Batch.antt =====
-- `authorizePayoutBatch` under the potential: the claims collect a token for each leg, the batch
-- transaction spends all of them at once, and a rollback or a release gives each back.
use avasettile.Common.{
  ℕ, ◌+◌, ◌≡◌, refl, ap, subst, true, Option, none, some, List, [], ◌∷◌, ◌++◌, arith, map, sum_of,
  sum_of-append, Bool-cases, inl, inr,
}
use avasettile.Effect.{
  Error, is_conflict, no_payout_ids, mixed_assets, not_prepared, vault_required,
  insufficient_treasury_balance, claim_lost, broadcast_failed, null_dereference, Result, ok, err,
  try_catch, attempt, promise_all, from_result, settle, ◌>>=◌, ◌>>◌,
}
use avasettile.Effect.Weakest.{
  Post, Wp-mono, Wp-pure, Wp-throw, Wp->>=, Then, Wp-try_catch, Caught, Wp-attempt,
}
use avasettile.Effect.Neutral.{Neutral-throw, Neutral-promise_all, Neutral-for_each}
use avasettile.Records.Common.{SettlementAsset, RequestContext}
use avasettile.Records.Payout.{PayoutRecord}
use avasettile.World.{Outside, Config, Viem, Handler}
use avasettile.Blockchain.Rail.{TransferExecution}
use avasettile.Payouts.Service.{
  AuthorizePayout, release_patch, rollback_patch, roll_back, claim_all, audit_claim, audit_sent,
  send_batch, batch_failed, claim_and_send, check_and_send, authorize_payout_batch, leg_input,
  respond,
}
use avasettile.Payouts.AtMostOnce.Potential.{Inv, potential, owns}
use avasettile.Payouts.AtMostOnce.Calls.{Neutral-end, Neutral-record_event, Neutral-get_now}
use avasettile.Payouts.AtMostOnce.Updates.{
  Pays, Idle, Kept, Holding, IsRelease, Idle->>=, Idle-throw_if, throw_if-Holding, claim-Pays,
  release-Pays, final-Idle, Idle-require_payout,
}
use avasettile.Payouts.AtMostOnce.Rail.{Spends, vault_payout_batch-Spends, Idle-get_asset_balance}
use avasettile.Payouts.AtMostOnce.Authorize.{
  Any, Idle-Any, then_any, then_all, throw-Any, then_after, Idle-notify_confirmed, Idle-respond,
  sent_patch-IsFinal, failure_patch-IsFinal, release_patch-IsRelease,
}

rollback_patch-IsRelease : IsRelease rollback_patch
rollback_patch-IsRelease at p sound held = ground arith

module _ (i : ℕ) where
  -- A token for each row that is the payout's.
  abbrev owned : List PayoutRecord → ℕ
  owned = sum_of (λ (p : PayoutRecord). owns i p.id)

  attempt_then :
      {A B : Type 0} (p : Handler A) (f : Result A → Handler B) (n m : ℕ)
      → Pays i p n (Kept m)
      → ((r : Result A) → Pays i (f r) m Any)
      → Pays i (attempt p >>= f) n Any
  attempt_then {A} p f n m paid next = Wp->>= (Inv i) (potential i) (attempt p) f n Any (
      Wp-attempt (Inv i) (potential i) p n (Then (Inv i) (potential i) f Any)
        (Wp-mono (Inv i) (potential i) p n (Kept m) _ cases paid))
    where
      cases : (r : Result A) (s : ℕ) → Kept m r s → Pays i (f r) s Any
      cases r s (e, calm) = rw e (next r)

  -- A rest that needs no tokens.
  then_free :
      {A B : Type 0} (p : Handler A) (f : A → Handler B) (t : ℕ) (Q : Post B)
      → Pays i p t Any
      → ((a : A) (s : ℕ) → Pays i (f a) s Q)
      → ((e : Error) (s : ℕ) → Q (err e) s)
      → Pays i (p >>= f) t Q
  then_free {A} p f t Q paid next failed =
      Wp->>= (Inv i) (potential i) p f t Q
        (Wp-mono (Inv i) (potential i) p t Any (Then (Inv i) (potential i) f Q) cases paid)
    where
      cases : (r : Result A) (s : ℕ) → Unit {0} → Then (Inv i) (potential i) f Q r s
      cases (ok a) s q = next a s
      cases (err e) s q = failed e s

  -- Every element is paid with its own tokens, also after another has failed.
  promise_all-Any :
      {A B : Type 0} (f : A → Handler B) (cost : A → ℕ) (xs : List A) (t : ℕ)
      → ((x : A) (s : ℕ) → Pays i (f x) (cost x + s) (Kept s))
      → Pays i (promise_all f xs) (sum_of cost xs + t) Any
  unfolding promise_all
  promise_all-Any f cost [] t paid = Idle-Any i _ _ (Neutral-end i _)
  promise_all-Any {B} f cost (x ∷ xs) t paid =
      attempt_then (f x) _ _ (sum_of cost xs + t)
        (subst (λ n. Pays i (f x) n (Kept (sum_of cost xs + t))) (omega arith)
          (paid x (sum_of cost xs + t)))
        λ r.
          then_all i _ _ _ Any (attempted (promise_all-Any f cost xs t paid))
            λ rest s. unwrapped (settle r rest) s
    where
      attempted :
          Pays i (promise_all f xs) (sum_of cost xs + t) Any
          → Pays i (attempt (promise_all f xs)) (sum_of cost xs + t) Any
      attempted paid' =
          Wp-attempt (Inv i) (potential i) _ _ Any
            (Wp-mono (Inv i) (potential i) _ _ Any _ (λ r s q. tt) paid')

      unwrapped : (r : Result (List B)) (s : ℕ) → Pays i (from_result r) s Any
      unwrapped (ok bs) s = Idle-Any i _ s (Neutral-end i bs)
      unwrapped (err e) s = throw-Any i _ e s

  -- What the claiming loop returns comes with a token for each row that it returns.
  abbrev Claimed : ℕ → Post (List PayoutRecord)
  Claimed t (ok claimed) t' = t' ≡ owned claimed + t
  Claimed t (err e) t' = Unit

  module _ (config : Config) (viem : Viem) (dto : AuthorizePayout) (ctx : RequestContext) where
    roll_back-Any :
        (claimed : List PayoutRecord) (t : ℕ)
        → Pays i (roll_back config viem dto ctx claimed) (owned claimed + t) Any
    unfolding roll_back
    roll_back-Any claimed t =
        promise_all-Any _ (λ (p : PayoutRecord). owns i p.id) claimed t
          (λ c s. release-Pays i c.id s rollback_patch rollback_patch-IsRelease)

    claim_all-Claimed :
        (now : ℕ) (claimed ps : List PayoutRecord) (t : ℕ)
        → Pays i (claim_all config viem dto ctx now claimed ps) (owned claimed + t) (Claimed t)
    unfolding claim_all
    claim_all-Claimed now claimed [] t =
        Wp-pure Outside (Inv i) (potential i) claimed (owned claimed + t) (Claimed t) refl
    claim_all-Claimed now claimed (p ∷ ps) t =
        Wp->>= (Inv i) (potential i) _ _ (owned claimed + t) (Claimed t) (
          claim-Pays i p.id now (owned claimed + t) _
            (λ c same.
              subst
                (λ n.
                  Pays i (claim_all config viem dto ctx now (claimed ++ c ∷ []) ps) n (Claimed t))
                (one_more c same) (claim_all-Claimed now (claimed ++ c ∷ []) ps t))
            (then_free _ _ _ (Claimed t) (roll_back-Any claimed t)
              (λ _ s. Wp-throw Outside (Inv i) (potential i) claim_lost s (Claimed t) tt)
              (λ e s. tt))
            tt)
      where
        one_more :
            (c : PayoutRecord)
            → c.id ≡ p.id
            → owned (claimed ++ c ∷ []) + t ≡ owns i p.id + (owned claimed + t)
        one_more c same = omega (
          arith,
          sum_of-append (λ (q : PayoutRecord). owns i q.id) claimed (c ∷ []),
          ap (owns i) same,
        )

    leg_inputs :
        (claimed : List PayoutRecord)
        → sum_of (λ (l : ℕ × ℕ × ℕ). owns i l.0) (map leg_input claimed) ≡ owned claimed
    leg_inputs [] = refl
    leg_inputs (c ∷ claimed) = omega (arith, leg_inputs claimed)

    Idle-audit_sent :
        (exec : TransferExecution) (u : Option PayoutRecord)
        → Idle i (audit_sent config viem dto ctx exec u)
    Idle-audit_sent exec none = Neutral-throw Outside (Inv i) (potential i) _ null_dereference refl
    Idle-audit_sent exec (some u) =
        Idle->>= i _ _ (Neutral-record_event i _ u.id _ _)
          λ _. Idle-notify_confirmed i exec.status (some u)

    send_batch-Spends :
        (asset : SettlementAsset) (now : ℕ) (claimed : List PayoutRecord) (t : ℕ)
        → Pays i
            (send_batch config viem dto ctx asset now claimed)
            (owned claimed + t)
            (Spends (owned claimed) t)
    unfolding send_batch
    send_batch-Spends asset now claimed t =
        then_after i _ _ _ t
          (vault_payout_batch-Spends i config viem asset _ _ t (leg_inputs claimed))
          λ exec.
            Idle->>= i _ _
              (Neutral-promise_all (Inv i) (potential i) _ claimed
                (λ c. final-Idle i c.id _ _ (sent_patch-IsFinal now exec)))
              λ updated.
                Idle->>= i _ _
                  (Neutral-for_each (Inv i) (potential i) _ updated (Idle-audit_sent exec))
                  (λ _. Neutral-end i updated)

    batch_failed-Any :
        (claimed : List PayoutRecord) (e : Error) (t t' : ℕ)
        → (is_conflict e ≡ true → t' ≡ owned claimed + t)
        → Pays i (batch_failed config viem dto ctx claimed e) t' Any
    unfolding batch_failed
    batch_failed-Any claimed e t t' held =
        then_all i _ _ t' Any
          (elim (Bool-cases (is_conflict e)) [
            | inl conflict ↦
                rw (conflict, held conflict)
                  (promise_all-Any _ (λ (p : PayoutRecord). owns i p.id) claimed t
                    (λ c s. release-Pays i c.id s (release_patch e) (release_patch-IsRelease e)))
            | inr other ↦ rw other (
                Idle-Any i _ t' (
                  Neutral-promise_all (Inv i) (potential i) _ claimed
                    (λ c. final-Idle i c.id _ _ (failure_patch-IsFinal e))))
          ])
          λ _ s. then_all i _ _ s (Holding s) (throw_if-Holding i _ e s) λ _ s'.
            then_any i _ _ s'
              (Neutral-promise_all (Inv i) (potential i) _ claimed
                λ c. Idle->>= i _ _ (Neutral-record_event i _ c.id _ _) (λ _. Neutral-end i tt))
              (λ _. throw-Any i _ broadcast_failed s')

    claim_and_send-Any :
        (asset : SettlementAsset) (payouts : List PayoutRecord) (t : ℕ)
        → Pays i (claim_and_send config viem dto ctx asset payouts) t Any
    unfolding claim_and_send
    claim_and_send-Any asset payouts t = then_any i _ _ t (Neutral-get_now i) λ now.
        Wp->>= (Inv i) (potential i) _ _ t Any (
          Wp-mono (Inv i) (potential i) _ t (Claimed t) _ (settled now) (
            subst (λ n. Pays i (claim_all config viem dto ctx now [] payouts) n (Claimed t))
              (omega arith) (claim_all-Claimed now [] payouts t)))
      where
        caught :
            (claimed : List PayoutRecord) (r : Result (List (Option PayoutRecord))) (s : ℕ)
            → Spends (owned claimed) t r s
            → Caught (Inv i) (potential i) (batch_failed config viem dto ctx claimed) Any r s
        caught claimed (ok a) s spent = tt
        caught claimed (err e) s held = batch_failed-Any claimed e t s held

        after_claims :
            (now : ℕ) (claimed : List PayoutRecord)
            → Pays i
                (promise_all (audit_claim config viem dto ctx) claimed
                  >> (try_catch
                        (send_batch config viem dto ctx asset now claimed)
                        (batch_failed config viem dto ctx claimed)
                      >>= λ updated. promise_all respond updated))
                (owned claimed + t)
                Any
        after_claims now claimed =
            then_any i _ _ _
              (Neutral-promise_all (Inv i) (potential i) _ claimed
                λ c. Idle->>= i _ _ (Neutral-record_event i _ c.id _ _) (λ _. Neutral-end i tt))
              λ _.
                then_all i _ _ _ Any
                  (Wp-try_catch (Inv i) (potential i) _ _ _ Any (
                    Wp-mono (Inv i) (potential i) _ _ (Spends (owned claimed) t) _ (caught claimed)
                      (send_batch-Spends asset now claimed t)))
                  λ updated s.
                    Idle-Any i _ s
                      (Neutral-promise_all (Inv i) (potential i) _ updated (Idle-respond i))

        settled :
            (now : ℕ) (r : Result (List PayoutRecord)) (s : ℕ)
            → Claimed t r s
            → Then
                (Inv i)
                (potential i)
                (λ claimed.
                  promise_all (audit_claim config viem dto ctx) claimed
                  >> (try_catch
                        (send_batch config viem dto ctx asset now claimed)
                        (batch_failed config viem dto ctx claimed)
                      >>= λ updated. promise_all respond updated))
                Any
                r
                s
        settled now (ok claimed) s e = rw e (after_claims now claimed)
        settled now (err e) s q = tt

    check_and_send-Any :
        (payouts : List PayoutRecord) (t : ℕ)
        → Pays i (check_and_send config viem dto ctx payouts) t Any
    check_and_send-Any [] t = throw-Any i _ no_payout_ids t
    check_and_send-Any (first ∷ rest) t =
        then_all i _ _ t (Holding t) (throw_if-Holding i _ mixed_assets t) λ _ s.
          then_all i _ _ s (Holding s) (throw_if-Holding i _ not_prepared s) λ _ s'.
            then_any i _ _ s' (Idle-get_asset_balance i config viem first.asset) λ balance.
              then_all i _ _ s' (Holding s') (throw_if-Holding i _ insufficient_treasury_balance s')
                λ _ s''. claim_and_send-Any first.asset (first ∷ rest) s''

    -- A batch needs no token to start with either.
    pub authorize_payout_batch-Any :
        (ids : List ℕ) (t : ℕ) → Pays i (authorize_payout_batch config viem dto ctx ids) t Any
    unfolding authorize_payout_batch
    authorize_payout_batch-Any ids t = then_any i _ _ t (Idle-throw_if i _ vault_required refl) λ _.
        then_any i _ _ t
          (Neutral-promise_all (Inv i) (potential i) _ _ (λ id. Idle-require_payout i id ctx))
          λ payouts. check_and_send-Any payouts t
