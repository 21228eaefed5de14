-- ===== src/Payouts/AtMostOnce/Authorize.antt =====
-- `authorizePayout` under the potential: it needs no token to start with, and it releases the
-- payout only while it still has the token of its claim.
use avasettile.Common.{
  ℕ, ◌+◌, ◌≡◌, refl, true, false, Option, none, some, [], ◌∷◌, arith, Bool-cases, inl, inr,
}
use avasettile.Effect.{
  Error, is_conflict, null_dereference, broadcast_failed, not_authorizable,
  insufficient_treasury_balance, Result, ok, err, throw, ◌>>=◌,
}
use avasettile.Effect.Weakest.{Post, Wp-mono, Wp-throw, Wp->>=, Then, Wp-try_catch, Caught}
use avasettile.Effect.Neutral.{Neutral-throw}
use avasettile.Records.Common.{RequestContext}
use avasettile.Records.Payout.{PayoutRecord, authorized}
use avasettile.World.{Outside, Config, Viem, Handler}
use avasettile.Blockchain.Rail.{TransferExecution, ExecutionStatus, broadcasted, confirmed}
use avasettile.Payouts.Service.{
  AuthorizePayout, authorize_payout, claim_and_settle, settle_claimed, send_authorized, send_failed,
  claim_refused, transfer_of, sent_patch, release_patch, failure_patch, notify_confirmed, respond,
  reject_failed,
}
use avasettile.Payouts.AtMostOnce.Potential.{Inv, potential, owns}
use avasettile.Payouts.AtMostOnce.Calls.{
  Neutral-end, Neutral-record_event, Neutral-enqueue, Neutral-get_now,
}
use avasettile.Payouts.AtMostOnce.Updates.{
  Pays, Idle, Kept, Holding, IsFinal, IsRelease, then_idle, Idle->>=, Idle-Holding,
  throw_if-Holding, Pays-if, claim-Pays, release-Pays, final-Idle, Idle-require_payout,
  Idle-to_response,
}
use avasettile.Payouts.AtMostOnce.Rail.{
  Spends, before, after, send_erc20_transfer-Spends, vault_payout-Spends, Idle-get_asset_balance,
}

-- Any outcome, with any tokens.
abbrev pub Any : {A : Type 0} → Post A
Any r t = Unit

-- What is written after a transfer, and after a failure, is final.
pub sent_patch-IsFinal :
    (now : ℕ) (transfer : TransferExecution)
    → IsFinal (sent_patch now transfer) (some (authorized ∷ []))
sent_patch-IsFinal now transfer at p sound held = ground arith

pub failure_patch-IsFinal : (e : Error) → IsFinal (failure_patch e) (some (authorized ∷ []))
failure_patch-IsFinal e at p sound held = refl

pub release_patch-IsRelease : (e : Error) → IsRelease (release_patch e)
release_patch-IsRelease e at p sound held = ground arith

module _ (i : ℕ) where
  pub Idle-Any : {A : Type 0} (p : Handler A) (t : ℕ) → Idle i p → Pays i p t Any
  Idle-Any p t idle =
      Wp-mono (Inv i) (potential i) p t (Holding t) Any (λ r t' e. tt) (Idle-Holding i p t idle)

  pub then_any :
      {A B : Type 0} (p : Handler A) (f : A → Handler B) (t : ℕ)
      → Idle i p
      → ((a : A) → Pays i (f a) t Any)
      → Pays i (p >>= f) t Any
  then_any p f t idle next = then_idle i p f t Any idle next (λ e calm. tt)

  pub throw-Any : (A : Type 0) (e : Error) (t : ℕ) → Pays i (throw e) t (Any {A = A})
  throw-Any A e t = Wp-throw Outside (Inv i) (potential i) e t Any tt

  -- A part with any postcondition, and a rest that is safe whatever it begins with.
  pub then_all :
      {A B : Type 0} (p : Handler A) (f : A → Handler B) (t : ℕ) (Q : Post A)
      → Pays i p t Q
      → ((a : A) (s : ℕ) → Pays i (f a) s Any)
      → Pays i (p >>= f) t Any
  then_all {A} p f t Q paid next =
      Wp->>= (Inv i) (potential i) p f t Any
        (Wp-mono (Inv i) (potential i) p t Q (Then (Inv i) (potential i) f Any) cases paid)
    where
      cases : (r : Result A) (s : ℕ) → Q r s → Then (Inv i) (potential i) f Any r s
      cases (ok a) s q = next a s
      cases (err e) s q = tt

  -- After a part that spends, only idle steps.
  pub then_after :
      {A B : Type 0} (p : Handler A) (f : A → Handler B) (n t : ℕ)
      → Pays i p (n + t) (Spends n t)
      → ((a : A) → Idle i (f a))
      → Pays i (p >>= f) (n + t) (Spends n t)
  then_after {A} p f n t spends idle = Wp->>= (Inv i) (potential i) p f (n + t) (Spends n t) (
      Wp-mono (Inv i) (potential i) p (n + t) (Spends n t)
        (Then (Inv i) (potential i) f (Spends n t)) cases spends)
    where
      cases :
          (r : Result A) (t' : ℕ) → Spends n t r t' → Then (Inv i) (potential i) f (Spends n t) r t'
      cases (ok a) t' e = rw e (after i (f a) n t (idle a))
      cases (err x) t' held = held

  pub Idle-notify_confirmed :
      (status : ExecutionStatus) (updated : Option PayoutRecord)
      → Idle i (notify_confirmed status updated)
  Idle-notify_confirmed broadcasted updated = Neutral-end i tt
  Idle-notify_confirmed confirmed none =
      Neutral-throw Outside (Inv i) (potential i) _ null_dereference refl
  Idle-notify_confirmed confirmed (some p) = Neutral-enqueue i p.client_id _ _

  pub Idle-respond : (updated : Option PayoutRecord) → Idle i (respond updated)
  Idle-respond none = Neutral-throw Outside (Inv i) (potential i) _ null_dereference refl
  Idle-respond (some p) = Idle-to_response i p false

  module _ (config : Config) (viem : Viem) (dto : AuthorizePayout) (ctx : RequestContext) where
    transfer_of-Spends :
        (id : ℕ) (p : PayoutRecord) (t : ℕ)
        → Pays i (transfer_of config viem dto ctx id p) (owns i id + t) (Spends (owns i id) t)
    unfolding transfer_of
    transfer_of-Spends id p t =
        Pays-if i _ _ _ (owns i id + t) (Spends (owns i id) t)
          (vault_payout-Spends i config viem id p.asset p.beneficiary_address p.amount_atomic t)
          (send_erc20_transfer-Spends i config viem id p.asset p.beneficiary_address p.amount_atomic
            t)

    send_authorized-Spends :
        (id now : ℕ) (p : PayoutRecord) (t : ℕ)
        → Pays i
            (send_authorized config viem dto ctx id now p)
            (owns i id + t)
            (Spends (owns i id) t)
    unfolding send_authorized
    send_authorized-Spends id now p t =
        before i _ _ _ t (Idle-Holding i _ _ (Idle-get_asset_balance i config viem p.asset))
          λ balance. before i _ _ _ t (throw_if-Holding i _ insufficient_treasury_balance _) λ _.
            then_after _ _ _ t (transfer_of-Spends id p t) λ transfer.
              Idle->>= i _ _ (final-Idle i id _ _ (sent_patch-IsFinal now transfer)) λ updated.
                Idle->>= i _ _ (Neutral-record_event i _ id _ _) λ _.
                  Idle->>= i _ _ (Idle-notify_confirmed transfer.status updated)
                    λ _. Neutral-end i updated

    -- The `catch` block releases after a conflict only, when the token is still there.
    send_failed-Any :
        (id : ℕ) (e : Error) (t t' : ℕ)
        → (is_conflict e ≡ true → t' ≡ owns i id + t)
        → Pays i (send_failed config viem dto ctx id e) t' Any
    unfolding send_failed
    send_failed-Any id e t t' held = elim (Bool-cases (is_conflict e)) [
      | inl conflict ↦
          rw (conflict, held conflict)
            (then_all _ _ (owns i id + t) (Kept t)
              (release-Pays i id t (release_patch e) (release_patch-IsRelease e))
              (λ _ s. throw-Any _ e s))
      | inr other ↦ rw other (
          then_any _ _ t' (final-Idle i id _ _ (failure_patch-IsFinal e))
            λ updated. then_any _ _ t' (Neutral-record_event i _ id _ _) λ _. rejected updated)
    ]
      where
        rejected : (updated : Option PayoutRecord) → Pays i (reject_failed updated) t' Any
        rejected none = throw-Any _ null_dereference t'
        rejected (some p) =
            then_any _ _ t' (Idle-to_response i p false) (λ _. throw-Any _ broadcast_failed t')

    settle_claimed-Any :
        (id now : ℕ) (p : PayoutRecord) (t : ℕ)
        → Pays i (settle_claimed config viem dto ctx id now (some p)) (owns i id + t) Any
    unfolding settle_claimed
    settle_claimed-Any id now p t = then_any _ _ _ (Neutral-record_event i _ id _ _) λ _.
        then_all _ _ _ Any
          (Wp-try_catch (Inv i) (potential i) _ _ _ Any (
            Wp-mono (Inv i) (potential i) _ _ (Spends (owns i id) t)
              (Caught (Inv i) (potential i) (send_failed config viem dto ctx id) Any) caught
              (send_authorized-Spends id now p t)))
          (λ updated s. Idle-Any _ s (Idle-respond updated))
      where
        caught :
            (r : Result (Option PayoutRecord)) (s : ℕ)
            → Spends (owns i id) t r s
            → Caught (Inv i) (potential i) (send_failed config viem dto ctx id) Any r s
        caught (ok a) s spent = tt
        caught (err e) s held = send_failed-Any id e t s held

    claim_refused-Any : (id t : ℕ) → Pays i (claim_refused config viem dto ctx id) t Any
    unfolding claim_refused
    claim_refused-Any id t = then_any _ _ t (Idle-require_payout i id ctx) λ current.
        Pays-if i _ _ _ t Any (Idle-Any _ t (Idle-to_response i current true)) (
          Pays-if i _ _ _ t Any (Idle-Any _ t (Idle-to_response i current true))
            (throw-Any _ not_authorizable t))

    claim_and_settle-Any : (id t : ℕ) → Pays i (claim_and_settle config viem dto ctx id) t Any
    unfolding claim_and_settle
    claim_and_settle-Any id t = then_any _ _ t (Neutral-get_now i) λ now.
        Wp->>= (Inv i) (potential i) _ _ t Any (
          claim-Pays i id now t
            (Then (Inv i) (potential i) (settle_claimed config viem dto ctx id now) Any)
            (λ p same. settle_claimed-Any id now p t)
            (unfold settle_claimed in claim_refused-Any id t) tt)

    -- The handler needs no token, and leaves any behind.
    pub authorize_payout-Any : (id t : ℕ) → Pays i (authorize_payout config viem dto ctx id) t Any
    unfolding authorize_payout
    authorize_payout-Any id t = then_any _ _ t (Idle-require_payout i id ctx) λ p.
        Pays-if i _ _ _ t Any (Idle-Any _ t (Idle-to_response i p true)) (claim_and_settle-Any id t)
