-- ===== src/Payouts/Refused.antt =====
-- Requests to authorize a payout that is not prepared (src/payouts/payouts.service.ts).
use avasettile.Common.{
  ℕ, ◌≡◌, ◌≢◌, refl, Bool, true, false, Option, none, some, List, [], ◌∷◌, arith,
}
use avasettile.Common.Table.{find_row}
use avasettile.Effect.Weakest.{Safe, Wp-mono}
use avasettile.Effect.Pool.{Task, Event, run_pool, run_pool-bounded}
use avasettile.Effect.Yields.{On, Anything, Yields, Yields->>=, Yields-if, no_potential}
use avasettile.Records.Common.{RequestContext}
use avasettile.Records.Payout.{
  PayoutRecord, PayoutStatus, PayoutPatch, payout_key, prepared, status_in,
}
use avasettile.World.{World, Outside, Config, Viem, list_by_subject}
use avasettile.World.Unchanged.{
  Same, Idle, Idle-then, Idle-pure, Idle-throw, Idle-or_throw, Yields-statement, Idle-read,
  Idle-get_now,
}
use avasettile.Payouts.Ledger.{update_found, update_payout, find_by_id}
use avasettile.Payouts.Service.{
  AuthorizePayout, claim_patch, require_payout, to_response, claim_refused, settle_claimed,
  claim_and_settle, authorize_payout,
}
use avasettile.Payouts.AtMostOnce.Requests.{authorize, serve, ending}

-- The row is not there or its status is another one.
abbrev pub IsUnprepared : Option PayoutRecord → Type 0
IsUnprepared none = Unit
IsUnprepared (some p) = p.status ≢ prepared

status_in-prepared : (s : PayoutStatus) → s ≢ prepared → status_in s (prepared ∷ []) ≡ false
status_in-prepared PayoutStatus.prepared h = absurd (h refl)
status_in-prepared PayoutStatus.authorized h = refl
status_in-prepared PayoutStatus.broadcasted h = refl
status_in-prepared PayoutStatus.confirmed h = refl
status_in-prepared PayoutStatus.failed h = refl

update_found-refused :
    (now : ℕ) (patch : PayoutPatch) (w : World) (o : Option PayoutRecord)
    → IsUnprepared o
    → update_found now patch (some (prepared ∷ [])) w o ≡ (none, w)
update_found-refused now patch w none h = refl
update_found-refused now patch w (some p) h = simp (status_in-prepared p.status h) refl

module _ (w : World) (config : Config) (viem : Viem) (dto : AuthorizePayout) (ctx : RequestContext)
    (id : ℕ) where
  Idle-require_payout : Idle w (require_payout id ctx)
  unfolding require_payout find_by_id
  Idle-require_payout = Idle-then w _ _ (Idle-read w _) (λ o. Idle-or_throw w o _)

  Idle-to_response : (p : PayoutRecord) (replay : Bool) → Idle w (to_response p replay)
  unfolding to_response list_by_subject
  Idle-to_response p replay = Idle-then w _ _ (Idle-read w _) (λ trail. Idle-pure w _)

  Idle-claim_refused : Idle w (claim_refused config viem dto ctx id)
  unfolding claim_refused
  Idle-claim_refused = Idle-then w _ _ Idle-require_payout λ p.
      Yields-if (Same w) _ _ _ Anything (Idle-to_response p true)
        (Yields-if (Same w) _ _ _ Anything (Idle-to_response p true) (Idle-throw w _ _))

  Idle-settle_claimed :
      (now : ℕ) (o : Option PayoutRecord)
      → o ≡ none
      → Idle w (settle_claimed config viem dto ctx id now o)
  unfolding settle_claimed
  Idle-settle_claimed now none h = Idle-claim_refused
  Idle-settle_claimed now (some p) h = absurd (ground arith)

  Idle-claim_and_settle :
      IsUnprepared (find_row payout_key id w.payouts)
      → Idle w (claim_and_settle config viem dto ctx id)
  unfolding claim_and_settle update_payout
  Idle-claim_and_settle unprepared = Idle-then w _ _ (Idle-get_now w) λ now.
      Yields->>= (Same w) _ _ (λ (o : Option PayoutRecord). o ≡ none) Anything
        (Yields-statement w _ _
          λ env. rw (update_found-refused env.now (claim_patch now) w _ unprepared) (refl, refl))
        (λ o none_claimed. Idle-settle_claimed now o none_claimed)

  Idle-authorize_payout :
      IsUnprepared (find_row payout_key id w.payouts)
      → Idle w (authorize_payout config viem dto ctx id)
  unfolding authorize_payout
  Idle-authorize_payout unprepared = Idle-then w _ _ Idle-require_payout λ p.
      Yields-if (Same w) _ _ _ Anything (Idle-to_response p true) (Idle-claim_and_settle unprepared)

module _ (config : Config) (viem : Viem) (id : ℕ) where
  -- Requests to authorize one payout.
  unfoldable pub serve_authorize : AuthorizePayout × RequestContext → Task Outside World
  unfolding serve
  serve_authorize (dto, ctx) = serve config viem (authorize id dto ctx)

  serve_authorize-Safe :
      (w : World)
      → IsUnprepared (find_row payout_key id w.payouts)
      → (req : AuthorizePayout × RequestContext)
      → Safe (λ v. v ≡ w) no_potential (serve_authorize req) 0
  unfolding serve_authorize serve ending Yields
  serve_authorize-Safe w unprepared (dto, ctx) =
      Wp-mono (λ v. v ≡ w) no_potential _ 0 (On Anything) (λ _ _. Unit) (λ r t h. tt)
        (Idle-then w _ _ (Idle-authorize_payout w config viem dto ctx id unprepared)
          (λ a. Idle-pure w tt) 0)

  -- If the row of a payout is not there, or its status is another one than prepared, then after any
  -- requests to authorize that payout, any interleaving of their calls, any answers of the database and the
  -- chain, and any crashes, the world is what it was before: nothing is written, recorded or sent.
  pub authorize_payout-refused :
      (es : List (Event Outside (AuthorizePayout × RequestContext))) (w : World)
      → IsUnprepared (find_row payout_key id w.payouts)
      → (run_pool serve_authorize es (w, [])).0 ≡ w
  authorize_payout-refused es w unprepared =
      (run_pool-bounded (λ v. v ≡ w) no_potential serve_authorize
        (serve_authorize-Safe w unprepared) 0 es w refl (omega arith)).0
