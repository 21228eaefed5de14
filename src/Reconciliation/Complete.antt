-- ===== src/Reconciliation/Complete.antt =====
-- A reconciliation run checks every record that is open (src/reconciliation/reconciliation.service.ts).
use avasettile.Common.{
  ℕ, suc, ◌≤◌, ◌≡◌, refl, sym, ap, subst, ◌∙◌, inl, inr, List, [], ◌∷◌, ◌++◌, map, length,
}
use avasettile.Common.Some.{Some, Some-append_left, Some-append_right}
use avasettile.Effect.{Result, ok, err, call, ◌>>=◌}
use avasettile.Effect.Each.{Yields-Each, Yields-alone}
use avasettile.Effect.Sequential.{trace, trace->>=, resume}
use avasettile.Effect.Yields.{Yields, Yields->>=, Yields-pure}
use avasettile.Records.Common.{RequestContext}
use avasettile.World.{World, Outside, Config, Viem, Handler}
use avasettile.World.Unchanged.{Same}
use avasettile.Payouts.Service.{PayoutResponse}
use avasettile.Payins.Service.{PayInResponse}
use avasettile.Reconciliation.Service.{
  ItemType, payout, payin, RunResult, Candidates, find_open, find_candidates, check_candidates,
  run_reconciliation,
}
use avasettile.Reconciliation.Total.{
  subject, payout_subject, payin_subject, run_reconciliation-Answered,
}
use avasettile.Reconciliation.Covers.{
  IsOpenPayout, IsOpenPayIn, ListsPayouts, Lists, Yields-open_payouts, Yields-list_payin_responses,
  Some-OneOf, candidates_cover,
}

-- What is open: a payout or a pay-in with that id.
abbrev pub IsOpen : RequestContext → ℕ → World → ItemType × ℕ → Type 0
IsOpen ctx now w (payout, i) = Some (IsOpenPayout ctx i) w.payouts
IsOpen ctx now w (payin, i) = Some (IsOpenPayIn ctx now i) w.payins

-- A candidate is about the subject.
abbrev IsFound : Candidates → ItemType × ℕ → Type 0
IsFound found (payout, i) = Some (λ (r : PayoutResponse). r.payout.id ≡ i) found.payouts
IsFound found (payin, i) = Some (λ (r : PayInResponse). r.payin.id ≡ i) found.payins

module _ (ctx : RequestContext) (w : World) (few_payouts : length w.payouts ≤ 1000)
    (few_payins : length w.payins ≤ 1000) where
  Yields-find_open :
      (started_at now : ℕ) (s : ItemType × ℕ)
      → IsOpen ctx now w s
      → Yields (Same w) (find_open ctx started_at now) (λ found. IsFound found s)
  unfolding find_open
  Yields-find_open started_at now (payout, i) there =
      Yields->>= (Same w) _ _ (ListsPayouts ctx w i) _ (Yields-open_payouts ctx w few_payouts i)
        λ ps listed.
          Yields->>= (Same w) _ _ _ _
            (Yields-Each (Same w) _ (Lists ctx w now i) _
              (Yields-list_payin_responses ctx w now i few_payins))
            (λ qs each. Yields-pure Outside (Same w) _ _ (listed there))
  Yields-find_open started_at now (payin, i) there =
      Yields->>= (Same w) _ _ (ListsPayouts ctx w i) _ (Yields-open_payouts ctx w few_payouts i)
        λ ps listed.
          Yields->>= (Same w) _ _ _ _
            (Yields-Each (Same w) _ (Lists ctx w now i) _
              (Yields-list_payin_responses ctx w now i few_payins))
            (λ qs each.
              Yields-pure Outside (Same w) _ _
                (candidates_cover ctx w now i qs each (Some-OneOf ctx w now i w.payins there)))

  find_candidates-IsFound :
      (outside : ℕ → Outside) (n : ℕ) (found : Candidates) (s : ItemType × ℕ)
      → (trace outside n (find_candidates ctx) w).0 ≡ ok found
      → IsOpen ctx (outside (suc n)).now w s
      → IsFound found s
  unfolding find_candidates trace ◌>>=◌ call
  find_candidates-IsFound outside n found s e there =
      let started_at = (outside n).now in
      let now = (outside (suc n)).now in
      Yields-alone (Same w) (find_open ctx started_at now) (λ f. IsFound f s) outside (suc (suc n))
        w found refl (Yields-find_open started_at now s there) e

Some-map :
    {A B : Type 0} (P : A → Type 0) (Q : B → Type 0) (f : A → B)
    → ((a : A) → P a → Q (f a))
    → (xs : List A) → Some P xs
    → Some Q (map f xs)
Some-map P Q f g [] h = absurd h
Some-map P Q f g (x ∷ xs) (inl h) = inl (g x h)
Some-map P Q f g (x ∷ xs) (inr h) = inr (Some-map P Q f g xs h)

found_named :
    (found : Candidates) (s : ItemType × ℕ)
    → IsFound found s
    → Some (λ t. t ≡ s) (map payout_subject found.payouts ++ map payin_subject found.payins)
found_named found (payout, i) h =
    Some-append_left _ (map payout_subject found.payouts) (map payin_subject found.payins) (
      Some-map _ _ payout_subject
        (λ r e. ap (λ (j : ℕ). (let t : ItemType × ℕ = (payout, j) in t)) e) found.payouts h)
found_named found (payin, i) h =
    Some-append_right _ (map payout_subject found.payouts) (map payin_subject found.payins) (
      Some-map _ _ payin_subject (λ r e. ap (λ (j : ℕ). (let t : ItemType × ℕ = (payin, j) in t)) e)
        found.payins h)

-- A run that returns has found candidates.
candidates_first :
    {A B : Type 0} (outside : ℕ → Outside) (f : A → Handler B) (b : B) (s : Result A × World × ℕ)
    → (resume outside f s).0 ≡ ok b
    → (a : A) × (s.0 ≡ ok a)
unfolding resume
candidates_first outside f b (ok a, v, m) h = (a, refl)
candidates_first outside f b (err e, v, m) h = cc

module _ (config : Config) (viem : Viem) (ctx : RequestContext) where
  -- Take a reconciliation run that runs alone and returns a result, in a world with at most 1000 payouts and at most
  -- 1000 pay-ins. Then the results name each payout that is broadcasted and each pay-in that is detected, underpaid,
  -- or pending and not expired when the run starts, of those that the caller may see: a client its own,
  -- and the system all.
  pub run_reconciliation-IsOpen :
      (outside : ℕ → Outside) (n : ℕ) (w : World) (result : RunResult) (s : ItemType × ℕ)
      → length w.payouts ≤ 1000
      → length w.payins ≤ 1000
      → (trace outside n (run_reconciliation config viem ctx) w).0 ≡ ok result
      → IsOpen ctx (outside (suc n)).now w s
      → Some (λ t. t ≡ s) (map subject result.results)
  unfolding run_reconciliation
  run_reconciliation-IsOpen outside n w result s few_payouts few_payins h there =
      let split = trace->>= outside n (find_candidates ctx) (check_candidates config viem ctx) w in
      let (found, e) =
        candidates_first outside (check_candidates config viem ctx) result
          (trace outside n (find_candidates ctx) w) (ap (λ t. t.0) (sym split) ∙ h) in
      let (result', h', answered) =
        run_reconciliation-Answered config viem ctx outside n w found e in
      let same : result' ≡ result = cc (h, h') in
      let (checked, checked', named) = answered in
      subst (λ (r : RunResult). Some (λ t. t ≡ s) (map subject r.results)) same
        (subst (Some (λ t. t ≡ s)) (sym named) (
          found_named found s
            (find_candidates-IsFound ctx w few_payouts few_payins outside n found s e there)))
