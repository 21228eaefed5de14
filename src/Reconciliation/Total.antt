-- ===== src/Reconciliation/Total.antt =====
-- A reconciliation run answers for every candidate (src/reconciliation/reconciliation.service.ts).
use mathlib.Core.List.{map-append}
use avasettile.Common.{
  ℕ, zero, suc, ◌≤◌, ◌≡◌, refl, ap, ◌∙◌, List, [], ◌∷◌, ◌++◌, map, length, take, drop, arith,
}
use avasettile.Effect.{Result, ok, err, ◌>>=◌, call}
use avasettile.Effect.Sequential.{trace, trace->>=, resume, resume-ok}
use avasettile.Effect.Returns.{
  Returns, Caught, Each, Returns->>=, Returns-attempt, Returns-try_catch, Returns-promise_all,
  Returns-trace,
}
use avasettile.Records.Common.{RequestContext}
use avasettile.World.{Handler, World, Outside, Config, Viem}
use avasettile.Payouts.Service.{PayoutResponse}
use avasettile.Payins.Service.{PayInResponse}
use avasettile.Reconciliation.Service.{
  ItemType, payout, payin, ItemResult, RunResult, fulfilled, all_settled, in_batches, Candidates,
  find_candidates, check_payout, check_payin, check_candidates, run_reconciliation,
}

module _ {A B : Type 0} (R : A → B → Type 0) where
  Each-fulfilled :
      (xs : List A) (rs : List (Result B))
      → Each (λ x. Caught (R x)) xs rs
      → Each R xs (fulfilled rs)
  Each-fulfilled [] [] h = tt
  Each-fulfilled [] (r ∷ rs) h = absurd h
  Each-fulfilled (x ∷ xs) [] h = absurd h
  Each-fulfilled (x ∷ xs) (ok b ∷ rs) (h, hs) = (h, Each-fulfilled xs rs hs)
  Each-fulfilled (x ∷ xs) (err e ∷ rs) (h, hs) = absurd h

  Each-append_drop :
      (n : ℕ) (xs : List A) (bs cs : List B)
      → Each R (take n xs) bs
      → Each R (drop n xs) cs
      → Each R xs (bs ++ cs)
  Each-append_drop zero xs [] cs h k = k
  Each-append_drop zero xs (b ∷ bs) cs h k = absurd h
  Each-append_drop (suc n) [] [] cs h k = k
  Each-append_drop (suc n) [] (b ∷ bs) cs h k = absurd h
  Each-append_drop (suc n) (x ∷ xs) [] cs h k = absurd h
  Each-append_drop (suc n) (x ∷ xs) (b ∷ bs) cs (h, hs) k = (h, Each-append_drop n xs bs cs hs k)

  length-drop-le : (n : ℕ) (xs : List A) → length (drop n xs) ≤ length xs
  length-drop-le zero xs = omega arith
  length-drop-le (suc n) [] = omega arith
  length-drop-le (suc n) (x ∷ xs) = omega (arith, length-drop-le n xs)

  Returns-in_batches :
      (f : A → Handler B)
      → ((x : A) → Returns (f x) (R x))
      → (fuel : ℕ) (xs : List A) → length xs ≤ fuel
      → Returns (in_batches f fuel xs) (Each R xs)
  unfolding in_batches all_settled
  Returns-in_batches f h fuel [] le = tt
  Returns-in_batches f h zero (x ∷ xs) le = absurd (omega arith)
  Returns-in_batches f h (suc fuel) (x ∷ xs) le =
      Returns->>= _ _ (Each (λ x. Caught (R x)) (take 10 (x ∷ xs))) _
        (Returns-promise_all _ _ _ (λ y. Returns-attempt (f y) (R y) (h y)))
        λ settled hs.
          Returns->>= _ _ (Each R (drop 10 (x ∷ xs))) _
            (Returns-in_batches f h fuel (drop 10 (x ∷ xs)) (omega (arith, length-drop-le 9 xs)))
            λ rest k.
              Each-append_drop 10 (x ∷ xs) (fulfilled settled) rest
                (Each-fulfilled (take 10 (x ∷ xs)) settled hs) k

module _ {A B K : Type 0} (key : A → K) (tag : B → K) where
  map-Each :
      (xs : List A) (bs : List B) → Each (λ x b. tag b ≡ key x) xs bs → map tag bs ≡ map key xs
  map-Each [] [] h = refl
  map-Each [] (b ∷ bs) h = absurd h
  map-Each (x ∷ xs) [] h = absurd h
  map-Each (x ∷ xs) (b ∷ bs) (h, hs) = cc (map-Each xs bs hs)

-- What an item is about.
abbrev pub subject : ItemResult → ItemType × ℕ
subject item = (item.type, item.id)

abbrev pub payout_subject : PayoutResponse → ItemType × ℕ
payout_subject p = (payout, p.payout.id)

abbrev pub payin_subject : PayInResponse → ItemType × ℕ
payin_subject p = (payin, p.payin.id)

-- Both counts, and one item for each candidate, in order.
abbrev pub Answered : Candidates → RunResult → Type 0
Answered found result =
    (result.payouts_checked ≡ length found.payouts)
    × (result.payins_checked ≡ length found.payins)
    × (map subject result.results
        ≡ map payout_subject found.payouts ++ map payin_subject found.payins)

resume_found :
    {A B : Type 0} (outside : ℕ → Outside) (f : A → Handler B) (a : A) (s : Result A × World × ℕ)
    → s.0 ≡ ok a
    → resume outside f s ≡ trace outside s.2 (f a) s.1
resume_found outside f a (o, v, m) h = rw h (resume-ok outside f a v m)

module _ (config : Config) (viem : Viem) (ctx : RequestContext) where
  Returns-check_payout :
      (p : PayoutResponse)
      → Returns (check_payout config viem ctx p) (λ i. subject i ≡ payout_subject p)
  unfolding check_payout
  Returns-check_payout p = Returns-try_catch _ _ _ _ (λ r. refl) (λ e. refl)

  Returns-check_payin :
      (p : PayInResponse)
      → Returns (check_payin config viem ctx p) (λ i. subject i ≡ payin_subject p)
  unfolding check_payin
  Returns-check_payin p = Returns-try_catch _ _ _ _ (λ r. refl) (λ e. refl)

  -- Whatever its calls are answered, and whatever other handlers do to the world between them, the part of a
  -- reconciliation run after its candidates are found returns and throws nothing. Its counts are those
  -- of the candidates, and its results name each candidate payout and then each candidate pay-in once, in order, the ones
  -- whose reconciliation has failed included.
  pub check_candidates-Returns :
      (found : Candidates) → Returns (check_candidates config viem ctx found) (Answered found)
  unfolding check_candidates call ◌>>=◌
  check_candidates-Returns found =
      Returns->>= _ _ (Each (λ p i. subject i ≡ payout_subject p) found.payouts) _
        (Returns-in_batches _ _ (Returns-check_payout) (length found.payouts) found.payouts
          (omega arith))
        λ is his.
          Returns->>= _ _ (Each (λ p i. subject i ≡ payin_subject p) found.payins) _
            (Returns-in_batches _ _ (Returns-check_payin) (length found.payins) found.payins
              (omega arith))
            λ js hjs. λ env w. (
              refl,
              refl,
              map-append subject is js
                  ∙ cc (
                    map-Each payout_subject subject found.payouts is his,
                    map-Each payin_subject subject found.payins js hjs,
                  ),
            )

  -- The whole run, where the search for candidates returns them.
  pub run_reconciliation-Answered :
      (outside : ℕ → Outside) (n : ℕ) (w : World) (found : Candidates)
      → (trace outside n (find_candidates ctx) w).0 ≡ ok found
      → (result : RunResult) × ((trace outside n (run_reconciliation config viem ctx) w).0
          ≡ ok result)
        × Answered found result
  unfolding run_reconciliation
  run_reconciliation-Answered outside n w found h =
      let (result, done, answered) =
        Returns-trace (check_candidates config viem ctx found) (Answered found) outside
          (trace outside n (find_candidates ctx) w).2 (trace outside n (find_candidates ctx) w).1
          (check_candidates-Returns found) in
      (
        result,
        ap (λ s. s.0)
              (trace->>= outside n (find_candidates ctx) (check_candidates config viem ctx) w
                ∙ resume_found outside (check_candidates config viem ctx) found
                    (trace outside n (find_candidates ctx) w) h)
            ∙ done,
        answered,
      )
