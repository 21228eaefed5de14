-- ===== src/World/Alone.antt =====
-- A handler that runs alone while the database answers, call by call.
use avasettile.Common.{ℕ, suc, ◌≡◌, ◌∙◌, refl}
use avasettile.Effect.{ok, call}
use avasettile.Effect.Sequential.{trace, trace-call}
use avasettile.World.State.{World, Outside, answered}
use avasettile.World.Calls.{query, get_now}

module _ (outside : ℕ → Outside) (now : ℕ) (up : (n : ℕ) → (outside n).database ≡ answered)
    (at : (n : ℕ) → (outside n).now ≡ now) where
  pub trace-query :
      {A : Type 0} (f : Outside → World → A × World) (n : ℕ) (w : World)
      → trace outside n (call (query f)) w ≡ (ok (f (outside n) w).0, (f (outside n) w).1, suc n)
  trace-query f n w = trace-call outside n (query f) w ∙ rw (up n) refl

  pub trace-get_now : (n : ℕ) (w : World) → trace outside n get_now w ≡ (ok now, w, suc n)
  trace-get_now n w = trace-call outside n _ w ∙ rw (at n) refl
