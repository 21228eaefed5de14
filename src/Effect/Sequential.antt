-- ===== src/Effect/Sequential.antt =====
-- A handler that runs alone: the answers of the outside are given for each call in turn.
use avasettile.Common.{ℕ, suc, ◌≡◌, refl}
use avasettile.Effect.Errors.{Error}
use avasettile.Effect.Defs.{
  Result, ok, err, Action, Prog, pure, throw, await, ◌>>=◌, attempt, call, for_each, promise_all,
  from_result,
}

module _ {E W : Type 0} where
  -- The outcome and the world after it; `outside n` is what the n-th call is answered.
  unfoldable pub run : {A : Type 0} → (ℕ → E) → ℕ → Prog E W A → W → Result A × W
  unfolding ◌>>=◌ attempt call for_each promise_all
  run outside n (pure a) w = (ok a, w)
  run outside n (throw e) w = (err e, w)
  run outside n (await c k) w = let (r, w') = c (outside n) w in run outside (suc n) (k r) w'

  -- The same with the number of the next call.
  unfoldable pub trace : {A : Type 0} → (ℕ → E) → ℕ → Prog E W A → W → Result A × W × ℕ
  trace outside n (pure a) w = (ok a, w, n)
  trace outside n (throw e) w = (err e, w, n)
  trace outside n (await c k) w = let (r, w') = c (outside n) w in trace outside (suc n) (k r) w'

  pub run-trace :
      {A : Type 0} (outside : ℕ → E) (n : ℕ) (p : Prog E W A) (w : W)
      → run outside n p w ≡ ((trace outside n p w).0, (trace outside n p w).1)
  unfolding run trace
  run-trace outside n (pure a) w = refl
  run-trace outside n (throw e) w = refl
  run-trace outside n (await c k) w =
      run-trace outside (suc n) (k (c (outside n) w).0) (c (outside n) w).1

  unfoldable pub resume :
      {A B : Type 0} → (ℕ → E) → (A → Prog E W B) → Result A × W × ℕ → Result B × W × ℕ
  unfolding trace
  resume outside f (ok a, w, n) = trace outside n (f a) w
  resume outside f (err e, w, n) = (err e, w, n)

  pub trace->>= :
      {A B : Type 0} (outside : ℕ → E) (n : ℕ) (p : Prog E W A) (f : A → Prog E W B) (w : W)
      → trace outside n (p >>= f) w ≡ resume outside f (trace outside n p w)
  unfolding trace resume ◌>>=◌
  trace->>= outside n (pure a) f w = refl
  trace->>= outside n (throw e) f w = refl
  trace->>= outside n (await c k) f w =
      trace->>= outside (suc n) (k (c (outside n) w).0) f (c (outside n) w).1

  pub trace-attempt :
      {A : Type 0} (outside : ℕ → E) (n : ℕ) (p : Prog E W A) (w : W)
      → trace outside n (attempt p) w ≡ (
          let (r, w', m) = trace outside n p w in
          (let s : Result (Result A) × W × ℕ = (ok r, w', m) in s))
  unfolding trace attempt
  trace-attempt outside n (pure a) w = refl
  trace-attempt outside n (throw e) w = refl
  trace-attempt outside n (await c k) w =
      trace-attempt outside (suc n) (k (c (outside n) w).0) (c (outside n) w).1

  pub trace-from_result :
      {A : Type 0} (outside : ℕ → E) (n : ℕ) (r : Result A) (w : W)
      → trace outside n (from_result r) w ≡ (r, w, n)
  unfolding trace
  trace-from_result outside n (ok a) w = refl
  trace-from_result outside n (err e) w = refl

  pub trace-call :
      {A : Type 0} (outside : ℕ → E) (n : ℕ) (c : Action E W A) (w : W)
      → trace outside n (call c) w ≡ ((c (outside n) w).0, (c (outside n) w).1, suc n)
  unfolding trace call
  trace-call outside n c w =
      trace-from_result outside (suc n) (c (outside n) w).0 (c (outside n) w).1

  pub trace-pure :
      {A : Type 0} (outside : ℕ → E) (n : ℕ) (a : A) (w : W)
      → trace outside n (pure a) w ≡ (ok a, w, n)
  unfolding trace
  trace-pure outside n a w = refl

  pub trace-throw :
      {A : Type 0} (outside : ℕ → E) (n : ℕ) (e : Error) (w : W)
      → trace outside n (let p : Prog E W A = throw e in p) w ≡ (err e, w, n)
  unfolding trace
  trace-throw outside n e w = refl

  pub resume-ok :
      {A B : Type 0} (outside : ℕ → E) (f : A → Prog E W B) (a : A) (w : W) (n : ℕ)
      → resume outside f (ok a, w, n) ≡ trace outside n (f a) w
  unfolding resume
  resume-ok outside f a w n = refl

  pub resume-err :
      {A B : Type 0} (outside : ℕ → E) (f : A → Prog E W B) (e : Error) (w : W) (n : ℕ)
      → resume outside f (err e, w, n) ≡ (err e, w, n)
  unfolding resume
  resume-err outside f e w n = refl

-- A program that runs alone, call by call.
pub ruleset traces =
    (trace->>=, trace-attempt, trace-call, trace-pure, trace-throw, resume-ok, resume-err)
