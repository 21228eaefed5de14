-- ===== src/Effect/Steps.antt =====
-- Programs of which each call, at any moment and whatever it is answered, changes the world only as a
-- relation allows.
use avasettile.Common.{Bool, true, false, Option, none, some, List, [], ◌∷◌, if◌then◌else◌}
use avasettile.Effect.Errors.{Error}
use avasettile.Effect.Defs.{
  Result, ok, err, Action, Prog, pure, throw, await, ◌>>=◌, attempt, from_result, handle, try_catch,
  call, for_each, promise_all, or_throw, settle,
}

module _ {E W : Type 0} (R : W → W → Type 0) where
  unfoldable pub Steps : {A : Type 0} → Prog E W A → Type 0
  Steps (pure a) = Unit
  Steps (throw e) = Unit
  Steps (await c k) = ((env : E) (w : W) → R w (c env w).1) × ((r : Result _) → Steps (k r))

module _ (E : Type 0) {W : Type 0} (R : W → W → Type 0) where
  pub Steps-pure : {A : Type 0} (a : A) → Steps R (let p : Prog E W A = pure a in p)
  unfolding Steps
  Steps-pure a = tt

  pub Steps-throw : (A : Type 0) (e : Error) → Steps R (let p : Prog E W A = throw e in p)
  unfolding Steps
  Steps-throw A e = tt

  pub Steps-from_result :
      {A : Type 0} (r : Result A) → Steps R (let p : Prog E W A = from_result r in p)
  Steps-from_result (ok a) = Steps-pure a
  Steps-from_result (err e) = Steps-throw _ e

  pub Steps-or_throw :
      {A : Type 0} (o : Option A) (e : Error) → Steps R (let p : Prog E W A = or_throw o e in p)
  Steps-or_throw none e = Steps-throw _ e
  Steps-or_throw (some a) e = Steps-pure a

module _ {E W : Type 0} (R : W → W → Type 0) where
  pub Steps->>= :
      {A B : Type 0} (p : Prog E W A) (f : A → Prog E W B)
      → Steps R p
      → ((a : A) → Steps R (f a))
      → Steps R (p >>= f)
  unfolding Steps ◌>>=◌
  Steps->>= (pure a) f hp hf = hf a
  Steps->>= (throw e) f hp hf = tt
  Steps->>= (await c k) f (hc, hk) hf = (hc, λ r. Steps->>= (k r) f (hk r) hf)

  pub Steps-attempt : {A : Type 0} (p : Prog E W A) → Steps R p → Steps R (attempt p)
  unfolding Steps attempt
  Steps-attempt (pure a) h = tt
  Steps-attempt (throw e) h = tt
  Steps-attempt (await c k) (hc, hk) = (hc, λ r. Steps-attempt (k r) (hk r))

  pub Steps-try_catch :
      {A : Type 0} (p : Prog E W A) (h : Error → Prog E W A)
      → Steps R p
      → ((e : Error) → Steps R (h e))
      → Steps R (try_catch p h)
  Steps-try_catch p h hp hh = Steps->>= (attempt p) (handle h) (Steps-attempt p hp) handled
    where
      handled : (r : Result _) → Steps R (handle h r)
      handled (ok a) = Steps-pure E R a
      handled (err e) = hh e

  pub Steps-call :
      {A : Type 0} (c : Action E W A) → ((env : E) (w : W) → R w (c env w).1) → Steps R (call c)
  unfolding Steps call
  Steps-call c h = (h, λ r. Steps-from_result E R r)

  pub Steps-if :
      {A : Type 0} (b : Bool) (p q : Prog E W A)
      → Steps R p
      → Steps R q
      → Steps R (if b then p else q)
  Steps-if true p q hp hq = hp
  Steps-if false p q hp hq = hq

  pub Steps-for_each :
      {A : Type 0} (f : A → Prog E W (Unit {0})) (xs : List A)
      → ((x : A) → Steps R (f x))
      → Steps R (for_each f xs)
  unfolding for_each
  Steps-for_each f [] h = Steps-pure E R tt
  Steps-for_each f (x ∷ xs) h = Steps->>= (f x) _ (h x) (λ _. Steps-for_each f xs h)

  pub Steps-promise_all :
      {A B : Type 0} (f : A → Prog E W B) (xs : List A)
      → ((x : A) → Steps R (f x))
      → Steps R (promise_all f xs)
  unfolding promise_all
  Steps-promise_all f [] h = Steps-pure E R []
  Steps-promise_all f (x ∷ xs) h = Steps->>= _ _ (Steps-attempt (f x) (h x)) λ r.
      Steps->>= _ _ (Steps-attempt (promise_all f xs) (Steps-promise_all f xs h))
        (λ rest. Steps-from_result E R (settle r rest))
