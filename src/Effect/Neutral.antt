-- ===== src/Effect/Neutral.antt =====
-- Programs that leave a handler's tokens as they were and throw no `ConflictException`: most calls
-- are of this kind, and they are put together by the rules here.
use avasettile.Common.{ℕ, ◌≤◌, ◌≡◌, refl, false, List, [], ◌∷◌, arith}
use avasettile.Effect.Errors.{Error, is_conflict}
use avasettile.Effect.Defs.{
  Result, ok, err, Action, Prog, pure, throw, ◌>>=◌, attempt, from_result, call, for_each,
  promise_all, settle,
}
use avasettile.Effect.Weakest.{Post, Wp, Wp-mono, Wp->>=, Wp-attempt, Wp-call, Then}

-- No `ConflictException` is thrown.
abbrev pub Calm : {A : Type 0} → Result A → Type 0
Calm (ok a) = Unit
Calm (err e) = is_conflict e ≡ false

settle-Calm :
    {A : Type 0} (r : Result A) (rest : Result (List A)) → Calm r → Calm rest → Calm (settle r rest)
settle-Calm (err e) rest h k = h
settle-Calm (ok a) (err e) h k = k
settle-Calm (ok a) (ok as') h k = tt

module _ {E W : Type 0} (Inv : W → Type 0) (potential : W → ℕ) where
  -- A program that gives back the tokens that it was given, and throws no `ConflictException`.
  unfoldable pub Neutral : {A : Type 0} → Prog E W A → Type 0
  Neutral p = (t : ℕ) → Wp Inv potential p t (λ r t'. (t' ≡ t) × Calm r)

module _ (E : Type 0) {W : Type 0} (Inv : W → Type 0) (potential : W → ℕ) where
  pub Neutral-pure : {A : Type 0} (a : A) → Neutral Inv potential (let p : Prog E W A = pure a in p)
  unfolding Neutral Wp
  Neutral-pure a t = (refl, tt)

  pub Neutral-throw :
      (A : Type 0) (e : Error)
      → is_conflict e ≡ false
      → Neutral Inv potential (let p : Prog E W A = throw e in p)
  unfolding Neutral Wp
  Neutral-throw A e calm t = (refl, calm)

module _ {E W : Type 0} (Inv : W → Type 0) (potential : W → ℕ) where
  -- Two steps one after the other, the first of which gives its tokens back.
  pub Wp-then-Neutral :
      {A B : Type 0} (p : Prog E W A) (f : A → Prog E W B) (t : ℕ) (Q : Post B)
      → Neutral Inv potential p
      → ((a : A) → Wp Inv potential (f a) t Q)
      → ((e : Error) → is_conflict e ≡ false → Q (err e) t)
      → Wp Inv potential (p >>= f) t Q
  unfolding Neutral
  Wp-then-Neutral p f t Q neutral next failed =
      Wp->>= Inv potential p f t Q
        (Wp-mono Inv potential p t _ (Then Inv potential f Q) cases (neutral t))
    where
      cases : (r : Result _) (t' : ℕ) → (t' ≡ t) × Calm r → Then Inv potential f Q r t'
      cases (ok a) t' (e, _) = rw e (next a)
      cases (err x) t' (e, calm) = rw e (failed x calm)

  pub Neutral->>= :
      {A B : Type 0} (p : Prog E W A) (f : A → Prog E W B)
      → Neutral Inv potential p
      → ((a : A) → Neutral Inv potential (f a))
      → Neutral Inv potential (p >>= f)
  unfolding Neutral
  Neutral->>= p f hp hf t = Wp-then-Neutral p f t _ hp (λ a. hf a t) (λ _ calm. (refl, calm))

  pub Neutral-attempt :
      {A : Type 0} (p : Prog E W A) → Neutral Inv potential p → Neutral Inv potential (attempt p)
  unfolding Neutral
  Neutral-attempt p h t =
      Wp-attempt Inv potential p t _
        (Wp-mono Inv potential p t _ _ (λ r t' kept. (kept.0, tt)) (h t))

  pub Neutral-for_each :
      {A : Type 0} (f : A → Prog E W (Unit {0})) (xs : List A)
      → ((x : A) → Neutral Inv potential (f x))
      → Neutral Inv potential (for_each f xs)
  unfolding Neutral Wp for_each
  Neutral-for_each f [] h = Neutral-pure E Inv potential tt
  Neutral-for_each f (x ∷ xs) h = Neutral->>= (f x) _ (h x) (λ _. Neutral-for_each f xs h)

  -- What `attempt` makes of a neutral program, with what it knows of the outcome.
  attempt-Calm :
      {A B : Type 0} (p : Prog E W A) (f : Result A → Prog E W B)
      → Neutral Inv potential p
      → ((r : Result A) → Calm r → Neutral Inv potential (f r))
      → Neutral Inv potential (attempt p >>= f)
  unfolding Neutral
  attempt-Calm p f hp hf t = Wp->>= Inv potential (attempt p) f t _ (
      Wp-attempt Inv potential p t (Then Inv potential f _)
        (Wp-mono Inv potential p t _ _ (λ r t' kept. next r t' kept.0 kept.1) (hp t)))
    where
      next :
          (r : Result _) (t' : ℕ)
          → t' ≡ t
          → Calm r
          → Wp Inv potential (f r) t' (λ q t''. (t'' ≡ t) × Calm q)
      next r t' e calm = rw e (hf r calm t)

  pub Neutral-promise_all :
      {A B : Type 0} (f : A → Prog E W B) (xs : List A)
      → ((x : A) → Neutral Inv potential (f x))
      → Neutral Inv potential (promise_all f xs)
  unfolding promise_all
  Neutral-promise_all {B} f [] h = Neutral-pure E Inv potential (let none' : List B = [] in none')
  Neutral-promise_all {B} f (x ∷ xs) h = attempt-Calm (f x) _ (h x) λ r calm.
      attempt-Calm (promise_all f xs) _ (Neutral-promise_all f xs h)
        λ rest calm'. unwrapped (settle r rest) (settle-Calm r rest calm calm')
    where
      unwrapped : (r : Result (List B)) → Calm r → Neutral {E = E} Inv potential (from_result r)
      unwrapped (ok a) calm = Neutral-pure E Inv potential a
      unwrapped (err e) calm = Neutral-throw E Inv potential (List B) e calm

  -- An action that keeps the invariant and does not raise the potential.
  pub Neutral-call :
      {A : Type 0} (c : Action E W A)
      → ((env : E) (w : W)
          → Inv w
          → Inv (c env w).1 × (potential (c env w).1 ≤ potential w) × Calm (c env w).0)
      → Neutral Inv potential (call c)
  unfolding Neutral
  Neutral-call c h t =
      Wp-call Inv potential c t _
        λ env w inv. let (inv', le, calm) = h env w inv in (t, inv', omega arith, (refl, calm))
