-- ===== src/Effect/Yields.antt =====
-- Programs of which each call keeps an invariant of the world, with what they return when they do
-- not throw: the logic of Weakest with no tokens.
use avasettile.Common.{ℕ, Bool, true, false, List, [], ◌∷◌, arith, if◌then◌else◌}
use avasettile.Effect.Errors.{Error}
use avasettile.Effect.Defs.{
  Result, ok, err, Action, Prog, pure, throw, ◌>>=◌, attempt, from_result, try_catch, call,
  promise_all, settle,
}
use avasettile.Effect.Weakest.{
  Post, Wp, Wp-pure, Wp-throw, Wp-mono, Then, Wp->>=, Wp-attempt, Caught, Wp-try_catch, Wp-call,
}

abbrev pub no_potential : {W : Type 0} → W → ℕ
no_potential w = 0

-- The value that is returned satisfies the predicate.
abbrev pub On : {A : Type 0} → (A → Type 0) → Post A
On P (ok a) t = P a
On P (err e) t = Unit

abbrev pub Anything : {A : Type 0} → A → Type 0
Anything a = Unit

module _ {E W : Type 0} (Inv : W → Type 0) where
  unfoldable pub Yields : {A : Type 0} → Prog E W A → (A → Type 0) → Type 0
  Yields p P = (t : ℕ) → Wp Inv no_potential p t (On P)

module _ (E : Type 0) {W : Type 0} (Inv : W → Type 0) where
  pub Yields-pure :
      {A : Type 0} (a : A) (P : A → Type 0) → P a → Yields Inv (let p : Prog E W A = pure a in p) P
  unfolding Yields
  Yields-pure a P h t = Wp-pure E Inv no_potential a t (On P) h

  pub Yields-throw :
      {A : Type 0} (e : Error) (P : A → Type 0) → Yields Inv (let p : Prog E W A = throw e in p) P
  unfolding Yields
  Yields-throw e P t = Wp-throw E Inv no_potential e t (On P) tt

  pub Yields-from_result :
      {A : Type 0} (r : Result A) → Yields Inv (let p : Prog E W A = from_result r in p) Anything
  Yields-from_result (ok a) = Yields-pure a Anything tt
  Yields-from_result (err e) = Yields-throw e Anything

module _ {E W : Type 0} (Inv : W → Type 0) where
  pub Yields->>= :
      {A B : Type 0} (p : Prog E W A) (f : A → Prog E W B) (P : A → Type 0) (Q : B → Type 0)
      → Yields Inv p P
      → ((a : A) → P a → Yields Inv (f a) Q)
      → Yields Inv (p >>= f) Q
  unfolding Yields
  Yields->>= p f P Q hp hf t =
      Wp->>= Inv no_potential p f t (On Q)
        (Wp-mono Inv no_potential p t (On P) (Then Inv no_potential f (On Q)) cases (hp t))
    where
      cases : (r : Result _) (t' : ℕ) → On P r t' → Then Inv no_potential f (On Q) r t'
      cases (ok a) t' h = hf a h t'
      cases (err e) t' h = tt

  pub Yields-try_catch :
      {A : Type 0} (p : Prog E W A) (h : Error → Prog E W A) (P : A → Type 0)
      → Yields Inv p P
      → ((e : Error) → Yields Inv (h e) P)
      → Yields Inv (try_catch p h) P
  unfolding Yields
  Yields-try_catch p h P hp hh t =
      Wp-try_catch Inv no_potential p h t (On P)
        (Wp-mono Inv no_potential p t (On P) (Caught Inv no_potential h (On P)) cases (hp t))
    where
      cases : (r : Result _) (t' : ℕ) → On P r t' → Caught Inv no_potential h (On P) r t'
      cases (ok a) t' q = q
      cases (err e) t' q = hh e t'

  pub Yields-attempt :
      {A : Type 0} (p : Prog E W A) (P : A → Type 0)
      → Yields Inv p P
      → Yields Inv (attempt p) Anything
  unfolding Yields
  Yields-attempt p P hp t =
      Wp-attempt Inv no_potential p t (On Anything)
        (Wp-mono Inv no_potential p t (On P) _ (λ r t' h. tt) (hp t))

  -- One call, which keeps the invariant.
  pub Yields-call :
      {A : Type 0} (c : Action E W A) (P : A → Type 0)
      → ((env : E) (w : W) → Inv w → Inv (c env w).1 × On P (c env w).0 0)
      → Yields Inv (call c) P
  unfolding Yields
  Yields-call c P h t = Wp-call Inv no_potential c t (On P) λ env w inv.
      let (inv', got) = h env w inv in (t, inv', omega arith, at_tokens (c env w).0 t got)
    where
      at_tokens : (r : Result _) (t : ℕ) → On P r 0 → On P r t
      at_tokens (ok a) t got = got
      at_tokens (err e) t got = tt

  pub Yields-if :
      {A : Type 0} (b : Bool) (p q : Prog E W A) (P : A → Type 0)
      → Yields Inv p P
      → Yields Inv q P
      → Yields Inv (if b then p else q) P
  Yields-if true p q P hp hq = hp
  Yields-if false p q P hp hq = hq

  pub Yields-promise_all :
      {A B : Type 0} (f : A → Prog E W B) (xs : List A)
      → ((x : A) → Yields Inv (f x) Anything)
      → Yields Inv (promise_all f xs) Anything
  unfolding promise_all
  Yields-promise_all f [] h = Yields-pure E Inv [] Anything tt
  Yields-promise_all f (x ∷ xs) h =
      Yields->>= _ _ Anything Anything (Yields-attempt (f x) Anything (h x)) λ r _.
        Yields->>= _ _ Anything Anything
          (Yields-attempt (promise_all f xs) Anything (Yields-promise_all f xs h))
          λ rest _. Yields-from_result E Inv (settle r rest)
