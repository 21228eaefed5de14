-- ===== src/Effect/Each.antt =====
-- Programs on the elements of a list, with what each returns; and what a program that runs alone returns.
use avasettile.Common.{ℕ, suc, ◌≡◌, subst, List, [], ◌∷◌}
use avasettile.Common.Some.{Some}
use avasettile.Effect.Defs.{
  Result, ok, err, Prog, pure, throw, await, attempt, from_result, promise_all, settle,
}
use avasettile.Effect.Returns.{Each}
use avasettile.Effect.Sequential.{trace}
use avasettile.Effect.Weakest.{Wp, Wp-mono, Wp-attempt}
use avasettile.Effect.Yields.{On, Yields, Yields->>=, Yields-pure, Yields-throw, no_potential}
use mathlib.Core.Logic.{inl, inr}

-- An outcome that is a value satisfies the predicate.
abbrev OnOk : {A : Type 0} → (A → Type 0) → Result A → Type 0
OnOk P (ok a) = P a
OnOk P (err e) = Unit

Yields-settle :
    (E : Type 0) {W : Type 0} (Inv : W → Type 0) {A B : Type 0} (R : A → B → Type 0) (x : A)
    (xs : List A) (r : Result B) (rest : Result (List B))
    → OnOk (R x) r
    → OnOk (Each R xs) rest
    → Yields Inv (let p : Prog E W (List B) = from_result (settle r rest) in p) (Each R (x ∷ xs))
Yields-settle E Inv R x xs (ok b) (ok bs) h hs =
    Yields-pure E Inv (b ∷ bs) (Each R (x ∷ xs)) (h, hs)
Yields-settle E Inv R x xs (ok b) (err e) h hs = Yields-throw E Inv e (Each R (x ∷ xs))
Yields-settle E Inv R x xs (err e) rest h hs = Yields-throw E Inv e (Each R (x ∷ xs))

module _ {E W : Type 0} (Inv : W → Type 0) where
  pub Yields-weaken :
      {A : Type 0} (p : Prog E W A) (P Q : A → Type 0)
      → Yields Inv p P
      → ((a : A) → P a → Q a)
      → Yields Inv p Q
  unfolding Yields
  Yields-weaken {A} p P Q h f t = Wp-mono Inv no_potential p t (On P) (On Q) cases (h t)
    where
      cases : (r : Result A) (t' : ℕ) → On P r t' → On Q r t'
      cases (ok a) t' got = f a got
      cases (err e) t' got = tt

  Yields-outcome :
      {A : Type 0} (p : Prog E W A) (P : A → Type 0)
      → Yields Inv p P
      → Yields Inv (attempt p) (OnOk P)
  unfolding Yields
  Yields-outcome {A} p P h t =
      Wp-attempt Inv no_potential p t _ (Wp-mono Inv no_potential p t (On P) _ cases (h t))
    where
      cases : (r : Result A) (t' : ℕ) → On P r t' → OnOk P r
      cases (ok a) t' got = got
      cases (err e) t' got = tt

  pub Yields-Each :
      {A B : Type 0} (f : A → Prog E W B) (R : A → B → Type 0) (xs : List A)
      → ((x : A) → Yields Inv (f x) (R x))
      → Yields Inv (promise_all f xs) (Each R xs)
  unfolding promise_all
  Yields-Each f R [] h = Yields-pure E Inv [] (Each R []) tt
  Yields-Each f R (x ∷ xs) h =
      Yields->>= Inv (attempt (f x)) _ (OnOk (R x)) (Each R (x ∷ xs))
        (Yields-outcome (f x) (R x) (h x))
        λ r hr.
          Yields->>= Inv (attempt (promise_all f xs)) _ (OnOk (Each R xs)) (Each R (x ∷ xs))
            (Yields-outcome (promise_all f xs) (Each R xs) (Yields-Each f R xs h))
            (λ rest hs. Yields-settle E Inv R x xs r rest hr hs)

  Wp-alone :
      {A : Type 0} (p : Prog E W A) (P : A → Type 0) (t : ℕ) (outside : ℕ → E) (n : ℕ) (w : W)
      (a : A)
      → Inv w
      → Wp Inv no_potential p t (On P)
      → (trace outside n p w).0 ≡ ok a
      → P a
  unfolding trace Wp
  Wp-alone (pure b) P t outside n w a inv h e = let same : b ≡ a = cc e in subst P same h
  Wp-alone (throw x) P t outside n w a inv h e = cc
  Wp-alone (await c next) P t outside n w a inv h e =
      let (t', inv', le, rest) = h (outside n) w inv in
      Wp-alone (next (c (outside n) w).0) P t' outside (suc n) (c (outside n) w).1 a inv' rest e

  pub Yields-alone :
      {A : Type 0} (p : Prog E W A) (P : A → Type 0) (outside : ℕ → E) (n : ℕ) (w : W) (a : A)
      → Inv w
      → Yields Inv p P
      → (trace outside n p w).0 ≡ ok a
      → P a
  unfolding Yields
  Yields-alone p P outside n w a inv h e = Wp-alone p P 0 outside n w a inv (h 0) e

pub Some-Each :
    {A B : Type 0} (R : A → B → Type 0) (P : A → Type 0) (Q : B → Type 0)
    → ((a : A) (b : B) → R a b → P a → Q b)
    → (xs : List A) (ys : List B) → Each R xs ys
    → Some P xs
    → Some Q ys
Some-Each R P Q f [] ys h s = absurd s
Some-Each R P Q f (x ∷ xs) [] h s = absurd h
Some-Each R P Q f (x ∷ xs) (y ∷ ys) (h, hs) (inl s) = inl (f x y h s)
Some-Each R P Q f (x ∷ xs) (y ∷ ys) (h, hs) (inr s) = inr (Some-Each R P Q f xs ys hs s)
