-- ===== src/Effect/Returns.antt =====
-- Programs that return, whatever their calls are answered and whatever other handlers do to the world
-- between them.
use avasettile.Common.{ℕ, suc, ◌≡◌, refl, List, [], ◌∷◌}
use avasettile.Effect.Defs.{
  Result, ok, err, Prog, pure, throw, await, ◌>>=◌, attempt, from_result, promise_all, try_catch,
  settle,
}
use avasettile.Effect.Sequential.{trace}
use avasettile.Effect.Errors.{Error}

-- An outcome that is caught.
abbrev pub Caught : {A : Type 0} → (A → Type 0) → Result A → Type 0
Caught Q (ok a) = Q a
Caught Q (err e) = ⊥

-- One outcome for each element, in order.
abbrev pub Each : {A B : Type 0} → (A → B → Type 0) → List A → List B → Type 0
Each R [] [] = Unit
Each R [] (b ∷ bs) = ⊥
Each R (a ∷ as') [] = ⊥
Each R (a ∷ as') (b ∷ bs) = R a b × Each R as' bs

module _ {E W : Type 0} where
  abbrev pub Returns : {A : Type 0} → Prog E W A → (A → Type 0) → Type 0
  Returns (pure a) Q = Q a
  Returns (throw e) Q = ⊥
  Returns (await c next) Q = (env : E) (w : W) → Returns (next (c env w).0) Q

  pub Returns->>= :
      {A B : Type 0} (p : Prog E W A) (f : A → Prog E W B) (P : A → Type 0) (Q : B → Type 0)
      → Returns p P
      → ((a : A) → P a → Returns (f a) Q)
      → Returns (p >>= f) Q
  unfolding ◌>>=◌
  Returns->>= (pure a) f P Q h k = k a h
  Returns->>= (throw e) f P Q h k = absurd h
  Returns->>= (await c next) f P Q h k = λ env w. Returns->>= (next (c env w).0) f P Q (h env w) k

  pub Returns-attempt :
      {A : Type 0} (p : Prog E W A) (Q : A → Type 0) → Returns p Q → Returns (attempt p) (Caught Q)
  unfolding attempt
  Returns-attempt (pure a) Q h = h
  Returns-attempt (throw e) Q h = absurd h
  Returns-attempt (await c next) Q h = λ env w. Returns-attempt (next (c env w).0) Q (h env w)

  -- `p.then(f).catch(g)`
  pub Returns-try_catch :
      {A B : Type 0} (p : Prog E W A) (f : A → B) (g : Error → B) (Q : B → Type 0)
      → ((a : A) → Q (f a))
      → ((e : Error) → Q (g e))
      → Returns (try_catch (p >>= λ a. pure (f a)) (λ e. pure (g e))) Q
  unfolding ◌>>=◌ attempt
  Returns-try_catch (pure a) f g Q h k = h a
  Returns-try_catch (throw e) f g Q h k = k e
  Returns-try_catch (await c next) f g Q h k =
      λ env w. Returns-try_catch (next (c env w).0) f g Q h k

Returns-settle :
    (E W : Type 0) {A B : Type 0} (R : A → B → Type 0) (x : A) (xs : List A) (r : Result B)
    (rest : Result (List B))
    → Caught (R x) r
    → Caught (Each R xs) rest
    → Returns (let p : Prog E W (List B) = from_result (settle r rest) in p) (Each R (x ∷ xs))
Returns-settle E W R x xs (ok b) (ok bs) h hs = (h, hs)
Returns-settle E W R x xs (ok b) (err e) h hs = absurd hs
Returns-settle E W R x xs (err e) rest h hs = absurd h

module _ {E W : Type 0} where
  pub Returns-promise_all :
      {A B : Type 0} (f : A → Prog E W B) (R : A → B → Type 0) (xs : List A)
      → ((x : A) → Returns (f x) (R x))
      → Returns (promise_all f xs) (Each R xs)
  unfolding promise_all
  Returns-promise_all f R [] h = tt
  Returns-promise_all f R (x ∷ xs) h =
      Returns->>= (attempt (f x)) _ (Caught (R x)) (Each R (x ∷ xs))
        (Returns-attempt (f x) (R x) (h x))
        λ r hr.
          Returns->>= (attempt (promise_all f xs)) _ (Caught (Each R xs)) (Each R (x ∷ xs))
            (Returns-attempt (promise_all f xs) (Each R xs) (Returns-promise_all f R xs h))
            (λ rest hs. Returns-settle E W R x xs r rest hr hs)

  -- What a program that returns gives when it runs alone.
  pub Returns-trace :
      {A : Type 0} (p : Prog E W A) (Q : A → Type 0) (outside : ℕ → E) (n : ℕ) (w : W)
      → Returns p Q
      → (a : A) × ((trace outside n p w).0 ≡ ok a) × Q a
  unfolding trace
  Returns-trace (pure a) Q outside n w h = (a, refl, h)
  Returns-trace (throw e) Q outside n w h = absurd h
  Returns-trace (await c next) Q outside n w h =
      Returns-trace (next (c (outside n) w).0) Q outside (suc n) (c (outside n) w).1
        (h (outside n) w)
