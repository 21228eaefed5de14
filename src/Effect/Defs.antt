-- ===== src/Effect/Defs.antt =====
-- Programs over the environment's answers `E` and the world `W`: `async` functions with `await`,
-- `throw`, `try`/`catch`, `for … of` and `Promise.all`.
use avasettile.Common.{Option, none, some, List, [], ◌∷◌}
use avasettile.Effect.Errors.{Error}

pub data Result {ℓ} (A : Type ℓ) : Type ℓ where
  ok : A → Result A
  err : Error → Result A

-- One database statement or network call: it reads what the outside answers at that moment.
abbrev pub Action : Type 0 → Type 0 → Type 0 → Type 0
Action E W A = E → W → Result A × W

pub data Prog (E W A : Type 0) : Type 1 where
  pure : A → Prog E W A
  throw : Error → Prog E W A
  await : {B : Type 0} → Action E W B → (Result B → Prog E W A) → Prog E W A

-- How `Promise.all` joins two outcomes.
abbrev pub settle : {A : Type 0} → Result A → Result (List A) → Result (List A)
settle (err e) rest = err e
settle (ok a) (err e) = err e
settle (ok a) (ok as') = ok (a ∷ as')

module _ {E W : Type 0} where
  infixl 5 ◌>>=◌ ◌>>◌
  unfoldable pub ◌>>=◌ : {A B : Type 0} → Prog E W A → (A → Prog E W B) → Prog E W B
  pure a >>= f = f a
  throw e >>= f = throw e
  await c k >>= f = await c (λ r. k r >>= f)

  abbrev pub ◌>>◌ : {A B : Type 0} → Prog E W A → Prog E W B → Prog E W B
  m >> k = m >>= λ _. k

  -- The program's outcome as a value; it throws nothing.
  unfoldable pub attempt : {A : Type 0} → Prog E W A → Prog E W (Result A)
  attempt (pure a) = pure (ok a)
  attempt (throw e) = pure (err e)
  attempt (await c k) = await c (λ r. attempt (k r))

  abbrev pub from_result : {A : Type 0} → Result A → Prog E W A
  from_result (ok a) = pure a
  from_result (err e) = throw e

  -- `try { … } catch (error) { … }`
  abbrev pub handle : {A : Type 0} → (Error → Prog E W A) → Result A → Prog E W A
  handle h (ok a) = pure a
  handle h (err e) = h e

  abbrev pub try_catch : {A : Type 0} → Prog E W A → (Error → Prog E W A) → Prog E W A
  try_catch p h = attempt p >>= handle h

  unfoldable pub call : {A : Type 0} → Action E W A → Prog E W A
  call c = await c from_result

  abbrev pub or_throw : {A : Type 0} → Option A → Error → Prog E W A
  or_throw none e = throw e
  or_throw (some a) e = pure a

  -- `for (const x of xs) await f(x)`
  unfoldable pub for_each : {A : Type 0} → (A → Prog E W (Unit {0})) → List A → Prog E W (Unit {0})
  for_each f [] = pure tt
  for_each f (x ∷ xs) = f x >> for_each f xs

  -- `Promise.all`: every element runs to its end, also when another has failed; the first failure
  -- is thrown. The elements are taken to make their calls in the order of the list.
  unfoldable pub promise_all : {A B : Type 0} → (A → Prog E W B) → List A → Prog E W (List B)
  promise_all f [] = pure []
  promise_all f (x ∷ xs) =
      attempt (f x) >>= λ r. attempt (promise_all f xs) >>= λ rest. from_result (settle r rest)
