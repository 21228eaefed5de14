-- ===== src/Effect/Weakest.antt =====
-- Reasoning about a handler among others. Fix an invariant of the world and a potential; a handler
-- holds tokens, and each of its calls, from every world that satisfies the invariant, keeps the
-- invariant and never raises potential plus tokens.
use avasettile.Common.{ℕ, ◌+◌, ◌≤◌}
use avasettile.Effect.Errors.{Error}
use avasettile.Effect.Defs.{
  Result, ok, err, Action, Prog, pure, throw, await, ◌>>=◌, attempt, from_result, handle, try_catch,
  call,
}

-- A postcondition speaks of the outcome and of the tokens that are left.
abbrev pub Post : Type 0 → Type 1
Post A = Result A → ℕ → Type 0

module _ {W : Type 0} (Inv : W → Type 0) (potential : W → ℕ) where
  -- One call at one moment, with its outcome and the world after it.
  abbrev pub Keeps : {B : Type 0} → Result B × W → W → ℕ → Post B → Type 0
  Keeps s w t Q = (t' : ℕ) × Inv s.1 × (potential s.1 + t' ≤ potential w + t) × Q s.0 t'

module _ {E W : Type 0} (Inv : W → Type 0) (potential : W → ℕ) where
  abbrev pub Act : {B : Type 0} → Action E W B → ℕ → Post B → Type 0
  Act c t Q = (env : E) (w : W) → Inv w → Keeps Inv potential (c env w) w t Q

  unfoldable pub Wp : {A : Type 0} → Prog E W A → ℕ → Post A → Type 0
  Wp (pure a) t Q = Q (ok a) t
  Wp (throw e) t Q = Q (err e) t
  Wp (await c k) t Q = Act c t (λ r t'. Wp (k r) t' Q)

  -- A handler that ends with any outcome and any tokens.
  abbrev pub Safe : {A : Type 0} → Prog E W A → ℕ → Type 0
  Safe p t = Wp p t (λ _ _. Unit)

-- How programs end, at the environment's type.
module _ (E : Type 0) {W : Type 0} (Inv : W → Type 0) (potential : W → ℕ) where
  pub Wp-pure :
      {A : Type 0} (a : A) (t : ℕ) (Q : Post A)
      → Q (ok a) t
      → Wp Inv potential (let p : Prog E W A = pure a in p) t Q
  unfolding Wp
  Wp-pure a t Q h = h

  pub Wp-throw :
      {A : Type 0} (e : Error) (t : ℕ) (Q : Post A)
      → Q (err e) t
      → Wp Inv potential (let p : Prog E W A = throw e in p) t Q
  unfolding Wp
  Wp-throw e t Q h = h

module _ {E W : Type 0} (Inv : W → Type 0) (potential : W → ℕ) where
  pub Wp-mono :
      {A : Type 0} (p : Prog E W A) (t : ℕ) (Q R : Post A)
      → ((r : Result A) (t' : ℕ) → Q r t' → R r t')
      → Wp Inv potential p t Q
      → Wp Inv potential p t R
  unfolding Wp
  Wp-mono (pure a) t Q R imp h = imp (ok a) t h
  Wp-mono (throw e) t Q R imp h = imp (err e) t h
  Wp-mono (await c k) t Q R imp h = λ env w inv.
      let (t', inv', le, rest) = h env w inv in
      (t', inv', le, Wp-mono (k (c env w).0) t' Q R imp rest)

  abbrev pub Then : {A B : Type 0} → (A → Prog E W B) → Post B → Post A
  Then f Q (ok a) t = Wp Inv potential (f a) t Q
  Then f Q (err e) t = Q (err e) t

  pub Wp->>= :
      {A B : Type 0} (p : Prog E W A) (f : A → Prog E W B) (t : ℕ) (Q : Post B)
      → Wp Inv potential p t (Then f Q)
      → Wp Inv potential (p >>= f) t Q
  unfolding Wp ◌>>=◌
  Wp->>= (pure a) f t Q h = h
  Wp->>= (throw e) f t Q h = h
  Wp->>= (await c k) f t Q h = λ env w inv.
      let (t', inv', le, rest) = h env w inv in (t', inv', le, Wp->>= (k (c env w).0) f t' Q rest)

  pub Wp-attempt :
      {A : Type 0} (p : Prog E W A) (t : ℕ) (Q : Post (Result A))
      → Wp Inv potential p t (λ r t'. Q (ok r) t')
      → Wp Inv potential (attempt p) t Q
  unfolding Wp attempt
  Wp-attempt (pure a) t Q h = h
  Wp-attempt (throw e) t Q h = h
  Wp-attempt (await c k) t Q h = λ env w inv.
      let (t', inv', le, rest) = h env w inv in (t', inv', le, Wp-attempt (k (c env w).0) t' Q rest)

  abbrev pub Caught : {A : Type 0} → (Error → Prog E W A) → Post A → Post A
  Caught h Q (ok a) t = Q (ok a) t
  Caught h Q (err e) t = Wp Inv potential (h e) t Q

  pub Wp-try_catch :
      {A : Type 0} (p : Prog E W A) (h : Error → Prog E W A) (t : ℕ) (Q : Post A)
      → Wp Inv potential p t (Caught h Q)
      → Wp Inv potential (try_catch p h) t Q
  unfolding Wp
  Wp-try_catch p h t Q hyp =
      Wp->>= (attempt p) (handle h) t Q
        (Wp-attempt p t (Then (handle h) Q) (Wp-mono p t (Caught h Q) _ settled hyp))
    where
      settled : (r : Result _) (t' : ℕ) → Caught h Q r t' → Then (handle h) Q (ok r) t'
      settled (ok a) t' q = q
      settled (err e) t' q = q

  pub Wp-call :
      {A : Type 0} (c : Action E W A) (t : ℕ) (Q : Post A)
      → Act Inv potential c t Q
      → Wp Inv potential (call c) t Q
  unfolding Wp call
  Wp-call c t Q h = λ env w inv.
      let (t', inv', le, rest) = h env w inv in (t', inv', le, unwrapped (c env w).0 t' rest)
    where
      unwrapped : (r : Result _) (t' : ℕ) → Q r t' → Wp {E = E} Inv potential (from_result r) t' Q
      unwrapped (ok a) t' h = h
      unwrapped (err e) t' h = h
