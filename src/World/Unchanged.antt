-- ===== src/World/Unchanged.antt =====
-- Handlers that leave the world as it is, whatever they are answered.
use avasettile.Common.{◌≡◌, refl, sym, subst, Option, none, some}
use avasettile.Effect.{Error, pure, throw, call, or_throw, ◌>>=◌}
use avasettile.Effect.Yields.{
  On, Anything, Yields, Yields->>=, Yields-call, Yields-pure, Yields-throw,
}
use avasettile.World.State.{World, Outside, DatabaseAnswer, answered, refused, reply_lost}
use avasettile.World.Calls.{Handler, reply, query, get_now}

module _ (w : World) where
  -- The world is what it was.
  abbrev pub Same : World → Type 0
  Same v = v ≡ w

  abbrev pub Idle : {A : Type 0} → Handler A → Type 0
  Idle p = Yields Same p Anything

  pub Idle-then :
      {A B : Type 0} (p : Handler A) (f : A → Handler B)
      → Idle p
      → ((a : A) → Idle (f a))
      → Idle (p >>= f)
  Idle-then p f hp hf = Yields->>= Same p f Anything Anything hp (λ a _. hf a)

  pub Idle-pure : {A : Type 0} (a : A) → Idle (let p : Handler A = pure a in p)
  Idle-pure a = Yields-pure Outside Same a Anything tt

  pub Idle-throw : (A : Type 0) (e : Error) → Idle (let p : Handler A = throw e in p)
  Idle-throw A e = Yields-throw Outside Same {A = A} e Anything

  pub Idle-or_throw :
      {A : Type 0} (o : Option A) (e : Error) → Idle (let p : Handler A = or_throw o e in p)
  Idle-or_throw none e = Idle-throw _ e
  Idle-or_throw (some a) e = Idle-pure a

  -- A statement whose answer is known in this world and which leaves it as it is.
  pub Yields-statement :
      {A : Type 0} (f : Outside → World → A × World) (P : A → Type 0)
      → ((env : Outside) → ((f env w).1 ≡ w) × P (f env w).0)
      → Yields Same (call (query f)) P
  Yields-statement {A} f P h = Yields-call Same (query f) P λ env v same.
      subst (λ u. Same (query f env u).1 × On P (query f env u).0 0) (sym same)
        (at env.database (f env w) (h env).0 (h env).1)
    where
      at :
          (d : DatabaseAnswer) (s : A × World)
          → s.1 ≡ w
          → P s.0
          → Same (reply d s w).1 × On P (reply d s w).0 0
      at answered s same got = (same, got)
      at refused s same got = (refl, tt)
      at reply_lost s same got = (same, tt)

  pub Idle-read :
      {A : Type 0} (f : Outside → World → A) → Idle (call (query (λ env v. (f env v, v))))
  Idle-read f = Yields-statement _ Anything (λ env. (refl, tt))

  pub Idle-get_now : Idle get_now
  Idle-get_now = Yields-call Same _ Anything (λ env v same. (same, tt))
