-- ===== src/Effect/Grows.antt =====
-- Programs whose calls move the world only along a preorder, in which facts that the preorder
-- preserves may be carried from one call to the next although other handlers run in between.
use avasettile.Common.{ℕ, zero, suc, List, [], ◌∷◌, All}
use avasettile.Effect.Defs.{
  Result, ok, err, Action, Prog, pure, throw, await, ◌>>=◌, attempt, from_result, call, for_each,
}
use avasettile.Effect.Steps.{Steps}
use avasettile.Effect.Pool.{
  Task, Event, arrive, turn, crash, take_turn, lose_task, step_pool, run_pool,
}

-- A fact about an outcome; a thrown error is known by nothing.
abbrev pub OnOk {ℓ} : {A W : Type 0} → (A → W → Type ℓ) → Result A → W → Type ℓ
OnOk Q (ok a) w = Q a w
OnOk Q (err e) w = Unit

abbrev pub Nothing : {A W : Type 0} → A → W → Type 0
Nothing a w = Unit

module _ {E W : Type 0} (R : W → W → Type 0) where
  -- Started in `w`, with other handlers moving the world along `R` before each call, every call
  -- moves it along `R`, and the result satisfies `Q`.
  unfoldable pub Grows : {A : Type 0} → Prog E W A → (A → W → Type 0) → W → Type 0
  Grows (pure a) Q w = Q a w
  Grows (throw e) Q w = Unit
  Grows (await c k) Q w =
      (env : E) (w' : W) → R w w' → R w' (c env w').1 × Grows (k (c env w').0) Q (c env w').1

module _ {W : Type 0} (R : W → W → Type 0) where
  All-later :
      {A : Type 0} (P : A → W → Type 0)
      → ((x : A) (u v : W) → R u v → P x u → P x v)
      → (u v : W) → R u v
      → (xs : List A) → All (λ x. P x u) xs
      → All (λ x. P x v) xs
  All-later P stable u v moved [] h = tt
  All-later P stable u v moved (x ∷ xs) (h, hs) =
      (stable x u v moved h, All-later P stable u v moved xs hs)

module _ {E W : Type 0} (R : W → W → Type 0) (start : (w : W) → R w w)
    (trans : (u v w : W) → R u v → R v w → R u w) where
  pub Grows->>= :
      {A B : Type 0} (p : Prog E W A) (f : A → Prog E W B) (Q : A → W → Type 0) (S : B → W → Type 0)
      (w : W)
      → Grows R p Q w
      → ((a : A) (w' : W) → R w w' → Q a w' → Grows R (f a) S w')
      → Grows R (p >>= f) S w
  unfolding Grows ◌>>=◌
  Grows->>= (pure a) f Q S w hp hf = hf a w (start w) hp
  Grows->>= (throw e) f Q S w hp hf = tt
  Grows->>= (await c k) f Q S w hp hf = λ env w' moved.
      let (here, later) = hp env w' moved in
      (
        here,
        Grows->>= (k (c env w').0) f Q S (c env w').1 later
            (λ a w'' on h. hf a w'' (trans w w' w'' moved (trans w' (c env w').1 w'' here on)) h),
      )

  pub Grows-attempt :
      {A : Type 0} (p : Prog E W A) (Q : A → W → Type 0) (w : W)
      → Grows R p Q w
      → Grows R (attempt p) (OnOk Q) w
  unfolding Grows attempt
  Grows-attempt (pure a) Q w h = h
  Grows-attempt (throw e) Q w h = tt
  Grows-attempt (await c k) Q w h = λ env w' moved.
      let (here, later) = h env w' moved in
      (here, Grows-attempt (k (c env w').0) Q (c env w').1 later)

  pub Grows-call :
      {A : Type 0} (c : Action E W A) (Q : A → W → Type 0) (w : W)
      → ((env : E) (w' : W) → R w w' → R w' (c env w').1 × OnOk Q (c env w').0 (c env w').1)
      → Grows R (call c) Q w
  unfolding Grows call
  Grows-call {A} c Q w h = λ env w' moved.
      let (here, later) = h env w' moved in (here, answer (c env w').0 (c env w').1 later)
    where
      answer :
          (r : Result A) (v : W)
          → OnOk Q r v
          → Grows R (let p : Prog E W A = from_result r in p) Q v
      answer (ok a) v h = h
      answer (err e) v h = tt

  -- What the preorder preserves of each element is there in its round of the loop.
  pub Grows-for_each :
      {A : Type 0} (f : A → Prog E W (Unit {0})) (P : A → W → Type 0)
      → ((x : A) (u v : W) → R u v → P x u → P x v)
      → ((x : A) (w : W) → P x w → Grows R (f x) Nothing w)
      → (xs : List A) (w : W) → All (λ x. P x w) xs
      → Grows R (for_each f xs) Nothing w
  unfolding for_each Grows
  Grows-for_each f P stable body [] w h = tt
  Grows-for_each f P stable body (x ∷ xs) w (h, hs) =
      Grows->>= (f x) _ Nothing Nothing w (body x w h) (λ _ w' moved _.
        Grows-for_each f P stable body xs w' (All-later R P stable w w' moved xs hs))

  -- Every task was started in an earlier world.
  abbrev Underway : List (Task E W) → W → Type 0
  Underway [] w = Unit
  Underway (p ∷ ps) w = ((v : W) × R v w × Grows R p Nothing v) × Underway ps w

  Underway-later : (ps : List (Task E W)) (u v : W) → R u v → Underway ps u → Underway ps v
  Underway-later [] u v moved h = tt
  Underway-later (p ∷ ps) u v moved ((s, since, grows), hs) =
      ((s, trans s u v since moved, grows), Underway-later ps u v moved hs)

  take_turn-Grows :
      (k : ℕ) (env : E) (w : W) (ps : List (Task E W))
      → Underway ps w
      → let (w', ps') = take_turn k env w ps in R w w' × Underway ps' w'
  unfolding take_turn Grows
  take_turn-Grows k env w [] h = (start w, tt)
  take_turn-Grows zero env w (pure a ∷ ps) h = (start w, h)
  take_turn-Grows zero env w (throw e ∷ ps) h = (start w, h)
  take_turn-Grows zero env w (await c k ∷ ps) ((s, since, grows), hs) =
      let (here, later) = grows env w since in
      (here, (((c env w).1, start (c env w).1, later), Underway-later ps w (c env w).1 here hs))
  take_turn-Grows (suc k) env w (p ∷ ps) ((s, since, grows), hs) =
      let (moved, hs') = take_turn-Grows k env w ps hs in
      (moved, ((s, trans s w (take_turn k env w ps).0 since moved, grows), hs'))

  lose_task-Underway :
      (k : ℕ) (ps : List (Task E W)) (w : W) → Underway ps w → Underway (lose_task k ps) w
  unfolding lose_task
  lose_task-Underway k [] w h = tt
  lose_task-Underway zero (p ∷ ps) w (_, hs) = hs
  lose_task-Underway (suc k) (p ∷ ps) w (h, hs) = (h, lose_task-Underway k ps w hs)

  module _ {Request : Type 0} (handler : Request → Task E W)
      (grows : (req : Request) (w : W) → Grows R (handler req) Nothing w) where
    run_pool-along :
        (es : List (Event E Request)) (w : W) (ps : List (Task E W))
        → Underway ps w
        → R w (run_pool handler es (w, ps)).0
    unfolding run_pool step_pool
    run_pool-along [] w ps h = start w
    run_pool-along (arrive req ∷ es) w ps h =
        run_pool-along es w (handler req ∷ ps) ((w, start w, grows req w), h)
    run_pool-along (turn k env ∷ es) w ps h =
        let (moved, hs) = take_turn-Grows k env w ps h in
        let s = take_turn k env w ps in trans w s.0 _ moved (run_pool-along es s.0 s.1 hs)
    run_pool-along (crash k ∷ es) w ps h =
        run_pool-along es w (lose_task k ps) (lose_task-Underway k ps w h)

    -- Requests, turns and crashes in any order move the world along the preorder.
    pub run_pool-grows : (es : List (Event E Request)) (w : W) → R w (run_pool handler es (w, [])).0
    run_pool-grows es w = run_pool-along es w [] tt

-- A program that moves the world along the preorder at each call does so whatever it has seen.
module _ {E W : Type 0} (R : W → W → Type 0) where
  pub Steps-Grows : {A : Type 0} (p : Prog E W A) (w : W) → Steps R p → Grows R p Nothing w
  unfolding Steps Grows
  Steps-Grows (pure a) w h = tt
  Steps-Grows (throw e) w h = tt
  Steps-Grows (await c k) w (hc, hk) =
      λ env w' moved. (hc env w', Steps-Grows (k (c env w').0) (c env w').1 (hk (c env w').0))
