-- ===== src/Effect/Pool.antt =====
-- Handlers that run at the same time on one world: requests arrive, handlers take turns call by
-- call in any order, and handlers are lost when a process dies.
use avasettile.Common.{ℕ, zero, suc, ◌+◌, ◌≤◌, List, [], ◌∷◌, arith}
use avasettile.Effect.Defs.{Prog, pure, throw, await}
use avasettile.Effect.Weakest.{Wp, Safe}

abbrev pub Task : Type 0 → Type 0 → Type 1
Task E W = Prog E W (Unit {0})

pub data Event (E Request : Type 0) : Type 0 where
  arrive : Request → Event E Request
  turn : ℕ → E → Event E Request
  crash : ℕ → Event E Request

module _ {E W : Type 0} where
  -- One call of the task at a position; a task that has ended does nothing.
  unfoldable pub take_turn : ℕ → E → W → List (Task E W) → W × List (Task E W)
  take_turn k env w [] = (w, [])
  take_turn zero env w (pure a ∷ ps) = (w, pure a ∷ ps)
  take_turn zero env w (throw e ∷ ps) = (w, throw e ∷ ps)
  take_turn zero env w (await c next ∷ ps) = let (r, w') = c env w in (w', next r ∷ ps)
  take_turn (suc k) env w (p ∷ ps) = let (w', ps') = take_turn k env w ps in (w', p ∷ ps')

  unfoldable pub lose_task : ℕ → List (Task E W) → List (Task E W)
  lose_task k [] = []
  lose_task zero (p ∷ ps) = ps
  lose_task (suc k) (p ∷ ps) = p ∷ lose_task k ps

module _ {E W Request : Type 0} (handler : Request → Task E W) where
  unfoldable pub step_pool : Event E Request → W × List (Task E W) → W × List (Task E W)
  unfolding take_turn lose_task
  step_pool (arrive req) (w, ps) = (w, handler req ∷ ps)
  step_pool (turn k env) (w, ps) = take_turn k env w ps
  step_pool (crash k) (w, ps) = (w, lose_task k ps)

  unfoldable pub run_pool : List (Event E Request) → W × List (Task E W) → W × List (Task E W)
  unfolding step_pool
  run_pool [] s = s
  run_pool (e ∷ es) s = run_pool es (step_pool e s)

module _ {E W : Type 0} (Inv : W → Type 0) (potential : W → ℕ) where
  -- The tasks hold so many tokens together, and each is safe with its own.
  abbrev Funded : List (Task E W) → ℕ → Type 0
  Funded [] n = Unit
  Funded (p ∷ ps) n =
      (t : ℕ) × (rest : ℕ) × (t + rest ≤ n) × Safe Inv potential p t × Funded ps rest

  Funded-mono : (ps : List (Task E W)) (m n : ℕ) → m ≤ n → Funded ps m → Funded ps n
  Funded-mono [] m n le h = tt
  Funded-mono (p ∷ ps) m n le (t, rest, fits, safe, others) = (t, rest, omega arith, safe, others)

  -- The bound is on potential plus tokens.
  abbrev pub Holds : ℕ → W × List (Task E W) → Type 0
  Holds bound s = Inv s.0 × ((n : ℕ) × (potential s.0 + n ≤ bound) × Funded s.1 n)

  lose_task-Funded :
      (k : ℕ) (ps : List (Task E W)) (n : ℕ) → Funded ps n → Funded (lose_task k ps) n
  unfolding lose_task
  lose_task-Funded k [] n h = tt
  lose_task-Funded zero (p ∷ ps) n (t, rest, fits, safe, others) =
      Funded-mono ps rest n (omega arith) others
  lose_task-Funded (suc k) (p ∷ ps) n (t, rest, fits, safe, others) =
      (t, rest, fits, safe, lose_task-Funded k ps rest others)

  -- A turn moves potential into tokens or back.
  take_turn-Holds :
      (k : ℕ) (env : E) (w : W) (ps : List (Task E W)) (n : ℕ)
      → Inv w
      → Funded ps n
      → Inv (take_turn k env w ps).0
        × ((m : ℕ) × (potential (take_turn k env w ps).0 + m ≤ potential w + n)
            × Funded (take_turn k env w ps).1 m)
  unfolding take_turn Wp
  take_turn-Holds k env w [] n inv h = (inv, (n, omega arith, tt))
  take_turn-Holds zero env w (pure a ∷ ps) n inv h = (inv, (n, omega arith, h))
  take_turn-Holds zero env w (throw e ∷ ps) n inv h = (inv, (n, omega arith, h))
  take_turn-Holds zero env w (await c next ∷ ps) n inv (t, rest, fits, safe, others) =
      let (t', inv', le, safe') = safe env w inv in
      (inv', (t' + rest, omega arith, (t', rest, omega arith, safe', others)))
  take_turn-Holds (suc k) env w (p ∷ ps) n inv (t, rest, fits, safe, others) =
      let (inv', (m, le, others')) = take_turn-Holds k env w ps rest inv others in
      (inv', (t + m, omega arith, (t, m, omega arith, safe, others')))

module _ {E W Request : Type 0} (Inv : W → Type 0) (potential : W → ℕ)
    (handler : Request → Task E W)
    (safe : (req : Request) → Safe Inv potential (handler req) 0) where
  step_pool-Holds :
      (bound : ℕ) (e : Event E Request) (s : W × List (Task E W))
      → Holds Inv potential bound s
      → Holds Inv potential bound (step_pool handler e s)
  unfolding step_pool
  step_pool-Holds bound (arrive req) s (inv, (n, le, funded)) =
      (inv, (n, le, (0, n, omega arith, safe req, funded)))
  step_pool-Holds bound (turn k env) s (inv, (n, le, funded)) =
      let (inv', (m, le', funded')) = take_turn-Holds Inv potential k env s.0 s.1 n inv funded in
      (inv', (m, omega arith, funded'))
  step_pool-Holds bound (crash k) s (inv, (n, le, funded)) =
      (inv, (n, le, lose_task-Funded Inv potential k s.1 n funded))

  run_pool-Holds :
      (bound : ℕ) (es : List (Event E Request)) (s : W × List (Task E W))
      → Holds Inv potential bound s
      → Holds Inv potential bound (run_pool handler es s)
  unfolding run_pool
  run_pool-Holds bound [] s h = h
  run_pool-Holds bound (e ∷ es) s h =
      run_pool-Holds bound es (step_pool handler e s) (step_pool-Holds bound e s h)

  -- If every request's handler is safe with no token, then from a world within the bound the
  -- invariant and the bound hold after any requests, turns and crashes, in any order.
  pub run_pool-bounded :
      (bound : ℕ) (es : List (Event E Request)) (w : W)
      → Inv w
      → potential w ≤ bound
      → let w' = (run_pool handler es (w, [])).0 in Inv w' × (potential w' ≤ bound)
  run_pool-bounded bound es w inv le =
      let (inv', (m, le', _)) = run_pool-Holds bound es (w, []) (inv, (0, omega arith, tt)) in
      (inv', omega arith)
