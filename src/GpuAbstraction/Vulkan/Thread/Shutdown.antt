-- ===== src/GpuAbstraction/Vulkan/Thread/Shutdown.antt =====
-- The loop of the render thread against the driver's exchanges, and its end.
use sher_graphics.Base.{
  ℕ, zero, suc, ◌≡◌, refl, ap, ◌⊎◌, inl, inr, List, [], ◌∷◌, ◌++◌, All, map, arith,
}
use sher_graphics.GpuAbstraction.{DriverOp}
use sher_graphics.GpuAbstraction.Vulkan.State.{
  BackendResult, Reply, replied, stopped, VulkanBackend, Worker, alive, ending, Exchange, unsent,
  dropped, answered, ask,
}
use sher_graphics.GpuAbstraction.Vulkan.Thread.{
  Thread, up, down, Command, submit, reset, shutdown, run_worker,
}

-- A call of the driver that waits for the render thread.
pub data Request : Type 0 where
  submission : List DriverOp → Request
  resetting : Request

unfoldable pub command : Request → Command
command (submission ops) = submit ops
command resetting = reset

Reply-cases :
    (r : Reply) → ((x : BackendResult (Unit {0})) × (r ≡ replied x)) ⊎ ((n : ℕ) × (r ≡ stopped n))
Reply-cases (replied x) = inl (x, refl)
Reply-cases (stopped n) = inr (n, refl)

-- No reply came, and none can come.
abbrev pub Lost : Exchange → Type 0
Lost x = (x ≡ dropped) ⊎ (x ≡ unsent)

module _ (B : VulkanBackend) where
  unfoldable pub perform : Request → B.Backend → Reply × B.Backend
  perform (submission ops) b = B.execute ops b
  perform resetting b = B.reset b

  unfoldable pub exchange : Request → Worker B → Exchange × Worker B
  unfolding ask perform
  exchange q w = ask (perform q) w

  -- The driver's exchanges, one after the other.
  unfoldable pub exchanges : List Request → Worker B → List Exchange × Worker B
  unfolding exchange
  exchanges [] w = ([], w)
  exchanges (q ∷ qs) w =
      let (x, w') = exchange q w in let (xs, w'') = exchanges qs w' in (x ∷ xs, w'')

  exchanges_ending : (qs : List Request) (n : ℕ) → All Lost (exchanges qs (ending n)).0
  unfolding exchanges
  exchanges_ending [] n = tt
  exchanges_ending (submission ops ∷ qs) zero = (inr refl, exchanges_ending qs zero)
  exchanges_ending (resetting ∷ qs) zero = (inr refl, exchanges_ending qs zero)
  exchanges_ending (submission ops ∷ qs) (suc n) = (inl refl, exchanges_ending qs n)
  exchanges_ending (resetting ∷ qs) (suc n) = (inl refl, exchanges_ending qs n)

  pub exchanges_replied :
      (q : Request) (qs : List Request) (b b' : B.Backend) (x : BackendResult (Unit {0}))
      → perform q b ≡ (replied x, b')
      → exchanges (q ∷ qs) (alive b)
        ≡ (answered x ∷ (exchanges qs (alive b')).0, (exchanges qs (alive b')).1)
  unfolding exchanges
  exchanges_replied q qs b b' x e = ground arith

  run_worker_replied :
      (q : Request) (cs : List Command) (b b' : B.Backend) (x : BackendResult (Unit {0}))
      → perform q b ≡ (replied x, b')
      → run_worker B (command q ∷ cs) b ≡ (x ∷ (run_worker B cs b').0, (run_worker B cs b').1)
  unfolding run_worker command perform
  run_worker_replied (submission ops) cs b b' x e = ground arith
  run_worker_replied resetting cs b b' x e = ground arith

  exchanges_stopped :
      (q : Request) (qs : List Request) (b b' : B.Backend) (n : ℕ)
      → perform q b ≡ (stopped n, b')
      → exchanges (q ∷ qs) (alive b)
        ≡ (dropped ∷ (exchanges qs (ending n)).0, (exchanges qs (ending n)).1)
  unfolding exchanges
  exchanges_stopped q qs b b' n e = ground arith

  run_worker_stopped :
      (q : Request) (cs : List Command) (b b' : B.Backend) (n : ℕ)
      → perform q b ≡ (stopped n, b')
      → run_worker B (command q ∷ cs) b ≡ ([], down)
  unfolding run_worker command perform
  run_worker_stopped (submission ops) cs b b' n e = ground arith
  run_worker_stopped resetting cs b b' n e = ground arith

  -- What the driver sees after the last reply: nothing while the thread is up, and otherwise a reply
  -- that is dropped, and after it only lost ones.
  abbrev pub Remains : Thread B.Backend → Worker B → List Exchange → Type 0
  Remains (up b) w [] = w ≡ alive b
  Remains (up b) w (x ∷ xs) = ⊥
  Remains t w [] = ⊥
  Remains t w (x ∷ xs) = (x ≡ dropped) × All Lost xs

  -- What the driver sees is the replies of the loop, and what remains.
  abbrev pub Sees :
      List Exchange × Worker B → List (BackendResult (Unit {0})) × Thread B.Backend → Type 0
  Sees (xs, w) (replies, t) =
      (lost : List Exchange) × (xs ≡ map answered replies ++ lost) × Remains t w lost

  worker_answers_none : (b : B.Backend) → Sees (exchanges [] (alive b)) (run_worker B [] b)
  unfolding exchanges run_worker
  worker_answers_none b = ([], refl, refl)

  -- Over any backend, the exchanges of a driver whose thread is up are the replies of the loop of
  -- `run_worker` over the same commands, in order; if the loop is still up, that is all of them, and
  -- the driver finds the backend as the loop left it; if the backend panicked, the next exchange is
  -- dropped without a reply and all later ones are lost too.
  pub worker_answers :
      (qs : List Request) (b : B.Backend)
      → Sees (exchanges qs (alive b)) (run_worker B (map command qs) b)
  worker_answers [] b = worker_answers_none b
  worker_answers (q ∷ qs) b = elim (Reply-cases (perform q b).0) [
    | inl (x, e) ↦
        let b' = (perform q b).1 in
        let (lost, same, rest) = worker_answers qs b' in
        rw
          (
            exchanges_replied q qs b b' x (ap (λ r. (r, b')) e),
            run_worker_replied q (map command qs) b b' x (ap (λ r. (r, b')) e),
          )
          (lost, ap (λ z. answered x ∷ z) same, rest)
    | inr (n, e) ↦
        let b' = (perform q b).1 in
        rw
          (
            exchanges_stopped q qs b b' n (ap (λ r. (r, b')) e),
            run_worker_stopped q (map command qs) b b' n (ap (λ r. (r, b')) e),
          )
          (dropped ∷ (exchanges qs (ending n)).0, refl, (refl, exchanges_ending qs n))
  ]

  -- Dropping the driver sends one more command, `shutdown`, and joins the thread, and that join
  -- returns: whatever was sent before, the loop answers it as it would have without the shutdown, ends,
  -- and answers nothing sent after it.
  pub shutdown_ends :
      (before after : List Command) (b : B.Backend)
      → run_worker B (before ++ shutdown ∷ after) b ≡ ((run_worker B before b).0, down)
  unfolding run_worker
  shutdown_ends [] after b = refl
  shutdown_ends (shutdown ∷ before) after b = refl
  shutdown_ends (submit ops ∷ before) after b =
      let rest = shutdown_ends before after (B.execute ops b).1 in ground arith
  shutdown_ends (reset ∷ before) after b =
      let rest = shutdown_ends before after (B.reset b).1 in ground arith
