-- ===== src/GpuAbstraction/Vulkan/Thread/Exchanges.antt =====
-- One command and its reply against `ask`, under every order of turns.
use sher_graphics.Base.{ℕ, ◌≡◌, refl, List, All, arith}
use sher_graphics.GpuAbstraction.Vulkan.State.{
  Reply, replied, stopped, VulkanBackend, Worker, alive, ending, Exchange, ask,
}
use sher_graphics.GpuAbstraction.Vulkan.Thread.{
  Thread, up, falling, down, finished, System, Actor, interleave, begin,
}
use sher_graphics.GpuAbstraction.Vulkan.Thread.Stages.{Among-All, up_stages, stages, reached}

module _ (B : VulkanBackend) where
  -- The thread as a later command finds it: one that falls may still take any number.
  abbrev pub Shows : Thread B.Backend → Worker B → Type 0
  Shows (up b) w = w ≡ alive b
  Shows falling w = (n : ℕ) × (w ≡ ending n)
  Shows down w = w ≡ ending 0

  -- The same command, but a backend that panics leaves the channel open for `n` more.
  abbrev pub leaving : ℕ → (B.Backend → Reply × B.Backend) → B.Backend → Reply × B.Backend
  leaving n run b =
      let (r, b') = run b in (elim r [ replied x ↦ replied x | stopped m ↦ stopped n ], b')

  -- What `ask` answers in one go, for some number of commands that a closing channel takes.
  abbrev pub Asked :
      (B.Backend → Reply × B.Backend) → Thread B.Backend → Exchange → Thread B.Backend → Type 0
  Asked run t x t' =
      (n : ℕ) × (w : Worker B) × (w' : Worker B) × Shows t w
      × Shows t' w'
      × (ask (leaving n run) w ≡ (x, w'))

module _ (B : VulkanBackend) (run : B.Backend → Reply × B.Backend) where
  abbrev Ends : Thread B.Backend → System B.Backend → Type 0
  Ends t s = (x : Exchange) → s.phase ≡ finished x → Asked B run t x s.thread

  up_stages-Ends :
      (b : B.Backend) (r : Reply) (b' : B.Backend)
      → run b ≡ (r, b')
      → All (Ends (up b)) (up_stages run b r b')
  unfolding ask
  up_stages-Ends b (replied x) b' e = (
    λ y h. cc,
    (λ y h. cc, (λ y h. cc, (λ y h. (0, alive b, alive b', refl, refl, ground arith), tt))),
  )
  up_stages-Ends b (stopped n) b' e = (
    λ y h. cc,
    (
      λ y h. cc,
      (
        λ y h. cc,
        (
          λ y h. cc,
          (
            λ y h. (0, alive b, ending 0, refl, (0, refl), ground arith),
            (λ y h. (0, alive b, ending 0, refl, refl, ground arith), tt),
          ),
        ),
      ),
    ),
  )

  stages-Ends : (t : Thread B.Backend) → All (Ends t) (stages run t)
  unfolding ask
  stages-Ends (up b) = up_stages-Ends b (run b).0 (run b).1 refl
  stages-Ends falling = (
    λ y h. cc,
    (
      λ y h. cc,
      (
        λ y h. cc,
        (
          λ y h. cc,
          (
            λ y h. (0, ending 1, ending 0, (1, refl), refl, ground arith),
            (λ y h. (0, ending 0, ending 0, (0, refl), refl, ground arith), tt),
          ),
        ),
      ),
    ),
  )
  stages-Ends down = (λ y h. cc, (λ y h. (0, ending 0, ending 0, refl, refl, ground arith), tt))

  -- However the driver and the render thread take turns, and in whatever state the thread is found,
  -- an exchange that has finished has the result of `ask`, and leaves the thread as `ask` does, for
  -- some number of commands that the channel of a falling thread still takes.
  pub exchange_refines :
      (t : Thread B.Backend) (turns : List Actor) (x : Exchange)
      → (interleave run turns (begin t)).phase ≡ finished x
      → Asked B run t x (interleave run turns (begin t)).thread
  exchange_refines t turns x h =
      Among-All (Ends t) (stages run t) _ (reached run t turns) (stages-Ends t) x h
