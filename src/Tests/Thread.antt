-- ===== src/Tests/Thread.antt =====
-- A render thread whose backend panics on a submission.
use sher_graphics.Base.{ℕ, ◌+◌, ◌≡◌, refl, List, [], ◌∷◌, map}
use sher_graphics.GpuAbstraction.{barrier}
use sher_graphics.GpuAbstraction.Vulkan.State.{
  done, replied, stopped, VulkanBackend, dropped, alive,
}
use sher_graphics.GpuAbstraction.Vulkan.Thread.{
  up, Actor, driver, worker, turn, interleave, begin, finished, run_worker,
}
use sher_graphics.GpuAbstraction.Vulkan.Thread.Exchanges.{Asked, exchange_refines}
use sher_graphics.GpuAbstraction.Vulkan.Thread.Ending.{is_finished, within, exchange_finishes_iff}
use sher_graphics.GpuAbstraction.Vulkan.Thread.Shutdown.{
  Request, submission, resetting, command, exchanges, Sees, worker_answers,
}

-- The backend's state counts its resets.
abbrev crashing : VulkanBackend
crashing = record {
  Backend = ℕ;
  enumerate_adapters = λ b. (done [], b);
  execute = λ ops b. (stopped 0, b);
  reset = λ b. (replied (done tt), b + 1);
}

-- The driver looks for the reply before the thread has closed its channel.
abbrev turns : List Actor
turns = driver ∷ worker ∷ driver ∷ []

turns_finish : (interleave (crashing.execute []) turns (begin (up 0))).phase ≡ finished dropped
unfolding interleave turn
turns_finish = refl

exchange_refines_example :
    Asked crashing
      (crashing.execute [])
      (up 0)
      dropped
      (interleave (crashing.execute []) turns (begin (up 0))).thread
exchange_refines_example =
    exchange_refines crashing (crashing.execute []) (up 0) turns dropped turns_finish

exchange_finishes_iff_example :
    is_finished (interleave (crashing.execute []) turns (begin (up 0))).phase
    ≡ within (driver ∷ worker ∷ driver ∷ []) turns
exchange_finishes_iff_example = exchange_finishes_iff (crashing.execute []) (up 0) turns

abbrev requests : List Request
requests = resetting ∷ submission (barrier ∷ []) ∷ resetting ∷ []

worker_answers_example :
    Sees crashing
      (exchanges crashing requests (alive 0))
      (run_worker crashing (map command requests) 0)
worker_answers_example = worker_answers crashing requests 0
