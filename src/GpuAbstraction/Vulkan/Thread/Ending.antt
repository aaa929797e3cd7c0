-- ===== src/GpuAbstraction/Vulkan/Thread/Ending.antt =====
-- The end of an exchange, under every order of turns.
use sher_graphics.Base.{
  ◌≡◌, refl, Bool, true, false, ℕ, ◌⊎◌, inl, inr, List, [], ◌∷◌, if◌then◌else◌, arith,
}
use sher_graphics.GpuAbstraction.Vulkan.State.{
  Reply, replied, stopped, BackendResult, Exchange, answered, dropped, unsent,
}
use sher_graphics.GpuAbstraction.Vulkan.Thread.{
  Thread, up, falling, down, Phase, waiting, finished, Inbox, silent, holds, closed, Actor, driver,
  worker, interleave, begin,
}

abbrev actor_eq : Actor → Actor → Bool
actor_eq driver driver = true
actor_eq worker worker = true
actor_eq _ _ = false

-- The turns of `wanted` are among those of the second list, in their order.
abbrev pub within : List Actor → List Actor → Bool
within [] turns = true
within (a ∷ wanted) [] = false
within (a ∷ wanted) (b ∷ turns) =
    if actor_eq a b then within wanted turns else within (a ∷ wanted) turns

abbrev pub is_finished : Phase → Bool
is_finished (finished x) = true
is_finished _ = false

abbrev is_silent : Inbox → Bool
is_silent silent = true
is_silent _ = false

Reply-cases :
    (r : Reply) → ((x : BackendResult (Unit {0})) × (r ≡ replied x)) ⊎ ((n : ℕ) × (r ≡ stopped n))
Reply-cases (replied x) = inl (x, refl)
Reply-cases (stopped n) = inr (n, refl)

module _ {S : Type 0} (run : S → Reply × S) where
  -- The driver has gone on.
  finished_stays :
      (turns : List Actor) (x : Exchange) (queued : Bool) (i : Inbox) (t : Thread S)
      → is_finished
          (interleave run turns
            (record { phase = finished x; queued = queued; inbox = i; thread = t })).phase
        ≡ true
  unfolding interleave
  finished_stays [] x queued i t = refl
  finished_stays (driver ∷ turns) x queued i t = finished_stays turns x queued i t
  finished_stays (worker ∷ turns) x false i (up b) = finished_stays turns x false i (up b)
  finished_stays (worker ∷ turns) x true i (up b) = elim (Reply-cases (run b).0) [
    | inl (y, e) ↦ ground (arith, finished_stays turns x false (holds y) (up (run b).1))
    | inr (n, e) ↦ ground (arith, finished_stays turns x false closed falling)
  ]
  finished_stays (worker ∷ turns) x queued i falling = finished_stays turns x _ _ down
  finished_stays (worker ∷ turns) x queued i down = finished_stays turns x queued i down

  -- The reply is there, or its sender is gone.
  heard :
      (turns : List Actor) (i : Inbox) (t : Thread S)
      → is_silent i ≡ false
      → is_finished
          (interleave run turns
            (record { phase = waiting; queued = false; inbox = i; thread = t })).phase
        ≡ within (driver ∷ []) turns
  unfolding interleave
  heard [] i t h = refl
  heard (driver ∷ turns) silent t h = cc
  heard (driver ∷ turns) (holds r) t h = finished_stays turns (answered r) false (holds r) t
  heard (driver ∷ turns) closed t h = finished_stays turns dropped false closed t
  heard (worker ∷ turns) i (up b) h = heard turns i (up b) h
  heard (worker ∷ turns) i falling h = heard turns i down h
  heard (worker ∷ turns) i down h = heard turns i down h

  -- The command is in the channel, and the thread has not yet ended the call that it asks for.
  sent :
      (turns : List Actor) (b : S)
      → is_finished
          (interleave run turns
            (record { phase = waiting; queued = true; inbox = silent; thread = up b })).phase
        ≡ within (worker ∷ driver ∷ []) turns
  unfolding interleave
  sent [] b = refl
  sent (driver ∷ turns) b = sent turns b
  sent (worker ∷ turns) b = elim (Reply-cases (run b).0) [
    | inl (x, e) ↦ ground (arith, heard turns (holds x) (up (run b).1) refl)
    | inr (n, e) ↦ ground (arith, heard turns closed falling refl)
  ]

  -- The command is in the channel of a thread that falls.
  lost :
      (turns : List Actor)
      → is_finished
          (interleave run turns
            (record { phase = waiting; queued = true; inbox = silent; thread = falling })).phase
        ≡ within (worker ∷ driver ∷ []) turns
  unfolding interleave
  lost [] = refl
  lost (driver ∷ turns) = lost turns
  lost (worker ∷ turns) = heard turns closed down refl

  -- The driver sends, the thread ends its backend's call or falls down, and the driver looks for the
  -- reply, in this order; a thread that is down is seen at once.
  abbrev pub needed : Thread S → List Actor
  needed (up b) = driver ∷ worker ∷ driver ∷ []
  needed falling = worker ∷ driver ∷ []
  needed down = driver ∷ []

  -- An exchange is over exactly if the turns that it needs have been had, in their order. With the
  -- thread up they are a turn of the driver, one of the thread, in which its backend's call has ended,
  -- and one of the driver again: a call that ends wakes the driver, whatever else happens between, and
  -- as long as it does not end, the driver waits.
  pub exchange_finishes_iff :
      (t : Thread S) (turns : List Actor)
      → is_finished (interleave run turns (begin t)).phase ≡ within (needed t) turns
  unfolding interleave
  exchange_finishes_iff (up b) [] = refl
  exchange_finishes_iff (up b) (driver ∷ turns) = sent turns b
  exchange_finishes_iff (up b) (worker ∷ turns) = exchange_finishes_iff (up b) turns
  exchange_finishes_iff falling [] = refl
  exchange_finishes_iff falling (driver ∷ turns) = lost turns
  exchange_finishes_iff falling (worker ∷ turns) = exchange_finishes_iff down turns
  exchange_finishes_iff down [] = refl
  exchange_finishes_iff down (driver ∷ turns) = finished_stays turns unsent false silent down
  exchange_finishes_iff down (worker ∷ turns) = exchange_finishes_iff down turns
