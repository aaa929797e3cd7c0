-- ===== src/GpuAbstraction/Vulkan/Thread/Stages.antt =====
-- The states through which one command and its reply can go.
use sher_graphics.Base.{◌≡◌, refl, ◌⊎◌, inl, inr, true, false, List, [], ◌∷◌, All, arith}
use sher_graphics.GpuAbstraction.Vulkan.State.{Reply, replied, stopped, unsent, dropped, answered}
use sher_graphics.GpuAbstraction.Vulkan.Thread.{
  Thread, up, falling, down, silent, holds, closed, Phase, waiting, finished, System, Actor, driver,
  worker, turn, interleave, begin,
}

-- The state is one of the list's.
abbrev pub Among : {A : Type 0} → List A → A → Type 0
Among [] s = ⊥
Among (x ∷ xs) s = (s ≡ x) ⊎ Among xs s

pub Among-All : {A : Type 0} (P : A → Type 0) (xs : List A) (s : A) → Among xs s → All P xs → P s
Among-All P [] s h a = absurd h
Among-All P (x ∷ xs) s (inl e) a = rw e a.0
Among-All P (x ∷ xs) s (inr h) a = Among-All P xs s h a.1

module _ {S : Type 0} (run : S → Reply × S) where
  -- The list is closed under turns.
  abbrev IsClosed : List (System S) → Type 0
  IsClosed xs =
      All (λ s. Among xs (turn run driver s)) xs × All (λ s. Among xs (turn run worker s)) xs

  interleave-Among :
      (xs : List (System S)) (turns : List Actor) (s : System S)
      → IsClosed xs
      → Among xs s
      → Among xs (interleave run turns s)
  unfolding interleave
  interleave-Among xs [] s c h = h
  interleave-Among xs (driver ∷ turns) s c h =
      interleave-Among xs turns _ c (Among-All _ xs s h c.0)
  interleave-Among xs (worker ∷ turns) s c h =
      interleave-Among xs turns _ c (Among-All _ xs s h c.1)

  abbrev pub sent : Thread S → System S
  sent t = record { phase = waiting; queued = true; inbox = silent; thread = t }

  abbrev pub hung_up : Phase → Thread S → System S
  hung_up p t = record { phase = p; queued = false; inbox = closed; thread = t }

  abbrev pub refused : System S
  refused = record { phase = finished unsent; queued = false; inbox = silent; thread = down }

  -- The states of an exchange with a thread that is up, once the backend has answered `r`.
  abbrev pub up_stages : S → Reply → S → List (System S)
  up_stages b (replied x) b' =
      begin (up b)
      ∷ sent (up b)
      ∷ record { phase = waiting; queued = false; inbox = holds x; thread = up b' }
      ∷ record { phase = finished (answered x); queued = false; inbox = holds x; thread = up b' }
      ∷ []
  up_stages b (stopped n) b' =
      begin (up b)
      ∷ sent (up b)
      ∷ hung_up waiting falling
      ∷ hung_up waiting down
      ∷ hung_up (finished dropped) falling
      ∷ hung_up (finished dropped) down
      ∷ []

  -- The states of an exchange with any thread.
  abbrev pub stages : Thread S → List (System S)
  stages (up b) = up_stages b (run b).0 (run b).1
  stages falling =
      begin falling
      ∷ begin down
      ∷ sent falling
      ∷ hung_up waiting down
      ∷ hung_up (finished dropped) down
      ∷ refused
      ∷ []
  stages down = begin down ∷ refused ∷ []

  up_stages-IsClosed : (b : S) (r : Reply) (b' : S) → run b ≡ (r, b') → IsClosed (up_stages b r b')
  unfolding turn
  up_stages-IsClosed b (replied x) b' e = (
    (
      inr (inl refl),
      (inr (inl refl), (inr (inr (inr (inl refl))), (inr (inr (inr (inl refl))), tt))),
    ),
    (
      inl (ground arith),
      (
        inr (inr (inl (ground arith))),
        (inr (inr (inl (ground arith))), (inr (inr (inr (inl (ground arith)))), tt)),
      ),
    ),
  )
  up_stages-IsClosed b (stopped n) b' e = (
    (
      inr (inl refl),
      (
        inr (inl refl),
        (
          inr (inr (inr (inr (inl refl)))),
          (
            inr (inr (inr (inr (inr (inl refl))))),
            (inr (inr (inr (inr (inl refl)))), (inr (inr (inr (inr (inr (inl refl))))), tt)),
          ),
        ),
      ),
    ),
    (
      inl (ground arith),
      (
        inr (inr (inl (ground arith))),
        (
          inr (inr (inr (inl refl))),
          (
            inr (inr (inr (inl refl))),
            (inr (inr (inr (inr (inr (inl refl))))), (inr (inr (inr (inr (inr (inl refl))))), tt)),
          ),
        ),
      ),
    ),
  )

  stages-IsClosed : (t : Thread S) → IsClosed (stages t)
  unfolding turn
  stages-IsClosed (up b) = up_stages-IsClosed b (run b).0 (run b).1 refl
  stages-IsClosed falling = (
    (
      inr (inr (inl refl)),
      (
        inr (inr (inr (inr (inr (inl refl))))),
        (
          inr (inr (inl refl)),
          (
            inr (inr (inr (inr (inl refl)))),
            (inr (inr (inr (inr (inl refl)))), (inr (inr (inr (inr (inr (inl refl))))), tt)),
          ),
        ),
      ),
    ),
    (
      inr (inl refl),
      (
        inr (inl refl),
        (
          inr (inr (inr (inl refl))),
          (
            inr (inr (inr (inl refl))),
            (inr (inr (inr (inr (inl refl)))), (inr (inr (inr (inr (inr (inl refl))))), tt)),
          ),
        ),
      ),
    ),
  )
  stages-IsClosed down = ((inr (inl refl), (inr (inl refl), tt)), (inl refl, (inr (inl refl), tt)))

  stages-begin : (t : Thread S) → Among (stages t) (begin t)
  stages-begin (up b) = go (run b).0 (run b).1
    where
      go : (r : Reply) (b' : S) → Among (up_stages b r b') (begin (up b))
      go (replied x) b' = inl refl
      go (stopped n) b' = inl refl
  stages-begin falling = inl refl
  stages-begin down = inl refl

  pub reached :
      (t : Thread S) (turns : List Actor) → Among (stages t) (interleave run turns (begin t))
  reached t turns = interleave-Among (stages t) turns (begin t) (stages-IsClosed t) (stages-begin t)
