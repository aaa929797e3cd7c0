-- ===== src/GpuAbstraction/Vulkan/Thread/Dropping.antt =====
-- The end of a `VulkanDriver`: its `Drop` sends `Shutdown` and joins the render thread.
use sher_graphics.Base.{◌≡◌, refl, Bool, true, false, List, [], ◌∷◌, ◌++◌, if◌then◌else◌}
use sher_graphics.GpuAbstraction.Vulkan.Thread.{Thread, up, falling, down, Actor, driver, worker}

-- How far `drop` has come: to the send, to the join, or through.
pub data Progress : Type 0 where
  to_send to_join joined : Progress

-- `queued` tells whether `Shutdown` is in the channel. No other command is: the driver waits for the
-- end of each exchange.
pub record Closing (S : Type 0) : Type 0 where
  pub progress : Progress
  pub queued : Bool
  pub thread : Thread S

module _ {S : Type 0} where
  -- `let _ = self.tx.send(..)`, which may find the channel closed, and `worker.join()`, which blocks
  -- while the thread is there.
  unfoldable pub drop_turn : Closing S → Closing S
  drop_turn s = elim s.progress [
    | to_send ↦ elim s.thread [
      | down ↦ record s { progress = to_join }
      | up b ↦ record s { progress = to_join; queued = true }
      | falling ↦ record s { progress = to_join; queued = true }
    ]
    | to_join ↦ elim s.thread [ down ↦ record s { progress = joined } | up b ↦ s | falling ↦ s ]
    | joined ↦ s
  ]

  -- `run_worker` leaves its loop at `Shutdown`; then its end of the channel goes, and the thread.
  unfoldable pub stop_turn : Closing S → Closing S
  stop_turn s = elim s.thread [
    | up b ↦ if s.queued then record s { queued = false; thread = falling } else s
    | falling ↦ record s { queued = false; thread = down }
    | down ↦ s
  ]

  unfoldable pub close : List Actor → Closing S → Closing S
  unfolding drop_turn stop_turn
  close [] s = s
  close (driver ∷ turns) s = close turns (drop_turn s)
  close (worker ∷ turns) s = close turns (stop_turn s)

-- A driver that waits for a thread which is up has left it the shutdown, and a join that is through
-- has found the thread down.
abbrev Woken : {S : Type 0} → Progress → Bool → Thread S → Type 0
Woken to_join q (up b) = q ≡ true
Woken joined q (up b) = ⊥
Woken joined q falling = ⊥
Woken p q t = Unit

abbrev IsWoken : {S : Type 0} → Closing S → Type 0
IsWoken s = Woken s.progress s.queued s.thread

-- The last turns of a drop.
abbrev pub four_turns : List Actor
four_turns = driver ∷ worker ∷ worker ∷ driver ∷ []

module _ {S : Type 0} where
  abbrev state : Progress → Bool → Thread S → Closing S
  state p q t = record { progress = p; queued = q; thread = t }

  drop_turn-Woken :
      (p : Progress) (q : Bool) (t : Thread S) → Woken p q t → IsWoken (drop_turn (state p q t))
  unfolding drop_turn
  drop_turn-Woken to_send q (up b) h = refl
  drop_turn-Woken to_send q falling h = tt
  drop_turn-Woken to_send q down h = tt
  drop_turn-Woken to_join q (up b) h = h
  drop_turn-Woken to_join q falling h = tt
  drop_turn-Woken to_join q down h = tt
  drop_turn-Woken joined q (up b) h = h
  drop_turn-Woken joined q falling h = h
  drop_turn-Woken joined q down h = tt

  stop_turn-Woken :
      (p : Progress) (q : Bool) (t : Thread S) → Woken p q t → IsWoken (stop_turn (state p q t))
  unfolding stop_turn
  stop_turn-Woken to_send true (up b) h = tt
  stop_turn-Woken to_send false (up b) h = tt
  stop_turn-Woken to_send q falling h = tt
  stop_turn-Woken to_send q down h = tt
  stop_turn-Woken to_join true (up b) h = tt
  stop_turn-Woken to_join false (up b) h = h
  stop_turn-Woken to_join q falling h = tt
  stop_turn-Woken to_join q down h = tt
  stop_turn-Woken joined q (up b) h = absurd h
  stop_turn-Woken joined q falling h = absurd h
  stop_turn-Woken joined q down h = tt

  close-IsWoken : (turns : List Actor) (s : Closing S) → IsWoken s → IsWoken (close turns s)
  unfolding close
  close-IsWoken [] s h = h
  close-IsWoken (driver ∷ turns) s h =
      close-IsWoken turns (drop_turn s) (drop_turn-Woken s.progress s.queued s.thread h)
  close-IsWoken (worker ∷ turns) s h =
      close-IsWoken turns (stop_turn s) (stop_turn-Woken s.progress s.queued s.thread h)

  abbrev Ends : Closing S → Type 0
  Ends s = (s.progress ≡ joined) × (s.thread ≡ down)

  Woken-Ends :
      (p : Progress) (q : Bool) (t : Thread S) → Woken p q t → Ends (close four_turns (state p q t))
  unfolding close
  Woken-Ends to_send q (up b) h = (refl, refl)
  Woken-Ends to_send q falling h = (refl, refl)
  Woken-Ends to_send q down h = (refl, refl)
  Woken-Ends to_join true (up b) h = (refl, refl)
  Woken-Ends to_join false (up b) h = cc
  Woken-Ends to_join q falling h = (refl, refl)
  Woken-Ends to_join q down h = (refl, refl)
  Woken-Ends joined q (up b) h = absurd h
  Woken-Ends joined q falling h = absurd h
  Woken-Ends joined q down h = (refl, refl)

  close-append :
      (turns more : List Actor) (s : Closing S)
      → close (turns ++ more) s ≡ close more (close turns s)
  unfolding close
  close-append [] more s = refl
  close-append (driver ∷ turns) more s = close-append turns more (drop_turn s)
  close-append (worker ∷ turns) more s = close-append turns more (stop_turn s)

  -- Dropping the driver never hangs: however it and the render thread take turns, four more of the
  -- driver, twice the thread, and the driver finish the join with the thread down, whether the thread
  -- was up, falling or down when the drop began.
  pub drop_finishes :
      (t : Thread S) (turns : List Actor)
      → let s =
          close (turns ++ four_turns) (record { progress = to_send; queued = false; thread = t }) in
        (s.progress ≡ joined) × (s.thread ≡ down)
  drop_finishes t turns =
      let s = close turns (state to_send false t) in
      rw (close-append turns four_turns (state to_send false t))
        (Woken-Ends s.progress s.queued s.thread (close-IsWoken turns (state to_send false t) tt))
