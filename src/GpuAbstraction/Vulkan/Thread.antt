-- ===== src/GpuAbstraction/Vulkan/Thread.antt =====
-- The render thread of `VulkanDriver` and the channels between it and the driver, turn by turn.
pub mod Stages
pub mod Exchanges
pub mod Ending
pub mod Shutdown
pub mod Dropping
use sher_graphics.Base.{Bool, true, false, Option, none, some, List, [], ◌∷◌, if◌then◌else◌}
use sher_graphics.GpuAbstraction.{DriverOp}
use sher_graphics.GpuAbstraction.Vulkan.State.{
  BackendResult, Reply, replied, stopped, VulkanBackend, Exchange, unsent, dropped, answered,
}

-- The thread waits for a command with its backend, falls down with its end of the channel not yet
-- closed, or is down with that end closed.
pub data Thread (S : Type 0) : Type 0 where
  up : S → Thread S
  falling down : Thread S

-- What the receiver of the reply finds: nothing yet, a reply, or no sender any more.
pub data Inbox : Type 0 where
  silent closed : Inbox
  holds : BackendResult (Unit {0}) → Inbox

-- The driver has a command to send, waits for its reply, or goes on with what it has seen.
pub data Phase : Type 0 where
  ready waiting : Phase
  finished : Exchange → Phase

-- `queued` tells whether the command is in the channel: the driver is borrowed until the reply is
-- there, so it never sends a second one before.
pub record System (S : Type 0) : Type 0 where
  pub phase : Phase
  pub queued : Bool
  pub inbox : Inbox
  pub thread : Thread S

pub data Actor : Type 0 where
  driver worker : Actor

module _ {S : Type 0} (run : S → Reply × S) where
  -- `self.request(..)?`, and then `reply_rx.recv()`, which blocks while there is no reply.
  unfoldable pub driver_turn : System S → System S
  driver_turn s = elim s.phase [
    | ready ↦ elim s.thread [
      | down ↦ record s { phase = finished unsent }
      | up b ↦ record s { phase = waiting; queued = true }
      | falling ↦ record s { phase = waiting; queued = true }
    ]
    | waiting ↦ elim s.inbox [
      | silent ↦ s
      | holds r ↦ record s { phase = finished (answered r) }
      | closed ↦ record s { phase = finished dropped }
    ]
    | finished x ↦ s
  ]

  -- One round of `run_worker`, which blocks while no command is there and until the backend's call
  -- ends: a turn is had when it has, and a call that hangs, as a wait for a fence may, is a thread that
  -- gets no further turn. A backend that panics drops the reply's sender first, and then the channel
  -- with the command that it may hold.
  unfoldable pub worker_turn : System S → System S
  worker_turn s = elim s.thread [
    | up b ↦
        let (r, b') = run b in
        if s.queued
        then elim r [
          | replied x ↦ record s { queued = false; inbox = holds x; thread = up b' }
          | stopped n ↦ record s { queued = false; inbox = closed; thread = falling }
        ]
        else s
    | falling ↦ record s {
      queued = false;
      inbox = if s.queued then closed else s.inbox;
      thread = down;
    }
    | down ↦ s
  ]

  unfoldable pub turn : Actor → System S → System S
  unfolding driver_turn worker_turn
  turn driver s = driver_turn s
  turn worker s = worker_turn s

  -- The two take turns in any order.
  unfoldable pub interleave : List Actor → System S → System S
  unfolding turn
  interleave [] s = s
  interleave (a ∷ turns) s = interleave turns (turn a s)

-- A command to send, and the thread as it was left.
abbrev pub begin : {S : Type 0} → Thread S → System S
begin t = record { phase = ready; queued = false; inbox = silent; thread = t }

-- `Command`, but for the reply channels.
pub data Command : Type 0 where
  submit : List DriverOp → Command
  reset shutdown : Command

module _ (B : VulkanBackend) where
  -- `run_worker` over the commands of its channel: the replies that it sends, and how it is left.
  unfoldable pub run_worker :
      List Command → B.Backend → List (BackendResult (Unit {0})) × Thread B.Backend
  run_worker [] b = ([], up b)
  run_worker (shutdown ∷ commands) b = ([], down)
  run_worker (submit ops ∷ commands) b =
      let (r, b') = B.execute ops b in
      elim r [
        | replied x ↦ let (replies, t) = run_worker commands b' in (x ∷ replies, t)
        | stopped n ↦ ([], down)
      ]
  run_worker (reset ∷ commands) b =
      let (r, b') = B.reset b in
      elim r [
        | replied x ↦ let (replies, t) = run_worker commands b' in (x ∷ replies, t)
        | stopped n ↦ ([], down)
      ]
