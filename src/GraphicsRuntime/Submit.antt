-- ===== src/GraphicsRuntime/Submit.antt =====
-- `submit` with its panic containment, `timeline_value` and `wait`.
pub mod Ready
pub mod Ends
pub mod Signal
use sher_graphics.Base.{ℕ, leb, not, String, ◌<>◌, decimal, if◌then◌else◌, List}
use sher_graphics.Map.{get, insert}
use sher_graphics.Result.{
  Result, ok, err, Error, Action, and_then, is_ok, ok_or, lift, reads, writes, fail_if, ◌>>=◌, ◌>>◌,
}
use sher_graphics.Kernel.{ObjectId, Platform, gpu_command_submit}
use sher_graphics.GraphicsApi.{
  WorkloadClass, class_eq, QueueHandle, CommandStream, require_capability,
}
use sher_graphics.GpuAbstraction.{
  GpuDriver, DriverOp, PanicPayload, str, string, opaque, Outcome, returned, panicked,
}
use sher_graphics.GraphicsRuntime.State.{GraphicsRuntime, device, log}
use sher_graphics.GraphicsRuntime.Stream.{validate_stream, translate_ops}

unfoldable pub panic_message : PanicPayload → String
panic_message (str s) = s
panic_message (string s) = s
panic_message opaque = "driver panicked with a non-string payload"

unfoldable pub panic_error : PanicPayload → Error
unfolding panic_message
panic_error p = Error.device ("driver panicked during submit: " <> panic_message p)

module _ {K : Platform} {D : GpuDriver} where
  -- The `match` on what `catch_unwind` returns, with the driver as the call left it.
  unfoldable pub contain :
      ObjectId
      → Outcome (Unit {0}) × D.Driver
      → GraphicsRuntime K D
      → Result (Unit {0}) × GraphicsRuntime K D
  unfolding panic_error
  contain gpu (returned r, d) rt = (r, record rt { driver = d })
  contain gpu (panicked p, d) rt =
      (err (panic_error p), record rt { driver = D.mark_faulted gpu (panic_message p) d })

  unfoldable pub submit_to_driver :
      ObjectId → WorkloadClass → List DriverOp → Action (GraphicsRuntime K D) (Unit {0})
  unfolding contain
  submit_to_driver gpu class ops rt = contain gpu (D.submit gpu class ops rt.driver) rt

  unfoldable pub timeline_value : ObjectId → GraphicsRuntime K D → Result ℕ
  timeline_value timeline rt = ok_or (get timeline rt.timelines) (Error.device "unknown timeline")

  unfoldable pub wait : ObjectId → ℕ → GraphicsRuntime K D → Result (Unit {0})
  unfolding timeline_value
  wait timeline value rt = and_then (timeline_value timeline rt) λ current.
      if leb value current
      then ok tt
      else err (
          Error.device (
            "timeline not yet signaled: at "
            <> decimal current
            <> ", waiting for "
            <> decimal value))

  unfoldable pub submit :
      QueueHandle → CommandStream → ObjectId → ℕ → Action (GraphicsRuntime K D) (Unit {0})
  unfolding device log require_capability timeline_value submit_to_driver
  submit queue stream timeline signal_value = do
    fail_if (not (class_eq stream.target_class queue.class))
        (Error.device "command stream workload class does not match queue")
    caps ←
        reads
          λ rt. ok_or (get stream.device rt.device_caps) (Error.device "unknown graphics device")
    let authorized = require_capability K caps gpu_command_submit
    writes (log stream.device "submit" (is_ok authorized))
    lift authorized
    dev ← reads (device stream.device)
    current ← reads (timeline_value timeline)
    fail_if (leb signal_value current)
        (Error.device "timeline signal value must be strictly increasing")
    reads λ rt. validate_stream stream rt.pipelines rt.resources
    submit_to_driver dev.gpu queue.class (translate_ops stream.ops)
    writes λ rt. record rt { timelines = insert timeline signal_value rt.timelines }
