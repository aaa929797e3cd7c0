-- ===== src/GraphicsRuntime/Recover/Restored.antt =====
-- After a recovery over the software driver: a new device on the same GPU works.
use sher_graphics.Base.{ℕ, ◌<◌, ◌≡◌, refl, true, some, arith}
use sher_graphics.Map.{get}
use sher_graphics.Result.{ok}
use sher_graphics.Kernel.{ObjectId, DeviceInfo, Platform, gpu_memory_alloc, gpu_command_submit}
use sher_graphics.GraphicsApi.{class_eq, GraphicsDevice, QueueHandle, CommandStream}
use sher_graphics.GpuAbstraction.Software.{software, reset_device}
use sher_graphics.GraphicsRuntime.State.{GraphicsRuntime, log}
use sher_graphics.GraphicsRuntime.Objects.{DeviceIds, find_device}
use sher_graphics.GraphicsRuntime.Stream.{validate_stream}
use sher_graphics.GraphicsRuntime.Recover.{recover_device, tear_down}
use sher_graphics.GraphicsRuntime.Recover.Cases.{denied, unknown, stuck, done, recover_device_cases}
use sher_graphics.GraphicsRuntime.Recover.Service.{listed, reset-Works, Serves, serves}

module _ {K : Platform} where
  recovered_driver :
      (id : ObjectId) (admin : K.CapabilitySet) (dev : GraphicsDevice)
      (rt : GraphicsRuntime K software)
      → (recover_device id admin rt).0 ≡ ok tt
      → get id rt.devices ≡ some dev
      → ((recover_device id admin rt).1.driver ≡ (reset_device dev.gpu rt.driver).1)
        × ((reset_device dev.gpu rt.driver).0 ≡ ok tt)
  unfolding tear_down log
  recovered_driver id admin dev rt h known = elim (recover_device_cases id admin rt) [
    | denied _ e ↦ absurd (ground arith)
    | unknown _ _ e ↦ absurd (ground arith)
    | stuck _ _ _ _ _ e ↦ absurd (ground arith)
    | done dev' _ known' reset e ↦
        let same : dev ≡ dev' = ground arith in rw (e, same) (refl, reset)
  ]

  -- After a recovery over the software driver has succeeded, the GPU serves again: if the driver lists
  -- it, a client with the two capabilities gets a new device on it and a timeline, and each stream for
  -- that device that is of the queue's class and valid is submitted, with any signal value above 0.
  pub recovery_restores :
      (id : ObjectId) (admin caps : K.CapabilitySet) (dev : GraphicsDevice) (info : DeviceInfo)
      (ids : DeviceIds) (timeline : ObjectId) (value : ℕ) (on : QueueHandle)
      (stream : CommandStream) (rt : GraphicsRuntime K software)
      → (recover_device id admin rt).0 ≡ ok tt
      → get id rt.devices ≡ some dev
      → find_device dev.gpu (listed rt.driver) ≡ some info
      → K.has_capability caps gpu_memory_alloc ≡ true
      → K.has_capability caps gpu_command_submit ≡ true
      → stream.device ≡ ids.device
      → class_eq stream.target_class on.class ≡ true
      → let after = (recover_device id admin rt).1 in
        validate_stream stream after.pipelines after.resources ≡ ok tt
        → 0 < value
        → Serves ids caps dev.gpu timeline value on stream (recover_device id admin rt).1
  recovery_restores id admin caps dev info ids timeline value on stream rt h known found mem sub
        here class sound later =
      let (same, reset) = recovered_driver id admin dev rt h known in
      let (works, lists) = reset-Works dev.gpu rt.driver reset in
      serves ids caps dev.gpu timeline value info on stream (recover_device id admin rt).1
        (rw same works) (rw (same, lists) found) mem sub here class sound later
