-- ===== src/GraphicsRuntime/History/Security.antt =====
-- Calls without the capability that they need.
use sher_graphics.Base.{◌≡◌, Bool, true, false, some, arith}
use sher_graphics.Map.{get}
use sher_graphics.Result.{is_ok}
use sher_graphics.Kernel.{Platform, gpu_admin, gpu_command_submit, gpu_memory_alloc}
use sher_graphics.GpuAbstraction.{GpuDriver}
use sher_graphics.GraphicsRuntime.State.{GraphicsRuntime}
use sher_graphics.GraphicsRuntime.Objects.{create_device}
use sher_graphics.GraphicsRuntime.Submit.{submit}
use sher_graphics.GraphicsRuntime.Recover.{driver_mut, recover_device}
use sher_graphics.GraphicsRuntime.History.{
  Call, creates_device, submits, recovers, administers, step,
}

module _ {K : Platform} {D : GpuDriver} where
  -- The call asks for a capability that its caller does not hold; `submit` asks the set that the
  -- stream's device was created with.
  abbrev pub IsUnauthorized : Call K D → GraphicsRuntime K D → Type 0
  IsUnauthorized (creates_device ids gpu caps) rt = K.has_capability caps gpu_memory_alloc ≡ false
  IsUnauthorized (recovers id caps) rt = K.has_capability caps gpu_admin ≡ false
  IsUnauthorized (administers caps use_driver) rt = K.has_capability caps gpu_admin ≡ false
  IsUnauthorized (submits queue stream timeline value) rt =
      (caps : K.CapabilitySet) × (get stream.device rt.device_caps ≡ some caps)
      × (K.has_capability caps gpu_command_submit ≡ false)
  IsUnauthorized _ rt = ⊥

  -- Whether the call returns `Ok`, for the calls that ask for a capability.
  abbrev pub succeeds : Call K D → GraphicsRuntime K D → Bool
  succeeds (creates_device ids gpu caps) rt = is_ok (create_device ids gpu caps rt).0
  succeeds (recovers id caps) rt = is_ok (recover_device id caps rt).0
  succeeds (administers caps use_driver) rt = is_ok (driver_mut caps use_driver rt).0
  succeeds (submits queue stream timeline value) rt =
      is_ok (submit queue stream timeline value rt).0
  succeeds _ rt = true

  -- A call without its capability fails, and reaches neither the driver nor a table: it writes at
  -- most the audit log.
  pub unauthorized_changes_nothing :
      (c : Call K D) (rt : GraphicsRuntime K D)
      → IsUnauthorized c rt
      → (succeeds c rt ≡ false) × (step c rt ≡ record rt { audit = (step c rt).audit })
  unfolding step create_device recover_device driver_mut submit
  unauthorized_changes_nothing (creates_device ids gpu caps) rt h = (ground arith, ground arith)
  unauthorized_changes_nothing (recovers id caps) rt h = (ground arith, ground arith)
  unauthorized_changes_nothing (administers caps use_driver) rt h = (ground arith, ground arith)
  unauthorized_changes_nothing (submits queue stream timeline value) rt (caps, held, lacks) =
      (ground arith, ground arith)
  unauthorized_changes_nothing c rt h = absurd h
