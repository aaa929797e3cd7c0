-- ===== src/GraphicsRuntime/Isolation/Spared.antt =====
-- Histories that spare a device.
use sher_graphics.Base.{◌≡◌, refl, some, List, [], ◌∷◌, arith}
use sher_graphics.Map.{get}
use sher_graphics.Kernel.{ObjectId, Platform}
use sher_graphics.GraphicsApi.{GraphicsDevice}
use sher_graphics.GpuAbstraction.Software.{software}
use sher_graphics.GraphicsRuntime.State.{GraphicsRuntime, device}
use sher_graphics.GraphicsRuntime.Recover.{device_fault}
use sher_graphics.GraphicsRuntime.History.{Call, step, run}
use sher_graphics.GraphicsRuntime.Isolation.{
  AllSpare, IsUntouched, change-IsUntouched, IsUntouched-trans,
}
use sher_graphics.GraphicsRuntime.Isolation.Steps.{step-IsUntouched}

module _ {K : Platform} (x : ObjectId) where
  run-IsUntouched :
      (g : ObjectId) (cs : List (Call K software)) (rt : GraphicsRuntime K software)
      → AllSpare x g cs rt
      → IsUntouched x g rt (run cs rt)
  unfolding run
  run-IsUntouched g [] rt h = change-IsUntouched x g rt rt rt.driver rt.audit refl (refl, refl)
  run-IsUntouched g (c ∷ cs) rt (h, hs) =
      IsUntouched-trans x g rt (step c rt) (run cs (step c rt)) (step-IsUntouched x g c rt h)
        (run-IsUntouched g cs (step c rt) hs)

  -- Over the software driver, a history of calls that are about neither a device nor its GPU leaves
  -- the device as it was: its entry, its capabilities, its fault and the free VRAM of its GPU are
  -- the same, and every resource, shader and pipeline of it is still there. The calls may create
  -- devices on any GPU, submit to any device, and recover devices on other GPUs; they create under new
  -- identifiers and do not reach into the driver by `driver_mut`.
  pub run_spares :
      (cs : List (Call K software)) (rt : GraphicsRuntime K software) (dev : GraphicsDevice)
      → get x rt.devices ≡ some dev
      → AllSpare x dev.gpu cs rt
      → IsUntouched x dev.gpu rt (run cs rt) × (device_fault x (run cs rt) ≡ device_fault x rt)
  unfolding device_fault device
  run_spares cs rt dev known h =
      let u = run-IsUntouched dev.gpu cs rt h in
      let same = u.device in let fault = u.gpu.0 in (u, ground arith)
