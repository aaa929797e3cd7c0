-- ===== src/GraphicsRuntime/Recover.antt =====
-- `driver_mut`, `device_fault` and `recover_device`.
pub mod Cases
pub mod Exact
pub mod Containment
pub mod Service
pub mod Restored
use sher_graphics.Base.{ℕ, ◌==◌, not, Option}
use sher_graphics.Map.{remove, retain}
use sher_graphics.Result.{Result, ok, Action, and_then, is_ok, lift, reads, writes, ◌>>=◌, ◌>>◌}
use sher_graphics.Kernel.{ObjectId, Platform, gpu_admin}
use sher_graphics.GraphicsApi.{Resource, ShaderModule, Pipeline, require_capability}
use sher_graphics.GpuAbstraction.{GpuDriver, GpuFault}
use sher_graphics.GraphicsRuntime.State.{GraphicsRuntime, device, log, on_driver}

module _ {K : Platform} {D : GpuDriver} where
  -- `driver_mut(caps)?` followed by a method of the driver.
  unfoldable pub driver_mut :
      {A : Type 0} → K.CapabilitySet → Action D.Driver A → Action (GraphicsRuntime K D) A
  unfolding require_capability
  driver_mut caps use_driver = do lift (require_capability K caps gpu_admin); on_driver use_driver

  unfoldable pub device_fault : ObjectId → GraphicsRuntime K D → Result (Option GpuFault)
  unfolding device
  device_fault id rt = and_then (device id rt) λ dev. D.fault_status dev.gpu rt.driver

  -- The removals at the end of `recover_device`.
  unfoldable pub tear_down : ObjectId → GraphicsRuntime K D → GraphicsRuntime K D
  tear_down id rt = record rt {
    devices = remove id rt.devices;
    device_caps = remove id rt.device_caps;
    resources = retain (λ (r : Resource). not (r.device == id)) rt.resources;
    shaders = retain (λ (s : ShaderModule). not (s.device == id)) rt.shaders;
    pipelines = retain (λ (p : Pipeline). not (p.device == id)) rt.pipelines;
  }

  unfoldable pub recover_device :
      ObjectId → K.CapabilitySet → Action (GraphicsRuntime K D) (Unit {0})
  unfolding device log require_capability tear_down
  recover_device id caps = do
    let authorized = require_capability K caps gpu_admin
    writes (log id "recover_device" (is_ok authorized))
    lift authorized
    dev ← reads (device id)
    on_driver (D.reset_device dev.gpu)
    writes (tear_down id)
