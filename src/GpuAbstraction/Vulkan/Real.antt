-- ===== src/GpuAbstraction/Vulkan/Real.antt =====
-- `RealVulkanBackend`, and the drivers that open it: `VulkanDriver::new` and `FallbackDriver::open`.
pub mod Opening
pub mod Submission
pub mod Instances
pub mod Lifetime
use sher_graphics.Base.{ℕ, ◌<>◌, decimal, String, List, [], ◌∷◌, map}
use sher_graphics.Result.{Result, ok, err, Error}
use sher_graphics.Kernel.{ObjectId}
use sher_graphics.GpuAbstraction.{DriverOp}
use sher_graphics.VulkanBackend.{
  Ash, VulkanError, loader_unavailable, device_lost, no_suitable_device, vulkan, invalid_dimensions,
}
use sher_graphics.VulkanBackend.Render.{
  Rendered, Rendered.done as made, Rendered.failed as broken, render_clear_to_offscreen,
}
use sher_graphics.VulkanBackend.Context.{
  Host, VulkanContext, AdapterInfo, probe, drop, enumerate_adapters,
}
use sher_graphics.GpuAbstraction.Vulkan.State.{
  BackendAdapterInfo, BackendError, unavailable, execution, BackendResult, done, failed,
  backend_error_to_sher, Reply, replied, VulkanBackend, VulkanDriver,
}
use sher_graphics.GpuAbstraction.Vulkan.Open.{Spawn, with_backend}
use sher_graphics.GpuAbstraction.Fallback.{FallbackDriver, from_vulkan_result}

module _ {A : Ash} where
  unfoldable pub map_vulkan_error : VulkanError A → BackendError
  map_vulkan_error (loader_unavailable message) = unavailable message
  map_vulkan_error (device_lost message) = BackendError.device_lost message
  map_vulkan_error (vulkan r) = execution (A.print r)
  map_vulkan_error (no_suitable_device message) = unavailable message
  map_vulkan_error (invalid_dimensions width height) =
      execution ("invalid image dimensions " <> decimal width <> "x" <> decimal height)

  -- `.map(f).map_err(map_vulkan_error)`
  unfoldable pub mapped : {S T : Type 0} → (S → T) → Rendered A S → BackendResult T
  unfolding map_vulkan_error
  mapped f (made s) = done (f s)
  mapped f (broken e) = failed (map_vulkan_error e)

abbrev pub adapter_of : {T : Type 0} → AdapterInfo T → BackendAdapterInfo
adapter_of a = record {
  name = a.name;
  vendor_id = a.vendor_id;
  device_id = a.device_id;
  api_version = a.api_version;
}

-- The backend, and the machine as it finds it.
pub record RealVulkanBackend {A : Ash} (H : Host A) : Type 0 where
  pub context : VulkanContext H
  pub host : H.World

module _ {A : Ash} (H : Host A) where
  -- `RealVulkanBackend::open`
  unfoldable pub open_backend : H.World → BackendResult (RealVulkanBackend H)
  unfolding mapped probe
  open_backend w = let (r, w') = probe H w in mapped (λ c. record { context = c; host = w' }) r

  unfoldable pub enumerate :
      RealVulkanBackend H → BackendResult (List BackendAdapterInfo) × RealVulkanBackend H
  unfolding mapped enumerate_adapters
  enumerate b =
      let (r, w) = enumerate_adapters H b.context b.host in
      (mapped (map adapter_of) r, record b { host = w })

  -- The operations are not looked at: each submission is the render of one black pixel.
  unfoldable pub execute : List DriverOp → RealVulkanBackend H → Reply × RealVulkanBackend H
  unfolding mapped render_clear_to_offscreen
  execute ops b =
      let (vk, w) = H.render b.context.instance b.host in
      (replied (mapped (λ _. tt) (render_clear_to_offscreen vk 1 1 []).0), record b { host = w })

  -- A new context takes the place of the old one, which is dropped then.
  unfoldable pub reset : RealVulkanBackend H → Reply × RealVulkanBackend H
  unfolding mapped probe drop
  reset b =
      let (r, w) = probe H b.host in
      (
        replied (mapped (λ _. tt) r),
        elim r [
          | made c ↦ record { context = c; host = drop H b.context w }
          | broken e ↦ record b { host = w }
        ],
      )

  abbrev pub real : VulkanBackend
  real = record {
    Backend = RealVulkanBackend H;
    enumerate_adapters = enumerate;
    execute = execute;
    reset = reset;
  }

  -- `VulkanDriver::new`
  unfoldable pub new : (ℕ → ObjectId) → Spawn → ℕ → H.World → Result (VulkanDriver real)
  unfolding open_backend backend_error_to_sher with_backend
  new ids spawn vram_bytes w = elim (open_backend w) [
    | failed e ↦ err (backend_error_to_sher e)
    | done b ↦ with_backend real ids spawn b vram_bytes
  ]

  -- `FallbackDriver::open`
  unfoldable pub open_driver :
      (Error → String) → (ℕ → ObjectId) → ObjectId → Spawn → ℕ → H.World → FallbackDriver real
  unfolding new from_vulkan_result
  open_driver print ids id spawn vram_bytes w =
      from_vulkan_result print id (new ids spawn vram_bytes w) vram_bytes
