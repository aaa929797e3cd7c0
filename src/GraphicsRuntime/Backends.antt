-- ===== src/GraphicsRuntime/Backends.antt =====
-- `GraphicsRuntime::with_vulkan` and `GraphicsRuntime::with_vulkan_or_software`.
use sher_graphics.Base.{ℕ, String}
use sher_graphics.Result.{Result, ok, Error, Action, and_then}
use sher_graphics.Kernel.{ObjectId, Platform}
use sher_graphics.GpuAbstraction.Software.{SoftwareGpuDriver, new as new_software}
use sher_graphics.GpuAbstraction.Vulkan.State.{VulkanBackend, VulkanDriver}
use sher_graphics.GpuAbstraction.Vulkan.Operations.{vulkan}
use sher_graphics.GpuAbstraction.Vulkan.Open.{Spawn}
use sher_graphics.GpuAbstraction.Vulkan.Real.{real, new as new_vulkan, open_driver}
use sher_graphics.GpuAbstraction.Fallback.{FallbackDriver, delegate, fallback}
use sher_graphics.VulkanBackend.{Ash}
use sher_graphics.VulkanBackend.Context.{Host}
use sher_graphics.GraphicsRuntime.State.{GraphicsRuntime, new}

module _ (K : Platform) {A : Ash} (H : Host A) where
  unfoldable pub with_vulkan :
      (ℕ → ObjectId)
      → Spawn
      → (presentation_vram_bytes vulkan_vram_bytes : ℕ) → H.World
      → Result (GraphicsRuntime K (vulkan (real H)))
  unfolding new new_vulkan
  with_vulkan ids spawn presentation_vram_bytes vulkan_vram_bytes w =
      and_then (new_vulkan H ids spawn vulkan_vram_bytes w)
        λ driver. ok (new K (vulkan (real H)) driver presentation_vram_bytes)

  unfoldable pub with_vulkan_or_software :
      (Error → String)
      → (ℕ → ObjectId)
      → ObjectId
      → Spawn
      → (presentation_vram_bytes vram_bytes : ℕ) → H.World
      → GraphicsRuntime K (fallback (real H))
  unfolding new open_driver
  with_vulkan_or_software print ids id spawn presentation_vram_bytes vram_bytes w =
      new K (fallback (real H)) (open_driver H print ids id spawn vram_bytes w)
        presentation_vram_bytes

module _ (B : VulkanBackend) where
  -- A use of the driver inside.
  abbrev pub reach_vulkan :
      Action (VulkanDriver B) (Unit {0}) → Action (FallbackDriver B) (Unit {0})
  reach_vulkan m = delegate m (λ d. (ok tt, d))

  abbrev pub reach_software :
      Action SoftwareGpuDriver (Unit {0}) → Action (FallbackDriver B) (Unit {0})
  reach_software m = delegate (λ d. (ok tt, d)) m
