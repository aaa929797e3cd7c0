-- ===== src/GpuAbstraction/Vulkan/Real/Submission.antt =====
-- Submissions and resets over the real backend.
use sher_graphics.Base.{◌<>◌, ◌≡◌, inl, inr, ◌⊎◌, Option, none, some, List, [], ℕ}
use sher_graphics.Map.{get, map_laws}
use sher_graphics.Result.{ok, err}
use sher_graphics.Kernel.{ObjectId, DeviceInfo}
use sher_graphics.GraphicsApi.{WorkloadClass}
use sher_graphics.GpuAbstraction.{GpuFault, DriverOp, Outcome, returned}
use sher_graphics.VulkanBackend.{
  Ash, VulkanError, loader_unavailable, device_lost, no_suitable_device, vulkan, invalid_dimensions,
}
use sher_graphics.VulkanBackend.Render.{
  Rendered, Rendered.done as made, Rendered.failed as broken, render_clear_to_offscreen,
}
use sher_graphics.VulkanBackend.Context.{Host, VulkanContext, probe, drop}
use sher_graphics.GpuAbstraction.Vulkan.State.{
  backend_error_to_sher, alive, VulkanDriver, known_device,
}
use sher_graphics.GpuAbstraction.Vulkan.Operations.{submit, fault_status, reset_device}
use sher_graphics.GpuAbstraction.Vulkan.Real.{
  real, RealVulkanBackend, map_vulkan_error, mapped, execute, reset,
}
use sher_graphics.GpuAbstraction.Vulkan.Real.Opening.{Rendered-cases}

-- What a submission leaves in the fault channel.
abbrev pub lost_at : {A : Ash} {T : Type 0} → ObjectId → Rendered A T → Option GpuFault
lost_at g (broken (device_lost m)) =
    some (record { device = g; address = 0; description = "device lost: " <> m })
lost_at g _ = none

abbrev pub submitted : {A : Ash} {T : Type 0} → Rendered A T → Outcome (Unit {0})
submitted (made x) = returned (ok tt)
submitted (broken e) = returned (err (backend_error_to_sher (map_vulkan_error e)))

module _ {A : Ash} (H : Host A) where
  -- The render that the next submission makes.
  abbrev pub next_render : RealVulkanBackend H → Rendered A (List ℕ)
  next_render b = (render_clear_to_offscreen (H.render b.context.instance b.host).0 1 1 []).0

  -- The next backend, whose machine has made one more render.
  abbrev pub after_render : RealVulkanBackend H → RealVulkanBackend H
  after_render b = record b { host = (H.render b.context.instance b.host).1 }

  -- Over the real backend, a submission to a known device without a fault, with the render thread
  -- alive, is one render of a pixel: it succeeds exactly if the render does, and its error is that of
  -- the render; if that is a lost device, the device's fault channel holds the loss, and after every
  -- other end of the render it holds nothing; the thread goes on with the machine after that render.
  pub submit_real :
      (g : ObjectId) (class : WorkloadClass) (ops : List DriverOp) (info : DeviceInfo)
      (b : RealVulkanBackend H) (d : VulkanDriver (real H))
      → known_device g d ≡ ok info
      → get g d.faults ≡ none
      → d.worker ≡ alive b
      → let (r, d') = submit g class ops d in
        (r ≡ submitted (next_render b))
        × (fault_status g d' ≡ ok (lost_at g (next_render b)))
        × (d'.worker ≡ alive (after_render b))
  unfolding submit fault_status execute mapped
  submit_real g class ops info b d known healthy up = elim (Rendered-cases (next_render b)) [
    | inl (device_lost m, q) ↦ grind map_laws
    | inl (vulkan r, q) ↦ grind map_laws
    | inl (loader_unavailable m, q) ↦ grind map_laws
    | inl (no_suitable_device m, q) ↦ grind map_laws
    | inl (invalid_dimensions m n, q) ↦ grind map_laws
    | inr (px, q) ↦ grind map_laws
  ]

  -- Over the real backend, resetting a known device ends its fault exactly if a new context can be
  -- made, and the render thread then goes on with it on the machine where the old one is dropped;
  -- otherwise the reset fails with the reason that there is none, the fault stays, and the render
  -- thread keeps the old context.
  pub reset_real :
      (g : ObjectId) (info : DeviceInfo) (f : GpuFault) (b : RealVulkanBackend H)
      (d : VulkanDriver (real H))
      → known_device g d ≡ ok info
      → get g d.faults ≡ some f
      → d.worker ≡ alive b
      → let (r, d') = reset_device g d in
        ((c : VulkanContext H) × ((probe H b.host).0 ≡ made c)
          × (r ≡ ok tt)
          × (fault_status g d' ≡ ok none)
          × (d'.worker
              ≡ alive (record { context = c; host = drop H b.context (probe H b.host).1 })))
        ⊎ ((e : VulkanError A) × ((probe H b.host).0 ≡ broken e)
            × (r ≡ err (backend_error_to_sher (map_vulkan_error e)))
            × (fault_status g d' ≡ ok (some f))
            × (d'.worker ≡ alive (record { context = b.context; host = (probe H b.host).1 })))
  unfolding reset_device fault_status reset mapped
  reset_real g info f b d known faulted up = elim (Rendered-cases (probe H b.host).0) [
    | inl (e, q) ↦ inr (e, q, grind map_laws, grind map_laws, grind map_laws)
    | inr (c, q) ↦ inl (c, q, grind map_laws, grind map_laws, grind map_laws)
  ]
