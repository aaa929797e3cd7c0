-- ===== src/GpuAbstraction/Vulkan/Real/Lifetime.antt =====
-- The instances of a Vulkan driver from `VulkanDriver::new` to the end of its render thread.
use mathlib.Core.List.{Perm}
use mathlib.Core.List.Perm
use sher_graphics.Base.{ℕ, ap, subst, ◌∙◌, ◌≡◌, refl, inl, inr, List, [], ◌∷◌, arith}
use sher_graphics.Result.{ok}
use sher_graphics.Kernel.{ObjectId}
use sher_graphics.VulkanBackend.{Ash}
use sher_graphics.VulkanBackend.Context.{Host, probe, drop, enumerate_adapters}
use sher_graphics.GpuAbstraction.Vulkan.State.{VulkanDriver, alive}
use sher_graphics.GpuAbstraction.Vulkan.Open.{running, start, new_driver}
use sher_graphics.GpuAbstraction.Vulkan.Thread.Shutdown.{Request, exchanges}
use sher_graphics.GpuAbstraction.Vulkan.Real.{RealVulkanBackend, real, enumerate, new}
use sher_graphics.GpuAbstraction.Vulkan.Real.Opening.{
  Rendered-cases, new_probe_fails, new_enumeration_fails, new_empty, new_opens,
}
use sher_graphics.GpuAbstraction.Vulkan.Real.Instances.{
  IsCounting, Counted, probe-Counted, Holds, enumerate-Holds, exchanges-Holds,
}

module _ {A : Ash} {H : Host A} {live : H.World → List H.Instance}
    (counts : IsCounting H live) where
  module _ (ids : ℕ → ObjectId) (vram_bytes : ℕ) (w : H.World) (d : VulkanDriver (real H))
      (opens : new H ids running vram_bytes w ≡ ok d) where
    -- The backend that the new driver's thread starts with.
    new-Holds : (b : RealVulkanBackend H) × (d.worker ≡ alive b) × Holds H live (live w) b
    unfolding start new_driver
    new-Holds = elim (Rendered-cases (probe H w).0) [
      | inl (e, q) ↦
          let fails = new_probe_fails H ids running vram_bytes w e q in absurd (ground arith)
      | inr (c, q) ↦ elim (Rendered-cases (enumerate_adapters H c (probe H w).1).0) [
        | inl (e, r) ↦
            let fails = new_enumeration_fails H ids running vram_bytes w c e q r in
            absurd (ground arith)
        | inr ([], r) ↦
            let fails = new_empty H ids running vram_bytes w c q r in absurd (ground arith)
        | inr (a ∷ rest, r) ↦
            let b : RealVulkanBackend H = record { context = c; host = (probe H w).1 } in
            let more =
              subst (λ x. Counted H live w (x, (probe H w).1)) q (probe-Counted counts w) in
            let opened = new_opens H ids running vram_bytes w c a rest _ q r refl in
            (
              (enumerate H b).1,
              ground arith,
              enumerate-Holds counts (live w) b (rw more (Perm.refl _)),
            )
      ]
    ]

    -- On a machine that counts instances as Vulkan promises, a driver that `VulkanDriver::new` has
    -- opened with its render thread running keeps one instance alive: after any submissions and
    -- resets the thread is up with a context whose instance is the only one more than before the
    -- driver, and when that context is dropped, exactly the instances from before are left.
    pub one_instance :
        (qs : List Request)
        → (b : RealVulkanBackend H) × ((exchanges (real H) qs d.worker).1 ≡ alive b)
          × Perm (live b.host) (b.context.instance ∷ live w)
          × Perm (live (drop H b.context b.host)) (live w)
    unfolding drop
    one_instance qs =
        let (b, up, holds) = new-Holds in
        let (b', same, held) = exchanges-Holds counts (live w) qs b holds in
        (
          b',
          ap (λ k. (exchanges (real H) qs k).1) up ∙ same,
          held,
          counts.destroyed b'.context.instance b'.host (live w) held,
        )
