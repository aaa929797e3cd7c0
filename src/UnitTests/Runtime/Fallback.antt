-- ===== src/UnitTests/Runtime/Fallback.antt =====
-- `mod tests` of crates/graphics_runtime/src/lib.rs: the test of the runtime that
-- opens Vulkan if it can.
use sher_graphics.Base.{ℕ, is_some, List, [], ◌∷◌, arith, if◌then◌else◌, inl, inr}
use sher_graphics.Result.{Result, ok, reads, ◌>>=◌, Result-cases}
use sher_graphics.Kernel.{ObjectId, Platform}
use sher_graphics.VulkanBackend.{Ash}
use sher_graphics.VulkanBackend.Context.{Host}
use sher_graphics.GpuAbstraction.Vulkan.Open.{Spawn}
use sher_graphics.GpuAbstraction.Vulkan.Real.{new as new_vulkan, open_driver}
use sher_graphics.GpuAbstraction.Fallback.{from_vulkan_result, is_vulkan, fallback_reason}
use sher_graphics.GraphicsRuntime.State.{new}
use sher_graphics.GraphicsRuntime.Recover.{driver_mut}
use sher_graphics.GraphicsRuntime.Backends.{with_vulkan_or_software}
use sher_graphics.UnitTests.{assert, is_none, AllPass}
use sher_graphics.UnitTests.Runtime.{Kit, IsLawful, admin_caps, admin_caps_admin}

module _ {K : Platform} (T : Kit K) {A : Ash} (H : Host A) (spawn : Spawn) (w : H.World)
    (ids : ℕ → ObjectId) (id : ObjectId) where
  -- `ids` are drawn for the adapters, and `id` for the software driver.
  abbrev explicit_software_fallback_keeps_the_runtime_usable : Result (Unit {0})
  explicit_software_fallback_keeps_the_runtime_usable =
      ((do
        driver ← driver_mut (admin_caps T) (reads λ d. ok d)
        assert (
            if is_vulkan driver
            then is_none (fallback_reason driver)
            else is_some (fallback_reason driver)))
        (with_vulkan_or_software K H T.print ids id spawn 1048576 67108864 w)).0

  abbrev pub fallback_tests : List (Result (Unit {0}))
  fallback_tests = explicit_software_fallback_keeps_the_runtime_usable ∷ []

  module _ (lawful : IsLawful T) where
    pub fallback_tests-AllPass : AllPass fallback_tests
    unfolding with_vulkan_or_software open_driver from_vulkan_result new is_vulkan fallback_reason
        driver_mut
    fallback_tests-AllPass =
        let admin = admin_caps_admin lawful in
        elim (Result-cases (new_vulkan H ids spawn 67108864 w)) [
          | inl (d, h) ↦ (ground arith, tt)
          | inr (e, h) ↦ (ground arith, tt)
        ]
