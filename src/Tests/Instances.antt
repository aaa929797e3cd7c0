-- ===== src/Tests/Instances.antt =====
-- A machine on which another program keeps an instance alive.
use mathlib.Core.List.{Perm, cons≢nil}
use mathlib.Core.List.Perm
use sher_graphics.Base.{ℕ, ◌≡◌, refl, sym, arith, inr, false, none, some, List, [], ◌∷◌}
use sher_graphics.Result.{ok}
use sher_graphics.GpuAbstraction.{barrier}
use sher_graphics.VulkanBackend.Context.{
  Host, probe, drop, any_extension, create_info, enumerate_adapters,
}
use sher_graphics.GpuAbstraction.Vulkan.State.{VulkanDriver, alive}
use sher_graphics.GpuAbstraction.Vulkan.Open.{
  running, start, with_backend, adapter_devices, new_driver,
}
use sher_graphics.GpuAbstraction.Vulkan.Thread.Shutdown.{submission, resetting, exchanges}
use sher_graphics.GpuAbstraction.Vulkan.Real.{
  RealVulkanBackend, real, mapped, open_backend, enumerate, new, adapter_of,
}
use sher_graphics.GpuAbstraction.Vulkan.Real.Instances.{IsCounting}
use sher_graphics.GpuAbstraction.Vulkan.Real.Lifetime.{one_instance}
use sher_graphics.Tests.Render.{ash, hanging}
use sher_graphics.Tests.Vulkan.{draw_id}

-- The world is the instances that are alive.
abbrev destroy : List (Unit {0}) → List (Unit {0})
destroy [] = []
destroy (i ∷ w) = w

abbrev shared : Host ash
shared = record {
  World = List (Unit {0});
  Instance = Unit {0};
  PhysicalDevice = ℕ;
  PhysicalDeviceType = Unit {0};
  load = λ w. (none, w);
  enumerate_instance_extension_properties = λ w. (inr [], w);
  create_instance = λ info w. (inr tt, tt ∷ w);
  destroy_instance = λ i w. destroy w;
  enumerate_physical_devices = λ i w. (inr (7 ∷ []), w);
  get_physical_device_properties = λ i p. record {
    device_name = some "bench";
    vendor_id = 1;
    device_id = 2;
    device_type = tt;
    api_version = 1;
    driver_version = 1;
  };
  api_version_major = λ v. v;
  api_version_minor = λ v. 0;
  api_version_patch = λ v. 0;
  portability_enumeration_name = "VK_KHR_portability_enumeration";
  is_portability_enumeration = λ name. false;
  render = λ i w. (hanging, w);
}

abbrev here : shared.World → List shared.Instance
here w = w

destroyed : (i : Unit {0}) (w rest : List (Unit {0})) → Perm w (i ∷ rest) → Perm (destroy w) rest
destroyed i [] rest p = absurd (cons≢nil (sym (Perm.nil-eq p)))
destroyed i (j ∷ w) rest p = Perm.cons_inv p

shared-IsCounting : IsCounting shared here
shared-IsCounting = record {
  loaded = λ w. refl;
  listed = λ w. refl;
  created = λ info w i q. refl;
  refused = λ info w e q. absurd (ground arith);
  destroyed = destroyed;
  enumerated = λ i w. refl;
  rendered = λ i w. refl;
}

abbrev driven : VulkanDriver (real shared)
driven =
    new_driver (real shared)
      (adapter_devices draw_id 0 (
        adapter_of (record {
          name = "bench";
          vendor_id = 1;
          device_id = 2;
          device_type = tt;
          api_version = (1, 0, 0);
          driver_version = 1;
        })
        ∷ []))
      1000 (alive (record { context = record { instance = tt }; host = tt ∷ tt ∷ [] }))

opens : new shared draw_id running 1000 (tt ∷ []) ≡ ok driven
unfolding new open_backend mapped probe any_extension create_info with_backend start enumerate
    enumerate_adapters new_driver adapter_devices
opens = refl

one_instance_example :
    (b : RealVulkanBackend shared) × ((exchanges
        (real shared)
        (resetting ∷ submission (barrier ∷ []) ∷ resetting ∷ [])
        driven.worker).1
      ≡ alive b)
    × Perm b.host (b.context.instance ∷ tt ∷ [])
    × Perm (drop shared b.context b.host) (tt ∷ [])
one_instance_example =
    one_instance shared-IsCounting draw_id 1000 (tt ∷ []) driven opens
      (resetting ∷ submission (barrier ∷ []) ∷ resetting ∷ [])
