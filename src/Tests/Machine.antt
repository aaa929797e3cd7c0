-- ===== src/Tests/Machine.antt =====
-- A machine with one adapter, on which every render loses the device.
use sher_graphics.Base.{ℕ, ◌+◌, ◌≡◌, refl, ◌⊎◌, inr, false, String, none, some, List, [], ◌∷◌}
use sher_graphics.Map.{get}
use sher_graphics.Result.{ok, err, Error}
use sher_graphics.GraphicsApi.{graphics}
use sher_graphics.GpuAbstraction.{GpuFault, barrier}
use sher_graphics.GpuAbstraction.Software.{software, new as new_software}
use sher_graphics.VulkanBackend.{VulkanError}
use sher_graphics.VulkanBackend.Render.{Rendered.done as made, Rendered.failed as broken}
use sher_graphics.VulkanBackend.Context.{Host, VulkanContext, AdapterInfo, probe, drop}
use sher_graphics.GpuAbstraction.Vulkan.State.{
  VulkanDriver, alive, known_device, find_info, backend_error_to_sher,
}
use sher_graphics.GpuAbstraction.Vulkan.Open.{running, new_driver, adapter_device}
use sher_graphics.GpuAbstraction.Vulkan.Operations.{vulkan, submit, reset_device, fault_status}
use sher_graphics.GpuAbstraction.Vulkan.Real.{
  RealVulkanBackend, real, new, open_driver, map_vulkan_error,
}
use sher_graphics.GpuAbstraction.Vulkan.Real.Opening.{
  Usable, OnVulkan, OnSoftware, open_driver_chooses,
}
use sher_graphics.GpuAbstraction.Vulkan.Real.Submission.{
  submitted, lost_at, next_render, after_render, submit_real, reset_real,
}
use sher_graphics.GraphicsRuntime.State.{GraphicsRuntime, new as new_runtime}
use sher_graphics.GraphicsRuntime.History.{Call, recovers}
use sher_graphics.Tests.Platform.{bench, all_caps}
use sher_graphics.Tests.Render.{ash, hanging}
use sher_graphics.Tests.Vulkan.{draw_id, card}

-- The world counts the loads.
abbrev pub machine : Host ash
machine = record {
  World = ℕ;
  Instance = Unit {0};
  PhysicalDevice = ℕ;
  PhysicalDeviceType = Unit {0};
  load = λ w. (none, w + 1);
  enumerate_instance_extension_properties = λ w. (inr [], w);
  create_instance = λ info w. (inr tt, w);
  destroy_instance = λ i w. w;
  enumerate_physical_devices = λ i w. (inr (7 ∷ []), w);
  get_physical_device_properties = λ i p. record {
    device_name = some "bench";
    vendor_id = 1;
    device_id = 2;
    device_type = tt;
    api_version = 1;
    driver_version = 1;
  };
  api_version_major = λ v. v;
  api_version_minor = λ v. 0;
  api_version_patch = λ v. 0;
  portability_enumeration_name = "VK_KHR_portability_enumeration";
  is_portability_enumeration = λ name. false;
  render = λ i w. (hanging, w);
}

abbrev printed : Error → String
printed e = "error"

open_driver_chooses_example :
    ((found : List (AdapterInfo (Unit {0}))) × Usable machine running 0 found
      × OnVulkan machine found (open_driver machine printed draw_id 1 running 1000 0))
    ⊎ ((¬ ((found : List (AdapterInfo (Unit {0}))) × Usable machine running 0 found))
        × ((e : Error) × (new machine draw_id running 1000 0 ≡ err e)
            × OnSoftware machine printed 1 1000 e
                (open_driver machine printed draw_id 1 running 1000 0)))
open_driver_chooses_example = open_driver_chooses machine printed draw_id 1 running 1000 0

abbrev backend : RealVulkanBackend machine
backend = record { context = record { instance = tt }; host = 5 }

abbrev opened : VulkanDriver (real machine)
opened = new_driver (real machine) (card ∷ []) 1000 (alive backend)

knows : known_device 1 opened ≡ ok card
unfolding new_driver known_device find_info adapter_device
knows = refl

healthy : get 1 opened.faults ≡ none
unfolding new_driver get
healthy = refl

up : opened.worker ≡ alive backend
unfolding new_driver
up = refl

submit_real_example :
    let (r, d) = submit 1 graphics (barrier ∷ []) opened in
    (r ≡ submitted (next_render machine backend))
    × (fault_status 1 d ≡ ok (lost_at 1 (next_render machine backend)))
    × (d.worker ≡ alive (after_render machine backend))
submit_real_example =
    submit_real machine 1 graphics (barrier ∷ []) card backend opened knows healthy up

abbrev loss : GpuFault
loss = record { device = 1; address = 0; description = "device lost: error" }

abbrev lost : VulkanDriver (real machine)
lost = record opened { faults = (1, loss) ∷ [] }

lost_knows : known_device 1 lost ≡ ok card
unfolding new_driver known_device find_info adapter_device
lost_knows = refl

lost_faulted : get 1 lost.faults ≡ some loss
unfolding get
lost_faulted = refl

reset_real_example :
    let (r, d) = reset_device 1 lost in
    ((c : VulkanContext machine) × ((probe machine 5).0 ≡ made c)
      × (r ≡ ok tt)
      × (fault_status 1 d ≡ ok none)
      × (d.worker
          ≡ alive
              (record { context = c; host = drop machine backend.context (probe machine 5).1 })))
    ⊎ ((e : VulkanError ash) × ((probe machine 5).0 ≡ broken e)
        × (r ≡ err (backend_error_to_sher (map_vulkan_error e)))
        × (fault_status 1 d ≡ ok (some loss))
        × (d.worker
            ≡ alive (record { context = record { instance = tt }; host = (probe machine 5).1 })))
reset_real_example = reset_real machine 1 card loss backend lost lost_knows lost_faulted up

abbrev vulkan_calls : List (Call bench (vulkan (real machine)))
vulkan_calls = recovers 10 all_caps ∷ []

abbrev software_calls : List (Call bench software)
software_calls = recovers 10 all_caps ∷ []
