-- ===== src/GpuAbstraction/Fallback.antt =====
-- `FallbackDriver` in crates/gpu_abstraction/src/vulkan.rs: Vulkan, or the software driver with the
-- reason.
use sher_graphics.Base.{ℕ, ◌≡◌, refl, Bool, true, false, String, Option, none, some, List}
use sher_graphics.Result.{Result, ok, err, Error}
use sher_graphics.Kernel.{ObjectId}
use sher_graphics.GraphicsApi.{WorkloadClass}
use sher_graphics.GpuAbstraction.{GpuFault, DriverOp, returned, GpuDriver, faulted_error}
use sher_graphics.GpuAbstraction.FaultChannel.{IsFaultChannel, software-IsFaultChannel}
use sher_graphics.GpuAbstraction.Software.{SoftwareGpuDriver, software, new}
use sher_graphics.GpuAbstraction.Vulkan.State.{VulkanBackend, VulkanDriver}
use sher_graphics.GpuAbstraction.Vulkan.Operations.{vulkan}
use sher_graphics.GpuAbstraction.Vulkan.Loss.{vulkan-IsFaultChannel}

pub data FallbackDriver (B : VulkanBackend) : Type 0 where
  over_vulkan : VulkanDriver B → FallbackDriver B
  over_software : (driver : SoftwareGpuDriver) (reason : String) → FallbackDriver B

module _ {B : VulkanBackend} where
  -- `print` is what `to_string` makes of an error, and `id` the identifier that
  -- `SoftwareGpuDriver::new` draws.
  unfoldable pub from_vulkan_result :
      (Error → String) → ObjectId → Result (VulkanDriver B) → ℕ → FallbackDriver B
  from_vulkan_result print id (ok driver) vram_bytes = over_vulkan driver
  from_vulkan_result print id (err e) vram_bytes = over_software (new id vram_bytes) (print e)

  unfoldable pub is_vulkan : FallbackDriver B → Bool
  is_vulkan (over_vulkan driver) = true
  is_vulkan (over_software driver reason) = false

  unfoldable pub fallback_reason : FallbackDriver B → Option String
  fallback_reason (over_vulkan driver) = none
  fallback_reason (over_software driver reason) = some reason

  -- `delegate!` for a method that reads, and for one that writes.
  abbrev pub delegate_read :
      {A : Type 0} → (VulkanDriver B → A) → (SoftwareGpuDriver → A) → FallbackDriver B → A
  delegate_read v s (over_vulkan driver) = v driver
  delegate_read v s (over_software driver reason) = s driver

  abbrev pub delegate :
      {A : Type 0}
      → (VulkanDriver B → A × VulkanDriver B)
      → (SoftwareGpuDriver → A × SoftwareGpuDriver)
      → FallbackDriver B
      → A × FallbackDriver B
  delegate v s (over_vulkan driver) = let (a, d) = v driver in (a, over_vulkan d)
  delegate v s (over_software driver reason) = let (a, d) = s driver in (a, over_software d reason)

  abbrev pub delegate_mark : ObjectId → String → FallbackDriver B → FallbackDriver B
  delegate_mark g text (over_vulkan driver) = over_vulkan ((vulkan B).mark_faulted g text driver)
  delegate_mark g text (over_software driver reason) =
      over_software (software.mark_faulted g text driver) reason

abbrev pub fallback : VulkanBackend → GpuDriver
fallback B =
    let V = vulkan B in
    record {
      Driver = FallbackDriver B;
      probe = delegate_read V.probe software.probe;
      initialize = λ info. delegate (V.initialize info) (software.initialize info);
      shutdown = λ g. delegate (V.shutdown g) (software.shutdown g);
      get_capabilities = λ g. delegate_read (V.get_capabilities g) (software.get_capabilities g);
      read_register = λ g o. delegate_read (V.read_register g o) (software.read_register g o);
      write_register = λ g o value.
          delegate_read (V.write_register g o value) (software.write_register g o value);
      allocate_vram = λ fresh g size class.
          delegate (V.allocate_vram fresh g size class) (software.allocate_vram fresh g size class);
      free_vram = λ k. delegate (V.free_vram k) (software.free_vram k);
      map_dma = λ k. delegate (V.map_dma k) (software.map_dma k);
      submit = λ g class ops. delegate (V.submit g class ops) (software.submit g class ops);
      fault_status = λ g. delegate_read (V.fault_status g) (software.fault_status g);
      vram_available = λ g. delegate_read (V.vram_available g) (software.vram_available g);
      reset_device = λ g. delegate (V.reset_device g) (software.reset_device g);
      mark_faulted = delegate_mark;
    }

module _ (B : VulkanBackend) where
  fallback_marked :
      (g : ObjectId) (text : String) (d : FallbackDriver B) (o : Option GpuFault)
      → (fallback B).fault_status g d ≡ ok o
      → (f : GpuFault) × ((fallback B).fault_status g (delegate_mark g text d) ≡ ok (some f))
        × (f.description ≡ text)
  fallback_marked g text (over_vulkan v) o h = (vulkan-IsFaultChannel B).marked g text v o h
  fallback_marked g text (over_software s reason) o h = software-IsFaultChannel.marked g text s o h

  fallback_blocked :
      (g : ObjectId) (class : WorkloadClass) (ops : List DriverOp) (d : FallbackDriver B)
      (f : GpuFault)
      → (fallback B).fault_status g d ≡ ok (some f)
      → (fallback B).submit g class ops d ≡ (returned (err (faulted_error f)), d)
  fallback_blocked g class ops (over_vulkan v) f h =
      rw ((vulkan-IsFaultChannel B).blocked g class ops v f h) refl
  fallback_blocked g class ops (over_software s reason) f h =
      rw (software-IsFaultChannel.blocked g class ops s f h) refl

  fallback_cleared :
      (g : ObjectId) (d : FallbackDriver B)
      → ((fallback B).reset_device g d).0 ≡ ok tt
      → (fallback B).fault_status g ((fallback B).reset_device g d).1 ≡ ok none
  fallback_cleared g (over_vulkan v) h = (vulkan-IsFaultChannel B).cleared g v h
  fallback_cleared g (over_software s reason) h = software-IsFaultChannel.cleared g s h

  -- Whichever driver the fallback has chosen, it keeps the contract on faults.
  pub fallback-IsFaultChannel : IsFaultChannel (fallback B)
  fallback-IsFaultChannel = record {
    marked = fallback_marked;
    blocked = fallback_blocked;
    cleared = fallback_cleared;
  }
