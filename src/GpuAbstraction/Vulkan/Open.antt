-- ===== src/GpuAbstraction/Vulkan/Open.antt =====
-- `VulkanDriver::with_backend`.
use sher_graphics.Base.{ℕ, suc, ◌<>◌, String, Option, none, some, List, [], ◌∷◌, map}
use sher_graphics.Map.{Map, insert}
use sher_graphics.Result.{Result, ok, err, Error, and_then}
use sher_graphics.Kernel.{ObjectId, DeviceInfo, DeviceType}
use sher_graphics.GpuAbstraction.Vulkan.State.{
  BackendAdapterInfo, done, failed, backend_error_to_sher, VulkanBackend, Worker, alive, ending,
  VulkanDriver,
}

-- How the start of the render thread ends: refused by the system, running, or over at once because
-- its runtime cannot be built.
pub data Spawn : Type 0 where
  refused : String → Spawn
  running : Spawn
  over : ℕ → Spawn

unfoldable pub adapter_device : ObjectId → BackendAdapterInfo → DeviceInfo
adapter_device id adapter = record {
  id = id;
  device_type = DeviceType.gpu;
  name = adapter.name;
  vendor_id = adapter.vendor_id;
  device_id = adapter.device_id;
  capabilities = "graphics" ∷ "compute" ∷ "transfer" ∷ "vulkan" ∷ [];
  mmio_base = none;
  mmio_size = none;
  irq = none;
}

-- The devices of the adapters from the `i`-th on; `ids i` is the identifier drawn for it.
unfoldable pub adapter_devices : (ℕ → ObjectId) → ℕ → List BackendAdapterInfo → List DeviceInfo
unfolding adapter_device
adapter_devices ids i [] = []
adapter_devices ids i (a ∷ adapters) =
    adapter_device (ids i) a ∷ adapter_devices ids (suc i) adapters

-- `devices.iter().map(|device| (device.id, value)).collect()`
unfoldable pub collect : ℕ → List DeviceInfo → Map ℕ → Map ℕ
collect value [] m = m
collect value (d ∷ devices) m = collect value devices (insert d.id value m)

module _ (B : VulkanBackend) where
  unfoldable pub start : Spawn → B.Backend → Result (Worker B)
  start (refused message) b =
      err (Error.device ("failed to spawn Vulkan render thread: " <> message))
  start running b = ok (alive b)
  start (over n) b = ok (ending n)

  unfoldable pub new_driver : List DeviceInfo → ℕ → Worker B → VulkanDriver B
  unfolding collect
  new_driver devices vram_bytes worker = record {
    worker = worker;
    devices = devices;
    allocations = [];
    vram_available = collect vram_bytes devices [];
    next_address = collect 0 devices [];
    faults = [];
    registers = [];
  }

  unfoldable pub with_backend : (ℕ → ObjectId) → Spawn → B.Backend → ℕ → Result (VulkanDriver B)
  unfolding backend_error_to_sher adapter_devices start new_driver
  with_backend ids spawn backend vram_bytes =
      let (found, b) = B.enumerate_adapters backend in
      elim found [
        | failed e ↦ err (backend_error_to_sher e)
        | done [] ↦ err (Error.device "Vulkan backend reported no physical devices")
        | done (a ∷ adapters) ↦
            and_then (start spawn b)
              λ worker. ok (new_driver (adapter_devices ids 0 (a ∷ adapters)) vram_bytes worker)
      ]

module _ {B : VulkanBackend} where
  -- `None` is the panic of a driver with no device.
  unfoldable pub device_id : VulkanDriver B → Option ObjectId
  device_id d = elim d.devices [ [] ↦ none | info ∷ infos ↦ some info.id ]

  unfoldable pub device_ids : VulkanDriver B → List ObjectId
  device_ids d = map (λ info. info.id) d.devices
