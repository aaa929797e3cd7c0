-- ===== src/GpuAbstraction/Vulkan/Operations.antt =====
-- The two trait implementations of `VulkanDriver`.
use sher_graphics.Base.{ℕ, ◌<>◌, String, Option, none, some, List, ltb, ◌+ʷ◌, ◌-ʷ◌}
use sher_graphics.Map.{get, insert, remove, modify}
use sher_graphics.Result.{
  Result, ok, err, Error, Action, ok_or, and_then, reads, writes, pure, fail_if, ◌>>=◌, ◌>>◌,
}
use sher_graphics.Kernel.{ObjectId, DeviceInfo}
use sher_graphics.GraphicsApi.{MemoryClass, WorkloadClass}
use sher_graphics.GpuAbstraction.{
  GpuAllocation, DmaMapping, GpuFault, DriverOp, Outcome, returned, GpuDriver, faulted_error,
}
use sher_graphics.GpuAbstraction.Vulkan.State.{
  device_lost, done, failed, backend_error_to_sher, VulkanBackend, Exchange, unsent, dropped,
  answered, VulkanDriver, known_device, record_fault, ask,
}

module _ {B : VulkanBackend} where
  unfoldable pub probe : VulkanDriver B → Result (List DeviceInfo)
  probe d = ok d.devices

  unfoldable pub initialize : DeviceInfo → Action (VulkanDriver B) (Unit {0})
  unfolding known_device
  initialize info = do reads (known_device info.id); pure tt

  unfoldable pub shutdown : ObjectId → Action (VulkanDriver B) (Unit {0})
  unfolding known_device
  shutdown id = do reads (known_device id); pure tt

  unfoldable pub get_capabilities : ObjectId → VulkanDriver B → Result (List String)
  unfolding known_device
  get_capabilities id d = and_then (known_device id d) λ info. ok info.capabilities

  unfoldable pub read_register : ObjectId → ℕ → VulkanDriver B → Result ℕ
  unfolding known_device
  read_register id offset d =
      and_then (known_device id d) λ _. ok (elim (get offset d.registers) [ none ↦ 0 | some v ↦ v ])

  unfoldable pub write_register : ObjectId → ℕ → ℕ → VulkanDriver B → Result (Unit {0})
  unfolding known_device
  write_register id offset value d = and_then (known_device id d) λ _. ok tt

  -- `next_address.entry(device).or_insert(0)`
  abbrev pub next_of : ObjectId → VulkanDriver B → ℕ
  next_of device d = elim (get device d.next_address) [ none ↦ 0 | some n ↦ n ]

  unfoldable pub new_allocation :
      ObjectId → ObjectId → ℕ → MemoryClass → VulkanDriver B → GpuAllocation
  new_allocation fresh device size class d = record {
    id = fresh;
    device = device;
    class = class;
    size = size;
    device_address = next_of device d;
  }

  -- The three writes of `allocate_vram`.
  unfoldable pub debit : GpuAllocation → VulkanDriver B → VulkanDriver B
  debit a d = record d {
    next_address = insert a.device (next_of a.device d +ʷ a.size) d.next_address;
    vram_available = modify a.device (λ available. available -ʷ a.size) d.vram_available;
    allocations = insert a.id a d.allocations;
  }

  unfoldable pub allocate_vram :
      ObjectId → ObjectId → ℕ → MemoryClass → Action (VulkanDriver B) GpuAllocation
  unfolding known_device
  allocate_vram fresh device size class = do
    reads (known_device device)
    available ← reads λ d. ok_or (get device d.vram_available) (Error.device "unknown GPU device")
    fail_if (ltb available size) (Error.memory "insufficient VRAM")
    a ← reads λ d. ok (new_allocation fresh device size class d)
    writes (debit a)
    pure a

  unfoldable pub free_vram : ObjectId → Action (VulkanDriver B) (Unit {0})
  free_vram id = do
    a ← reads λ d. ok_or (get id d.allocations) (Error.memory "unknown allocation")
    writes λ d. record d { allocations = remove id d.allocations }
    reads λ d. ok_or (get a.device d.vram_available) (Error.device "unknown GPU device")
    writes λ d. record d {
      vram_available = modify a.device (λ available. available +ʷ a.size) d.vram_available;
    }

  unfoldable pub map_dma : ObjectId → Action (VulkanDriver B) DmaMapping
  map_dma id = do
    a ← reads λ d. ok_or (get id d.allocations) (Error.memory "unknown allocation")
    pure (record { allocation = a.id; iova = a.device_address; size = a.size })

  -- The `match` on what `submit` receives.
  unfoldable pub conclude :
      ObjectId → Exchange → VulkanDriver B → Result (Unit {0}) × VulkanDriver B
  unfolding record_fault backend_error_to_sher
  conclude device unsent d = (err (Error.device "Vulkan render thread is not running"), d)
  conclude device dropped d = (
    err (Error.device "Vulkan render thread stopped before replying"),
    record_fault device "Vulkan render thread stopped before replying" d,
  )
  conclude device (answered (done u)) d = (ok tt, d)
  conclude device (answered (failed (device_lost message))) d = (
    err (Error.device ("Vulkan device lost: " <> message)),
    record_fault device ("device lost: " <> message) d,
  )
  conclude device (answered (failed e)) d = (err (backend_error_to_sher e), d)

  -- The checks of `submit`, and the command if they pass.
  unfoldable pub try_submit :
      ObjectId → WorkloadClass → List DriverOp → VulkanDriver B → Result (Unit {0}) × VulkanDriver B
  unfolding known_device ask conclude
  try_submit device class ops d = elim (known_device device d) [
    | err e ↦ (err e, d)
    | ok info ↦ elim (get device d.faults) [
      | some fault ↦ (err (faulted_error fault), d)
      | none ↦
          let (x, w) = ask (B.execute ops) d.worker in conclude device x (record d { worker = w })
    ]
  ]

  unfoldable pub submit :
      ObjectId
      → WorkloadClass
      → List DriverOp
      → VulkanDriver B
      → Outcome (Unit {0}) × VulkanDriver B
  unfolding try_submit
  submit device class ops d = let (r, d') = try_submit device class ops d in (returned r, d')

  unfoldable pub fault_status : ObjectId → VulkanDriver B → Result (Option GpuFault)
  unfolding known_device
  fault_status device d = and_then (known_device device d) λ _. ok (get device d.faults)

  unfoldable pub vram_available : ObjectId → VulkanDriver B → Result ℕ
  vram_available device d = ok_or (get device d.vram_available) (Error.device "unknown GPU device")

  -- The `match` on what `reset_device` receives.
  unfoldable pub conclude_reset :
      ObjectId → Exchange → VulkanDriver B → Result (Unit {0}) × VulkanDriver B
  unfolding backend_error_to_sher
  conclude_reset device unsent d = (err (Error.device "Vulkan render thread is not running"), d)
  conclude_reset device dropped d =
      (err (Error.device "Vulkan render thread stopped before replying to reset"), d)
  conclude_reset device (answered (done u)) d =
      (ok tt, record d { faults = remove device d.faults })
  conclude_reset device (answered (failed e)) d = (err (backend_error_to_sher e), d)

  unfoldable pub reset_device : ObjectId → Action (VulkanDriver B) (Unit {0})
  unfolding known_device ask conclude_reset
  reset_device device d = elim (known_device device d) [
    | err e ↦ (err e, d)
    | ok info ↦
        let (x, w) = ask B.reset d.worker in conclude_reset device x (record d { worker = w })
  ]

  unfoldable pub mark_faulted : ObjectId → String → VulkanDriver B → VulkanDriver B
  unfolding record_fault
  mark_faulted device description d = record_fault device description d

abbrev pub vulkan : VulkanBackend → GpuDriver
vulkan B = record {
  Driver = VulkanDriver B;
  probe = probe;
  initialize = initialize;
  shutdown = shutdown;
  get_capabilities = get_capabilities;
  read_register = read_register;
  write_register = write_register;
  allocate_vram = allocate_vram;
  free_vram = free_vram;
  map_dma = map_dma;
  submit = submit;
  fault_status = fault_status;
  vram_available = vram_available;
  reset_device = reset_device;
  mark_faulted = mark_faulted;
}
