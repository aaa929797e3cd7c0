-- ===== src/GpuAbstraction/Software.antt =====
-- `SoftwareGpuDriver` in crates/gpu_abstraction/src/lib.rs: its state, its constructors and its
-- two trait implementations.
pub mod Vram
pub mod History
pub mod Release
pub mod Isolation
pub mod Faults
pub mod Ledger
pub mod Order
use sher_graphics.Base.{
  ℕ, zero, suc, ◌<>◌, String, Bool, true, false, Option, none, some, List, [], ◌∷◌, map, ltb, ◌+ʷ◌,
  ◌-ʷ◌, decimal, hex,
}
use sher_graphics.Map.{Map, get, insert, remove, modify, keys, values}
use sher_graphics.Result.{
  Result, ok, err, Error, Action, ok_or, and_then, reads, writes, pure, fail_if, ◌>>=◌, ◌>>◌,
}
use sher_graphics.Kernel.{ObjectId, DeviceInfo, DeviceType}
use sher_graphics.GraphicsApi.{MemoryClass, WorkloadClass}
use sher_graphics.GpuAbstraction.{
  GpuAllocation, DmaMapping, GpuFault, DriverOp, Outcome, returned, GpuDriver, faulted_error,
}

pub record DeviceState : Type 0 where
  pub info : DeviceInfo
  pub initialized : Bool
  pub vram_total : ℕ
  pub vram_available : ℕ
  pub fault : Option GpuFault

pub record SoftwareGpuDriver : Type 0 where
  pub devices : Map DeviceState
  pub allocations : Map GpuAllocation
  pub registers : Map ℕ

-- The state of the `i`-th device of `with_devices`.
unfoldable pub new_device : ObjectId → ℕ → ℕ → DeviceState
new_device id i vram_bytes = record {
  info = record {
    id = id;
    device_type = DeviceType.gpu;
    name = "SHER Software GPU " <> decimal i;
    vendor_id = 0;
    device_id = 0;
    capabilities = "graphics" ∷ "compute" ∷ "transfer" ∷ [];
    mmio_base = none;
    mmio_size = none;
    irq = none;
  };
  initialized = false;
  vram_total = vram_bytes;
  vram_available = vram_bytes;
  fault = none;
}

-- The loop of `with_devices` from round `i` on; `ids i` is the identifier drawn in round `i`.
unfoldable pub add_devices : (ℕ → ObjectId) → ℕ → ℕ → ℕ → Map DeviceState → Map DeviceState
unfolding new_device
add_devices ids vram_bytes zero i devices = devices
add_devices ids vram_bytes (suc rounds) i devices =
    add_devices ids vram_bytes rounds (suc i)
      (insert (ids i) (new_device (ids i) i vram_bytes) devices)

-- The list is in the order of insertion, one of those in which the table may be iterated.
unfoldable pub with_devices : (ℕ → ObjectId) → ℕ → ℕ → SoftwareGpuDriver
unfolding add_devices
with_devices ids count vram_bytes_per_device = record {
  devices = add_devices ids vram_bytes_per_device count 0 [];
  allocations = [];
  registers = [];
}

unfoldable pub new : ObjectId → ℕ → SoftwareGpuDriver
unfolding with_devices
new id vram_bytes = with_devices (λ _. id) 1 vram_bytes

-- The first device in the order in which the table is iterated, which is that of the list. `None` is
-- the panic of a driver with no device.
unfoldable pub device_id : SoftwareGpuDriver → Option ObjectId
device_id d = elim d.devices [ [] ↦ none | e ∷ es ↦ some e.0 ]

unfoldable pub device_ids : SoftwareGpuDriver → List ObjectId
device_ids d = keys d.devices

unfoldable pub inject_fault : ObjectId → ℕ → String → SoftwareGpuDriver → SoftwareGpuDriver
inject_fault device address description d = record d {
  devices =
      modify device
        (λ s. record s {
          fault = some (record { device = device; address = address; description = description });
        })
        d.devices;
}

unfoldable pub clear_fault : ObjectId → SoftwareGpuDriver → SoftwareGpuDriver
clear_fault device d = record d {
  devices = modify device (λ s. record s { fault = none }) d.devices;
}

-- `state` and `state_mut`.
unfoldable pub state : ObjectId → SoftwareGpuDriver → Result DeviceState
state id d = ok_or (get id d.devices) (Error.device "unknown GPU device")

-- A write through `state_mut(id)?`.
unfoldable pub set_state :
    ObjectId → (DeviceState → DeviceState) → Action SoftwareGpuDriver (Unit {0})
unfolding state
set_state id f = do reads (state id); writes λ d. record d { devices = modify id f d.devices }

unfoldable pub probe : SoftwareGpuDriver → Result (List DeviceInfo)
probe d = ok (map (λ s. s.info) (values d.devices))

unfoldable pub initialize : DeviceInfo → Action SoftwareGpuDriver (Unit {0})
unfolding set_state
initialize info = set_state info.id λ s. record s { initialized = true }

unfoldable pub shutdown : ObjectId → Action SoftwareGpuDriver (Unit {0})
unfolding set_state
shutdown id = set_state id λ s. record s { initialized = false }

unfoldable pub get_capabilities : ObjectId → SoftwareGpuDriver → Result (List String)
unfolding state
get_capabilities id d = and_then (state id d) λ s. ok s.info.capabilities

unfoldable pub read_register : ObjectId → ℕ → SoftwareGpuDriver → Result ℕ
unfolding state
read_register id offset d =
    and_then (state id d) λ _. ok (elim (get offset d.registers) [ none ↦ 0 | some v ↦ v ])

-- The value is dropped.
unfoldable pub write_register : ObjectId → ℕ → ℕ → SoftwareGpuDriver → Result (Unit {0})
unfolding state
write_register id offset value d = and_then (state id d) λ _. ok tt

-- The allocation that `allocate_vram` builds, addressed by what the pool has given away.
unfoldable pub new_allocation : ObjectId → ObjectId → ℕ → MemoryClass → DeviceState → GpuAllocation
new_allocation fresh device size class s = record {
  id = fresh;
  device = device;
  class = class;
  size = size;
  device_address = s.vram_total -ʷ s.vram_available;
}

-- The two writes of `allocate_vram`.
unfoldable pub debit : GpuAllocation → SoftwareGpuDriver → SoftwareGpuDriver
debit a d = record d {
  devices =
      modify a.device (λ s. record s { vram_available = s.vram_available -ʷ a.size }) d.devices;
  allocations = insert a.id a d.allocations;
}

unfoldable pub allocate_vram :
    ObjectId → ObjectId → ℕ → MemoryClass → Action SoftwareGpuDriver GpuAllocation
unfolding state
allocate_vram fresh device size class = do
  s ← reads (state device)
  fail_if (ltb s.vram_available size) (Error.memory "insufficient VRAM")
  writes (debit (new_allocation fresh device size class s))
  pure (new_allocation fresh device size class s)

-- `allocations.remove(id)`
abbrev pub drop_allocation : ObjectId → SoftwareGpuDriver → SoftwareGpuDriver
drop_allocation id d = record d { allocations = remove id d.allocations }

abbrev pub credit : ℕ → DeviceState → DeviceState
credit size s = record s { vram_available = s.vram_available +ʷ size }

unfoldable pub free_vram : ObjectId → Action SoftwareGpuDriver (Unit {0})
unfolding set_state
free_vram id = do
  allocation ← reads λ d. ok_or (get id d.allocations) (Error.memory "unknown allocation")
  writes (drop_allocation id)
  set_state allocation.device (credit allocation.size)

unfoldable pub map_dma : ObjectId → Action SoftwareGpuDriver DmaMapping
map_dma id = do
  allocation ← reads λ d. ok_or (get id d.allocations) (Error.memory "unknown allocation")
  pure (record {
    allocation = allocation.id;
    iova = allocation.device_address;
    size = allocation.size;
  })

unfoldable pub submit :
    ObjectId
    → WorkloadClass
    → List DriverOp
    → SoftwareGpuDriver
    → Outcome (Unit {0}) × SoftwareGpuDriver
unfolding state
submit device class ops d = (
  returned (
      and_then (state device d)
        λ s. elim s.fault [ none ↦ ok tt | some fault ↦ err (faulted_error fault) ]),
  d,
)

unfoldable pub fault_status : ObjectId → SoftwareGpuDriver → Result (Option GpuFault)
unfolding state
fault_status device d = and_then (state device d) λ s. ok s.fault

unfoldable pub vram_available : ObjectId → SoftwareGpuDriver → Result ℕ
unfolding state
vram_available device d = and_then (state device d) λ s. ok s.vram_available

unfoldable pub reset_device : ObjectId → Action SoftwareGpuDriver (Unit {0})
unfolding set_state
reset_device device = set_state device λ s. record s { fault = none }

unfoldable pub mark_faulted : ObjectId → String → SoftwareGpuDriver → SoftwareGpuDriver
unfolding inject_fault
mark_faulted device description = inject_fault device 0 description

abbrev pub software : GpuDriver
software = record {
  Driver = SoftwareGpuDriver;
  probe = probe;
  initialize = initialize;
  shutdown = shutdown;
  get_capabilities = get_capabilities;
  read_register = read_register;
  write_register = write_register;
  allocate_vram = allocate_vram;
  free_vram = free_vram;
  map_dma = map_dma;
  submit = submit;
  fault_status = fault_status;
  vram_available = vram_available;
  reset_device = reset_device;
  mark_faulted = mark_faulted;
}
