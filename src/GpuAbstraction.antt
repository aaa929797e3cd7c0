-- ===== src/GpuAbstraction.antt =====
-- crates/gpu_abstraction/src/lib.rs: what drivers exchange with the runtime, and the trait
-- `GpuDriver` with its supertrait `hal::HardwareDriver` as a record of operations.
pub mod Software
pub mod FaultChannel
pub mod Vulkan
pub mod Fallback
use sher_graphics.Base.{ℕ, String, ◌<>◌, hex, Option, List}
use sher_graphics.Result.{Result, Error, Action}
use sher_graphics.Kernel.{ObjectId, DeviceInfo}
use sher_graphics.GraphicsApi.{MemoryClass, WorkloadClass}

pub record GpuAllocation : Type 0 where
  pub id : ObjectId
  pub device : ObjectId
  pub class : MemoryClass
  pub size : ℕ
  pub device_address : ℕ

pub record DmaMapping : Type 0 where
  pub allocation : ObjectId
  pub iova : ℕ
  pub size : ℕ

pub record GpuFault : Type 0 where
  pub device : ObjectId
  pub address : ℕ
  pub description : String

-- What a submission to a faulted device is answered, by either driver.
unfoldable pub faulted_error : GpuFault → Error
faulted_error f = Error.device ("device faulted at " <> hex f.address <> ": " <> f.description)

pub data DriverOp : Type 0 where
  draw : (vertex_count instance_count : ℕ) → DriverOp
  dispatch : (x y z : ℕ) → DriverOp
  copy : (src dst : ObjectId) → DriverOp
  barrier : DriverOp

-- The payload of a panic: a `&str`, a `String`, or another type.
pub data PanicPayload : Type 0 where
  str string : String → PanicPayload
  opaque : PanicPayload

-- How a driver call ends.
pub data Outcome (A : Type 0) : Type 0 where
  returned : Result A → Outcome A
  panicked : PanicPayload → Outcome A

-- Only `submit` is called where a panic is caught, so only there the model lets a driver panic.
-- The first argument of `allocate_vram` is the identifier that the allocation is given.
pub record GpuDriver : Type 1 where
  pub Driver : Type 0
  pub probe : Driver → Result (List DeviceInfo)
  pub initialize : DeviceInfo → Action Driver (Unit {0})
  pub shutdown : ObjectId → Action Driver (Unit {0})
  pub get_capabilities : ObjectId → Driver → Result (List String)
  pub read_register : ObjectId → ℕ → Driver → Result ℕ
  pub write_register : ObjectId → ℕ → ℕ → Driver → Result (Unit {0})
  pub allocate_vram : ObjectId → ObjectId → ℕ → MemoryClass → Action Driver GpuAllocation
  pub free_vram : ObjectId → Action Driver (Unit {0})
  pub map_dma : ObjectId → Action Driver DmaMapping
  pub submit : ObjectId → WorkloadClass → List DriverOp → Driver → Outcome (Unit {0}) × Driver
  pub fault_status : ObjectId → Driver → Result (Option GpuFault)
  pub vram_available : ObjectId → Driver → Result ℕ
  pub reset_device : ObjectId → Action Driver (Unit {0})
  pub mark_faulted : ObjectId → String → Driver → Driver
