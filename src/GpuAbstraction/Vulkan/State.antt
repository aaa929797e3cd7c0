-- ===== src/GpuAbstraction/Vulkan/State.antt =====
-- The state of `VulkanDriver`, and the exchange of a command with the render thread that owns the
-- backend.
use sher_graphics.Base.{
  ℕ, zero, suc, ◌<>◌, String, Option, none, some, List, [], ◌∷◌, ◌==◌, if◌then◌else◌,
}
use sher_graphics.Map.{Map, insert}
use sher_graphics.Result.{Result, Error, ok_or, is_ok}
use sher_graphics.Kernel.{ObjectId, DeviceInfo}
use sher_graphics.GpuAbstraction.{GpuAllocation, GpuFault, DriverOp}

pub record BackendAdapterInfo : Type 0 where
  pub name : String
  pub vendor_id : ℕ
  pub device_id : ℕ
  pub api_version : ℕ × ℕ × ℕ

pub data BackendError : Type 0 where
  unavailable device_lost unsupported execution : String → BackendError

pub data BackendResult (A : Type 0) : Type 0 where
  done : A → BackendResult A
  failed : BackendError → BackendResult A

-- `impl Display for BackendError`
unfoldable pub print_backend_error : BackendError → String
print_backend_error (unavailable message) = "backend unavailable: " <> message
print_backend_error (device_lost message) = "device lost: " <> message
print_backend_error (unsupported message) = "unsupported: " <> message
print_backend_error (execution message) = "execution failed: " <> message

unfoldable pub backend_error_to_sher : BackendError → Error
backend_error_to_sher (unavailable message) = Error.device ("Vulkan unavailable: " <> message)
backend_error_to_sher (device_lost message) = Error.device ("Vulkan device lost: " <> message)
backend_error_to_sher (unsupported message) =
    Error.device ("Vulkan backend does not support this operation: " <> message)
backend_error_to_sher (execution message) = Error.device ("Vulkan execution failed: " <> message)

-- How a command ends on the render thread: with a reply, or with the thread itself. `stopped n`:
-- the channel closes only after `n` more commands, which are dropped.
pub data Reply : Type 0 where
  replied : BackendResult (Unit {0}) → Reply
  stopped : ℕ → Reply

-- The trait `VulkanBackend`.
pub record VulkanBackend : Type 1 where
  pub Backend : Type 0
  pub enumerate_adapters : Backend → BackendResult (List BackendAdapterInfo) × Backend
  pub execute : List DriverOp → Backend → Reply × Backend
  pub reset : Backend → Reply × Backend

-- The render thread, as the channel shows it.
pub data Worker (B : VulkanBackend) : Type 0 where
  alive : B.Backend → Worker B
  ending : ℕ → Worker B

-- What the driver sees of a command: it cannot be sent, its reply is dropped, or it is answered.
pub data Exchange : Type 0 where
  unsent dropped : Exchange
  answered : BackendResult (Unit {0}) → Exchange

pub record VulkanDriver (B : VulkanBackend) : Type 0 where
  pub worker : Worker B
  pub devices : List DeviceInfo
  pub allocations : Map GpuAllocation
  pub vram_available : Map ℕ
  pub next_address : Map ℕ
  pub faults : Map GpuFault
  pub registers : Map ℕ

-- `devices.iter().find(|info| &info.id == device)`
unfoldable pub find_info : ObjectId → List DeviceInfo → Option DeviceInfo
find_info id [] = none
find_info id (d ∷ devices) = if d.id == id then some d else find_info id devices

module _ {B : VulkanBackend} where
  unfoldable pub known_device : ObjectId → VulkanDriver B → Result DeviceInfo
  unfolding find_info
  known_device id d = ok_or (find_info id d.devices) (Error.device "unknown GPU device")

  unfoldable pub record_fault : ObjectId → String → VulkanDriver B → VulkanDriver B
  unfolding known_device
  record_fault id description d =
      if is_ok (known_device id d)
      then record d {
        faults =
            insert id (record { device = id; address = 0; description = description }) d.faults;
      }
      else d

  -- A command sent with its reply channel, and the reply awaited.
  unfoldable pub ask : (B.Backend → Reply × B.Backend) → Worker B → Exchange × Worker B
  ask run (alive b) =
      let (r, b') = run b in
      elim r [ replied x ↦ (answered x, alive b') | stopped n ↦ (dropped, ending n) ]
  ask run (ending zero) = (unsent, ending zero)
  ask run (ending (suc n)) = (dropped, ending n)
