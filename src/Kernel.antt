-- ===== src/Kernel.antt =====
-- What the workspace takes from the SHER-KERNEL crates (`sher_common`, `sher_objectmodel`,
-- `sher_security`, `hal`, `gpu_driver`), which are not in this repository: the shapes that the
-- sources build and match on are data here, and everything that runs is a field of `Platform`.
use sher_graphics.Base.{ℕ, Bool, String, Option, List}
use sher_graphics.Result.{Action}

-- Identifiers are compared, copied and used as keys, and nothing else. Each call of
-- `ObjectId::new()` is an argument of the operation that makes it.
abbrev pub ObjectId : Type 0
ObjectId = ℕ

-- `other` stands for the capabilities that no GPU operation asks for.
pub data Capability : Type 0 where
  gpu_admin gpu_command_submit gpu_memory_alloc : Capability
  other : ℕ → Capability

pub data PermissionTier : Type 0 where
  low medium high critical : PermissionTier

-- `other` stands for the types of device that are no GPU.
pub data DeviceType : Type 0 where
  gpu : DeviceType
  other : ℕ → DeviceType

-- `hal::DeviceInfo`, with the fields that both drivers fill in.
pub record DeviceInfo : Type 0 where
  pub id : ObjectId
  pub device_type : DeviceType
  pub name : String
  pub vendor_id : ℕ
  pub device_id : ℕ
  pub capabilities : List String
  pub mmio_base : Option ℕ
  pub mmio_size : Option ℕ
  pub irq : Option ℕ

pub record Platform : Type 1 where
  -- `CapabilitySet::has_capability`, and what `{:?}` prints of a capability.
  pub CapabilitySet : Type 0
  pub has_capability : CapabilitySet → Capability → Bool
  pub debug : Capability → String
  -- `AuditLog::default` and `AuditLog::log(actor, action, result)`.
  pub AuditLog : Type 0
  pub empty_log : AuditLog
  pub log : AuditLog → ObjectId → String → Bool → AuditLog
  -- `gpu_driver::GPUDriver`, the display side.
  pub Connector : Type 0
  pub Framebuffer : Type 0
  pub framebuffer_id : Framebuffer → ObjectId
  pub Display : Type 0
  pub new_display : ℕ → Display
  pub register_connector : Connector → Action Display (Unit {0})
  pub get_connector : ObjectId → Display → Option Connector
  pub allocate_framebuffer : ℕ → ℕ → Action Display Framebuffer
  pub page_flip : ObjectId → ObjectId → Action Display (Unit {0})
