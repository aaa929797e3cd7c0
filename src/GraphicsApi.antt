-- ===== src/GraphicsApi.antt =====
-- crates/graphics_api/src/lib.rs: the object model that applications see, the capability check and
-- the recommended tiers. `u32`, `u64` and `usize` fields are natural numbers.
use sher_graphics.Base.{ℕ, Bool, true, false, ◌<>◌, Option, none, some, List, [], ◌∷◌, ◌++◌, ◌≡◌}
use sher_graphics.Base.{arith, if◌then◌else◌}
use sher_graphics.Result.{Result, ok, err, Error}
use sher_graphics.Kernel.{
  ObjectId, Platform, Capability, gpu_admin, gpu_command_submit, gpu_memory_alloc, other,
  PermissionTier, low, medium, high, critical,
}

pub data WorkloadClass : Type 0 where
  graphics compute transfer : WorkloadClass

-- The derived `PartialEq`.
abbrev pub class_eq : WorkloadClass → WorkloadClass → Bool
class_eq graphics graphics = true
class_eq compute compute = true
class_eq transfer transfer = true
class_eq _ _ = false

pub data MemoryClass : Type 0 where
  device_local host_visible host_visible_cached device_local_host_visible : MemoryClass

pub data PixelFormat : Type 0 where
  rgba8_unorm bgra8_unorm rgba16_float depth32_float : PixelFormat

pub record BufferUsage : Type 0 where
  pub vertex : Bool
  pub index : Bool
  pub uniform : Bool
  pub storage : Bool
  pub transfer_src : Bool
  pub transfer_dst : Bool

-- `BufferUsage::default()`
abbrev pub default_buffer_usage : BufferUsage
default_buffer_usage = record {
  vertex = false;
  index = false;
  uniform = false;
  storage = false;
  transfer_src = false;
  transfer_dst = false;
}

pub record ImageUsage : Type 0 where
  pub sampled : Bool
  pub storage : Bool
  pub color_attachment : Bool
  pub depth_attachment : Bool
  pub transfer_src : Bool
  pub transfer_dst : Bool

pub data ResourceKind : Type 0 where
  buffer : (size : ℕ) (usage : BufferUsage) → ResourceKind
  image : (width height depth : ℕ) (format : PixelFormat) (usage : ImageUsage) → ResourceKind

pub record Resource : Type 0 where
  pub id : ObjectId
  pub device : ObjectId
  pub kind : ResourceKind
  pub memory_class : MemoryClass

pub data ShaderStage : Type 0 where
  vertex fragment compute : ShaderStage

pub record ShaderModule : Type 0 where
  pub id : ObjectId
  pub device : ObjectId
  pub stage : ShaderStage
  pub ir : List ℕ

pub record Pipeline : Type 0 where
  pub id : ObjectId
  pub device : ObjectId
  pub class : WorkloadClass
  pub shader : ObjectId

pub data GraphicsOp : Type 0 where
  bind_pipeline : ObjectId → GraphicsOp
  bind_resource : (binding : ℕ) (resource : ObjectId) → GraphicsOp
  draw : (vertex_count instance_count : ℕ) → GraphicsOp
  dispatch : (x y z : ℕ) → GraphicsOp
  copy : (src dst : ObjectId) → GraphicsOp
  barrier : GraphicsOp

pub record CommandStream : Type 0 where
  pub id : ObjectId
  pub device : ObjectId
  pub target_class : WorkloadClass
  pub ops : List GraphicsOp

unfoldable pub push : CommandStream → GraphicsOp → CommandStream
push s op = record s { ops = s.ops ++ op ∷ [] }

pub record QueueHandle : Type 0 where
  pub id : ObjectId
  pub class : WorkloadClass

pub record GraphicsDevice : Type 0 where
  pub id : ObjectId
  pub gpu : ObjectId
  pub queues : List QueueHandle

-- `queues.iter().copied().find(|q| q.class == class)`
unfoldable pub find_queue : WorkloadClass → List QueueHandle → Option QueueHandle
find_queue c [] = none
find_queue c (q ∷ qs) = if class_eq q.class c then some q else find_queue c qs

unfoldable pub queue : GraphicsDevice → WorkloadClass → Option QueueHandle
unfolding find_queue
queue d c = find_queue c d.queues

pub record Timeline : Type 0 where
  pub id : ObjectId
  pub device : ObjectId
  pub current_value : ℕ

unfoldable pub require_capability :
    (K : Platform) → K.CapabilitySet → Capability → Result (Unit {0})
require_capability K caps c =
    if K.has_capability caps c
    then ok tt
    else err (Error.security ("missing required capability: " <> K.debug c))

unfoldable pub default_tier : Capability → PermissionTier
default_tier gpu_admin = critical
default_tier gpu_command_submit = high
default_tier gpu_memory_alloc = medium
default_tier (other n) = low

pub class_eq→eq : (a b : WorkloadClass) → class_eq a b ≡ true → a ≡ b
class_eq→eq a b h = ground arith

pub class_eq_refl : (a : WorkloadClass) → class_eq a a ≡ true
class_eq_refl a = ground arith
