-- ===== src/VulkanBackend.antt =====
-- crates/vulkan_backend/src/lib.rs: the errors, the choice of a memory type, and the offscreen
-- render with every exit it takes.
pub mod Render
pub mod Cleanup
pub mod Choice
pub mod Context
pub mod Recording
use sher_graphics.Base.{
  ℕ, zero, suc, ◌+◌, ◌<>◌, decimal, ◌==◌, ◌&&◌, Bool, true, false, String, Option, none, some,
  if◌then◌else◌,
}
use Prim.Native.Nat.{◌/◌, ◌%◌, ◌^◌}

-- What the sources take from the `ash` binding: `vk::Result` and the memory property flags.
pub record Ash : Type 1 where
  pub VkResult : Type 0
  pub is_device_lost : VkResult → Bool
  pub print : VkResult → String
  pub Flags : Type 0
  pub contains : Flags → Flags → Bool
  pub device_local : Flags
  pub host_visible_coherent : Flags

pub data VulkanError (A : Ash) : Type 0 where
  loader_unavailable device_lost no_suitable_device : String → VulkanError A
  vulkan : A.VkResult → VulkanError A
  invalid_dimensions : (width height : ℕ) → VulkanError A

-- `impl fmt::Display for VulkanError`
unfoldable pub print_vulkan_error : {A : Ash} → VulkanError A → String
print_vulkan_error (loader_unavailable msg) = "Vulkan loader/ICD unavailable: " <> msg
print_vulkan_error {A} (vulkan result) = "Vulkan call failed: " <> A.print result
print_vulkan_error (device_lost msg) = "Vulkan device lost: " <> msg
print_vulkan_error (no_suitable_device msg) = "no suitable Vulkan device: " <> msg
print_vulkan_error (invalid_dimensions width height) =
    "invalid image dimensions: "
    <> decimal width
    <> "x"
    <> decimal height
    <> " (both must be non-zero)"

-- `impl From<vk::Result> for VulkanError`
unfoldable pub from_vk : (A : Ash) → A.VkResult → VulkanError A
from_vk A r = if A.is_device_lost r then device_lost (A.print r) else vulkan r

-- `vk::PhysicalDeviceMemoryProperties`
pub record MemoryProperties (A : Ash) : Type 0 where
  pub memory_type_count : ℕ
  pub property_flags : ℕ → A.Flags

-- `type_bits & (1 << i) != 0`
abbrev pub has_bit : ℕ → ℕ → Bool
has_bit bits i = bits / 2 ^ i % 2 == 1

module _ {A : Ash} where
  -- The test of one memory type.
  abbrev pub suits : MemoryProperties A → ℕ → A.Flags → ℕ → Bool
  suits props type_bits required i =
      has_bit type_bits i && A.contains (props.property_flags i) required

  -- `(i..i + rounds).find(..)`
  unfoldable pub find_from : MemoryProperties A → ℕ → A.Flags → ℕ → ℕ → Option ℕ
  find_from props type_bits required zero i = none
  find_from props type_bits required (suc rounds) i =
      let rest = find_from props type_bits required rounds (suc i) in
      if suits props type_bits required i then some i else rest

  unfoldable pub find_memory_type : MemoryProperties A → ℕ → A.Flags → Option ℕ
  unfolding find_from
  find_memory_type props type_bits required =
      find_from props type_bits required props.memory_type_count 0
