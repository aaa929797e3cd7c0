-- ===== src/VulkanBackend/Cleanup.antt =====
-- What a render leaves behind, on every exit.
use sher_graphics.Base.{
  ℕ, ◌≡◌, Bool, true, false, not, ◌&&◌, ◌||◌, ◌==◌, arith, List, [], ◌∷◌, Option, none, some,
  is_some, if◌then◌else◌, ◌*ʷ◌,
}
use sher_graphics.VulkanBackend.{Ash, find_memory_type}
use sher_graphics.VulkanBackend.Render.{
  Object, device, image, image_memory, readback_buffer, buffer_memory, command_pool, fence, Event,
  creates, destroys, queue_submits, work_completes, maps, Vulkan, Rendered, done, failed,
  render_clear_to_offscreen,
}

abbrev object_eq : Object → Object → Bool
object_eq device device = true
object_eq image image = true
object_eq image_memory image_memory = true
object_eq readback_buffer readback_buffer = true
object_eq buffer_memory buffer_memory = true
object_eq command_pool command_pool = true
object_eq fence fence = true
object_eq _ _ = false

-- The objects that are alive, before the first call none.
abbrev pub nothing : Object → Bool
nothing o = false

abbrev set : Object → Bool → (Object → Bool) → Object → Bool
set o b live x = if object_eq x o then b else live x

-- Every object is created while it is not there and destroyed while it is, and none is left.
abbrev pub balanced : List Event → (Object → Bool) → Bool
balanced [] live = not (
    live device
    || live image
    || live image_memory
    || live readback_buffer
    || live buffer_memory
    || live command_pool
    || live fence)
balanced (creates o ∷ es) live = not (live o) && balanced es (set o true live)
balanced (destroys o ∷ es) live = live o && balanced es (set o false live)
balanced (e ∷ es) live = balanced es live

-- Nothing is destroyed or mapped while submitted work is pending.
abbrev pub settled : List Event → Bool → Bool
settled [] pending = true
settled (queue_submits ∷ es) pending = settled es true
settled (work_completes ∷ es) pending = settled es false
settled (destroys o ∷ es) pending = not pending && settled es pending
settled (maps ∷ es) pending = not pending && settled es pending
settled (e ∷ es) pending = settled es pending

abbrev pub submitted : List Event → Bool
submitted [] = false
submitted (queue_submits ∷ es) = true
submitted (e ∷ es) = submitted es

-- A wait that fails while the work may go on.
abbrev pub gives_up : (A : Ash) → Option A.VkResult → Bool
gives_up A none = false
gives_up A (some e) = not (A.is_device_lost e)

module _ {A : Ash} (vk : Vulkan A) (width height : ℕ) where
  -- Whatever the Vulkan implementation answers, a render destroys what it has created, each object
  -- once and only while it is alive.
  pub render_balanced : balanced (render_clear_to_offscreen vk width height []).1 nothing ≡ true
  unfolding render_clear_to_offscreen
  render_balanced = ground arith

  -- A render destroys or maps objects while submitted work is pending exactly if it has submitted
  -- work and the wait for the fence fails without the loss of the device, which would end the work.
  pub render_settled :
      settled (render_clear_to_offscreen vk width height []).1 false
      ≡ not (
          submitted (render_clear_to_offscreen vk width height []).1
          && gives_up A vk.wait_for_fences)
  unfolding render_clear_to_offscreen
  render_settled = ground arith

abbrev pub pixels : {A : Ash} → Rendered A (List ℕ) → Option (List ℕ)
pixels (done bytes) = some bytes
pixels (failed e) = none

module _ {A : Ash} (vk : Vulkan A) (width height : ℕ) where
  -- The extents are not 0, a device, a queue family and the memory types are there, and every call
  -- succeeds.
  abbrev pub served : Bool
  served =
      not (width == 0)
      && not (height == 0)
      && not (is_some vk.enumerate_physical_devices)
      && vk.has_physical_device
      && is_some vk.queue_family_index
      && not (is_some vk.enumerate_device_extensions)
      && not (is_some vk.create_device)
      && not (is_some vk.create_image)
      && is_some (find_memory_type vk.memory_properties vk.image_type_bits A.device_local)
      && not (is_some vk.allocate_image_memory)
      && not (is_some vk.bind_image_memory)
      && not (is_some (vk.create_buffer (width *ʷ height *ʷ 4)))
      && is_some (find_memory_type vk.memory_properties vk.buffer_type_bits A.host_visible_coherent)
      && not (is_some vk.allocate_buffer_memory)
      && not (is_some vk.bind_buffer_memory)
      && not (is_some vk.create_command_pool)
      && not (is_some vk.allocate_command_buffers)
      && not (is_some vk.begin_command_buffer)
      && not (is_some vk.end_command_buffer)
      && not (is_some vk.create_fence)
      && not (is_some vk.queue_submit)
      && not (is_some vk.wait_for_fences)
      && not (is_some vk.map_memory)

  -- A render returns pixels exactly if the extents are not 0, everything it looks for is there and
  -- every call succeeds; they are the bytes of the mapped readback buffer, 4 a pixel.
  pub render_pixels :
      pixels (render_clear_to_offscreen vk width height []).0
      ≡ (if served then some (vk.mapped_bytes (width *ʷ height *ʷ 4)) else none)
  unfolding render_clear_to_offscreen
  render_pixels = ground arith
