-- ===== src/VulkanBackend/Render.antt =====
-- `render_clear_to_offscreen` and `render_clear_inner`, as the calls they make on a Vulkan device.
use sher_graphics.Base.{
  ℕ, ◌==◌, ◌||◌, Bool, String, Option, none, some, List, [], ◌∷◌, ◌++◌, ◌*ʷ◌, if◌then◌else◌,
}
use sher_graphics.VulkanBackend.{
  Ash, VulkanError, no_suitable_device, invalid_dimensions, from_vk, MemoryProperties,
  find_memory_type,
}

-- The objects that one render creates, each at most once.
pub data Object : Type 0 where
  device image image_memory readback_buffer buffer_memory command_pool fence : Object

-- The calls that create, destroy, map or submit; `work_completes` is where submitted work is no longer
-- pending.
pub data Event : Type 0 where
  creates destroys : Object → Event
  queue_submits work_completes maps unmaps : Event

-- The answers of a Vulkan implementation: `none` is success.
pub record Vulkan (A : Ash) : Type 0 where
  pub enumerate_physical_devices : Option A.VkResult
  pub has_physical_device : Bool
  -- The first queue family with graphics and transfer.
  pub queue_family_index : Option ℕ
  pub enumerate_device_extensions : Option A.VkResult
  pub create_device : Option A.VkResult
  pub memory_properties : MemoryProperties A
  pub create_image : Option A.VkResult
  pub image_type_bits : ℕ
  pub allocate_image_memory : Option A.VkResult
  pub bind_image_memory : Option A.VkResult
  pub create_buffer : ℕ → Option A.VkResult
  pub buffer_type_bits : ℕ
  pub allocate_buffer_memory : Option A.VkResult
  pub bind_buffer_memory : Option A.VkResult
  pub create_command_pool : Option A.VkResult
  pub allocate_command_buffers : Option A.VkResult
  pub begin_command_buffer : Option A.VkResult
  pub end_command_buffer : Option A.VkResult
  pub create_fence : Option A.VkResult
  pub queue_submit : Option A.VkResult
  pub wait_for_fences : Option A.VkResult
  pub map_memory : Option A.VkResult
  -- The bytes of the mapped range.
  pub mapped_bytes : ℕ → List ℕ

pub data Rendered (A : Ash) (T : Type 0) : Type 0 where
  done : T → Rendered A T
  failed : VulkanError A → Rendered A T

-- A run, given the events so far.
abbrev pub Run : Ash → Type 0 → Type 0
Run A T = List Event → Rendered A T × List Event

module _ {A : Ash} where
  infixl 5 ◌>>=◌ ◌>>◌
  abbrev pub ◌>>=◌ : {S T : Type 0} → Run A S → (S → Run A T) → Run A T
  ◌>>=◌ m f t = let (r, t') = m t in elim r [ done s ↦ f s t' | failed e ↦ (failed e, t') ]

  abbrev pub ◌>>◌ : {S T : Type 0} → Run A S → Run A T → Run A T
  m >> k = m >>= λ _. k

  abbrev pub emit : List Event → Run A (Unit {0})
  emit es t = (done tt, t ++ es)

  -- A fallible call, with what its error arm cleans up.
  abbrev pub attempt : Option A.VkResult → List Event → Run A (Unit {0})
  attempt none cleanup t = (done tt, t)
  attempt (some e) cleanup t = (failed (from_vk A e), t ++ cleanup)

  -- A choice that may find nothing, with what its error arm cleans up.
  abbrev pub choose : Option ℕ → String → List Event → Run A (Unit {0})
  choose (some i) message cleanup t = (done tt, t)
  choose none message cleanup t = (failed (no_suitable_device message), t ++ cleanup)

abbrev pub cleanup_image : List Event
cleanup_image = destroys image ∷ destroys image_memory ∷ []

abbrev pub cleanup_buffer : List Event
cleanup_buffer = destroys readback_buffer ∷ destroys buffer_memory ∷ []

-- What the arms after the command pool clean up.
abbrev pub cleanup_pool : List Event
cleanup_pool = destroys command_pool ∷ cleanup_buffer ++ cleanup_image

module _ {A : Ash} (vk : Vulkan A) where
  -- The image, its memory, and the binding of the two.
  unfoldable pub make_image : Run A (Unit {0})
  make_image = do
    attempt vk.create_image []
    emit (creates image ∷ [])
    choose (find_memory_type vk.memory_properties vk.image_type_bits A.device_local)
        "no DEVICE_LOCAL memory type for image" (destroys image ∷ [])
    attempt vk.allocate_image_memory (destroys image ∷ [])
    emit (creates image_memory ∷ [])
    attempt vk.bind_image_memory (destroys image_memory ∷ destroys image ∷ [])

  -- The readback buffer, its memory, and the binding of the two.
  unfoldable pub make_buffer : ℕ → Run A (Unit {0})
  make_buffer buffer_size = do
    attempt (vk.create_buffer buffer_size) cleanup_image
    emit (creates readback_buffer ∷ [])
    choose (find_memory_type vk.memory_properties vk.buffer_type_bits A.host_visible_coherent)
        "no HOST_VISIBLE|HOST_COHERENT memory type for readback buffer"
        (destroys readback_buffer ∷ cleanup_image)
    attempt vk.allocate_buffer_memory (destroys readback_buffer ∷ cleanup_image)
    emit (creates buffer_memory ∷ [])
    attempt vk.bind_buffer_memory
        (destroys buffer_memory ∷ destroys readback_buffer ∷ cleanup_image)

  -- The command pool, the recording, and the fence.
  unfoldable pub record_commands : Run A (Unit {0})
  record_commands = do
    attempt vk.create_command_pool (cleanup_buffer ++ cleanup_image)
    emit (creates command_pool ∷ [])
    attempt vk.allocate_command_buffers cleanup_pool
    attempt vk.begin_command_buffer cleanup_pool
    attempt vk.end_command_buffer cleanup_pool
    attempt vk.create_fence cleanup_pool
    emit (creates fence ∷ [])

  -- Where a wait for the fence leaves no work pending: it succeeds, or the device is lost, which Vulkan
  -- counts like success here.
  abbrev pub over : Option A.VkResult → List Event
  over none = work_completes ∷ []
  over (some e) = if A.is_device_lost e then work_completes ∷ [] else []

  -- `submit_result` and `pixels`, whose errors do not return.
  unfoldable pub read_pixels : ℕ → Run A (List ℕ)
  read_pixels buffer_size = do
    attempt vk.queue_submit []
    emit (queue_submits ∷ [])
    emit (over vk.wait_for_fences)
    attempt vk.wait_for_fences []
    attempt vk.map_memory []
    emit (maps ∷ unmaps ∷ [])
    λ t. (done (vk.mapped_bytes buffer_size), t)

  -- The common end.
  abbrev pub finish : {T : Type 0} → Rendered A T × List Event → Rendered A T × List Event
  finish (r, t) = (r, t ++ destroys fence ∷ cleanup_pool)

  unfoldable pub render_clear_inner : ℕ → ℕ → ℕ → Run A (List ℕ)
  unfolding make_image make_buffer record_commands read_pixels
  render_clear_inner width height bytes_per_pixel = do
    make_image
    make_buffer (width *ʷ height *ʷ bytes_per_pixel)
    record_commands
    λ t. finish (read_pixels (width *ʷ height *ʷ bytes_per_pixel) t)

  -- The end of `render_clear_to_offscreen`.
  abbrev pub close : {T : Type 0} → Rendered A T × List Event → Rendered A T × List Event
  close (r, t) = (r, t ++ destroys device ∷ [])

  unfoldable pub render_clear_to_offscreen : ℕ → ℕ → Run A (List ℕ)
  unfolding render_clear_inner
  render_clear_to_offscreen width height t =
      if (width == 0) || (height == 0)
      then (failed (invalid_dimensions width height), t)
      else (do
        attempt vk.enumerate_physical_devices []
        choose (if vk.has_physical_device then some 0 else none)
            "vkEnumeratePhysicalDevices returned zero devices" []
        choose vk.queue_family_index "no queue family supports GRAPHICS | TRANSFER" []
        attempt vk.enumerate_device_extensions []
        attempt vk.create_device []
        emit (creates device ∷ [])
        λ s. close (render_clear_inner width height 4 s))
          t
