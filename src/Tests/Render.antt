-- ===== src/Tests/Render.antt =====
-- Renders on a Vulkan implementation whose wait for the fence fails.
use sher_graphics.Base.{ℕ, ◌≡◌, refl, true, false, not, ◌&&◌, none, some, [], ◌∷◌, ◌==◌}
use sher_graphics.VulkanBackend.{Ash, MemoryProperties, find_memory_type}
use sher_graphics.VulkanBackend.Render.{Vulkan, render_clear_to_offscreen}
use sher_graphics.VulkanBackend.Cleanup.{
  nothing, balanced, settled, submitted, gives_up, render_balanced, render_settled,
}

-- Results and flags are numbers; 4 is the loss of the device.
abbrev pub ash : Ash
ash = record {
  VkResult = ℕ;
  is_device_lost = λ r. r == 4;
  print = λ r. "error";
  Flags = ℕ;
  contains = λ have want. have == want;
  device_local = 1;
  host_visible_coherent = 2;
}

abbrev pub memory : MemoryProperties ash
memory = record { memory_type_count = 3; property_flags = λ i. i }

abbrev pub hanging : Vulkan ash
hanging = record {
  enumerate_physical_devices = none;
  has_physical_device = true;
  queue_family_index = some 0;
  enumerate_device_extensions = none;
  create_device = none;
  memory_properties = memory;
  create_image = none;
  image_type_bits = 7;
  allocate_image_memory = none;
  bind_image_memory = none;
  create_buffer = λ size. none;
  buffer_type_bits = 7;
  allocate_buffer_memory = none;
  bind_buffer_memory = none;
  create_command_pool = none;
  allocate_command_buffers = none;
  begin_command_buffer = none;
  end_command_buffer = none;
  create_fence = none;
  queue_submit = none;
  wait_for_fences = some 4;
  map_memory = none;
  mapped_bytes = λ size. 0 ∷ 0 ∷ 0 ∷ 255 ∷ [];
}

render_balanced_example : balanced (render_clear_to_offscreen hanging 1 1 []).1 nothing ≡ true
render_balanced_example = render_balanced hanging 1 1

-- An implementation whose wait runs out of memory.
abbrev starving : Vulkan ash
starving = record hanging { wait_for_fences = some 2 }

render_settled_example :
    settled (render_clear_to_offscreen starving 1 1 []).1 false
    ≡ not (
        submitted (render_clear_to_offscreen starving 1 1 []).1
        && gives_up ash starving.wait_for_fences)
render_settled_example = render_settled starving 1 1

-- There the objects go while the work is pending, and after a lost device they do not.
starving_pending : settled (render_clear_to_offscreen starving 1 1 []).1 false ≡ false
unfolding render_clear_to_offscreen find_memory_type
starving_pending = refl

settled-hanging : settled (render_clear_to_offscreen hanging 1 1 []).1 false ≡ true
unfolding render_clear_to_offscreen find_memory_type
settled-hanging = refl
