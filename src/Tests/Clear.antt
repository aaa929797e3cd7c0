-- ===== src/Tests/Clear.antt =====
-- A render on a queue that does what Vulkan promises.
use sher_graphics.Base.{ℕ, none, List, [], ◌∷◌}
use sher_graphics.VulkanBackend.Render.{Vulkan}
use sher_graphics.VulkanBackend.Recording.{
  ImageLayout, undefined, Command, pipeline_barrier, clear_color_image, copy_image_to_buffer, rows,
  Queue,
}
use sher_graphics.Tests.Render.{ash, hanging}

-- An image of one color, and the buffer.
record Plain : Type 0 where
  layout : ImageLayout
  texel : List ℕ
  buffer : List ℕ

abbrev shade : ℕ → List ℕ
shade c = c ∷ c ∷ c ∷ 255 ∷ []

abbrev carry_out : Command ℕ → Plain → Plain
carry_out (pipeline_barrier src dst b) s = record s { layout = b.new_layout }
carry_out (clear_color_image l c) s = record s { texel = shade c }
carry_out (copy_image_to_buffer l width height) s = record s {
  buffer = rows (λ x y. s.texel) width height 0;
}

abbrev plain : Queue ℕ
plain = record {
  State = Plain;
  execute = carry_out;
  layout = λ s. s.layout;
  texel = λ s x y. s.texel;
  buffer = λ s. s.buffer;
  encode = shade;
}

abbrev start : Plain
start = record { layout = undefined; texel = []; buffer = [] }

-- Two pixels of shade 9.
abbrev serving : Vulkan ash
serving = record hanging {
  wait_for_fences = none;
  mapped_bytes = λ size. 9 ∷ 9 ∷ 9 ∷ 255 ∷ 9 ∷ 9 ∷ 9 ∷ 255 ∷ [];
}
