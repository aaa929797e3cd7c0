-- ===== src/UnitTests/Runtime/Presentation.antt =====
-- `mod tests` of crates/graphics_runtime/src/lib.rs: the tests of the frames and the cursors.
use sher_graphics.Base.{
  ℕ, ◌==◌, Bool, true, false, not, ◌&&◌, List, [], ◌∷◌, arith, ==_refl, none, some,
}
use sher_graphics.Map.{get, insert, remove, modify}
use sher_graphics.Result.{Result, Action, pure, reads, ◌>>=◌, ◌>>◌}
use sher_graphics.Base.Int.{ℤ, pos, negsuc}
use sher_graphics.Kernel.{ObjectId, Platform}
use sher_graphics.GraphicsApi.{
  device_local, host_visible, buffer, image, rgba8_unorm, ImageUsage, default_buffer_usage,
}
use sher_graphics.GpuAbstraction.Software.{
  software, new as new_driver, new_device, with_devices, device_id, probe, initialize, set_state,
  allocate_vram, new_allocation, debit,
}
use sher_graphics.GraphicsRuntime.State.{GraphicsRuntime, new}
use sher_graphics.GraphicsRuntime.Objects.{create_device, create_resource, new_graphics_device}
use sher_graphics.GraphicsRuntime.Presentation.{
  register_connector, present_frame, set_cursor_image, set_cursor_position, show_cursor,
  hide_cursor, cursor_state,
}
use sher_graphics.UnitTests.{assert, result, is_none, is_err, AllPass}
use sher_graphics.UnitTests.Runtime.{Kit, IsLawful, with_device, full_caps_alloc}

-- `ImageUsage { sampled: true, ..Default::default() }`
abbrev sampled_usage : ImageUsage
sampled_usage = record {
  sampled = true;
  storage = false;
  color_attachment = false;
  depth_attachment = false;
  transfer_src = false;
  transfer_dst = false;
}

abbrev int_eq : ℤ → ℤ → Bool
int_eq (pos m) (pos n) = m == n
int_eq (negsuc m) (negsuc n) = m == n
int_eq _ _ = false

abbrev at : ℤ → ℤ → ℤ × ℤ → Bool
at x y p = int_eq p.0 x && int_eq p.1 y

module _ {K : Platform} (T : Kit K) (ids : ℕ → ObjectId) where
  abbrev registered_connector : Action (GraphicsRuntime K software) ObjectId
  registered_connector = do register_connector (T.connector (ids 5)); pure (ids 5)

  abbrev presentation_bridge_round_trip : Result (Unit {0})
  presentation_bridge_round_trip = with_device T ids λ device. do
    register_connector (T.connector (ids 5))
    framebuffer ← present_frame (ids 5) 1920 1080
    assert (not (framebuffer == T.nil))

  abbrev cursor_state_defaults_hidden_with_no_image : Result (Unit {0})
  cursor_state_defaults_hidden_with_no_image = with_device T ids λ device. do
    connector ← registered_connector
    state ← reads (cursor_state connector)
    assert (is_none state.image)
    assert (not state.visible)
    assert (at (pos 0) (pos 0) state.position)

  abbrev cursor_state_requires_known_connector : Result (Unit {0})
  cursor_state_requires_known_connector =
      with_device T ids λ device. do r ← result (reads (cursor_state (ids 5))); assert (is_err r)

  abbrev cursor_primitives_update_state_without_touching_input_or_display_semantics :
      Result (Unit {0})
  cursor_primitives_update_state_without_touching_input_or_display_semantics =
      with_device T ids λ device. do
        connector ← registered_connector
        picture ←
            create_resource (ids 6) device.id (image 32 32 1 rgba8_unorm sampled_usage) device_local
        set_cursor_image connector picture.id
        set_cursor_position connector (pos 42) (pos 17)
        show_cursor connector
        state ← reads (cursor_state connector)
        assert (elim state.image [ none ↦ false | some id ↦ id == picture.id ])
        assert (at (pos 42) (pos 17) state.position)
        assert state.visible
        hide_cursor connector
        hidden ← reads (cursor_state connector)
        assert (not hidden.visible)

  abbrev set_cursor_image_rejects_buffer_resource : Result (Unit {0})
  set_cursor_image_rejects_buffer_resource = with_device T ids λ device. do
    connector ← registered_connector
    bytes ← create_resource (ids 6) device.id (buffer 64 default_buffer_usage) host_visible
    r ← result (set_cursor_image connector bytes.id)
    assert (is_err r)

  abbrev set_cursor_image_rejects_unknown_resource : Result (Unit {0})
  set_cursor_image_rejects_unknown_resource = with_device T ids λ device. do
    connector ← registered_connector
    r ← result (set_cursor_image connector (ids 6))
    assert (is_err r)

  abbrev cursor_primitives_reject_unknown_connector : Result (Unit {0})
  cursor_primitives_reject_unknown_connector = with_device T ids λ device. do
    moved ← result (set_cursor_position (ids 5) (pos 1) (pos 1))
    assert (is_err moved)
    shown ← result (show_cursor (ids 5))
    assert (is_err shown)
    hidden ← result (hide_cursor (ids 5))
    assert (is_err hidden)

  abbrev pub presentation_tests : List (Result (Unit {0}))
  presentation_tests =
      presentation_bridge_round_trip ∷ cursor_state_defaults_hidden_with_no_image
      ∷ cursor_state_requires_known_connector
      ∷ cursor_primitives_update_state_without_touching_input_or_display_semantics
      ∷ set_cursor_image_rejects_buffer_resource ∷ set_cursor_image_rejects_unknown_resource
      ∷ cursor_primitives_reject_unknown_connector ∷ []

  module _ (lawful : IsLawful T) where
    pub presentation_tests-AllPass : AllPass presentation_tests
    unfolding new_driver new_device with_devices device_id probe initialize set_state allocate_vram
        new_allocation debit new create_device create_resource new_graphics_device
        register_connector present_frame set_cursor_image set_cursor_position show_cursor
        hide_cursor cursor_state get insert remove modify
    presentation_tests-AllPass =
        let full = full_caps_alloc lawful in
        let (display, takes, knows, shows) = lawful.registered (ids 5) in
        let allocated = shows.allocated in
        let flipped = shows.flipped in
        let drawn = shows.drawn in
        let unknown = lawful.no_connector (ids 5) in
        let r0 = ==_refl (ids 0) in
        let r1 = ==_refl (ids 1) in
        let r5 = ==_refl (ids 5) in
        let r6 = ==_refl (ids 6) in
        (
          ground arith,
          (
            ground arith,
            (ground arith, (ground arith, (ground arith, (ground arith, (ground arith, tt))))),
          ),
        )
