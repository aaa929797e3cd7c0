-- ===== src/UnitTests/Types.antt =====
-- The unit tests of crates/graphics_api/src/lib.rs.
use sher_graphics.Base.{
  ℕ, refl, ◌==◌, Bool, true, false, not, ◌&&◌, is_some, List, [], ◌∷◌, arith, length,
}
use sher_graphics.Result.{Result, Action, is_ok, ◌>>◌}
use sher_graphics.Kernel.{
  ObjectId, Platform, gpu_admin, gpu_command_submit, gpu_memory_alloc, PermissionTier, low, medium,
  high, critical,
}
use sher_graphics.GraphicsApi.{
  graphics, compute, transfer, host_visible, buffer, image, BufferUsage, default_buffer_usage,
  CommandStream, push, bind_pipeline, draw, GraphicsDevice, queue, Resource, require_capability,
  default_tier,
}
use sher_graphics.UnitTests.{assert, is_none, is_err, AllPass}
use sher_graphics.UnitTests.Runtime.{Kit, IsLawful, caps_with}

abbrev tier_eq : PermissionTier → PermissionTier → Bool
tier_eq low low = true
tier_eq medium medium = true
tier_eq high high = true
tier_eq critical critical = true
tier_eq _ _ = false

-- A test that works on no state.
abbrev alone : Action (Unit {0}) (Unit {0}) → Result (Unit {0})
alone test = (test tt).0

module _ {K : Platform} (T : Kit K) (ids : ℕ → ObjectId) where
  abbrev command_stream_records_ops : Result (Unit {0})
  command_stream_records_ops = alone (do
    let stream : CommandStream = record {
      id = ids 0;
      device = ids 1;
      target_class = graphics;
      ops = [];
    }
    assert (length (push (push stream (bind_pipeline (ids 2))) (draw 3 1)).ops == 2))

  abbrev device_finds_queue_by_class : Result (Unit {0})
  device_finds_queue_by_class = alone (do
    let device : GraphicsDevice = record {
      id = ids 0;
      gpu = ids 1;
      queues =
          record { id = ids 2; class = graphics } ∷ record { id = ids 3; class = compute } ∷ [];
    }
    assert (is_some (queue device graphics))
    assert (is_none (queue device transfer)))

  abbrev capability_check_rejects_missing_grant : Result (Unit {0})
  capability_check_rejects_missing_grant =
      alone (assert (is_err (require_capability K T.default_caps gpu_command_submit)))

  abbrev capability_check_accepts_valid_grant : Result (Unit {0})
  capability_check_accepts_valid_grant =
      alone
        (assert (is_ok (require_capability K (caps_with T gpu_command_submit) gpu_command_submit)))

  abbrev default_tiers_match_capability_sensitivity : Result (Unit {0})
  default_tiers_match_capability_sensitivity = alone (do
    assert (tier_eq (default_tier gpu_admin) critical)
    assert (tier_eq (default_tier gpu_command_submit) high)
    assert (tier_eq (default_tier gpu_memory_alloc) medium))

  abbrev resource_kind_buffer_construction : Result (Unit {0})
  resource_kind_buffer_construction = alone (do
    let usage : BufferUsage = record default_buffer_usage { uniform = true }
    let resource : Resource = record {
      id = ids 0;
      device = ids 1;
      kind = buffer 4096 usage;
      memory_class = host_visible;
    }
    assert (elim resource.kind [
      | buffer size u ↦ (size == 4096) && u.uniform && not u.vertex
      | image w h d f u ↦ false
    ]))

  abbrev pub type_tests : List (Result (Unit {0}))
  type_tests =
      command_stream_records_ops ∷ device_finds_queue_by_class
      ∷ capability_check_rejects_missing_grant ∷ capability_check_accepts_valid_grant
      ∷ default_tiers_match_capability_sensitivity ∷ resource_kind_buffer_construction ∷ []

  module _ (lawful : IsLawful T) where
    pub type_tests-AllPass : AllPass type_tests
    unfolding push queue require_capability default_tier
    type_tests-AllPass =
        let nothing = lawful.nothing gpu_command_submit in
        let granted = lawful.granted gpu_command_submit gpu_command_submit T.default_caps in
        (refl, (refl, (ground arith, (ground arith, (refl, (refl, tt))))))
