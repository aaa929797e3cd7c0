-- ===== src/UnitTests/Runtime/Submission.antt =====
-- `mod tests` of crates/graphics_runtime/src/lib.rs: the tests of `submit`, of the
-- timelines and of the validation of streams.
use sher_graphics.Base.{ℕ, ◌==◌, true, false, not, List, [], ◌∷◌, arith, ==_refl}
use sher_graphics.Map.{get, insert, remove, modify}
use sher_graphics.Result.{Result, ok, reads, is_ok, ◌>>=◌, ◌>>◌}
use sher_graphics.Kernel.{ObjectId, Platform, gpu_memory_alloc}
use sher_graphics.GraphicsApi.{
  WorkloadClass, graphics, compute, transfer, vertex, queue, push, GraphicsOp, bind_pipeline,
  bind_resource, draw, copy,
}
use sher_graphics.GpuAbstraction.Software.{
  software, new as new_driver, new_device, with_devices, device_id, probe, initialize, set_state,
  submit as driver_submit,
}
use sher_graphics.GraphicsRuntime.State.{new, audit_log}
use sher_graphics.GraphicsRuntime.Objects.{
  create_device, create_timeline, create_command_stream, create_shader_module, create_pipeline,
  new_graphics_device,
}
use sher_graphics.GraphicsRuntime.Submit.{submit, submit_to_driver, contain, wait, timeline_value}
use sher_graphics.GraphicsRuntime.Stream.{validate_stream, translate_ops}
use sher_graphics.UnitTests.{assert, result, unwrap, last, text_eq, is_err, AllPass, AreDistinct}
use sher_graphics.UnitTests.Runtime.{
  Kit, IsLawful, caps_with, four, on_new, with_device, full_caps_alloc, full_caps_submit,
  caps_with_own, caps_with_other,
}

module _ {K : Platform} (T : Kit K) (ids : ℕ → ObjectId) where
  abbrev submit_advances_timeline : Result (Unit {0})
  submit_advances_timeline = with_device T ids λ device. do
    timeline ← create_timeline (ids 5) device.id
    stream ← create_command_stream (ids 6) device.id graphics
    on ← unwrap (queue device graphics)
    submit on stream timeline.id 1
    value ← reads (timeline_value timeline.id)
    assert (value == 1)
    reached ← result (reads (wait timeline.id 1))
    assert (is_ok reached)
    missed ← result (reads (wait timeline.id 2))
    assert (is_err missed)

  abbrev submit_requires_gpu_command_submit_capability : Result (Unit {0})
  submit_requires_gpu_command_submit_capability =
      on_new K software (λ d. d) (ids 0) 67108864 1024
        λ gpu. do
          device ← create_device (four ids 1) gpu (caps_with T gpu_memory_alloc)
          timeline ← create_timeline (ids 5) device.id
          stream ← create_command_stream (ids 6) device.id graphics
          on ← unwrap (queue device graphics)
          r ← result (submit on stream timeline.id 1)
          assert (is_err r)
          audit ← reads λ rt. ok (audit_log rt)
          entry ← unwrap (last (T.events audit))
          assert (entry.actor == device.id)
          assert (text_eq entry.action "submit")
          assert (not entry.result)

  abbrev submit_rejects_mismatched_workload_class : Result (Unit {0})
  submit_rejects_mismatched_workload_class = with_device T ids λ device. do
    timeline ← create_timeline (ids 5) device.id
    stream ← create_command_stream (ids 6) device.id compute
    on ← unwrap (queue device graphics)
    r ← result (submit on stream timeline.id 1)
    assert (is_err r)

  abbrev submit_requires_monotonic_timeline_value : Result (Unit {0})
  submit_requires_monotonic_timeline_value = with_device T ids λ device. do
    timeline ← create_timeline (ids 5) device.id
    on ← unwrap (queue device transfer)
    first ← create_command_stream (ids 6) device.id transfer
    submit on first timeline.id 5
    second ← create_command_stream (ids 7) device.id transfer
    r ← result (submit on second timeline.id 5)
    assert (is_err r)

  -- The tests that submit one operation to the first value of a new timeline, and expect an error.
  abbrev refused : WorkloadClass → GraphicsOp → Result (Unit {0})
  refused class op = with_device T ids λ device. do
    timeline ← create_timeline (ids 5) device.id
    on ← unwrap (queue device class)
    stream ← create_command_stream (ids 6) device.id class
    r ← result (submit on (push stream op) timeline.id 1)
    assert (is_err r)

  abbrev submit_rejects_draw_without_bound_pipeline : Result (Unit {0})
  submit_rejects_draw_without_bound_pipeline = refused graphics (draw 3 1)

  abbrev submit_rejects_bind_pipeline_unknown : Result (Unit {0})
  submit_rejects_bind_pipeline_unknown = refused graphics (bind_pipeline (ids 7))

  abbrev submit_rejects_bind_resource_unknown : Result (Unit {0})
  submit_rejects_bind_resource_unknown = refused graphics (bind_resource 0 (ids 7))

  abbrev submit_rejects_copy_with_unknown_resource : Result (Unit {0})
  submit_rejects_copy_with_unknown_resource = refused transfer (copy (ids 7) (ids 8))

  abbrev submit_accepts_draw_after_bind_pipeline : Result (Unit {0})
  submit_accepts_draw_after_bind_pipeline = with_device T ids λ device. do
    timeline ← create_timeline (ids 5) device.id
    on ← unwrap (queue device graphics)
    shader ← create_shader_module (ids 6) device.id vertex (0 ∷ 0 ∷ 0 ∷ 0 ∷ [])
    pipeline ← create_pipeline (ids 7) device.id shader.id graphics
    stream ← create_command_stream (ids 8) device.id graphics
    r ← result (submit on (push (push stream (bind_pipeline pipeline.id)) (draw 3 1)) timeline.id 1)
    assert (is_ok r)

  abbrev pub submission_tests : List (Result (Unit {0}))
  submission_tests =
      submit_advances_timeline ∷ submit_requires_gpu_command_submit_capability
      ∷ submit_rejects_mismatched_workload_class ∷ submit_requires_monotonic_timeline_value
      ∷ submit_rejects_draw_without_bound_pipeline ∷ submit_rejects_bind_pipeline_unknown
      ∷ submit_rejects_bind_resource_unknown ∷ submit_rejects_copy_with_unknown_resource
      ∷ submit_accepts_draw_after_bind_pipeline ∷ []

  module _ (lawful : IsLawful T) (distinct : AreDistinct ids) where
    pub submission_tests-AllPass : AllPass submission_tests
    unfolding new_driver new_device with_devices device_id probe initialize set_state new audit_log
        create_device create_timeline create_command_stream create_shader_module create_pipeline
        new_graphics_device queue push submit submit_to_driver contain wait timeline_value
        driver_submit validate_stream translate_ops get insert remove modify
    submission_tests-AllPass =
        let alloc = caps_with_own lawful in
        let no_submit = caps_with_other lawful in
        let full = full_caps_alloc lawful in
        let full_submit = full_caps_submit lawful in
        let events =
          lawful.logged (K.log K.empty_log (ids 0) "create_device" true) (ids 1) "submit" false in
        let earlier = lawful.logged K.empty_log (ids 0) "create_device" true in
        let no_events = lawful.no_events in
        let r0 = ==_refl (ids 0) in
        let r1 = ==_refl (ids 1) in
        let r5 = ==_refl (ids 5) in
        let r6 = ==_refl (ids 6) in
        let r7 = ==_refl (ids 7) in
        (
          ground arith,
          (
            ground arith,
            (
              ground arith,
              (
                ground arith,
                (ground arith, (ground arith, (ground arith, (ground arith, (ground arith, tt))))),
              ),
            ),
          ),
        )
