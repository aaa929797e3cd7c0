-- ===== src/UnitTests/Runtime/Panicking.antt =====
-- `mod tests` of crates/graphics_runtime/src/lib.rs: the tests with `PanickingDriver`.
use sher_graphics.Base.{ℕ, refl, ◌==◌, false, not, is_some, List, [], ◌∷◌, arith, ==_refl, String}
use sher_graphics.Map.{get, insert, remove, modify, retain}
use sher_graphics.Result.{Result, ok, err, reads, ◌>>=◌, ◌>>◌}
use sher_graphics.Kernel.{ObjectId, Platform}
use sher_graphics.GraphicsApi.{WorkloadClass, graphics, queue}
use sher_graphics.GpuAbstraction.{GpuDriver, DriverOp, Outcome, panicked, str}
use sher_graphics.GpuAbstraction.Software.{
  SoftwareGpuDriver, software, new as new_driver, new_device, with_devices, device_id, probe,
  initialize, set_state, fault_status, reset_device, mark_faulted, inject_fault,
}
use sher_graphics.GraphicsRuntime.State.{new, device}
use sher_graphics.GraphicsRuntime.Objects.{
  create_device, create_timeline, create_command_stream, new_graphics_device,
}
use sher_graphics.GraphicsRuntime.Stream.{validate_stream, translate_ops}
use sher_graphics.GraphicsRuntime.Submit.{
  submit, submit_to_driver, contain, timeline_value, panic_error, panic_message,
}
use sher_graphics.GraphicsRuntime.Recover.{device_fault, recover_device, tear_down}
use sher_graphics.UnitTests.{assert, result, unwrap, contains, is_err, AllPass, AreDistinct}
use sher_graphics.UnitTests.Runtime.{
  Kit, IsLawful, full_caps, admin_caps, four, on_new, full_caps_alloc, full_caps_submit,
  admin_caps_admin,
}

abbrev pub panicking_submit :
    ObjectId
    → WorkloadClass
    → List DriverOp
    → SoftwareGpuDriver
    → Outcome (Unit {0}) × SoftwareGpuDriver
panicking_submit gpu class ops d = (panicked (str "simulated driver panic during submit"), d)

-- `PanickingDriver`, the software driver but for `submit`.
abbrev pub panicking : GpuDriver
panicking = record software { submit = panicking_submit }

module _ {K : Platform} (T : Kit K) (ids : ℕ → ObjectId) where
  abbrev submit_catches_a_driver_panic_instead_of_crashing : Result (Unit {0})
  submit_catches_a_driver_panic_instead_of_crashing =
      on_new K panicking (λ d. d) (ids 0) 67108864 16777216
        λ gpu. do
          device ← create_device (four ids 1) gpu (full_caps T)
          timeline ← create_timeline (ids 5) device.id
          stream ← create_command_stream (ids 6) device.id graphics
          on ← unwrap (queue device graphics)
          r ← result (submit on stream timeline.id 1)
          assert (elim r [ ok u ↦ false | err e ↦ contains (T.print e) "driver panicked" ])

  abbrev a_caught_driver_panic_marks_the_device_faulted_and_is_hot_restartable : Result (Unit {0})
  a_caught_driver_panic_marks_the_device_faulted_and_is_hot_restartable =
      on_new K panicking (λ d. d) (ids 0) 67108864 16777216
        λ gpu. do
          dev ← create_device (four ids 1) gpu (full_caps T)
          timeline ← create_timeline (ids 5) dev.id
          stream ← create_command_stream (ids 6) dev.id graphics
          on ← unwrap (queue dev graphics)
          r ← result (submit on stream timeline.id 1)
          assert (is_err r)
          fault ← reads (device_fault dev.id)
          assert (is_some fault)
          recover_device dev.id (admin_caps T)
          gone ← result (reads (device dev.id))
          assert (is_err gone)
          next ← create_device (four ids 7) gpu (full_caps T)
          assert (not (next.id == dev.id))

  abbrev pub panicking_tests : List (Result (Unit {0}))
  panicking_tests =
      submit_catches_a_driver_panic_instead_of_crashing
      ∷ a_caught_driver_panic_marks_the_device_faulted_and_is_hot_restartable ∷ []

  module _ (lawful : IsLawful T) (distinct : AreDistinct ids) where
    pub panicking_tests-AllPass : AllPass panicking_tests
    unfolding new_driver new_device with_devices device_id probe initialize set_state fault_status
        reset_device mark_faulted inject_fault new device create_device create_timeline
        create_command_stream new_graphics_device queue validate_stream translate_ops submit
        submit_to_driver contain panic_error panic_message timeline_value device_fault
        recover_device tear_down get insert remove modify retain
    panicking_tests-AllPass =
        let full = full_caps_alloc lawful in
        let full_submit = full_caps_submit lawful in
        let admin = admin_caps_admin lawful in
        let message : String =
          "driver panicked during submit: simulated driver panic during submit" in
        let printed = lawful.printed message "driver panicked" refl in
        let apart = distinct 7 1 refl in
        let r0 = ==_refl (ids 0) in
        let r1 = ==_refl (ids 1) in let r5 = ==_refl (ids 5) in (ground arith, (ground arith, tt))
