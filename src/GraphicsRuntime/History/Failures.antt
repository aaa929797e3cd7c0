-- ===== src/GraphicsRuntime/History/Failures.antt =====
-- What a call that fails leaves of the runtime.
use sher_graphics.Base.{◌≡◌, Bool, false, arith}
use sher_graphics.Map.{remove, remove_missing}
use sher_graphics.Result.{is_ok}
use sher_graphics.Kernel.{Platform}
use sher_graphics.GpuAbstraction.{GpuDriver}
use sher_graphics.GraphicsRuntime.State.{GraphicsRuntime, log}
use sher_graphics.GraphicsRuntime.Objects.{
  create_device, create_timeline, create_resource, create_command_stream, create_shader_module,
  create_pipeline, free_resource,
}
use sher_graphics.GraphicsRuntime.Submit.{submit, submit_to_driver, contain}
use sher_graphics.GraphicsRuntime.Recover.{driver_mut, recover_device, tear_down}
use sher_graphics.GraphicsRuntime.Presentation.{
  register_connector, present_frame, set_cursor_image, set_cursor_position, show_cursor,
  hide_cursor, cursor_mut,
}
use sher_graphics.GraphicsRuntime.History.{
  Call, creates_device, creates_timeline, creates_resource, creates_stream, creates_shader,
  creates_pipeline, frees_resource, submits, recovers, administers, registers_connector, presents,
  sets_image, sets_position, shows, hides,
}
use sher_graphics.GraphicsRuntime.Embed.{
  Reply, a_device, a_timeline, a_resource, a_stream, a_shader, a_pipeline, a_framebuffer, a_unit,
  perform,
}

abbrev pub answers_ok : Reply → Bool
answers_ok (a_device r) = is_ok r
answers_ok (a_timeline r) = is_ok r
answers_ok (a_resource r) = is_ok r
answers_ok (a_stream r) = is_ok r
answers_ok (a_shader r) = is_ok r
answers_ok (a_pipeline r) = is_ok r
answers_ok (a_framebuffer r) = is_ok r
answers_ok (a_unit r) = is_ok r

module _ {K : Platform} {D : GpuDriver} where
  -- The other runtime with the driver, the display driver and the audit log of this one.
  abbrev pub outside : GraphicsRuntime K D → GraphicsRuntime K D → GraphicsRuntime K D
  outside after before = record before {
    driver = after.driver;
    presentation = after.presentation;
    audit = after.audit;
  }

  -- What a call may have done to the tables by the time it fails.
  abbrev pub undone : Call K D → GraphicsRuntime K D → GraphicsRuntime K D
  undone (frees_resource id) rt = record rt { resources = remove id rt.resources }
  undone _ rt = rt

  -- Over any driver, a call that answers with an error leaves every table of the runtime as it was,
  -- whatever it has done to the driver, the display driver and the audit log, except that a
  -- `free_resource` that the driver refuses has taken the resource out of the table.
  pub failure_keeps_tables :
      (c : Call K D) (rt : GraphicsRuntime K D)
      → answers_ok (perform c rt).0 ≡ false
      → (perform c rt).1 ≡ outside (perform c rt).1 (undone c rt)
  unfolding perform create_device create_timeline create_resource create_command_stream
      create_shader_module create_pipeline free_resource submit submit_to_driver contain
      recover_device driver_mut tear_down register_connector present_frame set_cursor_image
      set_cursor_position show_cursor hide_cursor cursor_mut log
  failure_keeps_tables (creates_device ids gpu caps) rt h = ground arith
  failure_keeps_tables (creates_timeline fresh owner) rt h = ground arith
  failure_keeps_tables (creates_resource fresh owner kind class) rt h = ground arith
  failure_keeps_tables (creates_stream fresh owner class) rt h = ground arith
  failure_keeps_tables (creates_shader fresh owner stage ir) rt h = ground arith
  failure_keeps_tables (creates_pipeline fresh owner shader class) rt h = ground arith
  failure_keeps_tables (frees_resource id) rt h = ground (arith, remove_missing id rt.resources)
  failure_keeps_tables (submits queue stream timeline value) rt h = ground arith
  failure_keeps_tables (recovers id caps) rt h = ground arith
  failure_keeps_tables (administers caps m) rt h = ground arith
  failure_keeps_tables (registers_connector connector) rt h = ground arith
  failure_keeps_tables (presents connector width height) rt h = ground arith
  failure_keeps_tables (sets_image connector id) rt h = ground arith
  failure_keeps_tables (sets_position connector x y) rt h = ground arith
  failure_keeps_tables (shows connector) rt h = ground arith
  failure_keeps_tables (hides connector) rt h = ground arith
