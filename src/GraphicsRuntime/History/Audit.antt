-- ===== src/GraphicsRuntime/History/Audit.antt =====
-- What histories of calls leave in the audit log.
use sher_graphics.Base.{
  ◌≡◌, refl, ◌∙◌, ap, sym, Bool, String, none, some, List, [], ◌∷◌, if◌then◌else◌, ◌++◌, arith,
}
use sher_graphics.Map.{get}
use sher_graphics.Kernel.{ObjectId, Platform, gpu_admin, gpu_command_submit, gpu_memory_alloc}
use sher_graphics.GraphicsApi.{class_eq}
use sher_graphics.GpuAbstraction.{GpuDriver}
use sher_graphics.GraphicsRuntime.State.{GraphicsRuntime, log}
use sher_graphics.GraphicsRuntime.Objects.{
  create_device, create_timeline, create_resource, create_command_stream, create_shader_module,
  create_pipeline, free_resource,
}
use sher_graphics.GraphicsRuntime.Submit.{submit, submit_to_driver, contain}
use sher_graphics.GraphicsRuntime.Recover.{driver_mut, recover_device, tear_down}
use sher_graphics.GraphicsRuntime.Presentation.{
  register_connector, present_frame, set_cursor_image, set_cursor_position, show_cursor,
  hide_cursor, cursor_mut,
}
use sher_graphics.GraphicsRuntime.History.{
  Call, creates_device, creates_timeline, creates_resource, creates_stream, creates_shader,
  creates_pipeline, frees_resource, submits, recovers, administers, registers_connector, presents,
  sets_image, sets_position, shows, hides, step, run,
}

-- The actor, the action, and whether it was authorized.
pub record Entry : Type 0 where
  pub actor : ObjectId
  pub action : String
  pub authorized : Bool

abbrev pub write_all : (K : Platform) → List Entry → K.AuditLog → K.AuditLog
write_all K [] audit = audit
write_all K (e ∷ es) audit = write_all K es (K.log audit e.actor e.action e.authorized)

write_all_++ :
    (K : Platform) (es fs : List Entry) (audit : K.AuditLog)
    → write_all K (es ++ fs) audit ≡ write_all K fs (write_all K es audit)
write_all_++ K [] fs audit = refl
write_all_++ K (e ∷ es) fs audit = write_all_++ K es fs (K.log audit e.actor e.action e.authorized)

module _ {K : Platform} {D : GpuDriver} where
  -- The entries that a call owes to the log: a creation of a device and a recovery one each, and a
  -- submission one if its classes match and its device is known. Uses of `driver_mut` owe none.
  abbrev pub entries : Call K D → GraphicsRuntime K D → List Entry
  entries (creates_device ids gpu caps) rt =
      record {
        actor = gpu;
        action = "create_device";
        authorized = K.has_capability caps gpu_memory_alloc;
      }
      ∷ []
  entries (recovers id caps) rt =
      record { actor = id; action = "recover_device"; authorized = K.has_capability caps gpu_admin }
      ∷ []
  entries (submits queue stream timeline value) rt =
      if class_eq stream.target_class queue.class
      then elim (get stream.device rt.device_caps) [
        | none ↦ []
        | some caps ↦
            record {
              actor = stream.device;
              action = "submit";
              authorized = K.has_capability caps gpu_command_submit;
            }
            ∷ []
      ]
      else []
  entries _ rt = []

  abbrev pub trail : List (Call K D) → GraphicsRuntime K D → List Entry
  trail [] rt = []
  trail (c ∷ cs) rt = entries c rt ++ trail cs (step c rt)

  step_audits :
      (c : Call K D) (rt : GraphicsRuntime K D)
      → (step c rt).audit ≡ write_all K (entries c rt) rt.audit
  unfolding step create_device create_timeline create_resource create_command_stream
      create_shader_module create_pipeline free_resource submit submit_to_driver contain
      recover_device driver_mut tear_down register_connector present_frame set_cursor_image
      set_cursor_position show_cursor hide_cursor cursor_mut log
  step_audits (creates_device ids gpu caps) rt = ground arith
  step_audits (creates_timeline fresh owner) rt = ground arith
  step_audits (creates_resource fresh owner kind class) rt = ground arith
  step_audits (creates_stream fresh owner class) rt = ground arith
  step_audits (creates_shader fresh owner stage ir) rt = ground arith
  step_audits (creates_pipeline fresh owner shader class) rt = ground arith
  step_audits (frees_resource id) rt = ground arith
  step_audits (submits queue stream timeline value) rt = ground arith
  step_audits (recovers id caps) rt = ground arith
  step_audits (administers caps m) rt = ground arith
  step_audits (registers_connector connector) rt = ground arith
  step_audits (presents connector width height) rt = ground arith
  step_audits (sets_image connector id) rt = ground arith
  step_audits (sets_position connector x y) rt = ground arith
  step_audits (shows connector) rt = ground arith
  step_audits (hides connector) rt = ground arith

  -- Over any driver, a history of calls adds to the audit log exactly one entry for each creation of a
  -- device, each recovery, and each submission that gets as far as the check of its capability, in
  -- the order of the calls, and each entry says whether the capability was held; no other call, and
  -- so no use of `driver_mut`, leaves a trace.
  pub run_audits :
      (cs : List (Call K D)) (rt : GraphicsRuntime K D)
      → (run cs rt).audit ≡ write_all K (trail cs rt) rt.audit
  unfolding run
  run_audits [] rt = refl
  run_audits (c ∷ cs) rt =
      run_audits cs (step c rt)
      ∙ ap (write_all K (trail cs (step c rt))) (step_audits c rt)
      ∙ sym (write_all_++ K (entries c rt) (trail cs (step c rt)) rt.audit)
