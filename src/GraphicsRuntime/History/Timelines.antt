-- ===== src/GraphicsRuntime/History/Timelines.antt =====
-- The timelines over histories.
use sher_graphics.Base.{
  ℕ, ◌≡◌, refl, inl, inr, Bool, true, false, Bool-cases, none, List, [], ◌∷◌, arith, ◌==◌,
}
use sher_graphics.Map.{get, map_laws}
use sher_graphics.Kernel.{ObjectId, Platform}
use sher_graphics.GraphicsApi.{QueueHandle, CommandStream}
use sher_graphics.GpuAbstraction.{GpuDriver}
use sher_graphics.GraphicsRuntime.State.{GraphicsRuntime}
use sher_graphics.GraphicsRuntime.Objects.{
  create_device, create_timeline, create_resource, create_command_stream, create_shader_module,
  create_pipeline, free_resource,
}
use sher_graphics.GraphicsRuntime.Submit.{submit}
use sher_graphics.GraphicsRuntime.Submit.Ready.{submit_timelines}
use sher_graphics.GraphicsRuntime.Submit.Signal.{HasReached}
use sher_graphics.GraphicsRuntime.Recover.{driver_mut, recover_device}
use sher_graphics.GraphicsRuntime.Presentation.{
  register_connector, present_frame, set_cursor_image, set_cursor_position, show_cursor,
  hide_cursor,
}
use sher_graphics.GraphicsRuntime.History.{
  Call, creates_device, creates_timeline, creates_resource, creates_stream, creates_shader,
  creates_pipeline, frees_resource, submits, recovers, administers, registers_connector, presents,
  sets_image, sets_position, shows, hides, step, run, IsFresh, AreFresh,
}

module _ {K : Platform} {D : GpuDriver} where
  -- The steps that write a timeline.
  abbrev writes_timeline : Call K D → Bool
  writes_timeline (creates_timeline fresh owner) = true
  writes_timeline (submits queue stream timeline value) = true
  writes_timeline _ = false

  step_same :
      (c : Call K D) (rt : GraphicsRuntime K D)
      → writes_timeline c ≡ false
      → (step c rt).timelines ≡ rt.timelines
  unfolding step create_device create_resource create_command_stream create_shader_module
      create_pipeline free_resource recover_device driver_mut register_connector present_frame
      set_cursor_image set_cursor_position show_cursor hide_cursor
  step_same (creates_device ids gpu caps) rt h = ground arith
  step_same (creates_timeline fresh owner) rt h = cc
  step_same (creates_resource fresh owner kind class) rt h = ground arith
  step_same (creates_stream fresh owner class) rt h = ground arith
  step_same (creates_shader fresh owner stage ir) rt h = ground arith
  step_same (creates_pipeline fresh owner shader class) rt h = ground arith
  step_same (frees_resource id) rt h = ground arith
  step_same (submits queue stream timeline value) rt h = cc
  step_same (recovers id caps) rt h = ground arith
  step_same (administers caps use_driver) rt h = ground arith
  step_same (registers_connector connector) rt h = ground arith
  step_same (presents connector width height) rt h = ground arith
  step_same (sets_image connector id) rt h = ground arith
  step_same (sets_position connector x y) rt h = ground arith
  step_same (shows connector) rt h = ground arith
  step_same (hides connector) rt h = ground arith

  create_timeline-HasReached :
      (t : ObjectId) (v : ℕ) (fresh owner : ObjectId) (rt : GraphicsRuntime K D)
      → get fresh rt.timelines ≡ none
      → HasReached t v rt
      → HasReached t v (create_timeline fresh owner rt).1
  unfolding create_timeline
  create_timeline-HasReached t v fresh owner rt new (w, e, le) = (w, grind map_laws, le)

  submit-HasReached :
      (t : ObjectId) (v : ℕ) (queue : QueueHandle) (stream : CommandStream) (timeline : ObjectId)
      (value : ℕ) (rt : GraphicsRuntime K D)
      → HasReached t v rt
      → HasReached t v (submit queue stream timeline value rt).1
  submit-HasReached t v queue stream timeline value rt (w, e, le) =
      elim (submit_timelines queue stream timeline value rt) [
        | inl same ↦ (w, rw same e, le)
        | inr (_, current, live, later, moved) ↦ elim (Bool-cases (t == timeline)) [
          | inl here ↦ (value, rw moved (grind map_laws), ground arith)
          | inr elsewhere ↦ (w, rw moved (grind map_laws), le)
        ]
      ]

  step-HasReached :
      (t : ObjectId) (v : ℕ) (c : Call K D) (rt : GraphicsRuntime K D)
      → IsFresh c rt
      → HasReached t v rt
      → HasReached t v (step c rt)
  unfolding step
  step-HasReached t v (creates_timeline fresh owner) rt new h =
      create_timeline-HasReached t v fresh owner rt new h
  step-HasReached t v (submits queue stream timeline value) rt new h =
      submit-HasReached t v queue stream timeline value rt h
  step-HasReached t v c rt new (w, e, le) = (w, rw (step_same c rt refl) e, le)

  -- Over any history of calls whose new identifiers are fresh, a timeline that is there stays there
  -- and never goes back.
  pub run_timelines_monotone :
      (t : ObjectId) (v : ℕ) (cs : List (Call K D)) (rt : GraphicsRuntime K D)
      → AreFresh cs rt
      → HasReached t v rt
      → HasReached t v (run cs rt)
  unfolding run
  run_timelines_monotone t v [] rt new h = h
  run_timelines_monotone t v (c ∷ cs) rt new h =
      run_timelines_monotone t v cs (step c rt) new.1 (step-HasReached t v c rt new.0 h)
