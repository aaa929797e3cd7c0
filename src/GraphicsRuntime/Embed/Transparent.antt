-- ===== src/GraphicsRuntime/Embed/Transparent.antt =====
-- Histories of the runtime over an embedded driver.
use sher_graphics.Base.{◌≡◌, refl, List, [], ◌∷◌, map, arith}
use sher_graphics.Result.{Action}
use sher_graphics.Kernel.{Platform}
use sher_graphics.GpuAbstraction.{GpuDriver}
use sher_graphics.GraphicsRuntime.State.{GraphicsRuntime}
use sher_graphics.GraphicsRuntime.Objects.{
  create_timeline, create_command_stream, create_shader_module, create_pipeline,
}
use sher_graphics.GraphicsRuntime.Presentation.{
  register_connector, present_frame, set_cursor_image, set_cursor_position, show_cursor,
  hide_cursor, cursor_mut,
}
use sher_graphics.GraphicsRuntime.History.{
  Call, creates_device, creates_timeline, creates_resource, creates_stream, creates_shader,
  creates_pipeline, frees_resource, submits, recovers, administers, registers_connector, presents,
  sets_image, sets_position, shows, hides,
}
use sher_graphics.GraphicsRuntime.Embed.{IsEmbedding, perform, replies, embed, carry}
use sher_graphics.GraphicsRuntime.Embed.Operations.{
  create_device_embeds, create_resource_embeds, free_resource_embeds, submit_embeds,
  recover_device_embeds, driver_mut_embeds,
}

module _ {K : Platform} {D E : GpuDriver} {f : D.Driver → E.Driver} (L : IsEmbedding D E f)
    (reach : Action D.Driver (Unit {0}) → Action E.Driver (Unit {0}))
    (reaches : (m : Action D.Driver (Unit {0})) (d : D.Driver)
      → reach m (f d) ≡ ((m d).0, f (m d).1)) where
  perform_embeds :
      (c : Call K D) (rt : GraphicsRuntime K D)
      → perform {D = E} (carry {E = E} reach c) (embed f rt)
        ≡ ((perform c rt).0, embed f (perform c rt).1)
  unfolding perform carry create_timeline create_command_stream create_shader_module create_pipeline
      register_connector present_frame set_cursor_image set_cursor_position show_cursor hide_cursor
      cursor_mut
  perform_embeds (creates_device ids gpu caps) rt =
      ground (arith, create_device_embeds L ids gpu caps rt)
  perform_embeds (creates_timeline fresh owner) rt = ground arith
  perform_embeds (creates_resource fresh owner kind class) rt =
      ground (arith, create_resource_embeds L fresh owner kind class rt)
  perform_embeds (creates_stream fresh owner class) rt = ground arith
  perform_embeds (creates_shader fresh owner stage ir) rt = ground arith
  perform_embeds (creates_pipeline fresh owner shader class) rt = ground arith
  perform_embeds (frees_resource id) rt = ground (arith, free_resource_embeds L id rt)
  perform_embeds (submits queue stream timeline value) rt =
      ground (arith, submit_embeds L queue stream timeline value rt)
  perform_embeds (recovers id caps) rt = ground (arith, recover_device_embeds L id caps rt)
  perform_embeds (administers caps m) rt =
      ground (arith, driver_mut_embeds L caps m (reach m) (reaches m) rt)
  perform_embeds (registers_connector connector) rt = ground arith
  perform_embeds (presents connector width height) rt = ground arith
  perform_embeds (sets_image connector id) rt = ground arith
  perform_embeds (sets_position connector x y) rt = ground arith
  perform_embeds (shows connector) rt = ground arith
  perform_embeds (hides connector) rt = ground arith

  pub replies_embedded :
      (cs : List (Call K D)) (rt : GraphicsRuntime K D)
      → replies {D = E} (map (carry {E = E} reach) cs) (embed f rt)
        ≡ ((replies cs rt).0, embed f (replies cs rt).1)
  unfolding replies
  replies_embedded [] rt = refl
  replies_embedded (c ∷ cs) rt =
      let head = perform_embeds c rt in
      let tail = replies_embedded cs (perform c rt).1 in rw head (rw tail refl)
