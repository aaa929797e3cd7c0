-- ===== src/GraphicsRuntime/Order/Histories.antt =====
-- Histories of calls on runtimes that hold the same entries.
use sher_graphics.Base.{refl, ap, true, false, List, [], ◌∷◌, All}
use sher_graphics.Result.{Result}
use sher_graphics.Result.Related.{Agree, Related}
use sher_graphics.Kernel.{Platform}
use sher_graphics.GpuAbstraction.{GpuDriver}
use sher_graphics.GraphicsRuntime.State.{GraphicsRuntime}
use sher_graphics.GraphicsRuntime.Presentation.{set_cursor_position, show_cursor, hide_cursor}
use sher_graphics.GraphicsRuntime.History.{
  Call, creates_device, creates_timeline, creates_resource, creates_stream, creates_shader,
  creates_pipeline, frees_resource, submits, recovers, administers, registers_connector, presents,
  sets_image, sets_position, shows, hides,
}
use sher_graphics.GraphicsRuntime.Embed.{
  Reply, a_device, a_timeline, a_resource, a_stream, a_shader, a_pipeline, a_framebuffer, a_unit,
  tagged, perform, replies,
}
use sher_graphics.GraphicsRuntime.Order.{IsCongruence, IsSame}
use sher_graphics.GraphicsRuntime.Order.Operations.{
  create_device-Related, create_timeline-Related, create_resource-Related,
  create_command_stream-Related, create_shader_module-Related, create_pipeline-Related,
  free_resource-Related, recover_device-Related, driver_mut-Related,
}
use sher_graphics.GraphicsRuntime.Order.Submissions.{submit-Related}
use sher_graphics.GraphicsRuntime.Order.Presentation.{
  register_connector-Related, present_frame-Related, set_cursor_image-Related, cursor_mut-Related,
}

-- A use of the driver that cannot tell related drivers apart.
abbrev pub Respects :
    {K : Platform} {D : GpuDriver} → (D.Driver → D.Driver → Type 0) → Call K D → Type 0
Respects R (administers caps m) = Related R m m
Respects R c = Unit

module _ {K : Platform} {D : GpuDriver} {R : D.Driver → D.Driver → Type 0} where
  module _ (L : IsCongruence D R) where
    tagged-Agree :
        {A : Type 0} (tag : Result A → Reply) (x y : Result A × GraphicsRuntime K D)
        → Agree (IsSame R) x y
        → Agree (IsSame R) (tagged tag x) (tagged tag y)
    tagged-Agree tag x y (same, h) = (ap tag same, h)

    perform-Related :
        (c : Call K D)
        → Respects R c
        → (rt sh : GraphicsRuntime K D) → IsSame R rt sh
        → Agree (IsSame R) (perform c rt) (perform c sh)
    unfolding perform set_cursor_position show_cursor hide_cursor
    perform-Related (creates_device ids gpu caps) r rt sh s =
        tagged-Agree a_device _ _ (create_device-Related L ids gpu caps rt sh s)
    perform-Related (creates_timeline fresh owner) r rt sh s =
        tagged-Agree a_timeline _ _ (create_timeline-Related L fresh owner rt sh s)
    perform-Related (creates_resource fresh owner kind class) r rt sh s =
        tagged-Agree a_resource _ _ (create_resource-Related L fresh owner kind class rt sh s)
    perform-Related (creates_stream fresh owner class) r rt sh s =
        tagged-Agree a_stream _ _ (create_command_stream-Related L fresh owner class rt sh s)
    perform-Related (creates_shader fresh owner stage ir) r rt sh s =
        tagged-Agree a_shader _ _ (create_shader_module-Related L fresh owner stage ir rt sh s)
    perform-Related (creates_pipeline fresh owner shader class) r rt sh s =
        tagged-Agree a_pipeline _ _ (create_pipeline-Related L fresh owner shader class rt sh s)
    perform-Related (frees_resource id) r rt sh s =
        tagged-Agree a_unit _ _ (free_resource-Related L id rt sh s)
    perform-Related (submits queue stream timeline value) r rt sh s =
        tagged-Agree a_unit _ _ (submit-Related L queue stream timeline value rt sh s)
    perform-Related (recovers id caps) r rt sh s =
        tagged-Agree a_unit _ _ (recover_device-Related L id caps rt sh s)
    perform-Related (administers caps m) r rt sh s =
        tagged-Agree a_unit _ _ (driver_mut-Related L caps m r rt sh s)
    perform-Related (registers_connector connector) r rt sh s =
        tagged-Agree a_unit _ _ (register_connector-Related L connector rt sh s)
    perform-Related (presents connector width height) r rt sh s =
        tagged-Agree a_framebuffer _ _ (present_frame-Related L connector width height rt sh s)
    perform-Related (sets_image connector id) r rt sh s =
        tagged-Agree a_unit _ _ (set_cursor_image-Related L connector id rt sh s)
    perform-Related (sets_position connector x y) r rt sh s =
        tagged-Agree a_unit _ _
          (cursor_mut-Related L connector (λ c. record c { position = (x, y) }) rt sh s)
    perform-Related (shows connector) r rt sh s =
        tagged-Agree a_unit _ _
          (cursor_mut-Related L connector (λ c. record c { visible = true }) rt sh s)
    perform-Related (hides connector) r rt sh s =
        tagged-Agree a_unit _ _
          (cursor_mut-Related L connector (λ c. record c { visible = false }) rt sh s)

    pub replies-Related :
        (cs : List (Call K D))
        → All (Respects R) cs
        → (rt sh : GraphicsRuntime K D) → IsSame R rt sh
        → Agree (IsSame R) (replies cs rt) (replies cs sh)
    unfolding replies
    replies-Related [] r rt sh s = (refl, s)
    replies-Related (c ∷ cs) (r, rs) rt sh s =
        let (x, s') = perform-Related c r rt sh s in
        let (xs, s'') = replies-Related cs rs (perform c rt).1 (perform c sh).1 s' in
        (rw (x, xs) refl, s'')
