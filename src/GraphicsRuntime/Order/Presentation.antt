-- ===== src/GraphicsRuntime/Order/Presentation.antt =====
-- Frames and cursors on runtimes that hold the same entries.
use sher_graphics.Base.{ℕ, ◌≡◌, ap, subst, sym, not, true, false, some, none}
use sher_graphics.Map.{insert}
use sher_graphics.Result.{Result, ok, err, Error, Action, ok_or}
use sher_graphics.Result.Related.{reads-Related, writes-Related, fail_if-Related}
use sher_graphics.Kernel.{ObjectId, Platform}
use sher_graphics.GpuAbstraction.{GpuDriver}
use sher_graphics.GraphicsRuntime.State.{CursorState, GraphicsRuntime, default_cursor, on_display}
use sher_graphics.GraphicsRuntime.Presentation.{
  is_image, has_connector, present, register_connector, present_frame, cursor_or_default,
  cursor_mut, set_cursor_image, cursor_state,
}
use sher_graphics.GraphicsRuntime.Order.{IsCongruence, IsSame}
use sher_graphics.GraphicsRuntime.Order.Writes.{cursor_written, display_written}
use sher_graphics.GraphicsRuntime.Order.Operations.{Alike, AlikeActions, then_}

module _ {K : Platform} {D : GpuDriver} {R : D.Driver → D.Driver → Type 0}
    (L : IsCongruence D R) where
  on_display-Related : {A : Type 0} (m : Action K.Display A) → AlikeActions {K = K} L (on_display m)
  on_display-Related m rt sh s =
      let same = ap m s.presentation in
      (ap (λ x. x.0) same, display_written _ _ rt sh (ap (λ x. x.1) same) s)

  pub register_connector-Related :
      (connector : K.Connector) → AlikeActions {K = K} L (register_connector connector)
  unfolding register_connector
  register_connector-Related connector = on_display-Related (K.register_connector connector)

  pub present_frame-Related :
      (connector : ObjectId) (width height : ℕ)
      → AlikeActions {K = K} L (present_frame connector width height)
  unfolding present_frame
  present_frame-Related connector width height =
      on_display-Related (present K connector width height)

  connector_same :
      (connector : ObjectId) (rt sh : GraphicsRuntime K D)
      → IsSame R rt sh
      → has_connector K connector rt.presentation ≡ has_connector K connector sh.presentation
  connector_same connector rt sh s = ap (has_connector K connector) s.presentation

  cursor_same :
      (connector : ObjectId) (rt sh : GraphicsRuntime K D)
      → IsSame R rt sh
      → cursor_or_default connector rt ≡ cursor_or_default connector sh
  cursor_same connector rt sh s =
      ap (λ o. elim o as (λ _. CursorState) [ none ↦ default_cursor | some c ↦ c ])
        (s.cursors connector)

  cursor_rewritten :
      (connector : ObjectId) (write : CursorState → CursorState) (rt sh : GraphicsRuntime K D)
      → IsSame R rt sh
      → IsSame R
          (record rt {
            cursors = insert connector (write (cursor_or_default connector rt)) rt.cursors;
          })
          (record sh {
            cursors = insert connector (write (cursor_or_default connector sh)) sh.cursors;
          })
  cursor_rewritten connector write rt sh s =
      subst
        (λ c.
          IsSame R (record rt { cursors = insert connector (write c) rt.cursors })
            (record sh {
              cursors = insert connector (write (cursor_or_default connector sh)) sh.cursors;
            }))
        (sym (cursor_same connector rt sh s))
        (cursor_written connector (write (cursor_or_default connector sh)) rt sh s)

  pub cursor_mut-Related :
      (connector : ObjectId) (write : CursorState → CursorState)
      → AlikeActions {K = K} L (cursor_mut connector write)
  unfolding cursor_mut
  cursor_mut-Related connector write =
      then_ L (reads-Related (Alike L) _ _ λ rt sh s. ap ok (connector_same connector rt sh s))
        λ known.
          then_ L
            (fail_if-Related (Alike L) (not known) (Error.device "unknown presentation connector"))
            λ u. writes-Related (Alike L) _ _ (cursor_rewritten connector write)

  pub set_cursor_image-Related :
      (connector id : ObjectId) → AlikeActions {K = K} L (set_cursor_image connector id)
  unfolding set_cursor_image
  set_cursor_image-Related connector id =
      then_ L
        (reads-Related (Alike L) _ _ λ rt sh s.
          ap (λ x. ok_or x (Error.device "unknown cursor image resource")) (s.resources id))
        λ resource.
          then_ L
            (fail_if-Related (Alike L) (not (is_image resource.kind))
              (Error.device "cursor image resource must be an Image, not a Buffer"))
            λ u. cursor_mut-Related connector λ c. record c { image = some id }

  pub cursor_state_same :
      (connector : ObjectId) (rt sh : GraphicsRuntime K D)
      → IsSame R rt sh
      → cursor_state connector rt ≡ cursor_state connector sh
  unfolding cursor_state
  cursor_state_same connector rt sh s =
      rw (connector_same connector rt sh s, cursor_state)
        (ap
          (λ c. elim (has_connector K connector sh.presentation) as (λ _. Result CursorState) [
            | false ↦ err (Error.device "unknown presentation connector")
            | true ↦ ok c
          ])
          (cursor_same connector rt sh s))
