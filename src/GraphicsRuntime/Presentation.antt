-- ===== src/GraphicsRuntime/Presentation.antt =====
-- `PresentationBridge`, the frame and connector methods, and the cursor methods.
pub mod Cursors
use sher_graphics.Base.{ℕ, Bool, true, false, not, Option, none, some, is_some}
use sher_graphics.Base.Int.{ℤ}
use sher_graphics.Map.{get, insert}
use sher_graphics.Result.{
  Result, ok, err, Error, Action, ok_or, pure, lift, reads, writes, fail_if, ◌>>=◌, ◌>>◌,
}
use sher_graphics.Kernel.{ObjectId, Platform}
use sher_graphics.GraphicsApi.{ResourceKind, buffer, image}
use sher_graphics.GpuAbstraction.{GpuDriver}
use sher_graphics.GraphicsRuntime.State.{CursorState, default_cursor, GraphicsRuntime, on_display}

-- `matches!(kind, ResourceKind::Image { .. })`
abbrev pub is_image : ResourceKind → Bool
is_image (buffer size usage) = false
is_image (image width height depth format usage) = true

module _ (K : Platform) where
  unfoldable pub has_connector : ObjectId → K.Display → Bool
  has_connector id display = is_some (K.get_connector id display)

  -- `PresentationBridge::present`
  unfoldable pub present : ObjectId → ℕ → ℕ → Action K.Display ObjectId
  present connector width height = do
    framebuffer ← K.allocate_framebuffer width height
    K.page_flip connector (K.framebuffer_id framebuffer)
    pure (K.framebuffer_id framebuffer)

module _ {K : Platform} {D : GpuDriver} where
  unfoldable pub register_connector : K.Connector → Action (GraphicsRuntime K D) (Unit {0})
  register_connector connector = on_display (K.register_connector connector)

  unfoldable pub present_frame : ObjectId → ℕ → ℕ → Action (GraphicsRuntime K D) ObjectId
  unfolding present
  present_frame connector width height = on_display (present K connector width height)

  -- `cursors.get(connector).cloned().unwrap_or_default()`
  abbrev pub cursor_or_default : ObjectId → GraphicsRuntime K D → CursorState
  cursor_or_default connector rt = elim (get connector rt.cursors) [
    | none ↦ default_cursor
    | some c ↦ c
  ]

  -- `cursor_mut(connector)?` and a write through the reference.
  unfoldable pub cursor_mut :
      ObjectId → (CursorState → CursorState) → Action (GraphicsRuntime K D) (Unit {0})
  unfolding has_connector
  cursor_mut connector write = do
    known ← reads λ rt. ok (has_connector K connector rt.presentation)
    fail_if (not known) (Error.device "unknown presentation connector")
    writes λ rt. record rt {
      cursors = insert connector (write (cursor_or_default connector rt)) rt.cursors;
    }

  unfoldable pub set_cursor_image : ObjectId → ObjectId → Action (GraphicsRuntime K D) (Unit {0})
  unfolding cursor_mut
  set_cursor_image connector id = do
    resource ←
        reads λ rt. ok_or (get id rt.resources) (Error.device "unknown cursor image resource")
    fail_if (not (is_image resource.kind))
        (Error.device "cursor image resource must be an Image, not a Buffer")
    cursor_mut connector λ c. record c { image = some id }

  unfoldable pub set_cursor_position : ObjectId → ℤ → ℤ → Action (GraphicsRuntime K D) (Unit {0})
  unfolding cursor_mut
  set_cursor_position connector x y = cursor_mut connector λ c. record c { position = (x, y) }

  unfoldable pub show_cursor : ObjectId → Action (GraphicsRuntime K D) (Unit {0})
  unfolding cursor_mut
  show_cursor connector = cursor_mut connector λ c. record c { visible = true }

  unfoldable pub hide_cursor : ObjectId → Action (GraphicsRuntime K D) (Unit {0})
  unfolding cursor_mut
  hide_cursor connector = cursor_mut connector λ c. record c { visible = false }

  unfoldable pub cursor_state : ObjectId → GraphicsRuntime K D → Result CursorState
  unfolding has_connector
  cursor_state connector rt = elim (has_connector K connector rt.presentation) [
    | false ↦ err (Error.device "unknown presentation connector")
    | true ↦ ok (cursor_or_default connector rt)
  ]
