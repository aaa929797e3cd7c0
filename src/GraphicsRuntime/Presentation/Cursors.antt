-- ===== src/GraphicsRuntime/Presentation/Cursors.antt =====
-- What the cursor methods do to the cursors of every connector.
use sher_graphics.Base.{
  ◌≡◌, ◌↔◌, inl, inr, true, some, arith, ◌==◌, if◌then◌else◌, Bool-cases, Option-cases,
}
use sher_graphics.Base.Int.{ℤ}
use sher_graphics.Map.{get, map_laws}
use sher_graphics.Result.{ok, and_then}
use sher_graphics.Kernel.{ObjectId, Platform}
use sher_graphics.GraphicsApi.{Resource}
use sher_graphics.GpuAbstraction.{GpuDriver}
use sher_graphics.GraphicsRuntime.State.{CursorState, GraphicsRuntime}
use sher_graphics.GraphicsRuntime.Presentation.{
  is_image, has_connector, cursor_mut, cursor_state, set_cursor_image, set_cursor_position,
  show_cursor,
}

module _ {K : Platform} {D : GpuDriver} where
  -- A write through `cursor_mut` is what `cursor_state` of that connector shows afterwards, and
  -- every other connector shows what it did; for an unknown connector both fail alike.
  pub cursor_state-cursor_mut :
      (other connector : ObjectId) (write : CursorState → CursorState) (rt : GraphicsRuntime K D)
      → cursor_state other (cursor_mut connector write rt).1 ≡ (
          if other == connector
          then and_then (cursor_state connector rt) (λ c. ok (write c))
          else cursor_state other rt)
  unfolding cursor_state cursor_mut
  cursor_state-cursor_mut other connector write rt =
      elim (Bool-cases (has_connector K connector rt.presentation)) [
        | inl e ↦ grind map_laws
        | inr e ↦ grind map_laws
      ]

  -- `set_cursor_image` succeeds exactly if the resource is an image that the runtime knows and the
  -- connector is registered.
  pub set_cursor_image_ok_iff :
      (connector id : ObjectId) (rt : GraphicsRuntime K D)
      → ((set_cursor_image connector id rt).0 ≡ ok tt) ↔ (
          (r : Resource) × (get id rt.resources ≡ some r)
          × (is_image r.kind ≡ true)
          × (has_connector K connector rt.presentation ≡ true))
  unfolding set_cursor_image
  set_cursor_image_ok_iff connector id rt = (
    λ h. elim (Option-cases (get id rt.resources)) [
      | inl e ↦ absurd (ground arith)
      | inr (r, e) ↦ (r, e, ground arith, ground arith)
    ],
    λ (r, e, i, c). ground arith,
  )

  -- On a registered connector, an image set, a position set and a cursor shown are the cursor's
  -- state afterwards, whatever it was before.
  pub cursor_state-show_cursor :
      (connector id : ObjectId) (x y : ℤ) (r : Resource) (rt : GraphicsRuntime K D)
      → has_connector K connector rt.presentation ≡ true
      → get id rt.resources ≡ some r
      → is_image r.kind ≡ true
      → cursor_state connector
          (show_cursor connector
            (set_cursor_position connector x y (set_cursor_image connector id rt).1).1).1
        ≡ ok (record { image = some id; position = (x, y); visible = true })
  unfolding cursor_state set_cursor_image set_cursor_position show_cursor
  cursor_state-show_cursor connector id x y r rt known held is = grind map_laws
