-- ===== src/GraphicsRuntime/Stream/Translate.antt =====
-- What `translate_ops` keeps.
use sher_graphics.Base.{
  ◌≡◌, refl, Bool, true, false, List, [], ◌∷◌, ◌++◌, map, arith, if◌then◌else◌,
}
use sher_graphics.GraphicsApi.{
  GraphicsOp, bind_pipeline, bind_resource, draw, dispatch, copy, barrier,
}
use sher_graphics.GpuAbstraction.{DriverOp}
use sher_graphics.GraphicsRuntime.Stream.{translate_ops}

-- The operation of a stream that a driver's operation came from.
abbrev pub original : DriverOp → GraphicsOp
original (DriverOp.draw vertex_count instance_count) = draw vertex_count instance_count
original (DriverOp.dispatch x y z) = dispatch x y z
original (DriverOp.copy src dst) = copy src dst
original DriverOp.barrier = barrier

abbrev pub is_binding : GraphicsOp → Bool
is_binding (bind_pipeline id) = true
is_binding (bind_resource binding id) = true
is_binding _ = false

abbrev pub without_bindings : List GraphicsOp → List GraphicsOp
without_bindings [] = []
without_bindings (op ∷ ops) =
    let rest = without_bindings ops in if is_binding op then rest else op ∷ rest

-- The driver gets the operations of the stream that are no bindings, all of them and in order.
pub translate_ops_keeps :
    (ops : List GraphicsOp) → map original (translate_ops ops) ≡ without_bindings ops
unfolding translate_ops
translate_ops_keeps [] = refl
translate_ops_keeps (op ∷ ops) = ground (arith, translate_ops_keeps ops)

translate_ops-original : (ds : List DriverOp) → translate_ops (map original ds) ≡ ds
unfolding translate_ops
translate_ops-original [] = refl
translate_ops-original (d ∷ ds) = ground (arith, translate_ops-original ds)

-- A driver's operations pass through a stream unchanged.
pub translate_ops-append :
    (xs ys : List GraphicsOp) → translate_ops (xs ++ ys) ≡ translate_ops xs ++ translate_ops ys
unfolding translate_ops
translate_ops-append [] ys = refl
translate_ops-append (op ∷ xs) ys = ground (arith, translate_ops-append xs ys)
