-- ===== src/GraphicsRuntime/Stream.antt =====
-- `validate_stream` and `translate_ops`.
pub mod Valid
pub mod Same
pub mod Translate
use sher_graphics.Base.{
  ℕ, Bool, true, false, not, ◌&&◌, ◌||◌, ◌==◌, Option, none, some, is_some, List, [], ◌∷◌,
  if◌then◌else◌,
}
use sher_graphics.Map.{Map, get, contains_key}
use sher_graphics.Result.{Result, ok, err, Error}
use sher_graphics.Kernel.{ObjectId}
use sher_graphics.GraphicsApi.{
  GraphicsOp, bind_pipeline, bind_resource, draw, dispatch, copy, barrier, CommandStream, Pipeline,
  Resource,
}
use sher_graphics.GpuAbstraction.{DriverOp}

module _ (owner : ObjectId) (pipelines : Map Pipeline) (resources : Map Resource) where
  -- The arms of the `match`. `some bound` goes on with `bound_pipeline` set to `bound`.
  check_op : GraphicsOp → Option ObjectId → Result (Option ObjectId)
  check_op (bind_pipeline id) bound = elim (get id pipelines) [
    | none ↦ err (Error.device "BindPipeline references unknown pipeline")
    | some pipeline ↦
        if not (pipeline.device == owner)
        then err (Error.device "BindPipeline references a pipeline from a different device")
        else ok (some id)
  ]
  check_op (bind_resource binding id) bound = elim (get id resources) [
    | none ↦ err (Error.device "BindResource references unknown resource")
    | some res ↦
        if not (res.device == owner)
        then err (Error.device "BindResource references a resource from a different device")
        else ok bound
  ]
  check_op (draw vertex_count instance_count) bound =
      if not (is_some bound)
      then err (Error.device "Draw/Dispatch issued without a bound pipeline")
      else ok bound
  check_op (dispatch x y z) bound =
      if not (is_some bound)
      then err (Error.device "Draw/Dispatch issued without a bound pipeline")
      else ok bound
  check_op (copy src dst) bound =
      if not (contains_key src resources) || not (contains_key dst resources)
      then err (Error.device "Copy references unknown resource")
      else ok bound
  check_op barrier bound = ok bound

  -- The loop over the operations.
  check_ops : List GraphicsOp → Option ObjectId → Result (Unit {0})
  unfolding check_op
  check_ops [] bound = ok tt
  check_ops (op ∷ ops) bound = elim (check_op op bound) [
    | ok bound' ↦ check_ops ops bound'
    | err e ↦ err e
  ]

unfoldable pub validate_stream : CommandStream → Map Pipeline → Map Resource → Result (Unit {0})
unfolding check_ops
validate_stream stream pipelines resources =
    check_ops stream.device pipelines resources stream.ops none

-- The closure of the `filter_map`.
translate_op : GraphicsOp → Option DriverOp
translate_op (draw vertex_count instance_count) = some (DriverOp.draw vertex_count instance_count)
translate_op (dispatch x y z) = some (DriverOp.dispatch x y z)
translate_op (copy src dst) = some (DriverOp.copy src dst)
translate_op barrier = some DriverOp.barrier
translate_op (bind_pipeline id) = none
translate_op (bind_resource binding id) = none

unfoldable pub translate_ops : List GraphicsOp → List DriverOp
unfolding translate_op
translate_ops [] = []
translate_ops (op ∷ ops) =
    let rest = translate_ops ops in elim (translate_op op) [ none ↦ rest | some d ↦ d ∷ rest ]
