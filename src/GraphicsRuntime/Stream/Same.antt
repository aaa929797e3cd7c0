-- ===== src/GraphicsRuntime/Stream/Same.antt =====
-- `validate_stream` looks at the tables by identifier only.
use sher_graphics.Base.{◌≡◌, refl, Option, none, List, [], ◌∷◌, inl, inr, arith}
use sher_graphics.Map.{Map}
use sher_graphics.Map.Same.{Same}
use sher_graphics.Result.{Result-cases}
use sher_graphics.Kernel.{ObjectId}
use sher_graphics.GraphicsApi.{
  CommandStream, Pipeline, Resource, GraphicsOp, bind_pipeline, bind_resource, draw, dispatch, copy,
  barrier,
}
use sher_graphics.GraphicsRuntime.Stream.{check_op, check_ops, validate_stream}

module _ (owner : ObjectId) (p q : Map Pipeline) (r t : Map Resource) (same_p : Same p q)
    (same_r : Same r t) where
  check_op_same :
      (op : GraphicsOp) (bound : Option ObjectId)
      → check_op owner p r op bound ≡ check_op owner q t op bound
  unfolding check_op
  check_op_same (bind_pipeline id) bound = rw (same_p id, check_op) refl
  check_op_same (bind_resource binding id) bound = rw (same_r id, check_op) refl
  check_op_same (draw v i) bound = refl
  check_op_same (dispatch x y z) bound = refl
  check_op_same (copy src dst) bound = rw (same_r src, same_r dst, check_op) refl
  check_op_same barrier bound = refl

  check_ops_same :
      (ops : List GraphicsOp) (bound : Option ObjectId)
      → check_ops owner p r ops bound ≡ check_ops owner q t ops bound
  unfolding check_ops
  check_ops_same [] bound = refl
  check_ops_same (op ∷ ops) bound =
      let head = check_op_same op bound in
      elim (Result-cases (check_op owner q t op bound)) [
        | inl (b, e) ↦ let rest = check_ops_same ops b in ground arith
        | inr (x, e) ↦ ground arith
      ]

pub validate_stream-Same :
    (stream : CommandStream) (p q : Map Pipeline) (r t : Map Resource)
    → Same p q
    → Same r t
    → validate_stream stream p r ≡ validate_stream stream q t
unfolding validate_stream
validate_stream-Same stream p q r t same_p same_r =
    check_ops_same stream.device p q r t same_p same_r stream.ops none
