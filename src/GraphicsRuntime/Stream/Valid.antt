-- ===== src/GraphicsRuntime/Stream/Valid.antt =====
-- Which streams `validate_stream` accepts, said without its loop.
use sher_graphics.Base.{
  ◌≡◌, refl, sym, ap, subst, ◌∙◌, ◌↔◌, Bool, true, false, Option, none, some, is_some, List, [],
  ◌∷◌, ◌++◌, arith, Option-cases, inl, inr, ◌||◌,
}
use mathlib.Core.List.{append_assoc, append-nil}
use sher_graphics.Map.{Map, get, contains_key}
use sher_graphics.Result.{Result, ok, Result-cases}
use sher_graphics.Kernel.{ObjectId}
use sher_graphics.GraphicsApi.{
  GraphicsOp, bind_pipeline, bind_resource, draw, dispatch, copy, barrier, CommandStream, Pipeline,
  Resource,
}
use sher_graphics.GraphicsRuntime.Stream.{check_op, check_ops, validate_stream}

-- Some operation of the list binds a pipeline.
abbrev pub binds_pipeline : List GraphicsOp → Bool
binds_pipeline [] = false
binds_pipeline (bind_pipeline id ∷ ops) = true
binds_pipeline (op ∷ ops) = binds_pipeline ops

module _ (owner : ObjectId) (pipelines : Map Pipeline) (resources : Map Resource) where
  -- What an operation needs, given those before it.
  abbrev pub IsSound : List GraphicsOp → GraphicsOp → Type 0
  IsSound before (bind_pipeline id) =
      (p : Pipeline) × (get id pipelines ≡ some p) × (p.device ≡ owner)
  IsSound before (bind_resource binding id) =
      (r : Resource) × (get id resources ≡ some r) × (r.device ≡ owner)
  IsSound before (draw vertex_count instance_count) = binds_pipeline before ≡ true
  IsSound before (dispatch x y z) = binds_pipeline before ≡ true
  IsSound before (copy src dst) =
      (contains_key src resources ≡ true) × (contains_key dst resources ≡ true)
  IsSound before barrier = Unit

  -- Every operation of a stream is sound after those before it.
  abbrev pub AreSound : List GraphicsOp → Type 0
  AreSound ops =
      (before : List GraphicsOp) (op : GraphicsOp) (after : List GraphicsOp)
      → ops ≡ before ++ op ∷ after
      → IsSound before op

binds_pipeline-append :
    (xs : List GraphicsOp) (op : GraphicsOp)
    → binds_pipeline (xs ++ op ∷ []) ≡ (binds_pipeline xs || binds_pipeline (op ∷ []))
binds_pipeline-append [] op = refl
binds_pipeline-append (bind_pipeline id ∷ xs) op = refl
binds_pipeline-append (bind_resource binding id ∷ xs) op = binds_pipeline-append xs op
binds_pipeline-append (draw vertex_count instance_count ∷ xs) op = binds_pipeline-append xs op
binds_pipeline-append (dispatch x y z ∷ xs) op = binds_pipeline-append xs op
binds_pipeline-append (copy src dst ∷ xs) op = binds_pipeline-append xs op
binds_pipeline-append (barrier ∷ xs) op = binds_pipeline-append xs op

module _ (owner : ObjectId) (pipelines : Map Pipeline) (resources : Map Resource) where
  abbrev Sound : List GraphicsOp → GraphicsOp → Type 0
  Sound = IsSound owner pipelines resources

  abbrev check : GraphicsOp → Option ObjectId → Result (Option ObjectId)
  check = check_op owner pipelines resources

  -- An arm that accepts has found its operation sound.
  check_op-IsSound :
      (before : List GraphicsOp) (op : GraphicsOp) (bound next : Option ObjectId)
      → is_some bound ≡ binds_pipeline before
      → check op bound ≡ ok next
      → Sound before op
  unfolding check_op
  check_op-IsSound before (bind_pipeline id) bound next e h =
      elim (Option-cases (get id pipelines)) [
        | inl q ↦ absurd (ground arith)
        | inr (p, q) ↦ (p, q, ground arith)
      ]
  check_op-IsSound before (bind_resource binding id) bound next e h =
      elim (Option-cases (get id resources)) [
        | inl q ↦ absurd (ground arith)
        | inr (r, q) ↦ (r, q, ground arith)
      ]
  check_op-IsSound before (draw vertex_count instance_count) bound next e h = ground arith
  check_op-IsSound before (dispatch x y z) bound next e h = ground arith
  check_op-IsSound before (copy src dst) bound next e h = (ground arith, ground arith)
  check_op-IsSound before barrier bound next e h = tt

  -- An arm accepts a sound operation.
  IsSound-check_op :
      (before : List GraphicsOp) (op : GraphicsOp) (bound : Option ObjectId)
      → is_some bound ≡ binds_pipeline before
      → Sound before op
      → (next : Option ObjectId) × (check op bound ≡ ok next)
  unfolding check_op
  IsSound-check_op before (bind_pipeline id) bound e (p, q, owned) = (some id, ground arith)
  IsSound-check_op before (bind_resource binding id) bound e (r, q, owned) = (bound, ground arith)
  IsSound-check_op before (draw vertex_count instance_count) bound e h = (bound, ground arith)
  IsSound-check_op before (dispatch x y z) bound e h = (bound, ground arith)
  IsSound-check_op before (copy src dst) bound e h = (bound, ground arith)
  IsSound-check_op before barrier bound e h = (bound, refl)

  -- `bound_pipeline` is set once a pipeline has been bound.
  check_op-bound :
      (before : List GraphicsOp) (op : GraphicsOp) (bound next : Option ObjectId)
      → is_some bound ≡ binds_pipeline before
      → check op bound ≡ ok next
      → is_some next ≡ binds_pipeline (before ++ op ∷ [])
  unfolding check_op
  check_op-bound before (bind_pipeline id) bound next e h =
      ground (arith, binds_pipeline-append before (bind_pipeline id))
  check_op-bound before (bind_resource binding id) bound next e h =
      ground (arith, binds_pipeline-append before (bind_resource binding id))
  check_op-bound before (draw vertex_count instance_count) bound next e h =
      ground (arith, binds_pipeline-append before (draw vertex_count instance_count))
  check_op-bound before (dispatch x y z) bound next e h =
      ground (arith, binds_pipeline-append before (dispatch x y z))
  check_op-bound before (copy src dst) bound next e h =
      ground (arith, binds_pipeline-append before (copy src dst))
  check_op-bound before barrier bound next e h =
      ground (arith, binds_pipeline-append before barrier)

  -- The same, along the list, after the operations `seen`.
  abbrev SoundAfter : List GraphicsOp → List GraphicsOp → Type 0
  SoundAfter seen [] = Unit
  SoundAfter seen (op ∷ ops) = Sound seen op × SoundAfter (seen ++ op ∷ []) ops

  check_ops-SoundAfter :
      (seen ops : List GraphicsOp) (bound : Option ObjectId)
      → is_some bound ≡ binds_pipeline seen
      → check_ops owner pipelines resources ops bound ≡ ok tt
      → SoundAfter seen ops
  unfolding check_ops
  check_ops-SoundAfter seen [] bound e h = tt
  check_ops-SoundAfter seen (op ∷ ops) bound e h = elim (Result-cases (check op bound)) [
    | inl (next, q) ↦ (
      check_op-IsSound seen op bound next e q,
      check_ops-SoundAfter (seen ++ op ∷ []) ops next (check_op-bound seen op bound next e q)
          (ground arith),
    )
    | inr (x, q) ↦ absurd (ground arith)
  ]

  SoundAfter-check_ops :
      (seen ops : List GraphicsOp) (bound : Option ObjectId)
      → is_some bound ≡ binds_pipeline seen
      → SoundAfter seen ops
      → check_ops owner pipelines resources ops bound ≡ ok tt
  unfolding check_ops
  SoundAfter-check_ops seen [] bound e h = refl
  SoundAfter-check_ops seen (op ∷ ops) bound e h =
      let (next, q) = IsSound-check_op seen op bound e h.0 in
      let rest =
        SoundAfter-check_ops (seen ++ op ∷ []) ops next (check_op-bound seen op bound next e q)
          h.1 in
      ground arith

  AreSound-SoundAfter :
      (seen ops : List GraphicsOp)
      → ((before : List GraphicsOp) (op : GraphicsOp) (after : List GraphicsOp)
          → ops ≡ before ++ op ∷ after
          → Sound (seen ++ before) op)
      → SoundAfter seen ops
  AreSound-SoundAfter seen [] h = tt
  AreSound-SoundAfter seen (op ∷ ops) h = (
    subst (λ l. Sound l op) (append-nil seen) (h [] op ops refl),
    AreSound-SoundAfter (seen ++ op ∷ []) ops λ before x after e.
        subst (λ l. Sound l x) (sym (append_assoc seen (op ∷ []) before))
          (h (op ∷ before) x after (ap (◌∷◌ op) e)),
  )

  SoundAfter-AreSound :
      (seen ops before : List GraphicsOp) (op : GraphicsOp) (after : List GraphicsOp)
      → SoundAfter seen ops
      → ops ≡ before ++ op ∷ after
      → Sound (seen ++ before) op
  SoundAfter-AreSound seen [] [] op after h e = absurd (ground arith)
  SoundAfter-AreSound seen [] (b ∷ before) op after h e = absurd (ground arith)
  SoundAfter-AreSound seen (x ∷ ops) [] op after h e =
      let same : x ≡ op = cc in rw append-nil (subst (Sound seen) same h.0)
  SoundAfter-AreSound seen (x ∷ ops) (b ∷ before) op after h e =
      let same : x ≡ b = cc in
      let rest : ops ≡ before ++ op ∷ after = cc in
      subst (λ l. Sound l op)
        (append_assoc seen (x ∷ []) before ∙ ap (λ y. seen ++ y ∷ before) same)
        (SoundAfter-AreSound (seen ++ x ∷ []) ops before op after h.1 rest)

-- `validate_stream` accepts a stream exactly if each operation is sound after those before it: a
-- bound pipeline or resource is live and of the stream's device, a draw or dispatch comes after
-- some bound pipeline, and both ends of a copy are live.
pub validate_stream_iff :
    (stream : CommandStream) (pipelines : Map Pipeline) (resources : Map Resource)
    → (validate_stream stream pipelines resources ≡ ok tt)
      ↔ AreSound stream.device pipelines resources stream.ops
unfolding validate_stream
validate_stream_iff stream pipelines resources = (
  λ h before op after e.
      SoundAfter-AreSound stream.device pipelines resources [] stream.ops before op after
        (check_ops-SoundAfter stream.device pipelines resources [] stream.ops none refl h) e,
  λ h.
      SoundAfter-check_ops stream.device pipelines resources [] stream.ops none refl
        (AreSound-SoundAfter stream.device pipelines resources [] stream.ops h),
)
