-- ===== src/GraphicsRuntime/Order/Submissions.antt =====
-- Submissions on runtimes that hold the same entries.
use sher_graphics.Base.{ℕ, ◌≡◌, refl, ap, not, leb}
use sher_graphics.Result.{Error, is_ok, ok_or}
use sher_graphics.Result.Related.{lift-Related, reads-Related, writes-Related, fail_if-Related}
use sher_graphics.Kernel.{ObjectId, Platform, gpu_command_submit}
use sher_graphics.GraphicsApi.{CommandStream, QueueHandle, class_eq, require_capability}
use sher_graphics.GpuAbstraction.{GpuDriver}
use sher_graphics.GraphicsRuntime.State.{GraphicsRuntime}
use sher_graphics.GraphicsRuntime.Stream.{translate_ops}
use sher_graphics.GraphicsRuntime.Stream.Same.{validate_stream-Same}
use sher_graphics.GraphicsRuntime.Submit.{submit, timeline_value}
use sher_graphics.GraphicsRuntime.Order.{IsCongruence, IsSame}
use sher_graphics.GraphicsRuntime.Order.Writes.{timeline_written}
use sher_graphics.GraphicsRuntime.Order.Operations.{
  Alike, AlikeActions, then_, log-Related, device_same, submit_to_driver-Related,
}

module _ {K : Platform} {D : GpuDriver} {R : D.Driver → D.Driver → Type 0}
    (L : IsCongruence D R) where
  pub timeline_same :
      (timeline : ObjectId) (rt sh : GraphicsRuntime K D)
      → IsSame R rt sh
      → timeline_value timeline rt ≡ timeline_value timeline sh
  unfolding timeline_value
  timeline_same timeline rt sh s = rw (s.timelines timeline) refl

  pub submit-Related :
      (queue : QueueHandle) (stream : CommandStream) (timeline : ObjectId) (value : ℕ)
      → AlikeActions {K = K} L (submit queue stream timeline value)
  unfolding submit
  submit-Related queue stream timeline value =
      then_ L
        (fail_if-Related (Alike L) (not (class_eq stream.target_class queue.class))
          (Error.device "command stream workload class does not match queue"))
        λ u.
          then_ L
            (reads-Related (Alike L) _ _ λ rt sh s.
              ap (λ x. ok_or x (Error.device "unknown graphics device"))
                (s.device_caps stream.device))
            λ caps.
              then_ L
                (log-Related L stream.device "submit"
                  (is_ok (require_capability K caps gpu_command_submit)))
                λ u.
                  then_ L (lift-Related (Alike L) (require_capability K caps gpu_command_submit))
                    λ u. then_ L (reads-Related (Alike L) _ _ (device_same L stream.device)) λ dev.
                      then_ L (reads-Related (Alike L) _ _ (timeline_same timeline)) λ current.
                        then_ L
                          (fail_if-Related (Alike L) (leb value current)
                            (Error.device "timeline signal value must be strictly increasing"))
                          λ u.
                            then_ L
                              (reads-Related (Alike L) _ _ λ rt sh s.
                                validate_stream-Same stream rt.pipelines sh.pipelines rt.resources
                                  sh.resources s.pipelines s.resources)
                              λ u.
                                then_ L
                                  (submit_to_driver-Related L dev.gpu queue.class
                                    (translate_ops stream.ops))
                                  λ u.
                                    writes-Related (Alike L) _ _ (timeline_written timeline value)
