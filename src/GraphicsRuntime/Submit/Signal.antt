-- ===== src/GraphicsRuntime/Submit/Signal.antt =====
-- `submit` and `wait` on one timeline.
use sher_graphics.Base.{
  ℕ, ◌≤◌, ◌≡◌, ◌↔◌, ◌⊎◌, inl, inr, true, some, arith, Option-cases, Bool-cases, ◌==◌,
}
use sher_graphics.Map.{get, insert, map_laws}
use sher_graphics.Result.{ok, Result-cases}
use sher_graphics.Kernel.{ObjectId, Platform}
use sher_graphics.GraphicsApi.{QueueHandle, CommandStream}
use sher_graphics.GpuAbstraction.{GpuDriver}
use sher_graphics.GraphicsRuntime.State.{GraphicsRuntime, log}
use sher_graphics.GraphicsRuntime.Submit.{submit, wait, contain}
use sher_graphics.GraphicsRuntime.Submit.Ready.{submit_cases, submit_ready, answer}

module _ {K : Platform} {D : GpuDriver} where
  -- The timeline is there, and at `v` or later.
  abbrev pub HasReached : ObjectId → ℕ → GraphicsRuntime K D → Type 0
  HasReached t v rt = (w : ℕ) × (get t rt.timelines ≡ some w) × (v ≤ w)

  -- `wait` succeeds exactly if the timeline is there and has reached the value.
  pub wait_ok_iff :
      (t : ObjectId) (v : ℕ) (rt : GraphicsRuntime K D) → (wait t v rt ≡ ok tt) ↔ HasReached t v rt
  unfolding wait
  wait_ok_iff t v rt = (
    λ h. elim (Option-cases (get t rt.timelines)) [
      | inl e ↦ absurd (ground arith)
      | inr (w, e) ↦ (w, e, ground arith)
    ],
    λ (w, e, le). ground arith,
  )

module _ {K : Platform} {D : GpuDriver} (queue : QueueHandle) (stream : CommandStream)
    (timeline : ObjectId) (value : ℕ) where
  submit_ok_timelines :
      (rt : GraphicsRuntime K D)
      → (submit queue stream timeline value rt).0 ≡ ok tt
      → (submit queue stream timeline value rt).1.timelines ≡ insert timeline value rt.timelines
  unfolding contain log
  submit_ok_timelines rt h = elim (submit_cases queue stream timeline value rt) [
    | inl (gpu, ready) ↦
        let q = submit_ready queue stream timeline value gpu rt ready in
        elim (Result-cases
          (answer queue stream timeline value gpu (log stream.device "submit" true rt)).0) [
            | inl (u, e) ↦ ground arith
            | inr (x, e) ↦ absurd (ground arith)
          ]
    | inr (e, _) ↦ absurd (ground arith)
  ]

  -- After a successful `submit`, `wait` on its timeline succeeds for the values up to the signal
  -- value and for no other, and `wait` on another timeline answers as before.
  pub submit-wait :
      (other : ObjectId) (v : ℕ) (rt : GraphicsRuntime K D)
      → (submit queue stream timeline value rt).0 ≡ ok tt
      → let after = (submit queue stream timeline value rt).1 in
        ((wait timeline v after ≡ ok tt) ↔ (v ≤ value))
        × ((wait other v after ≡ wait other v rt) ⊎ (other ≡ timeline))
  unfolding wait
  submit-wait other v rt h = (
    (
      λ w. grind (map_laws, submit_ok_timelines rt h),
      λ le. grind (map_laws, submit_ok_timelines rt h),
    ),
    elim (Bool-cases (other == timeline)) [
      | inl same ↦ inr (ground arith)
      | inr differs ↦ inl (grind (map_laws, submit_ok_timelines rt h))
    ],
  )
