-- ===== src/GraphicsRuntime/Submit/Ready.antt =====
-- What `submit` asks for before it calls the driver, and how it ends.
use sher_graphics.Base.{
  ℕ, Bool, ◌<◌, ◌≡◌, refl, ◌↔◌, ◌⊎◌, inl, inr, true, false, some, arith, leb, Bool-cases,
  Option-cases,
}
use sher_graphics.Map.{get, insert}
use sher_graphics.Result.{Result, ok, err, is_ok, Result-cases}
use sher_graphics.Kernel.{ObjectId, Platform, gpu_command_submit}
use sher_graphics.GraphicsApi.{class_eq, QueueHandle, CommandStream, GraphicsDevice}
use sher_graphics.GpuAbstraction.{GpuDriver, returned}
use sher_graphics.GraphicsRuntime.State.{GraphicsRuntime, log}
use sher_graphics.GraphicsRuntime.Stream.{validate_stream, translate_ops}
use sher_graphics.GraphicsRuntime.Submit.{submit, contain}

module _ {K : Platform} {D : GpuDriver} where
  -- Every check of `submit` passes, and the stream's device stands on `gpu`.
  pub record IsReady (queue : QueueHandle) (stream : CommandStream) (timeline : ObjectId)
      (signal_value : ℕ) (gpu : ObjectId) (rt : GraphicsRuntime K D) : Type 0 where
    pub caps : K.CapabilitySet
    pub dev : GraphicsDevice
    pub current : ℕ
    pub matches : class_eq stream.target_class queue.class ≡ true
    pub held : get stream.device rt.device_caps ≡ some caps
    pub granted : K.has_capability caps gpu_command_submit ≡ true
    pub known : get stream.device rt.devices ≡ some dev
    pub placed : dev.gpu ≡ gpu
    pub live : get timeline rt.timelines ≡ some current
    pub later : current < signal_value
    pub sound : validate_stream stream rt.pipelines rt.resources ≡ ok tt

module _ {K : Platform} {D : GpuDriver} (queue : QueueHandle) (stream : CommandStream)
    (timeline : ObjectId) (signal_value : ℕ) where
  -- The last step: the timeline moves if the driver has returned `Ok`.
  abbrev pub signalled :
      Result (Unit {0}) × GraphicsRuntime K D → Result (Unit {0}) × GraphicsRuntime K D
  signalled (ok u, rt) =
      (ok tt, record rt { timelines = insert timeline signal_value rt.timelines })
  signalled (err e, rt) = (err e, rt)

  -- The driver's answer to the stream, contained.
  abbrev pub answer : ObjectId → GraphicsRuntime K D → Result (Unit {0}) × GraphicsRuntime K D
  answer gpu rt = contain gpu (D.submit gpu queue.class (translate_ops stream.ops) rt.driver) rt

  pub submit_ready :
      (gpu : ObjectId) (rt : GraphicsRuntime K D)
      → IsReady queue stream timeline signal_value gpu rt
      → submit queue stream timeline signal_value rt
        ≡ signalled (answer gpu (log stream.device "submit" true rt))
  unfolding submit
  submit_ready gpu rt h = ground arith

  -- A refusal: an error, and at most an entry in the audit log.
  abbrev pub Refuses : GraphicsRuntime K D → Result (Unit {0}) × GraphicsRuntime K D → Type 0
  Refuses rt r =
      (is_ok r.0 ≡ false)
      × ((r.1 ≡ rt) ⊎ ((granted : Bool) × (r.1 ≡ log stream.device "submit" granted rt)))

  -- Every check passes, or one fails and `submit` refuses.
  pub submit_split :
      (rt : GraphicsRuntime K D)
      → ((gpu : ObjectId) × IsReady queue stream timeline signal_value gpu rt)
        ⊎ (((gpu : ObjectId) → ¬ IsReady queue stream timeline signal_value gpu rt)
            × Refuses rt (submit queue stream timeline signal_value rt))
  unfolding submit
  submit_split rt = elim (Bool-cases (class_eq stream.target_class queue.class)) [
    | inr e ↦ inr (λ g h. ground arith, (ground arith, inl (ground arith)))
    | inl matches ↦ elim (Option-cases (get stream.device rt.device_caps)) [
      | inl e ↦ inr (λ g h. ground arith, (ground arith, inl (ground arith)))
      | inr (caps, held) ↦ elim (Bool-cases (K.has_capability caps gpu_command_submit)) [
        | inr e ↦ inr (λ g h. ground arith, (ground arith, inr (false, ground arith)))
        | inl granted ↦ elim (Option-cases (get stream.device rt.devices)) [
          | inl e ↦ inr (λ g h. ground arith, (ground arith, inr (true, ground arith)))
          | inr (dev, known) ↦ elim (Option-cases (get timeline rt.timelines)) [
            | inl e ↦ inr (λ g h. ground arith, (ground arith, inr (true, ground arith)))
            | inr (current, live) ↦ elim (Bool-cases (leb signal_value current)) [
              | inl e ↦ inr (λ g h. ground arith, (ground arith, inr (true, ground arith)))
              | inr later ↦ elim (Result-cases (validate_stream stream rt.pipelines rt.resources)) [
                | inr (x, e) ↦ inr (λ g h. ground arith, (ground arith, inr (true, ground arith)))
                | inl (u, sound) ↦ inl (
                  dev.gpu,
                  record {
                    caps = caps;
                    dev = dev;
                    current = current;
                    matches = matches;
                    held = held;
                    granted = granted;
                    known = known;
                    placed = refl;
                    live = live;
                    later = ground arith;
                    sound = sound;
                  },
                )
              ]
            ]
          ]
        ]
      ]
    ]
  ]

  pub submit_cases :
      (rt : GraphicsRuntime K D)
      → ((gpu : ObjectId) × IsReady queue stream timeline signal_value gpu rt)
        ⊎ Refuses rt (submit queue stream timeline signal_value rt)
  submit_cases rt = elim (submit_split rt) [ inl ready ↦ inl ready | inr (_, r) ↦ inr r ]

  -- `submit` succeeds exactly if every check passes and the driver takes the translated stream:
  -- the classes match, the device's capabilities allow submission, device and timeline are known,
  -- the signal value is above the timeline's, and the stream is valid.
  pub submit_ok_iff :
      (rt : GraphicsRuntime K D)
      → ((submit queue stream timeline signal_value rt).0 ≡ ok tt) ↔ (
          (gpu : ObjectId) × IsReady queue stream timeline signal_value gpu rt
          × ((D.submit gpu queue.class (translate_ops stream.ops) rt.driver).0 ≡ returned (ok tt)))
  unfolding contain log
  submit_ok_iff rt = (
    λ h. elim (submit_cases rt) [
      | inl (gpu, ready) ↦ (gpu, ready, ground (arith, submit_ready gpu rt ready))
      | inr (e, _) ↦ absurd (ground arith)
    ],
    λ (gpu, ready, h). ground (arith, submit_ready gpu rt ready),
  )

  -- The tables that `submit` never writes.
  pub submit_frame :
      (rt : GraphicsRuntime K D)
      → let after = (submit queue stream timeline signal_value rt).1 in
        (after.devices ≡ rt.devices)
        × (after.device_caps ≡ rt.device_caps)
        × (after.resources ≡ rt.resources)
        × (after.shaders ≡ rt.shaders)
        × (after.pipelines ≡ rt.pipelines)
        × (after.cursors ≡ rt.cursors)
        × (after.presentation ≡ rt.presentation)
  unfolding contain log
  submit_frame rt = elim (submit_cases rt) [
    | inl (gpu, ready) ↦ ground (arith, submit_ready gpu rt ready)
    | inr (_, inl e) ↦ rw e (refl, refl, refl, refl, refl, refl, refl)
    | inr (_, inr (granted, e)) ↦ rw e (refl, refl, refl, refl, refl, refl, refl)
  ]

  -- The timelines stay, or the one named moves up to the signal value; they stay on an error.
  pub submit_timelines :
      (rt : GraphicsRuntime K D)
      → let (r, after) = submit queue stream timeline signal_value rt in
        (after.timelines ≡ rt.timelines)
        ⊎ ((r ≡ ok tt)
            × (current : ℕ) × (get timeline rt.timelines ≡ some current)
            × (current < signal_value)
            × (after.timelines ≡ insert timeline signal_value rt.timelines))
  unfolding contain log
  submit_timelines rt = elim (submit_cases rt) [
    | inl (gpu, ready) ↦ elim (Result-cases (answer gpu (log stream.device "submit" true rt)).0) [
      | inl (u, e) ↦
          let q = submit_ready gpu rt ready in
          inr (ground arith, ready.current, ready.live, ready.later, ground arith)
      | inr (x, e) ↦ inl (ground (arith, submit_ready gpu rt ready))
    ]
    | inr (_, inl e) ↦ inl (rw e)
    | inr (_, inr (granted, e)) ↦ inl (rw e)
  ]
