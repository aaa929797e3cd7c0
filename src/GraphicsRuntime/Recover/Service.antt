-- ===== src/GraphicsRuntime/Recover/Service.antt =====
-- What a GPU without a fault serves, over the software driver.
use sher_graphics.Base.{
  ℕ, ◌<◌, ◌≡◌, refl, ap, inl, inr, Bool-cases, true, none, some, List, [], ◌∷◌, map, arith, ◌==◌,
}
use sher_graphics.Map.{Map, get, modify, values, insert, map_laws}
use sher_graphics.Result.{ok}
use sher_graphics.Kernel.{ObjectId, DeviceInfo, Platform, gpu_memory_alloc, gpu_command_submit}
use sher_graphics.GraphicsApi.{WorkloadClass, class_eq, QueueHandle, CommandStream}
use sher_graphics.GpuAbstraction.{DriverOp, returned}
use sher_graphics.GpuAbstraction.Software.{
  software, SoftwareGpuDriver, DeviceState, probe, initialize, reset_device,
  submit as driver_submit,
}
use sher_graphics.GpuAbstraction.Software.History.{set_state_cases}
use sher_graphics.GraphicsRuntime.State.{GraphicsRuntime, log}
use sher_graphics.GraphicsRuntime.Objects.{
  DeviceIds, find_device, new_graphics_device, create_device, create_timeline,
}
use sher_graphics.GraphicsRuntime.Stream.{validate_stream, translate_ops}
use sher_graphics.GraphicsRuntime.Submit.{submit}
use sher_graphics.GraphicsRuntime.Submit.Ready.{IsReady, submit_ok_iff}

-- What the software driver lists.
abbrev pub listed : SoftwareGpuDriver → List DeviceInfo
listed d = map (λ s. s.info) (values d.devices)

pub listed-modify :
    (k : ObjectId) (f : DeviceState → DeviceState) (m : Map DeviceState)
    → ((s : DeviceState) → (f s).info ≡ s.info)
    → map (λ s. s.info) (values (modify k f m)) ≡ map (λ s. s.info) (values m)
unfolding modify
listed-modify k f [] same = refl
listed-modify k f ((j, s) ∷ m) same = elim (Bool-cases (k == j)) [
  | inl e ↦ rw e (ap (λ i. i ∷ map (λ t. t.info) (values m)) (same s))
  | inr e ↦ rw e (ap (λ is. s.info ∷ is) (listed-modify k f m same))
]

pub find_device_id :
    (g : ObjectId) (is : List DeviceInfo) (info : DeviceInfo)
    → find_device g is ≡ some info
    → info.id ≡ g
unfolding find_device
find_device_id g [] info h = cc
find_device_id g (i ∷ is) info h = ground (arith, find_device_id g is info)

-- A driver whose GPU `g` is known and has no fault.
abbrev pub Works : ObjectId → SoftwareGpuDriver → Type 0
Works g d = (s : DeviceState) × (get g d.devices ≡ some s) × (s.fault ≡ none)

pub reset-Works :
    (g : ObjectId) (d : SoftwareGpuDriver)
    → (reset_device g d).0 ≡ ok tt
    → Works g (reset_device g d).1 × (listed (reset_device g d).1 ≡ listed d)
unfolding reset_device
reset-Works g d h = elim (set_state_cases g (λ s. record s { fault = none }) d) [
  | inl (_, e) ↦ absurd (ground arith)
  | inr (s, known, e) ↦ rw e (
    (record s { fault = none }, grind map_laws, refl),
    listed-modify g (λ s. record s { fault = none }) d.devices (λ s. refl),
  )
]

pub initialize-Works :
    (g : ObjectId) (info : DeviceInfo) (d : SoftwareGpuDriver)
    → info.id ≡ g
    → Works g d
    → ((initialize info d).0 ≡ ok tt) × Works g (initialize info d).1
unfolding initialize
initialize-Works g info d here (s, known, healthy) =
    elim (set_state_cases info.id (λ s. record s { initialized = true }) d) [
      | inl (missing, e) ↦ absurd (ground arith)
      | inr (t, held, e) ↦ rw e (refl, (record s { initialized = true }, grind map_laws, healthy))
    ]

submit-Works :
    (g : ObjectId) (class : WorkloadClass) (ops : List DriverOp) (d : SoftwareGpuDriver)
    → Works g d
    → (driver_submit g class ops d).0 ≡ returned (ok tt)
unfolding driver_submit
submit-Works g class ops d (s, known, healthy) = ground arith

module _ {K : Platform} where
  create_device_goes :
      (ids : DeviceIds) (caps : K.CapabilitySet) (g : ObjectId) (info : DeviceInfo)
      (rt : GraphicsRuntime K software)
      → K.has_capability caps gpu_memory_alloc ≡ true
      → find_device g (listed rt.driver) ≡ some info
      → (initialize info rt.driver).0 ≡ ok tt
      → create_device ids g caps rt ≡ (
        ok (new_graphics_device ids g),
        record rt {
          driver = (initialize info rt.driver).1;
          devices = insert ids.device (new_graphics_device ids g) rt.devices;
          device_caps = insert ids.device caps rt.device_caps;
          audit = K.log rt.audit g "create_device" true;
        },
      )
  unfolding create_device log probe
  create_device_goes ids caps g info rt granted found started = ground arith

  -- The runtime with a new device and a timeline.
  abbrev renewed :
      DeviceIds
      → ObjectId
      → ObjectId
      → K.CapabilitySet
      → DeviceInfo
      → GraphicsRuntime K software
      → GraphicsRuntime K software
  renewed ids g timeline caps info rt = record rt {
    driver = (initialize info rt.driver).1;
    devices = insert ids.device (new_graphics_device ids g) rt.devices;
    device_caps = insert ids.device caps rt.device_caps;
    timelines = insert timeline 0 rt.timelines;
    audit = K.log rt.audit g "create_device" true;
  }

  create_timeline_goes :
      (ids : DeviceIds) (caps : K.CapabilitySet) (g timeline : ObjectId) (info : DeviceInfo)
      (rt : GraphicsRuntime K software)
      → create_timeline timeline ids.device (record rt {
        driver = (initialize info rt.driver).1;
        devices = insert ids.device (new_graphics_device ids g) rt.devices;
        device_caps = insert ids.device caps rt.device_caps;
        audit = K.log rt.audit g "create_device" true;
      })
        ≡ (
          ok (record { id = timeline; device = ids.device; current_value = 0 }),
          renewed ids g timeline caps info rt,
        )
  unfolding create_timeline
  create_timeline_goes ids caps g timeline info rt = grind map_laws

  renewed-IsReady :
      (ids : DeviceIds) (caps : K.CapabilitySet) (g timeline : ObjectId) (value : ℕ)
      (info : DeviceInfo) (on : QueueHandle) (stream : CommandStream)
      (rt : GraphicsRuntime K software)
      → K.has_capability caps gpu_command_submit ≡ true
      → stream.device ≡ ids.device
      → class_eq stream.target_class on.class ≡ true
      → validate_stream stream rt.pipelines rt.resources ≡ ok tt
      → 0 < value
      → IsReady on stream timeline value g (renewed ids g timeline caps info rt)
  unfolding new_graphics_device
  renewed-IsReady ids caps g timeline value info on stream rt granted here class sound later =
      record {
        caps = caps;
        dev = new_graphics_device ids g;
        current = 0;
        matches = class;
        held = grind map_laws;
        granted = granted;
        known = grind map_laws;
        placed = refl;
        live = grind map_laws;
        later = later;
        sound = sound;
      }

  -- What a client of a GPU without a fault does: a new device, a timeline, and a submission.
  abbrev pub Serves :
      DeviceIds
      → K.CapabilitySet
      → (g timeline : ObjectId) → ℕ
      → QueueHandle
      → CommandStream
      → GraphicsRuntime K software
      → Type 0
  Serves ids caps g timeline value on stream rt =
      let (r, held) = create_device ids g caps rt in
      let (q, timed) = create_timeline timeline ids.device held in
      (r ≡ ok (new_graphics_device ids g))
      × (q ≡ ok (record { id = timeline; device = ids.device; current_value = 0 }))
      × ((submit on stream timeline value timed).0 ≡ ok tt)

  pub serves :
      (ids : DeviceIds) (caps : K.CapabilitySet) (g timeline : ObjectId) (value : ℕ)
      (info : DeviceInfo) (on : QueueHandle) (stream : CommandStream)
      (rt : GraphicsRuntime K software)
      → Works g rt.driver
      → find_device g (listed rt.driver) ≡ some info
      → K.has_capability caps gpu_memory_alloc ≡ true
      → K.has_capability caps gpu_command_submit ≡ true
      → stream.device ≡ ids.device
      → class_eq stream.target_class on.class ≡ true
      → validate_stream stream rt.pipelines rt.resources ≡ ok tt
      → 0 < value
      → Serves ids caps g timeline value on stream rt
  serves ids caps g timeline value info on stream rt works found mem sub here class sound later =
      let (started, works') =
        initialize-Works g info rt.driver (find_device_id g (listed rt.driver) info found) works in
      rw
        (
          create_device_goes ids caps g info rt mem found started,
          create_timeline_goes ids caps g timeline info rt,
        )
        (
          refl,
          refl,
          (submit_ok_iff on stream timeline value (renewed ids g timeline caps info rt)).1 (
            g,
            renewed-IsReady ids caps g timeline value info on stream rt sub here class sound later,
            submit-Works g on.class (translate_ops stream.ops) _ works',
          ),
        )
