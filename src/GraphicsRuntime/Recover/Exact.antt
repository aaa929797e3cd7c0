-- ===== src/GraphicsRuntime/Recover/Exact.antt =====
-- What a recovery removes, and what it keeps.
use sher_graphics.Base.{
  ◌↔◌, ◌⊎◌, inl, inr, ap, ◌≡◌, refl, Bool, true, none, some, arith, ◌==◌, if◌then◌else◌,
}
use sher_graphics.Map.{Map, get, map_laws}
use sher_graphics.Result.{ok, err, Error}
use sher_graphics.Kernel.{ObjectId, Platform, gpu_admin}
use sher_graphics.GraphicsApi.{GraphicsDevice, Resource, ShaderModule, Pipeline}
use sher_graphics.GpuAbstraction.{GpuDriver}
use sher_graphics.GraphicsRuntime.State.{GraphicsRuntime, log}
use sher_graphics.GraphicsRuntime.Recover.{recover_device, tear_down}
use sher_graphics.GraphicsRuntime.Recover.Cases.{denied, unknown, stuck, done, recover_device_cases}

-- `after` is `before` without the entries that `gone` picks.
abbrev pub Without : {V : Type 0} → (ObjectId → V → Bool) → Map V → Map V → Type 0
Without {V} gone before after =
    (k : ObjectId)
    → get k after ≡ elim (get k before) [ none ↦ none | some v ↦ if gone k v then none else some v ]

module _ {K : Platform} {D : GpuDriver} where
  -- The device and everything that belongs to it is gone, and nothing else is.
  pub record IsWithout (id : ObjectId) (before after : GraphicsRuntime K D) : Type 0 where
    pub devices : Without (λ k (d : GraphicsDevice). k == id) before.devices after.devices
    pub device_caps :
        Without (λ k (c : K.CapabilitySet). k == id) before.device_caps after.device_caps
    pub resources : Without (λ k (r : Resource). r.device == id) before.resources after.resources
    pub shaders : Without (λ k (s : ShaderModule). s.device == id) before.shaders after.shaders
    pub pipelines : Without (λ k (p : Pipeline). p.device == id) before.pipelines after.pipelines
    pub timelines : after.timelines ≡ before.timelines
    pub cursors : after.cursors ≡ before.cursors
    pub presentation : after.presentation ≡ before.presentation

  tear_down-IsWithout :
      (id : ObjectId) (d : D.Driver) (a : K.AuditLog) (rt : GraphicsRuntime K D)
      → IsWithout id rt (tear_down id (record rt { driver = d; audit = a }))
  unfolding tear_down
  tear_down-IsWithout id d a rt = record {
    devices = λ k. grind map_laws;
    device_caps = λ k. grind map_laws;
    resources = λ k. grind map_laws;
    shaders = λ k. grind map_laws;
    pipelines = λ k. grind map_laws;
    timelines = refl;
    cursors = refl;
    presentation = refl;
  }

  -- Everything but the driver and the audit log is as it was.
  abbrev pub SameBut : GraphicsRuntime K D → GraphicsRuntime K D → Type 0
  SameBut before after = after ≡ record before { driver = after.driver; audit = after.audit }

  -- `recover_device` succeeds exactly if the caller holds `GpuAdmin`, the device is known and the
  -- driver resets its GPU.
  pub recover_device_ok_iff :
      (id : ObjectId) (caps : K.CapabilitySet) (rt : GraphicsRuntime K D)
      → ((recover_device id caps rt).0 ≡ ok tt) ↔ (
          (K.has_capability caps gpu_admin ≡ true)
          × (dev : GraphicsDevice) × (get id rt.devices ≡ some dev)
          × ((D.reset_device dev.gpu rt.driver).0 ≡ ok tt))
  unfolding log
  recover_device_ok_iff id caps rt = (
    λ h. elim (recover_device_cases id caps rt) [
      | denied _ e ↦ absurd (ground arith)
      | unknown _ _ e ↦ absurd (ground arith)
      | stuck _ _ _ _ _ e ↦ absurd (ground arith)
      | done dev granted known reset e ↦ (granted, dev, known, reset)
    ],
    λ (granted, dev, known, reset). elim (recover_device_cases id caps rt) [
      | denied refused e ↦ absurd (ground arith)
      | unknown _ missing e ↦ absurd (ground arith)
      | stuck dev' x _ known' fails e ↦ absurd (ground arith)
      | done _ _ _ _ e ↦ rw e
    ],
  )

  -- A recovery that succeeds removes the device, its capability set, and the resources, shaders and
  -- pipelines that belong to it, and no other; timelines, cursors and the display stay. One that
  -- fails changes nothing but the driver and the audit log.
  pub recover_device_exact :
      (id : ObjectId) (caps : K.CapabilitySet) (rt : GraphicsRuntime K D)
      → let (r, after) = recover_device id caps rt in
        ((r ≡ ok tt) × IsWithout id rt after) ⊎ ((e : Error) × (r ≡ err e) × SameBut rt after)
  unfolding log
  recover_device_exact id caps rt = elim (recover_device_cases id caps rt) [
    | denied _ e ↦ inr (_, ap (λ x. x.0) e, rw e refl)
    | unknown _ _ e ↦ inr (_, ap (λ x. x.0) e, rw e refl)
    | stuck _ _ _ _ _ e ↦ inr (_, ap (λ x. x.0) e, rw e refl)
    | done dev _ _ _ e ↦ inl (ap (λ x. x.0) e, rw e (tear_down-IsWithout id _ _ rt))
  ]
