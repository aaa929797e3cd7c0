-- ===== src/GraphicsRuntime/Embed/Operations.antt =====
-- Every method of the runtime that calls the driver, over an embedded driver.
use sher_graphics.Base.{ℕ, ◌≡◌, refl, inl, inr, true, List, arith, Bool-cases, Option-cases}
use sher_graphics.Map.{get}
use sher_graphics.Result.{Action, Result-cases}
use sher_graphics.Kernel.{ObjectId, Platform, gpu_memory_alloc, gpu_admin, gpu_command_submit}
use sher_graphics.GraphicsApi.{
  WorkloadClass, MemoryClass, ResourceKind, CommandStream, QueueHandle, class_eq,
}
use sher_graphics.GpuAbstraction.{GpuDriver, DriverOp, Outcome, returned, panicked}
use sher_graphics.GraphicsRuntime.State.{GraphicsRuntime, log}
use sher_graphics.GraphicsRuntime.Stream.{translate_ops}
use sher_graphics.GraphicsRuntime.Objects.{
  DeviceIds, find_device, create_device, create_resource, free_resource, resource_size,
}
use sher_graphics.GraphicsRuntime.Submit.{submit, submit_to_driver, contain, panic_message}
use sher_graphics.GraphicsRuntime.Recover.{driver_mut, recover_device, tear_down}
use sher_graphics.GraphicsRuntime.Embed.{IsEmbedding, embed}

module _ {K : Platform} {D E : GpuDriver} {f : D.Driver → E.Driver} (L : IsEmbedding D E f) where
  -- A method goes the same way with the outer driver.
  abbrev pub Commutes :
      {A : Type 0} → Action (GraphicsRuntime K D) A → Action (GraphicsRuntime K E) A → Type 0
  Commutes m n = (rt : GraphicsRuntime K D) → n (embed f rt) ≡ ((m rt).0, embed f (m rt).1)

  pub create_device_embeds :
      (ids : DeviceIds) (gpu : ObjectId) (caps : K.CapabilitySet)
      → Commutes (create_device ids gpu caps) (create_device ids gpu caps)
  unfolding create_device log
  create_device_embeds ids gpu caps rt =
      elim (Bool-cases (K.has_capability caps gpu_memory_alloc)) [
        | inr e ↦ ground arith
        | inl granted ↦ elim (Result-cases (D.probe rt.driver)) [
          | inr (x, e) ↦ ground (arith, L.probe rt.driver)
          | inl (known, e) ↦ elim (Option-cases (find_device gpu known)) [
            | inl q ↦ ground (arith, L.probe rt.driver)
            | inr (info, q) ↦ ground (arith, L.probe rt.driver, L.initialize info rt.driver)
          ]
        ]
      ]

  pub create_resource_embeds :
      (fresh owner : ObjectId) (kind : ResourceKind) (class : MemoryClass)
      → Commutes (create_resource fresh owner kind class) (create_resource fresh owner kind class)
  unfolding create_resource
  create_resource_embeds fresh owner kind class rt = elim (Option-cases (get owner rt.devices)) [
    | inl e ↦ ground arith
    | inr (dev, e) ↦
        let law = L.allocate_vram fresh dev.gpu (resource_size kind) class rt.driver in
        elim (Result-cases (D.allocate_vram fresh dev.gpu (resource_size kind) class rt.driver).0) [
          | inr (x, q) ↦ ground arith
          | inl (a, q) ↦ ground arith
        ]
  ]

  pub free_resource_embeds : (id : ObjectId) → Commutes (free_resource id) (free_resource id)
  unfolding free_resource
  free_resource_embeds id rt = elim (Option-cases (get id rt.resources)) [
    | inl e ↦ ground arith
    | inr (r, e) ↦ ground (arith, L.free_vram id rt.driver)
  ]

  contain_embeds :
      (gpu : ObjectId) (o : Outcome (Unit {0})) (d : D.Driver) (rt : GraphicsRuntime K D)
      → contain {D = E} gpu (o, f d) (embed f rt)
        ≡ ((contain {D = D} gpu (o, d) rt).0, embed f (contain {D = D} gpu (o, d) rt).1)
  unfolding contain
  contain_embeds gpu (returned r) d rt = refl
  contain_embeds gpu (panicked p) d rt = ground (arith, L.mark_faulted gpu (panic_message p) d)

  submit_to_driver_embeds :
      (gpu : ObjectId) (class : WorkloadClass) (ops : List DriverOp)
      → Commutes (submit_to_driver gpu class ops) (submit_to_driver gpu class ops)
  unfolding submit_to_driver
  submit_to_driver_embeds gpu class ops rt =
      let (o, d) = D.submit gpu class ops rt.driver in
      rw (L.submit gpu class ops rt.driver) (contain_embeds gpu o d rt)

  pub submit_embeds :
      (queue : QueueHandle) (stream : CommandStream) (timeline : ObjectId) (value : ℕ)
      → Commutes (submit queue stream timeline value) (submit queue stream timeline value)
  unfolding submit log
  submit_embeds queue stream timeline value rt =
      elim (Bool-cases (class_eq stream.target_class queue.class)) [
        | inr e ↦ ground arith
        | inl matches ↦ elim (Option-cases (get stream.device rt.device_caps)) [
          | inl e ↦ ground arith
          | inr (caps, held) ↦ elim (Bool-cases (K.has_capability caps gpu_command_submit)) [
            | inr e ↦ ground arith
            | inl granted ↦ elim (Option-cases (get stream.device rt.devices)) [
              | inl e ↦ ground arith
              | inr (dev, known) ↦
                  let law =
                    submit_to_driver_embeds dev.gpu queue.class (translate_ops stream.ops)
                      (log stream.device "submit" true rt) in
                  ground arith
            ]
          ]
        ]
      ]

  pub recover_device_embeds :
      (id : ObjectId) (caps : K.CapabilitySet)
      → Commutes (recover_device id caps) (recover_device id caps)
  unfolding recover_device log tear_down
  recover_device_embeds id caps rt = elim (Bool-cases (K.has_capability caps gpu_admin)) [
    | inr e ↦ ground arith
    | inl granted ↦ elim (Option-cases (get id rt.devices)) [
      | inl e ↦ ground arith
      | inr (dev, known) ↦
          let law = L.reset_device dev.gpu rt.driver in
          elim (Result-cases (D.reset_device dev.gpu rt.driver).0) [
            | inr (x, e) ↦ ground arith
            | inl (u, e) ↦ ground arith
          ]
    ]
  ]

  pub driver_mut_embeds :
      (caps : K.CapabilitySet) (m : Action D.Driver (Unit {0})) (n : Action E.Driver (Unit {0}))
      → ((d : D.Driver) → n (f d) ≡ ((m d).0, f (m d).1))
      → Commutes (driver_mut caps m) (driver_mut caps n)
  unfolding driver_mut
  driver_mut_embeds caps m n h rt = elim (Bool-cases (K.has_capability caps gpu_admin)) [
    | inr e ↦ ground arith
    | inl granted ↦ ground (arith, h rt.driver)
  ]
