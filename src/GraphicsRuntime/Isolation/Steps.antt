-- ===== src/GraphicsRuntime/Isolation/Steps.antt =====
-- Every call that spares a device leaves it untouched.
use sher_graphics.Base.{◌≡◌, refl, ap, true, false, ◌==◌, arith, Option-cases, Bool-cases, inl, inr}
use sher_graphics.Map.{get, map_laws}
use sher_graphics.Result.{Result-cases}
use sher_graphics.Kernel.{ObjectId, Platform, gpu_memory_alloc}
use sher_graphics.GraphicsApi.{MemoryClass, ResourceKind}
use sher_graphics.GpuAbstraction.Software.{
  software, probe, initialize, reset_device, allocate_vram, free_vram, fault_status, vram_available,
  new_allocation,
}
use sher_graphics.GpuAbstraction.Software.Vram.{allocate_vram_cases}
use sher_graphics.GraphicsRuntime.State.{GraphicsRuntime, log}
use sher_graphics.GraphicsRuntime.Objects.{
  DeviceIds, find_device, create_device, create_timeline, create_resource, create_command_stream,
  create_shader_module, create_pipeline, free_resource, resource_size,
}
use sher_graphics.GraphicsRuntime.Submit.{submit, contain}
use sher_graphics.GraphicsRuntime.Recover.{recover_device, tear_down}
use sher_graphics.GraphicsRuntime.Recover.Cases.{denied, unknown, stuck, done, recover_device_cases}
use sher_graphics.GraphicsRuntime.Presentation.{
  register_connector, present_frame, set_cursor_image, set_cursor_position, show_cursor,
  hide_cursor, cursor_mut,
}
use sher_graphics.GraphicsRuntime.History.{
  Call, creates_device, creates_resource, creates_shader, creates_pipeline, frees_resource,
  recovers, administers, step,
}
use sher_graphics.GraphicsRuntime.Isolation.{
  Spares, IsUntouched, change-IsUntouched, initialize-SameGpu, reset_device-SameGpu,
  allocate_vram-SameGpu, free_vram-SameGpu,
}

module _ {K : Platform} (x g : ObjectId) where
  create_device-IsUntouched :
      (ids : DeviceIds) (gpu : ObjectId) (caps : K.CapabilitySet) (rt : GraphicsRuntime K software)
      → (ids.device == x) ≡ false
      → IsUntouched x g rt (create_device ids gpu caps rt).1
  unfolding create_device log
  create_device-IsUntouched ids gpu caps rt ne =
      elim (Bool-cases (K.has_capability caps gpu_memory_alloc)) [
        | inr e ↦
            change-IsUntouched x g rt _ rt.driver (K.log rt.audit gpu "create_device" false)
              (ground arith) (refl, refl)
        | inl granted ↦ elim (Result-cases (probe rt.driver)) [
          | inr (e, q) ↦
              change-IsUntouched x g rt _ rt.driver (K.log rt.audit gpu "create_device" true)
                (ground arith) (refl, refl)
          | inl (known, probed) ↦ elim (Option-cases (find_device gpu known)) [
            | inl e ↦
                change-IsUntouched x g rt _ rt.driver (K.log rt.audit gpu "create_device" true)
                  (ground arith) (refl, refl)
            | inr (info, found) ↦
                let same = initialize-SameGpu g info rt.driver in
                elim (Result-cases (initialize info rt.driver).0) [
                  | inr (e, q) ↦
                      change-IsUntouched x g rt _ (initialize info rt.driver).1
                        (K.log rt.audit gpu "create_device" true) (ground arith) same
                  | inl (u, q) ↦ record {
                    device = grind map_laws;
                    caps = grind map_laws;
                    gpu = (ground arith, ground arith);
                    resources = λ k r h o. ground arith;
                    shaders = λ k r h o. ground arith;
                    pipelines = λ k r h o. ground arith;
                  }
                ]
          ]
        ]
      ]

  create_resource-IsUntouched :
      (fresh owner : ObjectId) (kind : ResourceKind) (class : MemoryClass)
      (rt : GraphicsRuntime K software)
      → Spares {K = K} x g (creates_resource fresh owner kind class) rt
      → IsUntouched x g rt (create_resource fresh owner kind class rt).1
  unfolding create_resource new_allocation
  create_resource-IsUntouched fresh owner kind class rt (new, apart) =
      elim (Option-cases (get owner rt.devices)) [
        | inl e ↦ change-IsUntouched x g rt _ rt.driver rt.audit (ground arith) (refl, refl)
        | inr (dev, e) ↦
            let ne = apart dev e in
            let same =
              allocate_vram-SameGpu g fresh dev.gpu (resource_size kind) class rt.driver ne in
            elim (allocate_vram_cases fresh dev.gpu (resource_size kind) class rt.driver) [
              | inl (_, q) ↦
                  change-IsUntouched x g rt _ rt.driver rt.audit (ground arith) (refl, refl)
              | inr (inl (_, _, _, q)) ↦
                  change-IsUntouched x g rt _ rt.driver rt.audit (ground arith) (refl, refl)
              | inr (inr (st, known, fits, q)) ↦ record {
                device = ground arith;
                caps = ground arith;
                gpu = (ground arith, ground arith);
                resources = λ k r h o. grind map_laws;
                shaders = λ k r h o. ground arith;
                pipelines = λ k r h o. ground arith;
              }
            ]
      ]

  recover_device-IsUntouched :
      (id : ObjectId) (caps : K.CapabilitySet) (rt : GraphicsRuntime K software)
      → Spares {K = K} x g (recovers id caps) rt
      → IsUntouched x g rt (recover_device id caps rt).1
  unfolding log tear_down
  recover_device-IsUntouched id caps rt (ne, apart) = elim (recover_device_cases id caps rt) [
    | denied _ e ↦ change-IsUntouched x g rt _ rt.driver _ (ap (λ z. z.1) e) (refl, refl)
    | unknown _ _ e ↦ change-IsUntouched x g rt _ rt.driver _ (ap (λ z. z.1) e) (refl, refl)
    | stuck dev _ _ known _ e ↦
        change-IsUntouched x g rt _ _ _ (ap (λ z. z.1) e)
          (reset_device-SameGpu g dev.gpu rt.driver (apart dev known))
    | done dev _ known _ e ↦ rw e (record {
      device = grind map_laws;
      caps = grind map_laws;
      gpu = reset_device-SameGpu g dev.gpu rt.driver (apart dev known);
      resources = λ k r h o. grind map_laws;
      shaders = λ k r h o. grind map_laws;
      pipelines = λ k r h o. grind map_laws;
    })
  ]

  free_resource-IsUntouched :
      (k : ObjectId) (rt : GraphicsRuntime K software)
      → Spares {K = K} x g (frees_resource k) rt
      → IsUntouched x g rt (free_resource k rt).1
  unfolding free_resource
  free_resource-IsUntouched k rt (mine, apart) = elim (Option-cases (get k rt.resources)) [
    | inl e ↦ change-IsUntouched x g rt _ rt.driver rt.audit (ground arith) (refl, refl)
    | inr (r, e) ↦
        let other = mine r e in
        let same = free_vram-SameGpu g k rt.driver apart in
        record {
          device = ground arith;
          caps = ground arith;
          gpu = (ground arith, ground arith);
          resources = λ j s h o. grind map_laws;
          shaders = λ j s h o. ground arith;
          pipelines = λ j s h o. ground arith;
        }
  ]

  pub step-IsUntouched :
      (c : Call K software) (rt : GraphicsRuntime K software)
      → Spares {K = K} x g c rt
      → IsUntouched x g rt (step c rt)
  unfolding step create_timeline create_command_stream create_shader_module create_pipeline
      register_connector present_frame set_cursor_image set_cursor_position show_cursor hide_cursor
      cursor_mut submit contain sher_graphics.GpuAbstraction.Software.submit
  step-IsUntouched (creates_device ids gpu caps) rt h = create_device-IsUntouched ids gpu caps rt h
  step-IsUntouched (creates_resource fresh owner kind class) rt h =
      create_resource-IsUntouched fresh owner kind class rt h
  step-IsUntouched (frees_resource k) rt h = free_resource-IsUntouched k rt h
  step-IsUntouched (recovers id caps) rt h = recover_device-IsUntouched id caps rt h
  step-IsUntouched (administers caps use_driver) rt h = absurd h
  step-IsUntouched (creates_shader fresh owner stage ir) rt h = record {
    device = ground arith;
    caps = ground arith;
    gpu = (ground arith, ground arith);
    resources = λ k r e o. ground arith;
    shaders = λ k r e o. grind map_laws;
    pipelines = λ k r e o. ground arith;
  }
  step-IsUntouched (creates_pipeline fresh owner shader class) rt h = record {
    device = ground arith;
    caps = ground arith;
    gpu = (ground arith, ground arith);
    resources = λ k r e o. ground arith;
    shaders = λ k r e o. ground arith;
    pipelines = λ k r e o. grind map_laws;
  }
  step-IsUntouched c rt h = record {
    device = ground arith;
    caps = ground arith;
    gpu = (ground arith, ground arith);
    resources = λ k r e o. ground arith;
    shaders = λ k r e o. ground arith;
    pipelines = λ k r e o. ground arith;
  }
