-- ===== src/GraphicsRuntime/History/Tables.antt =====
-- How the tables of the runtime hang together over histories.
use sher_graphics.Base.{ℕ, ◌≡◌, refl, Bool, true, false, some, List, [], ◌∷◌, arith}
use sher_graphics.Map.{get, contains_key, map_laws, retain-some}
use sher_graphics.Kernel.{ObjectId, Platform}
use sher_graphics.GraphicsApi.{
  GraphicsDevice, Resource, ShaderModule, Pipeline, WorkloadClass, MemoryClass, ShaderStage,
  ResourceKind,
}
use sher_graphics.GpuAbstraction.{GpuDriver}
use sher_graphics.GraphicsRuntime.State.{GraphicsRuntime, new, log}
use sher_graphics.GraphicsRuntime.Objects.{
  create_device, create_timeline, create_resource, create_command_stream, create_shader_module,
  create_pipeline, free_resource, new_graphics_device, DeviceIds,
}
use sher_graphics.GraphicsRuntime.Submit.Ready.{submit_frame}
use sher_graphics.GraphicsRuntime.Recover.{driver_mut, recover_device, tear_down}
use sher_graphics.GraphicsRuntime.Recover.Cases.{denied, unknown, stuck, done, recover_device_cases}
use sher_graphics.GraphicsRuntime.Presentation.{
  register_connector, present_frame, set_cursor_image, set_cursor_position, show_cursor,
  hide_cursor,
}
use sher_graphics.GraphicsRuntime.History.{
  Call, creates_device, creates_resource, creates_shader, creates_pipeline, frees_resource, submits,
  recovers, step, run,
}

module _ {K : Platform} {D : GpuDriver} where
  -- A device is listed under its own identifier and has a capability set, and no other set is kept;
  -- every resource, shader and pipeline is listed under its own identifier and belongs to a device
  -- that is there.
  pub record IsConsistent (rt : GraphicsRuntime K D) : Type 0 where
    pub device_keys : (k : ObjectId) (d : GraphicsDevice) → get k rt.devices ≡ some d → d.id ≡ k
    pub capped : (k : ObjectId) → contains_key k rt.device_caps ≡ contains_key k rt.devices
    pub resources_live :
        (k : ObjectId) (r : Resource)
        → get k rt.resources ≡ some r
        → (r.id ≡ k) × (contains_key r.device rt.devices ≡ true)
    pub shaders_live :
        (k : ObjectId) (s : ShaderModule)
        → get k rt.shaders ≡ some s
        → (s.id ≡ k) × (contains_key s.device rt.devices ≡ true)
    pub pipelines_live :
        (k : ObjectId) (p : Pipeline)
        → get k rt.pipelines ≡ some p
        → (p.id ≡ k) × (contains_key p.device rt.devices ≡ true)

  new-IsConsistent : (driver : D.Driver) (bytes : ℕ) → IsConsistent (new K D driver bytes)
  unfolding new get
  new-IsConsistent driver bytes = record {
    device_keys = λ k d e. cc;
    capped = λ k. refl;
    resources_live = λ k r e. cc;
    shaders_live = λ k s e. cc;
    pipelines_live = λ k p e. cc;
  }

  -- Only these five tables matter.
  abbrev SameTables : GraphicsRuntime K D → GraphicsRuntime K D → Type 0
  SameTables a b =
      (a.devices ≡ b.devices)
      × (a.device_caps ≡ b.device_caps)
      × (a.resources ≡ b.resources)
      × (a.shaders ≡ b.shaders)
      × (a.pipelines ≡ b.pipelines)

  SameTables-IsConsistent :
      (a b : GraphicsRuntime K D) → SameTables a b → IsConsistent b → IsConsistent a
  SameTables-IsConsistent a b (d, c, r, s, p) v = record {
    device_keys = rw d v.device_keys;
    capped = rw (c, d) v.capped;
    resources_live = rw (r, d) v.resources_live;
    shaders_live = rw (s, d) v.shaders_live;
    pipelines_live = rw (p, d) v.pipelines_live;
  }

  tear_down-IsConsistent :
      (id : ObjectId) (rt : GraphicsRuntime K D) → IsConsistent rt → IsConsistent (tear_down id rt)
  unfolding tear_down
  tear_down-IsConsistent id rt v = record {
    device_keys = λ k d e. grind (map_laws, v.device_keys k);
    capped = λ k. grind (map_laws, v.capped k);
    resources_live = λ k r e.
        let (old, kept) = retain-some k r _ rt.resources e in
        let live = v.resources_live k r old in (live.0, grind (map_laws));
    shaders_live = λ k s e.
        let (old, kept) = retain-some k s _ rt.shaders e in
        let live = v.shaders_live k s old in (live.0, grind (map_laws));
    pipelines_live = λ k p e.
        let (old, kept) = retain-some k p _ rt.pipelines e in
        let live = v.pipelines_live k p old in (live.0, grind (map_laws));
  }

  -- The steps that write none of the five tables.
  abbrev writes_table : Call K D → Bool
  writes_table (creates_device ids gpu caps) = true
  writes_table (creates_resource fresh owner kind class) = true
  writes_table (creates_shader fresh owner stage ir) = true
  writes_table (creates_pipeline fresh owner shader class) = true
  writes_table (frees_resource id) = true
  writes_table (recovers id caps) = true
  writes_table _ = false

  step-SameTables :
      (c : Call K D) (rt : GraphicsRuntime K D) → writes_table c ≡ false → SameTables (step c rt) rt
  unfolding step create_timeline create_command_stream driver_mut register_connector present_frame
      set_cursor_image set_cursor_position show_cursor hide_cursor
  step-SameTables (creates_device ids gpu caps) rt h = cc
  step-SameTables (creates_resource fresh owner kind class) rt h = cc
  step-SameTables (creates_shader fresh owner stage ir) rt h = cc
  step-SameTables (creates_pipeline fresh owner shader class) rt h = cc
  step-SameTables (frees_resource id) rt h = cc
  step-SameTables (recovers id caps) rt h = cc
  step-SameTables (submits queue stream timeline value) rt h =
      let (d, c, r, s, p, _, _) = submit_frame queue stream timeline value rt in (d, c, r, s, p)
  step-SameTables c rt h = (ground arith, ground arith, ground arith, ground arith, ground arith)

  create_device-IsConsistent :
      (ids : DeviceIds) (gpu : ObjectId) (caps : K.CapabilitySet) (rt : GraphicsRuntime K D)
      → IsConsistent rt
      → IsConsistent (create_device ids gpu caps rt).1
  unfolding create_device new_graphics_device
  create_device-IsConsistent ids gpu caps rt v = record {
    device_keys = λ k d e. grind (map_laws, v.device_keys k);
    capped = λ k. grind (map_laws, v.capped k);
    resources_live = λ k r e. grind (map_laws, v.resources_live k r);
    shaders_live = λ k s e. grind (map_laws, v.shaders_live k s);
    pipelines_live = λ k p e. grind (map_laws, v.pipelines_live k p);
  }

  create_resource-IsConsistent :
      (fresh owner : ObjectId) (kind : ResourceKind) (class : MemoryClass)
      (rt : GraphicsRuntime K D)
      → IsConsistent rt
      → IsConsistent (create_resource fresh owner kind class rt).1
  unfolding create_resource
  create_resource-IsConsistent fresh owner kind class rt v = record {
    device_keys = λ k d e. grind (map_laws, v.device_keys k);
    capped = λ k. grind (map_laws, v.capped k);
    resources_live = λ k r e. grind (map_laws, v.resources_live k r);
    shaders_live = λ k s e. grind (map_laws, v.shaders_live k s);
    pipelines_live = λ k p e. grind (map_laws, v.pipelines_live k p);
  }

  create_shader-IsConsistent :
      (fresh owner : ObjectId) (stage : ShaderStage) (ir : List ℕ) (rt : GraphicsRuntime K D)
      → IsConsistent rt
      → IsConsistent (create_shader_module fresh owner stage ir rt).1
  unfolding create_shader_module
  create_shader-IsConsistent fresh owner stage ir rt v = record {
    device_keys = λ k d e. grind (map_laws, v.device_keys k);
    capped = λ k. grind (map_laws, v.capped k);
    resources_live = λ k r e. grind (map_laws, v.resources_live k r);
    shaders_live = λ k s e. grind (map_laws, v.shaders_live k s);
    pipelines_live = λ k p e. grind (map_laws, v.pipelines_live k p);
  }

  create_pipeline-IsConsistent :
      (fresh owner shader : ObjectId) (class : WorkloadClass) (rt : GraphicsRuntime K D)
      → IsConsistent rt
      → IsConsistent (create_pipeline fresh owner shader class rt).1
  unfolding create_pipeline
  create_pipeline-IsConsistent fresh owner shader class rt v = record {
    device_keys = λ k d e. grind (map_laws, v.device_keys k);
    capped = λ k. grind (map_laws, v.capped k);
    resources_live = λ k r e. grind (map_laws, v.resources_live k r);
    shaders_live = λ k s e. grind (map_laws, v.shaders_live k s);
    pipelines_live = λ k p e. grind (map_laws, v.pipelines_live k p);
  }

  free_resource-IsConsistent :
      (id : ObjectId) (rt : GraphicsRuntime K D)
      → IsConsistent rt
      → IsConsistent (free_resource id rt).1
  unfolding free_resource
  free_resource-IsConsistent id rt v = record {
    device_keys = λ k d e. grind (map_laws, v.device_keys k);
    capped = λ k. grind (map_laws, v.capped k);
    resources_live = λ k r e. grind (map_laws, v.resources_live k r);
    shaders_live = λ k s e. grind (map_laws, v.shaders_live k s);
    pipelines_live = λ k p e. grind (map_laws, v.pipelines_live k p);
  }

  recover_device-IsConsistent :
      (id : ObjectId) (caps : K.CapabilitySet) (rt : GraphicsRuntime K D)
      → IsConsistent rt
      → IsConsistent (recover_device id caps rt).1
  unfolding log tear_down
  recover_device-IsConsistent id caps rt v = elim (recover_device_cases id caps rt) [
    | denied _ e ↦ SameTables-IsConsistent _ rt (rw e (refl, refl, refl, refl, refl)) v
    | unknown _ _ e ↦ SameTables-IsConsistent _ rt (rw e (refl, refl, refl, refl, refl)) v
    | stuck _ _ _ _ _ e ↦ SameTables-IsConsistent _ rt (rw e (refl, refl, refl, refl, refl)) v
    | done _ _ _ _ e ↦
        SameTables-IsConsistent _ (tear_down id rt) (rw e (refl, refl, refl, refl, refl))
          (tear_down-IsConsistent id rt v)
  ]

  step-IsConsistent :
      (c : Call K D) (rt : GraphicsRuntime K D) → IsConsistent rt → IsConsistent (step c rt)
  unfolding step
  step-IsConsistent (creates_device ids gpu caps) rt v =
      create_device-IsConsistent ids gpu caps rt v
  step-IsConsistent (creates_resource fresh owner kind class) rt v =
      create_resource-IsConsistent fresh owner kind class rt v
  step-IsConsistent (creates_shader fresh owner stage ir) rt v =
      create_shader-IsConsistent fresh owner stage ir rt v
  step-IsConsistent (creates_pipeline fresh owner shader class) rt v =
      create_pipeline-IsConsistent fresh owner shader class rt v
  step-IsConsistent (frees_resource id) rt v = free_resource-IsConsistent id rt v
  step-IsConsistent (recovers id caps) rt v = recover_device-IsConsistent id caps rt v
  step-IsConsistent c rt v = SameTables-IsConsistent (step c rt) rt (step-SameTables c rt refl) v

  run-IsConsistent :
      (cs : List (Call K D)) (rt : GraphicsRuntime K D) → IsConsistent rt → IsConsistent (run cs rt)
  unfolding run
  run-IsConsistent [] rt v = v
  run-IsConsistent (c ∷ cs) rt v = run-IsConsistent cs (step c rt) (step-IsConsistent c rt v)

  -- After any history of a new runtime, over any driver, its tables agree: devices and capability
  -- sets go together, and no resource, shader or pipeline outlives its device.
  pub run-new-IsConsistent :
      (driver : D.Driver) (bytes : ℕ) (cs : List (Call K D))
      → IsConsistent (run cs (new K D driver bytes))
  run-new-IsConsistent driver bytes cs = run-IsConsistent cs _ (new-IsConsistent driver bytes)
