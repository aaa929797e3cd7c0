-- ===== src/GraphicsRuntime/Order/Operations.antt =====
-- Every method of the runtime answers alike on runtimes that hold the same entries.
use sher_graphics.Base.{ℕ, ◌≡◌, refl, ap, subst, Bool, not, String, List, [], is_some}
use sher_graphics.Result.{Result, ok, err, Error, Action, is_ok, reads, ok_or, lift, writes, ◌>>=◌}
use sher_graphics.Result.Related.{
  Agree, Related, lift-Related, pure-Related, reads-Related, writes-Related, fail_if-Related,
  bind-Related,
}
use sher_graphics.Kernel.{ObjectId, Platform, DeviceInfo, gpu_memory_alloc, gpu_admin}
use sher_graphics.GraphicsApi.{
  WorkloadClass, MemoryClass, ResourceKind, ShaderStage, CommandStream, require_capability,
  Timeline, Resource, ShaderModule, Pipeline,
}
use sher_graphics.GpuAbstraction.{GpuDriver, DriverOp, Outcome, returned, panicked}
use sher_graphics.GraphicsRuntime.State.{GraphicsRuntime, device, log, on_driver}
use sher_graphics.GraphicsRuntime.Objects.{
  DeviceIds, find_device, new_graphics_device, create_device, create_timeline, create_resource,
  create_command_stream, create_shader_module, create_pipeline, free_resource, resource_size,
  resource_of,
}
use sher_graphics.GraphicsRuntime.Submit.{submit_to_driver, contain, panic_message}
use sher_graphics.GraphicsRuntime.Recover.{driver_mut, recover_device}
use sher_graphics.GraphicsRuntime.Order.{search, IsCongruence, IsSame}
use sher_graphics.GraphicsRuntime.Order.Writes.{
  driver_written, device_written, resource_written, shader_written, pipeline_written,
  timeline_written, resource_removed, audit_written, torn_down,
}

module _ {K : Platform} {D : GpuDriver} {R : D.Driver → D.Driver → Type 0}
    (L : IsCongruence D R) where
  abbrev pub Alike : GraphicsRuntime K D → GraphicsRuntime K D → Type 0
  Alike = IsSame R

  abbrev pub AlikeActions : {A : Type 0} → Action (GraphicsRuntime K D) A → Type 0
  AlikeActions m = Related Alike m m

  -- A method followed by another one, and a look-up that fails on both or finds the same.
  abbrev pub then_ :
      {A B : Type 0} {m : Action (GraphicsRuntime K D) A} {f : A → Action (GraphicsRuntime K D) B}
      → AlikeActions m
      → ((a : A) → AlikeActions (f a))
      → Related Alike (m >>= f) (m >>= f)
  then_ {m = m} {f = f} first next = bind-Related Alike m m f f first next

  pub on_driver-Related :
      {A : Type 0} (m : Action D.Driver A) → Related R m m → AlikeActions (on_driver m)
  on_driver-Related m related rt sh s =
      let (same, h) = related rt.driver sh.driver s.driver in
      (same, driver_written (m rt.driver).1 (m sh.driver).1 rt sh h s)

  pub device_same :
      (id : ObjectId) (rt sh : GraphicsRuntime K D) → Alike rt sh → device id rt ≡ device id sh
  unfolding device
  device_same id rt sh s = ap (λ x. ok_or x (Error.device "unknown graphics device")) (s.devices id)

  pub log-Related :
      (actor : ObjectId) (action : String) (b : Bool) → AlikeActions (writes (log actor action b))
  unfolding log
  log-Related actor action b rt sh s =
      (refl, audit_written _ _ rt sh (ap (λ l. K.log l actor action b) s.audit) s)

  searched_in :
      {A : Type 0} (gpu : ObjectId) (next : DeviceInfo → Action (GraphicsRuntime K D) A)
      (r : Result (List DeviceInfo)) (rt : GraphicsRuntime K D)
      → (lift r >>= λ known.
            lift (ok_or (find_device gpu known) (Error.device "GPU not found via driver probe"))
            >>= next)
          rt
        ≡ (lift (search gpu r) >>= next) rt
  unfolding search
  searched_in gpu next (ok known) rt = refl
  searched_in gpu next (err e) rt = refl

  -- `probe` and the search in what it lists, in one step.
  searched :
      {A : Type 0} (gpu : ObjectId) (next : DeviceInfo → Action (GraphicsRuntime K D) A)
      (rt : GraphicsRuntime K D)
      → ((reads λ rt. D.probe rt.driver) >>= λ known.
            lift (ok_or (find_device gpu known) (Error.device "GPU not found via driver probe"))
            >>= next)
          rt
        ≡ ((reads λ rt. search gpu (D.probe rt.driver)) >>= next) rt
  unfolding search
  searched gpu next rt = searched_in gpu next (D.probe rt.driver) rt

  found-Related :
      {A : Type 0} (gpu : ObjectId) (next : DeviceInfo → Action (GraphicsRuntime K D) A)
      → ((info : DeviceInfo) → AlikeActions (next info))
      → AlikeActions (
          (reads λ rt. D.probe rt.driver) >>= λ known.
          lift (ok_or (find_device gpu known) (Error.device "GPU not found via driver probe"))
          >>= next)
  found-Related gpu next related rt sh s =
      rw (searched gpu next rt, searched gpu next sh)
        (then_ (reads-Related Alike _ _ λ x y h. L.probe gpu x.driver y.driver h.driver) related rt
          sh s)

  pub create_device-Related :
      (ids : DeviceIds) (gpu : ObjectId) (caps : K.CapabilitySet)
      → AlikeActions (create_device ids gpu caps)
  unfolding create_device
  create_device-Related ids gpu caps =
      then_ (log-Related gpu "create_device" (is_ok (require_capability K caps gpu_memory_alloc)))
        λ u. then_ (lift-Related Alike (require_capability K caps gpu_memory_alloc)) λ u.
          found-Related gpu _ λ info.
            then_ (on_driver-Related (D.initialize info) (L.initialize info)) λ u.
              then_
                (writes-Related Alike _ _
                  (device_written ids.device (new_graphics_device ids gpu) caps))
                λ u. pure-Related Alike (new_graphics_device ids gpu)

  pub create_timeline-Related :
      (fresh owner : ObjectId) → AlikeActions (create_timeline fresh owner)
  unfolding create_timeline
  create_timeline-Related fresh owner = then_ (reads-Related Alike _ _ (device_same owner)) λ dev.
      let t : Timeline = record { id = fresh; device = owner; current_value = 0 } in
      then_ (writes-Related Alike _ _ (timeline_written fresh 0)) λ u. pure-Related Alike t

  pub create_resource-Related :
      (fresh owner : ObjectId) (kind : ResourceKind) (class : MemoryClass)
      → AlikeActions (create_resource fresh owner kind class)
  unfolding create_resource
  create_resource-Related fresh owner kind class =
      then_ (reads-Related Alike _ _ (device_same owner)) λ dev.
        then_ (on_driver-Related _ (L.allocate_vram fresh dev.gpu (resource_size kind) class)) λ a.
          let r : Resource = resource_of owner kind class a in
          then_ (writes-Related Alike _ _ (resource_written a.id r)) λ u. pure-Related Alike r

  pub create_command_stream-Related :
      (fresh owner : ObjectId) (class : WorkloadClass)
      → AlikeActions (create_command_stream fresh owner class)
  unfolding create_command_stream
  create_command_stream-Related fresh owner class =
      then_ (reads-Related Alike _ _ (device_same owner)) λ dev.
        let stream : CommandStream = record {
          id = fresh;
          device = owner;
          target_class = class;
          ops = [];
        } in
        pure-Related Alike stream

  pub create_shader_module-Related :
      (fresh owner : ObjectId) (stage : ShaderStage) (ir : List ℕ)
      → AlikeActions (create_shader_module fresh owner stage ir)
  unfolding create_shader_module
  create_shader_module-Related fresh owner stage ir =
      then_ (reads-Related Alike _ _ (device_same owner)) λ dev.
        let m : ShaderModule = record { id = fresh; device = owner; stage = stage; ir = ir } in
        then_ (writes-Related Alike _ _ (shader_written fresh m)) λ u. pure-Related Alike m

  pub create_pipeline-Related :
      (fresh owner shader : ObjectId) (class : WorkloadClass)
      → AlikeActions (create_pipeline fresh owner shader class)
  unfolding create_pipeline
  create_pipeline-Related fresh owner shader class =
      then_ (reads-Related Alike _ _ (device_same owner)) λ dev.
        then_ (reads-Related Alike _ _ λ rt sh s. ap (λ x. ok (is_some x)) (s.shaders shader))
          λ known.
            then_ (fail_if-Related Alike (not known) (Error.device "unknown shader module")) λ u.
              let p : Pipeline = record {
                id = fresh;
                device = owner;
                class = class;
                shader = shader;
              } in
              then_ (writes-Related Alike _ _ (pipeline_written fresh p)) λ u. pure-Related Alike p

  pub free_resource-Related : (id : ObjectId) → AlikeActions (free_resource id)
  unfolding free_resource
  free_resource-Related id =
      then_
        (reads-Related Alike _ _
          λ rt sh s. ap (λ x. ok_or x (Error.memory "unknown resource")) (s.resources id))
        λ r.
          then_ (writes-Related Alike _ _ (resource_removed id))
            λ u. on_driver-Related (D.free_vram id) (L.free_vram id)

  contain-Related :
      (gpu : ObjectId) (o : Outcome (Unit {0})) (d e : D.Driver)
      → R d e
      → Related Alike (contain gpu (o, d)) (contain gpu (o, e))
  unfolding contain
  contain-Related gpu (returned r) d e h rt sh s = (refl, driver_written d e rt sh h s)
  contain-Related gpu (panicked p) d e h rt sh s =
      (refl, driver_written _ _ rt sh (L.mark_faulted gpu (panic_message p) d e h) s)

  pub submit_to_driver-Related :
      (gpu : ObjectId) (class : WorkloadClass) (ops : List DriverOp)
      → AlikeActions (submit_to_driver gpu class ops)
  unfolding submit_to_driver
  submit_to_driver-Related gpu class ops rt sh s =
      let (same, h) = L.submit gpu class ops rt.driver sh.driver s.driver in
      subst
        (λ o.
          Agree Alike (contain gpu (D.submit gpu class ops rt.driver) rt)
            (contain gpu (o, (D.submit gpu class ops sh.driver).1) sh))
        same (contain-Related gpu (D.submit gpu class ops rt.driver).0 _ _ h rt sh s)

  pub recover_device-Related :
      (id : ObjectId) (caps : K.CapabilitySet) → AlikeActions (recover_device id caps)
  unfolding recover_device
  recover_device-Related id caps =
      then_ (log-Related id "recover_device" (is_ok (require_capability K caps gpu_admin))) λ u.
        then_ (lift-Related Alike (require_capability K caps gpu_admin)) λ u.
          then_ (reads-Related Alike _ _ (device_same id)) λ dev.
            then_ (on_driver-Related (D.reset_device dev.gpu) (L.reset_device dev.gpu))
              λ u. writes-Related Alike _ _ (torn_down id)

  pub driver_mut-Related :
      (caps : K.CapabilitySet) (m : Action D.Driver (Unit {0}))
      → Related R m m
      → AlikeActions (driver_mut caps m)
  unfolding driver_mut
  driver_mut-Related caps m related =
      then_ (lift-Related Alike (require_capability K caps gpu_admin))
        λ u. on_driver-Related m related
