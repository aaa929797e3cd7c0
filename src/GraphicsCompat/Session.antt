-- ===== src/GraphicsCompat/Session.antt =====
-- Sessions of DRM requests over the runtime and the software driver.
use sher_graphics.Base.{
  ℕ, ◌≡◌, refl, ap, Option, none, some, is_some, List, [], ◌∷◌, arith, Option-cases, inl, inr,
}
use sher_graphics.Map.{Map, get, insert, remove, modify, map_laws}
use sher_graphics.Result.{Result, ok, err, Error}
use sher_graphics.Kernel.{ObjectId, Platform}
use sher_graphics.GraphicsApi.{device_local, buffer, default_buffer_usage}
use sher_graphics.GpuAbstraction.{GpuAllocation}
use sher_graphics.GpuAbstraction.Software.{
  SoftwareGpuDriver, DeviceState, software, free_vram, new_allocation, debit, drop_allocation,
  credit,
}
use sher_graphics.GpuAbstraction.Software.Vram.{
  IsValid, used, allocate_vram_cases, free_vram_cases, allocate_vram-IsValid, free_vram-IsValid,
}
use sher_graphics.GraphicsRuntime.State.{GraphicsRuntime}
use sher_graphics.GraphicsRuntime.Objects.{
  create_resource, free_resource, resource_size, resource_of,
}
use sher_graphics.GraphicsCompat.{
  gem_create, gem_close, prime_handle_to_fd, mode_get_resources, DrmResponse, gem_handle, closed,
  handle,
}
use sher_graphics.GraphicsCompat.Gem.{Handles, reserved, Drawn, promise, promises, AreFresh}

-- The handles that live allocations stand for.
unfoldable pub handles_of : Map GpuAllocation → Handles
handles_of [] = []
handles_of ((k, a) ∷ m) = (k, (a.device, a.size)) ∷ handles_of m

abbrev entry : Option GpuAllocation → Option (ObjectId × ℕ)
entry none = none
entry (some a) = some (a.device, a.size)

get-handles_of : (k : ℕ) (m : Map GpuAllocation) → get k (handles_of m) ≡ entry (get k m)
unfolding handles_of get
get-handles_of k [] = refl
get-handles_of k ((j, a) ∷ m) = ground (arith, get-handles_of k m)

handles_of-insert :
    (k : ℕ) (a : GpuAllocation) (m : Map GpuAllocation)
    → handles_of (insert k a m) ≡ insert k (a.device, a.size) (handles_of m)
unfolding handles_of insert
handles_of-insert k a [] = refl
handles_of-insert k a ((j, b) ∷ m) = ground (arith, handles_of-insert k a m)

handles_of-remove :
    (k : ℕ) (m : Map GpuAllocation) → handles_of (remove k m) ≡ remove k (handles_of m)
unfolding handles_of remove
handles_of-remove k [] = refl
handles_of-remove k ((j, b) ∷ m) = ground (arith, handles_of-remove k m)

reserved-handles_of : (g : ObjectId) (m : Map GpuAllocation) → reserved g (handles_of m) ≡ used g m
unfolding handles_of reserved used
reserved-handles_of g [] = refl
reserved-handles_of g ((j, b) ∷ m) = ground (arith, reserved-handles_of g m)

abbrev pub gpu_of : {K : Platform} → GraphicsRuntime K software → ObjectId → Option ObjectId
gpu_of rt id = elim (get id rt.devices) [ none ↦ none | some dev ↦ some dev.gpu ]

abbrev pub pool_of : {K : Platform} → GraphicsRuntime K software → ObjectId → Option ℕ
pool_of rt g = elim (get g rt.driver.devices) [ none ↦ none | some s ↦ some s.vram_total ]

module _ {K : Platform} where
  -- The client's table is the driver's and the runtime's, and the driver's accounts are valid.
  pub record Stands (gpus : ObjectId → Option ObjectId) (budget : ObjectId → Option ℕ)
      (taken : Handles) (rt : GraphicsRuntime K software) : Type 0 where
    pub gpus_known : (id : ObjectId) → gpus id ≡ gpu_of rt id
    pub budgets_known : (g : ObjectId) → budget g ≡ pool_of rt g
    pub allocated : taken ≡ handles_of rt.driver.allocations
    pub listed : (k : ObjectId) → is_some (get k rt.resources) ≡ is_some (get k taken)
    pub valid : IsValid rt.driver

  -- A session: the responses, and the runtime afterwards.
  unfoldable pub drive :
      List Drawn
      → GraphicsRuntime K software
      → List (Result DrmResponse) × GraphicsRuntime K software
  unfolding handle
  drive [] rt = ([], rt)
  drive ((fresh, r) ∷ qs) rt =
      let (x, rt') = handle fresh r rt in let (xs, rt'') = drive qs rt' in (x ∷ xs, rt'')

  module _ (gpus : ObjectId → Option ObjectId) (budget : ObjectId → Option ℕ) where
    abbrev pub Keeps :
        Result DrmResponse × Handles → Result DrmResponse × GraphicsRuntime K software → Type 0
    Keeps (x, taken) (y, rt) = (y ≡ x) × Stands gpus budget taken rt

    both :
        (p : Result DrmResponse × Handles) (h : Result DrmResponse × GraphicsRuntime K software)
        (x : Result DrmResponse) (taken : Handles) (rt : GraphicsRuntime K software)
        → p ≡ (x, taken)
        → h ≡ (x, rt)
        → Stands gpus budget taken rt
        → Keeps p h
    both p h x taken rt e f s = rw (e, f) (refl, s)

    created-Stands :
        (a : GpuAllocation) (owner : ObjectId) (size : ℕ) (st : DeviceState) (taken : Handles)
        (rt : GraphicsRuntime K software)
        → get a.id taken ≡ none
        → get a.device rt.driver.devices ≡ some st
        → IsValid (debit a rt.driver)
        → Stands gpus budget taken rt
        → Stands gpus budget (insert a.id (a.device, a.size) taken) (record rt {
          driver = debit a rt.driver;
          resources =
              insert a.id
                (resource_of owner (buffer size default_buffer_usage) device_local a)
                rt.resources;
        })
    unfolding debit
    created-Stands a owner size st taken rt new known v s = record {
      gpus_known = s.gpus_known;
      budgets_known = λ g. grind (map_laws, s.budgets_known g);
      allocated = grind (arith, s.allocated, handles_of-insert a.id a rt.driver.allocations);
      listed = λ k. grind (map_laws, s.listed k);
      valid = v;
    }

    create-Keeps :
        (fresh device : ObjectId) (size : ℕ) (taken : Handles) (rt : GraphicsRuntime K software)
        → get fresh taken ≡ none
        → Stands gpus budget taken rt
        → Keeps
            (promise gpus budget (fresh, gem_create device size) taken)
            (handle fresh (gem_create device size) rt)
    unfolding promise handle create_resource new_allocation resource_size
    create-Keeps fresh device size taken rt new s = elim (Option-cases (get device rt.devices)) [
      | inl e ↦
          both _ _ (err (Error.device "unknown graphics device")) taken rt
            (grind (arith, s.gpus_known device)) (ground arith) s
      | inr (dev, e) ↦
          let v =
            allocate_vram-IsValid fresh dev.gpu size device_local rt.driver
              (grind (arith, s.allocated, get-handles_of fresh rt.driver.allocations)) s.valid in
          let sum = reserved-handles_of dev.gpu rt.driver.allocations in
          elim (allocate_vram_cases fresh dev.gpu size device_local rt.driver) [
            | inl (q, r) ↦
                both _ _ (err (Error.device "unknown GPU device")) taken rt
                  (grind (arith, s.gpus_known device, s.budgets_known dev.gpu)) (ground arith) s
            | inr (inl (st, q, small, r)) ↦
                both _ _ (err (Error.memory "insufficient VRAM")) taken rt
                  (grind (
                    arith,
                    s.gpus_known device,
                    s.budgets_known dev.gpu,
                    s.allocated,
                    s.valid.balanced dev.gpu st,
                  ))
                  (ground arith) s
            | inr (inr (st, q, fits, r)) ↦
                let a = new_allocation fresh dev.gpu size device_local st in
                both _ _ (ok (gem_handle fresh)) (insert fresh (dev.gpu, size) taken) _
                  (grind (
                    arith,
                    s.gpus_known device,
                    s.budgets_known dev.gpu,
                    s.allocated,
                    s.valid.balanced dev.gpu st,
                  ))
                  (ground arith) (created-Stands a device size st taken rt new q (ground arith) s)
          ]
    ]

    closed-Stands :
        (k : ObjectId) (a : GpuAllocation) (taken : Handles) (rt : GraphicsRuntime K software)
        (d : SoftwareGpuDriver)
        → d ≡ record (drop_allocation k rt.driver) {
          devices = modify a.device (credit a.size) rt.driver.devices;
        }
        → IsValid d
        → Stands gpus budget taken rt
        → Stands gpus budget
            (remove k taken)
            (record rt { driver = d; resources = remove k rt.resources })
    closed-Stands k a taken rt d e v s = record {
      gpus_known = s.gpus_known;
      budgets_known = λ g. grind (map_laws, s.budgets_known g);
      allocated = grind (arith, s.allocated, handles_of-remove k rt.driver.allocations);
      listed = λ j. grind (map_laws, s.listed j);
      valid = v;
    }

    close-Keeps :
        (fresh k : ObjectId) (taken : Handles) (rt : GraphicsRuntime K software)
        → Stands gpus budget taken rt
        → Keeps (promise gpus budget (fresh, gem_close k) taken) (handle fresh (gem_close k) rt)
    unfolding promise handle free_resource
    close-Keeps fresh k taken rt s =
        let seen = s.listed k in
        elim (free_vram_cases k rt.driver s.valid) [
          | inl (e, q) ↦
              both _ _ (err (Error.memory "unknown resource")) taken rt
                (grind (arith, s.allocated, get-handles_of k rt.driver.allocations))
                (grind (arith, s.allocated, get-handles_of k rt.driver.allocations)) s
          | inr (a, e, q) ↦
              both _ _ (ok closed) (remove k taken)
                (record rt {
                  driver = (free_vram k rt.driver).1;
                  resources = remove k rt.resources;
                })
                (grind (arith, s.allocated, get-handles_of k rt.driver.allocations))
                (grind (arith, s.allocated, get-handles_of k rt.driver.allocations))
                (closed-Stands k a taken rt _ (ap (λ x. x.1) q)
                  (free_vram-IsValid k rt.driver s.valid) s)
        ]

    handle-Keeps :
        (q : Drawn) (taken : Handles) (rt : GraphicsRuntime K software)
        → get q.0 taken ≡ none
        → Stands gpus budget taken rt
        → Keeps (promise gpus budget q taken) (handle q.0 q.1 rt)
    unfolding promise handle
    handle-Keeps (fresh, gem_create device size) taken rt new s =
        create-Keeps fresh device size taken rt new s
    handle-Keeps (fresh, gem_close k) taken rt new s = close-Keeps fresh k taken rt s
    handle-Keeps (fresh, prime_handle_to_fd k) taken rt new s = (refl, s)
    handle-Keeps (fresh, mode_get_resources) taken rt new s = (refl, s)

    -- Over the runtime and the software driver, the shim answers every session of DRM requests, error
    -- by error, as a mere table of handles with a budget for each GPU does, and at the end the table
    -- stands for what the runtime lists and the driver has allocated: starting where it does, with
    -- valid accounts, and with identifiers drawn new.
    pub session_refines :
        (qs : List Drawn) (taken : Handles) (rt : GraphicsRuntime K software)
        → AreFresh gpus budget qs taken
        → Stands gpus budget taken rt
        → ((drive qs rt).0 ≡ (promises gpus budget qs taken).0)
          × Stands gpus budget (promises gpus budget qs taken).1 (drive qs rt).1
    unfolding drive promises
    session_refines [] taken rt new s = (refl, s)
    session_refines (q ∷ qs) taken rt (new, news) s =
        let (same, s') = handle-Keeps q taken rt new s in
        let (rest, s'') =
          session_refines qs (promise gpus budget q taken).1 (handle q.0 q.1 rt).1 news s' in
        (rw (same, rest) refl, s'')
