-- ===== src/GpuAbstraction/Vulkan/Real/Instances.antt =====
-- The Vulkan instances that the real backend keeps alive: `probe` makes one, and the end of a
-- `VulkanContext` destroys it.
use mathlib.Core.List.{Perm}
use mathlib.Core.List.Perm
use sher_graphics.Base.{
  ap, subst, ◌∙◌, Bool, ◌≡◌, refl, ◌⊎◌, inl, inr, String, Option, none, some, map, List, [], ◌∷◌,
  arith,
}
use sher_graphics.GpuAbstraction.{DriverOp}
use sher_graphics.VulkanBackend.{Ash, VulkanError}
use sher_graphics.VulkanBackend.Render.{Rendered, Rendered.done as made, Rendered.failed as broken}
use sher_graphics.VulkanBackend.Context.{
  enumerate_adapters, adapter_info, Host, InstanceCreateInfo, VulkanContext, Answer, call, probe,
  drop, create_info, enumerate_adapters, adapter_info,
}
use sher_graphics.GpuAbstraction.Vulkan.State.{BackendResult, replied, alive}
use sher_graphics.GpuAbstraction.Vulkan.Thread.Shutdown.{
  Request, submission, resetting, perform, exchanges, exchanges_replied,
}
use sher_graphics.GpuAbstraction.Vulkan.Real.{RealVulkanBackend, enumerate, real, execute, reset}
use sher_graphics.GpuAbstraction.Vulkan.Real.Opening.{Rendered-cases}

-- What Vulkan promises of the instances that are alive: one more for each that is created, the one
-- that is destroyed no more, and no change by any other call.
pub record IsCounting {A : Ash} (H : Host A) (live : H.World → List H.Instance) : Type 0 where
  pub loaded : (w : H.World) → live (H.load w).1 ≡ live w
  pub listed : (w : H.World) → live (H.enumerate_instance_extension_properties w).1 ≡ live w
  pub created :
      (info : InstanceCreateInfo) (w : H.World) (i : H.Instance)
      → (H.create_instance info w).0 ≡ inr i
      → live (H.create_instance info w).1 ≡ i ∷ live w
  pub refused :
      (info : InstanceCreateInfo) (w : H.World) (e : A.VkResult)
      → (H.create_instance info w).0 ≡ inl e
      → live (H.create_instance info w).1 ≡ live w
  pub destroyed :
      (i : H.Instance) (w : H.World) (rest : List H.Instance)
      → Perm (live w) (i ∷ rest)
      → Perm (live (H.destroy_instance i w)) rest
  pub enumerated :
      (i : H.Instance) (w : H.World) → live (H.enumerate_physical_devices i w).1 ≡ live w
  pub rendered : (i : H.Instance) (w : H.World) → live (H.render i w).1 ≡ live w

Answer-cases : {R S : Type 0} (a : R ⊎ S) → ((e : R) × (a ≡ inl e)) ⊎ ((s : S) × (a ≡ inr s))
Answer-cases (inl e) = inl (e, refl)
Answer-cases (inr s) = inr (s, refl)

Option-cases : {T : Type 0} (o : Option T) → ((x : T) × (o ≡ some x)) ⊎ (o ≡ none)
Option-cases (some x) = inl (x, refl)
Option-cases none = inr refl

call_world :
    (A : Ash) {W S T : Type 0} (f : S → T) (a : Answer A S × W)
    → (call {A = A} a λ s w. (made (f s), w)).1 ≡ a.1
call_world A f (inl e, w) = refl
call_world A f (inr s, w) = refl

enumerate_adapters_world :
    {A : Ash} (H : Host A) (c : VulkanContext H) (w : H.World)
    → (enumerate_adapters H c w).1 ≡ (H.enumerate_physical_devices c.instance w).1
unfolding enumerate_adapters
enumerate_adapters_world {A} H c w =
    call_world A (map (adapter_info H c.instance)) (H.enumerate_physical_devices c.instance w)

module _ {A : Ash} (H : Host A) (live : H.World → List H.Instance) where
  -- A context that is made has one more instance alive, its own; without one there is none.
  abbrev pub Counted : H.World → Rendered A (VulkanContext H) × H.World → Type 0
  Counted w (made c, w') = live w' ≡ c.instance ∷ live w
  Counted w (broken e, w') = live w' ≡ live w

  -- The backend's own instance, and those that were alive before.
  abbrev pub Holds : List H.Instance → RealVulkanBackend H → Type 0
  Holds before b = Perm (live b.host) (b.context.instance ∷ before)

module _ {A : Ash} {H : Host A} {live : H.World → List H.Instance}
    (counts : IsCounting H live) where
  call-Counted :
      {S : Type 0} (w : H.World) (a : Answer A S × H.World)
      (next : S → H.World → Rendered A (VulkanContext H) × H.World)
      → ((e : A.VkResult) → a.0 ≡ inl e → live a.1 ≡ live w)
      → ((s : S) → a.0 ≡ inr s → Counted H live w (next s a.1))
      → Counted H live w (call a next)
  call-Counted w (inl e, w') next refused created = refused e refl
  call-Counted w (inr s, w') next refused created = created s refl

  -- The calls of `probe` after the loader is there.
  instance-Counted :
      (w w' : H.World) (supported : Bool)
      → live w' ≡ live w
      → Counted H live w (
          call
            (H.create_instance (create_info H supported) w')
            λ instance w''. (made (record { instance = instance }), w''))
  instance-Counted w w' supported same =
      call-Counted w (H.create_instance (create_info H supported) w') _
        (λ e q. counts.refused _ w' e q ∙ same)
        λ i q. counts.created _ w' i q ∙ (ap (λ l. i ∷ l) same)

  load-Counted :
      (o : Option String) (w : H.World) (fails : String → Rendered A (VulkanContext H) × H.World)
      (goes : Rendered A (VulkanContext H) × H.World)
      → ((m : String) → Counted H live w (fails m))
      → Counted H live w goes
      → Counted H live w (elim o [ some m ↦ fails m | none ↦ goes ])
  load-Counted (some m) w fails goes failing going = failing m
  load-Counted none w fails goes failing going = going

  pub probe-Counted : (w : H.World) → Counted H live w (probe H w)
  unfolding probe
  probe-Counted w =
      let same = counts.listed (H.load w).1 ∙ counts.loaded w in
      load-Counted (H.load w).0 w _ _ (λ m. counts.loaded w)
        (call-Counted w (H.enumerate_instance_extension_properties (H.load w).1) _ (λ e r. same)
          λ available r. instance-Counted w _ _ same)

  execute-Holds :
      (before : List H.Instance) (ops : List DriverOp) (b : RealVulkanBackend H)
      → Holds H live before b
      → (x : BackendResult (Unit {0})) × ((execute H ops b).0 ≡ replied x)
        × Holds H live before (execute H ops b).1
  unfolding execute
  execute-Holds before ops b holds = (_, refl, rw (counts.rendered b.context.instance b.host) holds)

  reset_made :
      (b : RealVulkanBackend H) (c : VulkanContext H)
      → (probe H b.host).0 ≡ made c
      → (reset H b).1 ≡ record { context = c; host = drop H b.context (probe H b.host).1 }
  unfolding reset
  reset_made b c q = ground arith

  reset_broken :
      (b : RealVulkanBackend H) (e : VulkanError A)
      → (probe H b.host).0 ≡ broken e
      → (reset H b).1 ≡ record b { host = (probe H b.host).1 }
  unfolding reset
  reset_broken b e q = ground arith

  -- Both contexts are alive for a moment, and then the new one is.
  reset-Holds :
      (before : List H.Instance) (b : RealVulkanBackend H)
      → Holds H live before b
      → Holds H live before (reset H b).1
  unfolding drop
  reset-Holds before b holds = elim (Rendered-cases (probe H b.host).0) [
    | inl (e, q) ↦
        let same =
          subst (λ x. Counted H live b.host (x, (probe H b.host).1)) q (probe-Counted b.host) in
        rw (reset_broken b e q, same) holds
    | inr (c, q) ↦
        let more =
          subst (λ x. Counted H live b.host (x, (probe H b.host).1)) q (probe-Counted b.host) in
        rw (reset_made b c q) (
          counts.destroyed b.context.instance (probe H b.host).1 (c.instance ∷ before) (
            rw more (
              Perm.trans (Perm.cons c.instance holds)
                (Perm.swap b.context.instance c.instance before))))
  ]

  perform-Holds :
      (before : List H.Instance) (q : Request) (b : RealVulkanBackend H)
      → Holds H live before b
      → (x : BackendResult (Unit {0})) × ((perform (real H) q b).0 ≡ replied x)
        × Holds H live before (perform (real H) q b).1
  unfolding perform reset
  perform-Holds before (submission ops) b holds = execute-Holds before ops b holds
  perform-Holds before resetting b holds = (_, refl, reset-Holds before b holds)

  pub enumerate-Holds :
      (before : List H.Instance) (b : RealVulkanBackend H)
      → Holds H live before b
      → Holds H live before (enumerate H b).1
  unfolding enumerate
  enumerate-Holds before b holds =
      rw (enumerate_adapters_world H b.context b.host, counts.enumerated b.context.instance b.host)
        holds

  exchanges_none :
      (before : List H.Instance) (b : RealVulkanBackend H)
      → Holds H live before b
      → (b' : RealVulkanBackend H) × ((exchanges (real H) [] (alive b)).1 ≡ alive b')
        × Holds H live before b'
  unfolding exchanges
  exchanges_none before b holds = (b, refl, holds)

  -- The real backend never panics, so the thread keeps it.
  pub exchanges-Holds :
      (before : List H.Instance) (qs : List Request) (b : RealVulkanBackend H)
      → Holds H live before b
      → (b' : RealVulkanBackend H) × ((exchanges (real H) qs (alive b)).1 ≡ alive b')
        × Holds H live before b'
  exchanges-Holds before [] b holds = exchanges_none before b holds
  exchanges-Holds before (q ∷ qs) b holds =
      let (x, e, held) = perform-Holds before q b holds in
      let b1 = (perform (real H) q b).1 in
      let (b', same, rest) = exchanges-Holds before qs b1 held in
      (
        b',
        ap (λ z. z.1) (exchanges_replied (real H) q qs b b1 x (ap (λ r. (r, b1)) e)) ∙ same,
        rest,
      )
