-- ===== src/UnitTests/Runtime.antt =====
-- The unit tests of crates/graphics_runtime/src/lib.rs: what they use of the kernel crates, and the
-- helpers that they share.
pub mod Objects
pub mod Submission
pub mod Presentation
pub mod Recovery
pub mod Panicking
pub mod Devices
pub mod Fallback
use sher_graphics.Base.{
  arith, ℕ, ◌+◌, ◌≡◌, Bool, true, false, String, none, some, List, [], ◌∷◌, ◌++◌, ◌||◌, ◌==◌,
}
use sher_graphics.Map.{Map}
use sher_graphics.Result.{Result, ok, err, Error, Action, pure, ◌>>=◌, ◌>>◌}
use sher_graphics.Kernel.{
  ObjectId, Platform, Capability, gpu_admin, gpu_command_submit, gpu_memory_alloc, other,
  PermissionTier, high,
}
use sher_graphics.GraphicsApi.{GraphicsDevice}
use sher_graphics.GpuAbstraction.{GpuDriver}
use sher_graphics.GpuAbstraction.Software.{
  SoftwareGpuDriver, software, new as new_driver, device_id,
}
use sher_graphics.GraphicsRuntime.State.{GraphicsRuntime, new as new_runtime}
use sher_graphics.GraphicsRuntime.Objects.{DeviceIds, create_device}
use sher_graphics.UnitTests.{panic, Prints}

-- An entry of the audit log, `sher_security::audit`.
pub record Event : Type 0 where
  pub actor : ObjectId
  pub action : String
  pub result : Bool

-- What the tests use of the kernel crates besides what the runtime does. `connector id` is the
-- connector of that identifier that the tests register.
pub record Kit (K : Platform) : Type 0 where
  pub default_caps : K.CapabilitySet
  pub grant : Capability → PermissionTier → K.CapabilitySet → K.CapabilitySet
  pub events : K.AuditLog → List Event
  pub connector : ObjectId → K.Connector
  pub nil : ObjectId
  pub print : Error → String

abbrev pub capability_eq : Capability → Capability → Bool
capability_eq gpu_admin gpu_admin = true
capability_eq gpu_command_submit gpu_command_submit = true
capability_eq gpu_memory_alloc gpu_memory_alloc = true
capability_eq (other m) (other n) = m == n
capability_eq _ _ = false

-- A number of identifiers, drawn one after another.
abbrev pub four : (ℕ → ObjectId) → ℕ → DeviceIds
four ids n = record {
  device = ids n;
  graphics = ids (n + 1);
  compute = ids (n + 2);
  transfer = ids (n + 3);
}

module _ {K : Platform} (T : Kit K) where
  abbrev pub caps_with : Capability → K.CapabilitySet
  caps_with c = T.grant c high T.default_caps

  abbrev pub full_caps : K.CapabilitySet
  full_caps = T.grant gpu_command_submit high (T.grant gpu_memory_alloc high T.default_caps)

  abbrev pub admin_caps : K.CapabilitySet
  admin_caps = caps_with gpu_admin

module _ (K : Platform) (D : GpuDriver) where
  -- A test of a runtime over a driver of one device: `wrap` makes the driver of a software driver with
  -- the identifier `gpu`.
  abbrev pub on_new :
      (SoftwareGpuDriver → D.Driver)
      → ObjectId
      → ℕ
      → ℕ
      → (ObjectId → Action (GraphicsRuntime K D) (Unit {0}))
      → Result (Unit {0})
  on_new wrap gpu vram display test =
      let driver = new_driver gpu vram in
      elim (device_id driver) [
        | none ↦ err panic
        | some found ↦ (test found (new_runtime K D (wrap driver) display)).0
      ]

module _ {K : Platform} (T : Kit K) (ids : ℕ → ObjectId) where
  -- A test that begins with `runtime_with_device`, and draws its own identifiers from the fifth on.
  abbrev pub with_device :
      (GraphicsDevice → Action (GraphicsRuntime K software) (Unit {0})) → Result (Unit {0})
  with_device test =
      on_new K software (λ d. d) (ids 0) 67108864 16777216
        λ gpu. do device ← create_device (four ids 1) gpu (full_caps T); test device

-- The display has room for a frame of 1920 x 1080 pixels, and shows it on the connector.
pub record Shows {K : Platform} (T : Kit K) (id : ObjectId) (d : K.Display) : Type 0 where
  pub framebuffer : K.Framebuffer
  pub filled : K.Display
  pub shown : K.Display
  pub allocated : K.allocate_framebuffer 1920 1080 d ≡ (ok framebuffer, filled)
  pub flipped : K.page_flip id (K.framebuffer_id framebuffer) filled ≡ (ok tt, shown)
  pub drawn : (K.framebuffer_id framebuffer == T.nil) ≡ false

-- What the tests rely on in the kernel crates: a set has what it has been granted and nothing else,
-- the log keeps its entries in order, the print of an error has its message, and a new display takes
-- a connector and shows a frame on it.
pub record IsLawful {K : Platform} (T : Kit K) : Type 0 where
  pub nothing : (c : Capability) → K.has_capability T.default_caps c ≡ false
  pub granted :
      (c d : Capability) (s : K.CapabilitySet)
      → K.has_capability (T.grant c high s) d ≡ (capability_eq c d || K.has_capability s d)
  pub no_events : T.events K.empty_log ≡ []
  pub logged :
      (l : K.AuditLog) (actor : ObjectId) (action : String) (result : Bool)
      → T.events (K.log l actor action result)
        ≡ T.events l ++ record { actor = actor; action = action; result = result } ∷ []
  pub printed : Prints T.print
  pub no_connector : (id : ObjectId) → K.get_connector id (K.new_display 16777216) ≡ none
  pub registered :
      (id : ObjectId)
      → (d : K.Display) × (K.register_connector (T.connector id) (K.new_display 16777216)
          ≡ (ok tt, d))
        × (K.get_connector id d ≡ some (T.connector id))
        × Shows T id d

module _ {K : Platform} {T : Kit K} (lawful : IsLawful T) where
  pub full_caps_alloc : K.has_capability (full_caps T) gpu_memory_alloc ≡ true
  full_caps_alloc = grind (arith, lawful.granted)

  pub full_caps_submit : K.has_capability (full_caps T) gpu_command_submit ≡ true
  full_caps_submit = grind (arith, lawful.granted)

  pub full_caps_admin : K.has_capability (full_caps T) gpu_admin ≡ false
  full_caps_admin = grind (arith, lawful.granted, lawful.nothing)

  pub admin_caps_admin : K.has_capability (admin_caps T) gpu_admin ≡ true
  admin_caps_admin = grind (arith, lawful.granted)

  pub caps_with_own : K.has_capability (caps_with T gpu_memory_alloc) gpu_memory_alloc ≡ true
  caps_with_own = grind (arith, lawful.granted)

  pub caps_with_other : K.has_capability (caps_with T gpu_memory_alloc) gpu_command_submit ≡ false
  caps_with_other = grind (arith, lawful.granted, lawful.nothing)
