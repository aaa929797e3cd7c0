-- ===== src/VulkanBackend/Context.antt =====
-- `VulkanContext::probe` and `VulkanContext::enumerate_adapters`, and the context's end, as the calls
-- they make on the Vulkan of the machine.
use sher_graphics.Base.{
  ℕ, ◌||◌, Bool, true, false, String, Option, none, some, List, [], ◌∷◌, map, inl, inr, ◌⊎◌,
  if◌then◌else◌,
}
use sher_graphics.VulkanBackend.{Ash, loader_unavailable, from_vk}
use sher_graphics.VulkanBackend.Render.{Vulkan, Rendered, done, failed}

-- What `probe` asks for in `vk::InstanceCreateInfo`.
pub record InstanceCreateInfo : Type 0 where
  pub enabled_extension_names : List String
  pub enumerate_portability : Bool

-- What `enumerate_adapters` reads of `vk::PhysicalDeviceProperties`; a name may be unreadable.
pub record PhysicalDeviceProperties (DeviceKind : Type 0) : Type 0 where
  pub device_name : Option String
  pub vendor_id : ℕ
  pub device_id : ℕ
  pub device_type : DeviceKind
  pub api_version : ℕ
  pub driver_version : ℕ

-- The answer to a call: an error code or a value.
abbrev pub Answer : Ash → Type 0 → Type 0
Answer A T = A.VkResult ⊎ T

-- The loader and the drivers of a machine, with what may change there between two calls. `render`
-- gives the answers to the calls of one render.
pub record Host (A : Ash) : Type 1 where
  pub World : Type 0
  pub Instance : Type 0
  pub PhysicalDevice : Type 0
  pub PhysicalDeviceType : Type 0
  pub load : World → Option String × World
  pub enumerate_instance_extension_properties : World → Answer A (List (Option String)) × World
  pub create_instance : InstanceCreateInfo → World → Answer A Instance × World
  pub destroy_instance : Instance → World → World
  pub enumerate_physical_devices : Instance → World → Answer A (List PhysicalDevice) × World
  pub get_physical_device_properties :
      Instance → PhysicalDevice → PhysicalDeviceProperties PhysicalDeviceType
  pub api_version_major : ℕ → ℕ
  pub api_version_minor : ℕ → ℕ
  pub api_version_patch : ℕ → ℕ
  pub portability_enumeration_name : String
  pub is_portability_enumeration : Option String → Bool
  pub render : Instance → World → Vulkan A × World

pub record AdapterInfo (DeviceKind : Type 0) : Type 0 where
  pub name : String
  pub vendor_id : ℕ
  pub device_id : ℕ
  pub device_type : DeviceKind
  pub api_version : ℕ × ℕ × ℕ
  pub driver_version : ℕ

-- The loader stays loaded as long as the instance lives, so the instance stands for both.
pub record VulkanContext {A : Ash} (H : Host A) : Type 0 where
  pub instance : H.Instance

-- `available_extensions.iter().any(..)`
unfoldable pub any_extension : (Option String → Bool) → List (Option String) → Bool
any_extension test [] = false
any_extension test (x ∷ xs) = test x || any_extension test xs

-- A fallible call with `?`.
abbrev pub call :
    {A : Ash} {W S T : Type 0} → Answer A S × W → (S → W → Rendered A T × W) → Rendered A T × W
call {A} (inl e, w) next = (failed (from_vk A e), w)
call (inr s, w) next = next s w

module _ {A : Ash} (H : Host A) where
  unfoldable pub create_info : Bool → InstanceCreateInfo
  create_info portability_supported = record {
    enabled_extension_names =
        if portability_supported then H.portability_enumeration_name ∷ [] else [];
    enumerate_portability = portability_supported;
  }

  unfoldable pub probe : H.World → Rendered A (VulkanContext H) × H.World
  unfolding any_extension create_info
  probe w = elim (H.load w).0 [
    | some message ↦ (failed (loader_unavailable message), (H.load w).1)
    | none ↦ call (H.enumerate_instance_extension_properties (H.load w).1) λ available w'.
        let supported = any_extension H.is_portability_enumeration available in
        call (H.create_instance (create_info supported) w')
          λ instance w''. (done (record { instance = instance }), w'')
  ]

  -- `Drop` of the context, which ends its instance.
  unfoldable pub drop : VulkanContext H → H.World → H.World
  drop c w = H.destroy_instance c.instance w

  -- `VulkanContext::available`, which keeps no context.
  unfoldable pub available : H.World → Bool × H.World
  unfolding probe drop
  available w =
      let (r, w') = probe w in elim r [ done c ↦ (true, drop c w') | failed e ↦ (false, w') ]

  unfoldable pub adapter_info : H.Instance → H.PhysicalDevice → AdapterInfo H.PhysicalDeviceType
  adapter_info instance p =
      let props = H.get_physical_device_properties instance p in
      record {
        name = elim props.device_name [ none ↦ "<unreadable device name>" | some name ↦ name ];
        vendor_id = props.vendor_id;
        device_id = props.device_id;
        device_type = props.device_type;
        api_version = (
          H.api_version_major props.api_version,
          H.api_version_minor props.api_version,
          H.api_version_patch props.api_version,
        );
        driver_version = props.driver_version;
      }

  unfoldable pub enumerate_adapters :
      VulkanContext H → H.World → Rendered A (List (AdapterInfo H.PhysicalDeviceType)) × H.World
  unfolding adapter_info
  enumerate_adapters c w =
      call (H.enumerate_physical_devices c.instance w)
        λ ps w'. (done (map (adapter_info c.instance) ps), w')
