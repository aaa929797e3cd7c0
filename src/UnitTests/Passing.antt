-- ===== src/UnitTests/Passing.antt =====
-- All the unit tests together.
use sher_graphics.Base.{ℕ, ◌≡◌, List, [], ◌∷◌, All}
use sher_graphics.Result.{Result}
use sher_graphics.Kernel.{ObjectId, Platform}
use sher_graphics.VulkanBackend.{Ash}
use sher_graphics.VulkanBackend.Context.{Host}
use sher_graphics.GpuAbstraction.Vulkan.Open.{Spawn, running}
use sher_graphics.UnitTests.{AllPass, AreDistinct}
use sher_graphics.UnitTests.Software.{software_tests, software_tests-AllPass}
use sher_graphics.UnitTests.Vulkan.{vulkan_tests, vulkan_tests-AllPass}
use sher_graphics.UnitTests.Types.{type_tests, type_tests-AllPass}
use sher_graphics.UnitTests.Compat.{compat_tests, compat_tests-AllPass}
use sher_graphics.UnitTests.Runtime.{Kit, IsLawful}
use sher_graphics.UnitTests.Runtime.Objects.{object_tests, object_tests-AllPass}
use sher_graphics.UnitTests.Runtime.Submission.{submission_tests, submission_tests-AllPass}
use sher_graphics.UnitTests.Runtime.Presentation.{presentation_tests, presentation_tests-AllPass}
use sher_graphics.UnitTests.Runtime.Recovery.{recovery_tests, recovery_tests-AllPass}
use sher_graphics.UnitTests.Runtime.Panicking.{panicking_tests, panicking_tests-AllPass}
use sher_graphics.UnitTests.Runtime.Devices.{device_tests, device_tests-AllPass}
use sher_graphics.UnitTests.Runtime.Fallback.{fallback_tests, fallback_tests-AllPass}

module _ {K : Platform} (T : Kit K) {A : Ash} (H : Host A) (spawn : Spawn) (w : H.World)
    (ids : ℕ → ObjectId) (id : ObjectId) where
  abbrev pub suites : List (List (Result (Unit {0})))
  suites =
      type_tests T ids
      ∷ compat_tests T ids
      ∷ software_tests ids
      ∷ vulkan_tests T.print ids spawn
      ∷ object_tests T ids
      ∷ submission_tests T ids
      ∷ presentation_tests T ids
      ∷ recovery_tests T ids
      ∷ panicking_tests T ids
      ∷ device_tests T ids
      ∷ fallback_tests T H spawn w ids id
      ∷ []

  -- On a host that starts threads, if the kernel crates do what `IsLawful` says and the identifiers
  -- drawn all differ, the tests in `suites` pass.
  pub unit_tests_pass : IsLawful T → AreDistinct ids → spawn ≡ running → All AllPass suites
  unit_tests_pass lawful distinct started = (
    type_tests-AllPass T ids lawful,
    (
      compat_tests-AllPass T ids lawful distinct,
      (
        software_tests-AllPass ids distinct,
        (
          vulkan_tests-AllPass T.print ids spawn lawful.printed distinct started,
          (
            object_tests-AllPass T ids lawful distinct,
            (
              submission_tests-AllPass T ids lawful distinct,
              (
                presentation_tests-AllPass T ids lawful,
                (
                  recovery_tests-AllPass T ids lawful distinct,
                  (
                    panicking_tests-AllPass T ids lawful distinct,
                    (
                      device_tests-AllPass T ids lawful distinct,
                      (fallback_tests-AllPass T H spawn w ids id lawful, tt),
                    ),
                  ),
                ),
              ),
            ),
          ),
        ),
      ),
    ),
  )
