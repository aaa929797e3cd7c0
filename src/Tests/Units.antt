-- ===== src/Tests/Units.antt =====
-- The kernel crates of the bench, for the unit tests.
use sher_graphics.Base.{
  ℕ, ◌≡◌, refl, Bool, false, String, some, List, [], ◌∷◌, ◌++◌, ◌||◌, All, arith,
}
use sher_graphics.Result.{Error}
use sher_graphics.Kernel.{ObjectId}
use sher_graphics.GpuAbstraction.Vulkan.Open.{running}
use sher_graphics.UnitTests.{AllPass}
use sher_graphics.UnitTests.Runtime.{Event, Kit, IsLawful, capability_eq}
use sher_graphics.UnitTests.Passing.{suites, unit_tests_pass}
use sher_graphics.Tests.Platform.{bench, find_connector}
use sher_graphics.Tests.Machine.{machine}

-- The log has its newest entry first.
abbrev entries : List (ObjectId × String × Bool) → List Event
entries [] = []
entries ((actor, action, result) ∷ l) =
    entries l ++ record { actor = actor; action = action; result = result } ∷ []

abbrev message : Error → String
message (Error.device m) = m
message (Error.memory m) = m
message (Error.security m) = m

abbrev kit : Kit bench
kit = record {
  default_caps = λ c. false;
  grant = λ c tier caps d. capability_eq c d || caps d;
  events = entries;
  connector = λ id. id;
  nil = 0;
  print = message;
}

finds_first : (id : ObjectId) → find_connector id (id ∷ []) ≡ some id
finds_first id = ground arith

kit-IsLawful : IsLawful kit
kit-IsLawful = record {
  nothing = λ c. refl;
  granted = λ c d s. refl;
  no_events = refl;
  logged = λ l actor action result. refl;
  printed = λ m part h. h;
  no_connector = λ id. refl;
  registered = λ id. (
    id ∷ [],
    refl,
    finds_first id,
    record {
      framebuffer = 99;
      filled = id ∷ [];
      shown = id ∷ [];
      allocated = refl;
      flipped = refl;
      drawn = refl;
    },
  );
}

abbrev count : ℕ → ObjectId
count n = n

bench_passes : All AllPass (suites kit machine running 0 count 1)
bench_passes = unit_tests_pass kit machine running 0 count 1 kit-IsLawful (λ i j h. h) refl
