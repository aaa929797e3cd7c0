-- ===== src/UnitTests.antt =====
-- The unit tests of the crates, as the runs of the model that they describe. A test is a method of
-- the state that it works on: a panic, be it of an `assert!` or of an `unwrap`, is an error, and the
-- numbers drawn from `ids` are the identifiers in the order in which the test draws them.
pub mod Software
pub mod Runtime
pub mod Types
pub mod Compat
pub mod Vulkan
pub mod Passing
use Prim.Native.Nat.{Ordering}
use Prim.Native.String.{compare, find, len}
use sher_graphics.Base.{
  All, ℕ, ◌==◌, leb, ◌≡◌, Bool, true, false, not, String, Option, none, some, List, [], ◌∷◌,
}
use sher_graphics.Result.{Result, ok, err, Error, Action, is_ok, fail_if}
use sher_graphics.Kernel.{ObjectId}
use sher_graphics.GpuAbstraction.{Outcome, returned, panicked}

abbrev pub panic : Error
panic = Error.device "the test panics"

abbrev pub assert : {S : Type 0} → Bool → Action S (Unit {0})
assert b = fail_if (not b) panic

-- The result of a call as a value, for `is_ok` and `is_err`.
abbrev pub result : {S A : Type 0} → Action S A → Action S (Result A)
result m s = let (r, s') = m s in (ok r, s')

abbrev pub outcome : {S A : Type 0} → (S → Outcome A × S) → Action S (Result A)
outcome m s = let (o, s') = m s in elim o [ returned r ↦ (ok r, s') | panicked p ↦ (err panic, s') ]

-- `unwrap` of an option, and an index into a vector.
abbrev pub unwrap : {S A : Type 0} → Option A → Action S A
unwrap none s = (err panic, s)
unwrap (some a) s = (ok a, s)

abbrev pub head : {A : Type 0} → List A → Option A
head [] = none
head (x ∷ xs) = some x

abbrev pub second : {A : Type 0} → List A → Option A
second [] = none
second (x ∷ xs) = head xs

abbrev pub last : {A : Type 0} → List A → Option A
last [] = none
last (x ∷ []) = some x
last (x ∷ y ∷ ys) = last (y ∷ ys)

abbrev pub text_eq : String → String → Bool
text_eq s t = elim (compare s t) [ Ordering.eq ↦ true | _ ↦ false ]

-- `str::contains`: `find` answers with a position past the end where there is none.
abbrev pub contains : String → String → Bool
contains s t = leb (find s t) (len s)

abbrev pub is_none : {A : Type 0} → Option A → Bool
is_none none = true
is_none (some a) = false

abbrev pub is_err : {A : Type 0} → Result A → Bool
is_err r = not (is_ok r)

-- Tests that all end without a panic.
abbrev pub AllPass : List (Result (Unit {0})) → Type 0
AllPass = All λ r. r ≡ ok tt

-- Identifiers that all differ.
abbrev pub AreDistinct : (ℕ → ObjectId) → Type 0
AreDistinct ids = (i j : ℕ) → (i == j) ≡ false → (ids i == ids j) ≡ false

-- What `to_string` makes of a device error has its message in it.
abbrev pub Prints : (Error → String) → Type 0
Prints print =
    (m part : String) → contains m part ≡ true → contains (print (Error.device m)) part ≡ true
