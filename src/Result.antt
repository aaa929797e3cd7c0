-- ===== src/Result.antt =====
-- `sher_common::Error` and `Result` as the workspace uses them, and methods that take `&mut self`.
pub mod Related
use sher_graphics.Base.{◌≡◌, refl, ◌⊎◌, inl, inr, Bool, String, Option, none, some}

-- The three constructors of `sher_common::Error` that the sources name.
pub data Error : Type 0 where
  device memory security : String → Error

pub data Result {ℓ} (A : Type ℓ) : Type ℓ where
  ok : A → Result A
  err : Error → Result A

module _ {ℓ} {A : Type ℓ} where
  abbrev pub is_ok : Result A → Bool
  is_ok (ok a) = Bool.true
  is_ok (err e) = Bool.false

  abbrev pub ok_or : Option A → Error → Result A
  ok_or none e = err e
  ok_or (some a) e = ok a

  pub Result-cases : (r : Result A) → ((a : A) × (r ≡ ok a)) ⊎ ((e : Error) × (r ≡ err e))
  Result-cases (ok a) = inl (a, refl)
  Result-cases (err e) = inr (e, refl)

abbrev pub and_then {ℓ κ} : {A : Type ℓ} {B : Type κ} → Result A → (A → Result B) → Result B
and_then (ok a) f = f a
and_then (err e) f = err e

pub and_then_same {ℓ κ} :
    {A : Type ℓ} {B : Type κ} (r : Result A) (f g : A → Result B)
    → ((a : A) → f a ≡ g a)
    → and_then r f ≡ and_then r g
and_then_same (ok a) f g same = same a
and_then_same (err e) f g same = refl

-- A method with `&mut self`: what it wrote before it returned an error stays written.
abbrev pub Action : Type 0 → Type 0 → Type 0
Action S A = S → Result A × S

abbrev pub pure : {S A : Type 0} → A → Action S A
pure a s = (ok a, s)

abbrev pub throw : {S A : Type 0} → Error → Action S A
throw e s = (err e, s)

abbrev pub lift : {S A : Type 0} → Result A → Action S A
lift r s = (r, s)

abbrev pub reads : {S A : Type 0} → (S → Result A) → Action S A
reads f s = (f s, s)

abbrev pub writes : {S : Type 0} → (S → S) → Action S (Unit {0})
writes f s = (ok tt, f s)

infixl 5 ◌>>=◌ ◌>>◌
abbrev pub ◌>>=◌ : {S A B : Type 0} → Action S A → (A → Action S B) → Action S B
◌>>=◌ m f s = let (r, s') = m s in elim r [ ok a ↦ f a s' | err e ↦ (err e, s') ]

abbrev pub ◌>>◌ : {S A B : Type 0} → Action S A → Action S B → Action S B
m >> k = m >>= λ _. k

-- `if test { return Err(e) }`
abbrev pub fail_if : {S : Type 0} → Bool → Error → Action S (Unit {0})
fail_if Bool.true e s = (err e, s)
fail_if Bool.false e s = (ok tt, s)
