-- ===== src/Map.antt =====
-- `std::collections::HashMap` with `ObjectId` or `usize` keys, as an association list: the list's
-- order is one order in which the table may be iterated. Every law is stated through `get`.
pub mod Same
use sher_graphics.Base.{
  ℕ, ◌+◌, length, ◌≡◌, refl, ◌≢◌, Bool, true, false, Option, none, some, List, [], ◌∷◌, map, arith,
  ◌==◌, if◌then◌else◌, is_some, Option-cases, inl, inr,
}

abbrev pub Map {ℓ} : Type ℓ → Type ℓ
Map V = List (ℕ × V)

module _ {ℓ} {V : Type ℓ} where
  unfoldable pub get : ℕ → Map V → Option V
  get k [] = none
  get k ((j, v) ∷ m) = if k == j then some v else get k m

  abbrev pub contains_key : ℕ → Map V → Bool
  contains_key k m = is_some (get k m)

  unfoldable pub insert : ℕ → V → Map V → Map V
  insert k v [] = (k, v) ∷ []
  insert k v ((j, w) ∷ m) = if k == j then (k, v) ∷ m else (j, w) ∷ insert k v m

  unfoldable pub remove : ℕ → Map V → Map V
  remove k [] = []
  remove k ((j, v) ∷ m) = let rest = remove k m in if k == j then rest else (j, v) ∷ rest

  -- `get_mut` and a write through the reference.
  unfoldable pub modify : ℕ → (V → V) → Map V → Map V
  modify k f [] = []
  modify k f ((j, v) ∷ m) = if k == j then (j, f v) ∷ m else (j, v) ∷ modify k f m

  -- `retain`. An entry that goes takes along those that it hides, of which a table has none.
  unfoldable pub retain : (V → Bool) → Map V → Map V
  retain keep [] = []
  retain keep ((j, v) ∷ m) =
      let rest = retain keep m in if keep v then (j, v) ∷ rest else remove j rest

  abbrev pub keys : Map V → List ℕ
  keys = map λ e. e.0

  abbrev pub values : Map V → List V
  values = map λ e. e.1

  pub get-insert :
      (j k : ℕ) (v : V) (m : Map V) → get j (insert k v m) ≡ (if j == k then some v else get j m)
  unfolding get insert
  get-insert j k v [] = refl
  get-insert j k v ((i, w) ∷ m) = ground (arith, get-insert j k v m)

  pub get-remove : (j k : ℕ) (m : Map V) → get j (remove k m) ≡ (if j == k then none else get j m)
  unfolding get remove
  get-remove j k [] = ground arith
  get-remove j k ((i, w) ∷ m) = ground (arith, get-remove j k m)

  pub get-modify :
      (j k : ℕ) (f : V → V) (m : Map V)
      → get j (modify k f m)
        ≡ (if j == k then elim (get j m) [ none ↦ none | some v ↦ some (f v) ] else get j m)
  unfolding get modify
  get-modify j k f [] = ground arith
  get-modify j k f ((i, w) ∷ m) = ground (arith, get-modify j k f m)

  pub get-retain :
      (j : ℕ) (keep : V → Bool) (m : Map V)
      → get j (retain keep m)
        ≡ elim (get j m) [ none ↦ none | some v ↦ if keep v then some v else none ]
  unfolding get retain
  get-retain j keep [] = refl
  get-retain j keep ((i, w) ∷ m) =
      ground (arith, get-retain j keep m, get-remove j i (retain keep m))

  -- What `retain` leaves was there before, and passes its test.
  pub retain-some :
      (k : ℕ) (v : V) (keep : V → Bool) (m : Map V)
      → get k (retain keep m) ≡ some v
      → (get k m ≡ some v) × (keep v ≡ true)
  retain-some k v keep m h = elim (Option-cases (get k m)) [
    | inl e ↦ absurd (ground (arith, get-retain k keep m))
    | inr (w, e) ↦ ground (arith, get-retain k keep m)
  ]

  -- No key is listed twice.
  abbrev pub NodupKeys : Map V → Type ℓ
  NodupKeys [] = Unit
  NodupKeys ((k, v) ∷ m) = (get k m ≡ none) × NodupKeys m

  pub insert-NodupKeys : (k : ℕ) (v : V) (m : Map V) → NodupKeys m → NodupKeys (insert k v m)
  unfolding get insert
  insert-NodupKeys k v [] h = (refl, tt)
  insert-NodupKeys k v ((j, w) ∷ m) h =
      ground (arith, insert-NodupKeys k v m h.1, get-insert j k v m)

  pub remove-NodupKeys : (k : ℕ) (m : Map V) → NodupKeys m → NodupKeys (remove k m)
  unfolding get remove
  remove-NodupKeys k [] h = tt
  remove-NodupKeys k ((j, w) ∷ m) h = ground (arith, remove-NodupKeys k m h.1, get-remove j k m)

  pub remove_missing : (k : ℕ) (m : Map V) → get k m ≡ none → remove k m ≡ m
  unfolding get remove
  remove_missing k [] h = refl
  remove_missing k ((j, w) ∷ m) h = ground (arith, remove_missing k m)

  pub modify-modify :
      (k : ℕ) (f g : V → V) (v : V) (m : Map V)
      → get k m ≡ some v
      → f (g v) ≡ v
      → modify k f (modify k g m) ≡ m
  unfolding get modify
  modify-modify k f g v [] h e = refl
  modify-modify k f g v ((j, w) ∷ m) h e = ground (arith, modify-modify k f g v m)

  pub length-insert_new :
      (k : ℕ) (v : V) (m : Map V) → get k m ≡ none → length (insert k v m) ≡ length m + 1
  unfolding get insert
  length-insert_new k v [] h = omega arith
  length-insert_new k v ((j, w) ∷ m) h = ground (arith, length-insert_new k v m)

  -- A new entry, taken out again, leaves the table as it was.
  pub remove-insert : (k : ℕ) (v : V) (m : Map V) → get k m ≡ none → remove k (insert k v m) ≡ m
  unfolding get insert remove
  remove-insert k v [] h = ground arith
  remove-insert k v ((j, w) ∷ m) h = ground (arith, remove-insert k v m)

pub ruleset map_laws = (arith, get-insert, get-remove, get-modify, get-retain)
