-- ===== src/Map/Same.antt =====
-- Hash maps that hold the same entries, in whatever order they are iterated.
use sher_graphics.Base.{ℕ, ◌≡◌, Bool}
use sher_graphics.Map.{Map, get, insert, remove, modify, retain, map_laws}

module _ {V : Type 0} where
  abbrev pub Same : Map V → Map V → Type 0
  Same m n = (k : ℕ) → get k m ≡ get k n

  module _ (m n : Map V) (same : Same m n) where
    pub insert-Same : (k : ℕ) (v : V) → Same (insert k v m) (insert k v n)
    insert-Same k v j = let h = same j in grind map_laws

    pub remove-Same : (k : ℕ) → Same (remove k m) (remove k n)
    remove-Same k j = let h = same j in grind map_laws

    pub modify-Same : (k : ℕ) (f : V → V) → Same (modify k f m) (modify k f n)
    modify-Same k f j = let h = same j in grind map_laws

    pub retain-Same : (keep : V → Bool) → Same (retain keep m) (retain keep n)
    retain-Same keep j = let h = same j in grind map_laws
