-- ===== src/VulkanBackend/Choice.antt =====
-- Which memory type `find_memory_type` takes.
use sher_graphics.Base.{
  ℕ, zero, suc, ◌+◌, ◌≤◌, ◌<◌, ◌≡◌, refl, inl, inr, true, some, arith, Bool-cases,
}
use sher_graphics.VulkanBackend.{Ash, MemoryProperties, suits, find_from, find_memory_type}

module _ {A : Ash} (props : MemoryProperties A) (type_bits : ℕ) (required : A.Flags) where
  -- The first index from `i` on that suits, if some `j` in range does.
  find_from_least :
      (rounds i j : ℕ)
      → i ≤ j
      → j < i + rounds
      → suits props type_bits required j ≡ true
      → (k : ℕ) × (find_from props type_bits required rounds i ≡ some k)
        × (k ≤ j)
        × (suits props type_bits required k ≡ true)
  unfolding find_from
  find_from_least zero i j le lt h = absurd (omega arith)
  find_from_least (suc rounds) i j le lt h = elim (Bool-cases (suits props type_bits required i)) [
    | inl e ↦ (i, rw e refl, le, e)
    | inr e ↦
        let later : suc i ≤ j = grind arith in
        let (k, q, l, s) = find_from_least rounds (suc i) j later (omega arith) h in
        (k, rw e q, l, s)
  ]

  -- If some memory type is allowed by the type bits and has the required properties, then
  -- `find_memory_type` returns one that does, and none with a smaller index does.
  pub find_memory_type_least :
      (j : ℕ)
      → j < props.memory_type_count
      → suits props type_bits required j ≡ true
      → (k : ℕ) × (find_memory_type props type_bits required ≡ some k)
        × (k ≤ j)
        × (suits props type_bits required k ≡ true)
  unfolding find_memory_type
  find_memory_type_least j lt h =
      find_from_least props.memory_type_count 0 j (omega arith) (omega arith) h
