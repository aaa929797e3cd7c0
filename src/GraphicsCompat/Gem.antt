-- ===== src/GraphicsCompat/Gem.antt =====
-- What `DrmCompatShim` promises its clients: a table of handles, each with the GPU and the size of
-- its buffer, and a budget for each GPU. No runtime and no driver stand behind it.
use sher_graphics.Base.{ℕ, ◌+◌, ◌≡◌, Option, none, some, List, [], ◌∷◌, ◌==◌, if◌then◌else◌, ltb}
use sher_graphics.Map.{Map, get, insert, remove}
use sher_graphics.Result.{Result, ok, err, Error}
use sher_graphics.Kernel.{ObjectId}
use sher_graphics.GraphicsCompat.{
  DrmRequest, gem_create, gem_close, prime_handle_to_fd, mode_get_resources, DrmResponse,
  gem_handle, closed, prime_fd, resources,
}

abbrev pub Handles : Type 0
Handles = Map (ObjectId × ℕ)

-- What the open handles of a GPU hold.
unfoldable pub reserved : ObjectId → Handles → ℕ
reserved g [] = 0
reserved g ((k, (gpu, size)) ∷ taken) = (if gpu == g then size else 0) + reserved g taken

-- A request, with the identifier that a `GemCreate` draws.
abbrev pub Drawn : Type 0
Drawn = ObjectId × DrmRequest

-- The GPU that a device stands on, and the budget of a GPU.
module _ (gpu_of : ObjectId → Option ObjectId) (budget : ObjectId → Option ℕ) where
  unfoldable pub promise : Drawn → Handles → Result DrmResponse × Handles
  unfolding reserved
  promise (fresh, gem_create device size) taken = elim (gpu_of device) [
    | none ↦ (err (Error.device "unknown graphics device"), taken)
    | some g ↦ elim (budget g) [
      | none ↦ (err (Error.device "unknown GPU device"), taken)
      | some total ↦
          if ltb total (reserved g taken + size)
          then (err (Error.memory "insufficient VRAM"), taken)
          else (ok (gem_handle fresh), insert fresh (g, size) taken)
    ]
  ]
  promise (fresh, gem_close handle) taken = elim (get handle taken) [
    | none ↦ (err (Error.memory "unknown resource"), taken)
    | some e ↦ (ok closed, remove handle taken)
  ]
  promise (fresh, prime_handle_to_fd handle) taken = (ok (prime_fd handle), taken)
  promise (fresh, mode_get_resources) taken = (ok (resources []), taken)

  unfoldable pub promises : List Drawn → Handles → List (Result DrmResponse) × Handles
  unfolding promise
  promises [] taken = ([], taken)
  promises (q ∷ qs) taken =
      let (x, taken') = promise q taken in
      let (xs, taken'') = promises qs taken' in (x ∷ xs, taken'')

  -- Identifiers are drawn new.
  abbrev pub AreFresh : List Drawn → Handles → Type 0
  AreFresh [] taken = Unit
  AreFresh ((fresh, r) ∷ qs) taken =
      (get fresh taken ≡ none) × AreFresh qs (promise (fresh, r) taken).1
