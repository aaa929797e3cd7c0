-- ===== src/GpuAbstraction/Software/Ledger/Refines.antt =====
-- `SoftwareGpuDriver` against its ledger.
use sher_graphics.Base.{
  ℕ, ◌≡◌, refl, none, some, List, [], ◌∷◌, Option, Option-cases, inl, inr, arith, String,
}
use sher_graphics.Map.{get, map_laws}
use sher_graphics.Kernel.{ObjectId}
use sher_graphics.GraphicsApi.{MemoryClass, WorkloadClass}
use sher_graphics.GpuAbstraction.{DriverOp}
use sher_graphics.GpuAbstraction.Software.{
  SoftwareGpuDriver, DeviceState, new_allocation, debit, map_dma, submit, fault_status,
  vram_available, reset_device, mark_faulted, inject_fault,
}
use sher_graphics.GpuAbstraction.Software.Vram.{
  IsValid, allocate_vram_cases, free_vram_cases, allocate_vram-IsValid, free_vram-IsValid,
}
use sher_graphics.GpuAbstraction.Software.History.{
  resets as resets_call, marks as marks_call, step, step-IsValid, set_state_cases,
}
use sher_graphics.GpuAbstraction.Software.Ledger.{
  Request, allocates, frees, maps, asks_fault, asks_free, resets, submits, marks, Answer, answer,
  answers, Account, Ledger, promise, promises, IsFresh, AreFresh,
}

abbrev pub entry : Option DeviceState → Option Account
entry none = none
entry (some s) = some (record { total = s.vram_total; fault = s.fault })

-- The ledger tells of the driver all but its counters, the registers and the devices' descriptions.
pub record Tells (l : Ledger) (d : SoftwareGpuDriver) : Type 0 where
  pub accounts : (g : ObjectId) → l.accounts g ≡ entry (get g d.devices)
  pub live : l.live ≡ d.allocations

-- The ledger that a driver answers to.
abbrev pub ledger_of : SoftwareGpuDriver → Ledger
ledger_of d = record { accounts = λ g. entry (get g d.devices); live = d.allocations }

abbrev Agrees : Answer × Ledger → Answer × SoftwareGpuDriver → Type 0
Agrees (x, l) (y, d) = (y ≡ x) × Tells l d × IsValid d

allocate-Agrees :
    (fresh g : ObjectId) (size : ℕ) (class : MemoryClass) (l : Ledger) (d : SoftwareGpuDriver)
    → get fresh l.live ≡ none
    → Tells l d
    → IsValid d
    → Agrees (promise (allocates fresh g size class) l) (answer (allocates fresh g size class) d)
unfolding promise answer new_allocation debit
allocate-Agrees fresh g size class l d new t v =
    let new' : get fresh d.allocations ≡ none = ground (arith, t.live) in
    let v' = allocate_vram-IsValid fresh g size class d new' v in
    elim (allocate_vram_cases fresh g size class d) [
      | inl (e, q) ↦ (
        grind (arith, t.accounts g),
        record {
          accounts = λ h. grind (arith, t.accounts g, t.accounts h);
          live = grind (arith, t.accounts g, t.live);
        },
        v',
      )
      | inr (inl (s, e, small, q)) ↦ (
        grind (arith, t.accounts g, t.live, v.balanced g s),
        record {
          accounts = λ h. grind (arith, t.accounts g, t.accounts h, t.live, v.balanced g s);
          live = grind (arith, t.accounts g, t.live, v.balanced g s);
        },
        v',
      )
      | inr (inr (s, e, fits, q)) ↦ (
        grind (arith, t.accounts g, t.live, v.balanced g s),
        record {
          accounts = λ h. grind (map_laws, t.accounts g, t.accounts h, t.live, v.balanced g s);
          live = grind (arith, t.accounts g, t.live, v.balanced g s);
        },
        v',
      )
    ]

free-Agrees :
    (k : ObjectId) (l : Ledger) (d : SoftwareGpuDriver)
    → Tells l d
    → IsValid d
    → Agrees (promise (frees k) l) (answer (frees k) d)
unfolding promise answer
free-Agrees k l d t v =
    let v' = free_vram-IsValid k d v in
    elim (free_vram_cases k d v) [
      | inl (e, q) ↦ (
        grind (arith, t.live),
        record {
          accounts = λ h. grind (arith, t.accounts h, t.live);
          live = grind (arith, t.live);
        },
        v',
      )
      | inr (a, e, q) ↦ (
        grind (arith, t.live),
        record {
          accounts = λ h. grind (map_laws, t.accounts h, t.live);
          live = grind (arith, t.live);
        },
        v',
      )
    ]

map-Agrees :
    (k : ObjectId) (l : Ledger) (d : SoftwareGpuDriver)
    → Tells l d
    → IsValid d
    → Agrees (promise (maps k) l) (answer (maps k) d)
unfolding promise answer map_dma
map-Agrees k l d t v = elim (Option-cases (get k d.allocations)) [
  | inl e ↦ (
    grind (arith, t.live),
    record { accounts = λ h. grind (arith, t.accounts h); live = grind (arith, t.live) },
    grind arith,
  )
  | inr (a, e) ↦ (
    grind (arith, t.live),
    record { accounts = λ h. grind (arith, t.accounts h); live = grind (arith, t.live) },
    grind arith,
  )
]

fault-Agrees :
    (g : ObjectId) (l : Ledger) (d : SoftwareGpuDriver)
    → Tells l d
    → IsValid d
    → Agrees (promise (asks_fault g) l) (answer (asks_fault g) d)
unfolding promise answer fault_status
fault-Agrees g l d t v = (grind (arith, t.accounts g), t, v)

free_bytes-Agrees :
    (g : ObjectId) (l : Ledger) (d : SoftwareGpuDriver)
    → Tells l d
    → IsValid d
    → Agrees (promise (asks_free g) l) (answer (asks_free g) d)
unfolding promise answer vram_available
free_bytes-Agrees g l d t v = elim (Option-cases (get g d.devices)) [
  | inl e ↦ (grind (arith, t.accounts g), t, v)
  | inr (s, e) ↦ (grind (arith, t.accounts g, t.live, v.balanced g s e), t, v)
]

reset-Agrees :
    (g : ObjectId) (l : Ledger) (d : SoftwareGpuDriver)
    → Tells l d
    → IsValid d
    → Agrees (promise (resets g) l) (answer (resets g) d)
unfolding promise answer reset_device step
reset-Agrees g l d t v =
    let v' = step-IsValid (resets_call g) d tt v in
    elim (set_state_cases g (λ s. record s { fault = none }) d) [
      | inl (e, q) ↦ (
        grind (arith, t.accounts g),
        record {
          accounts = λ h. grind (arith, t.accounts g, t.accounts h);
          live = grind (arith, t.live);
        },
        v',
      )
      | inr (s, e, q) ↦ (
        grind (arith, t.accounts g),
        record {
          accounts = λ h. grind (map_laws, t.accounts g, t.accounts h);
          live = grind (arith, t.live);
        },
        v',
      )
    ]

submit-Agrees :
    (g : ObjectId) (class : WorkloadClass) (ops : List DriverOp) (l : Ledger)
    (d : SoftwareGpuDriver)
    → Tells l d
    → IsValid d
    → Agrees (promise (submits g class ops) l) (answer (submits g class ops) d)
unfolding promise answer submit
submit-Agrees g class ops l d t v = (grind (arith, t.accounts g), t, v)

mark-Agrees :
    (g : ObjectId) (text : String) (l : Ledger) (d : SoftwareGpuDriver)
    → Tells l d
    → IsValid d
    → Agrees (promise (marks g text) l) (answer (marks g text) d)
unfolding promise answer mark_faulted inject_fault step
mark-Agrees g text l d t v = (
  refl,
  record { accounts = λ h. grind (map_laws, t.accounts h); live = t.live },
  step-IsValid (marks_call g text) d tt v,
)

answer-Agrees :
    (q : Request) (l : Ledger) (d : SoftwareGpuDriver)
    → IsFresh q l
    → Tells l d
    → IsValid d
    → Agrees (promise q l) (answer q d)
answer-Agrees (allocates fresh g size class) l d new t v =
    allocate-Agrees fresh g size class l d new t v
answer-Agrees (frees k) l d new t v = free-Agrees k l d t v
answer-Agrees (maps k) l d new t v = map-Agrees k l d t v
answer-Agrees (asks_fault g) l d new t v = fault-Agrees g l d t v
answer-Agrees (asks_free g) l d new t v = free_bytes-Agrees g l d t v
answer-Agrees (resets g) l d new t v = reset-Agrees g l d t v
answer-Agrees (submits g class ops) l d new t v = submit-Agrees g class ops l d t v
answer-Agrees (marks g text) l d new t v = mark-Agrees g text l d t v

answers_agree :
    (qs : List Request) (l : Ledger) (d : SoftwareGpuDriver)
    → AreFresh qs l
    → Tells l d
    → IsValid d
    → ((answers qs d).0 ≡ (promises qs l).0) × Tells (promises qs l).1 (answers qs d).1
unfolding answers promises
answers_agree [] l d new t v = (refl, t)
answers_agree (q ∷ qs) l d new t v =
    let (same, t', v') = answer-Agrees q l d new.0 t v in
    let (rest, t'') = answers_agree qs (promise q l).1 (answer q d).1 new.1 t' v' in
    (ground arith, t'')

-- A driver whose accounts are valid refines the ledger that it stands for, which keeps no counter:
-- to any sequence of requests in which identifiers are drawn new, it gives the promised answers,
-- address by address and error by error, and stands for the promised ledger afterwards.
pub software_refines :
    (qs : List Request) (d : SoftwareGpuDriver)
    → IsValid d
    → AreFresh qs (ledger_of d)
    → ((answers qs d).0 ≡ (promises qs (ledger_of d)).0)
      × Tells (promises qs (ledger_of d)).1 (answers qs d).1
software_refines qs d v new =
    answers_agree qs (ledger_of d) d new (record { accounts = λ g. refl; live = refl }) v
