-- ===== src/Driver/Valid/Requests.antt =====
-- The traces that a program without errors makes, and what memory they may take.
use malloc_jt.Base.{ℕ, ◌+◌, ◌-◌, ◌%◌, ◌^◌, ◌≤◌, ◌<◌, ◌≡◌, ◌≢◌, Bool, true, false, List, [], ◌∷◌}
use malloc_jt.Machine.{null}
use malloc_jt.Mm.{adjust}
use malloc_jt.Mm.Malloc.{growth}
use malloc_jt.Driver.{Libc, RequestType, TraceOp, World, Result, done}
use malloc_jt.Driver.Live.{Tracked, set_alive}

-- A size that `mm_malloc` can serve.
abbrev pub Served : ℕ → Type 0
Served size = (0 < size) × (size ≤ 2 ^ 31 - 16)

-- A request that fits the ids in use, of which there are `n` at most. An id is given out once until it is
-- freed; the low byte of an id that is reallocated is below 128.
abbrev pub Allowed : ℕ → (ℕ → Bool) → RequestType → (index size : ℕ) → Type 0
Allowed n alive RequestType.alloc index size = (alive index ≡ false) × (index < n) × Served size
Allowed n alive RequestType.realloc index size =
    (alive index ≡ true) × (index < n) × (index % 256 < 128) × Served size
Allowed n alive RequestType.free index size = alive index ≡ true

-- The ids in use after a request.
abbrev pub alive_after : (ℕ → Bool) → RequestType → ℕ → ℕ → Bool
alive_after alive RequestType.alloc index = set_alive alive index true
alive_after alive RequestType.realloc index = set_alive alive index true
alive_after alive RequestType.free index = set_alive alive index false

-- A trace whose requests all fit.
abbrev pub Plays : ℕ → (ℕ → Bool) → List TraceOp → Type 0
Plays n alive [] = Unit {0}
Plays n alive (op ∷ ops) =
    Allowed n alive op.type op.index op.size × Plays n (alive_after alive op.type op.index) ops

-- By how many bytes the heap grows at most.
abbrev pub cost : RequestType → ℕ → ℕ
cost RequestType.alloc size = growth (adjust size)
cost RequestType.realloc size = growth (adjust size)
cost RequestType.free size = 0

abbrev pub demand : List TraceOp → ℕ
demand [] = 0
demand (op ∷ ops) = cost op.type op.size + demand ops

-- The C library's `malloc` never returns NULL.
abbrev pub Generous : {M : Type 0} → Libc M → Type 0
Generous {M} c = (k : ℕ) (m : M) → (c.malloc k m).0 ≢ null

-- Nor does its `realloc`.
abbrev pub Regrants : {M : Type 0} → Libc M → Type 0
Regrants {M} c = (p n : ℕ) (m : M) → (c.realloc p n m).0 ≢ null

-- A step of `eval_mm_valid` that goes on, without a complaint.
pub record Goes {M : Type 0} (w : World M) (n : ℕ) (alive : ℕ → Bool) (spent : ℕ)
    (r : Result M Bool) : Type 0 where
  pub world : World M
  pub returns : r ≡ done true world
  pub tracked : Tracked world n alive
  pub errors : world.errors ≡ w.errors
  pub reports : world.reports ≡ w.reports
  pub same_arena :
      (world.heap.mem_start_brk ≡ w.heap.mem_start_brk)
      × (world.heap.mem_max_addr ≡ w.heap.mem_max_addr)
  pub break_at : world.heap.mem_brk ≤ w.heap.mem_brk + spent
