-- ===== src/Driver/Util.antt =====
-- `eval_mm_util` and `eval_mm_speed` of mdriver.c: they run a trace on the allocator without checks.
pub mod Agree
pub mod Carries
pub mod Counts
pub mod Measured
pub mod Tallies
pub mod Peak
pub mod Released
use malloc_jt.Base.{ℕ, ◌%◌, not, List, [], ◌∷◌, ◌==◌, if◌then◌else◌, u32, add32, sub32, int_gt}
use malloc_jt.Machine.{null}
use malloc_jt.Memlib.{mem_reset_brk, mem_heapsize}
use malloc_jt.Mm.{mm_init, mm_malloc, mm_realloc, mm_free}
use malloc_jt.Driver.{
  RequestType, TraceOp, Trace, Run, done, give, ◌>>=◌, ◌>>◌, student, get_block, get_block_size,
  set_block, set_block_size, app_error,
}

-- `total_size` and `max_total_size`, two `int`s.
pub record Usage : Type 0 where
  pub total_size : ℕ
  pub max_total_size : ℕ

-- The new total, and the larger of it and the old maximum.
unfoldable pub raise : ℕ → ℕ → Usage
raise total old = record {
  total_size = total;
  max_total_size = if int_gt total old then total else old;
}

module _ {M : Type 0} where
  unfoldable pub util_alloc : ℕ → ℕ → Usage → Run M Usage
  util_alloc index size u = do
    p ← student (mm_malloc size)
    if p == null then app_error else do
      set_block index p
      set_block_size index size
      give (raise (add32 u.total_size size) u.max_total_size)

  unfoldable pub util_realloc : ℕ → ℕ → Usage → Run M Usage
  util_realloc index newsize u = do
    oldsize ← get_block_size index
    oldp ← get_block index
    newp ← student (mm_realloc oldp newsize)
    if newp == null then app_error else do
      set_block index newp
      set_block_size index newsize
      give (raise (add32 u.total_size (sub32 newsize (oldsize % u32))) u.max_total_size)

  unfoldable pub util_free : ℕ → Usage → Run M Usage
  util_free index u = do
    size ← get_block_size index
    p ← get_block index
    student (mm_free p)
    give
        (record { total_size = sub32 u.total_size (size % u32); max_total_size = u.max_total_size })

  unfoldable pub util_op : TraceOp → Usage → Run M Usage
  util_op op u = elim op.type [
    | RequestType.alloc ↦ util_alloc op.index op.size u
    | RequestType.realloc ↦ util_realloc op.index op.size u
    | RequestType.free ↦ util_free op.index u
  ]

  unfoldable pub util_ops : List TraceOp → Usage → Run M Usage
  util_ops [] u = give u
  util_ops (op ∷ ops) u = util_op op u >>= util_ops ops

  -- The two sides of the quotient that the code returns as a `double`.
  unfoldable pub eval_mm_util : Trace → Run M (ℕ × ℕ)
  eval_mm_util trace = do
    student mem_reset_brk
    started ← student mm_init
    if not started then app_error else do
      u ← util_ops trace.ops (record { total_size = 0; max_total_size = 0 })
      (λ w. done (u.max_total_size, mem_heapsize w.heap) w)

  unfoldable pub speed_alloc : ℕ → ℕ → Run M (Unit {0})
  speed_alloc index size = do
    p ← student (mm_malloc size)
    if p == null then app_error else set_block index p

  unfoldable pub speed_realloc : ℕ → ℕ → Run M (Unit {0})
  speed_realloc index newsize = do
    oldp ← get_block index
    newp ← student (mm_realloc oldp newsize)
    if newp == null then app_error else set_block index newp

  unfoldable pub speed_free : ℕ → Run M (Unit {0})
  speed_free index = do block ← get_block index; student (mm_free block)

  unfoldable pub speed_op : TraceOp → Run M (Unit {0})
  speed_op op = elim op.type [
    | RequestType.alloc ↦ speed_alloc op.index op.size
    | RequestType.realloc ↦ speed_realloc op.index op.size
    | RequestType.free ↦ speed_free op.index
  ]

  unfoldable pub speed_ops : List TraceOp → Run M (Unit {0})
  speed_ops [] = give tt
  speed_ops (op ∷ ops) = speed_op op >> speed_ops ops

  unfoldable pub eval_mm_speed : Trace → Run M (Unit {0})
  eval_mm_speed trace = do
    student mem_reset_brk
    started ← student mm_init
    if not started then app_error else speed_ops trace.ops
