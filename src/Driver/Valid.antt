-- ===== src/Driver/Valid.antt =====
-- `eval_mm_valid` of mdriver.c: it runs a trace on the allocator, and checks every block it gets.
pub mod Alloc
pub mod Fresh
pub mod FromFile
pub mod Passes
pub mod Realloc
pub mod Release
pub mod Requests
pub mod Short
use malloc_jt.Base.{
  ℕ, suc, ◌%◌, Bool, true, false, not, List, [], ◌∷◌, ◌==◌, if◌then◌else◌, u32, int_gt, is_neg,
  bit_and,
}
use malloc_jt.Machine.{null}
use malloc_jt.Memlib.{mem_reset_brk}
use malloc_jt.Mm.{mm_init, mm_malloc, mm_realloc, mm_free}
use malloc_jt.Driver.{
  Libc, RequestType, TraceOp, Trace, Complaint, init_failed, malloc_failed, realloc_failed,
  not_preserved, Run, give, ◌>>=◌, ◌>>◌, student, to_size_t, get_block, get_block_size, set_block,
  set_block_size, malloc_error,
}
use malloc_jt.Driver.Contents.{memset, preserved}
use malloc_jt.Driver.Ranges.{add_range, remove_range, clear_ranges}

-- How many rounds `for (j = 0; j < n; j++)` makes.
unfoldable pub rounds : ℕ → ℕ
rounds n = if is_neg n then 0 else n

-- `if (size < oldsize) oldsize = size;` on two `int`s, the second cut from a `size_t`.
unfoldable pub shorter : ℕ → ℕ → ℕ
shorter size oldsize = if int_gt (oldsize % u32) size then size else oldsize % u32

module _ {M : Type 0} (c : Libc M) (tracenum : ℕ) where
  unfoldable pub fail : ℕ → Complaint → Run M Bool
  fail i e = malloc_error tracenum i e >> give false

  -- The three cases of the loop. The result is whether the loop goes on.
  unfoldable pub valid_alloc : ℕ → ℕ → ℕ → Run M Bool
  valid_alloc i index size = do
    p ← student (mm_malloc size)
    if p == null then fail i malloc_failed else do
      good ← add_range c p size tracenum i
      if not good then give false else do
        student (memset p (bit_and index 0xFF) (to_size_t size))
        set_block index p
        set_block_size index size
        give true

  unfoldable pub valid_realloc : ℕ → ℕ → ℕ → Run M Bool
  valid_realloc i index size = do
    oldp ← get_block index
    newp ← student (mm_realloc oldp size)
    if newp == null then fail i realloc_failed else do
      remove_range c oldp
      good ← add_range c newp size tracenum i
      if not good then give false else do
        oldsize ← get_block_size index
        same ← student (preserved (rounds (shorter size oldsize)) index newp)
        if not same then fail i not_preserved else do
          student (memset newp (bit_and index 0xFF) (to_size_t size))
          set_block index newp
          set_block_size index size
          give true

  unfoldable pub valid_free : ℕ → Run M Bool
  valid_free index = do p ← get_block index; remove_range c p; student (mm_free p); give true

  unfoldable pub valid_op : ℕ → TraceOp → Run M Bool
  valid_op i op = elim op.type [
    | RequestType.alloc ↦ valid_alloc i op.index op.size
    | RequestType.realloc ↦ valid_realloc i op.index op.size
    | RequestType.free ↦ valid_free op.index
  ]

  -- The loop, from the request `i` on.
  unfoldable pub valid_ops : ℕ → List TraceOp → Run M Bool
  valid_ops i [] = give true
  valid_ops i (op ∷ ops) = do go ← valid_op i op; if go then valid_ops (suc i) ops else give false

  unfoldable pub eval_mm_valid : Trace → Run M Bool
  eval_mm_valid trace = do
    student mem_reset_brk
    clear_ranges c
    started ← student mm_init
    if not started then fail 0 init_failed else valid_ops 0 trace.ops
