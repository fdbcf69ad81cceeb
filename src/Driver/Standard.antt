-- ===== src/Driver/Standard.antt =====
-- `eval_libc_valid` and `eval_libc_speed` of mdriver.c: they run a trace on the C library's `malloc`.
-- `read_trace` stores requests of the three types only, and so does the model: the case `default` of
-- `eval_libc_valid`, which calls `app_error`, is not reached.
pub mod Agree
pub mod Served
use malloc_jt.Base.{ℕ, suc, Bool, true, List, [], ◌∷◌, ◌==◌, if◌then◌else◌}
use malloc_jt.Machine.{null}
use malloc_jt.Driver.{
  Libc, RequestType, TraceOp, Trace, malloc_failed, realloc_failed, Run, give, ◌>>=◌, ◌>>◌,
  to_size_t, get_block, set_block, malloc_error, unix_error, libc_malloc, libc_realloc, libc_free,
}

module _ {M : Type 0} (c : Libc M) where
  unfoldable pub libc_valid_op : ℕ → ℕ → TraceOp → Run M (Unit {0})
  libc_valid_op tracenum i op = elim op.type [
    | RequestType.alloc ↦ do
      p ← libc_malloc c (to_size_t op.size)
      if p == null
          then malloc_error tracenum i malloc_failed >> unix_error
          else set_block op.index p
    | RequestType.realloc ↦ do
      oldp ← get_block op.index
      newp ← libc_realloc c oldp (to_size_t op.size)
      if newp == null
          then malloc_error tracenum i realloc_failed >> unix_error
          else set_block op.index newp
    | RequestType.free ↦ do p ← get_block op.index; libc_free c p
  ]

  unfoldable pub libc_valid_ops : ℕ → ℕ → List TraceOp → Run M (Unit {0})
  libc_valid_ops tracenum i [] = give tt
  libc_valid_ops tracenum i (op ∷ ops) =
      libc_valid_op tracenum i op >> libc_valid_ops tracenum (suc i) ops

  unfoldable pub eval_libc_valid : Trace → ℕ → Run M Bool
  eval_libc_valid trace tracenum = libc_valid_ops tracenum 0 trace.ops >> give true

  unfoldable pub libc_speed_op : TraceOp → Run M (Unit {0})
  libc_speed_op op = elim op.type [
    | RequestType.alloc ↦ do
      p ← libc_malloc c (to_size_t op.size)
      if p == null then unix_error else set_block op.index p
    | RequestType.realloc ↦ do
      oldp ← get_block op.index
      newp ← libc_realloc c oldp (to_size_t op.size)
      if newp == null then unix_error else set_block op.index newp
    | RequestType.free ↦ do block ← get_block op.index; libc_free c block
  ]

  unfoldable pub libc_speed_ops : List TraceOp → Run M (Unit {0})
  libc_speed_ops [] = give tt
  libc_speed_ops (op ∷ ops) = libc_speed_op op >> libc_speed_ops ops

  unfoldable pub eval_libc_speed : Trace → Run M (Unit {0})
  eval_libc_speed trace = libc_speed_ops trace.ops
