-- ===== src/Driver/ReadTrace.antt =====
-- `read_trace` and `free_trace` of mdriver.c. The file that `fopen` returned, and `fscanf` on it,
-- are the record `Scanner`; the loop over its lines runs on fuel.
pub mod Format
pub mod Lines
pub mod Written
use malloc_jt.Base.{
  ℕ, zero, suc, ◌*◌, ◌%◌, ◌&&◌, ◌||◌, Option, none, some, List, [], ◌∷◌, ◌++◌, ltb, ◌==◌,
  if◌then◌else◌, u64, sub32, int_gt, length,
}
use malloc_jt.Machine.{Ptr, null}
use malloc_jt.Driver.{
  Libc, RequestType, TraceOp, Trace, Run, done, crashed, aborted, endless, stopped, give, ◌>>=◌,
  ◌>>◌, to_size_t, unix_error, libc_malloc, libc_free,
}

-- `fscanf` with one conversion, `%d`, `%u`, `%ud` or `%s`: the value read, or nothing. `%ud`, in the lines of a
-- FREE, is `%u` and then the letter d. Of the word that `%s` reads, the code looks at the first character.
pub record Scanner (F : Type 0) : Type 0 where
  pub scan_int : F → Option (ℕ × F)
  pub scan_unsigned : F → Option (ℕ × F)
  pub scan_unsigned_d : F → Option (ℕ × F)
  pub scan_word : F → Option (ℕ × F)

-- A trace in memory: the record, its three arrays and what they hold at first.
pub record Loaded : Type 0 where
  pub self : Ptr
  pub ops : Ptr
  pub blocks : Ptr
  pub block_sizes : Ptr
  pub trace : Trace

module _ {M : Type 0} where
  abbrev pub scanned : {A : Type 0} → Option A → Run M A
  scanned none = unix_error
  scanned (some a) = give a

  -- A new entry is written behind the earlier ones, if the array has a place for it.
  unfoldable pub push_op : ℕ → List TraceOp → TraceOp → Run M (List TraceOp)
  push_op num_ops ops op =
      if ltb (length ops) num_ops then give (ops ++ (op ∷ [])) else (λ w. crashed)

  -- `malloc` of one of the arrays.
  unfoldable pub new_array : Libc M → ℕ → ℕ → Run M Ptr
  new_array c n width = do
    p ← libc_malloc c ((to_size_t n * width) % u64)
    if p == null then unix_error else give p

-- The contents of a new array, which are whatever the memory holds.
unfoldable pub tabulate : (ℕ → ℕ) → ℕ → List ℕ
tabulate fresh zero = []
tabulate fresh (suc n) = fresh n ∷ tabulate fresh n

-- The arrays `blocks` and `block_sizes` of the new trace.
unfoldable pub set_arrays : {M : Type 0} → (ℕ → ℕ) → ℕ → Run M (Unit {0})
set_arrays fresh n w =
    done tt (record w { blocks = tabulate fresh n; block_sizes = tabulate fresh n })

module _ {M F : Type 0} (sc : Scanner F) (num_ops : ℕ) (fresh : ℕ → ℕ) where
  -- The loop over the lines, with `max_index` and the entries so far. The entry of a line `f` keeps
  -- the size that the array's memory holds at first, which is `fresh`.
  unfoldable pub read_ops : ℕ → F → ℕ → List TraceOp → Run M (ℕ × List TraceOp)
  read_ops zero f max_index ops = λ w. endless
  read_ops (suc k) f max_index ops = elim (sc.scan_word f) [
    | none ↦ give (max_index, ops)
    | some (ch, f) ↦
        if ch == 97 || ch == 114
        then (do
          (index, f) ← scanned (sc.scan_unsigned f)
          (size, f) ← scanned (sc.scan_unsigned f)
          let type = if ch == 97 then RequestType.alloc else RequestType.realloc
          ops ← push_op num_ops ops (record { type = type; index = index; size = size })
          read_ops k f (if int_gt index max_index then index else max_index) ops)
        else if ch == 102
        then (do
          (index, f) ← scanned (sc.scan_unsigned_d f)
          ops ←
              push_op num_ops ops
                (record { type = RequestType.free; index = index; size = fresh (length ops) })
          read_ops k f max_index ops)
        else (λ w. stopped w.reports)
  ]

module _ {M F : Type 0} (c : Libc M) (sc : Scanner F) (fresh : ℕ → ℕ) where
  -- `file` is what `fopen` returned.
  unfoldable pub read_trace : ℕ → Option F → Run M Loaded
  read_trace fuel file = do
    self ← libc_malloc c 40
    if self == null then unix_error else do
      f ← scanned file
      (sugg_heapsize, f) ← scanned (sc.scan_int f)
      (num_ids, f) ← scanned (sc.scan_int f)
      (num_ops, f) ← scanned (sc.scan_int f)
      (weight, f) ← scanned (sc.scan_int f)
      ops ← new_array c num_ops 12
      blocks ← new_array c num_ids 8
      block_sizes ← new_array c num_ids 8
      set_arrays fresh num_ids
      (max_index, requests) ← read_ops sc num_ops fresh fuel f 0 []
      if max_index == sub32 num_ids 1 && num_ops == length requests
          then give (record {
            self = self;
            ops = ops;
            blocks = blocks;
            block_sizes = block_sizes;
            trace = record { num_ids = num_ids; ops = requests };
          })
          else (λ w. aborted)

module _ {M : Type 0} (c : Libc M) where
  unfoldable pub free_trace : Loaded → Run M (Unit {0})
  free_trace t = do
    libc_free c t.ops
    libc_free c t.blocks
    libc_free c t.block_sizes
    libc_free c t.self
