-- ===== src/Driver/Valid/Passes.antt =====
-- `eval_mm_valid` as a whole: mm.c passes.
use malloc_jt.Base.{
  ℕ, suc, ◌+◌, ◌≤◌, ◌<◌, ◌≡◌, refl, sym, ◌∙◌, arith, Bool, true, false, List, [], ◌∷◌, length, u64,
  ◌%◌, ◌^◌, true≢false,
}
use malloc_jt.Machine.{State}
use malloc_jt.Heap.{Block, IsHeap}
use malloc_jt.Memlib.{max_heap, mem_reset_brk}
use malloc_jt.Mm.Init.{IsReset, mm_init-Booted}
use malloc_jt.Driver.{Libc, RequestType, TraceOp, Trace, World, Result, done}
use malloc_jt.Driver.Live.{Tracked}
use malloc_jt.Driver.Ranges.{clear_ranges, free_nodes}
use malloc_jt.Driver.Valid.{valid_op, valid_ops, eval_mm_valid}
use malloc_jt.Driver.Valid.Alloc.{alloc-Goes}
use malloc_jt.Driver.Valid.Realloc.{realloc-Goes}
use malloc_jt.Driver.Valid.Release.{free-Goes}
use malloc_jt.Driver.Valid.Requests.{Allowed, alive_after, Plays, cost, demand, Generous, Goes}

module _ {M : Type 0} (c : Libc M) (generous : Generous c) (n tracenum : ℕ) where
  valid_op-Goes :
      (w : World M) (alive : ℕ → Bool) (i : ℕ) (type : RequestType) (index size : ℕ)
      → Tracked w n alive
      → Allowed n alive type index size
      → w.heap.mem_brk + cost type size ≤ w.heap.mem_max_addr
      → Goes w n
          (alive_after alive type index)
          (cost type size)
          (valid_op c tracenum i (record { type = type; index = index; size = size }) w)
  unfolding valid_op
  valid_op-Goes w alive i RequestType.alloc index size t a room =
      alloc-Goes c w n alive tracenum i index size generous t a.0 a.1 a.2 room
  valid_op-Goes w alive i RequestType.realloc index size t a room =
      realloc-Goes c w n alive tracenum i index size generous t a.0 a.1 a.2 a.3 room
  valid_op-Goes w alive i RequestType.free index size t a room =
      free-Goes c w n alive tracenum index t a

  -- What is left of the trace passes, with the errors as they were.
  record Passes (w : World M) (r : Result M Bool) : Type 0 where
    world : World M
    returns : r ≡ done true world
    errors : world.errors ≡ w.errors
    reports : world.reports ≡ w.reports
    blocks : length world.blocks ≡ n
    block_sizes : length world.block_sizes ≡ n
    same_arena :
        (world.heap.mem_start_brk ≡ w.heap.mem_start_brk)
        × (world.heap.mem_max_addr ≡ w.heap.mem_max_addr)

  valid_ops-Passes :
      (w : World M) (alive : ℕ → Bool) (i : ℕ) (ops : List TraceOp)
      → Tracked w n alive
      → Plays n alive ops
      → w.heap.mem_brk + demand ops ≤ w.heap.mem_max_addr
      → Passes w (valid_ops c tracenum i ops w)
  unfolding valid_ops
  valid_ops-Passes w alive i [] t p room = record {
    world = w;
    returns = refl;
    errors = refl;
    reports = refl;
    blocks = t.tracks.blocks;
    block_sizes = t.tracks.block_sizes;
    same_arena = (refl, refl);
  }
  valid_ops-Passes w alive i (op ∷ ops) t p room =
      let g = valid_op-Goes w alive i op.type op.index op.size t p.0 (omega arith) in
      let rest =
        valid_ops-Passes g.world (alive_after alive op.type op.index) (suc i) ops g.tracked p.1
          (omega (arith, g.break_at, g.same_arena.1)) in
      record {
        world = rest.world;
        returns = rw g.returns rest.returns;
        errors = rest.errors ∙ g.errors;
        reports = rest.reports ∙ g.reports;
        blocks = rest.blocks;
        block_sizes = rest.block_sizes;
        same_arena = (rest.same_arena.0 ∙ g.same_arena.0, rest.same_arena.1 ∙ g.same_arena.1);
      }

-- An arena as `mem_init` makes it, for the heap to be reset.
pub record IsArena (s : State) : Type 0 where
  pub not_low : 8 ≤ s.mem_start_brk
  pub aligned : s.mem_start_brk % 8 ≡ 0
  pub limit : s.mem_max_addr ≤ s.mem_start_brk + max_heap
  pub small : s.mem_max_addr + 2 ^ 32 < u64

-- No id is in use at first.
abbrev pub nobody : ℕ → Bool
nobody i = false

-- A function returns `a` and reports no error; the arrays have `n` places and the arena is the same.
pub record Stays {M A : Type 0} (n : ℕ) (w : World M) (a : A) (r : Result M A) : Type 0 where
  pub world : World M
  pub returns : r ≡ done a world
  pub errors : world.errors ≡ w.errors
  pub reports : world.reports ≡ w.reports
  pub blocks : length world.blocks ≡ n
  pub block_sizes : length world.block_sizes ≡ n
  pub same_arena :
      (world.heap.mem_start_brk ≡ w.heap.mem_start_brk)
      × (world.heap.mem_max_addr ≡ w.heap.mem_max_addr)

-- A second step after a first one.
pub Stays-then :
    {M A B : Type 0} {n : ℕ} {w : World M} {a : A} {b : B} {r : Result M A} {q o : Result M B}
    → (s : Stays n w a r) → Stays n s.world b q
    → o ≡ q
    → Stays n w b o
Stays-then s t e = record {
  world = t.world;
  returns = e ∙ t.returns;
  errors = t.errors ∙ s.errors;
  reports = t.reports ∙ s.reports;
  blocks = t.blocks;
  block_sizes = t.block_sizes;
  same_arena = (t.same_arena.0 ∙ s.same_arena.0, t.same_arena.1 ∙ s.same_arena.1);
}

-- At the start no block is in use.
pub started-Tracked :
    {M : Type 0} (c : Libc M) (w : World M) (n : ℕ) (s : State) (bs : List Block)
    → IsHeap s bs
    → length w.blocks ≡ n
    → length w.block_sizes ≡ n
    → Tracked (record w { heap = s; ranges = []; libc = free_nodes c w.ranges w.libc }) n nobody
started-Tracked c w n s bs heap blocks block_sizes = record {
  bs = bs;
  es = [];
  tracks = record {
    heap = heap;
    ranges = refl;
    blocks = blocks;
    block_sizes = block_sizes;
    held = λ e l. absurd l;
    distinct = tt;
    lives = λ i e. absurd (true≢false (sym e));
    lived = λ e l. absurd l;
  };
}

pub eval_mm_valid-Stays :
    {M : Type 0} (c : Libc M) (tracenum n : ℕ) (trace : Trace) (w : World M)
    → Generous c
    → IsArena w.heap
    → length w.blocks ≡ n
    → length w.block_sizes ≡ n
    → Plays n nobody trace.ops
    → w.heap.mem_start_brk + 4112 + demand trace.ops ≤ w.heap.mem_max_addr
    → Stays n w true (eval_mm_valid c tracenum trace w)
unfolding eval_mm_valid mem_reset_brk clear_ranges
eval_mm_valid-Stays c tracenum n trace w generous a blocks block_sizes plays room =
    let s = record w.heap { mem_brk = w.heap.mem_start_brk } in
    let reset : IsReset s = record {
      not_low = a.not_low;
      aligned = a.aligned;
      limit = a.limit;
      small = a.small;
      empty = refl;
      inside = omega arith;
    } in
    let b = mm_init-Booted s reset (omega arith) in
    let v = record w { heap = b.state; ranges = []; libc = free_nodes c w.ranges w.libc } in
    let t = started-Tracked c w n b.state b.bs b.heap blocks block_sizes in
    let p =
      valid_ops-Passes c generous n tracenum v nobody 0 trace.ops t plays
        (omega (arith, b.break_at, b.same_arena.1)) in
    record {
      world = p.world;
      returns = rw b.returns p.returns;
      errors = p.errors;
      reports = p.reports;
      blocks = p.blocks;
      block_sizes = p.block_sizes;
      same_arena = (p.same_arena.0 ∙ b.same_arena.0, p.same_arena.1 ∙ b.same_arena.1);
    }

-- `eval_mm_valid` accepts mm.c: on a trace that allocates before it frees or reallocates, with sizes of 1 to
-- 2^31 - 16 bytes and low bytes below 128 of the ids that it reallocates, it returns 1 and reports no error,
-- if the arena has room for 4112 bytes and the growth that the requests may need. Every block that
-- mm.c gives out passes the checks for alignment, extent, overlap and old contents. The arrays have
-- a place for each id, and the C library's `malloc` never fails.
pub eval_mm_valid-passes :
    {M : Type 0} (c : Libc M) (tracenum n : ℕ) (trace : Trace) (w : World M)
    → Generous c
    → IsArena w.heap
    → length w.blocks ≡ n
    → length w.block_sizes ≡ n
    → Plays n nobody trace.ops
    → w.heap.mem_start_brk + 4112 + demand trace.ops ≤ w.heap.mem_max_addr
    → (v : World M) × (eval_mm_valid c tracenum trace w ≡ done true v)
      × (v.errors ≡ w.errors)
      × (v.reports ≡ w.reports)
eval_mm_valid-passes c tracenum n trace w generous a blocks block_sizes plays room =
    let r = eval_mm_valid-Stays c tracenum n trace w generous a blocks block_sizes plays room in
    (r.world, r.returns, r.errors, r.reports)
