-- ===== src/Driver/Util/Measured.antt =====
-- `eval_mm_util` as a whole.
use malloc_jt.Base.{
  ℕ, ◌⊎◌, inl, inr, ◌+◌, ◌^◌, ◌≤◌, ◌<◌, ◌≡◌, refl, sym, ap, ◌∙◌, arith, List, length, true≢false,
}
use malloc_jt.Memlib.{mem_reset_brk, mem_heapsize}
use malloc_jt.Mm.Init.{IsReset, mm_init-Booted, mm_init-full}
use malloc_jt.Machine.{State}
use native.Mathlib.Decide.{dec_lt}
use malloc_jt.Driver.Util.Tallies.{ops-Tallies}
use malloc_jt.Heap.{Block, IsHeap}
use malloc_jt.Driver.{World, done, stopped, Trace, then_run}
use malloc_jt.Driver.Util.{util_ops, eval_mm_util}
use malloc_jt.Driver.Util.Carries.{Carries}
use malloc_jt.Driver.Util.Counts.{usage}
use malloc_jt.Driver.Util.Peak.{peak, sum_to-zero, peak_from-demand}
use malloc_jt.Driver.Valid.Passes.{IsArena, Stays, nobody}
use malloc_jt.Driver.Valid.Requests.{Plays, demand}

-- After `mm_init` no block is in use.
booted-Carries :
    {M : Type 0} (n : ℕ) (w : World M) (s : State) (bs : List Block)
    → IsHeap s bs
    → length w.blocks ≡ n
    → length w.block_sizes ≡ n
    → Carries (record w { heap = s }) n nobody (λ i. 0) (λ i. 0)
booted-Carries n w s bs heap blocks block_sizes = record {
  bs = bs;
  heap = heap;
  blocks = blocks;
  block_sizes = block_sizes;
  held = λ i e. absurd (true≢false (sym e));
  apart = λ i j e. absurd (true≢false (sym e));
  dead = λ i e. refl;
}

-- `eval_mm_util` has measured the heap that it leaves.
pub record Measures {M : Type 0} (n : ℕ) (trace : Trace) (w : World M) : Type 0 where
  pub heapsize : ℕ
  pub stays : Stays n w (peak n trace.ops, heapsize) (eval_mm_util trace w)
  pub measured : heapsize ≡ mem_heapsize stays.world.heap
  pub bounded : heapsize ≤ 4112 + demand trace.ops

-- `eval_mm_util`, whatever room the arena has.
pub eval_mm_util-cases :
    {M : Type 0} (n : ℕ) (trace : Trace) (w : World M)
    → IsArena w.heap
    → w.heap.mem_start_brk ≤ w.heap.mem_max_addr
    → length w.blocks ≡ n
    → length w.block_sizes ≡ n
    → Plays n nobody trace.ops
    → peak n trace.ops < 2 ^ 31
    → Measures n trace w
      ⊎ ((w.heap.mem_max_addr < w.heap.mem_start_brk + 4112 + demand trace.ops)
          × (eval_mm_util trace w ≡ stopped w.reports))
unfolding eval_mm_util mem_reset_brk mem_heapsize
eval_mm_util-cases n trace w a inside blocks block_sizes plays narrow =
    let s = record w.heap { mem_brk = w.heap.mem_start_brk } in
    let reset : IsReset s = record {
      not_low = a.not_low;
      aligned = a.aligned;
      limit = a.limit;
      small = a.small;
      empty = refl;
      inside = inside;
    } in
    elim (dec_lt w.heap.mem_max_addr (w.heap.mem_start_brk + 4112)) [
      | yes full ↦ (let i = mm_init-full s reset full in inr (omega (arith, full), rw i.1 refl))
      | no roomy ↦
          let b = mm_init-Booted s reset (omega (arith, roomy)) in
          let v = record w { heap = b.state } in
          let returned : eval_mm_util trace w
              ≡ then_run (util_ops trace.ops (usage n (λ i. 0) 0) v)
                  (λ u w. done (u.max_total_size, mem_heapsize w.heap) w) =
            rw (sum_to-zero n, b.returns) refl in
          elim (ops-Tallies n v nobody (λ i. 0) (λ i. 0) 0 trace.ops
            (booted-Carries n w b.state b.bs b.heap blocks block_sizes) plays
            (omega (arith, sum_to-zero n)) narrow) [
              | inl r ↦ inl (record {
                heapsize = mem_heapsize r.world.heap;
                stays = record {
                  world = r.world;
                  returns = returned ∙ rw r.returns refl;
                  errors = r.errors;
                  reports = r.reports;
                  blocks = r.blocks;
                  block_sizes = r.block_sizes;
                  same_arena = (r.same_arena.0 ∙ b.same_arena.0, r.same_arena.1 ∙ b.same_arena.1);
                };
                measured = refl;
                bounded = omega (
                  arith, r.in_heap, r.low, r.break_at, r.same_arena.0, b.break_at, b.same_arena.0,
                );
              })
              | inr q ↦ inr (omega (arith, q.0, b.break_at, b.same_arena.1), returned ∙ rw q.1 refl)
            ]
    ]

pub eval_mm_util-Measures :
    {M : Type 0} (n : ℕ) (trace : Trace) (w : World M)
    → IsArena w.heap
    → length w.blocks ≡ n
    → length w.block_sizes ≡ n
    → Plays n nobody trace.ops
    → w.heap.mem_start_brk + 4112 + demand trace.ops ≤ w.heap.mem_max_addr
    → Measures n trace w
eval_mm_util-Measures n trace w a blocks block_sizes plays room =
    let bound =
      peak_from-demand n nobody (λ i. 0) 0 trace.ops plays (omega (arith, sum_to-zero n)) in
    elim (eval_mm_util-cases n trace w a (omega (arith, room)) blocks block_sizes plays
      (omega (arith, bound, a.limit, room))) [
        | inl m ↦ m
        | inr q ↦ absurd (omega (arith, q.0, room))
      ]

Measures-peak :
    {M : Type 0} (n : ℕ) (trace : Trace) (w : World M)
    → Measures n trace w
    → (v : World M) × (eval_mm_util trace w ≡ done (peak n trace.ops, mem_heapsize v.heap) v)
      × (mem_heapsize v.heap ≤ 4112 + demand trace.ops)
      × (v.errors ≡ w.errors)
      × (v.reports ≡ w.reports)
Measures-peak n trace w r =
    let s = r.stays in
    (
      s.world,
      s.returns ∙ ap (λ k. done (peak n trace.ops, k) s.world) r.measured,
      omega (arith, r.bounded, r.measured),
      s.errors,
      s.reports,
    )

-- `eval_mm_util` with whatever room the arena has: on a trace that allocates before it frees or reallocates,
-- with sizes of 1 to 2^31 - 16 bytes and fewer than 2^31 bytes in use at once, it returns the largest
-- total of sizes that the trace has in use at once and the size of the heap at the end, with no error
-- reported; or memory runs out and the program ends, with no error reported. The second needs an
-- arena with less than 4112 bytes and the demand of the trace, which is the growth that each ALLOC and
-- REALLOC may need, at least CHUNKSIZE, with nothing taken off for the blocks that are freed. The
-- heap is of 4112 bytes and the demand at most. The arrays have a place for each id.
pub eval_mm_util-Ends :
    {M : Type 0} (n : ℕ) (trace : Trace) (w : World M)
    → IsArena w.heap
    → w.heap.mem_start_brk ≤ w.heap.mem_max_addr
    → length w.blocks ≡ n
    → length w.block_sizes ≡ n
    → Plays n nobody trace.ops
    → peak n trace.ops < 2 ^ 31
    → ((v : World M) × (eval_mm_util trace w ≡ done (peak n trace.ops, mem_heapsize v.heap) v)
        × (mem_heapsize v.heap ≤ 4112 + demand trace.ops)
        × (v.errors ≡ w.errors)
        × (v.reports ≡ w.reports))
      ⊎ ((w.heap.mem_max_addr < w.heap.mem_start_brk + 4112 + demand trace.ops)
          × (eval_mm_util trace w ≡ stopped w.reports))
eval_mm_util-Ends n trace w a inside blocks block_sizes plays narrow =
    elim (eval_mm_util-cases n trace w a inside blocks block_sizes plays narrow) [
      | inl m ↦ inl (Measures-peak n trace w m)
      | inr q ↦ inr q
    ]
