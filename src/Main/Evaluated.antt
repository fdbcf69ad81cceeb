-- ===== src/Main/Evaluated.antt =====
-- One round of the loop of `main` over the traces: a trace file is read, checked, and measured.
use malloc_jt.Base.{
  larger, ℕ, suc, ◌+◌, ◌-◌, ◌^◌, ◌≤◌, ◌<◌, ◌≡◌, refl, sym, ap, subst, ◌∙◌, arith, true, some, List,
  [], ◌∷◌, ◌++◌, length, take,
}
use malloc_jt.Driver.{Libc, RequestType, TraceOp, Trace, World, Result, done, to_size_t}
use malloc_jt.Driver.ReadTrace.{Loaded, read_trace, free_trace}
use malloc_jt.Driver.ReadTrace.Format.{Token, Reads, IsTrace, written, as_stored, size_in}
use malloc_jt.Driver.ReadTrace.Written.{stored_size, Read, read_trace-written}
use malloc_jt.Driver.Util.{eval_mm_util, eval_mm_speed}
use malloc_jt.Driver.Util.Carries.{size_kept}
use malloc_jt.Driver.Valid.{eval_mm_valid}
use malloc_jt.Driver.Util.Measured.{Measures, eval_mm_util-Measures}
use malloc_jt.Driver.Util.Peak.{
  peak_from-demand, set_size, size_after, sizes_after, sum_to, peak_from, peak, sum_to-zero,
}
use malloc_jt.Driver.Valid.Passes.{IsArena, Stays, nobody, eval_mm_valid-Stays}
use malloc_jt.Driver.Valid.FromFile.{stored_Plays, stored_demand}
use malloc_jt.Driver.Valid.Requests.{Generous, Plays, demand}
use malloc_jt.Timing.{Double, Clocks, Timing}
use malloc_jt.Timing.Clock.{Platform}
use malloc_jt.Timing.Wrappers.{configured, ftimer_gettod, fsecs}
use malloc_jt.Main.{Host, open_trace, time, measure_mm}
use malloc_jt.Main.Arguments.{Text}
use malloc_jt.Main.Results.{Stats}
use malloc_jt.Main.Measures.{Ready, Stays-Ready, speed_gettod-Stays}

-- The sizes of the requests FREE do not count.
stored_size_after :
    (fresh : ℕ → ℕ) (i : ℕ) (type : RequestType) (size : ℕ)
    → size_after type (size_in fresh i type size) ≡ size_after type size
stored_size_after fresh i RequestType.alloc size = refl
stored_size_after fresh i RequestType.realloc size = refl
stored_size_after fresh i RequestType.free size = refl

pub stored_peak :
    (fresh : ℕ → ℕ) (i n : ℕ) (sizes : ℕ → ℕ) (m : ℕ) (ops : List TraceOp)
    → peak_from n sizes m (as_stored fresh i ops) ≡ peak_from n sizes m ops
stored_peak fresh i n sizes m [] = refl
stored_peak fresh i n sizes m (op ∷ ops) =
    let new = sizes_after sizes op.type op.index op.size in
    ap
      (λ (k : ℕ).
        peak_from n (set_size sizes op.index k) (larger m (sum_to n (set_size sizes op.index k)))
          (as_stored fresh (suc i) ops))
      (stored_size_after fresh i op.type op.size)
    ∙ stored_peak fresh (suc i) n new (larger m (sum_to n new)) ops

-- The statistics of a trace that mm.c has run: it is valid, the utilization is the peak of the sizes
-- in use by the size of the heap, and no error was reported.
pub record Evaluated {D M : Type 0} (d : Double D) (trace : Trace) (w : World M)
    (r : Result M (Stats D × Timing D)) : Type 0 where
  pub stats : Stats D
  pub timing : Timing D
  pub world : World M
  pub returns : r ≡ done (stats, timing) world
  pub valid : stats.valid ≡ true
  pub ops : stats.ops ≡ d.of_long (length trace.ops)
  pub heapsize : ℕ
  pub bounded : heapsize ≤ 4112 + demand trace.ops
  pub util : stats.util ≡ d.div (d.of_long (peak trace.num_ids trace.ops)) (d.of_long heapsize)
  pub errors : world.errors ≡ w.errors
  pub reports : world.reports ≡ w.reports
  pub same_arena :
      (world.heap.mem_start_brk ≡ w.heap.mem_start_brk)
      × (world.heap.mem_max_addr ≡ w.heap.mem_max_addr)

-- What `measure_mm` returns, from what the functions that it calls return.
measure_mm-calls :
    {D M F : Type 0} (d : Double D) (c : Libc M) (clocks : Clocks M) (p : Platform) (h : Host M F)
    (fuel i : ℕ) (tracedir filename : Text) (f : F) (t : Timing D) (w v x y z : World M)
    (l : Loaded) (stored : Trace) (used size : ℕ) (secs : D)
    → h.fopen (take 1023 (tracedir ++ filename)) ≡ some f
    → read_trace c h.scanner h.fresh fuel (some f) w ≡ done l v
    → l.trace ≡ stored
    → eval_mm_valid c i stored v ≡ done true x
    → eval_mm_util stored x ≡ done (used, size) y
    → ftimer_gettod d clocks (eval_mm_speed stored) 10 t y ≡ done (secs, t) z
    → measure_mm d c clocks p configured h fuel tracedir i filename t w
      ≡ done
          (
            record {
              ops = d.of_long (length stored.ops);
              valid = true;
              secs = secs;
              util = d.div (d.of_long (to_size_t used)) (d.of_long size);
            },
            t,
          )
          (record z {
            libc = c.free l.self (c.free l.block_sizes (c.free l.blocks (c.free l.ops z.libc)));
          })
unfolding measure_mm open_trace time fsecs free_trace
measure_mm-calls d c clocks p h fuel i tracedir filename f t w v x y z l stored used size secs
      opened read same valid util speed =
    rw (measure_mm, open_trace, opened, read, same, valid, util, time, fsecs, speed, free_trace)
      refl

abbrev pub kept_as : (ℕ → ℕ) → Trace → Trace
kept_as fresh trace = record { num_ids = trace.num_ids; ops = as_stored fresh 0 trace.ops }

-- The statistics, from the four functions that `measure_mm` calls.
pub calls-Evaluated :
    {D M F : Type 0} (d : Double D) (c : Libc M) (clocks : Clocks M) (p : Platform) (h : Host M F)
    (fuel i : ℕ) (tracedir filename : Text) (trace : Trace) (f : F) (t : Timing D) (w : World M)
    (r : Read h.fresh trace w (read_trace c h.scanner h.fresh fuel (some f) w))
    (v : Stays trace.num_ids r.world true (eval_mm_valid c i (kept_as h.fresh trace) r.world))
    (m : Measures trace.num_ids (kept_as h.fresh trace) v.world) (secs : D)
    (g : Stays trace.num_ids m.stays.world
      (secs, t)
      (ftimer_gettod d clocks (eval_mm_speed (kept_as h.fresh trace)) 10 t m.stays.world))
    → h.fopen (take 1023 (tracedir ++ filename)) ≡ some f
    → peak trace.num_ids trace.ops ≤ 2 ^ 31 - 16
    → Evaluated d trace w (measure_mm d c clocks p configured h fuel tracedir i filename t w)
calls-Evaluated d c clocks p h fuel i tracedir filename trace f t w r v m secs g opened low =
    let stored = kept_as h.fresh trace in
    let used = stored_peak h.fresh 0 trace.num_ids (λ j. 0) 0 trace.ops in
    record {
      stats = _;
      timing = t;
      world = _;
      returns =
          measure_mm-calls d c clocks p h fuel i tracedir filename f t w r.world v.world
            m.stays.world g.world r.loaded stored (peak trace.num_ids stored.ops) m.heapsize secs
            opened r.returns r.same v.returns m.stays.returns g.returns;
      valid = refl;
      ops = ap d.of_long (stored_size h.fresh 0 trace.ops);
      heapsize = m.heapsize;
      bounded = omega (arith, m.bounded, stored_demand h.fresh 0 trace.ops);
      util =
          ap (λ k. d.div (d.of_long k) (d.of_long m.heapsize))
            (size_kept (peak trace.num_ids stored.ops) (omega (arith, used, low)) ∙ used);
      errors = g.errors ∙ m.stays.errors ∙ v.errors ∙ r.errors;
      reports = g.reports ∙ m.stays.reports ∙ v.reports ∙ r.reports;
      same_arena = (
        g.same_arena.0 ∙ m.stays.same_arena.0 ∙ v.same_arena.0 ∙ ap (λ s. s.mem_start_brk) r.heap,
        g.same_arena.1 ∙ m.stays.same_arena.1 ∙ v.same_arena.1 ∙ ap (λ s. s.mem_max_addr) r.heap,
      );
    }

pub measure_mm-Evaluated :
    {D M F : Type 0} (d : Double D) (c : Libc M) (clocks : Clocks M) (p : Platform) (h : Host M F)
    (text : F → List Token) (fuel heapsize weight i : ℕ) (tracedir filename : Text) (trace : Trace)
    (f : F) (t : Timing D) (w : World M)
    → Generous c
    → Reads h.scanner text
    → h.fopen (take 1023 (tracedir ++ filename)) ≡ some f
    → text f ≡ written heapsize weight trace
    → IsTrace trace
    → heapsize < 2 ^ 31
    → weight < 2 ^ 31
    → length trace.ops < fuel
    → IsArena w.heap
    → Plays trace.num_ids nobody trace.ops
    → w.heap.mem_start_brk + 4112 + demand trace.ops ≤ w.heap.mem_max_addr
    → Evaluated d trace w (measure_mm d c clocks p configured h fuel tracedir i filename t w)
measure_mm-Evaluated d c clocks p h text fuel heapsize weight i tracedir filename trace f t w g
      reads opened holds is a b enough arena plays room =
    let r =
      read_trace-written c h.scanner text h.fresh fuel heapsize weight trace f w g reads is a b
        holds enough in
    let n = trace.num_ids in
    let stored = kept_as h.fresh trace in
    let stored_plays = stored_Plays h.fresh n 0 nobody trace.ops plays in
    let cost_same = stored_demand h.fresh 0 trace.ops in
    let ready : Ready n stored.ops r.world = record {
      arena = subst IsArena (sym r.heap) arena;
      blocks = r.blocks;
      block_sizes = r.block_sizes;
      room =
          subst (λ s. s.mem_start_brk + 4112 + demand stored.ops ≤ s.mem_max_addr) (sym r.heap)
            (omega (arith, cost_same, room));
    } in
    let v =
      eval_mm_valid-Stays c i n stored r.world g ready.arena ready.blocks ready.block_sizes
        stored_plays ready.room in
    let checked = Stays-Ready ready v in
    let m =
      eval_mm_util-Measures n stored v.world checked.arena checked.blocks checked.block_sizes
        stored_plays checked.room in
    let timed =
      speed_gettod-Stays n stored d clocks 10 t m.stays.world stored_plays
        (Stays-Ready checked m.stays) in
    let low = peak_from-demand n nobody (λ j. 0) 0 trace.ops plays (omega (arith, sum_to-zero n)) in
    calls-Evaluated d c clocks p h fuel i tracedir filename trace f t w r v m timed.0 timed.1 opened
      (omega (arith, low, arena.limit, room))
