-- ===== src/Main/Short/Calls.antt =====
-- The round for one trace file: what it returns when memory runs out in one of the functions it calls.
use malloc_jt.Base.{ℕ, suc, ◌≡◌, refl, true, false, some, List, ◌∷◌, ◌++◌, length, take}
use malloc_jt.Driver.{
  Libc, RequestType, TraceOp, Trace, init_failed, malloc_failed, Report, World, Result, done,
  stopped,
}
use malloc_jt.Driver.ReadTrace.{Loaded, read_trace, free_trace}
use malloc_jt.Driver.Util.{eval_mm_util, eval_mm_speed}
use malloc_jt.Driver.Valid.{eval_mm_valid}
use malloc_jt.Driver.Valid.Short.{request, report}
use malloc_jt.Timing.{Double, Clocks, Timing}
use malloc_jt.Timing.Clock.{Platform}
use malloc_jt.Timing.Wrappers.{configured, ftimer_gettod, fsecs}
use malloc_jt.Main.{Host, open_trace, time, measure_mm}
use malloc_jt.Main.Arguments.{Text}
use malloc_jt.Main.Evaluated.{Evaluated}
use malloc_jt.Main.Results.{Stats}
use malloc_jt.Main.Short.{Exits}

-- What is reported when memory runs out in `eval_mm_valid`: at the start, or at a request ALLOC.
pub data Blames (tracenum : ℕ) (trace : Trace) (r : Report) : Type 0 where
  start_fails : r ≡ report tracenum 0 init_failed → Blames tracenum trace r
  alloc_fails :
      (before after : List TraceOp) (index size : ℕ)
      → trace.ops ≡ before ++ (request RequestType.alloc index size ∷ after)
      → r ≡ report tracenum (length before) malloc_failed
      → Blames tracenum trace r

-- The statistics of a trace that is not valid.
abbrev pub failed_stats : {D : Type 0} → Double D → ℕ → Stats D
failed_stats d n = record {
  ops = d.of_long n;
  valid = false;
  secs = d.of_long 0;
  util = d.of_long 0;
}

-- How the round for a trace ends.
pub data RoundEnds {D M : Type 0} (d : Double D) (trace stored : Trace) (tracenum : ℕ) (w : World M)
    (Short : Type 0) (r : Result M (Stats D × Timing D)) : Type 0 where
  evaluated : Evaluated d trace w r → RoundEnds d trace stored tracenum w Short r
  not_valid :
      (t : Timing D) (v : World M) (why : Report)
      → Short
      → r ≡ done (failed_stats d (length trace.ops), t) v
      → v.errors ≡ suc w.errors
      → v.reports ≡ why ∷ w.reports
      → Blames tracenum stored why
      → (v.heap.mem_start_brk ≡ w.heap.mem_start_brk) × (v.heap.mem_max_addr ≡ w.heap.mem_max_addr)
      → RoundEnds d trace stored tracenum w Short r
  exits : Exits w Short r → RoundEnds d trace stored tracenum w Short r

module _ {D M F : Type 0} (d : Double D) (c : Libc M) (clocks : Clocks M) (p : Platform)
    (h : Host M F) (fuel i : ℕ) (tracedir filename : Text) (f : F) (t : Timing D) (w v : World M)
    (l : Loaded) (stored : Trace) (opened : h.fopen (take 1023 (tracedir ++ filename)) ≡ some f)
    (read : read_trace c h.scanner h.fresh fuel (some f) w ≡ done l v)
    (same : l.trace ≡ stored) where
  pub round-not_valid :
      (x : World M)
      → eval_mm_valid c i stored v ≡ done false x
      → measure_mm d c clocks p configured h fuel tracedir i filename t w
        ≡ done
            (failed_stats d (length stored.ops), t)
            (record x {
              libc = c.free l.self (c.free l.block_sizes (c.free l.blocks (c.free l.ops x.libc)));
            })
  unfolding measure_mm open_trace free_trace
  round-not_valid x valid = rw (measure_mm, open_trace, opened, read, same, valid, free_trace) refl

  pub round-stopped :
      (reports : List Report)
      → eval_mm_valid c i stored v ≡ stopped reports
      → measure_mm d c clocks p configured h fuel tracedir i filename t w ≡ stopped reports
  unfolding measure_mm open_trace
  round-stopped reports valid = rw (measure_mm, open_trace, opened, read, same, valid) refl

  pub round-util_stopped :
      (x : World M) (reports : List Report)
      → eval_mm_valid c i stored v ≡ done true x
      → eval_mm_util stored x ≡ stopped reports
      → measure_mm d c clocks p configured h fuel tracedir i filename t w ≡ stopped reports
  unfolding measure_mm open_trace
  round-util_stopped x reports valid util =
      rw (measure_mm, open_trace, opened, read, same, valid, util) refl

  pub round-speed_stopped :
      (x y : World M) (sides : ℕ × ℕ) (reports : List Report)
      → eval_mm_valid c i stored v ≡ done true x
      → eval_mm_util stored x ≡ done sides y
      → ftimer_gettod d clocks (eval_mm_speed stored) 10 t y ≡ stopped reports
      → measure_mm d c clocks p configured h fuel tracedir i filename t w ≡ stopped reports
  unfolding measure_mm open_trace time fsecs
  round-speed_stopped x y sides reports valid util speed =
      rw (measure_mm, open_trace, opened, read, same, valid, util, time, fsecs, speed) refl
