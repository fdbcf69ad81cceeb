-- ===== src/Main/Standard.antt =====
-- One round of the loop of `main` over the traces, for the C library's `malloc`.
use malloc_jt.Base.{ℕ, ◌^◌, ◌<◌, ◌≡◌, refl, ap, ◌∙◌, true, some, List, ◌++◌, length, take}
use malloc_jt.Driver.{Libc, Trace, World, Result, done}
use malloc_jt.Driver.ReadTrace.{Loaded, read_trace, free_trace}
use malloc_jt.Driver.ReadTrace.Format.{Token, Reads, IsTrace, written}
use malloc_jt.Driver.ReadTrace.Written.{stored_size, read_trace-written}
use malloc_jt.Driver.Standard.{eval_libc_valid, eval_libc_speed}
use malloc_jt.Driver.Standard.Served.{eval_libc_speed-Stays, eval_libc_valid-Stays}
use malloc_jt.Driver.Valid.Passes.{Stays, nobody}
use malloc_jt.Driver.Valid.FromFile.{stored_Plays}
use malloc_jt.Driver.Valid.Requests.{Generous, Regrants, Plays}
use malloc_jt.Timing.{Double, Clocks, Timing}
use malloc_jt.Timing.Clock.{Platform}
use malloc_jt.Timing.Wrappers.{configured, ftimer_gettod, fsecs}
use malloc_jt.Main.{Host, open_trace, time, measure_libc}
use malloc_jt.Main.Arguments.{Text}
use malloc_jt.Main.Results.{Stats}
use malloc_jt.Main.Measures.{gettod-Stays}
use malloc_jt.Main.Evaluated.{kept_as}

-- What a round of the loop returns: statistics, which are as `rate` says, and no error.
pub record Round {D M : Type 0} (rate : Stats D → Type 0) (w : World M)
    (r : Result M (Stats D × Timing D)) : Type 0 where
  pub stats : Stats D
  pub timing : Timing D
  pub world : World M
  pub returns : r ≡ done (stats, timing) world
  pub rated : rate stats
  pub errors : world.errors ≡ w.errors
  pub reports : world.reports ≡ w.reports

-- The statistics of a trace that the C library's `malloc` has run.
pub record LibcRated {D : Type 0} (d : Double D) (trace : Trace) (s : Stats D) : Type 0 where
  pub valid : s.valid ≡ true
  pub ops : s.ops ≡ d.of_long (length trace.ops)
  pub util : s.util ≡ d.of_long 0

measure_libc-calls :
    {D M F : Type 0} (d : Double D) (c : Libc M) (clocks : Clocks M) (p : Platform) (h : Host M F)
    (fuel i : ℕ) (tracedir filename : Text) (f : F) (t : Timing D) (w v x z : World M) (l : Loaded)
    (stored : Trace) (secs : D)
    → h.fopen (take 1023 (tracedir ++ filename)) ≡ some f
    → read_trace c h.scanner h.fresh fuel (some f) w ≡ done l v
    → l.trace ≡ stored
    → eval_libc_valid c stored i v ≡ done true x
    → ftimer_gettod d clocks (eval_libc_speed c stored) 10 t x ≡ done (secs, t) z
    → measure_libc d c clocks p configured h fuel tracedir i filename t w
      ≡ done
          (
            record {
              ops = d.of_long (length stored.ops);
              valid = true;
              secs = secs;
              util = d.of_long 0;
            },
            t,
          )
          (record z {
            libc = c.free l.self (c.free l.block_sizes (c.free l.blocks (c.free l.ops z.libc)));
          })
unfolding measure_libc open_trace time fsecs free_trace
measure_libc-calls d c clocks p h fuel i tracedir filename f t w v x z l stored secs opened read
      same valid speed =
    rw (measure_libc, open_trace, opened, read, same, valid, time, fsecs, speed, free_trace) refl

libc_gettod-Stays :
    {D M : Type 0} (d : Double D) (c : Libc M) (clocks : Clocks M) (n : ℕ) (trace : Trace)
    (t : Timing D) (w : World M)
    → Generous c
    → Regrants c
    → Plays n nobody trace.ops
    → (length w.blocks ≡ n) × (length w.block_sizes ≡ n)
    → (secs : D) × Stays n w (secs, t) (ftimer_gettod d clocks (eval_libc_speed c trace) 10 t w)
libc_gettod-Stays d c clocks n trace t w generous regrants plays sizes =
    gettod-Stays n (eval_libc_speed c trace)
      (λ w. (length w.blocks ≡ n) × (length w.block_sizes ≡ n))
      (λ w q. eval_libc_speed-Stays c generous regrants n trace plays w q.0 q.1)
      (λ w q.
        let s = eval_libc_speed-Stays c generous regrants n trace plays w q.0 q.1 in
        (s.blocks, s.block_sizes))
      (λ m w q. q) d clocks 10 t w sizes sizes

-- A trace that plays by the rules, from a file in the format of the traces, counts as valid.
pub measure_libc-Round :
    {D M F : Type 0} (d : Double D) (c : Libc M) (clocks : Clocks M) (p : Platform) (h : Host M F)
    (text : F → List Token) (fuel heapsize weight i : ℕ) (tracedir filename : Text) (trace : Trace)
    (f : F) (t : Timing D) (w : World M)
    → Generous c
    → Regrants c
    → Reads h.scanner text
    → h.fopen (take 1023 (tracedir ++ filename)) ≡ some f
    → text f ≡ written heapsize weight trace
    → IsTrace trace
    → heapsize < 2 ^ 31
    → weight < 2 ^ 31
    → length trace.ops < fuel
    → Plays trace.num_ids nobody trace.ops
    → Round
        (LibcRated d trace)
        w
        (measure_libc d c clocks p configured h fuel tracedir i filename t w)
measure_libc-Round d c clocks p h text fuel heapsize weight i tracedir filename trace f t w generous
      regrants reads opened holds is a b enough plays =
    let r =
      read_trace-written c h.scanner text h.fresh fuel heapsize weight trace f w generous reads is a
        b holds enough in
    let n = trace.num_ids in
    let stored = kept_as h.fresh trace in
    let stored_plays = stored_Plays h.fresh n 0 nobody trace.ops plays in
    let v =
      eval_libc_valid-Stays c generous regrants n stored stored_plays r.world r.blocks r.block_sizes
        i in
    let timed =
      libc_gettod-Stays d c clocks n stored t v.world generous regrants stored_plays
        (v.blocks, v.block_sizes) in
    let g = timed.1 in
    record {
      stats = _;
      timing = t;
      world = _;
      returns =
          measure_libc-calls d c clocks p h fuel i tracedir filename f t w r.world v.world g.world
            r.loaded stored timed.0 opened r.returns r.same v.returns g.returns;
      rated = record {
        valid = refl;
        ops = ap d.of_long (stored_size h.fresh 0 trace.ops);
        util = refl;
      };
      errors = g.errors ∙ v.errors ∙ r.errors;
      reports = g.reports ∙ v.reports ∙ r.reports;
    }
