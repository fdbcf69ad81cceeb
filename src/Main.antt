-- ===== src/Main.antt =====
-- `main` of mdriver.c: the options, the check of the team, the evaluation of all traces, and the
-- performance index. A text is the list of its bytes.
pub mod Arguments
pub mod CommandLine
pub mod Evaluated
pub mod Measures
pub mod Results
pub mod Short
pub mod Standard
pub mod WholeRun
pub mod TeamCheck
use malloc_jt.Base.{
  ℕ, zero, suc, ◌+◌, ◌*◌, ◌%◌, Bool, not, ◌&&◌, Option, none, some, List, [], ◌∷◌, ◌++◌, length,
  take, ltb, ◌==◌, if◌then◌else◌, u64,
}
use malloc_jt.Machine.{Ptr, null}
use malloc_jt.Memlib.{max_heap, mem_init}
use malloc_jt.Driver.{
  Libc, Trace, World, Run, give, done, student, unix_error, libc_malloc, to_size_t,
}
use malloc_jt.Driver.ReadTrace.{Scanner, Loaded, read_trace, free_trace}
use malloc_jt.Driver.Standard.{eval_libc_valid, eval_libc_speed}
use malloc_jt.Driver.Util.{eval_mm_util, eval_mm_speed}
use malloc_jt.Driver.Valid.{eval_mm_valid}
use malloc_jt.Timing.{Double, Clocks, Timing, Lab, answer, ◌>>=◌, ◌>>◌, run, system}
use malloc_jt.Timing.Clock.{Platform}
use malloc_jt.Timing.Wrappers.{Method, init_fsecs, fsecs}
use malloc_jt.Main.Arguments.{
  Text, Opt, Options, start_options, parse_options, team_filled, Team, TeamLine, team_lines,
  default_tracefiles, usage,
}
use malloc_jt.Main.Results.{Verdict, Stats, Line, printresults, Totals, total, verdict_of}

-- What the program prints before it ends with `exit(0)` after the evaluation, but for the messages
-- that -V adds: the table of libc's `malloc` and that of mm.c, the verdict, and with -g the number of
-- valid traces and the index. `default_dir` is printed where the default traces are used.
pub record Summary (D : Type 0) : Type 0 where
  pub default_dir : Option Text
  pub libc_lines : List (Line D)
  pub mm_lines : List (Line D)
  pub verdict : Verdict D
  pub graded : Option (ℕ × D)

-- How the program ends with `exit(0)`: after -h, or after the evaluation.
pub data Finished (D : Type 0) : Type 0 where
  helped : List Text → Finished D
  evaluated : List TeamLine → Summary D → Finished D

-- The files, and what the C library's memory holds: `fopen` by path, `fscanf`, new memory.
pub record Host (M F : Type 0) : Type 0 where
  pub fopen : Text → Option F
  pub scanner : Scanner F
  pub fresh : ℕ → ℕ
  pub cell : Ptr → ℕ → ℕ

-- The fuel bounds the lines of a trace, and the loops of the timers.
module _ {D M F : Type 0} (d : Double D) (c : Libc M) (clocks : Clocks M) (p : Platform)
    (method : Method) (h : Host M F) (fuel : ℕ) where
  -- `read_trace(tracedir, filename)`: `path` has MAXPATH bytes, the last one 0.
  unfoldable pub open_trace : Text → Text → Lab D M Loaded
  open_trace tracedir filename =
      run (read_trace c h.scanner h.fresh fuel (h.fopen (take 1023 (tracedir ++ filename))))

  unfoldable pub time : Run M (Unit {0}) → Lab D M D
  time f = fsecs d c clocks p h.cell fuel method f

  unfoldable pub measure_libc : Text → ℕ → Text → Lab D M (Stats D)
  measure_libc tracedir i filename = do
    loaded ← open_trace tracedir filename
    valid ← run (eval_libc_valid c loaded.trace i)
    secs ← if valid then time (eval_libc_speed c loaded.trace) else answer (d.of_long 0)
    run (free_trace c loaded)
    answer (record {
      ops = d.of_long (length loaded.trace.ops);
      valid = valid;
      secs = secs;
      util = d.of_long 0;
    })

  unfoldable pub measure_mm : Text → ℕ → Text → Lab D M (Stats D)
  measure_mm tracedir i filename = do
    loaded ← open_trace tracedir filename
    valid ← run (eval_mm_valid c i loaded.trace)
    (util, secs) ←
        if valid
        then (do
          (used, size) ← run (eval_mm_util loaded.trace)
          secs ← time (eval_mm_speed loaded.trace)
          answer (d.div (d.of_long (to_size_t used)) (d.of_long size), secs))
        else answer (d.of_long 0, d.of_long 0)
    run (free_trace c loaded)
    answer (record {
      ops = d.of_long (length loaded.trace.ops);
      valid = valid;
      secs = secs;
      util = util;
    })

  -- `for (i = 0; i < num_tracefiles; i++)`
  unfoldable pub each_trace :
      (ℕ → Text → Lab D M (Stats D)) → ℕ → List Text → Lab D M (List (Stats D))
  each_trace measure i [] = answer []
  each_trace measure i (name ∷ names) = do
    s ← measure i name
    rest ← each_trace measure (suc i) names
    answer (s ∷ rest)

  -- `calloc` of an array of `stats_t`, of 32 bytes each.
  unfoldable pub new_stats : ℕ → Lab D M (Unit {0})
  new_stats n = do
    q ← run (libc_malloc c ((n * 32) % u64))
    if q == null then run unix_error else answer tt

  unfoldable pub get_errors : Lab D M ℕ
  get_errors = run (λ w. done w.errors w)

  unfoldable pub evaluate_libc : Options → List Text → Lab D M (List (Line D))
  evaluate_libc o names =
      if o.run_libc
      then (do
        new_stats (length names)
        stats ← each_trace (measure_libc o.tracedir) 0 names
        errors ← get_errors
        answer (if ltb 0 o.verbose then printresults d errors stats else []))
      else answer []

  unfoldable pub evaluate_mm : Options → List Text → Lab D M (List (Stats D))
  evaluate_mm o names = do
    new_stats (length names)
    arena ← run (libc_malloc c max_heap)
    run (student (mem_init arena))
    each_trace (measure_mm o.tracedir) 0 names

  unfoldable pub evaluate : Options → Lab D M (Summary D)
  evaluate o = do
    let given = not (o.tracefiles_at == null)
    let names = if given then o.tracefile ∷ [] else default_tracefiles
    init_fsecs d c clocks p method
    libc_lines ← evaluate_libc o names
    stats ← evaluate_mm o names
    errors ← get_errors
    let sums = total d stats
    let ending = verdict_of d (length names) errors sums
    answer (record {
      default_dir = if given then none else some o.tracedir;
      libc_lines = libc_lines;
      mm_lines = if ltb 0 o.verbose then printresults d errors stats else [];
      verdict = ending.0;
      graded = if o.autograder then some (sums.numcorrect, ending.1) else none;
    })

  unfoldable pub main : Team → List Opt → Lab D M (Finished D)
  main team args = do
    parsed ← run (parse_options c args start_options)
    elim parsed [
      | none ↦ answer (helped usage)
      | some o ↦ if o.team_check && not (team_filled team) then run unix_error else do
        summary ← evaluate o
        answer (evaluated (if o.team_check then team_lines team else []) summary)
    ]
