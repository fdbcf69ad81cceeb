-- ===== src/Main/WholeRun/Evaluation.antt =====
-- The evaluation in `main`, on traces that play by the rules: what it reports.
use malloc_jt.Base.{
  ℕ, ◌≡◌, refl, ap, ◌∙◌, arith, Bool, true, false, not, Option, none, some, List, [], ◌∷◌, length,
  ◌==◌, if◌then◌else◌, ltb,
}
use malloc_jt.Machine.{null}
use malloc_jt.Driver.{Libc, World, Result, done}
use malloc_jt.Driver.ReadTrace.Format.{Token, Reads}
use malloc_jt.Driver.Valid.Requests.{Generous, Regrants}
use malloc_jt.Timing.{Double, Clocks, Timing}
use malloc_jt.Timing.Clock.{Platform}
use malloc_jt.Timing.Wrappers.{configured, init_fsecs}
use malloc_jt.Main.{Host, Summary, evaluate, evaluate_libc, evaluate_mm, get_errors}
use malloc_jt.Main.Arguments.{Text, codes, Options, default_tracefiles}
use malloc_jt.Main.CommandLine.{Picks}
use malloc_jt.Main.Results.{
  Stats, Perf, perf_index, perf_index_line, verdict_of, printresults, total,
}
use malloc_jt.Main.Results.Tables.{AllValid, full_table, printresults-full_table}
use malloc_jt.Main.WholeRun.{AllGood, AllRated, AllRated-AllValid}
use malloc_jt.Main.WholeRun.LibcTable.{
  LibcStats, libc_table, libc_full_table, libc_table-libc_full_table, evaluate_libc-Table,
}
use malloc_jt.Main.WholeRun.MmTable.{Rated, Aligns, numcorrect-total, evaluate_mm-Loops}

-- The traces that run, their directory, and the directory that is printed: -f goes before -t.
abbrev pub chosen_files : Option Text → List Text
chosen_files none = default_tracefiles
chosen_files (some x) = x ∷ []

abbrev pub chosen_dir : Option Text → Text → Text
chosen_dir none dir = dir
chosen_dir (some x) dir = codes "./"

abbrev pub printed_dir : Option Text → Text → Option Text
printed_dir none dir = some dir
printed_dir (some x) dir = none

-- What is printed of the statistics of `n` traces, all of them valid, for mm.c and with -l for the
-- C library. -v prints a line for each trace and their sums. The index is out of the sums
-- of all traces, and -g prints it behind the number of traces.
pub record Reported {D : Type 0} (d : Double D) (dir : Option Text) (with_libc : Bool) (verbose : ℕ)
    (graded : Bool) (n : ℕ) (libc_stats stats : List (Stats D)) (s : Summary D) : Type 0 where
  pub index : Perf D
  pub computed : index ≡ perf_index d n (total d stats)
  pub default_dir : s.default_dir ≡ dir
  pub libc_lines : s.libc_lines ≡ libc_full_table d with_libc verbose libc_stats
  pub mm_lines : s.mm_lines ≡ (if ltb 0 verbose then full_table d stats else [])
  pub verdict :
      s.verdict
      ≡ perf_index_line
          (d.mul index.p1 (d.of_long 100))
          (d.mul index.p2 (d.of_long 100))
          index.perfindex
  pub graded_line : s.graded ≡ (if graded then some (n, index.perfindex) else none)

module _ {D M F : Type 0} (d : Double D) (h : Host M F) (text : F → List Token) (fuel : ℕ)
    (tracedir : Text) (names : List Text) (good : AllGood h text fuel tracedir names) where
  -- The evaluation ends with a report on all traces, and without an error.
  pub record Reports (dir : Option Text) (with_libc : Bool) (verbose : ℕ) (graded : Bool)
      (w : World M) (r : Result M (Summary D × Timing D)) : Type 0 where
    pub libc_stats : List (Stats D)
    pub stats : List (Stats D)
    pub summary : Summary D
    pub timing : Timing D
    pub world : World M
    pub returns : r ≡ done (summary, timing) world
    pub libc_rated : LibcStats d h text fuel tracedir names good with_libc libc_stats
    pub rated : AllRated h text fuel tracedir (Rated d) names good stats
    pub reported : Reported d dir with_libc verbose graded (length names) libc_stats stats summary
    pub errors : world.errors ≡ 0
    pub reports : world.reports ≡ w.reports

-- What `evaluate` comes to after the loops.
abbrev summary_of :
    {D : Type 0} (d : Double D)
    → Options
    → Option Text
    → Bool
    → ℕ
    → (libc_stats stats : List (Stats D)) → Summary D
summary_of d o dir with_libc n libc_stats stats =
    let sums = total d stats in
    let ending = verdict_of d n 0 sums in
    record {
      default_dir = dir;
      libc_lines = libc_table d with_libc o.verbose libc_stats;
      mm_lines = if ltb 0 o.verbose then printresults d 0 stats else [];
      verdict = ending.0;
      graded = if o.autograder then some (sums.numcorrect, ending.1) else none;
    }

Reported-summary_of :
    {D : Type 0} (d : Double D) (o : Options) (dir : Option Text) (with_libc : Bool) (n : ℕ)
    (libc_stats stats : List (Stats D))
    → (total d stats).numcorrect ≡ n
    → AllValid stats
    → libc_table d with_libc o.verbose libc_stats ≡ libc_full_table d with_libc o.verbose libc_stats
    → Reported d dir with_libc o.verbose o.autograder n libc_stats stats
        (summary_of d o dir with_libc n libc_stats stats)
unfolding verdict_of total
Reported-summary_of d o dir with_libc n libc_stats stats all valid table = record {
  index = perf_index d n (total d stats);
  computed = refl;
  default_dir = refl;
  libc_lines = table;
  mm_lines = ap (λ ls. if ltb 0 o.verbose then ls else []) (printresults-full_table d stats valid);
  verdict = refl;
  graded_line = rw all refl;
}

module _ {D M F : Type 0} (d : Double D) (c : Libc M) (clocks : Clocks M) (p : Platform)
    (h : Host M F) (text : F → List Token) (fuel : ℕ) where
  evaluate-summary :
      (o : Options) (names : List Text) (dir : Option Text) (with_libc : Bool)
      (libc_stats stats : List (Stats D)) (t mid last : Timing D) (w u v : World M)
      → (if not (o.tracefiles_at == null) then o.tracefile ∷ [] else default_tracefiles) ≡ names
      → (if not (o.tracefiles_at == null) then none else some o.tracedir) ≡ dir
      → evaluate_libc d c clocks p configured h fuel o names
          (record t { mhz_estimate = d.of_long 0 })
          w
        ≡ done (libc_table d with_libc o.verbose libc_stats, mid) u
      → evaluate_mm d c clocks p configured h fuel o names mid u ≡ done (stats, last) v
      → v.errors ≡ 0
      → evaluate d c clocks p configured h fuel o t w
        ≡ done (summary_of d o dir with_libc (length names) libc_stats stats, last) v
  unfolding evaluate get_errors init_fsecs
  evaluate-summary o names dir with_libc libc_stats stats t mid last w u v n e libc returns clean =
      rw (evaluate, n, e, libc, returns, clean) refl

  module _ (generous : Generous c) (regrants : Regrants c) (reads : Reads h.scanner text)
      (aligns : Aligns c) where
    -- `evaluate` on `names` in `tracedir`.
    evaluate-chosen :
        (tracedir : Text) (names : List Text) (good : AllGood h text fuel tracedir names)
        (dir : Option Text) (o : Options) (with_libc : Bool) (t : Timing D) (w : World M)
        → (if not (o.tracefiles_at == null) then o.tracefile ∷ [] else default_tracefiles) ≡ names
        → (if not (o.tracefiles_at == null) then none else some o.tracedir) ≡ dir
        → o.tracedir ≡ tracedir
        → o.run_libc ≡ with_libc
        → w.errors ≡ 0
        → Reports d h text fuel tracedir names good dir with_libc o.verbose o.autograder w
            (evaluate d c clocks p configured h fuel o t w)
    evaluate-chosen tracedir names good dir o with_libc t w n e same libc clean =
        let t0 = record t { mhz_estimate = d.of_long 0 } in
        let b =
          evaluate_libc-Table d c clocks p h text fuel generous regrants reads tracedir with_libc o
            names good t0 w libc same clean in
        let l =
          evaluate_mm-Loops d c clocks p h text fuel generous reads tracedir o names good b.timing
            b.world aligns same in
        let all : (total d l.stats).numcorrect ≡ length names =
          numcorrect-total d h text fuel tracedir names good l.stats l.rated in
        record {
          libc_stats = b.stats;
          stats = l.stats;
          summary = summary_of d o dir with_libc (length names) b.stats l.stats;
          timing = l.timing;
          world = l.world;
          returns =
              evaluate-summary o names dir with_libc b.stats l.stats t b.timing l.timing w b.world
                l.world n e b.returns l.returns (l.errors ∙ b.errors ∙ clean);
          libc_rated = b.rated;
          rated = l.rated;
          reported =
              Reported-summary_of d o dir with_libc (length names) b.stats l.stats all
                (AllRated-AllValid h text fuel tracedir (Rated d) (λ t s r. r.valid) names good
                  l.stats l.rated)
                (libc_table-libc_full_table d h text fuel tracedir names good with_libc o.verbose
                  b.stats b.rated);
          errors = l.errors ∙ b.errors ∙ clean;
          reports = l.reports ∙ b.reports;
        }

    -- `evaluate` at the options that come out for a choice of traces.
    pub evaluate-Reports :
        (file : Option Text) (dir : Text) (o : Options) (with_libc : Bool) (t : Timing D)
        (w : World M) (good : AllGood h text fuel (chosen_dir file dir) (chosen_files file))
        → Picks file dir o
        → o.run_libc ≡ with_libc
        → w.errors ≡ 0
        → Reports d h text fuel
            (chosen_dir file dir)
            (chosen_files file)
            good
            (printed_dir file dir)
            with_libc
            o.verbose
            o.autograder
            w
            (evaluate d c clocks p configured h fuel o t w)
    evaluate-Reports none dir o with_libc t w good picks libc clean =
        let y : (o.tracefiles_at == null) ≡ true = ground (arith, picks.0) in
        evaluate-chosen dir default_tracefiles good (some dir) o with_libc t w (rw y refl)
          (rw (y, picks.2) refl) picks.2 libc clean
    evaluate-Reports (some x) dir o with_libc t w good picks libc clean =
        let y : (o.tracefiles_at == null) ≡ false = ground (arith, picks.0) in
        evaluate-chosen (codes "./") (x ∷ []) good none o with_libc t w (rw (y, picks.2) refl)
          (rw y refl) picks.3 libc clean
