-- ===== src/Main/Short/Whole.antt =====
-- `main` as a whole for mm.c, whatever the traces ask for: the options, the team, the traces, the verdict.
use malloc_jt.Base.{
  ℕ, ◌⊎◌, ◌+◌, ◌≡◌, refl, ◌∙◌, arith, inl, inr, Bool, true, false, not, ◌&&◌, ◌||◌, Option, none,
  some, List, [], ◌∷◌, length, ◌==◌, if◌then◌else◌,
}
use malloc_jt.Machine.{null}
use malloc_jt.Driver.{Libc, Report, World, Result, done, stopped}
use malloc_jt.Driver.ReadTrace.Format.{Token, Reads}
use malloc_jt.Driver.Valid.Requests.{Generous, Regrants}
use malloc_jt.Timing.{Double, Clocks, Timing}
use malloc_jt.Timing.Clock.{Platform}
use malloc_jt.Timing.Wrappers.{configured, init_fsecs}
use malloc_jt.Main.{
  Host, Summary, Finished, evaluated, main, evaluate, evaluate_libc, evaluate_mm, get_errors,
}
use malloc_jt.Main.Arguments.{
  Text, Opt, Options, start_options, default_tracedir, default_tracefiles, Team, team_filled,
  team_lines, parse_options,
}
use malloc_jt.Main.CommandLine.{
  Known, Picks, has, is_no_team_check, is_with_libc, is_autograde, last_level, last_file, last_dir,
}
use malloc_jt.Main.CommandLine.Reading.{parse_options-Parsed}
use malloc_jt.Main.Results.{Stats, no_totals, total}
use malloc_jt.Main.Short.Loop.{evaluate_mm-Ends}
use malloc_jt.Main.Short.Scores.{AllPlayed, Scored, Exceeded}
use malloc_jt.Main.WholeRun.MmTable.{Aligns}
use malloc_jt.Main.WholeRun.Evaluation.{chosen_files, chosen_dir, printed_dir}
use malloc_jt.Main.WholeRun.Ends.{dir_in, files_in, main-evaluate}
use malloc_jt.Main.Short.Verdict.{numcorrect-Scored, Tells, told, told-Tells}

module _ {D M F : Type 0} (d : Double D) (c : Libc M) (clocks : Clocks M) (p : Platform)
    (h : Host M F) (text : F → List Token) (fuel : ℕ) where
  evaluate_libc-off :
      (o : Options) (names : List Text) (t : Timing D) (w : World M)
      → o.run_libc ≡ false
      → evaluate_libc d c clocks p configured h fuel o names t w ≡ done ([], t) w
  unfolding evaluate_libc
  evaluate_libc-off o names t w libc = rw (evaluate_libc, libc) refl

  -- `evaluate` without -l, after the loop.
  evaluate-told :
      (o : Options) (names : List Text) (dir : Option Text) (k : ℕ) (stats : List (Stats D))
      (t last : Timing D) (w v : World M)
      → (if not (o.tracefiles_at == null) then o.tracefile ∷ [] else default_tracefiles) ≡ names
      → (if not (o.tracefiles_at == null) then none else some o.tracedir) ≡ dir
      → o.run_libc ≡ false
      → evaluate_mm d c clocks p configured h fuel o names
          (record t { mhz_estimate = d.of_long 0 })
          w
        ≡ done (stats, last) v
      → v.errors ≡ k
      → evaluate d c clocks p configured h fuel o t w
        ≡ done (told d o dir (length names) k stats, last) v
  unfolding evaluate get_errors init_fsecs
  evaluate-told o names dir k stats t last w v n e libc returns errors =
      rw
        (
          evaluate,
          n,
          e,
          evaluate_libc-off o names (record t { mhz_estimate = d.of_long 0 }) w libc,
          returns,
          errors,
        )
        refl

  evaluate-stopped :
      (o : Options) (names : List Text) (t : Timing D) (w : World M) (reports : List Report)
      → (if not (o.tracefiles_at == null) then o.tracefile ∷ [] else default_tracefiles) ≡ names
      → o.run_libc ≡ false
      → evaluate_mm d c clocks p configured h fuel o names
          (record t { mhz_estimate = d.of_long 0 })
          w
        ≡ stopped reports
      → evaluate d c clocks p configured h fuel o t w ≡ stopped reports
  unfolding evaluate init_fsecs
  evaluate-stopped o names t w reports n libc stops =
      rw
        (
          evaluate,
          n,
          evaluate_libc-off o names (record t { mhz_estimate = d.of_long 0 }) w libc,
          stops,
        )
        refl

  main-stopped :
      (team : Team) (args : List Opt) (o : Options) (quiet : Bool) (t : Timing D) (w v : World M)
      (reports : List Report)
      → parse_options c args start_options w ≡ done (some o) v
      → o.team_check ≡ not quiet
      → (quiet || team_filled team) ≡ true
      → evaluate d c clocks p configured h fuel o t v ≡ stopped reports
      → main d c clocks p configured h fuel team args t w ≡ stopped reports
  unfolding main
  main-stopped team args o quiet t w v reports read checked filled stops =
      let b : (o.team_check && not (team_filled team)) ≡ false = ground arith in
      rw (main, read, b, stops) refl

  -- What the options choose.
  chosen-names :
      (file : Option Text) (dir : Text) (o : Options)
      → Picks file dir o
      → ((if not (o.tracefiles_at == null) then o.tracefile ∷ [] else default_tracefiles)
          ≡ chosen_files file)
        × ((if not (o.tracefiles_at == null) then none else some o.tracedir) ≡ printed_dir file dir)
        × (o.tracedir ≡ chosen_dir file dir)
  chosen-names none dir o picks =
      let y : (o.tracefiles_at == null) ≡ true = ground (arith, picks.0) in
      (rw y refl, rw (y, picks.2) refl, picks.2)
  chosen-names (some x) dir o picks =
      let y : (o.tracefiles_at == null) ≡ false = ground (arith, picks.0) in
      (rw (y, picks.2) refl, rw y refl, picks.3)

  -- The program ends with `exit(0)` and says how many traces are valid.
  pub record Finishes (team : Team) (args : List Opt)
      (played : AllPlayed h text fuel (dir_in args) (files_in args)) (w : World M)
      (r : Result M (Finished D × Timing D)) : Type 0 where
    pub stats : List (Stats D)
    pub failures : ℕ
    pub summary : Summary D
    pub timing : Timing D
    pub world : World M
    pub returns :
        r
        ≡ done
            (evaluated (if has is_no_team_check args then [] else team_lines team) summary, timing)
            world
    pub scored : Scored d h text fuel (dir_in args) (files_in args) played stats failures
    pub tells :
        Tells d
          (printed_dir (last_file none args) (last_dir default_tracedir args))
          (last_level 0 args)
          (has is_autograde args)
          (length (files_in args))
          failures
          stats
          summary
    pub errors : world.errors ≡ failures
    pub reports : length world.reports ≡ failures + length w.reports

  -- `main` without -l, whatever the demand of the traces. It runs mm.c on the traces that the options
  -- choose, and ends with `exit(0)`: each trace is valid, with the utilization of a run that is served, or it is
  -- not valid, and is counted as one error with one report. If all are valid the program prints the
  -- index, and otherwise the number of errors; -v, -g, -f, -t and -a do what they say. Or memory runs out
  -- where `eval_mm_valid`, `eval_mm_util` or `eval_mm_speed` do not go on, and the program stops with
  -- `exit(1)`. A trace is not valid, or the program stops, only if the arena has less than 4112 bytes and the
  -- demand of a trace. The options are known and -l is not among them, the team is filled or -a is given, each
  -- trace file can be read and holds a trace that plays by the rules and has at most 2^31 - 16
  -- bytes in use at once, the C library never runs out of memory and aligns the arena, and the program has
  -- counted no error before.
  pub main-Finishes :
      (team : Team) (args : List Opt) (t : Timing D) (w : World M)
      (played : AllPlayed h text fuel (dir_in args) (files_in args))
      → Generous c
      → Regrants c
      → Aligns c
      → Reads h.scanner text
      → Known args
      → has is_with_libc args ≡ false
      → (has is_no_team_check args || team_filled team) ≡ true
      → w.errors ≡ 0
      → Finishes team args played w (main d c clocks p configured h fuel team args t w)
        ⊎ (Exceeded d h text fuel (dir_in args) (files_in args) played
            × ((reports : List Report) × (main d c clocks p configured h fuel team args t w
                  ≡ stopped reports)))
  unfolding total
  main-Finishes team args t w played generous regrants aligns reads known no_libc filled clean =
      let q = parse_options-Parsed c regrants args w known in
      let o = q.options in
      let v = record w { libc = q.memory } in
      let names = files_in args in
      let quiet = has is_no_team_check args in
      let dir = printed_dir (last_file none args) (last_dir default_tracedir args) in
      let n = chosen-names (last_file none args) (last_dir default_tracedir args) o q.picks in
      let libc : o.run_libc ≡ false = q.run_libc ∙ no_libc in
      elim (evaluate_mm-Ends d c clocks p h text fuel generous reads (dir_in args) o names played
        (record t { mhz_estimate = d.of_long 0 }) v aligns n.2) [
          | inl l ↦
              let counted : l.world.errors ≡ l.failures = omega (arith, l.errors, clean) in
              let e =
                evaluate-told o names dir l.failures l.stats t l.timing v l.world n.0 n.1 libc
                  l.returns counted in
              inl (record {
                stats = l.stats;
                failures = l.failures;
                summary = told d o dir (length names) l.failures l.stats;
                timing = l.timing;
                world = l.world;
                returns =
                    main-evaluate d c clocks p h text fuel team args o quiet _ t l.timing w v
                      l.world q.returns q.team_check filled e;
                scored = l.scored;
                tells =
                    rw⁻¹ (q.verbose, q.autograder)
                      (told-Tells d o dir (length names) l.failures l.stats (
                        numcorrect-Scored d h text fuel (dir_in args) names played l.stats
                          l.failures (no_totals d) l.scored
                        ∙ omega arith));
                errors = counted;
                reports = l.reports;
              })
          | inr l ↦ inr (
            l.0,
            (
              l.1.0,
              main-stopped team args o quiet t w v l.1.0 q.returns q.team_check filled
                  (evaluate-stopped o names t v l.1.0 n.0 libc l.1.1),
            ),
          )
        ]
