-- ===== src/Main/WholeRun/Ends.antt =====
-- `main` as a whole: the options are read, the team is checked, and all traces are evaluated.
use malloc_jt.Base.{
  ℕ, ◌≡◌, refl, arith, Bool, true, false, not, ◌&&◌, ◌||◌, none, some, List, [], length,
  if◌then◌else◌,
}
use malloc_jt.Driver.{Libc, World, Result, done}
use malloc_jt.Driver.ReadTrace.Format.{Token, Reads}
use malloc_jt.Driver.Valid.Requests.{Generous, Regrants}
use malloc_jt.Timing.{Double, Clocks, Timing}
use malloc_jt.Timing.Clock.{Platform}
use malloc_jt.Timing.Wrappers.{configured}
use malloc_jt.Main.{Host, Summary, Finished, evaluated, main, evaluate}
use malloc_jt.Main.Arguments.{
  Text, Opt, Options, start_options, default_tracedir, Team, TeamLine, team_filled, team_lines,
  parse_options,
}
use malloc_jt.Main.CommandLine.{
  Known, has, is_autograde, is_no_team_check, is_with_libc, last_level, last_file, last_dir,
}
use malloc_jt.Main.CommandLine.Reading.{parse_options-Parsed}
use malloc_jt.Main.Results.{Stats}
use malloc_jt.Main.WholeRun.{AllGood, AllRated}
use malloc_jt.Main.WholeRun.LibcTable.{LibcStats}
use malloc_jt.Main.WholeRun.MmTable.{Rated, Aligns}
use malloc_jt.Main.WholeRun.Evaluation.{
  chosen_files, chosen_dir, printed_dir, Reported, evaluate-Reports,
}

-- The directory and the traces that the arguments choose.
abbrev pub dir_in : List Opt → Text
dir_in args = chosen_dir (last_file none args) (last_dir default_tracedir args)

abbrev pub files_in : List Opt → List Text
files_in args = chosen_files (last_file none args)

if_not :
    (quiet b : Bool) (ls : List TeamLine)
    → b ≡ not quiet
    → (if b then ls else []) ≡ (if quiet then [] else ls)
if_not true b ls e = rw e refl
if_not false b ls e = rw e refl

module _ {D M F : Type 0} (d : Double D) (c : Libc M) (clocks : Clocks M) (p : Platform)
    (h : Host M F) (text : F → List Token) (fuel : ℕ) (team : Team) where
  -- The program ends with `exit(0)`: it has printed the team, unless -a is given, and the report on
  -- all traces.
  pub record Ends (args : List Opt) (good : AllGood h text fuel (dir_in args) (files_in args))
      (w : World M) (r : Result M (Finished D × Timing D)) : Type 0 where
    pub libc_stats : List (Stats D)
    pub stats : List (Stats D)
    pub summary : Summary D
    pub timing : Timing D
    pub world : World M
    pub returns :
        r
        ≡ done
            (evaluated (if has is_no_team_check args then [] else team_lines team) summary, timing)
            world
    pub libc_rated :
        LibcStats d h text fuel
          (dir_in args)
          (files_in args)
          good
          (has is_with_libc args)
          libc_stats
    pub rated : AllRated h text fuel (dir_in args) (Rated d) (files_in args) good stats
    pub reported :
        Reported d
          (printed_dir (last_file none args) (last_dir default_tracedir args))
          (has is_with_libc args)
          (last_level 0 args)
          (has is_autograde args)
          (length (files_in args))
          libc_stats
          stats
          summary
    pub errors : world.errors ≡ 0
    pub reports : world.reports ≡ w.reports

  -- `main` after the options are read.
  pub main-evaluate :
      (args : List Opt) (o : Options) (quiet : Bool) (s : Summary D) (t last : Timing D)
      (w v u : World M)
      → parse_options c args start_options w ≡ done (some o) v
      → o.team_check ≡ not quiet
      → (quiet || team_filled team) ≡ true
      → evaluate d c clocks p configured h fuel o t v ≡ done (s, last) u
      → main d c clocks p configured h fuel team args t w
        ≡ done (evaluated (if quiet then [] else team_lines team) s, last) u
  unfolding main
  main-evaluate args o quiet s t last w v u read checked filled runs =
      let b : (o.team_check && not (team_filled team)) ≡ false = ground arith in
      let lines : (if o.team_check then team_lines team else [])
          ≡ (if quiet then [] else team_lines team) =
        if_not quiet o.team_check (team_lines team) checked in
      rw (main, read, b, runs, lines) refl

  -- `main` reads the options, prints the team unless -a is given, runs mm.c on the traces of the
  -- last -f, or else on the default traces in the directory of the last -t, and ends with `exit(0)`. Each
  -- trace counts as valid, with its number of operations and a utilization of the peak of its live
  -- bytes over a heap of at most 4112 bytes and its demand; with -l the C library's `malloc` runs first
  -- and each trace is valid for it too. What -v, the verdict and -g print is of these statistics, with
  -- an index for all of them, and no error is counted or reported. The options are known, the team
  -- is filled or -a is given, each trace file can be read and holds a trace that plays by the rules
  -- and whose demand, the growth that each ALLOC and REALLOC may need, at least CHUNKSIZE, with nothing taken
  -- off for the blocks that are freed, is at most the arena less 4112 bytes (that of realloc-bal.rep is
  -- larger, so the default traces as a whole are not covered), the C library never runs out of memory and aligns the arena, and the
  -- program has counted no error before.
  pub main-Ends :
      (args : List Opt) (t : Timing D) (w : World M)
      (good : AllGood h text fuel (dir_in args) (files_in args))
      → Generous c
      → Regrants c
      → Aligns c
      → Reads h.scanner text
      → Known args
      → (has is_no_team_check args || team_filled team) ≡ true
      → w.errors ≡ 0
      → Ends args good w (main d c clocks p configured h fuel team args t w)
  main-Ends args t w good generous regrants aligns reads known filled clean =
      let q = parse_options-Parsed c regrants args w known in
      let v = record w { libc = q.memory } in
      let e =
        evaluate-Reports d c clocks p h text fuel generous regrants reads aligns
          (last_file none args) (last_dir default_tracedir args) q.options (has is_with_libc args) t
          v good q.picks q.run_libc clean in
      record {
        libc_stats = e.libc_stats;
        stats = e.stats;
        summary = e.summary;
        timing = e.timing;
        world = e.world;
        returns =
            main-evaluate args q.options (has is_no_team_check args) e.summary t e.timing w v
              e.world q.returns q.team_check filled e.returns;
        libc_rated = e.libc_rated;
        rated = e.rated;
        reported = rw⁻¹ (q.verbose, q.autograder) e.reported;
        errors = e.errors;
        reports = e.reports;
      }
