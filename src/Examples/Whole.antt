-- ===== src/Examples/Whole.antt =====
-- The options, and `main` with the options -a, -g, -l and -f, on a file with a trace.
use malloc_jt.Base.{ℕ, ◌⊎◌, ◌≡◌, ◌+◌, ◌≤◌, refl, arith, none, List, [], ◌∷◌}
use malloc_jt.Driver.Valid.Requests.{demand}
use malloc_jt.Memlib.{max_heap}
use malloc_jt.Mm.{max, adjust}
use malloc_jt.Mm.Malloc.{growth}
use malloc_jt.Timing.Clock.{Platform}
use malloc_jt.Timing.Wrappers.{configured}
use malloc_jt.Main.{main}
use malloc_jt.Main.Short.Scores.{AllPlayed, Exceeded}
use malloc_jt.Main.Short.Whole.{Finishes, main-Finishes}
use malloc_jt.Driver.{Libc, Report, stopped}
use malloc_jt.Main.Arguments.{
  Opt, autograde, trace_file, trace_dir, no_team_check, with_libc, codes, start_options,
  default_tracedir, parse_options, team,
}
use malloc_jt.Main.CommandLine.{Known, Parsed}
use malloc_jt.Main.CommandLine.Reading.{parse_options-Parsed}
use malloc_jt.Main.WholeRun.{AllGood}
use malloc_jt.Main.WholeRun.Ends.{Ends, dir_in, files_in, main-Ends}
use malloc_jt.Examples.Timing.{naturals, ticks, timing}
use malloc_jt.Examples.Files.{disk, file, tokens-Reads, trace-IsTrace}
use malloc_jt.Examples.Runs.{trace, fresh_world, plays}

-- Memory at one aligned address.
abbrev steady : Libc ℕ
steady = record { malloc = λ n m. (4096, m + n); realloc = λ p n m. (4096, m + n); free = λ p m. m }

abbrev arguments : List Opt
arguments =
    no_team_check
    ∷ autograde
    ∷ with_libc
    ∷ trace_dir (codes "spare")
    ∷ trace_file (codes "tiny.rep")
    ∷ trace_dir (codes "other")
    ∷ []

arguments-Known : Known arguments
unfolding Known
arguments-Known = (omega arith, omega arith, (omega arith, omega arith, tt))

parse_options-Parsed_example :
    Parsed arguments start_options none default_tracedir fresh_world
      (parse_options steady arguments start_options fresh_world)
parse_options-Parsed_example =
    parse_options-Parsed steady (λ p n m e. omega (arith, e)) arguments fresh_world arguments-Known

demand_room : 4112 + demand trace.ops ≤ max_heap
unfolding growth max adjust
demand_room = omega arith

good : AllGood disk (λ ts. ts) 9 (dir_in arguments) (files_in arguments)
good = (
  record {
    file = file;
    trace = trace;
    heapsize = 20000;
    weight = 1;
    opened = refl;
    holds = refl;
    is = trace-IsTrace;
    int_heapsize = omega arith;
    int_weight = omega arith;
    enough = omega arith;
    plays = plays;
    room = demand_room;
  },
  tt,
)

main-Ends_example :
    Ends naturals steady ticks Platform.other disk
      (λ ts. ts)
      9
      team
      arguments
      good
      fresh_world
      (main naturals steady ticks Platform.other configured disk 9 team arguments timing
        fresh_world)
main-Ends_example =
    main-Ends naturals steady ticks Platform.other disk (λ ts. ts) 9 team arguments timing
      fresh_world good (λ k m e. omega (arith, e)) (λ p n m e. omega (arith, e))
      (λ m. (omega arith, refl, omega arith)) tokens-Reads arguments-Known refl refl

played : AllPlayed disk (λ ts. ts) 9 (codes "./") (codes "tiny.rep" ∷ [])
played = (
  record {
    file = file;
    trace = trace;
    heapsize = 20000;
    weight = 1;
    opened = refl;
    holds = refl;
    is = trace-IsTrace;
    int_heapsize = omega arith;
    int_weight = omega arith;
    enough = omega arith;
    plays = plays;
    narrow = omega arith;
  },
  tt,
)

-- The options -a, -g and -f.
abbrev mm_arguments : List Opt
mm_arguments = no_team_check ∷ autograde ∷ trace_file (codes "tiny.rep") ∷ []

mm_arguments-Known : Known mm_arguments
unfolding Known
mm_arguments-Known = omega arith

main-Finishes_example :
    Finishes naturals steady ticks Platform.other disk
      (λ ts. ts)
      9
      team
      mm_arguments
      played
      fresh_world
      (main naturals steady ticks Platform.other configured disk 9 team mm_arguments timing
        fresh_world)
    ⊎ (Exceeded naturals disk (λ ts. ts) 9 (codes "./") (codes "tiny.rep" ∷ []) played
        × ((reports : List Report) × (main naturals steady ticks Platform.other configured disk 9
                team mm_arguments timing fresh_world
              ≡ stopped reports)))
main-Finishes_example =
    main-Finishes naturals steady ticks Platform.other disk (λ ts. ts) 9 team mm_arguments timing
      fresh_world played (λ k m e. omega (arith, e)) (λ p n m e. omega (arith, e))
      (λ m. (omega arith, refl, omega arith)) tokens-Reads mm_arguments-Known refl refl refl
