-- ===== src/Main/Short/Scores.antt =====
-- The statistics of traces, some of which may not be valid, and how a loop over their files ends.
use malloc_jt.Base.{
  ℕ, ◌⊎◌, suc, ◌+◌, ◌-◌, ◌^◌, ◌≤◌, ◌<◌, ◌≡◌, some, List, [], ◌∷◌, ◌++◌, length, take,
}
use malloc_jt.Memlib.{max_heap}
use malloc_jt.Driver.{Trace, Report, World, Result, done, stopped}
use malloc_jt.Driver.ReadTrace.Format.{Token, IsTrace, written}
use malloc_jt.Driver.Util.Peak.{peak}
use malloc_jt.Driver.Valid.Passes.{nobody}
use malloc_jt.Driver.Valid.Requests.{Plays, demand}
use malloc_jt.Timing.{Double, Timing}
use malloc_jt.Main.{Host}
use malloc_jt.Main.Arguments.{Text}
use malloc_jt.Main.Results.{Stats}
use malloc_jt.Main.Short.Calls.{failed_stats}
use malloc_jt.Main.WholeRun.MmTable.{Rated}

-- A trace file that `read_trace` can read, with a trace that plays by the rules and has at most 2^31 - 16
-- bytes in use at once.
pub record PlayedFile {M F : Type 0} (h : Host M F) (text : F → List Token) (fuel : ℕ)
    (tracedir filename : Text) : Type 0 where
  pub file : F
  pub trace : Trace
  pub heapsize : ℕ
  pub weight : ℕ
  pub opened : h.fopen (take 1023 (tracedir ++ filename)) ≡ some file
  pub holds : text file ≡ written heapsize weight trace
  pub is : IsTrace trace
  pub int_heapsize : heapsize < 2 ^ 31
  pub int_weight : weight < 2 ^ 31
  pub enough : length trace.ops < fuel
  pub plays : Plays trace.num_ids nobody trace.ops
  pub narrow : peak trace.num_ids trace.ops ≤ 2 ^ 31 - 16

abbrev pub AllPlayed : {M F : Type 0} → Host M F → (F → List Token) → ℕ → Text → List Text → Type 0
AllPlayed h text fuel tracedir [] = Unit {0}
AllPlayed h text fuel tracedir (name ∷ names) =
    PlayedFile h text fuel tracedir name × AllPlayed h text fuel tracedir names

-- The arena has less than 4112 bytes and the demand of the trace.
abbrev pub Exceeds : Trace → Type 0
Exceeds trace = max_heap < 4112 + demand trace.ops

module _ {D M F : Type 0} (d : Double D) (h : Host M F) (text : F → List Token) (fuel : ℕ)
    (tracedir : Text) where
  -- Statistics of all files: `failures` of the traces are not valid, for want of memory.
  abbrev pub Scored :
      (names : List Text) → AllPlayed h text fuel tracedir names → List (Stats D) → ℕ → Type 0
  Scored [] played [] failures = failures ≡ 0
  Scored [] played (s ∷ ss) failures = ⊥
  Scored (name ∷ names) played [] failures = ⊥
  Scored (name ∷ names) played (s ∷ ss) failures =
      (Rated d played.0.trace s × Scored names played.1 ss failures)
      ⊎ (Exceeds played.0.trace
          × (s ≡ failed_stats d (length played.0.trace.ops))
          × ((k : ℕ) × (failures ≡ suc k) × Scored names played.1 ss k))

  -- One of the traces asks for more than the arena surely has.
  abbrev pub Exceeded : (names : List Text) → AllPlayed h text fuel tracedir names → Type 0
  Exceeded [] played = ⊥
  Exceeded (name ∷ names) played = Exceeds played.0.trace ⊎ Exceeded names played.1

  -- The loop ends, with one error counted and reported for each trace that is not valid.
  pub record Scores (names : List Text) (played : AllPlayed h text fuel tracedir names)
      (w : World M) (r : Result M (List (Stats D) × Timing D)) : Type 0 where
    pub stats : List (Stats D)
    pub timing : Timing D
    pub world : World M
    pub failures : ℕ
    pub returns : r ≡ done (stats, timing) world
    pub scored : Scored names played stats failures
    pub errors : world.errors ≡ failures + w.errors
    pub reports : length world.reports ≡ failures + length w.reports

  -- How the loop ends: with statistics, or memory runs out at one of the traces and the program stops.
  abbrev pub LoopEnds :
      (names : List Text)
      → AllPlayed h text fuel tracedir names
      → World M
      → Result M (List (Stats D) × Timing D)
      → Type 0
  LoopEnds names played w r =
      Scores names played w r
      ⊎ (Exceeded names played × ((reports : List Report) × (r ≡ stopped reports)))
