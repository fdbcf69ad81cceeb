-- ===== src/Main/WholeRun.antt =====
-- The loop of `main` over all traces, which ends with statistics of each of them.
pub mod Ends
pub mod Evaluation
pub mod LibcTable
pub mod MmTable
use malloc_jt.Base.{
  ℕ, suc, true, ◌+◌, ◌^◌, ◌≤◌, ◌<◌, ◌≡◌, refl, ◌∙◌, some, List, [], ◌∷◌, ◌++◌, length, take,
}
use malloc_jt.Memlib.{max_heap}
use malloc_jt.Driver.{Libc, Trace, World, Result, done}
use malloc_jt.Driver.ReadTrace.Format.{Token, IsTrace, written}
use malloc_jt.Driver.Valid.Passes.{nobody}
use malloc_jt.Driver.Valid.Requests.{Plays, demand}
use malloc_jt.Timing.{Double, Clocks, Timing, Lab}
use malloc_jt.Timing.Clock.{Platform}
use malloc_jt.Timing.Wrappers.{configured}
use malloc_jt.Main.{Host, each_trace}
use malloc_jt.Main.Arguments.{Text}
use malloc_jt.Main.Standard.{Round}
use malloc_jt.Main.Results.{Stats}
use malloc_jt.Main.Results.Tables.{AllValid}

-- A trace file that `read_trace` can read, with a trace that plays by the rules. The arena has 4112 bytes and the
-- demand of the trace, which takes nothing off for the blocks that are freed: realloc-bal.rep, with a
-- demand of more than the arena, is not such a file.
pub record GoodFile {M F : Type 0} (h : Host M F) (text : F → List Token) (fuel : ℕ)
    (tracedir filename : Text) : Type 0 where
  pub file : F
  pub trace : Trace
  pub heapsize : ℕ
  pub weight : ℕ
  pub opened : h.fopen (take 1023 (tracedir ++ filename)) ≡ some file
  pub holds : text file ≡ written heapsize weight trace
  pub is : IsTrace trace
  pub int_heapsize : heapsize < 2 ^ 31
  pub int_weight : weight < 2 ^ 31
  pub enough : length trace.ops < fuel
  pub plays : Plays trace.num_ids nobody trace.ops
  pub room : 4112 + demand trace.ops ≤ max_heap

abbrev pub AllGood : {M F : Type 0} → Host M F → (F → List Token) → ℕ → Text → List Text → Type 0
AllGood h text fuel tracedir [] = Unit {0}
AllGood h text fuel tracedir (name ∷ names) =
    GoodFile h text fuel tracedir name × AllGood h text fuel tracedir names

-- The loop over the files `names`, where `rate` says what the statistics of a trace are like.
module _ {D M F : Type 0} (h : Host M F) (text : F → List Token) (fuel : ℕ) (tracedir : Text)
    (rate : Trace → Stats D → Type 0) where
  abbrev pub AllRated :
      (names : List Text) → AllGood h text fuel tracedir names → List (Stats D) → Type 0
  AllRated [] good [] = Unit {0}
  AllRated [] good (s ∷ ss) = ⊥
  AllRated (name ∷ names) good [] = ⊥
  AllRated (name ∷ names) good (s ∷ ss) = rate good.0.trace s × AllRated names good.1 ss

  -- The loop ends, with statistics for each file and no error.
  pub record Loops (names : List Text) (good : AllGood h text fuel tracedir names) (w : World M)
      (r : Result M (List (Stats D) × Timing D)) : Type 0 where
    pub stats : List (Stats D)
    pub timing : Timing D
    pub world : World M
    pub returns : r ≡ done (stats, timing) world
    pub rated : AllRated names good stats
    pub errors : world.errors ≡ w.errors
    pub reports : world.reports ≡ w.reports

  pub AllRated-AllValid :
      ((t : Trace) (s : Stats D) → rate t s → s.valid ≡ true)
      → (names : List Text) (good : AllGood h text fuel tracedir names) (ss : List (Stats D))
      → AllRated names good ss
      → AllValid ss
  AllRated-AllValid valid [] good [] rated = tt
  AllRated-AllValid valid [] good (s ∷ ss) rated = absurd rated
  AllRated-AllValid valid (name ∷ names) good [] rated = absurd rated
  AllRated-AllValid valid (name ∷ names) good (s ∷ ss) rated =
      (valid good.0.trace s rated.0, AllRated-AllValid valid names good.1 ss rated.1)

-- If each round succeeds where the program's state is as `Needs` says, then the loop does.
module _ {D M F : Type 0} (d : Double D) (c : Libc M) (clocks : Clocks M) (p : Platform)
    (h : Host M F) (text : F → List Token) (fuel : ℕ) (tracedir : Text)
    (rate : Trace → Stats D → Type 0) (measure : ℕ → Text → Lab D M (Stats D))
    (Needs : World M → Type 0)
    (step : (i : ℕ) (name : Text) (g : GoodFile h text fuel tracedir name) (t : Timing D)
        (w : World M)
      → Needs w
      → (e : Round (rate g.trace) w (measure i name t w)) × Needs e.world) where
  Loops-cons :
      (name : Text) (names : List Text) (good : AllGood h text fuel tracedir (name ∷ names)) (i : ℕ)
      (t : Timing D) (w : World M) (e : Round (rate good.0.trace) w (measure i name t w))
      → Loops h text fuel tracedir rate names good.1 e.world
          (each_trace d c clocks p configured h fuel measure (suc i) names e.timing e.world)
      → Loops h text fuel tracedir rate
          (name ∷ names)
          good
          w
          (each_trace d c clocks p configured h fuel measure i (name ∷ names) t w)
  unfolding each_trace
  Loops-cons name names good i t w e rest = record {
    stats = e.stats ∷ rest.stats;
    timing = rest.timing;
    world = rest.world;
    returns = rw (e.returns, rest.returns) refl;
    rated = (e.rated, rest.rated);
    errors = rest.errors ∙ e.errors;
    reports = rest.reports ∙ e.reports;
  }

  pub each_trace-Loops :
      (names : List Text) (good : AllGood h text fuel tracedir names) (i : ℕ) (t : Timing D)
      (w : World M)
      → Needs w
      → Loops h text fuel tracedir rate names good w
          (each_trace d c clocks p configured h fuel measure i names t w)
  unfolding each_trace
  each_trace-Loops [] good i t w needs = record {
    stats = [];
    timing = t;
    world = w;
    returns = refl;
    rated = tt;
    errors = refl;
    reports = refl;
  }
  each_trace-Loops (name ∷ names) good i t w needs =
      let e = step i name good.0 t w needs in
      Loops-cons name names good i t w e.0
        (each_trace-Loops names good.1 (suc i) e.0.timing e.0.world e.1)
