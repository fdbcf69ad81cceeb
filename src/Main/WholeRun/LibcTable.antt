-- ===== src/Main/WholeRun/LibcTable.antt =====
-- `evaluate_libc`: with -l the loop of `main` over the traces for the C library's `malloc`.
use malloc_jt.Base.{
  ℕ, ◌*◌, ◌%◌, ◌≡◌, refl, ap, arith, Bool, true, false, List, [], length, ◌==◌, if◌then◌else◌, ltb,
  u64,
}
use malloc_jt.Machine.{null}
use malloc_jt.Driver.{Libc, World, Result, done}
use malloc_jt.Driver.ReadTrace.Format.{Token, Reads}
use malloc_jt.Driver.Valid.Requests.{Generous, Regrants}
use malloc_jt.Timing.{Double, Clocks, Timing, Lab}
use malloc_jt.Timing.Clock.{Platform}
use malloc_jt.Timing.Wrappers.{configured}
use malloc_jt.Main.{Host, measure_libc, new_stats, evaluate_libc, get_errors}
use malloc_jt.Main.Arguments.{Text, Options}
use malloc_jt.Main.Standard.{Round, LibcRated, measure_libc-Round}
use malloc_jt.Main.Results.{Stats, Line, printresults}
use malloc_jt.Main.Results.Tables.{full_table, printresults-full_table}
use malloc_jt.Main.WholeRun.{AllRated-AllValid, GoodFile, AllGood, AllRated, each_trace-Loops}

-- The statistics of the C library's `malloc`, which there are with -l alone.
abbrev pub LibcStats :
    {D M F : Type 0} (d : Double D) (h : Host M F) (text : F → List Token) (fuel : ℕ)
    (tracedir : Text) (names : List Text)
    → AllGood h text fuel tracedir names
    → Bool
    → List (Stats D)
    → Type 0
LibcStats d h text fuel tracedir names good true ss =
    AllRated h text fuel tracedir (LibcRated d) names good ss
LibcStats d h text fuel tracedir names good false ss = ss ≡ []

-- What the table for the C library shows.
abbrev pub libc_table : {D : Type 0} → Double D → Bool → ℕ → List (Stats D) → List (Line D)
libc_table d with_libc verbose ss =
    if with_libc then (if ltb 0 verbose then printresults d 0 ss else []) else []

-- The table when all traces are valid.
abbrev pub libc_full_table : {D : Type 0} → Double D → Bool → ℕ → List (Stats D) → List (Line D)
libc_full_table d with_libc verbose ss =
    if with_libc then (if ltb 0 verbose then full_table d ss else []) else []

pub libc_table-libc_full_table :
    {D M F : Type 0} (d : Double D) (h : Host M F) (text : F → List Token) (fuel : ℕ)
    (tracedir : Text) (names : List Text) (good : AllGood h text fuel tracedir names)
    (with_libc : Bool) (verbose : ℕ) (ss : List (Stats D))
    → LibcStats d h text fuel tracedir names good with_libc ss
    → libc_table d with_libc verbose ss ≡ libc_full_table d with_libc verbose ss
libc_table-libc_full_table d h text fuel tracedir names good true verbose ss rated =
    ap (λ ls. if ltb 0 verbose then ls else [])
      (printresults-full_table d ss (
        AllRated-AllValid h text fuel tracedir (LibcRated d) (λ t s r. r.valid) names good ss
          rated))
libc_table-libc_full_table d h text fuel tracedir names good false verbose ss rated = refl

module _ {D M F : Type 0} (d : Double D) (h : Host M F) (text : F → List Token) (fuel : ℕ)
    (tracedir : Text) where
  pub record Table (with_libc : Bool) (verbose : ℕ) (names : List Text)
      (good : AllGood h text fuel tracedir names) (w : World M)
      (r : Result M (List (Line D) × Timing D)) : Type 0 where
    pub stats : List (Stats D)
    pub timing : Timing D
    pub world : World M
    pub returns : r ≡ done (libc_table d with_libc verbose stats, timing) world
    pub rated : LibcStats d h text fuel tracedir names good with_libc stats
    pub errors : world.errors ≡ w.errors
    pub reports : world.reports ≡ w.reports

module _ {D M F : Type 0} (d : Double D) (c : Libc M) (clocks : Clocks M) (p : Platform)
    (h : Host M F) (text : F → List Token) (fuel : ℕ) (generous : Generous c)
    (regrants : Regrants c) (reads : Reads h.scanner text) (tracedir : Text) where
  abbrev measured : ℕ → Text → Lab D M (Stats D)
  measured = measure_libc d c clocks p configured h fuel tracedir

  round :
      (i : ℕ) (name : Text) (g : GoodFile h text fuel tracedir name) (t : Timing D) (w : World M)
      → Unit {0}
      → (e : Round (LibcRated d g.trace) w (measured i name t w)) × Unit {0}
  round i name g t w u = (
    measure_libc-Round d c clocks p h text fuel g.heapsize g.weight i tracedir name g.trace g.file t
        w generous regrants reads g.opened g.holds g.is g.int_heapsize g.int_weight g.enough
        g.plays,
    tt,
  )

  pub evaluate_libc-Table :
      (with_libc : Bool) (o : Options) (names : List Text)
      (good : AllGood h text fuel tracedir names) (t : Timing D) (w : World M)
      → o.run_libc ≡ with_libc
      → o.tracedir ≡ tracedir
      → w.errors ≡ 0
      → Table d h text fuel tracedir with_libc o.verbose names good w
          (evaluate_libc d c clocks p configured h fuel o names t w)
  unfolding evaluate_libc new_stats get_errors
  evaluate_libc-Table true o names good t w on same clean =
      let q = c.malloc ((length names * 32) % u64) w.libc in
      let y : (q.0 == null) ≡ false = ground (arith, generous ((length names * 32) % u64) w.libc) in
      let l =
        each_trace-Loops d c clocks p h text fuel tracedir (LibcRated d) measured (λ w. Unit {0})
          round names good 0 t (record w { libc = q.1 }) tt in
      record {
        stats = l.stats;
        timing = l.timing;
        world = l.world;
        returns =
            rw (evaluate_libc, on, new_stats, y, same, l.returns, get_errors, l.errors, clean) refl;
        rated = l.rated;
        errors = l.errors;
        reports = l.reports;
      }
  evaluate_libc-Table false o names good t w on same clean = record {
    stats = [];
    timing = t;
    world = w;
    returns = rw (evaluate_libc, on) refl;
    rated = refl;
    errors = refl;
    reports = refl;
  }
