-- ===== src/Examples/Timing.antt =====
-- The theorems on the timers and on `main` at concrete inputs, with natural numbers for `double`.
use malloc_jt.Base.{
  ℕ, ◌+◌, ◌-◌, ◌*◌, ◌/◌, ◌%◌, ◌^◌, ◌≡◌, refl, arith, none, some, [], ◌∷◌, ltb, leb, ◌==◌, u64,
}
use malloc_jt.Driver.{World, give, done, stopped}
use malloc_jt.Timing.{start_timing, Double, Clocks, Timing}
use malloc_jt.Timing.Clock.{Platform, difference}
use malloc_jt.Timing.Clock.Elapsed.{joined, joined-difference}
use malloc_jt.Timing.Sampler.{fcyc}
use malloc_jt.Timing.Sampler.Best.{add_values, best, sort_onto, add_values-kbest}
use malloc_jt.Timing.Sampler.Order.{Ordered}
use malloc_jt.Timing.Sampler.Rounds.{Terminates, fcyc-returns}
use malloc_jt.Timing.Wrappers.{configured}
use malloc_jt.Main.{Host, main}
use malloc_jt.Main.Arguments.{with_libc, breakdowns, team}
use malloc_jt.Main.TeamCheck.{Plain, main-Plain}
use malloc_jt.Examples.Ranges.{bump}
use malloc_jt.Examples.Runs.{fresh_world}

abbrev pub naturals : Double ℕ
naturals = record {
  of_long = λ n. n;
  decimal = λ m k. m / 10 ^ k;
  add = λ x y. x + y;
  sub = λ x y. x - y;
  mul = λ x y. x * y;
  div = λ x y. x / y;
  lt = ltb;
  le = leb;
  eq = ◌==◌;
}

naturals-Ordered : Ordered naturals
naturals-Ordered = record {
  irreflexive = λ x. ground arith;
  transitive = λ x y z a b. ground arith;
  asymmetric = λ x y a. ground arith;
}

-- A clock that ticks at each look.
abbrev pub ticks : Clocks ℕ
ticks = record {
  rdtsc = λ m. ((0, m), m + 1);
  rpcc = λ m. (m, m + 1);
  utime = λ m. (m, m + 1);
  sleep = λ n m. m + n;
  gettimeofday = λ m. ((m, 0), m + 1);
  setitimers = λ n m. m;
  getitimers = λ m. ((0, 0), m + 1);
}

abbrev pub timing : Timing ℕ
timing = start_timing naturals

joined-difference_example :
    joined (difference (7, 5) (6, 9)) ≡ (joined (7, 5) + u64 - joined (6, 9)) % u64
joined-difference_example =
    joined-difference 7 5 6 9 (omega arith) (omega arith) (omega arith) (omega arith)

add_values-kbest_example :
    add_values naturals 2 0 (5 ∷ 9 ∷ 3 ∷ []) (0 ∷ 0 ∷ [])
    ≡ some
        (best naturals naturals-Ordered 2 (sort_onto naturals naturals-Ordered (5 ∷ 9 ∷ 3 ∷ []) []))
add_values-kbest_example =
    add_values-kbest naturals naturals-Ordered 2 (5 ∷ 9 ∷ 3 ∷ []) (omega arith)

nothing-Terminates : Terminates {M = ℕ} (give tt)
nothing-Terminates w = (w, refl)

fcyc-returns_example :
    (r : ℕ × Timing ℕ) × (v : World ℕ) × (fcyc naturals bump
        (λ p i. 0)
        ticks
        Platform.i386
        9
        (give tt)
        20
        timing
        fresh_world
      ≡ done r v)
fcyc-returns_example =
    fcyc-returns naturals bump (λ p i. 0) ticks 9 (give tt) 20 timing fresh_world nothing-Terminates
      (λ m n e. omega (arith, e)) refl refl (omega arith) (omega arith) (omega arith) (omega arith)

-- No file can be opened.
abbrev no_files : Host ℕ ℕ
no_files = record {
  fopen = λ path. none;
  scanner = record {
    scan_int = λ f. none;
    scan_unsigned = λ f. none;
    scan_unsigned_d = λ f. none;
    scan_word = λ f. none;
  };
  fresh = λ n. 0;
  cell = λ p i. 0;
}

plain : Plain (with_libc ∷ breakdowns ∷ [])
unfolding Plain
plain = tt

main-Plain_example :
    main naturals bump ticks Platform.other configured no_files 9 team
      (with_libc ∷ breakdowns ∷ [])
      timing
      fresh_world
    ≡ stopped []
main-Plain_example =
    main-Plain naturals bump ticks Platform.other configured no_files 9
      (with_libc ∷ breakdowns ∷ []) timing fresh_world plain
