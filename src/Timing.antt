-- ===== src/Timing.antt =====
-- What the measurements of fcyc.c, clock.c, ftimer.c and fsecs.c work on: the type `double`, the
-- system's clocks, and the file-scope variables of these files. A `long` is its bit pattern below
-- 2^64. What the functions print is left out.
pub mod Clock
pub mod Sampler
pub mod Wrappers
use malloc_jt.Base.{ℕ, ◌+◌, ◌-◌, ◌%◌, ◌^◌, Bool, List, [], ltb, u64}
use malloc_jt.Machine.{Ptr, null}
use malloc_jt.Driver.{World, Result, Run, done, stopped, then_run}

-- `double` and its operations. `decimal m k` is the literal m * 10^-k.
pub record Double (D : Type 0) : Type 0 where
  pub of_long : ℕ → D
  pub decimal : ℕ → ℕ → D
  pub add : D → D → D
  pub sub : D → D → D
  pub mul : D → D → D
  pub div : D → D → D
  pub lt : D → D → Bool
  pub le : D → D → Bool
  pub eq : D → D → Bool

-- The clocks: `rdtsc`, with the high word first; the counter of the Alpha; `tms_utime` of `times`;
-- `sleep`; seconds and microseconds of `gettimeofday`; and the interval timers: setting one to a
-- number of seconds, and the seconds and microseconds that the real one has left.
pub record Clocks (M : Type 0) : Type 0 where
  pub rdtsc : M → (ℕ × ℕ) × M
  pub rpcc : M → ℕ × M
  pub utime : M → ℕ × M
  pub sleep : ℕ → M → M
  pub gettimeofday : M → (ℕ × ℕ) × M
  pub setitimers : ℕ → M → M
  pub getitimers : M → (ℕ × ℕ) × M

-- The variables of clock.c, of fcyc.c, of ftimer.c and of fsecs.c. `values` are the
-- contents of the array at `values_at`, if that is not NULL.
pub record Timing (D : Type 0) : Type 0 where
  pub cyc_hi : ℕ
  pub cyc_lo : ℕ
  pub cyc_per_tick : D
  pub start_tick : ℕ
  pub kbest : ℕ
  pub maxsamples : ℕ
  pub epsilon : D
  pub compensate : ℕ
  pub clear_cache : ℕ
  pub cache_bytes : ℕ
  pub cache_block : ℕ
  pub cache_buf : Ptr
  pub sink : ℕ
  pub values_at : Ptr
  pub values : List D
  pub samplecount : ℕ
  pub first_p : ℕ × ℕ
  pub mhz_estimate : D

-- Their values at the start of the program.
abbrev pub start_timing : {D : Type 0} → Double D → Timing D
start_timing d = record {
  cyc_hi = 0;
  cyc_lo = 0;
  cyc_per_tick = d.decimal 0 0;
  start_tick = 0;
  kbest = 3;
  maxsamples = 20;
  epsilon = d.decimal 1 2;
  compensate = 0;
  clear_cache = 0;
  cache_bytes = 2 ^ 19;
  cache_block = 32;
  cache_buf = null;
  sink = 0;
  values_at = null;
  values = [];
  samplecount = 0;
  first_p = (0, 0);
  mhz_estimate = d.decimal 0 0;
}

abbrev pub Lab : Type 0 → Type 0 → Type 0 → Type 0
Lab D M A = Timing D → Run M (A × Timing D)

abbrev pub answer : {D M A : Type 0} → A → Lab D M A
answer a = λ t w. done (a, t) w

module _ {D M A B : Type 0} where
  infixl 5 ◌>>=◌ ◌>>◌
  abbrev pub ◌>>=◌ : Lab D M A → (A → Lab D M B) → Lab D M B
  m >>= k = λ t w. then_run (m t w) (λ r. k r.0 r.1)

  abbrev pub ◌>>◌ : Lab D M A → Lab D M B → Lab D M B
  m >> k = m >>= λ _. k

module _ {D M : Type 0} where
  -- A function of the driver, or a call of the system.
  abbrev pub run : {A : Type 0} → Run M A → Lab D M A
  run m = λ t w. then_run (m w) (λ a. done (a, t))

  abbrev pub system : {A : Type 0} → (M → A × M) → Lab D M A
  system f = λ t w. (let r = f w.libc in done (r.0, t) (record w { libc = r.1 }))

  abbrev pub get_timing : Lab D M (Timing D)
  get_timing = λ t w. done (t, t) w

  abbrev pub set_timing : Timing D → Lab D M (Unit {0})
  set_timing u = λ t w. done (tt, u) w

  abbrev pub exit_1 : {A : Type 0} → Lab D M A
  exit_1 = λ t w. stopped w.reports

-- `long` arithmetic and order.
abbrev pub sub64 : ℕ → ℕ → ℕ
sub64 a b = (a + u64 - b) % u64

abbrev pub long_gt : ℕ → ℕ → Bool
long_gt x y = ltb ((y + 2 ^ 63) % u64) ((x + 2 ^ 63) % u64)
