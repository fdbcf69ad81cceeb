-- ===== src/Timing/Wrappers.antt =====
-- ftimer.c and fsecs.c: the running time of a function, by one of three methods.
use malloc_jt.Base.{ℕ, zero, suc}
use malloc_jt.Machine.{Ptr}
use malloc_jt.Driver.{Libc, Run}
use malloc_jt.Timing.{
  Double, Clocks, Lab, answer, ◌>>=◌, ◌>>◌, run, system, get_timing, set_timing, sub64,
}
use malloc_jt.Timing.Clock.{Platform, mhz}
use malloc_jt.Timing.Sampler.{
  fcyc, set_fcyc_maxsamples, set_fcyc_clear_cache, set_fcyc_compensate, set_fcyc_epsilon,
  set_fcyc_k,
}

-- USE_FCYC, USE_ITIMER and USE_GETTOD of config.h: one of them is set.
pub data Method : Type 0 where
  use_fcyc : Method
  use_itimer : Method
  use_gettod : Method

-- What config.h sets.
abbrev pub configured : Method
configured = use_gettod

-- `for (i = 0; i < n; i++) f(argp);`
unfoldable pub repeat : {D M : Type 0} → ℕ → Run M (Unit {0}) → Lab D M (Unit {0})
repeat zero f = answer tt
repeat (suc n) f = run f >> repeat n f

module _ {D M : Type 0} (d : Double D) (c : Clocks M) where
  -- MAX_ETIME is 86400 seconds; all three timers start with it.
  unfoldable pub init_etime : Lab D M (Unit {0})
  init_etime = do
    system (λ m. (tt, c.setitimers 86400 m))
    t ← get_timing
    set_timing (record t { first_p = (86400, 0) })

  unfoldable pub get_etime : Lab D M D
  get_etime = do
    r_curr ← system c.getitimers
    t ← get_timing
    answer (
        d.add (d.of_long (sub64 t.first_p.0 r_curr.0))
          (d.mul (d.of_long (sub64 t.first_p.1 r_curr.1)) (d.decimal 1 6)))

  unfoldable pub ftimer_itimer : Run M (Unit {0}) → ℕ → Lab D M D
  ftimer_itimer f n = do
    init_etime
    start ← get_etime
    repeat n f
    stop ← get_etime
    answer (d.div (d.sub stop start) (d.of_long n))

  unfoldable pub ftimer_gettod : Run M (Unit {0}) → ℕ → Lab D M D
  ftimer_gettod f n = do
    stv ← system c.gettimeofday
    repeat n f
    etv ← system c.gettimeofday
    let seconds = d.mul (d.decimal 1000 0) (d.of_long (sub64 etv.0 stv.0))
    let diff = d.add seconds (d.mul (d.decimal 1 3) (d.of_long (sub64 etv.1 stv.1)))
    answer (d.mul (d.decimal 1 3) (d.div diff (d.of_long n)))

module _ {D M : Type 0} (d : Double D) (c : Libc M) (clocks : Clocks M) (p : Platform) where
  unfoldable pub init_fsecs : Method → Lab D M (Unit {0})
  init_fsecs Method.use_fcyc = do
    t ← get_timing
    set_timing (record t { mhz_estimate = d.of_long 0 })
    set_fcyc_maxsamples c 20
    set_fcyc_clear_cache c 1
    set_fcyc_compensate c 1
    set_fcyc_epsilon c (d.decimal 1 2)
    set_fcyc_k c 3
    estimate ← mhz d clocks p
    t ← get_timing
    set_timing (record t { mhz_estimate = estimate })
  init_fsecs Method.use_itimer = do
    t ← get_timing
    set_timing (record t { mhz_estimate = d.of_long 0 })
  init_fsecs Method.use_gettod = do
    t ← get_timing
    set_timing (record t { mhz_estimate = d.of_long 0 })

  -- `cell` and `fuel` are those of `fcyc`.
  unfoldable pub fsecs : (Ptr → ℕ → ℕ) → ℕ → Method → Run M (Unit {0}) → Lab D M D
  fsecs cell fuel Method.use_fcyc f = do
    cycles ← fcyc d c cell clocks p fuel f fuel
    t ← get_timing
    answer (d.div cycles (d.mul t.mhz_estimate (d.decimal 1000000 0)))
  fsecs cell fuel Method.use_itimer f = ftimer_itimer d clocks f 10
  fsecs cell fuel Method.use_gettod f = ftimer_gettod d clocks f 10
