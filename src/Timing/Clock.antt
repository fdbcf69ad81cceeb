-- ===== src/Timing/Clock.antt =====
-- clock.c: the cycle counters of the three platforms, and the counter that allows for timer
-- interrupts. The loop of `callibrate` runs on fuel.
pub mod Elapsed
use malloc_jt.Base.{
  ℕ, zero, suc, ◌+◌, ◌-◌, ◌*◌, ◌%◌, ◌^◌, Bool, ◌&&◌, ◌||◌, not, ltb, if◌then◌else◌, u32, u64, sub32,
}
use malloc_jt.Driver.{Run, endless, to_size_t}
use malloc_jt.Timing.{
  Double, Clocks, Timing, Lab, answer, ◌>>=◌, ◌>>◌, system, get_timing, set_timing, exit_1, sub64,
  long_gt,
}

-- The platforms that the preprocessor tells apart.
pub data Platform : Type 0 where
  i386 : Platform
  alpha : Platform
  other : Platform

-- The difference of two counters of two words each, high word first, as the code computes it.
unfoldable pub difference : ℕ × ℕ → ℕ × ℕ → ℕ × ℕ
difference new old =
    let lo = sub32 new.1 old.1 in
    let borrow = if ltb new.1 lo then 1 else 0 in (sub32 (sub32 new.0 old.0) borrow, lo)

module _ {D M : Type 0} (d : Double D) (c : Clocks M) where
  -- `(double) hi * (1 << 30) * 4 + lo`
  unfoldable pub cycles : ℕ × ℕ → D
  cycles r =
      d.add (d.mul (d.mul (d.of_long r.0) (d.of_long (2 ^ 30))) (d.of_long 4)) (d.of_long r.1)

  unfoldable pub start_counter_i386 : Lab D M (Unit {0})
  start_counter_i386 = do
    now ← system c.rdtsc
    t ← get_timing
    set_timing (record t { cyc_hi = now.0; cyc_lo = now.1 })

  unfoldable pub get_counter_i386 : Lab D M D
  get_counter_i386 = do
    now ← system c.rdtsc
    t ← get_timing
    answer (cycles (difference now (t.cyc_hi, t.cyc_lo)))

  unfoldable pub start_counter_alpha : Lab D M (Unit {0})
  start_counter_alpha = do
    now ← system c.rpcc
    t ← get_timing
    set_timing (record t { cyc_hi = 0; cyc_lo = now })

  unfoldable pub get_counter_alpha : Lab D M D
  get_counter_alpha = do
    now ← system c.rpcc
    t ← get_timing
    answer (cycles (difference (0, now) (t.cyc_hi, t.cyc_lo)))

  -- On any other platform both functions end the program.
  unfoldable pub start_counter : Platform → Lab D M (Unit {0})
  start_counter Platform.i386 = start_counter_i386
  start_counter Platform.alpha = start_counter_alpha
  start_counter Platform.other = exit_1

  unfoldable pub get_counter : Platform → Lab D M D
  get_counter Platform.i386 = get_counter_i386
  get_counter Platform.alpha = get_counter_alpha
  get_counter Platform.other = exit_1

module _ {D M : Type 0} (d : Double D) (c : Clocks M) (p : Platform) where
  unfoldable pub ovhd : Lab D M D
  ovhd = do start_counter d c p; result ← get_counter d c p; start_counter d c p; get_counter d c p

  unfoldable pub mhz_full : ℕ → Lab D M D
  mhz_full sleeptime = do
    start_counter d c p
    system (λ m. (tt, c.sleep sleeptime m))
    n ← get_counter d c p
    answer (d.div n (d.mul (d.decimal 1000000 0) (d.of_long (to_size_t sleeptime))))

  unfoldable pub mhz : Lab D M D
  mhz = mhz_full 2

  -- A new `cyc_per_tick`: the smallest ratio above RECORDTHRESH.
  unfoldable pub better_tick : D → D → D
  better_tick old cpt =
      if (d.eq old (d.decimal 0 0) || d.lt cpt old) && d.lt (d.of_long 3000) cpt then cpt else old

  -- The loop of `callibrate`, with `e`, `oldt` and `oldc`.
  unfoldable pub callibrate_loop : ℕ → ℕ → D → ℕ → Lab D M (Unit {0})
  callibrate_loop zero e oldt oldc = λ t w. endless
  callibrate_loop (suc k) e oldt oldc =
      if ltb e 100
      then (do
        newt ← get_counter d c p
        if d.le (d.of_long 1000) (d.sub newt oldt)
            then (do
              newc ← system c.utime
              if long_gt newc oldc
                  then (do
                    let cpt = d.div (d.sub newt oldt) (d.of_long (sub64 newc oldc))
                    t ← get_timing
                    set_timing (record t { cyc_per_tick = better_tick t.cyc_per_tick cpt })
                    callibrate_loop k (suc e) newt newc)
                  else callibrate_loop k e newt oldc)
            else callibrate_loop k e oldt oldc)
      else answer tt

  unfoldable pub callibrate : ℕ → Lab D M (Unit {0})
  callibrate fuel = do
    oldc ← system c.utime
    start_counter d c p
    oldt ← get_counter d c p
    callibrate_loop fuel 0 oldt oldc

  unfoldable pub start_comp_counter : ℕ → Lab D M (Unit {0})
  start_comp_counter fuel = do
    t ← get_timing
    if d.eq t.cyc_per_tick (d.decimal 0 0) then callibrate fuel else answer tt
    now ← system c.utime
    t ← get_timing
    set_timing (record t { start_tick = now })
    start_counter d c p

  unfoldable pub get_comp_counter : Lab D M D
  get_comp_counter = do
    time ← get_counter d c p
    now ← system c.utime
    t ← get_timing
    answer (d.sub time (d.mul (d.of_long (sub64 now t.start_tick)) t.cyc_per_tick))
