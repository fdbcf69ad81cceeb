-- ===== src/Timing/Sampler/Rounds.antt =====
-- The loop of `fcyc` ends: each round adds a sample, and there are `maxsamples` rounds at most.
use malloc_jt.Base.{
  ℕ, zero, suc, ◌+◌, ◌*◌, ◌%◌, ◌^◌, u64, ◌≤◌, ◌<◌, ◌≡◌, inl, inr, refl, arith, ◌≢◌, Bool, true,
  false, not, ◌&&◌, [], length, ◌==◌, int_gt, Bool-cases,
}
use malloc_jt.Machine.{null}
use malloc_jt.Driver.{Libc, World, Result, Run, done, to_size_t}
use malloc_jt.Driver.Arrays.{get_elem?-some}
use malloc_jt.Timing.{Double, Clocks, Timing}
use malloc_jt.Timing.Clock.{
  Platform, cycles, difference, start_counter_i386, get_counter_i386, start_counter, get_counter,
}
use malloc_jt.Timing.Sampler.{
  zeros, new_values, init_sampler, add_sample, has_converged, sample, sample_loop, fcyc,
}
use malloc_jt.Timing.Sampler.Places.{add_some, converged-some, length-zeros}

-- Between two rounds: no option of `fcyc` is set, the array has its `kbest` places, and the bounds are
-- `int`s that are not negative.
pub record IsReady {D : Type 0} (t : Timing D) : Type 0 where
  pub no_clear : t.clear_cache ≡ 0
  pub no_compensate : t.compensate ≡ 0
  pub places : 0 < t.kbest
  pub array : length t.values ≡ t.kbest
  pub int : t.maxsamples < 2 ^ 31

-- The measured function returns, whatever the world is.
abbrev pub Terminates : {M : Type 0} → Run M (Unit {0}) → Type 0
Terminates {M} f = (w : World M) → (v : World M) × (f w ≡ done tt v)

module _ {D M : Type 0} (d : Double D) (c : Libc M) (cell : ℕ → ℕ → ℕ) (clocks : Clocks M)
    (fuel : ℕ) (f : Run M (Unit {0})) where
  -- A round that returns, with one sample more.
  record OneMore (t : Timing D) (r : Result M (Unit {0} × Timing D)) : Type 0 where
    timing : Timing D
    world : World M
    returns : r ≡ done (tt, timing) world
    ready : IsReady timing
    count : timing.samplecount ≡ suc t.samplecount
    bound : timing.maxsamples ≡ t.maxsamples

  sample-OneMore :
      (t : Timing D) (w : World M)
      → Terminates f
      → IsReady t
      → OneMore t (sample d c cell clocks Platform.i386 fuel f t w)
  unfolding sample start_counter get_counter start_counter_i386 get_counter_i386 add_sample
  sample-OneMore t w ends r =
      let a : (t.clear_cache == 0) ≡ true = ground (arith, r.no_clear) in
      let b : (t.compensate == 0) ≡ true = ground (arith, r.no_compensate) in
      let start = clocks.rdtsc w.libc in
      let t1 = record t { cyc_hi = start.0.0; cyc_lo = start.0.1 } in
      let run = ends (record w { libc = start.1 }) in
      let now = clocks.rdtsc run.0.libc in
      let x = cycles d clocks (difference now.0 (start.0.0, start.0.1)) in
      let vs = add_some d x t.kbest t.samplecount t.values r.array r.places in
      record {
        timing = record t1 { values = vs.0; samplecount = suc t.samplecount };
        world = record run.0 { libc = now.1 };
        returns = rw (a, b, run.1, vs.1);
        ready = record {
          no_clear = r.no_clear;
          no_compensate = r.no_compensate;
          places = r.places;
          array = vs.2;
          int = r.int;
        };
        count = refl;
        bound = refl;
      }

  -- The loop returns, with an array of `kbest` places.
  record Stops (t : Timing D) (r : Result M (Unit {0} × Timing D)) : Type 0 where
    timing : Timing D
    world : World M
    returns : r ≡ done (tt, timing) world
    ready : IsReady timing

  fewer_samples :
      (b : Bool) (max count : ℕ)
      → max < 2 ^ 31
      → count < 2 ^ 31
      → (not b && int_gt max count) ≡ true
      → count < max
  fewer_samples b max count h k e = ground arith

  sample_loop-Stops :
      (k : ℕ) (t : Timing D) (w : World M)
      → Terminates f
      → IsReady t
      → t.samplecount < t.maxsamples
      → t.maxsamples ≤ t.samplecount + k
      → Stops t (sample_loop d c cell clocks Platform.i386 fuel f k t w)
  unfolding sample_loop has_converged
  sample_loop-Stops zero t w ends r low h = absurd (omega arith)
  sample_loop-Stops (suc k) t w ends r low h =
      let s = sample-OneMore t w ends r in
      let u = s.timing in
      let b =
        converged-some d u.epsilon u.kbest u.samplecount u.values s.ready.array s.ready.places in
      let stop : (not b.0 && int_gt u.maxsamples u.samplecount) ≡ false
          → Stops t (sample_loop d c cell clocks Platform.i386 fuel f (suc k) t w) =
        λ e. record {
          timing = u;
          world = s.world;
          returns = rw (s.returns, b.1, e);
          ready = s.ready;
        } in
      elim (Bool-cases (not b.0 && int_gt u.maxsamples u.samplecount)) [
        | inr e ↦ stop e
        | inl e ↦
            let below : u.samplecount < u.maxsamples =
              fewer_samples b.0 u.maxsamples u.samplecount s.ready.int
                (omega (arith, s.count, r.int)) e in
            let rest =
              sample_loop-Stops k u s.world ends s.ready below (omega (arith, s.count, s.bound)) in
            record {
              timing = rest.timing;
              world = rest.world;
              returns = rw (s.returns, b.1, e) rest.returns;
              ready = rest.ready;
            }
      ]

  -- The sampler before its first round.
  record Starts (t : Timing D) (r : Result M (Unit {0} × Timing D)) : Type 0 where
    timing : Timing D
    world : World M
    returns : r ≡ done (tt, timing) world
    ready : IsReady timing
    count : timing.samplecount ≡ 0
    bound : timing.maxsamples ≡ t.maxsamples

  new_values-Starts :
      (t : Timing D) (w : World M)
      → ((m : M) (n : ℕ) → (c.malloc n m).0 ≢ null)
      → t.clear_cache ≡ 0
      → t.compensate ≡ 0
      → 0 < t.kbest
      → t.maxsamples < 2 ^ 31
      → Starts t (new_values d c t w)
  unfolding new_values
  new_values-Starts t w room no_clear no_compensate places int =
      let p = c.malloc ((to_size_t t.kbest * 8) % u64) w.libc in
      let ne = room w.libc ((to_size_t t.kbest * 8) % u64) in
      let e : (p.0 == null) ≡ false = ground arith in
      record {
        timing = record t { values_at = p.0; values = zeros d t.kbest; samplecount = 0 };
        world = record w { libc = p.1 };
        returns = rw e;
        ready = record {
          no_clear = no_clear;
          no_compensate = no_compensate;
          places = places;
          array = length-zeros d t.kbest;
          int = int;
        };
        count = refl;
        bound = refl;
      }

  init_sampler-Starts :
      (t : Timing D) (w : World M)
      → ((m : M) (n : ℕ) → (c.malloc n m).0 ≢ null)
      → t.clear_cache ≡ 0
      → t.compensate ≡ 0
      → 0 < t.kbest
      → t.maxsamples < 2 ^ 31
      → Starts t (init_sampler d c t w)
  unfolding init_sampler
  init_sampler-Starts t w room no_clear no_compensate places int =
      elim (Bool-cases (t.values_at == null)) [
        | inl e ↦ rw e (new_values-Starts t w room no_clear no_compensate places int)
        | inr e ↦ rw e (
            new_values-Starts t (record w { libc = c.free t.values_at w.libc }) room no_clear
              no_compensate places int)
      ]

  -- With a function that returns on every input, `fcyc` without its options returns on the counter of
  -- the i386: fuel for `maxsamples` rounds is enough. `calloc` has an array of `kbest` places to give,
  -- and `kbest` and `maxsamples` are positive `int`s.
  pub fcyc-returns :
      (k : ℕ) (t : Timing D) (w : World M)
      → Terminates f
      → ((m : M) (n : ℕ) → (c.malloc n m).0 ≢ null)
      → t.clear_cache ≡ 0
      → t.compensate ≡ 0
      → 0 < t.kbest
      → 0 < t.maxsamples
      → t.maxsamples < 2 ^ 31
      → t.maxsamples ≤ k
      → (r : D × Timing D) × (v : World M) × (fcyc d c cell clocks Platform.i386 fuel f k t w
          ≡ done r v)
  unfolding fcyc init_sampler
  fcyc-returns k t w ends room no_clear no_compensate places some_rounds int enough =
      let begin = init_sampler-Starts t w room no_clear no_compensate places int in
      let loop =
        sample_loop-Stops k begin.timing begin.world ends begin.ready
          (omega (arith, begin.count, begin.bound)) (omega (arith, begin.bound, begin.count)) in
      let best =
        get_elem?-some loop.timing.values 0 (omega (arith, loop.ready.array, loop.ready.places)) in
      (
        (best.0, record loop.timing { values_at = null; values = [] }),
        record loop.world { libc = c.free loop.timing.values_at loop.world.libc },
        rw (begin.returns, loop.returns, best.1),
      )
