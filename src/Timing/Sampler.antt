-- ===== src/Timing/Sampler.antt =====
-- fcyc.c: the sampler that keeps the `kbest` smallest measurements in order, and `fcyc`. The loop
-- over the cache runs on fuel.
pub mod Order
pub mod Best
pub mod Rounds
pub mod Places
use malloc_jt.Base.{
  ℕ, zero, suc, ◌+◌, ◌-◌, ◌*◌, ◌/◌, ◌%◌, Bool, not, ◌&&◌, Option, none, some, List, [], ◌∷◌, ltb,
  leb, ◌==◌, if◌then◌else◌, u32, u64, add32, int_gt,
}
use malloc_jt.Machine.{Ptr, null}
use malloc_jt.Driver.{
  Libc, Run, give, done, crashed, endless, present, get_elem?, set_elem?, to_size_t,
}
use malloc_jt.Timing.{
  Double, Clocks, Timing, Lab, answer, ◌>>=◌, ◌>>◌, run, system, get_timing, set_timing, exit_1,
}
use malloc_jt.Timing.Clock.{
  Platform, start_counter, get_counter, start_comp_counter, get_comp_counter,
}

module _ {D : Type 0} (d : Double D) where
  abbrev pub zeros : ℕ → List D
  zeros zero = []
  zeros (suc n) = d.decimal 0 0 ∷ zeros n

  -- The insertion sort: the value at `pos` moves down while the one before it is larger.
  unfoldable pub sift : ℕ → List D → Option (List D)
  sift zero values = some values
  sift (suc pos) values = elim (get_elem? values pos) [
    | none ↦ none
    | some before ↦ elim (get_elem? values (suc pos)) [
      | none ↦ none
      | some here ↦
          if d.lt here before
          then elim (set_elem? values pos here) [
            | none ↦ none
            | some vs ↦ elim (set_elem? vs (suc pos) before) [ none ↦ none | some vs ↦ sift pos vs ]
          ]
          else some values
    ]
  ]

  -- Where the new value is stored, if it is. `kbest` and `samplecount` are not negative.
  unfoldable pub store_sample : D → ℕ → ℕ → List D → Option (ℕ × List D)
  store_sample val kbest samplecount values =
      if ltb samplecount kbest
      then elim (set_elem? values samplecount val) [
        | none ↦ none
        | some vs ↦ some (samplecount, vs)
      ]
      else elim (get_elem? values (kbest - 1)) [
        | none ↦ none
        | some last ↦
            if d.lt val last
            then elim (set_elem? values (kbest - 1) val) [
              | none ↦ none
              | some vs ↦ some (kbest - 1, vs)
            ]
            else some (0, values)
      ]

  -- The array after `add_sample`, or nothing for an access outside it.
  unfoldable pub add_value : D → ℕ → ℕ → List D → Option (List D)
  add_value val kbest samplecount values = elim (store_sample val kbest samplecount values) [
    | none ↦ none
    | some (pos, vs) ↦ sift pos vs
  ]

  -- `(1 + epsilon) * values[0] >= values[kbest-1]`, once there are enough values.
  unfoldable pub converged : D → ℕ → ℕ → List D → Option Bool
  converged epsilon kbest samplecount values =
      if leb kbest samplecount
      then elim (get_elem? values 0) [
        | none ↦ none
        | some first ↦ elim (get_elem? values (kbest - 1)) [
          | none ↦ none
          | some last ↦ some (d.le last (d.mul (d.add (d.of_long 1) epsilon) first))
        ]
      ]
      else some (leb kbest samplecount)

module _ {D M : Type 0} (d : Double D) (c : Libc M) where
  -- `calloc` is `malloc` of memory set to 0.
  unfoldable pub new_values : Lab D M (Unit {0})
  new_values = do
    t ← get_timing
    p ← system (c.malloc ((to_size_t t.kbest * 8) % u64))
    set_timing (record t {
      values_at = p;
      values = if p == null then [] else zeros d t.kbest;
      samplecount = 0;
    })

  unfoldable pub init_sampler : Lab D M (Unit {0})
  init_sampler = do
    t ← get_timing
    if t.values_at == null then answer tt else system (λ m. (tt, c.free t.values_at m))
    new_values

  unfoldable pub add_sample : D → Lab D M (Unit {0})
  add_sample val = do
    t ← get_timing
    vs ← run (present (add_value d val t.kbest t.samplecount t.values))
    set_timing (record t { values = vs; samplecount = suc t.samplecount })

  unfoldable pub has_converged : Lab D M Bool
  has_converged = do
    t ← get_timing
    run (present (converged d t.epsilon t.kbest t.samplecount t.values))

-- The loop of `clear` reads the buffer, which holds the `int`s `cell`, at every `incr`-th place, up to
-- `count`.
unfoldable pub clear_loop : ℕ → (cell : ℕ → ℕ) → (incr count i x : ℕ) → Option ℕ
clear_loop zero cell incr count i x = none
clear_loop (suc k) cell incr count i x =
    let rest = clear_loop k cell incr count (i + incr) (add32 x (cell i)) in
    if ltb i count then rest else some x

module _ {D M : Type 0} (d : Double D) (c : Libc M) (cell : Ptr → ℕ → ℕ) where
  unfoldable pub clear : ℕ → Lab D M (Unit {0})
  clear fuel = do
    t ← get_timing
    p ←
        if t.cache_buf == null
        then system (c.malloc (to_size_t t.cache_bytes))
        else answer t.cache_buf
    if p == null then exit_1 else do
      x ← run (elim (clear_loop fuel (cell p) (t.cache_block / 4) (t.cache_bytes / 4) 0 t.sink) [
        | none ↦ (λ w. endless)
        | some x ↦ give x
      ])
      set_timing (record t { cache_buf = p; sink = x })

  -- `fcyc`. `f` is the function measured; `fuel` bounds the loops of `clear` and `callibrate`.
  module _ (clocks : Clocks M) (p : Platform) (fuel : ℕ) (f : Run M (Unit {0})) where
    -- The body of both loops.
    unfoldable pub sample : Lab D M (Unit {0})
    sample = do
      t ← get_timing
      if t.clear_cache == 0 then answer tt else clear fuel
      cyc ←
          if t.compensate == 0
          then (start_counter d clocks p >> run f >> get_counter d clocks p)
          else (start_comp_counter d clocks p fuel >> run f >> get_comp_counter d clocks p)
      add_sample d c cyc

    -- `do ... while (!has_converged() && samplecount < maxsamples)`
    unfoldable pub sample_loop : ℕ → Lab D M (Unit {0})
    sample_loop zero = λ t w. endless
    sample_loop (suc k) = do
      sample
      fine ← has_converged d c
      t ← get_timing
      if not fine && int_gt t.maxsamples t.samplecount then sample_loop k else answer tt

    unfoldable pub fcyc : ℕ → Lab D M D
    fcyc loop_fuel = do
      init_sampler d c
      sample_loop loop_fuel
      t ← get_timing
      result ← run (present (get_elem? t.values 0))
      system (λ m. (tt, c.free t.values_at m))
      set_timing (record t { values_at = null; values = [] })
      answer result

module _ {D M : Type 0} (c : Libc M) where
  unfoldable pub set_fcyc_clear_cache : ℕ → Lab D M (Unit {0})
  set_fcyc_clear_cache clear = do t ← get_timing; set_timing (record t { clear_cache = clear })

  unfoldable pub set_fcyc_cache_size : ℕ → Lab D M (Unit {0})
  set_fcyc_cache_size bytes = do
    t ← get_timing
    if bytes == t.cache_bytes then answer tt else do
      if t.cache_buf == null then answer tt else system (λ m. (tt, c.free t.cache_buf m))
      set_timing (record t { cache_bytes = bytes; cache_buf = null })

  unfoldable pub set_fcyc_cache_block : ℕ → Lab D M (Unit {0})
  set_fcyc_cache_block bytes = do t ← get_timing; set_timing (record t { cache_block = bytes })

  unfoldable pub set_fcyc_compensate : ℕ → Lab D M (Unit {0})
  set_fcyc_compensate compensate_arg = do
    t ← get_timing
    set_timing (record t { compensate = compensate_arg })

  unfoldable pub set_fcyc_k : ℕ → Lab D M (Unit {0})
  set_fcyc_k k = do t ← get_timing; set_timing (record t { kbest = k })

  unfoldable pub set_fcyc_maxsamples : ℕ → Lab D M (Unit {0})
  set_fcyc_maxsamples maxsamples_arg = do
    t ← get_timing
    set_timing (record t { maxsamples = maxsamples_arg })

  unfoldable pub set_fcyc_epsilon : D → Lab D M (Unit {0})
  set_fcyc_epsilon epsilon_arg = do t ← get_timing; set_timing (record t { epsilon = epsilon_arg })
