-- ===== src/Main/Short/Loop.antt =====
-- `evaluate_mm`, the loop of `main` over the traces for mm.c, whatever the traces ask for.
use malloc_jt.Base.{
  ℕ, subst, suc, ◌+◌, ◌*◌, ◌%◌, ◌<◌, ◌≡◌, refl, ◌∙◌, ap, arith, inl, inr, false, List, [], ◌∷◌,
  length, ◌==◌, u64,
}
use malloc_jt.Machine.{null, padd}
use malloc_jt.Memlib.{max_heap}
use malloc_jt.Driver.{Libc, Trace, World, done}
use malloc_jt.Driver.ReadTrace.Format.{Token, Reads}
use malloc_jt.Driver.Valid.Passes.{IsArena}
use malloc_jt.Driver.Valid.Requests.{Generous, demand}
use malloc_jt.Timing.{Double, Clocks, Timing, Lab}
use malloc_jt.Timing.Clock.{Platform}
use malloc_jt.Timing.Wrappers.{configured}
use malloc_jt.Main.{Host, measure_mm, each_trace, evaluate_mm}
use malloc_jt.Main.Arguments.{Text, Options}
use malloc_jt.Main.Measures.{IsArena-same}
use malloc_jt.Main.Results.{Stats}
use malloc_jt.Main.Short.Calls.{RoundEnds, evaluated, not_valid, exits}
use malloc_jt.Main.Short.Round.{measure_mm-Ends}
use malloc_jt.Main.WholeRun.MmTable.{Aligns, fresh_arena, evaluate_mm-each_trace}
use malloc_jt.Main.Short.Scores.{PlayedFile, AllPlayed, Scored, LoopEnds}

module _ {D M F : Type 0} (d : Double D) (c : Libc M) (clocks : Clocks M) (p : Platform)
    (h : Host M F) (text : F → List Token) (fuel : ℕ) (generous : Generous c)
    (reads : Reads h.scanner text) (tracedir : Text) where
  abbrev measured : ℕ → Text → Lab D M (Stats D)
  measured = measure_mm d c clocks p configured h fuel tracedir

  abbrev Whole : World M → Type 0
  Whole w = IsArena w.heap × (w.heap.mem_max_addr ≡ w.heap.mem_start_brk + max_heap)

  abbrev loop : ℕ → List Text → Lab D M (List (Stats D))
  loop = each_trace d c clocks p configured h fuel measured

  Whole-same :
      (w v : World M)
      → Whole w
      → v.heap.mem_start_brk ≡ w.heap.mem_start_brk
      → v.heap.mem_max_addr ≡ w.heap.mem_max_addr
      → Whole v
  Whole-same w v a start end =
      (IsArena-same w.heap v.heap a.0 start end, omega (arith, a.1, start, end))

  round_ends :
      (i : ℕ) (name : Text) (g : PlayedFile h text fuel tracedir name) (t : Timing D) (w : World M)
      → Whole w
      → (stored : Trace) × RoundEnds d g.trace stored i w
          (w.heap.mem_max_addr < w.heap.mem_start_brk + 4112 + demand g.trace.ops)
          (measured i name t w)
  round_ends i name g t w a = (
    _,
    measure_mm-Ends d c clocks p h text fuel g.heapsize g.weight i tracedir name g.trace g.file t w
        generous reads g.opened g.holds g.is g.int_heapsize g.int_weight g.enough a.0
        (omega (arith, a.1)) g.plays g.narrow,
  )

  -- The statistics of one file, in front of those of the others.
  LoopEnds-cons :
      (i k : ℕ) (name : Text) (names : List Text)
      (played : AllPlayed h text fuel tracedir (name ∷ names)) (t u : Timing D) (w v : World M)
      (s : Stats D)
      → measured i name t w ≡ done (s, u) v
      → v.errors ≡ k + w.errors
      → length v.reports ≡ k + length w.reports
      → ((ss : List (Stats D)) (n : ℕ)
          → Scored d h text fuel tracedir names played.1 ss n
          → Scored d h text fuel tracedir (name ∷ names) played (s ∷ ss) (k + n))
      → LoopEnds d h text fuel tracedir names played.1 v (loop (suc i) names u v)
      → LoopEnds d h text fuel tracedir (name ∷ names) played w (loop i (name ∷ names) t w)
  unfolding each_trace
  LoopEnds-cons i k name names played t u w v s e errors reports scores (inl r) = inl (record {
    stats = s ∷ r.stats;
    timing = r.timing;
    world = r.world;
    failures = k + r.failures;
    returns = rw (each_trace, e, r.returns) refl;
    scored = scores r.stats r.failures r.scored;
    errors = omega (arith, r.errors, errors);
    reports = omega (arith, r.reports, reports);
  })
  LoopEnds-cons i k name names played t u w v s e errors reports scores (inr q) =
      inr (inr q.0, (q.1.0, rw (each_trace, e, q.1.1) refl))

  each_trace-Ends :
      (names : List Text) (played : AllPlayed h text fuel tracedir names) (i : ℕ) (t : Timing D)
      (w : World M)
      → Whole w
      → LoopEnds d h text fuel tracedir names played w (loop i names t w)
  unfolding each_trace
  each_trace-Ends [] played i t w a = inl (record {
    stats = [];
    timing = t;
    world = w;
    failures = 0;
    returns = refl;
    scored = refl;
    errors = omega arith;
    reports = omega arith;
  })
  each_trace-Ends (name ∷ names) played i t w a = elim (round_ends i name played.0 t w a).1 [
    | evaluated e ↦
        LoopEnds-cons i 0 name names played t e.timing w e.world e.stats e.returns
          (omega (arith, e.errors)) (ap length e.reports ∙ omega arith)
          (λ ss n scored. inl (
            record {
              valid = e.valid;
              ops = e.ops;
              heapsize = e.heapsize;
              bounded = e.bounded;
              util = e.util;
            },
            subst (Scored d h text fuel tracedir names played.1 ss) (omega arith) scored,
          ))
          (each_trace-Ends names played.1 (suc i) e.timing e.world
            (Whole-same w e.world a e.same_arena.0 e.same_arena.1))
    | not_valid u v why x e errors reports blames same ↦
        LoopEnds-cons i 1 name names played t u w v _ e (omega (arith, errors))
          (ap length reports ∙ omega arith)
          (λ ss n scored. inr (omega (arith, x, a.1), refl, (n, omega arith, scored)))
          (each_trace-Ends names played.1 (suc i) u v (Whole-same w v a same.0 same.1))
    | exits q ↦ inr (inl (omega (arith, q.0, a.1)), (w.reports, rw (each_trace, q.1) refl))
  ]

  -- The loop of `main` for mm.c on files that hold traces that play by the rules, each with at most 2^31 - 16 bytes
  -- in use at once, whatever their demand. It ends with statistics of every trace: it is valid, with
  -- the utilization of a run that is served, or it is not valid, with a time and a utilization of zero, and for
  -- each that is not valid one error is counted and reported; or the program stops with `exit(1)`. A
  -- trace is not valid, or the program stops, only where the arena has less than 4112 bytes and the
  -- demand of the trace. The C library's `malloc` never fails and aligns the arena.
  pub evaluate_mm-Ends :
      (o : Options) (names : List Text) (played : AllPlayed h text fuel tracedir names)
      (t : Timing D) (w : World M)
      → Aligns c
      → o.tracedir ≡ tracedir
      → LoopEnds d h text fuel tracedir names played w
          (evaluate_mm d c clocks p configured h fuel o names t w)
  evaluate_mm-Ends o names played t w aligns same =
      let k = (length names * 32) % u64 in
      let q = c.malloc k w.libc in
      let y : (q.0 == null) ≡ false = ground (arith, generous k w.libc) in
      let r = c.malloc max_heap q.1 in
      let place = aligns q.1 in
      let z : (r.0 == null) ≡ false = ground (arith, place.0) in
      let top : padd r.0 max_heap ≡ r.0 + max_heap = omega (arith, place.2) in
      let v =
        fresh_arena d c clocks p h text fuel generous reads tracedir r.0 (r.0 + max_heap) r.1 w in
      let a : IsArena v.heap = record {
        not_low = place.0;
        aligned = place.1;
        limit = omega arith;
        small = place.2;
      } in
      let e =
        evaluate_mm-each_trace d c clocks p h text fuel generous reads tracedir o names t w
          (r.0 + max_heap) y z top same in
      elim (each_trace-Ends names played 0 t v (a, refl)) [
        | inl l ↦ inl (record {
          stats = l.stats;
          timing = l.timing;
          world = l.world;
          failures = l.failures;
          returns = e ∙ l.returns;
          scored = l.scored;
          errors = l.errors;
          reports = l.reports;
        })
        | inr l ↦ inr (l.0, (l.1.0, e ∙ l.1.1))
      ]
