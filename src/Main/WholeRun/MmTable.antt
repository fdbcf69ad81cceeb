-- ===== src/Main/WholeRun/MmTable.antt =====
-- `evaluate_mm`: the loop of `main` over the traces for mm.c.
use malloc_jt.Base.{
  ℕ, ◌+◌, ◌*◌, ◌%◌, ◌^◌, ◌≤◌, ◌<◌, ◌≡◌, refl, ◌∙◌, arith, true, false, List, [], ◌∷◌, length, ◌==◌,
  u64,
}
use malloc_jt.Machine.{null, padd}
use malloc_jt.Memlib.{max_heap, mem_init}
use malloc_jt.Driver.{Libc, Trace, World}
use malloc_jt.Driver.ReadTrace.Format.{Token, Reads}
use malloc_jt.Driver.Util.Peak.{peak}
use malloc_jt.Driver.Valid.Passes.{IsArena}
use malloc_jt.Driver.Valid.Requests.{Generous, demand}
use malloc_jt.Timing.{Double, Clocks, Timing, Lab}
use malloc_jt.Timing.Clock.{Platform}
use malloc_jt.Timing.Wrappers.{configured}
use malloc_jt.Main.{Host, measure_mm, each_trace, new_stats, evaluate_mm}
use malloc_jt.Main.Arguments.{Text, Options}
use malloc_jt.Main.Measures.{IsArena-same}
use malloc_jt.Main.Evaluated.{measure_mm-Evaluated}
use malloc_jt.Main.Standard.{Round}
use malloc_jt.Main.Results.{Stats, Totals, no_totals, total, add_totals}
use malloc_jt.Main.WholeRun.{AllRated, GoodFile, AllGood, Loops, each_trace-Loops}

-- The statistics of a trace that mm.c runs without an error.
pub record Rated {D : Type 0} (d : Double D) (trace : Trace) (s : Stats D) : Type 0 where
  pub valid : s.valid ≡ true
  pub ops : s.ops ≡ d.of_long (length trace.ops)
  pub heapsize : ℕ
  pub bounded : heapsize ≤ 4112 + demand trace.ops
  pub util : s.util ≡ d.div (d.of_long (peak trace.num_ids trace.ops)) (d.of_long heapsize)

numcorrect-add_totals :
    {D M F : Type 0} (d : Double D) (h : Host M F) (text : F → List Token) (fuel : ℕ)
    (tracedir : Text) (names : List Text) (good : AllGood h text fuel tracedir names)
    (ss : List (Stats D)) (r : Totals D)
    → AllRated h text fuel tracedir (Rated d) names good ss
    → (add_totals d ss r).numcorrect ≡ length names + r.numcorrect
unfolding add_totals
numcorrect-add_totals d h text fuel tracedir [] good [] r rated = omega arith
numcorrect-add_totals d h text fuel tracedir [] good (s ∷ ss) r rated = absurd rated
numcorrect-add_totals d h text fuel tracedir (name ∷ names) good [] r rated = absurd rated
numcorrect-add_totals d h text fuel tracedir (name ∷ names) good (s ∷ ss) r rated =
    rw (numcorrect-add_totals d h text fuel tracedir names good.1 ss _ rated.1, rated.0.valid)
      (omega arith)

pub numcorrect-total :
    {D M F : Type 0} (d : Double D) (h : Host M F) (text : F → List Token) (fuel : ℕ)
    (tracedir : Text) (names : List Text) (good : AllGood h text fuel tracedir names)
    (ss : List (Stats D))
    → AllRated h text fuel tracedir (Rated d) names good ss
    → (total d ss).numcorrect ≡ length names
unfolding total
numcorrect-total d h text fuel tracedir names good ss rated =
    numcorrect-add_totals d h text fuel tracedir names good ss (no_totals d) rated ∙ omega arith

-- The C library's `malloc` aligns the arena to 8 bytes, away from both ends of memory.
abbrev pub Aligns : {M : Type 0} → Libc M → Type 0
Aligns {M} c =
    (m : M)
    → (8 ≤ (c.malloc max_heap m).0)
      × ((c.malloc max_heap m).0 % 8 ≡ 0)
      × ((c.malloc max_heap m).0 + max_heap + 2 ^ 32 < u64)

module _ {D M F : Type 0} (d : Double D) (c : Libc M) (clocks : Clocks M) (p : Platform)
    (h : Host M F) (text : F → List Token) (fuel : ℕ) (generous : Generous c)
    (reads : Reads h.scanner text) (tracedir : Text) where
  abbrev measured : ℕ → Text → Lab D M (Stats D)
  measured = measure_mm d c clocks p configured h fuel tracedir

  abbrev Whole : World M → Type 0
  Whole w = IsArena w.heap × (w.heap.mem_max_addr ≡ w.heap.mem_start_brk + max_heap)

  round :
      (i : ℕ) (name : Text) (g : GoodFile h text fuel tracedir name) (t : Timing D) (w : World M)
      → Whole w
      → (e : Round (Rated d g.trace) w (measured i name t w)) × Whole e.world
  round i name g t w a =
      let e =
        measure_mm-Evaluated d c clocks p h text fuel g.heapsize g.weight i tracedir name g.trace
          g.file t w generous reads g.opened g.holds g.is g.int_heapsize g.int_weight g.enough a.0
          g.plays (omega (arith, g.room, a.1)) in
      (
        record {
          stats = e.stats;
          timing = e.timing;
          world = e.world;
          returns = e.returns;
          rated = record {
            valid = e.valid;
            ops = e.ops;
            heapsize = e.heapsize;
            bounded = e.bounded;
            util = e.util;
          };
          errors = e.errors;
          reports = e.reports;
        },
        (
          IsArena-same w.heap e.world.heap a.0 e.same_arena.0 e.same_arena.1,
          omega (arith, a.1, e.same_arena.0, e.same_arena.1),
        ),
      )

  -- The arena that `malloc` returns, in a state where `calloc` has run.
  abbrev arena : List Text → World M → ℕ × M
  arena names w = c.malloc max_heap (c.malloc ((length names * 32) % u64) w.libc).1

  abbrev pub fresh_arena : (start top : ℕ) (m : M) → World M → World M
  fresh_arena start top m w = record w {
    heap = record w.heap { mem_start_brk = start; mem_brk = start; mem_max_addr = top };
    libc = m;
  }

  -- `calloc` and `mem_init` succeed.
  pub evaluate_mm-each_trace :
      (o : Options) (names : List Text) (t : Timing D) (w : World M) (top : ℕ)
      → ((c.malloc ((length names * 32) % u64) w.libc).0 == null) ≡ false
      → ((arena names w).0 == null) ≡ false
      → padd (arena names w).0 max_heap ≡ top
      → o.tracedir ≡ tracedir
      → evaluate_mm d c clocks p configured h fuel o names t w
        ≡ each_trace d c clocks p configured h fuel measured 0 names t
            (fresh_arena (arena names w).0 top (arena names w).1 w)
  unfolding evaluate_mm new_stats mem_init
  evaluate_mm-each_trace o names t w top y z e same =
      rw (evaluate_mm, new_stats, y, z, e, same) refl

  -- `calloc`, `mem_init` and the loop.
  pub evaluate_mm-Loops :
      (o : Options) (names : List Text) (good : AllGood h text fuel tracedir names) (t : Timing D)
      (w : World M)
      → Aligns c
      → o.tracedir ≡ tracedir
      → Loops h text fuel tracedir
          (Rated d)
          names
          good
          w
          (evaluate_mm d c clocks p configured h fuel o names t w)
  evaluate_mm-Loops o names good t w aligns same =
      let k = (length names * 32) % u64 in
      let q = c.malloc k w.libc in
      let y : (q.0 == null) ≡ false = ground (arith, generous k w.libc) in
      let r = c.malloc max_heap q.1 in
      let place = aligns q.1 in
      let z : (r.0 == null) ≡ false = ground (arith, place.0) in
      let top : padd r.0 max_heap ≡ r.0 + max_heap = omega (arith, place.2) in
      let v = fresh_arena r.0 (r.0 + max_heap) r.1 w in
      let a : IsArena v.heap = record {
        not_low = place.0;
        aligned = place.1;
        limit = omega arith;
        small = place.2;
      } in
      let l =
        each_trace-Loops d c clocks p h text fuel tracedir (Rated d) measured Whole round names good
          0 t v (a, refl) in
      record {
        stats = l.stats;
        timing = l.timing;
        world = l.world;
        returns = evaluate_mm-each_trace o names t w (r.0 + max_heap) y z top same ∙ l.returns;
        rated = l.rated;
        errors = l.errors;
        reports = l.reports;
      }
