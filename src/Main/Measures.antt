-- ===== src/Main/Measures.antt =====
-- Running a trace again and again for the time: mm.c keeps the arena and the arrays.
use malloc_jt.Base.{ℕ, zero, suc, ◌+◌, ◌≤◌, ◌≡◌, refl, sym, ap, ◌∙◌, arith, List, length}
use malloc_jt.Machine.{State}
use malloc_jt.Driver.{TraceOp, Trace, World, Result, Run}
use malloc_jt.Driver.Util.{eval_mm_speed}
use malloc_jt.Driver.Util.Agree.{unsized, eval_mm_speed-unsized}
use malloc_jt.Driver.Util.Measured.{eval_mm_util-Measures}
use malloc_jt.Driver.Valid.Passes.{IsArena, Stays, Stays-then, nobody}
use malloc_jt.Driver.Valid.Requests.{Plays, demand}
use malloc_jt.Timing.{Double, Clocks, Timing, sub64}
use malloc_jt.Timing.Wrappers.{repeat, ftimer_gettod}

-- The arena and the arrays are ready for a run of the trace.
pub record Ready {M : Type 0} (n : ℕ) (ops : List TraceOp) (w : World M) : Type 0 where
  pub arena : IsArena w.heap
  pub blocks : length w.blocks ≡ n
  pub block_sizes : length w.block_sizes ≡ n
  pub room : w.heap.mem_start_brk + 4112 + demand ops ≤ w.heap.mem_max_addr

pub IsArena-same :
    (s t : State)
    → IsArena s
    → t.mem_start_brk ≡ s.mem_start_brk
    → t.mem_max_addr ≡ s.mem_max_addr
    → IsArena t
IsArena-same s t a start end = record {
  not_low = omega (arith, a.not_low, start);
  aligned = omega (arith, a.aligned, start);
  limit = omega (arith, a.limit, start, end);
  small = omega (arith, a.small, end);
}

pub Stays-Ready :
    {M A : Type 0} {n : ℕ} {ops : List TraceOp} {w : World M} {a : A} {r : Result M A}
    → Ready n ops w
    → (s : Stays n w a r) → Ready n ops s.world
Stays-Ready {w = w} r s = record {
  arena = IsArena-same w.heap s.world.heap r.arena s.same_arena.0 s.same_arena.1;
  blocks = s.blocks;
  block_sizes = s.block_sizes;
  room = omega (arith, r.room, s.same_arena.0, s.same_arena.1);
}

module _ {M : Type 0} (n : ℕ) (trace : Trace) (plays : Plays n nobody trace.ops) where
  speed-Stays : (w : World M) → Ready n trace.ops w → Stays n w tt (eval_mm_speed trace w)
  unfolding unsized
  speed-Stays w r =
      let m = eval_mm_util-Measures n trace w r.arena r.blocks r.block_sizes plays r.room in
      let s = m.stays in
      let e = eval_mm_speed-unsized trace w (r.blocks ∙ sym r.block_sizes) in
      record {
        world = record s.world { block_sizes = w.block_sizes };
        returns = e ∙ ap (unsized w.block_sizes) s.returns;
        errors = s.errors;
        reports = s.reports;
        blocks = s.blocks;
        block_sizes = r.block_sizes;
        same_arena = s.same_arena;
      }

-- A function that is timed, with what it needs at the start: that stays, as the clock is read too.
module _ {M : Type 0} (n : ℕ) (f : Run M (Unit {0})) (Needs : World M → Type 0)
    (stays : (w : World M) → Needs w → Stays n w tt (f w))
    (stays_Needs : (w : World M) (q : Needs w) → Needs (stays w q).world)
    (clock_Needs : (m : M) (w : World M) → Needs w → Needs (record w { libc = m })) where
  repeat-Stays :
      {D : Type 0} (k : ℕ) (t : Timing D) (w : World M)
      → Needs w
      → (length w.blocks ≡ n) × (length w.block_sizes ≡ n)
      → Stays n w (tt, t) (repeat k f t w)
  unfolding repeat
  repeat-Stays zero t w r sizes = record {
    world = w;
    returns = refl;
    errors = refl;
    reports = refl;
    blocks = sizes.0;
    block_sizes = sizes.1;
    same_arena = (refl, refl);
  }
  repeat-Stays (suc k) t w r sizes =
      let s = stays w r in
      let rest = repeat-Stays k t s.world (stays_Needs w r) (s.blocks, s.block_sizes) in
      Stays-then s rest (rw (repeat, s.returns) refl)

  pub gettod-Stays :
      {D : Type 0} (d : Double D) (clocks : Clocks M) (k : ℕ) (t : Timing D) (w : World M)
      → Needs w
      → (length w.blocks ≡ n) × (length w.block_sizes ≡ n)
      → (secs : D) × Stays n w (secs, t) (ftimer_gettod d clocks f k t w)
  unfolding ftimer_gettod
  gettod-Stays d clocks k t w r sizes =
      let stv = clocks.gettimeofday w.libc in
      let begun = record w { libc = stv.1 } in
      let s = repeat-Stays k t begun (clock_Needs stv.1 w r) sizes in
      let etv = clocks.gettimeofday s.world.libc in
      let seconds = d.mul (d.decimal 1000 0) (d.of_long (sub64 etv.0.0 stv.0.0)) in
      let diff = d.add seconds (d.mul (d.decimal 1 3) (d.of_long (sub64 etv.0.1 stv.0.1))) in
      (
        d.mul (d.decimal 1 3) (d.div diff (d.of_long k)),
        record {
          world = record s.world { libc = etv.1 };
          returns = rw (ftimer_gettod, s.returns) refl;
          errors = s.errors;
          reports = s.reports;
          blocks = s.blocks;
          block_sizes = s.block_sizes;
          same_arena = s.same_arena;
        },
      )

-- `eval_mm_speed`, timed with `gettimeofday`.
pub speed_gettod-Stays :
    {D M : Type 0} (n : ℕ) (trace : Trace) (d : Double D) (clocks : Clocks M) (k : ℕ) (t : Timing D)
    (w : World M)
    → Plays n nobody trace.ops
    → Ready n trace.ops w
    → (secs : D) × Stays n w (secs, t) (ftimer_gettod d clocks (eval_mm_speed trace) k t w)
speed_gettod-Stays n trace d clocks k t w plays r =
    gettod-Stays n (eval_mm_speed trace) (Ready n trace.ops) (speed-Stays n trace plays)
      (λ w r. Stays-Ready r (speed-Stays n trace plays w r))
      (λ m w r. record {
        arena = r.arena;
        blocks = r.blocks;
        block_sizes = r.block_sizes;
        room = r.room;
      })
      d clocks k t w r (r.blocks, r.block_sizes)
