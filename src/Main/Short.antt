-- ===== src/Main/Short.antt =====
-- The round of `main`'s loop for mm.c, whatever room the arena has: what happens when memory runs out.
pub mod Calls
pub mod Loop
pub mod Round
pub mod Scores
pub mod Verdict
pub mod Whole
use malloc_jt.Base.{
  ℕ, ◌⊎◌, ◌^◌, zero, suc, ◌+◌, ◌≤◌, ◌<◌, ◌≡◌, refl, sym, ap, ◌∙◌, arith, inl, inr, true, List,
  length,
}
use malloc_jt.Driver.{Trace, World, Result, Run, stopped}
use malloc_jt.Driver.Util.{eval_mm_util, eval_mm_speed}
use malloc_jt.Driver.Util.Agree.{unsized, eval_mm_speed-unsized}
use malloc_jt.Driver.Util.Measured.{Measures, eval_mm_util-cases}
use malloc_jt.Driver.Util.Peak.{peak}
use malloc_jt.Driver.Valid.Passes.{IsArena, Stays, Stays-then, nobody}
use malloc_jt.Driver.Valid.Requests.{Plays, demand}
use malloc_jt.Timing.{Double, Clocks, Timing, sub64}
use malloc_jt.Timing.Wrappers.{repeat, ftimer_gettod}
use malloc_jt.Main.Measures.{IsArena-same}

-- The arena is the one from `start` to `end`, and the arrays have `n` places.
pub record Placed {M : Type 0} (n start end : ℕ) (w : World M) : Type 0 where
  pub arena : IsArena w.heap
  pub inside : start ≤ end
  pub low : w.heap.mem_start_brk ≡ start
  pub high : w.heap.mem_max_addr ≡ end
  pub blocks : length w.blocks ≡ n
  pub block_sizes : length w.block_sizes ≡ n

pub Stays-Placed :
    {M A : Type 0} {n start end : ℕ} {w : World M} {a : A} {r : Result M A}
    → Placed n start end w
    → (s : Stays n w a r) → Placed n start end s.world
Stays-Placed {w = w} p s = record {
  arena = IsArena-same w.heap s.world.heap p.arena s.same_arena.0 s.same_arena.1;
  inside = p.inside;
  low = s.same_arena.0 ∙ p.low;
  high = s.same_arena.1 ∙ p.high;
  blocks = s.blocks;
  block_sizes = s.block_sizes;
}

-- The program ends with `exit(1)` because there is as little room as `Short` says.
abbrev pub Exits : {M A : Type 0} → World M → Type 0 → Result M A → Type 0
Exits w Short r = Short × (r ≡ stopped w.reports)

-- The arena from `start` to `end` has less than 4112 bytes and the demand of the trace.
abbrev pub Lacks : (start end : ℕ) → Trace → Type 0
Lacks start end trace = end < start + 4112 + demand trace.ops

module _ {M : Type 0} (n : ℕ) (trace : Trace) (start end : ℕ) (plays : Plays n nobody trace.ops)
    (narrow : peak n trace.ops < 2 ^ 31) where
  pub util-Placed :
      (w : World M)
      → Placed n start end w
      → Measures n trace w ⊎ Exits w (Lacks start end trace) (eval_mm_util trace w)
  util-Placed w p =
      elim (eval_mm_util-cases n trace w p.arena (omega (arith, p.inside, p.low, p.high)) p.blocks
        p.block_sizes plays narrow) [
          | inl m ↦ inl m
          | inr q ↦ inr (omega (arith, q.0, p.low, p.high), q.1)
        ]

  speed-Placed :
      (w : World M)
      → Placed n start end w
      → Stays n w tt (eval_mm_speed trace w)
        ⊎ Exits w (Lacks start end trace) (eval_mm_speed trace w)
  unfolding unsized
  speed-Placed w p =
      let e = eval_mm_speed-unsized trace w (p.blocks ∙ sym p.block_sizes) in
      elim (util-Placed w p) [
        | inl m ↦
            (let s = m.stays in
              inl (record {
                world = record s.world { block_sizes = w.block_sizes };
                returns = e ∙ ap (unsized w.block_sizes) s.returns;
                errors = s.errors;
                reports = s.reports;
                blocks = s.blocks;
                block_sizes = p.block_sizes;
                same_arena = s.same_arena;
              }))
        | inr q ↦ inr (q.0, e ∙ ap (unsized w.block_sizes) q.1)
      ]

  module _ {D : Type 0} (t : Timing D) where
    repeat-Placed :
        (k : ℕ) (w : World M)
        → Placed n start end w
        → Stays n w (tt, t) (repeat k (eval_mm_speed trace) t w)
          ⊎ Exits w (Lacks start end trace) (repeat k (eval_mm_speed trace) t w)
    unfolding repeat
    repeat-Placed zero w p = inl (record {
      world = w;
      returns = refl;
      errors = refl;
      reports = refl;
      blocks = p.blocks;
      block_sizes = p.block_sizes;
      same_arena = (refl, refl);
    })
    repeat-Placed (suc k) w p = elim (speed-Placed w p) [
      | inl s ↦ elim (repeat-Placed k s.world (Stays-Placed p s)) [
        | inl rest ↦ inl (Stays-then s rest (rw (repeat, s.returns) refl))
        | inr q ↦ inr (q.0, rw (repeat, s.returns) (q.1 ∙ ap stopped s.reports))
      ]
      | inr q ↦ inr (q.0, rw (repeat, q.1) refl)
    ]

    pub gettod-Placed :
        (d : Double D) (clocks : Clocks M) (k : ℕ) (w : World M)
        → Placed n start end w
        → ((secs : D) × Stays n w (secs, t) (ftimer_gettod d clocks (eval_mm_speed trace) k t w))
          ⊎ Exits w (Lacks start end trace) (ftimer_gettod d clocks (eval_mm_speed trace) k t w)
    unfolding ftimer_gettod
    gettod-Placed d clocks k w p =
        let stv = clocks.gettimeofday w.libc in
        let begun = record w { libc = stv.1 } in
        let ready : Placed n start end begun = record {
          arena = p.arena;
          inside = p.inside;
          low = p.low;
          high = p.high;
          blocks = p.blocks;
          block_sizes = p.block_sizes;
        } in
        elim (repeat-Placed k begun ready) [
          | inl s ↦
              let etv = clocks.gettimeofday s.world.libc in
              let seconds = d.mul (d.decimal 1000 0) (d.of_long (sub64 etv.0.0 stv.0.0)) in
              let diff =
                d.add seconds (d.mul (d.decimal 1 3) (d.of_long (sub64 etv.0.1 stv.0.1))) in
              inl (
                d.mul (d.decimal 1 3) (d.div diff (d.of_long k)),
                record {
                  world = record s.world { libc = etv.1 };
                  returns = rw (ftimer_gettod, s.returns) refl;
                  errors = s.errors;
                  reports = s.reports;
                  blocks = s.blocks;
                  block_sizes = s.block_sizes;
                  same_arena = s.same_arena;
                },
              )
          | inr q ↦ inr (q.0, rw (ftimer_gettod, q.1) refl)
        ]
