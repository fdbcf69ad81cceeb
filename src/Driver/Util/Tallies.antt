-- ===== src/Driver/Util/Tallies.antt =====
-- The requests that `eval_mm_util` runs: they add up, or memory runs out.
use malloc_jt.Base.{
  larger, ℕ, ◌⊎◌, inl, inr, ◌+◌, ◌^◌, ◌≤◌, ◌<◌, ◌≡◌, refl, ap, ◌∙◌, arith, Bool, List, [], ◌∷◌,
  length, u64,
}
use malloc_jt.Mm.Free.{mm_free-Freed}
use malloc_jt.Mm.Malloc.{mm_malloc-Granted}
use malloc_jt.Mm.Realloc.{mm_realloc-Moved}
use malloc_jt.Machine.{Ptr}
use malloc_jt.Driver.{World, Result, done, stopped, RequestType, TraceOp, then_run}
use malloc_jt.Driver.Util.{Usage, util_op, util_ops, util_alloc, util_realloc}
use malloc_jt.Driver.Util.Carries.{Carries, Counts}
use malloc_jt.Driver.Util.Released.{free-Counts}
use malloc_jt.Driver.Util.Counts.{usage, alloc-Counts, realloc-Counts}
use malloc_jt.Driver.Util.Peak.{sizes_after, sum_to, peak_from, le-peak_from}
use malloc_jt.Driver.Valid.Requests.{Allowed, Plays, alive_after, cost, demand}

-- How one request ends.
data Tally {M : Type 0} (w : World M) (n : ℕ) (alive : ℕ → Bool) (sizes : ℕ → ℕ) (m spent : ℕ)
    (r : Result M Usage) : Type 0 where
  adds : Counts w n alive sizes m spent r → Tally w n alive sizes m spent r
  stops :
      w.heap.mem_max_addr < w.heap.mem_brk + spent
      → r ≡ stopped w.reports
      → Tally w n alive sizes m spent r

module _ {M : Type 0} (n : ℕ) where
  op-Tally :
      (w : World M) (alive : ℕ → Bool) (at : ℕ → Ptr) (sizes : ℕ → ℕ) (m : ℕ) (type : RequestType)
      (index size : ℕ)
      → Carries w n alive at sizes
      → Allowed n alive type index size
      → sum_to n sizes ≤ m
      → m < 2 ^ 31
      → sum_to n (sizes_after sizes type index size) < 2 ^ 31
      → Tally w n
          (alive_after alive type index)
          (sizes_after sizes type index size)
          (larger m (sum_to n (sizes_after sizes type index size)))
          (cost type size)
          (util_op (record { type = type; index = index; size = size }) (usage n sizes m) w)
  unfolding util_op util_alloc util_realloc
  op-Tally w alive at sizes m RequestType.alloc index size c a highest narrow fits =
      elim (mm_malloc-Granted w.heap c.bs size c.heap a.2.0 a.2.1) [
        | inl g ↦ adds (alloc-Counts w n alive at sizes m index size c a.1 fits narrow a.0 a.2 g)
        | inr r ↦ stops r.no_room (rw r.returns refl)
      ]
  op-Tally w alive at sizes m RequestType.realloc index size c a highest narrow fits =
      let h = c.held index a.0 in
      elim (mm_realloc-Moved w.heap c.bs (at index) h.extent size c.heap h.used a.3.0 a.3.1) [
        | inl g ↦
            adds (realloc-Counts w n alive at sizes m index size c a.1 fits narrow a.0 a.3 h g)
        | inr r ↦ stops r.0.no_room (rw (h.block_size, h.block, r.1) refl)
      ]
  op-Tally w alive at sizes m RequestType.free index size c a highest narrow fits =
      let h = c.held index a in
      adds (
        free-Counts w n alive at sizes m index c a h
          (mm_free-Freed w.heap c.bs (at index) h.extent c.heap h.used) highest narrow)

  -- The rest of a trace has been run, with the peak as the maximum.
  pub record Counted (w : World M) (top spent : ℕ) (r : Result M Usage) : Type 0 where
    pub world : World M
    pub total : ℕ
    pub returns : r ≡ done (record { total_size = total; max_total_size = top }) world
    pub same_arena :
        (world.heap.mem_start_brk ≡ w.heap.mem_start_brk)
        × (world.heap.mem_max_addr ≡ w.heap.mem_max_addr)
    pub blocks : length world.blocks ≡ n
    pub block_sizes : length world.block_sizes ≡ n
    pub break_at : world.heap.mem_brk ≤ w.heap.mem_brk + spent
    pub in_heap : world.heap.mem_start_brk ≤ world.heap.mem_brk
    pub low : world.heap.mem_brk < u64
    pub errors : world.errors ≡ w.errors
    pub reports : world.reports ≡ w.reports

  Counted-then :
      {w : World M} {alive : ℕ → Bool} {sizes : ℕ → ℕ} {m spent top more : ℕ} {r : Result M Usage}
      (ops : List TraceOp) (g : Counts w n alive sizes m spent r)
      → Counted g.world top more (util_ops ops (usage n sizes m) g.world)
      → Counted w top (spent + more) (then_run r (util_ops ops))
  Counted-then ops g rest = record {
    world = rest.world;
    total = rest.total;
    returns = rw g.returns rest.returns;
    same_arena = (rest.same_arena.0 ∙ g.same_arena.0, rest.same_arena.1 ∙ g.same_arena.1);
    blocks = rest.blocks;
    block_sizes = rest.block_sizes;
    break_at = omega (arith, rest.break_at, g.break_at);
    in_heap = rest.in_heap;
    low = rest.low;
    errors = rest.errors ∙ g.errors;
    reports = rest.reports ∙ g.reports;
  }

  -- How the rest of a trace ends: it is counted, or memory runs out.
  abbrev pub Tallies : World M → ℕ → ℕ → Result M Usage → Type 0
  Tallies w top spent r =
      Counted w top spent r
      ⊎ ((w.heap.mem_max_addr < w.heap.mem_brk + spent) × (r ≡ stopped w.reports))

  Tallies-then :
      {w : World M} {alive : ℕ → Bool} {sizes : ℕ → ℕ} {m spent top more : ℕ} {r : Result M Usage}
      (ops : List TraceOp) (g : Counts w n alive sizes m spent r)
      → Tallies g.world top more (util_ops ops (usage n sizes m) g.world)
      → Tallies w top (spent + more) (then_run r (util_ops ops))
  Tallies-then ops g (inl rest) = inl (Counted-then ops g rest)
  Tallies-then ops g (inr (x, e)) =
      inr (omega (arith, x, g.break_at, g.same_arena.1), rw g.returns (e ∙ ap stopped g.reports))

  pub ops-Tallies :
      (w : World M) (alive : ℕ → Bool) (at : ℕ → Ptr) (sizes : ℕ → ℕ) (m : ℕ) (ops : List TraceOp)
      → Carries w n alive at sizes
      → Plays n alive ops
      → sum_to n sizes ≤ m
      → peak_from n sizes m ops < 2 ^ 31
      → Tallies w (peak_from n sizes m ops) (demand ops) (util_ops ops (usage n sizes m) w)
  unfolding util_ops
  ops-Tallies w alive at sizes m [] c p highest narrow =
      let l = c.heap.layout in
      inl (record {
        world = w;
        total = sum_to n sizes;
        returns = refl;
        same_arena = (refl, refl);
        blocks = c.blocks;
        block_sizes = c.block_sizes;
        break_at = omega arith;
        in_heap = omega (arith, l.brk);
        low = omega (arith, l.room, l.small);
        errors = refl;
        reports = refl;
      })
  ops-Tallies w alive at sizes m (op ∷ ops) c p highest narrow =
      let sizes' = sizes_after sizes op.type op.index op.size in
      let m' = larger m (sum_to n sizes') in
      let up = le-peak_from n sizes' m' ops in
      let old : m ≤ m' = ground arith in
      let new : sum_to n sizes' ≤ m' = ground arith in
      elim (op-Tally w alive at sizes m op.type op.index op.size c p.0 highest
        (omega (arith, up, old)) (omega (arith, up, new))) [
          | adds g ↦ Tallies-then ops g (
              ops-Tallies g.world (alive_after alive op.type op.index) g.at sizes' m' ops g.carries
                p.1 new narrow)
          | stops x e ↦ inr (omega (arith, x), rw e refl)
        ]
