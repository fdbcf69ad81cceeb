-- ===== src/Driver/Valid/Alloc.antt =====
-- The case ALLOC of `eval_mm_valid` on an allocator that keeps its promises.
use malloc_jt.Base.{
  ℕ, ◌+◌, ◌%◌, ◌≤◌, ◌<◌, ◌≡◌, ◌⊎◌, inl, inr, refl, sym, ap, subst, ◌∙◌, arith, Bool, true, false,
  List, ◌==◌, true≢false,
}
use malloc_jt.Machine.{null, State}
use malloc_jt.Heap.{Block, first_block}
use malloc_jt.Heap.Payload.{Used-Usable}
use malloc_jt.Heap.Widened.{Used}
use malloc_jt.Mm.{adjust, mm_malloc}
use malloc_jt.Mm.Malloc.{growth, Granted, Refused, mm_malloc-Granted}
use malloc_jt.Driver.{Libc, World}
use malloc_jt.Driver.Live.{Live, Listed, Held, Tracks, Tracked, set_alive}
use malloc_jt.Driver.Ranges.Accept.{accepted}
use malloc_jt.Driver.Valid.{valid_alloc}
use malloc_jt.Driver.Valid.Fresh.{
  Fresh, Fresh-InBounds, Fresh-Acceptable, Fresh-Tracks, tail_returns, final,
}
use malloc_jt.Driver.Valid.Requests.{Served, Generous, Goes}

-- What was granted, when there is room.
pub Granted-room :
    (s : State) (bs : List Block) (size : ℕ)
    → s.mem_brk + growth (adjust size) ≤ s.mem_max_addr
    → Granted s bs size (mm_malloc size s) ⊎ Refused s bs size (mm_malloc size s)
    → Granted s bs size (mm_malloc size s)
Granted-room s bs size room (inl g) = g
Granted-room s bs size room (inr r) = absurd (omega (arith, r.no_room))

module _ {M : Type 0} (c : Libc M) (w : World M) (n : ℕ) (alive : ℕ → Bool) (bs : List Block)
    (es : List Live) (index size : ℕ) (t : Tracks w n alive bs es) (dead : alive index ≡ false)
    (inside : index < n) (served : Served size)
    (g : Granted w.heap bs size (mm_malloc size w.heap)) where
  abbrev granted : World M
  granted = record w { heap = g.state }

  -- The arena has not moved.
  now_used :
      (a k : ℕ) → Used (first_block w.heap) g.after a k → Used (first_block g.state) g.after a k
  now_used a k = subst (λ b. Used (b + 8 + 8) g.after a k) (sym g.same_arena.0)

  still_Held : (e : Live) → Listed e es → Held granted g.after e
  still_Held e l =
      let h = t.held e l in
      record {
        used = now_used e.ptr e.extent ((g.used e.ptr e.extent).1 (inl h.used));
        large = h.large;
        positive = h.positive;
        fine = h.fine;
        block = h.block;
        block_size = h.block_size;
        filled = λ i k.
            ap (λ (b : ℕ). b % 256)
              (g.kept.payload e.ptr e.extent (e.ptr + i) h.used (omega arith)
                (omega (arith, h.large)))
            ∙ h.filled i k;
      }

  Granted-Fresh : Fresh granted n alive g.after es g.block g.extent size index
  Granted-Fresh = record {
    heap = g.heap;
    ranges = t.ranges;
    blocks = t.blocks;
    block_sizes = t.block_sizes;
    inside = inside;
    used = now_used g.block g.extent ((g.used g.block g.extent).1 (inr (refl, refl)));
    large = g.large;
    positive = served.0;
    fine = served.1;
    held = still_Held;
    distinct = t.distinct;
    apart = λ e l. g.apart e.ptr e.extent (t.held e l).used;
    other = λ e l q. true≢false (sym (t.lived e l) ∙ ap alive q ∙ dead);
    lives = λ i ne a. t.lives i a;
    lived = t.lived;
  }

  pub valid_alloc-Goes :
      (tracenum i : ℕ)
      → Generous c
      → Goes w n
          (set_alive alive index true)
          (growth (adjust size))
          (valid_alloc c tracenum i index size w)
  unfolding valid_alloc
  valid_alloc-Goes tracenum i room =
      let f = Granted-Fresh in
      let u = Used-Usable g.state g.after g.block g.extent g.heap f.used in
      let not_null : (g.block == null) ≡ false = ground (arith, u.low) in
      let p = g.block in
      let x = g.extent in
      record {
        world = final c granted n alive g.after es p x size index f;
        returns =
            rw
              (
                g.returns,
                not_null,
                accepted c granted p size tracenum i
                    (Fresh-InBounds c granted n alive g.after es p x size index f) (room 24 w.libc)
                    (Fresh-Acceptable c granted n alive g.after es p x size index f),
              )
              (tail_returns c granted n alive g.after es p x size index f);
        tracked = record {
          bs = g.after;
          es = _;
          tracks = Fresh-Tracks c granted n alive g.after es p x size index f;
        };
        errors = refl;
        reports = refl;
        same_arena = g.same_arena;
        break_at = g.grown_by;
      }

-- A request ALLOC that fits goes on when the heap has room to grow.
pub alloc-Goes :
    {M : Type 0} (c : Libc M) (w : World M) (n : ℕ) (alive : ℕ → Bool) (tracenum i index size : ℕ)
    → Generous c
    → Tracked w n alive
    → alive index ≡ false
    → index < n
    → Served size
    → w.heap.mem_brk + growth (adjust size) ≤ w.heap.mem_max_addr
    → Goes w n
        (set_alive alive index true)
        (growth (adjust size))
        (valid_alloc c tracenum i index size w)
alloc-Goes c w n alive tracenum i index size generous t dead inside served room =
    let h = t.tracks.heap in
    valid_alloc-Goes c w n alive t.bs t.es index size t.tracks dead inside served
      (Granted-room w.heap t.bs size room (mm_malloc-Granted w.heap t.bs size h served.0 served.1))
      tracenum i generous
