-- ===== src/Driver/Valid/Realloc.antt =====
-- The case REALLOC of `eval_mm_valid` on an allocator that keeps its promises.
use malloc_jt.Base.{
  ℕ, ◌+◌, ◌%◌, ◌^◌, ◌≤◌, ◌<◌, ◌≡◌, ◌⊎◌, inl, inr, refl, sym, ap, subst, ◌∙◌, arith, Bool, true,
  false, List, ◌==◌,
}
use malloc_jt.Machine.{null, State, ok, exited}
use malloc_jt.Heap.{Block, first_block}
use malloc_jt.Heap.Payload.{Used-Usable}
use malloc_jt.Heap.Widened.{Used}
use malloc_jt.Mm.{adjust, mm_malloc, mm_realloc}
use malloc_jt.Mm.Malloc.{growth, Refused}
use malloc_jt.Mm.Realloc.{Moved, mm_realloc-Moved}
use malloc_jt.Driver.{Libc, World, done}
use malloc_jt.Driver.Contents.{preserved}
use malloc_jt.Driver.Contents.Preserved.{Filled, preserved-Filled}
use malloc_jt.Driver.Live.{
  Live, ranges_of, Listed, Held, Others, Listed-Others, Tracks, Tracked, set_alive,
}
use malloc_jt.Driver.Ranges.{remove_range}
use malloc_jt.Driver.Ranges.Accept.{accepted}
use malloc_jt.Driver.Valid.{rounds, shorter, valid_realloc}
use malloc_jt.Driver.Valid.Fresh.{
  Fresh, Fresh-InBounds, Fresh-Acceptable, Fresh-Tracks, tail_returns, final,
}
use malloc_jt.Driver.Valid.Requests.{Served, Generous, Goes}

pub Moved-room :
    (s : State) (bs : List Block) (ptr k size : ℕ)
    → s.mem_brk + growth (adjust size) ≤ s.mem_max_addr
    → Moved s bs ptr k size (mm_realloc ptr size s)
      ⊎ (Refused s bs size (mm_malloc size s) × (mm_realloc ptr size s ≡ exited))
    → Moved s bs ptr k size (mm_realloc ptr size s)
Moved-room s bs ptr k size room (inl g) = g
Moved-room s bs ptr k size room (inr (r, e)) = absurd (omega (arith, r.no_room))

-- How many bytes are compared.
pub compared :
    (size old : ℕ)
    → size < 2 ^ 31
    → old < 2 ^ 31
    → (rounds (shorter size old) ≤ size) × (rounds (shorter size old) ≤ old)
unfolding rounds shorter
compared size old h k = ground arith

-- The entry `e0` is reallocated.
module _ {M : Type 0} (c : Libc M) (w : World M) (n : ℕ) (alive : ℕ → Bool) (bs : List Block)
    (es : List Live) (e0 : Live) (size : ℕ) (t : Tracks w n alive bs es) (l0 : Listed e0 es)
    (inside : e0.index < n) (small : e0.index % 256 < 128) (served : Served size)
    (g : Moved w.heap bs e0.ptr e0.extent size (mm_realloc e0.ptr size w.heap)) where
  abbrev others : Others e0 es
  others = Listed-Others e0 es t.distinct l0

  abbrev h0 : Held w bs e0
  h0 = t.held e0 l0

  -- The range of the old block is off the list.
  abbrev removed : World M
  removed = record w {
    heap = g.state;
    ranges = ranges_of others.rest;
    libc = c.free e0.node w.libc;
  }

  now_used :
      (a k : ℕ) → Used (first_block w.heap) g.after a k → Used (first_block g.state) g.after a k
  now_used a k = subst (λ b. Used (b + 8 + 8) g.after a k) (sym g.same_arena.0)

  still_used : (e : Live) → Listed e others.rest → Used (first_block w.heap) g.after e.ptr e.extent
  still_used e l =
      (g.used e.ptr e.extent).1
        (inl ((t.held e (others.listed e l)).used, (others.different e l).0))

  new_used : Used (first_block w.heap) g.after g.block g.extent
  new_used = (g.used g.block g.extent).1 (inr (refl, refl))

  still_Held : (e : Live) → Listed e others.rest → Held removed g.after e
  still_Held e l =
      let h = t.held e (others.listed e l) in
      record {
        used = now_used e.ptr e.extent (still_used e l);
        large = h.large;
        positive = h.positive;
        fine = h.fine;
        block = h.block;
        block_size = h.block_size;
        filled = λ i k.
            ap (λ (b : ℕ). b % 256)
              (g.kept e.ptr e.extent (e.ptr + i) h.used (others.different e l).0 (omega arith)
                (omega (arith, h.large)))
            ∙ h.filled i k;
      }

  Removed-Fresh : Fresh removed n alive g.after others.rest g.block g.extent size e0.index
  Removed-Fresh = record {
    heap = g.heap;
    ranges = refl;
    blocks = t.blocks;
    block_sizes = t.block_sizes;
    inside = inside;
    used = now_used g.block g.extent new_used;
    large = g.large;
    positive = served.0;
    fine = served.1;
    held = still_Held;
    distinct = others.distinct;
    apart = λ e l. g.apart e.ptr e.extent (t.held e (others.listed e l)).used;
    other = λ e l. (others.different e l).1;
    lives = λ i ne a.
        let r = t.lives i a in (r.0, others.all_others r.0 r.1 (λ q. ne (sym r.2 ∙ q)), r.2);
    lived = λ e l. t.lived e (others.listed e l);
  }

  remove_ok : remove_range c e0.ptr (record w { heap = g.state }) ≡ done tt removed
  unfolding remove_range
  remove_ok = rw (remove_range, t.ranges, others.unlinks)

  abbrev checked : ℕ
  checked = rounds (shorter size e0.size)

  -- The new block holds the old contents.
  contents_kept : Filled g.state checked e0.index g.block
  contents_kept =
      let b = compared size e0.size (omega (arith, served.1)) (omega (arith, h0.fine)) in
      record {
        bytes = λ i k.
            ap (λ (x : ℕ). x % 256) (g.contents i (omega arith) (omega (arith, h0.large)))
            ∙ h0.filled i (omega arith);
      }

  preserved_ok : preserved checked e0.index g.block g.state ≡ ok true g.state
  preserved_ok =
      let b = compared size e0.size (omega (arith, served.1)) (omega (arith, h0.fine)) in
      let u =
        Used-Usable g.state g.after g.block g.extent g.heap (now_used g.block g.extent new_used) in
      preserved-Filled g.state checked e0.index g.block (omega (arith, u.low))
        (omega (arith, u.high, g.large, g.heap.layout.room)) small contents_kept

  pub valid_realloc-Goes :
      (tracenum i : ℕ)
      → Generous c
      → Goes w n
          (set_alive alive e0.index true)
          (growth (adjust size))
          (valid_realloc c tracenum i e0.index size w)
  unfolding valid_realloc
  valid_realloc-Goes tracenum i room =
      let f = Removed-Fresh in
      let u = Used-Usable g.state g.after g.block g.extent g.heap f.used in
      let not_null : (g.block == null) ≡ false = ground (arith, u.low) in
      let p = g.block in
      let x = g.extent in
      record {
        world = final c removed n alive g.after others.rest p x size e0.index f;
        returns =
            rw
              (
                h0.block,
                g.returns,
                not_null,
                remove_ok,
                accepted c removed p size tracenum i
                    (Fresh-InBounds c removed n alive g.after others.rest p x size e0.index f)
                    (room 24 (c.free e0.node w.libc))
                    (Fresh-Acceptable c removed n alive g.after others.rest p x size e0.index f),
                h0.block_size,
                preserved_ok,
              )
              (tail_returns c removed n alive g.after others.rest p x size e0.index f);
        tracked = record {
          bs = g.after;
          es = _;
          tracks = Fresh-Tracks c removed n alive g.after others.rest p x size e0.index f;
        };
        errors = refl;
        reports = refl;
        same_arena = g.same_arena;
        break_at = g.grown_by;
      }

-- A request REALLOC that fits goes on when the heap has room to grow.
pub realloc-Goes :
    {M : Type 0} (c : Libc M) (w : World M) (n : ℕ) (alive : ℕ → Bool) (tracenum i index size : ℕ)
    → Generous c
    → Tracked w n alive
    → alive index ≡ true
    → index < n
    → index % 256 < 128
    → Served size
    → w.heap.mem_brk + growth (adjust size) ≤ w.heap.mem_max_addr
    → Goes w n
        (set_alive alive index true)
        (growth (adjust size))
        (valid_realloc c tracenum i index size w)
realloc-Goes c w n alive tracenum i index size generous t live inside small served room =
    let e = t.tracks.lives index live in
    let h = t.tracks.held e.0 e.1 in
    subst
      (λ j.
        Goes w n (set_alive alive j true) (growth (adjust size))
          (valid_realloc c tracenum i j size w))
      e.2
      (valid_realloc-Goes c w n alive t.bs t.es e.0 size t.tracks e.1 (omega (arith, e.2))
        (omega (arith, e.2)) served
        (Moved-room w.heap t.bs e.0.ptr e.0.extent size room (
          mm_realloc-Moved w.heap t.bs e.0.ptr e.0.extent size t.tracks.heap h.used served.0
            served.1))
        tracenum i generous)
