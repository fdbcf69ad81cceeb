-- ===== src/Driver/Valid/Release.antt =====
-- The case FREE of `eval_mm_valid` on an allocator that keeps its promises.
use malloc_jt.Base.{
  ℕ, ◌+◌, ◌%◌, ◌≡◌, ◌≢◌, inl, inr, refl, sym, ap, subst, ◌∙◌, arith, Bool, true, false, List, ◌==◌,
  true≢false, Bool-cases,
}
use malloc_jt.Heap.{Block, first_block}
use malloc_jt.Heap.Widened.{Used}
use malloc_jt.Mm.{mm_free}
use malloc_jt.Mm.Free.{Freed, mm_free-Freed}
use malloc_jt.Driver.{Libc, World, done}
use malloc_jt.Driver.Live.{
  Live, ranges_of, Listed, Held, Others, Listed-Others, Tracks, Tracked, set_alive,
}
use malloc_jt.Driver.Ranges.{remove_range}
use malloc_jt.Driver.Valid.{valid_free}
use malloc_jt.Driver.Valid.Requests.{Goes}

-- The entry `e0` is freed.
module _ {M : Type 0} (c : Libc M) (w : World M) (n : ℕ) (alive : ℕ → Bool) (bs : List Block)
    (es : List Live) (e0 : Live) (t : Tracks w n alive bs es) (l0 : Listed e0 es)
    (g : Freed w.heap bs e0.ptr (mm_free e0.ptr w.heap)) where
  abbrev others : Others e0 es
  others = Listed-Others e0 es t.distinct l0

  abbrev removed : World M
  removed = record w { ranges = ranges_of others.rest; libc = c.free e0.node w.libc }

  abbrev freed : World M
  freed = record removed { heap = record w.heap { bytes = g.bytes; temp = g.temp } }

  remove_ok : remove_range c e0.ptr w ≡ done tt removed
  unfolding remove_range
  remove_ok = rw (remove_range, t.ranges, others.unlinks)

  still_used : (e : Live) → Listed e others.rest → Used (first_block w.heap) g.after e.ptr e.extent
  still_used e l =
      (g.used e.ptr e.extent).1 ((t.held e (others.listed e l)).used, (others.different e l).0)

  still_Held : (e : Live) → Listed e others.rest → Held freed g.after e
  still_Held e l =
      let h = t.held e (others.listed e l) in
      record {
        used = still_used e l;
        large = h.large;
        positive = h.positive;
        fine = h.fine;
        block = h.block;
        block_size = h.block_size;
        filled = λ i k.
            ap (λ (b : ℕ). b % 256)
              (g.kept.payload e.ptr e.extent (e.ptr + i) (still_used e l) (omega arith)
                (omega (arith, h.large)))
            ∙ h.filled i k;
      }

  Freed-Tracks : Tracks freed n (set_alive alive e0.index false) g.after others.rest
  Freed-Tracks = record {
    heap = g.heap;
    ranges = refl;
    blocks = t.blocks;
    block_sizes = t.block_sizes;
    held = still_Held;
    distinct = others.distinct;
    lives = found;
    lived = λ e l.
        let ne = (others.different e l).1 in
        let y : (e.index == e0.index) ≡ false = ground arith in
        rw y (t.lived e (others.listed e l));
  }
    where
      found :
          (i : ℕ)
          → set_alive alive e0.index false i ≡ true
          → (e : Live) × Listed e others.rest × (e.index ≡ i)
      found i a = elim (Bool-cases (i == e0.index)) [
        | inl y ↦ absurd (true≢false (sym (rw y at a)))
        | inr y ↦
            let r = t.lives i (rw y at a) in
            let ne : i ≢ e0.index = ground arith in
            (r.0, others.all_others r.0 r.1 (λ q. ne (sym r.2 ∙ q)), r.2)
      ]

  valid_free-Goes :
      (tracenum : ℕ)
      → Goes w n (set_alive alive e0.index false) 0 (valid_free c tracenum e0.index w)
  unfolding valid_free
  valid_free-Goes tracenum = record {
    world = freed;
    returns = rw ((t.held e0 l0).block, remove_ok, g.returns);
    tracked = record { bs = g.after; es = others.rest; tracks = Freed-Tracks };
    errors = refl;
    reports = refl;
    same_arena = (refl, refl);
    break_at = omega arith;
  }

-- A request FREE of an id in use goes on.
pub free-Goes :
    {M : Type 0} (c : Libc M) (w : World M) (n : ℕ) (alive : ℕ → Bool) (tracenum index : ℕ)
    → Tracked w n alive
    → alive index ≡ true
    → Goes w n (set_alive alive index false) 0 (valid_free c tracenum index w)
free-Goes c w n alive tracenum index t live =
    let e = t.tracks.lives index live in
    let h = t.tracks.held e.0 e.1 in
    subst (λ j. Goes w n (set_alive alive j false) 0 (valid_free c tracenum j w)) e.2
      (valid_free-Goes c w n alive t.bs t.es e.0 t.tracks e.1
        (mm_free-Freed w.heap t.bs e.0.ptr e.0.extent t.tracks.heap h.used) tracenum)
