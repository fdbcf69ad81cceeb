-- ===== src/Driver/Util/Counts.antt =====
-- The requests ALLOC and REALLOC of `eval_mm_util`, with the total and the maximum.
use malloc_jt.Base.{
  larger, ℕ, ◌%◌, ◌^◌, ◌<◌, ◌≡◌, inl, inr, refl, arith, Bool, true, false, u32, add32, sub32,
}
use malloc_jt.Machine.{Ptr}
use malloc_jt.Heap.Payload.{Used-moved, not_null}
use malloc_jt.Mm.{mm_malloc, mm_realloc, adjust}
use malloc_jt.Mm.Malloc.{growth, Granted}
use malloc_jt.Mm.Realloc.{Moved}
use malloc_jt.Driver.{World, get_block, get_block_size, set_block, set_block_size}
use malloc_jt.Driver.Live.{set_alive}
use malloc_jt.Driver.Util.{Usage, util_alloc, util_realloc}
use malloc_jt.Driver.Util.Carries.{
  Carried, Carries, Counts, raise_lem, Entry, new_block, new_size, entered, entered-Carries,
}
use malloc_jt.Driver.Util.Peak.{set_size, sum_to, sum_to-set_size, size-sum_to}
use malloc_jt.Driver.Valid.Requests.{Served}

-- The total and the maximum before a request.
abbrev pub usage : ℕ → (ℕ → ℕ) → ℕ → Usage
usage n sizes m = record { total_size = sum_to n sizes; max_total_size = m }

module _ {M : Type 0} (w : World M) (n : ℕ) (alive : ℕ → Bool) (at : ℕ → Ptr) (sizes : ℕ → ℕ)
    (m index size : ℕ) (c : Carries w n alive at sizes) (inside : index < n)
    (narrow : sum_to n (set_size sizes index size) < 2 ^ 31) (max_narrow : m < 2 ^ 31) where
  pub alloc-Counts :
      alive index ≡ false
      → Served size
      → Granted w.heap c.bs size (mm_malloc size w.heap)
      → Counts w n
          (set_alive alive index true)
          (set_size sizes index size)
          (larger m (sum_to n (set_size sizes index size)))
          (growth (adjust size))
          (util_alloc index size (usage n sizes m) w)
  unfolding util_alloc
  alloc-Counts unused served g =
      let v = record w { heap = g.state } in
      let moved = λ (b k : ℕ). Used-moved w.heap g.state g.after b k g.same_arena.0 in
      let new = (moved g.block g.extent).0 ((g.used g.block g.extent).1 (inr (refl, refl))) in
      let y = not_null g.state g.after g.block g.extent g.heap new in
      let entry : Entry v n alive at sizes index g.block size = record {
        bs = g.after;
        extent = g.extent;
        heap = g.heap;
        blocks = c.blocks;
        block_sizes = c.block_sizes;
        inside = inside;
        fine = served.1;
        used = new;
        large = g.large;
        others = λ i a ne.
            let o = c.held i a in
            let apart = g.apart (at i) o.extent o.used in
            (
              record {
                extent = o.extent;
                used = (moved (at i) o.extent).0 ((g.used (at i) o.extent).1 (inl o.used));
                large = o.large;
                fine = o.fine;
                inside = o.inside;
                block = o.block;
                block_size = o.block_size;
              },
              λ q. omega (arith, q, apart, o.large, g.large),
            );
        apart = c.apart;
        dead = c.dead;
      } in
      let total : add32 (sum_to n sizes) size ≡ sum_to n (set_size sizes index size) =
        omega (arith, sum_to-set_size n sizes index size inside, c.dead index unused, narrow) in
      rw
        (
          g.returns,
          y,
          set_block,
          (new_block entry).returns,
          set_block_size,
          (new_size entry).returns,
          raise_lem _ _ m total narrow max_narrow,
        )
        (record {
          world = entered entry;
          returns = refl;
          at = _;
          carries = entered-Carries entry;
          same_arena = g.same_arena;
          break_at = g.grown_by;
          errors = refl;
          reports = refl;
        })

  pub realloc-Counts :
      alive index ≡ true
      → Served size
      → (h : Carried w n c.bs (at index) (sizes index) index)
      → Moved w.heap c.bs (at index) h.extent size (mm_realloc (at index) size w.heap)
      → Counts w n
          (set_alive alive index true)
          (set_size sizes index size)
          (larger m (sum_to n (set_size sizes index size)))
          (growth (adjust size))
          (util_realloc index size (usage n sizes m) w)
  unfolding util_realloc
  realloc-Counts live served h g =
      let v = record w { heap = g.state } in
      let moved = λ (b k : ℕ). Used-moved w.heap g.state g.after b k g.same_arena.0 in
      let new = (moved g.block g.extent).0 ((g.used g.block g.extent).1 (inr (refl, refl))) in
      let y = not_null g.state g.after g.block g.extent g.heap new in
      let entry : Entry v n alive at sizes index g.block size = record {
        bs = g.after;
        extent = g.extent;
        heap = g.heap;
        blocks = c.blocks;
        block_sizes = c.block_sizes;
        inside = inside;
        fine = served.1;
        used = new;
        large = g.large;
        others = λ i a ne.
            let o = c.held i a in
            let apart = g.apart (at i) o.extent o.used in
            let other = c.apart i index a live ne in
            (
              record {
                extent = o.extent;
                used = (moved (at i) o.extent).0 ((g.used (at i) o.extent).1 (inl (o.used, other)));
                large = o.large;
                fine = o.fine;
                inside = o.inside;
                block = o.block;
                block_size = o.block_size;
              },
              λ q. omega (arith, q, apart, o.large, g.large),
            );
        apart = c.apart;
        dead = c.dead;
      } in
      let total : add32 (sum_to n sizes) (sub32 size (sizes index % u32))
          ≡ sum_to n (set_size sizes index size) =
        omega (
          arith,
          sum_to-set_size n sizes index size inside,
          size-sum_to n sizes index inside,
          narrow,
          h.fine,
          served.1,
        ) in
      rw
        (
          get_block_size,
          h.block_size,
          get_block,
          h.block,
          g.returns,
          y,
          set_block,
          (new_block entry).returns,
          set_block_size,
          (new_size entry).returns,
          raise_lem _ _ m total narrow max_narrow,
        )
        (record {
          world = entered entry;
          returns = refl;
          at = _;
          carries = entered-Carries entry;
          same_arena = g.same_arena;
          break_at = g.grown_by;
          errors = refl;
          reports = refl;
        })
