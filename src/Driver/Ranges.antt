-- ===== src/Driver/Ranges.antt =====
-- The range list of mdriver.c: `add_range`, `remove_range` and `clear_ranges`.
pub mod Accept
use malloc_jt.Base.{
  ℕ, zero, suc, ◌+◌, ◌-◌, ◌%◌, Bool, true, false, not, ◌&&◌, ◌||◌, Option, none, some, List, [],
  ◌∷◌, ltb, leb, ◌==◌, if◌then◌else◌, int_gt,
}
use malloc_jt.Machine.{Ptr, null, padd, psub}
use malloc_jt.Memlib.{mem_heap_lo, mem_heap_hi}
use malloc_jt.Driver.{
  Libc, Range, Complaint, not_aligned, outside_heap, overlap, World, Result, Run, done, aborted,
  give, ◌>>=◌, ◌>>◌, to_size_t, malloc_error, unix_error, libc_malloc, libc_free,
}

-- `hi = lo + size - 1`
unfoldable pub last_byte : Ptr → ℕ → Ptr
last_byte lo size = psub (padd lo (to_size_t size)) 1

abbrev pub alignment : ℕ
alignment = 8

-- The test that `add_range` makes of each range of the list.
unfoldable pub overlaps : Ptr → Ptr → Range → Bool
overlaps lo hi p = (leb p.lo lo && leb lo p.hi) || (leb p.lo hi && leb hi p.hi)

-- The first range of the list for which the test holds.
unfoldable pub find_overlap : Ptr → Ptr → List Range → Option Range
find_overlap lo hi [] = none
find_overlap lo hi (p ∷ ps) = if overlaps lo hi p then some p else find_overlap lo hi ps

-- The extent lies outside the heap.
unfoldable pub outside : Ptr → Ptr → Ptr → Ptr → Bool
outside heap_lo heap_hi lo hi = ltb lo heap_lo || ltb heap_hi lo || ltb hi heap_lo || ltb heap_hi hi

-- The list without its first range that starts at `lo`, and that range.
unfoldable pub unlink : Ptr → List Range → Option (Range × List Range)
unlink lo [] = none
unlink lo (p ∷ ps) =
    let rest = unlink lo ps in
    if p.lo == lo then some (p, ps) else elim rest [ none ↦ none | some r ↦ some (r.0, p ∷ r.1) ]

module _ {M : Type 0} (c : Libc M) where
  -- The new node of the list takes 24 bytes.
  unfoldable pub record_range : Ptr → Ptr → Run M Bool
  record_range lo hi = do
    p ← libc_malloc c 24
    if p == null then unix_error else (λ w.
        done true (record w { ranges = record { node = p; lo = lo; hi = hi } ∷ w.ranges }))

  -- 1 or 0, as a Boolean.
  unfoldable pub add_range : Ptr → ℕ → ℕ → ℕ → Run M Bool
  add_range lo size tracenum opnum w =
      if not (int_gt size 0)
      then aborted
      else (let hi = last_byte lo size in
          if not (lo % alignment == 0)
          then (malloc_error tracenum opnum (not_aligned lo) >> give false) w
          else if outside (mem_heap_lo w.heap) (mem_heap_hi w.heap) lo hi
          then (malloc_error tracenum opnum (outside_heap lo hi) >> give false) w
          else elim (find_overlap lo hi w.ranges) [
            | some p ↦ (malloc_error tracenum opnum (overlap lo hi p) >> give false) w
            | none ↦ record_range lo hi w
          ])

  unfoldable pub remove_range : Ptr → Run M (Unit {0})
  remove_range lo w = elim (unlink lo w.ranges) [
    | none ↦ done tt w
    | some r ↦ libc_free c r.0.node (record w { ranges = r.1 })
  ]

  unfoldable pub free_nodes : List Range → M → M
  free_nodes [] m = m
  free_nodes (p ∷ ps) m = free_nodes ps (c.free p.node m)

  unfoldable pub clear_ranges : Run M (Unit {0})
  clear_ranges w = done tt (record w { ranges = []; libc = free_nodes w.ranges w.libc })
