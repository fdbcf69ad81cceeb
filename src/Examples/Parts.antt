-- ===== src/Examples/Parts.antt =====
-- The theorems on the steps of the allocator at concrete inputs.
use malloc_jt.Base.{◌≡◌, refl, inl, arith, true, false, [], ◌∷◌}
use malloc_jt.Machine.{ok}
use malloc_jt.Heap.{used_block, prologue}
use malloc_jt.Heap.Gap.{gap}
use malloc_jt.Heap.NextFit.{next_fit}
use malloc_jt.Mm.{find_fit, place, extend_heap, coalesce, adjust}
use malloc_jt.Mm.Coalesce.Settle.{Settled, coalesce-Settled}
use malloc_jt.Mm.Coalesce.Widen.{Coalesced, coalesce-Coalesced}
use malloc_jt.Mm.Extend.{grown, extend_heap-Settled}
use malloc_jt.Mm.FindFit.{found, rover, find_fit-next_fit}
use malloc_jt.Mm.Malloc.{Adjusted, adjust-Adjusted}
use malloc_jt.Mm.Place.Grant.{PlacedAt, place-PlacedAt}
use malloc_jt.Checker.{mm_checkheap}
use malloc_jt.Checker.Clean.{clean_report, mm_checkheap-clean}
use malloc_jt.Checker.Sound.{Checks, mm_checkheap-Checks}
use malloc_jt.Driver.Valid.Passes.{IsArena}
use malloc_jt.Examples.Arena.{small, small_blocks, small-IsHeap, small-Layout}

coalesce-Settled_example : Settled small (used_block 16 ∷ []) 24 [] (coalesce 4128 small)
coalesce-Settled_example =
    coalesce-Settled (used_block 16 ∷ []) 24 [] small-Layout (omega arith, tt) (omega arith) tt
      (inl refl, tt) tt (prologue, inl (refl, refl))

coalesce-Coalesced_example :
    Coalesced small
      (gap (prologue ∷ []) (used_block 16) 24 [])
      (prologue ∷ small_blocks)
      (coalesce 4128 small)
coalesce-Coalesced_example =
    coalesce-Coalesced small (prologue ∷ []) (used_block 16) 24 [] small-Layout

find_fit-next_fit_example :
    find_fit 24 small
    ≡ found small (
        next_fit 4104 24
          (rover small small_blocks small-IsHeap).pre
          (rover small small_blocks small-IsHeap).post)
find_fit-next_fit_example = find_fit-next_fit small small_blocks 24 small-IsHeap

place-PlacedAt_example : PlacedAt small small_blocks 16 4128 (place 4128 16 small)
place-PlacedAt_example =
    place-PlacedAt small small_blocks (prologue ∷ used_block 16 ∷ []) 24 [] 16 small-IsHeap refl
      (omega arith) refl (omega arith)

extend_heap-Settled_example :
    Settled (grown small 4096) small_blocks 4096 [] (extend_heap 1024 small)
extend_heap-Settled_example =
    extend_heap-Settled small small_blocks 4096 small-IsHeap (omega arith) refl (omega arith)
      (omega arith)

adjust-Adjusted_example : Adjusted 13 (adjust 13)
adjust-Adjusted_example = adjust-Adjusted 13 (omega arith)

mm_checkheap-clean_example :
    mm_checkheap true small ≡ ok (clean_report true small small_blocks) small
mm_checkheap-clean_example = mm_checkheap-clean small small_blocks true small-IsHeap

small-IsArena : IsArena small
small-IsArena = record {
  not_low = omega arith;
  aligned = refl;
  limit = omega arith;
  small = omega arith;
}

mm_checkheap-Checks_example : Checks small (mm_checkheap false small)
mm_checkheap-Checks_example = mm_checkheap-Checks small small-IsArena false (omega arith)
