-- ===== src/Examples/Malloc.antt =====
-- The theorems on `mm_init`, `mm_malloc`, `mm_free` and `mm_realloc` at concrete inputs.
use malloc_jt.Base.{◌≡◌, refl, inl, arith}
use malloc_jt.Mm.{mm_malloc, mm_free, mm_realloc, mm_init}
use malloc_jt.Base.{◌⊎◌}
use malloc_jt.Machine.{exited}
use malloc_jt.Mm.Realloc.{Moved, mm_realloc-Moved}
use malloc_jt.Mm.Free.{Freed, mm_free-Freed}
use malloc_jt.Mm.Malloc.{Granted, Refused, mm_malloc-Granted}
use malloc_jt.Mm.Init.{Booted, mm_init-Booted}
use malloc_jt.Examples.Arena.{reset, reset-IsReset, small, small_blocks, small-IsHeap}

mm_init-Booted_example : Booted reset (mm_init reset)
mm_init-Booted_example = mm_init-Booted reset reset-IsReset (omega arith)

mm_free-Freed_example : Freed small small_blocks 4112 (mm_free 4112 small)
mm_free-Freed_example = mm_free-Freed small small_blocks 4112 16 small-IsHeap (inl (refl, refl))

mm_malloc-Granted_example :
    Granted small small_blocks 10 (mm_malloc 10 small)
    ⊎ Refused small small_blocks 10 (mm_malloc 10 small)
mm_malloc-Granted_example =
    mm_malloc-Granted small small_blocks 10 small-IsHeap (omega arith) (omega arith)

mm_realloc-Moved_example :
    Moved small small_blocks 4112 16 30 (mm_realloc 4112 30 small)
    ⊎ (Refused small small_blocks 30 (mm_malloc 30 small) × (mm_realloc 4112 30 small ≡ exited))
mm_realloc-Moved_example =
    mm_realloc-Moved small small_blocks 4112 16 30 small-IsHeap (inl (refl, refl)) (omega arith)
      (omega arith)
