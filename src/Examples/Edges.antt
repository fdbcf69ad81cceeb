-- ===== src/Examples/Edges.antt =====
-- The theorems on full arenas, on huge requests and on the edges of `mm_realloc` at concrete inputs.
use malloc_jt.Base.{◌/◌, ◌+◌, ◌^◌, ◌≤◌, ◌<◌, ◌≡◌, ◌⊎◌, refl, arith, false}
use malloc_jt.Machine.{Ptr, null, minus_one, State, ok, fault, exited}
use malloc_jt.Memlib.{mem_sbrk}
use malloc_jt.Memlib.Sbrk.{mem_sbrk_lem}
use malloc_jt.Mm.{mm_init, mm_malloc, mm_realloc, extend_heap}
use malloc_jt.Mm.Extend.{extend_heap-full}
use malloc_jt.Mm.Init.{IsReset, mm_init-full}
use malloc_jt.Mm.Limits.{mm_malloc-fault, mm_realloc-edges}
use malloc_jt.Mm.Malloc.{Granted, Refused}
use malloc_jt.Examples.Arena.{reset, small, small_blocks, small-IsHeap}

-- An arena of 4000 bytes.
abbrev tight : State
tight = record reset { mem_max_addr = 8096 }

tight-IsReset : IsReset tight
tight-IsReset = omega arith

mm_init-full_example :
    (t : State) × (mm_init tight ≡ ok false t) × (t.mem_start_brk ≡ 4096) × (t.mem_max_addr ≡ 8096)
mm_init-full_example = mm_init-full tight tight-IsReset (omega arith)

extend_heap-full_example : extend_heap (2 ^ 30 / 4) small ≡ ok null small
extend_heap-full_example =
    extend_heap-full small small_blocks (2 ^ 30) small-IsHeap refl (omega arith) (omega arith)

mem_sbrk_lem_example :
    ((24 < 2 ^ 31)
      × (4152 + 24 ≤ small.mem_max_addr)
      × (mem_sbrk 24 small ≡ ok 4152 (record small { mem_brk = 4176 })))
    ⊎ (((2 ^ 31 ≤ 24) ⊎ (small.mem_max_addr < 4152 + 24))
        × (mem_sbrk 24 small ≡ ok minus_one small))
mem_sbrk_lem_example = mem_sbrk_lem small 24 (omega arith) (omega arith) (omega arith)

mm_malloc-fault_example : mm_malloc (2 ^ 31) small ≡ fault
mm_malloc-fault_example =
    mm_malloc-fault small small_blocks (2 ^ 31) small-IsHeap (omega arith) (omega arith)
      (omega arith)

mm_realloc-edges_example :
    ((Granted small small_blocks 10 (mm_malloc 10 small) × (mm_realloc null 10 small ≡ fault))
      ⊎ (Refused small small_blocks 10 (mm_malloc 10 small) × (mm_realloc null 10 small ≡ exited)))
    × ((p : Ptr) → mm_realloc p 0 small ≡ exited)
mm_realloc-edges_example =
    mm_realloc-edges small small_blocks 10 small-IsHeap (omega arith) (omega arith)
