-- ===== src/Examples/Clients.antt =====
-- An application that allocates, writes, reallocates and frees, and the theorems at it.
use malloc_jt.Base.{◌+◌, ◌≡◌, refl, inl, arith, true, List, [], ◌∷◌}
use malloc_jt.Machine.{State, Outcome, ok, fault, exited, out_of_fuel, word, write_word}
use malloc_jt.Memlib.{mem_sbrk}
use malloc_jt.Mm.{
  mm_init, mm_malloc, mm_realloc, mm_free, max, pack, get, put, get_size, get_alloc, hdrp, ftrp,
  next_blkp, prev_blkp, put_tags, move_temp, merge_next, merge_prev, merge_both, coalesce,
  extend_heap, fits, scan_to_end, scan_to_old, find_fit, place, adjust, memcpy,
}
use malloc_jt.Client.{
  Lease, memory_at, store_in, leased, carried, poke, Reach, starts, then_steps, mallocs, writes,
  reallocs,
}
use malloc_jt.Client.Keeps.{Keeps}
use malloc_jt.Client.Runs.{Reach-Keeps, Serves, Reach-Serves}
use malloc_jt.Examples.Arena.{reset, reset-IsReset}

abbrev state_after : {A : Type 0} → Outcome A → State
state_after (ok a s) = s
state_after fault = reset
state_after exited = reset
state_after out_of_fuel = reset

abbrev s0 : State
s0 = state_after (mm_init reset)

abbrev s1 : State
s1 = state_after (mm_malloc 5 s0)

abbrev ls1 : List Lease
ls1 = leased 4112 5 s1 []

init_runs : mm_init reset ≡ ok true s0
unfolding max pack get put get_size get_alloc hdrp ftrp next_blkp prev_blkp put_tags move_temp
    merge_next merge_prev merge_both coalesce extend_heap mm_init fits scan_to_end scan_to_old
    find_fit mm_free place adjust mm_malloc memcpy mm_realloc word write_word mem_sbrk
init_runs = refl

malloc_runs : mm_malloc 5 s0 ≡ ok 4112 s1
unfolding max pack get put get_size get_alloc hdrp ftrp next_blkp prev_blkp put_tags move_temp
    merge_next merge_prev merge_both coalesce extend_heap mm_init fits scan_to_end scan_to_old
    find_fit mm_free place adjust mm_malloc memcpy mm_realloc word write_word mem_sbrk
malloc_runs = refl

abbrev here : Lease
here = record { ptr = 4112; size = 5; contents = memory_at s1 4112 }

abbrev filled : Lease
filled = store_in 4112 3 7 here

abbrev s2 : State
s2 = poke s1 (4112 + 3) 7

abbrev s3 : State
s3 = state_after (mm_realloc 4112 30 s2)

realloc_runs : mm_realloc 4112 30 s2 ≡ ok 4128 s3
unfolding max pack get put get_size get_alloc hdrp ftrp next_blkp prev_blkp put_tags move_temp
    merge_next merge_prev merge_both coalesce extend_heap mm_init fits scan_to_end scan_to_old
    find_fit mm_free place adjust mm_malloc memcpy mm_realloc word write_word mem_sbrk
realloc_runs = refl

abbrev ls3 : List Lease
ls3 = carried filled 4128 30 s3 ∷ []

reach : Reach reset s3 ls3
reach =
    then_steps
      (then_steps
        (then_steps (starts s0 init_runs)
          (mallocs 5 4112 s1 (omega arith) (omega arith) malloc_runs))
        (writes here 3 7 (inl refl) (omega arith)))
      (reallocs filled 30 4128 s3 (inl refl) (omega arith) (omega arith) realloc_runs)

Reach-Keeps_example : Keeps s3 ls3
Reach-Keeps_example = Reach-Keeps reset-IsReset (omega arith) reach

Reach-Serves_example : Serves s3 ls3
Reach-Serves_example = Reach-Serves reset-IsReset (omega arith) reach
