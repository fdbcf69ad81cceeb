-- ===== src/Memlib.antt =====
-- memlib.c: the simulated `brk`. The heap starts at `mem_start_brk` and ends below `mem_brk`, and
-- may grow up to `mem_max_addr`.
pub mod Sbrk
use malloc_jt.Base.{ℕ, ◌+◌, ◌-◌, ◌*◌, ◌%◌, ◌^◌, ◌||◌, ltb, ◌==◌, if◌then◌else◌, u32, u64, is_neg}
use malloc_jt.Machine.{Ptr, null, minus_one, padd, psub, State, exited, ok, Cmd}

-- MAX_HEAP of config.h.
abbrev pub max_heap : ℕ
max_heap = 400 * 2 ^ 20

-- `arena` is what `malloc(MAX_HEAP)` returns.
unfoldable pub mem_init : Ptr → Cmd (Unit {0})
mem_init arena s =
    if arena == null
    then exited
    else ok tt
        (record s { mem_start_brk = arena; mem_brk = arena; mem_max_addr = padd arena max_heap })

-- `release` is `free` of the C library, on its own memory.
unfoldable pub mem_deinit : {M : Type 0} → (release : Ptr → M → M) → State → M → M
mem_deinit release s m = release s.mem_start_brk m

unfoldable pub mem_reset_brk : Cmd (Unit {0})
mem_reset_brk s = ok tt (record s { mem_brk = s.mem_start_brk })

-- `incr` is an `int`, given by its bit pattern.
unfoldable pub mem_sbrk : ℕ → Cmd Ptr
mem_sbrk incr s =
    if is_neg incr || ltb s.mem_max_addr (padd s.mem_brk incr)
    then ok minus_one s
    else ok s.mem_brk (record s { mem_brk = padd s.mem_brk incr })

unfoldable pub mem_heap_lo : State → Ptr
mem_heap_lo s = s.mem_start_brk

unfoldable pub mem_heap_hi : State → Ptr
mem_heap_hi s = psub s.mem_brk 1

unfoldable pub mem_heapsize : State → ℕ
mem_heapsize s = psub s.mem_brk s.mem_start_brk

-- `page` is what `getpagesize` returns, an `int`.
unfoldable pub mem_pagesize : ℕ → ℕ
mem_pagesize page = if is_neg page then page + (u64 - u32) else page
