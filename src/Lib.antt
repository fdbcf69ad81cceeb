-- ===== src/Lib.antt =====
-- Malloc_JT: a storage allocator on an implicit free list with boundary tags, and the program that
-- tests it.
--
-- mm.c is the allocator, memlib.c the simulated `brk` it draws on, mdriver.c the driver that reads
-- traces of requests, runs them, checks every block and measures. The allocator calls `mem_sbrk`;
-- the driver calls `mm_init`, `mm_malloc`, `mm_realloc` and `mm_free`, resets the break with
-- `mem_reset_brk`, and asks for the heap's bounds.
--
-- Machine: bytes at addresses, the file-scope variables of mm.c and memlib.c (`heap_listp`, `temp`,
--   `mem_start_brk`, `mem_brk`, `mem_max_addr`) as one record `State`, and commands that read and
--   write it. An access outside the arena is the outcome `fault`, and `exit(1)` is `exited`.
--   A `uint32_t` wraps at 2^32 and a pointer at 2^64; words are stored low byte first.
-- Memlib: memlib.c. What `malloc(MAX_HEAP)`, `free` and `getpagesize` do is an argument of `mem_init`,
--   `mem_deinit` and `mem_pagesize`.
-- Mm: mm.c, one function for each function or macro; the cases of `coalesce` and the loops of
--   `find_fit` have functions of their own. Below it are the proofs: Steps and Tags (the macros),
--   Coalesce, Place, FindFit, Extend, Malloc, Free, Copy and Realloc, Init, and Limits (huge requests and
--   the edges of `mm_realloc`).
-- Heap: the abstract view, a list of blocks with their sizes and allocated bits, and the invariant
--   `IsHeap` that ties it to the bytes: tags at both ends of each block, prologue and epilogue, no
--   two free neighbours, `temp` at a block. `Used` says which blocks are allocated.
-- Checker: `mm_checkheap`, `printblock` and `checkblock` of mm.c; what they print is a list. Blocks and
--   Clean run it on a well-formed heap; Readings, Walked and Sound run it on any bytes.
-- Client: an application of mm.c, as steps that call it or write to a payload, with what it has stored.
--   Keeps, Moves and Runs follow it along any sequence of steps.
-- Driver: mdriver.c without `main`. Ranges is the range list; Valid, Util and Standard are the
--   `eval_` functions; Contents is the part of `eval_mm_valid` that looks at bytes; ReadTrace reads a
--   trace. The C library's `malloc`, `realloc`, `free` and `fscanf` are parameters, and a `char` is
--   signed. Arrays and Live relate the arrays of a trace and the range list to the allocated blocks
--   of the heap, and the modules below Valid follow a run of `eval_mm_valid` with them, Short where memory runs out. Peak, Carries,
--   Counts, Released, Tallies and Measured do so for `eval_mm_util`. Agree, below Util and Standard, compares
--   what is timed with what is checked, and Served runs a trace on the C library; Format is the format
--   of a trace file, which Lines and Written read back.
-- Timing: Sampler is fcyc.c, Clock is clock.c with the code of its three platforms, Wrappers is
--   ftimer.c and fsecs.c with the three methods of config.h. The file-scope variables of these files
--   are the record `Timing`. The type `double` and the system's clocks are parameters.
-- Main: `main` and `printresults` of mdriver.c, with the defaults of config.h and the team of mm.c.
--   Arguments takes the options as `getopt` hands them over, and CommandLine says what they come to;
--   Results holds the statistics; Measures, Evaluated and Standard follow one round of the loop over the
--   traces, for mm.c and for the C library, and Short does so where memory may run out. WholeRun follows `main` through all of them.
--   `main` calls `read_trace`, the `eval_` functions and `fsecs`, which runs one of them.
-- Examples: a small heap, runs of the driver, and the theorems at them.
--
-- Fuel: the loops of `find_fit` make at most one round for each block, and each block takes 8
-- bytes, so they run with the heap's size in bytes. The loop of `mm_checkheap` moves on by 8 bytes
-- at least until it ends or leaves the arena, whatever is in memory, so it runs with the arena's
-- size. The loops of `read_trace`, of `clear`, of `callibrate` and of `fcyc` run on a fuel that the
-- caller gives. `read_trace` makes a round for each line and one at the end, `clear` at most one
-- for each `int` of the cache and one at the end, `fcyc` at most `maxsamples`, and `callibrate` as
-- many as the clock takes.
--
-- The invariant asks for an arena that is aligned to 8 bytes, at least 8 bytes above address 0, at
-- most MAX_HEAP bytes long, and that ends 2^32 bytes below 2^64 at least.
--
-- The demand of a trace is the sum of the growth that each ALLOC and REALLOC may need, at least
-- CHUNKSIZE, with nothing taken off for the blocks that are freed and used again. It bounds what
-- mm.c takes, from far above: that of realloc-bal.rep, one of the default traces, is larger than the
-- arena, though the trace keeps few bytes in use. An arena with 4112 bytes and the demand always has
-- room; with less, memory may run out, and there are theorems for either case.
--
-- Not modelled: the texts of the error messages, what -V adds, and what the timers print; the grading
-- script; and the editor's copy of the template of mm.c.
pub mod Base
pub mod Machine
pub mod Memlib
pub mod Heap
pub mod Mm
pub mod Checker
pub mod Driver
pub mod Client
pub mod Timing
pub mod Main
pub mod Examples
