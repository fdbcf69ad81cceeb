-- ===== src/Examples/Files.antt =====
-- A file with a trace, read; and the functions that are timed, on the same trace.
use malloc_jt.Base.{
  ℕ, ◌⊎◌, ◌<◌, ◌≤◌, ◌+◌, ◌≡◌, refl, arith, Option, true, none, some, List, [], ◌∷◌,
}
use malloc_jt.Driver.{World, done, stopped}
use malloc_jt.Driver.ReadTrace.{Scanner, read_trace}
use malloc_jt.Driver.ReadTrace.Format.{Token, number, word, Reads, IsTrace, written}
use malloc_jt.Driver.ReadTrace.Written.{Read, read_trace-written}
use malloc_jt.Driver.Standard.{eval_libc_valid, eval_libc_speed}
use malloc_jt.Driver.Standard.Agree.{Agrees, eval_libc_valid-eval_libc_speed}
use malloc_jt.Driver.Util.{eval_mm_util, eval_mm_speed}
use malloc_jt.Driver.Util.Agree.{unsized, eval_mm_speed-unsized}
use malloc_jt.Driver.Util.Measured.{eval_mm_util-Ends}
use malloc_jt.Memlib.{mem_heapsize}
use malloc_jt.Driver.Valid.Requests.{demand}
use malloc_jt.Main.{Host}
use malloc_jt.Main.Evaluated.{Evaluated}
use malloc_jt.Examples.Ranges.{bump}
use malloc_jt.Examples.Runs.{trace, fresh_world, bump-Generous, plays, tight_world, tight-IsArena}

abbrev take_number : List Token → Option (ℕ × List Token)
take_number [] = none
take_number (number n ∷ ts) = some (n, ts)
take_number (word ch ∷ ts) = none

abbrev take_word : List Token → Option (ℕ × List Token)
take_word [] = none
take_word (number n ∷ ts) = none
take_word (word ch ∷ ts) = some (ch, ts)

abbrev tokens : Scanner (List Token)
tokens = record {
  scan_int = take_number;
  scan_unsigned = take_number;
  scan_unsigned_d = take_number;
  scan_word = take_word;
}

pub tokens-Reads : Reads tokens (λ ts. ts)
tokens-Reads = record {
  ints = λ f n ts h e. (ts, rw e refl, refl);
  unsigneds = λ f n ts h e. (ts, rw e refl, refl);
  unsigned_ds = λ f n ts h e. (ts, rw e refl, refl);
  words = λ f ch ts e. (ts, rw e refl, refl);
  at_end = λ f e. rw e refl;
}

pub trace-IsTrace : IsTrace trace
trace-IsTrace = record {
  narrow = omega arith;
  ids = refl;
  few_ids = omega arith;
  few_ops = omega arith;
}

abbrev pub file : List Token
file = written 20000 1 trace

read_trace-written_example :
    Read (λ i. 0) trace fresh_world (read_trace bump tokens (λ i. 0) 9 (some file) fresh_world)
read_trace-written_example =
    read_trace-written bump tokens (λ ts. ts) (λ i. 0) 9 20000 1 trace file fresh_world
      bump-Generous tokens-Reads trace-IsTrace (omega arith) (omega arith) refl (omega arith)

eval_libc_valid-eval_libc_speed_example :
    Agrees fresh_world 0 0 trace.ops true tt
      (eval_libc_valid bump trace 0 fresh_world)
      (eval_libc_speed bump trace fresh_world)
eval_libc_valid-eval_libc_speed_example = eval_libc_valid-eval_libc_speed bump 0 trace fresh_world

eval_mm_speed-unsized_example :
    eval_mm_speed trace fresh_world ≡ unsized (0 ∷ 0 ∷ []) (eval_mm_util trace fresh_world)
eval_mm_speed-unsized_example = eval_mm_speed-unsized trace fresh_world refl

eval_mm_util-Ends_example :
    ((v : World ℕ) × (eval_mm_util trace tight_world ≡ done (5300, mem_heapsize v.heap) v)
      × (mem_heapsize v.heap ≤ 4112 + demand trace.ops)
      × (v.errors ≡ 0)
      × (v.reports ≡ []))
    ⊎ ((13096 < 4096 + 4112 + demand trace.ops) × (eval_mm_util trace tight_world ≡ stopped []))
eval_mm_util-Ends_example =
    eval_mm_util-Ends 2 trace tight_world tight-IsArena (omega arith) refl refl plays (omega arith)

-- Every path leads to the file.
abbrev pub disk : Host ℕ (List Token)
disk = record { fopen = λ path. some file; scanner = tokens; fresh = λ i. 0; cell = λ p i. 0 }
