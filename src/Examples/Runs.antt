-- ===== src/Examples/Runs.antt =====
-- `eval_mm_valid` on a trace that allocates, reallocates and frees.
use malloc_jt.Base.{ℕ, ◌+◌, ◌≤◌, ◌<◌, ◌≡◌, refl, arith, true, [], ◌∷◌}
use malloc_jt.Mm.{max, adjust}
use malloc_jt.Mm.Malloc.{growth}
use malloc_jt.Driver.{RequestType, TraceOp, Trace, World, done}
use malloc_jt.Driver.Valid.{eval_mm_valid}
use malloc_jt.Driver.Valid.Passes.{IsArena, nobody, eval_mm_valid-passes}
use malloc_jt.Driver.Valid.Short.{Ends, eval_mm_valid-Ends}
use malloc_jt.Driver.Valid.Requests.{Generous, Plays, demand}
use malloc_jt.Examples.Arena.{reset}
use malloc_jt.Examples.Ranges.{bump}

abbrev request : RequestType → ℕ → ℕ → TraceOp
request type index size = record { type = type; index = index; size = size }

abbrev pub trace : Trace
trace = record {
  num_ids = 2;
  ops =
      request RequestType.alloc 0 100
      ∷ request RequestType.alloc 1 5000
      ∷ request RequestType.realloc 0 300
      ∷ request RequestType.free 1 0
      ∷ request RequestType.free 0 0
      ∷ [];
}

abbrev pub fresh_world : World ℕ
fresh_world = record {
  heap = reset;
  libc = 100;
  ranges = [];
  blocks = 0 ∷ 0 ∷ [];
  block_sizes = 0 ∷ 0 ∷ [];
  errors = 0;
  reports = [];
}

pub bump-Generous : Generous bump
bump-Generous k m e = omega (arith, e)

pub reset-IsArena : IsArena reset
reset-IsArena = record {
  not_low = omega arith;
  aligned = refl;
  limit = omega arith;
  small = omega arith;
}

pub plays : Plays 2 nobody trace.ops
plays = (
  (refl, omega arith, (omega arith, omega arith)),
  (
    (refl, omega arith, (omega arith, omega arith)),
    ((refl, omega arith, omega arith, (omega arith, omega arith)), (refl, (refl, tt))),
  ),
)

pub room : 4096 + 4112 + demand trace.ops ≤ reset.mem_max_addr
unfolding growth max adjust
room = omega arith

eval_mm_valid-passes_example :
    (v : World ℕ) × (eval_mm_valid bump 0 trace fresh_world ≡ done true v)
    × (v.errors ≡ 0)
    × (v.reports ≡ [])
eval_mm_valid-passes_example =
    eval_mm_valid-passes bump 0 2 trace fresh_world bump-Generous reset-IsArena refl refl plays room

-- An arena with room for the first block only.
abbrev pub tight_world : World ℕ
tight_world = record fresh_world { heap = record reset { mem_max_addr = 13096 } }

pub tight-IsArena : IsArena tight_world.heap
tight-IsArena = record {
  not_low = omega arith;
  aligned = refl;
  limit = omega arith;
  small = omega arith;
}

eval_mm_valid-Ends_example :
    Ends tight_world 0 0 trace.ops
      (13096 < 4096 + 4112 + demand trace.ops)
      (eval_mm_valid bump 0 trace tight_world)
eval_mm_valid-Ends_example =
    eval_mm_valid-Ends bump 0 2 trace tight_world bump-Generous tight-IsArena (omega arith) refl
      refl plays
