-- ===== src/Driver/Valid/FromFile.antt =====
-- What `read_trace` stores: but for the sizes of its requests FREE it is the trace in the file.
use malloc_jt.Base.{ℕ, suc, ◌≡◌, refl, arith, Bool, List, [], ◌∷◌}
use malloc_jt.Driver.{RequestType, TraceOp}
use malloc_jt.Driver.ReadTrace.Format.{as_stored, size_in}
use malloc_jt.Driver.Valid.Requests.{Plays, Allowed, alive_after, cost, demand}

-- What the size of a request FREE is makes no difference.
stored_Allowed :
    (fresh : ℕ → ℕ) (n i : ℕ) (alive : ℕ → Bool) (type : RequestType) (index size : ℕ)
    → Allowed n alive type index size
    → Allowed n alive type index (size_in fresh i type size)
stored_Allowed fresh n i alive RequestType.alloc index size a = a
stored_Allowed fresh n i alive RequestType.realloc index size a = a
stored_Allowed fresh n i alive RequestType.free index size a = a

pub stored_Plays :
    (fresh : ℕ → ℕ) (n i : ℕ) (alive : ℕ → Bool) (ops : List TraceOp)
    → Plays n alive ops
    → Plays n alive (as_stored fresh i ops)
stored_Plays fresh n i alive [] p = tt
stored_Plays fresh n i alive (op ∷ ops) p = (
  stored_Allowed fresh n i alive op.type op.index op.size p.0,
  stored_Plays fresh n (suc i) (alive_after alive op.type op.index) ops p.1,
)

stored_cost :
    (fresh : ℕ → ℕ) (i : ℕ) (type : RequestType) (size : ℕ)
    → cost type (size_in fresh i type size) ≡ cost type size
stored_cost fresh i RequestType.alloc size = refl
stored_cost fresh i RequestType.realloc size = refl
stored_cost fresh i RequestType.free size = refl

pub stored_demand :
    (fresh : ℕ → ℕ) (i : ℕ) (ops : List TraceOp) → demand (as_stored fresh i ops) ≡ demand ops
stored_demand fresh i [] = refl
stored_demand fresh i (op ∷ ops) =
    omega (arith, stored_cost fresh i op.type op.size, stored_demand fresh (suc i) ops)
