-- ===== src/Driver/ReadTrace/Format.antt =====
-- The format of a trace file, and what is read from it.
use malloc_jt.Base.{larger, ℕ, suc, ◌^◌, ◌<◌, ◌≡◌, none, some, List, [], ◌∷◌, length, u32}
use malloc_jt.Driver.{RequestType, TraceOp, Trace}
use malloc_jt.Driver.ReadTrace.{Scanner}

-- A file as the numbers and words that are left in it; of a word, the first character.
pub data Token : Type 0 where
  number : ℕ → Token
  word : ℕ → Token

-- `fscanf` reads what stands in the file: `%d` a number below 2^31, `%u` and `%ud` one
-- below 2^32, whether the letter d follows or not, and `%s` a word, or reports the end of the file.
pub record Reads {F : Type 0} (sc : Scanner F) (text : F → List Token) : Type 0 where
  pub ints :
      (f : F) (n : ℕ) (ts : List Token)
      → n < 2 ^ 31
      → text f ≡ number n ∷ ts
      → (g : F) × (sc.scan_int f ≡ some (n, g)) × (text g ≡ ts)
  pub unsigneds :
      (f : F) (n : ℕ) (ts : List Token)
      → n < u32
      → text f ≡ number n ∷ ts
      → (g : F) × (sc.scan_unsigned f ≡ some (n, g)) × (text g ≡ ts)
  pub unsigned_ds :
      (f : F) (n : ℕ) (ts : List Token)
      → n < u32
      → text f ≡ number n ∷ ts
      → (g : F) × (sc.scan_unsigned_d f ≡ some (n, g)) × (text g ≡ ts)
  pub words :
      (f : F) (ch : ℕ) (ts : List Token)
      → text f ≡ word ch ∷ ts
      → (g : F) × (sc.scan_word f ≡ some (ch, g)) × (text g ≡ ts)
  pub at_end : (f : F) → text f ≡ [] → sc.scan_word f ≡ none

-- A line of a trace file: `a index size`, `r index size` or `f index`.
abbrev pub line : RequestType → ℕ → ℕ → List Token → List Token
line RequestType.alloc index size ts = word 97 ∷ number index ∷ number size ∷ ts
line RequestType.realloc index size ts = word 114 ∷ number index ∷ number size ∷ ts
line RequestType.free index size ts = word 102 ∷ number index ∷ ts

abbrev pub lines : List TraceOp → List Token
lines [] = []
lines (op ∷ ops) = line op.type op.index op.size (lines ops)

-- The whole file: the suggested size of the heap, the number of ids, that of requests, and the weight.
abbrev pub written : (heapsize weight : ℕ) → Trace → List Token
written heapsize weight trace =
    number heapsize
    ∷ number trace.num_ids
    ∷ number (length trace.ops)
    ∷ number weight
    ∷ lines trace.ops

-- The size of a request FREE is not in the file: the array keeps what the memory held.
abbrev pub size_in : (ℕ → ℕ) → ℕ → RequestType → ℕ → ℕ
size_in fresh i RequestType.alloc size = size
size_in fresh i RequestType.realloc size = size
size_in fresh i RequestType.free size = fresh i

abbrev pub as_stored : (ℕ → ℕ) → ℕ → List TraceOp → List TraceOp
as_stored fresh i [] = []
as_stored fresh i (op ∷ ops) =
    record { type = op.type; index = op.index; size = size_in fresh i op.type op.size }
    ∷ as_stored fresh (suc i) ops

abbrev pub id_in : RequestType → ℕ → ℕ
id_in RequestType.alloc index = index
id_in RequestType.realloc index = index
id_in RequestType.free index = 0

-- The largest id that is allocated or reallocated.
abbrev pub top : List TraceOp → ℕ
top [] = 0
top (op ∷ ops) = larger (id_in op.type op.index) (top ops)

-- The numbers of each request fit their types.
abbrev pub Narrow : List TraceOp → Type 0
Narrow [] = Unit {0}
Narrow (op ∷ ops) = (op.index < 2 ^ 31) × (op.size < u32) × Narrow ops

-- A trace that can be written to a file and read again.
pub record IsTrace (trace : Trace) : Type 0 where
  pub narrow : Narrow trace.ops
  pub ids : suc (top trace.ops) ≡ trace.num_ids
  pub few_ids : trace.num_ids < 2 ^ 31
  pub few_ops : length trace.ops < 2 ^ 31
