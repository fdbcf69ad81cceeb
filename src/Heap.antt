-- ===== src/Heap.antt =====
-- The list of blocks that a heap of mm.c holds: boundary tags round each block, one block after the
-- other, and the epilogue's header at the end.
pub mod Gap
pub mod Prologue
pub mod Marked
pub mod Cut
pub mod NextFit
pub mod Payload
pub mod Segments
pub mod Widened
pub mod Lists
use malloc_jt.Base.{
  ℕ, ◌+◌, ◌-◌, ◌%◌, ◌^◌, ◌≤◌, ◌<◌, ◌≡◌, ◌⊎◌, Bool, true, false, List, [], ◌∷◌, if◌then◌else◌, u64,
}
use malloc_jt.Machine.{Ptr, Bytes, word, State}
use malloc_jt.Memlib.{max_heap}

pub record Block : Type 0 where
  pub size : ℕ
  pub alloc : Bool

abbrev pub free_block : ℕ → Block
free_block n = record { size = n; alloc = false }

abbrev pub used_block : ℕ → Block
used_block n = record { size = n; alloc = true }

abbrev pub prologue : Block
prologue = used_block 8

-- The allocated bit, and the word that carries it with the size.
abbrev pub bit : Bool → ℕ
bit b = if b then 1 else 0

abbrev pub tag : Block → ℕ
tag b = b.size + bit b.alloc

abbrev pub total : List Block → ℕ
total [] = 0
total (b ∷ bs) = b.size + total bs

-- A block with its payload at `a`: header before it, footer at the end.
pub record IsBlock (m : Bytes) (a : Ptr) (b : Block) : Type 0 where
  pub header : word m (a - 4) ≡ tag b
  pub footer : word m (a + b.size - 8) ≡ tag b
  pub least : 8 ≤ b.size
  pub eights : b.size % 8 ≡ 0

-- Blocks that follow one another from payload address `a` on.
abbrev pub Segment : Bytes → Ptr → List Block → Type 0
Segment m a [] = Unit
Segment m a (b ∷ bs) = IsBlock m a b × Segment m (a + b.size) bs

-- The arena is aligned and ends 2^32 bytes below 2^64 at least; the blocks fill the heap from its second double word
-- to the epilogue at `mem_brk`.
pub record Layout (s : State) (bs : List Block) : Type 0 where
  pub not_low : 8 ≤ s.mem_start_brk
  pub aligned : s.mem_start_brk % 8 ≡ 0
  pub limit : s.mem_max_addr ≤ s.mem_start_brk + max_heap
  pub small : s.mem_max_addr + 2 ^ 32 < u64
  pub listp : s.heap_listp ≡ s.mem_start_brk + 8
  pub blocks : Segment s.bytes (s.mem_start_brk + 8) bs
  pub brk : s.mem_brk ≡ s.mem_start_brk + 8 + total bs
  pub room : s.mem_brk ≤ s.mem_max_addr
  pub epilogue : word s.bytes (s.mem_brk - 4) ≡ 1

-- The block that starts at `c` in a row of blocks from `a` on.
abbrev pub Holds : Ptr → List Block → Ptr → Block → Type 0
Holds a [] c b = ⊥
Holds a (x ∷ xs) c b = ((c ≡ a) × (b ≡ x)) ⊎ Holds (a + x.size) xs c b

-- The payload address of the first block behind the prologue.
abbrev pub first_block : State → Ptr
first_block s = s.mem_start_brk + 8 + 8

-- One of the blocks starts at `t`.
abbrev pub StartsAt : Ptr → List Block → Ptr → Type 0
StartsAt a bs t = (b : Block) × Holds a bs t b

-- No two free blocks are neighbours; `before` says whether the block in front is allocated.
abbrev pub Compact : Bool → List Block → Type 0
Compact before [] = Unit
Compact before (b ∷ bs) = ((before ≡ true) ⊎ (b.alloc ≡ true)) × Compact b.alloc bs

abbrev pub Roomy : List Block → Type 0
Roomy [] = Unit
Roomy (b ∷ bs) = (16 ≤ b.size) × Roomy bs

-- The invariant of mm.c. `bs` are the blocks between prologue and epilogue: no two free ones are
-- neighbours, each takes 16 bytes at least, and `temp` points at a block.
pub record IsHeap (s : State) (bs : List Block) : Type 0 where
  pub layout : Layout s (prologue ∷ bs)
  pub roomy : Roomy bs
  pub compact : Compact true bs
  pub rover : StartsAt (s.mem_start_brk + 8) (prologue ∷ bs) s.temp
