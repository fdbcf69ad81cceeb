-- ===== src/Checker/Blocks.antt =====
-- `printblock` and `checkblock` at a block of a well-formed heap.
use malloc_jt.Base.{
  bit_and, ℕ, ◌+◌, ◌-◌, ◌%◌, ◌≤◌, ◌<◌, ◌≡◌, refl, arith, Bool, true, false, not, List, [], ◌∷◌,
  ◌++◌, u64, ◌==◌,
}
use malloc_jt.Machine.{Ptr, word, State, ok}
use malloc_jt.Heap.{Block, bit, tag, total, IsBlock, Layout}
use malloc_jt.Mm.{get_size, get_alloc, hdrp, next_blkp}
use malloc_jt.Mm.Steps.{
  Tagged, get_lem, get_size_lem, get_alloc_lem, size_at, alloc_at, hdrp_lem, ftrp_lem,
  next_blkp_lem,
}
use malloc_jt.Mm.Coalesce.Reads.{Tagged-footer}
use malloc_jt.Mm.Retag.{block_at, block_end, header_at}
use malloc_jt.Checker.{Message, block_line, printblock, checkblock}

-- A line for each block, as its tags have it.
unfoldable pub listing : Ptr → List Block → List Message
listing a [] = []
listing a (b ∷ bs) = block_line a b.size b.alloc b.size b.alloc ∷ listing (a + b.size) bs

pub not-bit : (x : Bool) → not (bit x == 0) ≡ x
not-bit true = refl
not-bit false = refl

pub get_size_any :
    (s : State) (p : ℕ)
    → s.mem_start_brk ≤ p
    → p + 4 ≤ s.mem_max_addr
    → (n : ℕ) × (get_size p s ≡ ok n s)
unfolding get_size
get_size_any s p h k = (bit_and (word s.bytes p) 0xffff_fff8, rw (get_lem s p h k))

pub get_alloc_any :
    (s : State) (p : ℕ)
    → s.mem_start_brk ≤ p
    → p + 4 ≤ s.mem_max_addr
    → (n : ℕ) × (get_alloc p s ≡ ok n s)
unfolding get_alloc
get_alloc_any s p h k = (bit_and (word s.bytes p) 1, rw (get_lem s p h k))

module _ (s : State) (pre : List Block) (b : Block) (post : List Block)
    (l : Layout s (pre ++ (b ∷ post))) where
  abbrev pub here : Ptr
  here = s.mem_start_brk + 8 + total pre

  pub in_space : here + b.size < u64
  in_space = omega (arith, block_end pre b post l, l.room, l.small)

  pub footer_at : Tagged s (here + b.size - 8) b
  footer_at =
      Tagged-footer (block_at pre b post l) (omega arith)
        (omega (arith, block_end pre b post l, l.room)) (omega (arith, l.small))

  abbrev pub is : IsBlock s.bytes here b
  is = block_at pre b post l

  pub printblock_lem : printblock here s ≡ ok (block_line here b.size b.alloc b.size b.alloc ∷ []) s
  unfolding printblock
  printblock_lem =
      let t = header_at pre b post l in
      let f = footer_at in
      let big : (b.size == 0) ≡ false = ground (arith, is.least) in
      rw (
        size_at s here b t (omega arith),
        alloc_at s here b t (omega arith),
        ftrp_lem s here b t (omega arith) in_space,
        get_size_lem f,
        ftrp_lem s here b t (omega arith) in_space,
        get_alloc_lem f,
        big,
        not-bit b.alloc,
      )

  pub checkblock_lem : here % 8 ≡ 0 → checkblock here s ≡ ok [] s
  unfolding checkblock
  checkblock_lem e =
      let t = header_at pre b post l in
      let f = footer_at in
      let same : (tag b == tag b) ≡ true = ground arith in
      let at : hdrp here ≡ here - 4 = hdrp_lem here (omega arith) (omega (arith, in_space)) in
      rw (
        at,
        get_lem s (here - 4) t.low t.high,
        t.holds,
        ftrp_lem s here b t (omega arith) in_space,
        get_lem s (here + b.size - 8) f.low f.high,
        f.holds,
        e,
        same,
      )

  pub next_lem : next_blkp here s ≡ ok (here + b.size) s
  next_lem = next_blkp_lem s here b (header_at pre b post l) (omega arith) in_space

  pub size_lem : get_size (hdrp here) s ≡ ok b.size s
  size_lem = size_at s here b (header_at pre b post l) (omega arith)
