-- ===== src/Mm/Extend.antt =====
-- `extend_heap`: a new free block at the end of the heap, merged with a free one in front of it.
use malloc_jt.Base.{
  ℕ, ◌+◌, ◌-◌, ◌/◌, ◌%◌, ◌^◌, ◌≤◌, ◌<◌, ◌≡◌, inl, refl, sym, subst, arith, false, List, [], ◌∷◌,
  ◌++◌, lt→ltb, le→ltb, u64, ◌==◌, is_neg, mul32,
}
use malloc_jt.Machine.{null, minus_one, padd, Bytes, write_word, State, ok}
use malloc_jt.Machine.Words.{Same, Same-write_word, Same-trans, Same-widen, word-write_self}
use malloc_jt.Memlib.{mem_sbrk}
use malloc_jt.Heap.{
  Block, free_block, used_block, prologue, total, tag, IsBlock, Segment, Layout, IsHeap,
  first_block,
}
use malloc_jt.Heap.Lists.{Holds-left, Holds-bounds}
use malloc_jt.Heap.Prologue.{Kept}
use malloc_jt.Heap.Segments.{total-append, Segment-append, Segment-Same, IsBlock-Same}
use malloc_jt.Mm.{coalesce, extend_heap}
use malloc_jt.Mm.Steps.{pack-tag, put_lem, hdrp_lem, next_blkp_lem}
use malloc_jt.Mm.Tags.{InArena, tag_bytes, put_tags_lem, IsBlock-tag_bytes, Same-tag_bytes}
use malloc_jt.Mm.Coalesce.MergeNext.{Tagged-block}
use malloc_jt.Mm.Coalesce.Settle.{Settled, coalesce-Settled}

module _ (s : State) (e : ℕ) (small : s.mem_max_addr + 2 ^ 32 < u64)
    (brk : s.mem_brk ≤ s.mem_max_addr) (h : e < 2 ^ 31) where
  not_neg : is_neg e ≡ false
  not_neg = ground arith

  sum : padd s.mem_brk e ≡ s.mem_brk + e
  sum = omega arith

  pub mem_sbrk-full : s.mem_max_addr < s.mem_brk + e → mem_sbrk e s ≡ ok minus_one s
  unfolding mem_sbrk
  mem_sbrk-full full = rw (not_neg, sum, lt→ltb s.mem_max_addr (s.mem_brk + e) full)

  pub mem_sbrk-room :
      s.mem_brk + e ≤ s.mem_max_addr
      → mem_sbrk e s ≡ ok s.mem_brk (record s { mem_brk = s.mem_brk + e })
  unfolding mem_sbrk
  mem_sbrk-room room = rw (not_neg, sum, le→ltb s.mem_max_addr (s.mem_brk + e) room)

-- The state in which `coalesce` is called: the new block and the new epilogue are written.
pub grown_bytes : State → ℕ → Bytes
grown_bytes s e =
    write_word (tag_bytes s.bytes s.mem_brk (free_block e)) (s.mem_brk + e - 4) (tag (used_block 0))

abbrev pub grown : State → ℕ → State
grown s e = record s { bytes = grown_bytes s e; mem_brk = s.mem_brk + e }

module _ (s : State) (bs : List Block) (e : ℕ) (l : Layout s bs) (least : 16 ≤ e)
    (eights : e % 8 ≡ 0) (h : e < 2 ^ 31) (room : s.mem_brk + e ≤ s.mem_max_addr) where
  abbrev wider : State
  wider = record s { mem_brk = s.mem_brk + e }

  new : InArena wider s.mem_brk (free_block e)
  new = record {
    not_low = l.not_low;
    low = omega (arith, l.brk);
    high = room;
    small = omega (arith, l.small);
    narrow = omega (arith, h);
    least = omega arith;
    eights = eights;
  }

  abbrev first : Bytes
  first = tag_bytes s.bytes s.mem_brk (free_block e)

  pub extend_heap_calls : extend_heap (e / 4) s ≡ coalesce s.mem_brk (grown s e)
  unfolding extend_heap grown_bytes
  extend_heap_calls =
      let even : e / 4 % 2 ≡ 0 = omega arith in
      let size : mul32 (e / 4) 4 ≡ e = omega arith in
      let ne : (s.mem_brk == minus_one) ≡ false = ground (arith, l.small, l.room) in
      rw (
        even,
        size,
        mem_sbrk-room s e l.small l.room h room,
        ne,
        put_tags_lem new,
        next_blkp_lem (record wider { bytes = first }) s.mem_brk (free_block e)
            (Tagged-block new (IsBlock-tag_bytes new s.bytes)) (omega (arith, l.brk))
            (omega (arith, room, l.small)),
        hdrp_lem (s.mem_brk + e) (omega arith) (omega (arith, room, l.small)),
        pack-tag (used_block 0) refl,
        put_lem (record wider { bytes = first }) (s.mem_brk + e - 4) (tag (used_block 0))
            (omega (arith, l.brk)) (omega (arith, room)),
      )

  pub Same-grown : Same (s.mem_brk - 4) (s.mem_brk + e) s.bytes (grown_bytes s e)
  unfolding grown_bytes
  Same-grown =
      Same-trans (Same-widen _ _ (Same-tag_bytes new s.bytes) (omega arith) (omega arith))
        (Same-write_word first (s.mem_brk + e - 4) (tag (used_block 0)) (omega arith) (omega arith))

  new_block : IsBlock (grown_bytes s e) s.mem_brk (free_block e)
  unfolding grown_bytes
  new_block =
      IsBlock-Same
        (Same-write_word first {lo = s.mem_brk + e - 4} {hi = s.mem_brk + e} (s.mem_brk + e - 4)
          (tag (used_block 0)) (omega arith) (omega arith))
        (omega (arith, l.brk)) (inl (omega arith)) (IsBlock-tag_bytes new s.bytes)

  pub Layout-grown : Layout (grown s e) (bs ++ (free_block e ∷ []))
  unfolding grown_bytes
  Layout-grown =
      let end : s.mem_brk ≡ s.mem_start_brk + 8 + total bs = l.brk in
      record {
        not_low = l.not_low;
        aligned = l.aligned;
        limit = l.limit;
        small = l.small;
        listp = l.listp;
        blocks =
            Segment-append (grown_bytes s e) (s.mem_start_brk + 8) bs (free_block e ∷ [])
              (Segment-Same (s.mem_start_brk + 8) bs Same-grown (omega arith) (inl (omega arith))
                l.blocks)
              (subst (λ a. Segment (grown_bytes s e) a (free_block e ∷ [])) end (new_block, tt));
        brk = omega (arith, total-append bs (free_block e ∷ []));
        room = room;
        epilogue = word-write_self first (s.mem_brk + e - 4) (tag (used_block 0)) (omega arith);
      }

-- `extend_heap` on a well-formed heap with room for `e` bytes more, `e` a multiple of 8 from 16 on
-- and below 2^31, returns a free block of at least `e` bytes in a well-formed heap with the same
-- allocated blocks and payloads.
pub extend_heap-Settled :
    (s : State) (bs : List Block) (e : ℕ)
    → IsHeap s bs
    → 16 ≤ e
    → e % 8 ≡ 0
    → e < 2 ^ 31
    → s.mem_brk + e ≤ s.mem_max_addr
    → Settled (grown s e) bs e [] (extend_heap (e / 4) s)
extend_heap-Settled s bs e h least eights narrow room =
    let l = h.layout in
    let end : s.mem_brk ≡ s.mem_start_brk + 8 + total (prologue ∷ bs) = l.brk in
    rw (extend_heap_calls s (prologue ∷ bs) e l least eights narrow room) (
      subst (λ a. Settled (grown s e) bs e [] (coalesce a (grown s e))) (sym end)
        (coalesce-Settled bs e [] (Layout-grown s (prologue ∷ bs) e l least eights narrow room)
          h.roomy least tt h.compact tt
          (
            h.rover.0,
            Holds-left (s.mem_start_brk + 8) (prologue ∷ bs) (free_block e ∷ []) s.temp h.rover.0
                h.rover.1,
          )))

-- `extend_heap` on a well-formed heap without room for `e` bytes more, `e` a multiple of 8 below
-- 2^31, returns NULL and changes nothing.
pub extend_heap-full :
    (s : State) (bs : List Block) (e : ℕ)
    → IsHeap s bs
    → e % 8 ≡ 0
    → e < 2 ^ 31
    → s.mem_max_addr < s.mem_brk + e
    → extend_heap (e / 4) s ≡ ok null s
unfolding extend_heap
extend_heap-full s bs e h eights narrow full =
    let even : e / 4 % 2 ≡ 0 = omega arith in
    let size : mul32 (e / 4) 4 ≡ e = omega arith in
    rw (even, size, mem_sbrk-full s e h.layout.small h.layout.room narrow full)

-- The old payloads are below the new block.
pub Kept-grown :
    (s : State) (bs : List Block) (e : ℕ)
    → IsHeap s bs
    → 16 ≤ e
    → e % 8 ≡ 0
    → e < 2 ^ 31
    → s.mem_brk + e ≤ s.mem_max_addr
    → Kept (first_block s) bs s.bytes (grown_bytes s e)
Kept-grown s bs e h least eights narrow room = record {
  payload = λ c k x u lo hi.
      let at = Holds-bounds (first_block s) bs c (used_block k) u in
      (Same-grown s (prologue ∷ bs) e h.layout least eights narrow room).outside x
        (inl (omega (arith, h.layout.brk)));
}
