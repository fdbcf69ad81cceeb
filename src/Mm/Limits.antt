-- ===== src/Mm/Limits.antt =====
-- Requests near 2^32, and the calls of `mm_realloc` that README.md allows and the code refuses.
use malloc_jt.Base.{
  ℕ, ◌+◌, ◌-◌, ◌%◌, ◌^◌, ◌≤◌, ◌<◌, ◌≡◌, ◌⊎◌, inl, inr, refl, sym, subst, arith, true, false, List,
  ◌∷◌, ◌++◌, ◌==◌, leb, le→leb, Option-cases, sub32, u64,
}
use malloc_jt.Machine.{Ptr, null, write_word, State, Outcome, ok, fault, exited, with_bytes}
use malloc_jt.Machine.Words.{word-write_self}
use malloc_jt.Heap.{Block, free_block, used_block, prologue, total, tag, Layout, IsHeap, Holds}
use malloc_jt.Heap.Lists.{Holds-bounds}
use malloc_jt.Heap.NextFit.{next_fit, Suited, next_fit-Suited}
use malloc_jt.Heap.Widened.{Used}
use malloc_jt.Mm.{
  max, adjust, get, get_size, hdrp, put, put_tags, place, find_fit, mm_malloc, mm_realloc,
}
use malloc_jt.Mm.Retag.{block_at}
use malloc_jt.Mm.Steps.{Tagged, put_lem, pack-tag, hdrp_lem, ftrp_lem}
use malloc_jt.Mm.Extend.{grown, extend_heap-Settled}
use malloc_jt.Mm.FindFit.{rover, find_fit-next_fit}
use malloc_jt.Mm.Malloc.{growth, Granted, Refused, mm_malloc-Granted}
use malloc_jt.Heap.Payload.{Used-Usable}
use malloc_jt.Mm.Retag.{size_of_block, block_end}

adjust-huge :
    (size : ℕ)
    → 2 ^ 31 - 15 ≤ size
    → size < 2 ^ 32 - 15
    → (2 ^ 31 ≤ adjust size) × (adjust size < 2 ^ 32) × (adjust size % 8 ≡ 0)
unfolding adjust
adjust-huge size h k = ground arith

growth-huge : (asize : ℕ) → 2 ^ 31 ≤ asize → asize < 2 ^ 32 → growth asize ≡ 4096
unfolding growth max
growth-huge asize h k = ground arith

-- The caller of the outcome `r` holds a block of fewer than 24 bytes.
pub record Tiny (s : State) (r : Outcome Ptr) : Type 0 where
  pub block : Ptr
  pub state : State
  pub after : List Block
  pub extent : ℕ
  pub returns : r ≡ ok block state
  pub stands : Holds (s.mem_start_brk + 8) after block (used_block extent)
  pub tiny : extent < 24

module _ (s : State) (bs : List Block) (size : ℕ) (h : IsHeap s bs) where
  abbrev base : Ptr
  base = s.mem_start_brk + 8

  not_null : (a n : ℕ) → a ≡ base + n → (a == null) ≡ false
  not_null a n e = ground arith

put-fault : (s : State) (p v : ℕ) → s.mem_max_addr < p + 4 → put p v s ≡ fault
unfolding put
put-fault s p v h = ground arith

-- `place` with a size beyond the block writes its footer outside the arena.
place-fault :
    (s : State) (front : List Block) (n : ℕ) (back : List Block) (asize : ℕ)
    → Layout s (front ++ (free_block n ∷ back))
    → 2 ^ 31 ≤ asize
    → asize < 2 ^ 32
    → asize % 8 ≡ 0
    → place (s.mem_start_brk + 8 + total front) asize s ≡ fault
unfolding place put_tags
place-fault s front n back asize l lo hi eights =
    let a = s.mem_start_brk + 8 + total front in
    let end = block_end front (free_block n) back l in
    let is = block_at front (free_block n) back l in
    let m = write_word s.bytes (a - 4) (tag (used_block asize)) in
    let more : leb 16 (sub32 n asize) ≡ true = le→leb _ _ (omega (arith, end, l.room, l.limit)) in
    let t : Tagged (with_bytes s m) (a - 4) (used_block asize) = record {
      low = omega arith;
      high = omega (arith, end, l.room, is.least);
      small = omega (arith, l.small);
      holds = word-write_self s.bytes (a - 4) (tag (used_block asize)) (omega arith);
      eights = eights;
    } in
    rw (
      size_of_block front (free_block n) back l,
      more,
      hdrp_lem a (omega arith) (omega (arith, end, l.room, l.small)),
      pack-tag (used_block asize) eights,
      put_lem s (a - 4) (tag (used_block asize)) (omega arith)
          (omega (arith, end, l.room, is.least)),
      ftrp_lem (with_bytes s m) a (used_block asize) t (omega arith)
          (omega (arith, end, l.room, l.small)),
      put-fault (with_bytes s m) (a + asize - 8) (tag (used_block asize)) (omega (arith, l.limit)),
    )

nothing_fits :
    (s : State) (bs : List Block) (h : IsHeap s bs) (asize : ℕ)
    → 2 ^ 31 ≤ asize
    → find_fit asize s ≡ ok null s
nothing_fits s bs h asize big =
    let base = s.mem_start_brk + 8 in
    let r = rover s bs h in
    let e = find_fit-next_fit s bs asize h in
    elim (Option-cases (next_fit base asize r.pre r.post)) [
      | inr (p, y) ↦
          let st =
            subst (λ l. Suited base l p asize) (sym r.whole)
              (next_fit-Suited base asize r.pre r.post p y) in
          let at = Holds-bounds base (prologue ∷ bs) p (free_block st.size) st.stands in
          absurd (omega (arith, st.large, h.layout.brk, h.layout.room, h.layout.limit))
      | inl y ↦ rw y at e
    ]

-- A request from 2^31 - 15 bytes on and below 2^32 - 15, on a well-formed heap that can grow by
-- CHUNKSIZE, does not return NULL: `mm_malloc` writes outside the arena, since MAX compares the
-- block size as an `int`.
pub mm_malloc-fault :
    (s : State) (bs : List Block) (size : ℕ)
    → IsHeap s bs
    → 2 ^ 31 - 15 ≤ size
    → size < 2 ^ 32 - 15
    → s.mem_brk + 4096 ≤ s.mem_max_addr
    → mm_malloc size s ≡ fault
unfolding mm_malloc growth
mm_malloc-fault s bs size h lo hi room =
    let a = adjust-huge size lo hi in
    let t = extend_heap-Settled s bs 4096 h (omega arith) refl (omega arith) room in
    let pos : (size == 0) ≡ false = ground arith in
    let grow : max (adjust size) 4096 ≡ 4096 = growth-huge (adjust size) a.0 a.1 in
    let mid = record (grown s 4096) { bytes = t.bytes; temp = t.temp } in
    rw (
      pos,
      nothing_fits s bs h (adjust size) a.0,
      grow,
      t.returns,
      not_null s bs size h (s.mem_start_brk + 8 + total t.front) (total t.front) refl,
      place-fault mid t.front t.size t.back (adjust size) (subst (Layout mid) t.split t.heap.layout)
          a.0 a.1 a.2,
    )

header_below_null : (s : State) → s.mem_max_addr < u64 → get_size (hdrp null) s ≡ fault
unfolding get_size get hdrp
header_below_null s h = ground arith

null_faults :
    (s : State) (bs : List Block) (size : ℕ)
    → Granted s bs size (mm_malloc size s)
    → mm_realloc null size s ≡ fault
unfolding mm_realloc
null_faults s bs size g =
    let new =
      subst (λ a. Used (a + 8 + 8) g.after g.block g.extent) (sym g.same_arena.0)
        ((g.used g.block g.extent).1 (inr (refl, refl))) in
    let low = Used-Usable g.state g.after g.block g.extent g.heap new in
    let ne : (g.block == null) ≡ false = ground (arith, low.low) in
    rw (g.returns, ne, header_below_null g.state (omega (arith, g.heap.layout.small)))

-- On a well-formed heap `mm_realloc` of NULL, to 1 to 2^31 - 16 bytes, leaves the arena where
-- `mm_malloc` grants a block, and ends the program where it refuses; and `mm_realloc` of any pointer
-- to size 0 ends the program.
pub mm_realloc-edges :
    (s : State) (bs : List Block) (size : ℕ)
    → IsHeap s bs
    → 0 < size
    → size ≤ 2 ^ 31 - 16
    → ((Granted s bs size (mm_malloc size s) × (mm_realloc null size s ≡ fault))
        ⊎ (Refused s bs size (mm_malloc size s) × (mm_realloc null size s ≡ exited)))
      × ((p : Ptr) → mm_realloc p 0 s ≡ exited)
unfolding mm_realloc mm_malloc
mm_realloc-edges s bs size h pos fine = (
  elim (mm_malloc-Granted s bs size h pos fine) [
    | inl g ↦ inl (g, null_faults s bs size g)
    | inr r ↦ inr (r, rw r.returns)
  ],
  λ p. refl,
)
