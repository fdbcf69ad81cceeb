-- ===== src/Heap/Payload.antt =====
-- Writing to the payload of an allocated block keeps the heap well-formed.
use malloc_jt.Base.{
  ℕ, ◌+◌, ◌-◌, ◌%◌, ◌≤◌, ◌≡◌, false, ◌==◌, ◌⊎◌, ◌↔◌, inl, inr, sym, ap, subst, ◌∙◌, arith, List, [],
  ◌∷◌, ◌++◌,
}
use malloc_jt.Machine.{Ptr, null, Bytes, State, with_bytes}
use malloc_jt.Machine.Words.{Same, word-Same}
use malloc_jt.Heap.{
  Block, used_block, prologue, total, IsBlock, Segment, Layout, IsHeap, Holds, first_block,
}
use malloc_jt.Heap.Lists.{At-Holds, Holds-bounds}
use malloc_jt.Heap.Marked.{Holds-Roomy}
use malloc_jt.Heap.Segments.{Segment-split, Segment-Same, Segment-append, total-append}
use malloc_jt.Heap.Widened.{Used}

-- The bytes `[lo, hi)` lie in the payload of the block of `k` bytes at `c`.
pub record InPayload (c k lo hi : ℕ) : Type 0 where
  pub low : c ≤ lo
  pub high : hi + 8 ≤ c + k

module _ (s : State) {m : Bytes} {lo hi c k : ℕ} (same : Same lo hi s.bytes m)
    (i : InPayload c k lo hi) where
  block_kept : 4 ≤ c → IsBlock s.bytes c (used_block k) → IsBlock m c (used_block k)
  block_kept h is = record {
    header = word-Same (c - 4) same (inl (omega (arith, i.low))) ∙ is.header;
    footer = word-Same (c + k - 8) same (inr (omega (arith, i.high))) ∙ is.footer;
    least = is.least;
    eights = is.eights;
  }

  layout_kept :
      (pre post : List Block)
      → c ≡ s.mem_start_brk + 8 + total pre
      → Layout s (pre ++ (used_block k ∷ post))
      → Layout (with_bytes s m) (pre ++ (used_block k ∷ post))
  layout_kept pre post e l =
      let base = s.mem_start_brk + 8 in
      let rest = used_block k ∷ post in
      let parts = Segment-split s.bytes base pre rest l.blocks in
      let at = subst (λ a. IsBlock s.bytes a (used_block k)) (sym e) parts.1.0 in
      let sum = total-append pre rest in
      record {
        not_low = l.not_low;
        aligned = l.aligned;
        limit = l.limit;
        small = l.small;
        listp = l.listp;
        blocks =
            Segment-append m base pre rest
              (Segment-Same base pre same (omega arith) (inl (omega (arith, i.low))) parts.0)
              (
                subst (λ a. IsBlock m a (used_block k)) e (block_kept (omega arith) at),
                Segment-Same (base + total pre + k) post same (omega arith)
                    (inr (omega (arith, i.high))) parts.1.1,
              );
        brk = l.brk;
        room = l.room;
        epilogue = word-Same (s.mem_brk - 4) same (inr (omega (arith, i.high, l.brk))) ∙ l.epilogue;
      }

-- When an application writes only to the payload of an allocated block, the heap stays well-formed.
pub IsHeap-payload :
    {s : State} {m : Bytes} {lo hi : ℕ} (bs : List Block) (c k : ℕ)
    → IsHeap s bs
    → Used (first_block s) bs c k
    → Same lo hi s.bytes m
    → InPayload c k lo hi
    → IsHeap (with_bytes s m) bs
IsHeap-payload {s} {m} bs c k h u same i =
    let at = At-Holds (first_block s) bs c (used_block k) u in
    record {
      layout =
          subst (λ l. Layout (with_bytes s m) (prologue ∷ l)) (sym at.whole)
            (layout_kept s same i (prologue ∷ at.front) at.back (omega (arith, at.place))
              (subst (λ l. Layout s (prologue ∷ l)) at.whole h.layout));
      roomy = h.roomy;
      compact = h.compact;
      rover = h.rover;
    }

-- Two allocated blocks are the same, or have no byte in common.
pub Used-disjoint :
    (a : Ptr) (bs : List Block) (c k d n : ℕ)
    → Used a bs c k
    → Used a bs d n
    → ((c ≡ d) × (k ≡ n)) ⊎ ((c + k ≤ d) ⊎ (d + n ≤ c))
Used-disjoint a [] c k d n u v = absurd u
Used-disjoint a (x ∷ bs) c k d n (inl u) (inl v) =
    inl (u.0 ∙ sym v.0, ap (λ (b : Block). b.size) (u.1 ∙ sym v.1))
Used-disjoint a (x ∷ bs) c k d n (inl u) (inr v) =
    let at = Holds-bounds (a + x.size) bs d (used_block n) v in
    let e : k ≡ x.size = ap (λ (b : Block). b.size) u.1 in inr (inl (omega (arith, e, u.0)))
Used-disjoint a (x ∷ bs) c k d n (inr u) (inl v) =
    let at = Holds-bounds (a + x.size) bs c (used_block k) u in
    let e : n ≡ x.size = ap (λ (b : Block). b.size) v.1 in inr (inr (omega (arith, e, v.0)))
Used-disjoint a (x ∷ bs) c k d n (inr u) (inr v) = Used-disjoint (a + x.size) bs c k d n u v

-- What the application may rely on for an allocated block: its payload is aligned to 8 bytes and
-- lies in the heap.
pub record Usable (s : State) (c k : ℕ) : Type 0 where
  pub aligned : c % 8 ≡ 0
  pub least : 16 ≤ k
  pub low : s.mem_start_brk + 16 ≤ c
  pub high : c + k ≤ s.mem_brk

Holds-aligned :
    (m : Bytes) (a : Ptr) (bs : List Block) (c : Ptr) (b : Block)
    → Segment m a bs
    → Holds a bs c b
    → a % 8 ≡ 0
    → c % 8 ≡ 0
Holds-aligned m a [] c b seg h e = absurd h
Holds-aligned m a (x ∷ bs) c b seg (inl h) e = omega (arith, h.0)
Holds-aligned m a (x ∷ bs) c b seg (inr h) e =
    Holds-aligned m (a + x.size) bs c b seg.1 h (omega (arith, seg.0.eights))

-- In a well-formed heap the payload of each allocated block is aligned to 8 bytes and lies between
-- the prologue and the break, and the block takes 16 bytes at least.
pub Used-Usable :
    (s : State) (bs : List Block) (c k : ℕ)
    → IsHeap s bs
    → Used (first_block s) bs c k
    → Usable s c k
Used-Usable s bs c k h u =
    let at = Holds-bounds (first_block s) bs c (used_block k) u in
    record {
      aligned =
          Holds-aligned s.bytes (first_block s) bs c (used_block k) h.layout.blocks.1 u
            (omega (arith, h.layout.aligned));
      least = Holds-Roomy (first_block s) bs c (used_block k) h.roomy u;
      low = omega arith;
      high = omega (arith, h.layout.brk);
    }

-- The first block of an arena that has not moved.
pub Used-moved :
    (s t : State) (bs : List Block) (c k : ℕ)
    → t.mem_start_brk ≡ s.mem_start_brk
    → Used (first_block s) bs c k ↔ Used (first_block t) bs c k
Used-moved s t bs c k e =
    (subst (λ b. Used (b + 8 + 8) bs c k) (sym e), subst (λ b. Used (b + 8 + 8) bs c k) e)

-- An allocated payload is not at NULL.
pub not_null :
    (s : State) (bs : List Block) (c k : ℕ)
    → IsHeap s bs
    → Used (first_block s) bs c k
    → (c == null) ≡ false
not_null s bs c k h u = let r = Used-Usable s bs c k h u in ground (arith, r.low)
