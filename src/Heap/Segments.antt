-- ===== src/Heap/Segments.antt =====
-- Rows of blocks in memory: splitting, framing, and the replacement of some blocks by others.
use malloc_jt.Base.{ℕ, ◌+◌, ◌-◌, ◌≤◌, ◌≡◌, ◌⊎◌, inl, inr, subst, List, [], ◌∷◌, ◌++◌, arith}
use malloc_jt.Machine.{Ptr, Bytes, State, with_bytes}
use malloc_jt.Machine.Words.{Same, word-Same}
use malloc_jt.Heap.{Block, total, IsBlock, Segment, Layout}

pub total-append : (xs ys : List Block) → total (xs ++ ys) ≡ total xs + total ys
total-append [] ys = omega arith
total-append (x ∷ xs) ys = omega (arith, total-append xs ys)

pub IsBlock-Same :
    {m m' : Bytes} {lo hi : ℕ} {a : Ptr} {b : Block}
    → Same lo hi m m'
    → 4 ≤ a
    → (a + b.size ≤ lo + 4) ⊎ (hi + 4 ≤ a)
    → IsBlock m a b
    → IsBlock m' a b
IsBlock-Same {a} {b} same h apart is = record {
  header = rw (word-Same (a - 4) same (ground (arith, is.least))) is.header;
  footer = rw (word-Same (a + b.size - 8) same (ground (arith, is.least))) is.footer;
  least = is.least;
  eights = is.eights;
}

pub Segment-Same :
    {m m' : Bytes} {lo hi : ℕ} (a : Ptr) (bs : List Block)
    → Same lo hi m m'
    → 4 ≤ a
    → (a + total bs ≤ lo + 4) ⊎ (hi + 4 ≤ a)
    → Segment m a bs
    → Segment m' a bs
Segment-Same a [] same h apart seg = tt
Segment-Same a (b ∷ bs) same h apart seg = (
  IsBlock-Same same h (ground arith) seg.0,
  Segment-Same (a + b.size) bs same (omega arith) (ground arith) seg.1,
)

pub Segment-append :
    (m : Bytes) (a : Ptr) (xs ys : List Block)
    → Segment m a xs
    → Segment m (a + total xs) ys
    → Segment m a (xs ++ ys)
Segment-append m a [] ys p q = let e : a + 0 ≡ a = omega arith in subst (λ k. Segment m k ys) e q
Segment-append m a (x ∷ xs) ys p q =
    let e : a + (x.size + total xs) ≡ a + x.size + total xs = omega arith in
    (p.0, Segment-append m (a + x.size) xs ys p.1 (subst (λ k. Segment m k ys) e q))

pub Segment-split :
    (m : Bytes) (a : Ptr) (xs ys : List Block)
    → Segment m a (xs ++ ys)
    → Segment m a xs × Segment m (a + total xs) ys
Segment-split m a [] ys p = let e : a ≡ a + 0 = omega arith in (tt, subst (λ k. Segment m k ys) e p)
Segment-split m a (x ∷ xs) ys p =
    let r = Segment-split m (a + x.size) xs ys p.1 in
    let e : a + x.size + total xs ≡ a + (x.size + total xs) = omega arith in
    ((p.0, r.0), subst (λ k. Segment m k ys) e r.1)

-- Blocks in the middle may be replaced, by a write that stays within their extents, by blocks that
-- take the same room.
pub Layout-replace :
    {s : State} {m : Bytes} (pre old new post : List Block) (a : Ptr)
    → Layout s (pre ++ (old ++ post))
    → a ≡ s.mem_start_brk + 8 + total pre
    → Same (a - 4) (a + total old - 4) s.bytes m
    → Segment m a new
    → total new ≡ total old
    → Layout (with_bytes s m) (pre ++ (new ++ post))
Layout-replace {s} {m} pre old new post a l e same seg size =
    let front = Segment-split s.bytes (s.mem_start_brk + 8) pre (old ++ post) l.blocks in
    let back = Segment-split s.bytes (s.mem_start_brk + 8 + total pre) old post front.1 in
    let low = l.not_low in
    let at : Segment m (s.mem_start_brk + 8 + total pre) new = subst (λ k. Segment m k new) e seg in
    let lengths : total (pre ++ (new ++ post)) ≡ total (pre ++ (old ++ post)) = omega (
      arith,
      total-append pre (new ++ post),
      total-append pre (old ++ post),
      total-append new post,
      total-append old post,
    ) in
    let more : a + total old ≤ s.mem_brk =
      omega (arith, l.brk, total-append pre (old ++ post), total-append old post) in
    let tail : Segment m (s.mem_start_brk + 8 + total pre + total new) post = rw size (
      Segment-Same (s.mem_start_brk + 8 + total pre + total old) post same (omega arith)
        (inr (omega arith)) back.1) in
    record {
      not_low = l.not_low;
      aligned = l.aligned;
      limit = l.limit;
      small = l.small;
      listp = l.listp;
      blocks =
          Segment-append m (s.mem_start_brk + 8) pre (new ++ post)
            (Segment-Same (s.mem_start_brk + 8) pre same (omega arith) (inl (omega arith)) front.0)
            (Segment-append m (s.mem_start_brk + 8 + total pre) new post at tail);
      brk = omega (arith, l.brk);
      room = l.room;
      epilogue = rw (word-Same (s.mem_brk - 4) same (inr (omega arith))) l.epilogue;
    }
