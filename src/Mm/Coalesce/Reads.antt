-- ===== src/Mm/Coalesce/Reads.antt =====
-- The neighbours of a free block in a heap, and what `coalesce` reads of them.
use malloc_jt.Base.{
  ℕ, ◌+◌, ◌-◌, ◌≤◌, ◌<◌, ◌≡◌, inl, inr, refl, sym, ap, subst, ◌∙◌, arith, u32, u64, Bool, true,
  false, List, [], ◌∷◌, ◌++◌, ltb, ◌==◌, if◌then◌else◌, Bool-cases, append_assoc,
}
use malloc_jt.Machine.{Ptr, word, State, ok, Cmd}
use malloc_jt.Heap.{Block, free_block, bit, total, IsBlock, Layout}
use malloc_jt.Heap.Gap.{head}
use malloc_jt.Heap.Lists.{moved}
use malloc_jt.Heap.Segments.{Segment-split, total-append}
use malloc_jt.Mm.{
  get_size, hdrp, next_blkp, prev_blkp, move_temp, merge_next, merge_prev, merge_both, coalesce,
}
use malloc_jt.Mm.Steps.{
  Tagged, get_alloc_lem, alloc_at, size_at, ftrp_lem, next_blkp_lem, prev_blkp_lem,
}

module _ {s : State} {a : Ptr} {b : Block} where
  pub Tagged-header :
      IsBlock s.bytes a b
      → s.mem_start_brk + 8 ≤ a
      → a + b.size ≤ s.mem_max_addr
      → s.mem_max_addr < u64
      → Tagged s (a - 4) b
  Tagged-header is h k l = record {
    low = omega arith;
    high = omega (arith, is.least);
    small = l;
    holds = is.header;
    eights = is.eights;
  }

  pub Tagged-footer :
      IsBlock s.bytes a b
      → s.mem_start_brk + 8 ≤ a
      → a + b.size ≤ s.mem_max_addr
      → s.mem_max_addr < u64
      → Tagged s (a + b.size - 8) b
  Tagged-footer is h k l = record {
    low = omega (arith, is.least);
    high = omega (arith, is.least);
    small = l;
    holds = is.footer;
    eights = is.eights;
  }

-- The header after the blocks `pre` is that of the next block or of the epilogue.
pub Tagged-head :
    (s : State) (pre post : List Block) (a : Ptr)
    → Layout s (pre ++ post)
    → a ≡ s.mem_start_brk + 8 + total pre
    → Tagged s (a - 4) (head post)
Tagged-head s pre [] a l e = record {
  low = omega arith;
  high = omega (arith, l.brk, l.room, total-append pre []);
  small = omega (arith, l.small);
  holds = subst (λ p. word s.bytes p ≡ 1) (omega (arith, l.brk, total-append pre [])) l.epilogue;
  eights = refl;
}
Tagged-head s pre (b ∷ post) a l e =
    let front = Segment-split s.bytes (s.mem_start_brk + 8) pre (b ∷ post) l.blocks in
    let is : IsBlock s.bytes a b = subst (λ p. IsBlock s.bytes p b) (sym e) front.1.0 in
    Tagged-header is (omega arith) (omega (arith, l.brk, l.room, total-append pre (b ∷ post)))
      (omega (arith, l.small))

-- A free block of size `n` behind the block `p`, which starts at `a0`.
pub record Between (s : State) (a0 : Ptr) (p : Block) (n : ℕ) (post : List Block) : Type 0 where
  pub prev : IsBlock s.bytes a0 p
  pub this : IsBlock s.bytes (a0 + p.size) (free_block n)
  pub next : Tagged s (a0 + p.size + n - 4) (head post)
  pub not_low : 8 ≤ s.mem_start_brk
  pub low : s.mem_start_brk + 8 ≤ a0
  pub high : a0 + p.size + n + (head post).size ≤ s.mem_max_addr
  pub small : s.mem_max_addr < u64
  pub narrow : p.size + n + (head post).size < u32 - 8

head-le-total : (bs : List Block) → (head bs).size ≤ total bs
head-le-total [] = omega arith
head-le-total (b ∷ bs) = omega arith

pub Between-Layout :
    {s : State} (pre : List Block) (p : Block) (n : ℕ) (post : List Block)
    → Layout s (pre ++ (p ∷ free_block n ∷ post))
    → Between s (s.mem_start_brk + 8 + total pre) p n post
Between-Layout {s} pre p n post l =
    let rest = p ∷ free_block n ∷ post in
    let front = Segment-split s.bytes (s.mem_start_brk + 8) pre rest l.blocks in
    let sum = total-append pre rest in
    let more = head-le-total post in
    let two : List Block = p ∷ free_block n ∷ [] in
    record {
      prev = front.1.0;
      this = front.1.1.0;
      next =
          subst (λ k. Tagged s (k - 4) (head post)) (omega (arith, total-append pre two))
            (Tagged-head s (pre ++ two) post (s.mem_start_brk + 8 + total (pre ++ two))
              (subst (Layout s) (sym (append_assoc pre two post)) l) refl);
      not_low = l.not_low;
      low = omega arith;
      high = omega (arith, l.brk, l.room);
      small = omega (arith, l.small);
      narrow = omega (arith, l.brk, l.room, l.limit, l.not_low);
    }

module _ {s : State} {a0 : Ptr} {p : Block} {n : ℕ} {post : List Block}
    (w : Between s a0 p n post) where
  pub prev_header : Tagged s (a0 - 4) p
  prev_header = Tagged-header w.prev w.low (omega (arith, w.high)) w.small

  pub prev_footer : Tagged s (a0 + p.size - 8) p
  prev_footer = Tagged-footer w.prev w.low (omega (arith, w.high)) w.small

  pub this_header : Tagged s (a0 + p.size - 4) (free_block n)
  this_header = Tagged-header w.this (omega (arith, w.low)) (omega (arith, w.high)) w.small

  pub prev_at : prev_blkp (a0 + p.size) s ≡ ok a0 s
  prev_at =
      prev_blkp_lem s (a0 + p.size) p prev_footer (omega (arith, w.low, w.not_low)) (omega arith)
        (omega (arith, w.high, w.small))
      ∙ ap (λ t. ok t s) (omega arith)

  pub next_at : next_blkp (a0 + p.size) s ≡ ok (a0 + p.size + n) s
  next_at =
      next_blkp_lem s (a0 + p.size) (free_block n) this_header (omega (arith, w.low, w.not_low))
        (omega (arith, w.high, w.small))

  pub size_this : get_size (hdrp (a0 + p.size)) s ≡ ok n s
  size_this = size_at s (a0 + p.size) (free_block n) this_header (omega (arith, w.low, w.not_low))

  -- The branch that `coalesce` takes.
  pub coalesce_reads : coalesce (a0 + p.size) s ≡ (
      if p.alloc
      then (if (head post).alloc then ok (a0 + p.size) s else merge_next (a0 + p.size) n s)
      else (if (head post).alloc
          then merge_prev (a0 + p.size) n s
          else merge_both (a0 + p.size) n s))
  unfolding coalesce
  coalesce_reads =
      rw
        (
          prev_at,
          ftrp_lem s a0 p prev_header (omega (arith, w.low, w.not_low))
              (omega (arith, w.high, w.small)),
          get_alloc_lem prev_footer,
          next_at,
          alloc_at s (a0 + p.size + n) (head post) w.next (omega (arith, w.low, w.not_low)),
          size_this,
        )
        (branch p.alloc (head post).alloc)
    where
      branch :
          (x y : Bool)
          → (if◌then◌else◌ {A = Cmd Ptr}
                (bit x == 0)
                (if bit y == 0 then merge_both (a0 + p.size) n else merge_prev (a0 + p.size) n)
                (if bit y == 0 then merge_next (a0 + p.size) n else (λ s. ok (a0 + p.size) s)))
              s
            ≡ (if x
                then (if y then ok (a0 + p.size) s else merge_next (a0 + p.size) n s)
                else (if y then merge_prev (a0 + p.size) n s else merge_both (a0 + p.size) n s))
      branch true true = refl
      branch true false = refl
      branch false true = refl
      branch false false = refl

pub move_temp_lem :
    (s : State) (a : Ptr) (b : Block)
    → Tagged s (a - 4) b
    → 8 ≤ a
    → a + b.size < u64
    → move_temp a s ≡ ok a (record s { temp = moved a (a + b.size) s.temp })
unfolding move_temp
move_temp_lem s a b t h k = elim (Bool-cases (ltb a s.temp)) [
  | inl y ↦ rw (y, next_blkp_lem s a b t h k) (inner (ltb s.temp (a + b.size)))
  | inr y ↦ rw y
]
  where
    inner :
        (x : Bool)
        → (if◌then◌else◌ {A = Cmd Ptr} x (λ s. ok a (record s { temp = a })) (λ s. ok a s)) s
          ≡ ok a (record s { temp = if x then a else s.temp })
    inner true = refl
    inner false = refl
