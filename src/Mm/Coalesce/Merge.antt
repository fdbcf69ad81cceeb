-- ===== src/Mm/Coalesce/Merge.antt =====
-- `merge_prev` and `merge_both`: the memory and the `temp` that each leaves.
use malloc_jt.Base.{ℕ, ◌+◌, ◌-◌, ◌%◌, ◌^◌, ◌≡◌, ap, ◌∙◌, arith, u32, List, ◌∷◌, add32}
use malloc_jt.Machine.{Ptr, Bytes, write_word, State, ok, with_bytes}
use malloc_jt.Machine.Words.{Same, Same-write_word, Same-trans, word-write_self, word-write_other}
use malloc_jt.Heap.{Block, free_block, tag, IsBlock}
use malloc_jt.Heap.Lists.{moved}
use malloc_jt.Mm.{prev_blkp, merge_prev, merge_both}
use malloc_jt.Mm.Steps.{
  Tagged, get_size_lem, size_at, ftrp_lem, next_blkp_lem, prev_blkp_lem, put_lem, pack-tag,
  hdrp_lem,
}
use malloc_jt.Mm.Tags.{tag-lt, InArena, tag_bytes, put_header}
use malloc_jt.Mm.Coalesce.Reads.{
  Between, move_temp_lem, prev_header, prev_footer, this_header, prev_at, next_at, Tagged-footer,
}
use malloc_jt.Mm.Coalesce.MergeNext.{Tagged-Same}

-- Footer first, then the header of the block in front.
pub back_bytes : Bytes → Ptr → Block → Bytes
back_bytes m a b = write_word (write_word m (a + b.size - 8) (tag b)) (a - 4) (tag b)

pub IsBlock-back_bytes :
    {s : State} {a : Ptr} {b : Block} → InArena s a b → IsBlock (back_bytes s.bytes a b) a b
unfolding back_bytes
IsBlock-back_bytes {s} {a} {b} i =
    let m' = write_word s.bytes (a + b.size - 8) (tag b) in
    record {
      header = word-write_self m' (a - 4) (tag b) (tag-lt b i.narrow);
      footer =
          word-write_other m' (a - 4) (tag b) (a + b.size - 8) (omega (arith, i.low, i.least))
          ∙ word-write_self s.bytes (a + b.size - 8) (tag b) (tag-lt b i.narrow);
      least = i.least;
      eights = i.eights;
    }

pub Same-back_bytes :
    {s : State} {a : Ptr} {b : Block}
    → InArena s a b
    → Same (a - 4) (a + b.size - 4) s.bytes (back_bytes s.bytes a b)
unfolding back_bytes
Same-back_bytes {s} {a} {b} i =
    Same-trans
      (Same-write_word s.bytes (a + b.size - 8) (tag b) (omega (arith, i.low, i.least))
        (omega (arith, i.least)))
      (Same-write_word (write_word s.bytes (a + b.size - 8) (tag b)) (a - 4) (tag b) (omega arith)
        (omega (arith, i.least, i.low)))

-- The header that `PUT(HDRP(bp), PACK(size, 0))` has just written.
pub header_written :
    {s : State} {a : Ptr} {b : Block} (m : Bytes)
    → InArena s a b
    → Tagged (with_bytes s (write_word m (a - 4) (tag b))) (a - 4) b
header_written {a} {b} m i = record {
  low = omega (arith, i.low);
  high = omega (arith, i.high, i.low, i.least);
  small = i.small;
  holds = word-write_self m (a - 4) (tag b) (tag-lt b i.narrow);
  eights = i.eights;
}

module _ {s : State} {a0 : Ptr} {p : Block} {n : ℕ} {post : List Block}
    (w : Between s a0 p n post) where
  pub prev_InArena : InArena s a0 (free_block (n + p.size))
  prev_InArena = record {
    not_low = w.not_low;
    low = omega (arith, w.low);
    high = omega (arith, w.high);
    small = w.small;
    narrow = omega (arith, w.narrow);
    least = omega (arith, w.this.least);
    eights = omega (arith, w.this.eights, w.prev.eights);
  }

  -- The footer in front of the block still leads to its neighbour.
  prev_of :
      (m : Bytes)
      → Tagged (with_bytes s m) (a0 + p.size - 8) p
      → prev_blkp (a0 + p.size) (with_bytes s m) ≡ ok a0 (with_bytes s m)
  prev_of m t =
      prev_blkp_lem (with_bytes s m) (a0 + p.size) p t (omega (arith, w.low)) (omega arith)
        (omega (arith, w.high, w.small))
      ∙ ap (λ k. ok k (with_bytes s m)) (omega arith)

  pub merge_prev_lem :
      let b = free_block (n + p.size) in
      merge_prev (a0 + p.size) n s
      ≡ ok a0
          (record s { bytes = back_bytes s.bytes a0 b; temp = moved a0 (a0 + (n + p.size)) s.temp })
  unfolding merge_prev back_bytes
  merge_prev_lem =
      let b = free_block (n + p.size) in
      let a = a0 + p.size in
      let i = prev_InArena in
      let m' = write_word s.bytes (a + n - 8) (tag b) in
      let m = write_word m' (a0 - 4) (tag b) in
      let e : (n + p.size) % 2 ^ 64 % u32 ≡ n + p.size = omega (arith, w.narrow) in
      let f : a0 + (n + p.size) - 8 ≡ a + n - 8 = omega arith in
      let same' =
        Same-write_word s.bytes {lo = a} {hi = a + n - 4} (a + n - 8) (tag b)
          (omega (arith, w.this.least)) (omega (arith, w.this.least)) in
      let same =
        Same-write_word m' {lo = a0 - 4} {hi = a0} (a0 - 4) (tag b) (omega arith)
          (omega (arith, w.low)) in
      let foot : Tagged (with_bytes s m') (a - 8) p =
        Tagged-Same same' (omega (arith, w.low, w.not_low)) (prev_footer w) in
      let foot' : Tagged (with_bytes s m) (a - 8) p =
        Tagged-Same same (omega (arith, w.prev.least)) foot in
      rw
        (
          prev_at w,
          size_at s a0 p (prev_header w) (omega (arith, w.low)),
          e,
          ftrp_lem s a (free_block n) (this_header w) (omega (arith, w.low))
              (omega (arith, w.high, w.small)),
          pack-tag b i.eights,
          put_lem s (a + n - 8) (tag b) (omega (arith, w.low, w.this.least))
              (omega (arith, w.high, w.this.least)),
          prev_of m' foot,
          hdrp_lem a0 (omega (arith, w.low)) (omega (arith, w.high, w.small)),
          put_lem (with_bytes s m') (a0 - 4) (tag b) (omega (arith, w.low))
              (omega (arith, w.high, w.this.least)),
          prev_of m foot',
          f,
        )
        (move_temp_lem (with_bytes s m) a0 b (header_written m' i) (omega (arith, w.low))
          (omega (arith, w.high, w.small)))

module _ {s : State} {a0 : Ptr} {p q : Block} {n : ℕ} {post : List Block}
    (w : Between s a0 p n (q ∷ post)) where
  pub both_InArena : InArena s a0 (free_block (n + (q.size + p.size)))
  both_InArena = record {
    not_low = w.not_low;
    low = omega (arith, w.low);
    high = omega (arith, w.high);
    small = w.small;
    narrow = omega (arith, w.narrow);
    least = omega (arith, w.this.least);
    eights = omega (arith, w.this.eights, w.prev.eights, w.next.eights);
  }

  pub merge_both_lem :
      let b = free_block (n + (q.size + p.size)) in
      IsBlock s.bytes (a0 + p.size + n) q
      → merge_both (a0 + p.size) n s
        ≡ ok a0 (record s {
          bytes = tag_bytes s.bytes a0 b;
          temp = moved a0 (a0 + (n + (q.size + p.size))) s.temp;
        })
  unfolding merge_both tag_bytes
  merge_both_lem is =
      let b = free_block (n + (q.size + p.size)) in
      let a = a0 + p.size in
      let c = a + n in
      let i = both_InArena in
      let m' = write_word s.bytes (a0 - 4) (tag b) in
      let m = write_word m' (c + q.size - 8) (tag b) in
      let size : (n + add32 q.size p.size) % 2 ^ 64 % u32 ≡ n + (q.size + p.size) =
        omega (arith, w.narrow) in
      let end : a0 + (n + (q.size + p.size)) - 8 ≡ c + q.size - 8 = omega arith in
      let same' =
        Same-write_word s.bytes {lo = a0 - 4} {hi = a0} (a0 - 4) (tag b) (omega arith)
          (omega (arith, w.low)) in
      let same =
        Same-write_word m' {lo = c} {hi = c + q.size - 4} (c + q.size - 8) (tag b)
          (omega (arith, is.least)) (omega (arith, is.least)) in
      let next_footer =
        Tagged-footer {s = s} is (omega (arith, w.low)) (omega (arith, w.high)) w.small in
      let this' = Tagged-Same same' (omega (arith, w.low, w.prev.least)) (this_header w) in
      let next' = Tagged-Same same' (omega (arith, w.low, w.this.least)) w.next in
      let foot' : Tagged (with_bytes s m') (a - 8) p =
        Tagged-Same same' (omega (arith, w.low, w.prev.least)) (prev_footer w) in
      let foot : Tagged (with_bytes s m) (a - 8) p =
        Tagged-Same same (omega (arith, w.low, w.this.least)) foot' in
      let top : Tagged (with_bytes s m) (a0 - 4) b =
        Tagged-Same same (omega (arith, w.low, w.this.least)) (header_written s.bytes i) in
      rw
        (
          next_at w,
          ftrp_lem s c q w.next (omega (arith, w.low)) (omega (arith, w.high, w.small)),
          get_size_lem next_footer,
          prev_at w,
          size_at s a0 p (prev_header w) (omega (arith, w.low)),
          size,
          prev_at w,
          put_header i,
          next_blkp_lem (with_bytes s m') a (free_block n) this' (omega (arith, w.low))
              (omega (arith, w.high, w.small)),
          ftrp_lem (with_bytes s m') c q next' (omega (arith, w.low))
              (omega (arith, w.high, w.small)),
          pack-tag b i.eights,
          put_lem (with_bytes s m') (c + q.size - 8) (tag b) (omega (arith, w.low, is.least))
              (omega (arith, w.high, is.least)),
          prev_of w m foot,
          end,
        )
        (move_temp_lem (with_bytes s m) a0 b top (omega (arith, w.low))
          (omega (arith, w.high, w.small)))
