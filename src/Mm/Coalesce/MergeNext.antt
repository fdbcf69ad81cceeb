-- ===== src/Mm/Coalesce/MergeNext.antt =====
-- What `merge_next` does to the tags: a free block takes in the one after it.
use malloc_jt.Base.{ℕ, ◌+◌, ◌-◌, ◌%◌, ◌^◌, ◌≤◌, ◌≡◌, ◌⊎◌, ◌∙◌, arith, u32, List, ◌∷◌}
use malloc_jt.Machine.{Ptr, Bytes, State, ok, with_bytes}
use malloc_jt.Machine.Words.{Same, word-Same}
use malloc_jt.Heap.{Block, free_block, IsBlock}
use malloc_jt.Heap.Lists.{moved}
use malloc_jt.Mm.{merge_next}
use malloc_jt.Mm.Steps.{Tagged, size_at}
use malloc_jt.Mm.Tags.{InArena, tag_bytes, put_tags_lem, IsBlock-tag_bytes}
use malloc_jt.Mm.Coalesce.Reads.{Between, move_temp_lem, next_at}

pub Tagged-Same :
    {s : State} {m : Bytes} {lo hi q : ℕ} {b : Block}
    → Same lo hi s.bytes m
    → (q + 4 ≤ lo) ⊎ (hi ≤ q)
    → Tagged s q b
    → Tagged (with_bytes s m) q b
Tagged-Same {q} same o t = record {
  low = t.low;
  high = t.high;
  small = t.small;
  holds = word-Same q same o ∙ t.holds;
  eights = t.eights;
}

-- A block that was just written has its header.
pub Tagged-block :
    {s : State} {m : Bytes} {a : Ptr} {b : Block}
    → InArena s a b
    → IsBlock m a b
    → Tagged (with_bytes s m) (a - 4) b
Tagged-block i is = record {
  low = omega (arith, i.low);
  high = omega (arith, i.high, i.low, i.least);
  small = i.small;
  holds = is.header;
  eights = i.eights;
}

module _ {s : State} {a0 : Ptr} {p q : Block} {n : ℕ} {post : List Block}
    (w : Between s a0 p n (q ∷ post)) where
  pub next_InArena : InArena s (a0 + p.size) (free_block (n + q.size))
  next_InArena = record {
    not_low = w.not_low;
    low = omega (arith, w.low);
    high = omega (arith, w.high);
    small = w.small;
    narrow = omega (arith, w.narrow);
    least = omega (arith, w.this.least);
    eights = omega (arith, w.this.eights, w.next.eights);
  }

  pub merge_next_lem :
      let b = free_block (n + q.size) in
      let a = a0 + p.size in
      merge_next a n s
      ≡ ok a (record s { bytes = tag_bytes s.bytes a b; temp = moved a (a + (n + q.size)) s.temp })
  unfolding merge_next
  merge_next_lem =
      let b = free_block (n + q.size) in
      let a = a0 + p.size in
      let i = next_InArena in
      let m = tag_bytes s.bytes a b in
      let e : (n + q.size) % 2 ^ 64 % u32 ≡ n + q.size = omega (arith, w.narrow) in
      rw (
        next_at w,
        size_at s (a0 + p.size + n) q w.next (omega (arith, w.low)),
        e,
        put_tags_lem i,
        move_temp_lem (with_bytes s m) a b (Tagged-block i (IsBlock-tag_bytes i s.bytes))
            (omega (arith, w.low)) (omega (arith, w.high, w.small)),
      )
