-- ===== src/Mm/Tags.antt =====
-- The pair of writes `PUT(HDRP(bp), …); PUT(FTRP(bp), …);` makes a block.
use malloc_jt.Base.{◌+◌, ◌-◌, ◌%◌, ◌≤◌, ◌<◌, ◌≡◌, ◌∙◌, arith, u32, u64}
use malloc_jt.Machine.{Ptr, Bytes, write_word, State, ok, with_bytes}
use malloc_jt.Machine.Words.{Same, Same-write_word, Same-trans, word-write_self, word-write_other}
use malloc_jt.Heap.{Block, bit, tag, IsBlock}
use malloc_jt.Mm.{pack, put, hdrp, put_tags}
use malloc_jt.Mm.Steps.{Tagged, put_lem, pack-tag, hdrp_lem, ftrp_lem}

unfoldable pub tag_bytes : Bytes → Ptr → Block → Bytes
tag_bytes m a b = write_word (write_word m (a - 4) (tag b)) (a + b.size - 8) (tag b)

-- The extent of a block lies in the arena.
pub record InArena (s : State) (a : Ptr) (b : Block) : Type 0 where
  pub not_low : 8 ≤ s.mem_start_brk
  pub low : s.mem_start_brk + 4 ≤ a
  pub high : a + b.size ≤ s.mem_max_addr
  pub small : s.mem_max_addr < u64
  pub narrow : b.size < u32 - 8
  pub least : 8 ≤ b.size
  pub eights : b.size % 8 ≡ 0

pub tag-lt : (b : Block) → b.size < u32 - 8 → tag b < u32
tag-lt b h = ground arith

module _ {s : State} {a : Ptr} {b : Block} (i : InArena s a b) where
  pub put_header :
      put (hdrp a) (pack b.size (bit b.alloc)) s
      ≡ ok tt (with_bytes s (write_word s.bytes (a - 4) (tag b)))
  put_header = rw (
    hdrp_lem a (omega (arith, i.low, i.not_low)) (omega (arith, i.high, i.small, i.least)),
    pack-tag b i.eights,
    put_lem s (a - 4) (tag b) (omega (arith, i.low)) (omega (arith, i.high, i.low, i.least)),
  )

  header_Tagged : Tagged (with_bytes s (write_word s.bytes (a - 4) (tag b))) (a - 4) b
  header_Tagged = record {
    low = omega (arith, i.low);
    high = omega (arith, i.high, i.low, i.least);
    small = omega (arith, i.small);
    holds = word-write_self s.bytes (a - 4) (tag b) (tag-lt b i.narrow);
    eights = i.eights;
  }

  pub put_tags_lem :
      put_tags a b.size (bit b.alloc) s ≡ ok tt (with_bytes s (tag_bytes s.bytes a b))
  unfolding put_tags tag_bytes
  put_tags_lem =
      let m = write_word s.bytes (a - 4) (tag b) in
      rw (
        put_header,
        ftrp_lem (with_bytes s m) a b header_Tagged (omega (arith, i.low, i.not_low))
            (omega (arith, i.high, i.small)),
        pack-tag b i.eights,
        put_lem (with_bytes s m) (a + b.size - 8) (tag b) (omega (arith, i.low, i.least))
            (omega (arith, i.high)),
      )

  pub IsBlock-tag_bytes : (m : Bytes) → IsBlock (tag_bytes m a b) a b
  unfolding tag_bytes
  IsBlock-tag_bytes m =
      let m' = write_word m (a - 4) (tag b) in
      let v = tag-lt b i.narrow in
      record {
        header =
            word-write_other m' (a + b.size - 8) (tag b) (a - 4) (omega (arith, i.low, i.least))
            ∙ word-write_self m (a - 4) (tag b) v;
        footer = word-write_self m' (a + b.size - 8) (tag b) v;
        least = i.least;
        eights = i.eights;
      }

  pub Same-tag_bytes : (m : Bytes) → Same (a - 4) (a + b.size - 4) m (tag_bytes m a b)
  unfolding tag_bytes
  Same-tag_bytes m =
      Same-trans (Same-write_word m (a - 4) (tag b) (omega arith) (omega (arith, i.low, i.least))) (
        Same-write_word (write_word m (a - 4) (tag b)) (a + b.size - 8) (tag b)
          (omega (arith, i.least)) (omega (arith, i.least, i.low)))
