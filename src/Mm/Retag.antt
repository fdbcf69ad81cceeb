-- ===== src/Mm/Retag.antt =====
-- Rewriting the boundary tags of one block in a heap.
use malloc_jt.Base.{◌+◌, ◌-◌, ◌%◌, ◌≤◌, ◌≡◌, refl, arith, List, [], ◌∷◌, ◌++◌}
use malloc_jt.Machine.{Ptr, State, ok, with_bytes}
use malloc_jt.Machine.Words.{Same, Same-widen}
use malloc_jt.Heap.{Block, bit, total, IsBlock, Layout}
use malloc_jt.Heap.Segments.{Segment-split, Layout-replace, total-append}
use malloc_jt.Mm.{get_size, hdrp, put_tags}
use malloc_jt.Mm.Steps.{Tagged, size_at}
use malloc_jt.Mm.Tags.{InArena, tag_bytes, put_tags_lem, IsBlock-tag_bytes, Same-tag_bytes}
use malloc_jt.Mm.Coalesce.Reads.{Tagged-header}

module _ {s : State} (pre : List Block) (b : Block) (post : List Block)
    (l : Layout s (pre ++ (b ∷ post))) where
  abbrev here : Ptr
  here = s.mem_start_brk + 8 + total pre

  pub block_at : IsBlock s.bytes here b
  block_at = (Segment-split s.bytes (s.mem_start_brk + 8) pre (b ∷ post) l.blocks).1.0

  pub block_end : here + b.size + total post ≡ s.mem_brk
  block_end = omega (arith, l.brk, total-append pre (b ∷ post))

  pub header_at : Tagged s (here - 4) b
  header_at =
      Tagged-header block_at (omega arith) (omega (arith, block_end, l.room))
        (omega (arith, l.small))

  pub size_of_block : get_size (hdrp here) s ≡ ok b.size s
  size_of_block = size_at s here b header_at (omega arith)

  -- Any block within the extent of this one.
  pub InArena-within :
      (a : Ptr) (x : Block)
      → here ≤ a
      → a + x.size ≤ here + b.size
      → 8 ≤ x.size
      → x.size % 8 ≡ 0
      → InArena s a x
  InArena-within a x h k least eights = record {
    not_low = l.not_low;
    low = omega arith;
    high = omega (arith, block_end, l.room);
    small = omega (arith, l.small);
    narrow = omega (arith, block_end, l.room, l.limit, l.small);
    least = least;
    eights = eights;
  }

  module _ (x : Block) (e : x.size ≡ b.size) where
    retag_InArena : InArena s here x
    retag_InArena =
        InArena-within here x (omega arith) (omega arith) (omega (arith, block_at.least))
          (omega (arith, block_at.eights))

    pub put_tags_at :
        put_tags here x.size (bit x.alloc) s ≡ ok tt (with_bytes s (tag_bytes s.bytes here x))
    put_tags_at = put_tags_lem retag_InArena

    pub Same-retag : Same (here - 4) (here + b.size - 4) s.bytes (tag_bytes s.bytes here x)
    Same-retag = Same-widen _ _ (Same-tag_bytes retag_InArena s.bytes) (omega arith) (omega arith)

    pub Layout-retag : Layout (with_bytes s (tag_bytes s.bytes here x)) (pre ++ (x ∷ post))
    Layout-retag =
        Layout-replace pre (b ∷ []) (x ∷ []) post here l refl
          (Same-widen _ _ Same-retag (omega arith) (omega arith))
          (IsBlock-tag_bytes retag_InArena s.bytes, tt) (omega arith)
