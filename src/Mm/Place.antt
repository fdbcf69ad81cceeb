-- ===== src/Mm/Place.antt =====
-- `place` in a free block of a heap: it becomes the blocks that `Heap.Cut.cut` names.
pub mod Grant
use malloc_jt.Base.{
  ℕ, ◌+◌, ◌-◌, ◌%◌, ◌≤◌, ◌<◌, ◌≡◌, inl, inr, refl, ap, subst, arith, Bool, true, false, List, [],
  ◌∷◌, ◌++◌, leb, sub32, u32, leb→le, Bool-cases,
}
use malloc_jt.Machine.{Ptr, Bytes, State, Outcome, ok, with_bytes}
use malloc_jt.Machine.Words.{Same, Same-trans, Same-widen}
use malloc_jt.Heap.{Block, free_block, used_block, total, bit, IsBlock, Segment, Layout}
use malloc_jt.Heap.Cut.{cut, splits, total-cut}
use malloc_jt.Heap.Segments.{IsBlock-Same, Layout-replace}
use malloc_jt.Mm.{place, put_tags, next_blkp}
use malloc_jt.Mm.Steps.{Tagged, next_blkp_lem}
use malloc_jt.Mm.Tags.{InArena, tag_bytes, put_tags_lem, IsBlock-tag_bytes, Same-tag_bytes}
use malloc_jt.Mm.Coalesce.MergeNext.{Tagged-block}
use malloc_jt.Mm.Retag.{
  block_at, block_end, size_of_block, put_tags_at, Same-retag, Layout-retag, InArena-within,
}

pub InArena-bytes :
    {s : State} {a : Ptr} {b : Block} (m : Bytes) → InArena s a b → InArena (with_bytes s m) a b
InArena-bytes m i = record {
  not_low = i.not_low;
  low = i.low;
  high = i.high;
  small = i.small;
  narrow = i.narrow;
  least = i.least;
  eights = i.eights;
}

-- The outcome of `place` in the free block behind `pre`.
pub record Placed (s : State) (pre post : List Block) (n asize : ℕ) (r : Outcome (Unit {0}))
    : Type 0 where
  pub bytes : Bytes
  pub returns : r ≡ ok tt (with_bytes s bytes)
  pub layout : Layout (with_bytes s bytes) (pre ++ (cut (splits n asize) n asize ++ post))
  pub same :
      Same
        (s.mem_start_brk + 8 + total pre - 4)
        (s.mem_start_brk + 8 + total pre + n - 4)
        s.bytes
        bytes

module _ (s : State) (pre post : List Block) (n asize : ℕ)
    (l : Layout s (pre ++ (free_block n ∷ post))) (least : 8 ≤ asize) (eights : asize % 8 ≡ 0)
    (h : asize ≤ n) where
  abbrev here : Ptr
  here = s.mem_start_brk + 8 + total pre

  abbrev is : IsBlock s.bytes here (free_block n)
  is = block_at pre (free_block n) post l

  narrow : n < u32
  narrow = omega (arith, block_end pre (free_block n) post l, l.room, l.limit)

  -- The block is taken whole.
  whole :
      Layout
        (with_bytes s (tag_bytes s.bytes here (used_block n)))
        (pre ++ (cut false n asize ++ post))
  whole = Layout-retag pre (free_block n) post l (used_block n) refl

  module _ (more : 16 ≤ n - asize) where
    abbrev first : Bytes
    first = tag_bytes s.bytes here (used_block asize)

    abbrev second : Bytes
    second = tag_bytes first (here + asize) (free_block (n - asize))

    front : InArena s here (used_block asize)
    front =
        InArena-within pre (free_block n) post l here (used_block asize) (omega arith) (omega arith)
          (omega arith) eights

    back : InArena (with_bytes s first) (here + asize) (free_block (n - asize))
    back = InArena-bytes first (
        InArena-within pre (free_block n) post l (here + asize) (free_block (n - asize))
          (omega arith) (omega arith) (omega arith) (omega (arith, is.eights)))

    next_is : next_blkp here (with_bytes s first) ≡ ok (here + asize) (with_bytes s first)
    next_is =
        next_blkp_lem (with_bytes s first) here (used_block asize)
          (Tagged-block front (IsBlock-tag_bytes front s.bytes)) (omega arith)
          (omega (arith, front.high, front.small))

    Same-second : Same (here + asize - 4) (here + n - 4) first second
    Same-second = Same-widen _ _ (Same-tag_bytes back first) (omega arith) (omega arith)

    Same-both : Same (here - 4) (here + n - 4) s.bytes second
    Same-both =
        Same-trans (Same-widen _ _ (Same-tag_bytes front s.bytes) (omega arith) (omega arith))
          (Same-widen _ _ Same-second (omega arith) (omega arith))

    halves : Layout (with_bytes s second) (pre ++ (cut true n asize ++ post))
    halves =
        Layout-replace pre (free_block n ∷ []) (cut true n asize) post here l refl
          (Same-widen _ _ Same-both (omega arith) (omega arith))
          (
            IsBlock-Same Same-second (omega arith) (inl (omega arith))
                (IsBlock-tag_bytes front s.bytes),
            (IsBlock-tag_bytes back first, tt),
          )
          (omega arith)

  difference : sub32 n asize ≡ n - asize
  difference = omega (arith, narrow)

  place_halves :
      (y : splits n asize ≡ true)
      → place here asize s ≡ ok tt (with_bytes s (second (leb→le 16 (n - asize) y)))
  unfolding place
  place_halves y =
      let more = leb→le 16 (n - asize) y in
      rw (
        size_of_block pre (free_block n) post l,
        difference,
        y,
        put_tags_lem (front more),
        next_is more,
        put_tags_lem (back more),
      )

  place_whole :
      splits n asize ≡ false
      → place here asize s ≡ ok tt (with_bytes s (tag_bytes s.bytes here (used_block n)))
  unfolding place
  place_whole y = rw (
    size_of_block pre (free_block n) post l,
    difference,
    y,
    put_tags_at pre (free_block n) post l (used_block n) refl,
  )

  -- `place` returns, and cuts the block.
  pub place-Placed : Placed s pre post n asize (place here asize s)
  place-Placed = elim (Bool-cases (splits n asize)) [
    | inl y ↦ record {
      bytes = second (leb→le 16 (n - asize) y);
      returns = place_halves y;
      layout = rw y (halves (leb→le 16 (n - asize) y));
      same = Same-both (leb→le 16 (n - asize) y);
    }
    | inr y ↦ record {
      bytes = tag_bytes s.bytes here (used_block n);
      returns = place_whole y;
      layout = rw y whole;
      same = Same-retag pre (free_block n) post l (used_block n) refl;
    }
  ]
