-- ===== src/Mm/Coalesce/Widen.antt =====
-- `coalesce` makes the free block as wide as `Heap.Gap.gap` says, in each of its four cases.
use malloc_jt.Base.{
  ℕ, ◌+◌, ◌-◌, ◌≡◌, refl, sym, ap, subst, arith, Bool, true, false, List, [], ◌∷◌, ◌++◌,
  append_assoc, if◌then◌else◌,
}
use malloc_jt.Machine.{Ptr, Bytes, State, ok, Outcome, with_bytes}
use malloc_jt.Machine.Words.{Same, Same-refl}
use malloc_jt.Heap.{Block, free_block, total, IsBlock, Segment, Layout, StartsAt}
use malloc_jt.Heap.Gap.{Gap, fill, widen, gap, head}
use malloc_jt.Heap.Lists.{moved, StartsAt-moved}
use malloc_jt.Heap.Segments.{Segment-split, Layout-replace, total-append}
use malloc_jt.Mm.{coalesce, merge_next, merge_prev, merge_both}
use malloc_jt.Mm.Tags.{IsBlock-tag_bytes, Same-tag_bytes}
use malloc_jt.Mm.Coalesce.Reads.{Between-Layout, coalesce_reads}
use malloc_jt.Mm.Coalesce.Merge.{
  merge_prev_lem, merge_both_lem, prev_InArena, both_InArena, IsBlock-back_bytes, Same-back_bytes,
}
use malloc_jt.Mm.Coalesce.MergeNext.{merge_next_lem, next_InArena}

-- The outcome `r` of a `coalesce` in state `s`, whose blocks were `old`: it returns the start of the
-- free block of `g`, writes only within that block, and keeps `temp` at a block.
pub record Coalesced (s : State) (g : Gap) (old : List Block) (r : Outcome Ptr) : Type 0 where
  pub bytes : Bytes
  pub temp : Ptr
  pub returns :
      r ≡ ok (s.mem_start_brk + 8 + total g.front) (record s { bytes = bytes; temp = temp })
  pub layout : Layout (record s { bytes = bytes; temp = temp }) (fill g)
  pub rover :
      StartsAt (s.mem_start_brk + 8) old s.temp → StartsAt (s.mem_start_brk + 8) (fill g) temp
  pub same :
      Same
        (s.mem_start_brk + 8 + total g.front - 4)
        (s.mem_start_brk + 8 + total g.front + g.size - 4)
        s.bytes
        bytes

pub Layout-temp :
    {s : State} (t : Ptr) (bs : List Block) → Layout s bs → Layout (record s { temp = t }) bs
Layout-temp t bs l = record {
  not_low = l.not_low;
  aligned = l.aligned;
  limit = l.limit;
  small = l.small;
  listp = l.listp;
  blocks = l.blocks;
  brk = l.brk;
  room = l.room;
  epilogue = l.epilogue;
}

-- One free block in place of the blocks `bs`.
merged :
    {s : State} {r : Outcome Ptr} {m : Bytes} (pre bs post : List Block) (n a : ℕ)
    → Layout s (pre ++ (bs ++ post))
    → a ≡ s.mem_start_brk + 8 + total pre
    → n ≡ total bs
    → IsBlock m a (free_block n)
    → Same (a - 4) (a + n - 4) s.bytes m
    → r ≡ ok a (record s { bytes = m; temp = moved a (a + n) s.temp })
    → Coalesced s (record { front = pre; size = n; back = post }) (pre ++ (bs ++ post)) r
merged {s} {r} {m} pre bs post n a l e k is same returns =
    let base = s.mem_start_brk + 8 in
    let t = moved a (a + n) s.temp in
    let front = Segment-split s.bytes base pre (bs ++ post) l.blocks in
    let seg : Segment s.bytes a bs =
      subst (λ p. Segment s.bytes p bs) (sym e)
        (Segment-split s.bytes (base + total pre) bs post front.1).0 in
    record {
      bytes = m;
      temp = t;
      returns = rw (← e) returns;
      layout = Layout-temp {s = with_bytes s m} t (pre ++ (free_block n ∷ post)) (
          Layout-replace pre bs (free_block n ∷ []) post a l e (rw (← k) same) (is, tt)
            (omega (arith, k)));
      rover = StartsAt-moved s.bytes base pre bs post a n s.temp seg e k;
      same = rw (← e) same;
    }

module _ (s : State) (pre : List Block) (p : Block) (n : ℕ) where
  abbrev around : List Block → List Block
  around post = pre ++ (p ∷ free_block n ∷ post)

  abbrev here : Ptr
  here = s.mem_start_brk + 8 + total pre + p.size

  behind : (post : List Block) → around post ≡ (pre ++ (p ∷ [])) ++ (free_block n ∷ post)
  behind post = sym (append_assoc pre (p ∷ []) (free_block n ∷ post))

  place : here ≡ s.mem_start_brk + 8 + total (pre ++ (p ∷ []))
  place = omega (arith, total-append pre (p ∷ []))

  case_next :
      (q : Block) (post : List Block)
      → Layout s (around (q ∷ post))
      → Coalesced s (widen true false pre p n (q ∷ post)) (around (q ∷ post)) (merge_next here n s)
  case_next q post l =
      let w = Between-Layout pre p n (q ∷ post) l in
      let i = next_InArena w in
      rw (behind (q ∷ post)) (
        merged (pre ++ (p ∷ [])) (free_block n ∷ q ∷ []) post (n + q.size) here
          (subst (Layout s) (behind (q ∷ post)) l) place (omega arith) (IsBlock-tag_bytes i s.bytes)
          (Same-tag_bytes i s.bytes) (merge_next_lem w))

  case_prev :
      (post : List Block)
      → Layout s (around post)
      → Coalesced s (widen false true pre p n post) (around post) (merge_prev here n s)
  case_prev post l =
      let w = Between-Layout pre p n post l in
      let i = prev_InArena w in
      merged pre (p ∷ free_block n ∷ []) post (n + p.size) (s.mem_start_brk + 8 + total pre) l refl
        (omega arith) (IsBlock-back_bytes i) (Same-back_bytes i) (merge_prev_lem w)

  case_both :
      (q : Block) (post : List Block)
      → Layout s (around (q ∷ post))
      → Coalesced s (widen false false pre p n (q ∷ post)) (around (q ∷ post)) (merge_both here n s)
  case_both q post l =
      let w = Between-Layout pre p n (q ∷ post) l in
      let i = both_InArena w in
      merged pre (p ∷ free_block n ∷ q ∷ []) post (n + (q.size + p.size))
        (s.mem_start_brk + 8 + total pre) l refl (omega arith) (IsBlock-tag_bytes i s.bytes)
        (Same-tag_bytes i s.bytes)
        (merge_both_lem w
          (Segment-split s.bytes (s.mem_start_brk + 8) pre (p ∷ free_block n ∷ q ∷ post)
            l.blocks).1.1.1.0)

  case_none :
      (post : List Block)
      → Layout s (around post)
      → Coalesced s (widen true true pre p n post) (around post) (ok here s)
  case_none post l = record {
    bytes = s.bytes;
    temp = s.temp;
    returns = ap (λ a. ok a s) place;
    layout = subst (Layout s) (behind post) l;
    rover = λ h. subst (λ bs. StartsAt (s.mem_start_brk + 8) bs s.temp) (behind post) h;
    same = Same-refl s.bytes _ _;
  }

  -- `coalesce` of a free block in any row of blocks returns, and the row it leaves has one free block
  -- in place of the block and its free neighbours. Only the merged block's bytes change, and `temp`
  -- points at a block if it did so before.
  pub coalesce-Coalesced :
      (post : List Block)
      → Layout s (around post)
      → Coalesced s (gap pre p n post) (around post) (coalesce here s)
  coalesce-Coalesced post l =
      rw (coalesce_reads (Between-Layout pre p n post l)) (choose post l p.alloc)
    where
      choose :
          (post : List Block)
          → Layout s (around post)
          → (x : Bool)
          → Coalesced s (widen x (head post).alloc pre p n post) (around post) (
              if x
              then (if (head post).alloc then ok here s else merge_next here n s)
              else (if (head post).alloc then merge_prev here n s else merge_both here n s))
      choose [] l true = case_none [] l
      choose [] l false = case_prev [] l
      choose (q ∷ post) l true =
          elim q.alloc
            as (λ y.
              Coalesced s (widen true y pre p n (q ∷ post)) (around (q ∷ post))
                (if y then ok here s else merge_next here n s)) [
                  | true ↦ case_none (q ∷ post) l
                  | false ↦ case_next q post l
                ]
      choose (q ∷ post) l false =
          elim q.alloc
            as (λ y.
              Coalesced s (widen false y pre p n (q ∷ post)) (around (q ∷ post))
                (if y then merge_prev here n s else merge_both here n s)) [
                  | true ↦ case_prev (q ∷ post) l
                  | false ↦ case_both q post l
                ]
