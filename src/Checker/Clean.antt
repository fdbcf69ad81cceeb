-- ===== src/Checker/Clean.antt =====
-- On a well-formed heap `mm_checkheap` ends, changes nothing and reports no error.
use malloc_jt.Base.{
  ℕ, zero, suc, ◌+◌, ◌-◌, ◌%◌, ◌<◌, ◌≡◌, refl, sym, ap, subst, arith, Bool, true, false, List, [],
  ◌∷◌, ◌++◌, append_assoc, append-nil, length, ltb, lt→ltb, if◌then◌else◌,
}
use malloc_jt.Machine.{Ptr, State, ok}
use malloc_jt.Heap.{Block, prologue, total, Layout, IsHeap}
use malloc_jt.Heap.Gap.{head}
use malloc_jt.Heap.Segments.{total-append}
use malloc_jt.Mm.{get_size, get_alloc, hdrp}
use malloc_jt.Mm.Steps.{Tagged, size_at, alloc_at, ftrp_lem}
use malloc_jt.Mm.Coalesce.Reads.{Tagged-head}
use malloc_jt.Mm.FindFit.{length-le-total}
use malloc_jt.Mm.Retag.{block_at, header_at}
use malloc_jt.Checker.{
  Message, heap_at, block_line, end_of_list, printblock, checkblock, when, walk, mm_checkheap,
}
use malloc_jt.Checker.Blocks.{
  listing, get_size_any, get_alloc_any, printblock_lem, checkblock_lem, next_lem, size_lem,
}

-- The messages of the loop over `bs` from `a` on.
abbrev pub lines : Bool → Ptr → List Block → List Message
lines verbose a bs = if verbose then listing a bs else []

lines-cons :
    (verbose : Bool) (a : Ptr) (b : Block) (bs : List Block)
    → lines verbose a (b ∷ bs)
      ≡ (if verbose then block_line a b.size b.alloc b.size b.alloc ∷ [] else [])
        ++ lines verbose (a + b.size) bs
unfolding listing
lines-cons true a b bs = refl
lines-cons false a b bs = refl

when_lem :
    (verbose : Bool) (s : State) (p : Ptr) (ms : List Message)
    → printblock p s ≡ ok ms s
    → when verbose (printblock p) s ≡ ok (if verbose then ms else []) s
unfolding when
when_lem true s p ms e = e
when_lem false s p ms e = refl

walk-lines :
    (s : State) (verbose : Bool) (fuel : ℕ) (pre post : List Block) (a : Ptr)
    → Layout s (pre ++ post)
    → a ≡ s.mem_start_brk + 8 + total pre
    → a % 8 ≡ 0
    → length post < fuel
    → walk fuel verbose a s ≡ ok (lines verbose a post, s.mem_brk) s
unfolding walk listing
walk-lines s verbose zero pre post a l e z f = absurd (omega arith)
walk-lines s verbose (suc fuel) pre [] a l e z f =
    rw (size_at s a (head []) (Tagged-head s pre [] a l e) (omega arith))
      (ap (λ (r : List Message × Ptr). ok r s) (end_of verbose))
  where
    end_of : (v : Bool) → ◌≡◌ {A = List Message × Ptr} ([], a) (lines v a [], s.mem_brk)
    end_of true = ap (λ (p : Ptr). ([], p)) (omega (arith, l.brk, total-append pre []))
    end_of false = ap (λ (p : Ptr). ([], p)) (omega (arith, l.brk, total-append pre []))
walk-lines s verbose (suc fuel) pre (b ∷ post) a l e z f =
    let here = s.mem_start_brk + 8 + total pre in
    let pos : ltb 0 b.size ≡ true =
      lt→ltb 0 b.size (omega (arith, (block_at pre b post l).least)) in
    let l' = subst (Layout s) (sym (append_assoc pre (b ∷ []) post)) l in
    let e' : here + b.size ≡ s.mem_start_brk + 8 + total (pre ++ (b ∷ [])) =
      omega (arith, total-append pre (b ∷ [])) in
    rw (
      e,
      size_lem s pre b post l,
      pos,
      when_lem verbose s here (block_line here b.size b.alloc b.size b.alloc ∷ [])
          (printblock_lem s pre b post l),
      checkblock_lem s pre b post l (omega arith),
      next_lem s pre b post l,
      walk-lines s verbose fuel (pre ++ (b ∷ [])) post (here + b.size) l' e'
          (omega (arith, (block_at pre b post l).eights)) (omega arith),
      lines-cons verbose here b post,
    )

-- At the epilogue, whose footer is not looked at.
printblock-end :
    (s : State) (bs : List Block)
    → Layout s bs
    → printblock s.mem_brk s ≡ ok (end_of_list s.mem_brk ∷ []) s
unfolding printblock
printblock-end s bs l =
    let t : Tagged s (s.mem_brk - 4) (head []) =
      Tagged-head s bs [] s.mem_brk (subst (Layout s) (sym (append-nil bs)) l) l.brk in
    let f =
      ftrp_lem s s.mem_brk (head []) t (omega (arith, l.brk)) (omega (arith, l.room, l.small)) in
    let n =
      get_size_any s (s.mem_brk + 0 - 8) (omega (arith, l.brk))
        (omega (arith, l.room, l.not_low, l.brk)) in
    let a =
      get_alloc_any s (s.mem_brk + 0 - 8) (omega (arith, l.brk))
        (omega (arith, l.room, l.not_low, l.brk)) in
    rw (
      size_at s s.mem_brk (head []) t (omega (arith, l.brk)),
      alloc_at s s.mem_brk (head []) t (omega (arith, l.brk)),
      f,
      n.1,
      f,
      a.1,
    )

-- What `mm_checkheap` prints for a heap without errors.
unfoldable pub clean_report : Bool → State → List Block → List Message
clean_report false s bs = []
clean_report true s bs =
    heap_at s.heap_listp ∷ (listing s.heap_listp (prologue ∷ bs) ++ (end_of_list s.mem_brk ∷ []))

-- On a well-formed heap `mm_checkheap` returns, changes nothing and reports no error: it prints
-- nothing or, if it is to be verbose, the start of the heap, each block with its size and allocated
-- bit, and the end of the list.
pub mm_checkheap-clean :
    (s : State) (bs : List Block) (verbose : Bool)
    → IsHeap s bs
    → mm_checkheap verbose s ≡ ok (clean_report verbose s bs) s
unfolding mm_checkheap clean_report
mm_checkheap-clean s bs verbose h =
    let l = h.layout in
    let base = s.mem_start_brk + 8 in
    let p = s.heap_listp in
    let fuel = s.mem_max_addr - s.mem_start_brk in
    let few = length-le-total s.bytes base (prologue ∷ bs) l.blocks in
    let t : Tagged s (s.mem_brk - 4) (head []) =
      Tagged-head s (prologue ∷ bs) [] s.mem_brk
        (subst (Layout s) (sym (append-nil (prologue ∷ bs))) l) l.brk in
    let at : base + 0 ≡ p = omega (arith, l.listp) in
    let size = subst (λ a. get_size (hdrp a) s ≡ ok 8 s) at (size_lem s [] prologue bs l) in
    let alloc =
      subst (λ a. get_alloc (hdrp a) s ≡ ok 1 s) at
        (alloc_at s (base + 0) prologue (header_at [] prologue bs l) (omega arith)) in
    let check =
      subst (λ a. checkblock a s ≡ ok [] s) at
        (checkblock_lem s [] prologue bs l (omega (arith, l.aligned))) in
    let loop =
      walk-lines s verbose fuel [] (prologue ∷ bs) p l (omega (arith, l.listp))
        (omega (arith, l.listp, l.aligned)) (omega (arith, l.brk)) in
    rw
      (
        size,
        alloc,
        check,
        loop,
        when_lem verbose s s.mem_brk (end_of_list s.mem_brk ∷ [])
            (printblock-end s (prologue ∷ bs) l),
        size_at s s.mem_brk (head []) t (omega (arith, l.brk)),
        alloc_at s s.mem_brk (head []) t (omega (arith, l.brk)),
      )
      (ap (λ (ms : List Message). ok ms s) (joined verbose))
  where
    joined :
        (v : Bool)
        → (if v then heap_at s.heap_listp ∷ [] else [])
            ++ (lines v s.heap_listp (prologue ∷ bs)
                ++ ((if v then end_of_list s.mem_brk ∷ [] else []) ++ []))
          ≡ clean_report v s bs
    joined true = refl
    joined false = refl
