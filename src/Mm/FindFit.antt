-- ===== src/Mm/FindFit.antt =====
-- `find_fit` is next fit: both loops end, and find what `Heap.NextFit.next_fit` finds.
use malloc_jt.Base.{
  ℕ, zero, suc, ◌+◌, ◌-◌, ◌*◌, ◌≤◌, ◌<◌, ◌≡◌, inl, inr, refl, sym, ap, subst, arith, true, false,
  Option, none, some, List, [], ◌∷◌, ◌++◌, append_assoc, length, ltb, lt→ltb, le→ltb, Bool-cases,
  Option-cases,
}
use malloc_jt.Machine.{Ptr, null, Bytes, State, Outcome, ok, pure, and_then}
use malloc_jt.Heap.{Block, prologue, total, Segment, Layout, IsHeap}
use malloc_jt.Heap.NextFit.{suits, first_fit, next_fit, next_fit-hit, next_fit-miss}
use malloc_jt.Heap.Segments.{total-append, Segment-split}
use malloc_jt.Heap.Lists.{At-Holds}
use malloc_jt.Mm.{get_size, hdrp, next_blkp, fits, scan_to_end, scan_to_old, find_fit}
use malloc_jt.Mm.Steps.{Tagged, size_at, alloc_at, next_blkp_lem}
use malloc_jt.Heap.Gap.{head}
use malloc_jt.Mm.Coalesce.Reads.{Tagged-head}
use malloc_jt.Mm.Coalesce.Widen.{Layout-temp}
use malloc_jt.Mm.Retag.{block_at, block_end, header_at}

abbrev pub at_temp : State → Ptr → State
at_temp s t = record s { temp = t }

-- What a loop returns and where it leaves `temp`: at the hit, or at `end`.
abbrev pub hit : State → Ptr → Option Ptr → Outcome (Option Ptr)
hit s end none = ok none (at_temp s end)
hit s end (some p) = ok (some p) (at_temp s p)

pub length-le-total :
    (m : Bytes) (a : Ptr) (bs : List Block) → Segment m a bs → 8 * length bs ≤ total bs
length-le-total m a [] seg = omega arith
length-le-total m a (b ∷ bs) seg =
    omega (arith, length-le-total m (a + b.size) bs seg.1, seg.0.least)

module _ (s : State) (asize : ℕ) where
  -- One round over the block behind `pre`, with `temp` at it.
  module _ (pre : List Block) (b : Block) (post : List Block)
      (l : Layout s (pre ++ (b ∷ post))) where
    abbrev here : Ptr
    here = s.mem_start_brk + 8 + total pre

    moved_layout : Layout (at_temp s here) (pre ++ (b ∷ post))
    moved_layout = Layout-temp here (pre ++ (b ∷ post)) l

    tagged : Tagged (at_temp s here) (here - 4) b
    tagged = header_at pre b post moved_layout

    size_here : get_size (hdrp here) (at_temp s here) ≡ ok b.size (at_temp s here)
    size_here = size_at (at_temp s here) here b tagged (omega arith)

    next_here : next_blkp here (at_temp s here) ≡ ok (here + b.size) (at_temp s here)
    next_here =
        next_blkp_lem (at_temp s here) here b tagged (omega arith)
          (omega (arith, block_end pre b post l, l.room, l.small))

    fits-here : fits asize here (at_temp s here) ≡ ok (suits asize b) (at_temp s here)
    unfolding fits
    fits-here =
        rw (alloc_at (at_temp s here) here b tagged (omega arith))
          (elim (Bool-cases b.alloc) [ inl y ↦ rw y | inr y ↦ rw (y, size_here) ])

    positive : ltb 0 b.size ≡ true
    positive = lt→ltb 0 b.size (omega (arith, (block_at pre b post l).least))

  shift :
      (pre : List Block) (b : Block) (post : List Block)
      → Layout s (pre ++ (b ∷ post))
      → Layout s ((pre ++ (b ∷ [])) ++ post)
  shift pre b post l = subst (Layout s) (sym (append_assoc pre (b ∷ []) post)) l

  after :
      (pre : List Block) (b : Block)
      → s.mem_start_brk + 8 + total (pre ++ (b ∷ [])) ≡ s.mem_start_brk + 8 + total pre + b.size
  after pre b = omega (arith, total-append pre (b ∷ []))

  -- The first loop, from the block behind `pre`.
  scan_to_end-first_fit :
      (fuel : ℕ) (pre post : List Block) (t : Ptr)
      → Layout s (pre ++ post)
      → t ≡ s.mem_start_brk + 8 + total pre
      → length post < fuel
      → scan_to_end fuel asize (at_temp s t) ≡ hit s s.mem_brk (first_fit t asize post)
  unfolding scan_to_end first_fit
  scan_to_end-first_fit zero pre post t l e f = absurd (omega arith)
  scan_to_end-first_fit (suc fuel) pre [] t l e f =
      rw
        (size_at (at_temp s t) t (head [])
          (Tagged-head (at_temp s t) pre [] t (Layout-temp t (pre ++ []) l) e) (omega arith))
        (ap (λ k. ok none (at_temp s k)) (omega (arith, l.brk, total-append pre [])))
  scan_to_end-first_fit (suc fuel) pre (b ∷ post) t l e f =
      rw (e, size_here pre b post l, positive pre b post l, fits-here pre b post l)
        (elim (Bool-cases (suits asize b)) [
          | inl y ↦ rw y
          | inr y ↦
              rw (y, next_here pre b post l)
                (scan_to_end-first_fit fuel (pre ++ (b ∷ [])) post (here pre b post l + b.size)
                  (shift pre b post l) (sym (after pre b)) (omega arith))
        ])

  -- The second loop, over the blocks `mid` up to `oldtemp`.
  scan_to_old-first_fit :
      (fuel : ℕ) (pre mid post : List Block) (t old : Ptr)
      → Layout s (pre ++ (mid ++ post))
      → t ≡ s.mem_start_brk + 8 + total pre
      → old ≡ t + total mid
      → length mid < fuel
      → scan_to_old fuel asize old (at_temp s t) ≡ hit s old (first_fit t asize mid)
  unfolding scan_to_old first_fit
  scan_to_old-first_fit zero pre mid post t old l e o f = absurd (omega arith)
  scan_to_old-first_fit (suc fuel) pre [] post t old l e o f =
      let stop : ltb t old ≡ false = le→ltb t old (omega arith) in
      rw stop (ap (λ k. ok none (at_temp s k)) (omega arith))
  scan_to_old-first_fit (suc fuel) pre (b ∷ mid) post t old l e o f =
      let big = (block_at pre b (mid ++ post) l).least in
      let go : ltb (s.mem_start_brk + 8 + total pre) old ≡ true = lt→ltb _ _ (omega arith) in
      rw (e, go, fits-here pre b (mid ++ post) l)
        (elim (Bool-cases (suits asize b)) [
          | inl y ↦ rw y
          | inr y ↦
              rw (y, next_here pre b (mid ++ post) l)
                (scan_to_old-first_fit fuel (pre ++ (b ∷ [])) mid post
                  (here pre b (mid ++ post) l + b.size) old (shift pre b (mid ++ post) l)
                  (sym (after pre b)) (omega arith) (omega arith))
        ])

-- The result of a search, with `temp` at the hit; after a miss it is where it was.
abbrev pub found : State → Option Ptr → Outcome Ptr
found s none = ok null s
found s (some p) = ok p (at_temp s p)

-- The blocks in front of `temp` and those from it on.
pub record Rover (s : State) (bs : List Block) : Type 0 where
  pub pre : List Block
  pub post : List Block
  pub whole : prologue ∷ bs ≡ pre ++ post
  pub place : s.temp ≡ s.mem_start_brk + 8 + total pre

pub rover : (s : State) (bs : List Block) → IsHeap s bs → Rover s bs
rover s bs h =
    let at = At-Holds (s.mem_start_brk + 8) (prologue ∷ bs) s.temp h.rover.0 h.rover.1 in
    record { pre = at.front; post = h.rover.0 ∷ at.back; whole = at.whole; place = at.place }

find_fit_split :
    (s : State) (asize : ℕ) (pre post : List Block)
    → Layout s (pre ++ post)
    → s.temp ≡ s.mem_start_brk + 8 + total pre
    → find_fit asize s ≡ found s (next_fit (s.mem_start_brk + 8) asize pre post)
unfolding find_fit
find_fit_split s asize pre post l e =
    let fuel = s.mem_brk - s.mem_start_brk in
    let base = s.mem_start_brk + 8 in
    let parts = Segment-split s.bytes base pre post l.blocks in
    let n = length-le-total s.bytes base pre parts.0 in
    let k = length-le-total s.bytes (base + total pre) post parts.1 in
    let sum = total-append pre post in
    let first : scan_to_end fuel asize s
        ≡ hit s s.mem_brk (first_fit (base + total pre) asize post) =
      subst (λ k. scan_to_end fuel asize s ≡ hit s s.mem_brk (first_fit k asize post)) e
        (scan_to_end-first_fit s asize fuel pre post s.temp l e (omega (arith, l.brk))) in
    let second : scan_to_old fuel asize s.temp (at_temp s s.heap_listp)
        ≡ hit s s.temp (first_fit base asize pre) =
      subst
        (λ k. scan_to_old fuel asize s.temp (at_temp s k) ≡ hit s s.temp (first_fit base asize pre))
        (sym l.listp)
        (scan_to_old-first_fit s asize fuel [] pre post base s.temp l (omega arith) e
          (omega (arith, l.brk))) in
    elim (Option-cases (first_fit (base + total pre) asize post)) [
      | inr (p, y) ↦ rw (first, y, next_fit-hit base asize pre post p y)
      | inl y ↦
          rw (first, y, second, next_fit-miss base asize pre post y)
            (last (first_fit base asize pre))
    ]
  where
    last :
        (o : Option Ptr)
        → and_then (hit s s.temp o) (λ again. elim again [ some p ↦ pure p | none ↦ pure null ])
          ≡ found s o
    last none = refl
    last (some p) = refl

-- On a well-formed heap `find_fit` returns, and what it returns is next fit over the list of blocks:
-- the first free block that is large enough from `temp` to the end, or else from the start up to
-- `temp`, or NULL. `temp` is left at the hit, and after a miss where it was.
pub find_fit-next_fit :
    (s : State) (bs : List Block) (asize : ℕ) (h : IsHeap s bs)
    → find_fit asize s
      ≡ found s (next_fit (s.mem_start_brk + 8) asize (rover s bs h).pre (rover s bs h).post)
find_fit-next_fit s bs asize h =
    let r = rover s bs h in
    find_fit_split s asize r.pre r.post (subst (Layout s) r.whole h.layout) r.place
