-- ===== src/Mm/Place/Grant.antt =====
-- `place` on a well-formed heap: one free block becomes allocated.
use malloc_jt.Base.{
  ℕ, ◌+◌, ◌%◌, ◌≤◌, ◌≡◌, ◌⊎◌, ◌↔◌, inl, inr, sym, subst, arith, Bool, true, List, ◌∷◌, ◌++◌,
}
use malloc_jt.Machine.{Ptr, Bytes, State, Outcome, ok, with_bytes}
use malloc_jt.Heap.{Block, free_block, prologue, total, IsHeap, first_block}
use malloc_jt.Heap.Cut.{
  cut, splits, granted, le-granted, Compact-cut, Roomy-cut, StartsAt-cut, Used-cut,
}
use malloc_jt.Heap.Prologue.{Kept, Kept-free, Used-apart, behind}
use malloc_jt.Heap.Widened.{Used}
use malloc_jt.Mm.{place}
use malloc_jt.Mm.Place.{place-Placed}

-- The outcome of `place` at `a`: a block of `extent` bytes, which no allocated one meets.
pub record PlacedAt (s : State) (bs : List Block) (asize : ℕ) (a : Ptr) (r : Outcome (Unit {0}))
    : Type 0 where
  pub bytes : Bytes
  pub extent : ℕ
  pub after : List Block
  pub returns : r ≡ ok tt (with_bytes s bytes)
  pub heap : IsHeap (with_bytes s bytes) after
  pub large : asize ≤ extent
  pub used :
      (c k : ℕ)
      → Used (first_block s) after c k ↔ (Used (first_block s) bs c k ⊎ ((c ≡ a) × (k ≡ extent)))
  pub apart : (c k : ℕ) → Used (first_block s) bs c k → (c + k ≤ a) ⊎ (a + extent ≤ c)
  pub kept : Kept (first_block s) bs s.bytes bytes

granted-le : (b : Bool) (n asize : ℕ) → asize ≤ n → granted b n asize ≤ n
granted-le b n asize h = ground arith

module _ (s : State) (f back : List Block) (n asize : ℕ) (least : 16 ≤ asize)
    (eights : asize % 8 ≡ 0) (h : asize ≤ n) where
  abbrev here : Ptr
  here = s.mem_start_brk + 8 + (8 + total f)

  same_place : first_block s + total f ≡ here
  same_place = omega arith

  place_behind :
      IsHeap s (f ++ (free_block n ∷ back))
      → PlacedAt s (f ++ (free_block n ∷ back)) asize here (place here asize s)
  place_behind w =
      let b = splits n asize in
      let p = place-Placed s (prologue ∷ f) back n asize w.layout (omega arith) eights h in
      let low = granted-le b n asize h in
      record {
        bytes = p.bytes;
        extent = granted b n asize;
        after = f ++ (cut b n asize ++ back);
        returns = p.returns;
        heap = record {
          layout = p.layout;
          roomy = Roomy-cut f back n asize h least w.roomy;
          compact = Compact-cut true b f back n asize w.compact;
          rover = StartsAt-cut (s.mem_start_brk + 8) b (prologue ∷ f) back n asize s.temp h w.rover;
        };
        large = le-granted b n asize h;
        used = λ c k.
            subst
              (λ a. Used (first_block s) (f ++ (cut b n asize ++ back)) c k ↔ (
                Used (first_block s) (f ++ (free_block n ∷ back)) c k
                ⊎ ((c ≡ a) × (k ≡ granted b n asize))))
              same_place (Used-cut (first_block s) b f back n asize h c k);
        apart = λ c k u. side c k low (Used-apart (first_block s) f n back c k u);
        kept = record {
          payload = λ c k x u lo hi.
              (Kept-free (s.mem_start_brk + 8) (prologue ∷ f) n back p.same).payload c k x (inr u)
                lo hi;
        };
      }
    where
      side :
          (c k : ℕ)
          → granted (splits n asize) n asize ≤ n
          → (c + k ≤ first_block s + total f) ⊎ (first_block s + total f + n ≤ c)
          → (c + k ≤ here) ⊎ (here + granted (splits n asize) n asize ≤ c)
      side c k low (inl y) = inl (omega arith)
      side c k low (inr y) = inr (omega arith)

-- `place` of a block of `asize` bytes, a multiple of 8 from 16 on, in a free block that is large
-- enough returns a well-formed heap: the allocated blocks are the old ones, with the same payloads,
-- and one new block of `asize` bytes or more at the start of the free one, apart from the others.
pub place-PlacedAt :
    (s : State) (bs front : List Block) (n : ℕ) (back : List Block) (asize : ℕ)
    → IsHeap s bs
    → prologue ∷ bs ≡ front ++ (free_block n ∷ back)
    → 16 ≤ asize
    → asize % 8 ≡ 0
    → asize ≤ n
    → let a = s.mem_start_brk + 8 + total front in PlacedAt s bs asize a (place a asize s)
place-PlacedAt s bs front n back asize w e least eights h =
    let v = behind bs front n back e in
    subst
      (λ pre.
        PlacedAt s bs asize (s.mem_start_brk + 8 + total pre)
          (place (s.mem_start_brk + 8 + total pre) asize s))
      (sym v.front_is)
      (subst
        (λ l.
          PlacedAt s l asize (s.mem_start_brk + 8 + (8 + total v.f))
            (place (s.mem_start_brk + 8 + (8 + total v.f)) asize s))
        (sym v.bs_is) (place_behind s v.f back n asize least eights h (subst (IsHeap s) v.bs_is w)))
