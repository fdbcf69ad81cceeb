-- ===== src/Mm/Malloc.antt =====
-- `mm_malloc`: on a well-formed heap it returns a new block, or NULL when none fits and the arena
-- is full.
use malloc_jt.Base.{
  ℕ, ◌+◌, ◌-◌, ◌/◌, ◌%◌, ◌^◌, ◌≤◌, ◌<◌, ◌≡◌, ◌⊎◌, ◌↔◌, inl, inr, refl, sym, subst, ◌∙◌, arith,
  false, none, some, List, [], ◌∷◌, ◌==◌, Option-cases,
}
use native.Mathlib.Decide.{dec_lt}
use malloc_jt.Machine.{Ptr, null, State, Outcome, ok, with_bytes}
use malloc_jt.Heap.{Block, free_block, prologue, total, IsHeap, first_block, Holds}
use malloc_jt.Heap.Lists.{At-Holds}
use malloc_jt.Heap.NextFit.{next_fit, Suited, Unsuited, next_fit-Suited, next_fit-Unsuited}
use malloc_jt.Heap.Prologue.{Kept}
use malloc_jt.Heap.Widened.{Used}
use malloc_jt.Heap.Marked.{Used-tails, Used-snoc}
use malloc_jt.Mm.{chunksize, max, adjust, place, find_fit, extend_heap, mm_malloc}
use malloc_jt.Mm.Coalesce.Settle.{with_free, Settled}
use malloc_jt.Mm.Coalesce.Widen.{Layout-temp}
use malloc_jt.Mm.Extend.{grown, extend_heap-Settled, extend_heap-full, Kept-grown}
use malloc_jt.Mm.FindFit.{at_temp, found, rover, find_fit-next_fit}
use malloc_jt.Mm.Place.Grant.{PlacedAt, place-PlacedAt}

-- The size of a block for a request: room for the tags, rounded up, and no wrap-around.
pub record Adjusted (size asize : ℕ) : Type 0 where
  pub holds : size + 8 ≤ asize
  pub least : 16 ≤ asize
  pub close : asize < size + 16 + 8
  pub eights : asize % 8 ≡ 0
  pub narrow : asize < 2 ^ 31

-- For a request of at most 2^31 - 16 bytes the block size that `mm_malloc` computes holds request
-- and tags, is 16 at least, a multiple of 8, fewer than 24 bytes above the request, and below 2^31.
pub adjust-Adjusted : (size : ℕ) → size ≤ 2 ^ 31 - 16 → Adjusted size (adjust size)
unfolding adjust
adjust-Adjusted size h = ground arith

-- By how much the heap is to grow.
unfoldable pub growth : ℕ → ℕ
growth asize = max asize chunksize

pub growth_lem :
    (asize : ℕ)
    → asize < 2 ^ 31
    → asize % 8 ≡ 0
    → (asize ≤ growth asize)
      × (16 ≤ growth asize)
      × (growth asize % 8 ≡ 0)
      × (growth asize < 2 ^ 31)
unfolding growth max
growth_lem asize h e = ground arith

-- The outcome of a request that is granted.
pub record Granted (s : State) (bs : List Block) (size : ℕ) (r : Outcome Ptr) : Type 0 where
  pub state : State
  pub block : Ptr
  pub extent : ℕ
  pub after : List Block
  pub returns : r ≡ ok block state
  pub heap : IsHeap state after
  pub same_arena : (state.mem_start_brk ≡ s.mem_start_brk) × (state.mem_max_addr ≡ s.mem_max_addr)
  pub large : size + 8 ≤ extent
  pub grown_by : state.mem_brk ≤ s.mem_brk + growth (adjust size)
  pub used :
      (c k : ℕ)
      → Used (first_block s) after c k
        ↔ (Used (first_block s) bs c k ⊎ ((c ≡ block) × (k ≡ extent)))
  pub apart : (c k : ℕ) → Used (first_block s) bs c k → (c + k ≤ block) ⊎ (block + extent ≤ c)
  pub kept : Kept (first_block s) bs s.bytes state.bytes

-- The outcome of a request that is refused: nothing has changed, no free block is large enough,
-- and the arena has no room for another.
pub record Refused (s : State) (bs : List Block) (size : ℕ) (r : Outcome Ptr) : Type 0 where
  pub returns : r ≡ ok null s
  pub no_fit : Unsuited (s.mem_start_brk + 8) (prologue ∷ bs) (adjust size)
  pub no_room : s.mem_max_addr < s.mem_brk + growth (adjust size)

IsHeap-temp :
    {s : State} (bs : List Block) (t : Ptr) (b : Block)
    → IsHeap s bs
    → Holds (s.mem_start_brk + 8) (prologue ∷ bs) t b
    → IsHeap (at_temp s t) bs
IsHeap-temp bs t b h st = record {
  layout = Layout-temp t (prologue ∷ bs) h.layout;
  roomy = h.roomy;
  compact = h.compact;
  rover = (b, st);
}

not_null :
    (a n : ℕ)
    → (s : State) (bs : List Block) → IsHeap s bs
    → a ≡ s.mem_start_brk + 8 + n
    → (a == null) ≡ false
not_null a n s bs h e = ground arith

module _ (s : State) (bs : List Block) (size : ℕ) (h : IsHeap s bs) (pos : 0 < size)
    (fine : size ≤ 2 ^ 31 - 16) where
  abbrev asize : ℕ
  asize = adjust size

  a : Adjusted size asize
  a = adjust-Adjusted size fine

  positive : (size == 0) ≡ false
  positive = ground arith

  -- A block is at hand.
  fitting :
      (p : Ptr)
      → find_fit asize s ≡ found s (some p)
      → Suited (s.mem_start_brk + 8) (prologue ∷ bs) p asize
      → Granted s bs size (mm_malloc size s)
  unfolding mm_malloc
  fitting p e st =
      let at = At-Holds (s.mem_start_brk + 8) (prologue ∷ bs) p (free_block st.size) st.stands in
      let g =
        place-PlacedAt (at_temp s p) bs at.front st.size at.back asize
          (IsHeap-temp bs p (free_block st.size) h st.stands) at.whole a.least a.eights st.large in
      let y = sym at.place in
      let g' : PlacedAt (at_temp s p) bs asize p (place p asize (at_temp s p)) =
        subst (λ q. PlacedAt (at_temp s p) bs asize q (place q asize (at_temp s p))) y g in
      rw (positive, e, not_null p (total at.front) s bs h at.place, g'.returns)
        (record {
          state = with_bytes (at_temp s p) g'.bytes;
          block = p;
          extent = g'.extent;
          after = g'.after;
          returns = refl;
          heap = g'.heap;
          same_arena = (refl, refl);
          large = omega (arith, g'.large, a.holds);
          grown_by = omega arith;
          used = g'.used;
          apart = g'.apart;
          kept = g'.kept;
        })

  -- The growth of the heap allocates nothing.
  old :
      (t : Settled (grown s (growth asize)) bs (growth asize) [] (extend_heap (growth asize / 4) s))
      (c k : ℕ)
      → Used (first_block s) bs c k ↔ Used (first_block s) t.bs c k
  old t c k =
      let tails =
        Used-tails (s.mem_start_brk + 8) c k (with_free bs (growth asize) []) t.bs (t.used c k) in
      let end = Used-snoc (first_block s) bs (growth asize) c k in
      (λ u. tails.0 (end.0 u), λ u. end.1 (tails.1 u))

  -- The heap grows.
  growing :
      find_fit asize s ≡ found s none
      → s.mem_brk + growth asize ≤ s.mem_max_addr
      → Granted s bs size (mm_malloc size s)
  unfolding mm_malloc growth
  growing e room =
      let w = growth_lem asize a.narrow a.eights in
      let t = extend_heap-Settled s bs (growth asize) h w.1 w.2 w.3 room in
      let p = s.mem_start_brk + 8 + total t.front in
      let mid = record (grown s (growth asize)) { bytes = t.bytes; temp = t.temp } in
      let g =
        place-PlacedAt mid t.bs t.front t.size t.back asize t.heap t.split a.least a.eights
          (omega (arith, t.wide, w.0)) in
      rw (positive, e, t.returns, not_null p (total t.front) s bs h refl, g.returns)
        (record {
          state = with_bytes mid g.bytes;
          block = p;
          extent = g.extent;
          after = g.after;
          returns = refl;
          heap = g.heap;
          same_arena = (refl, refl);
          large = omega (arith, g.large, a.holds);
          grown_by = omega arith;
          used = λ c k. (
            λ u. elim ((g.used c k).0 u) [ inl v ↦ inl ((old t c k).1 v) | inr v ↦ inr v ],
            λ u. (g.used c k).1 (elim u [ inl v ↦ inl ((old t c k).0 v) | inr v ↦ inr v ]),
          );
          apart = λ c k u. g.apart c k ((old t c k).0 u);
          kept = record {
            payload = λ c k x u lo hi.
                let v = (old t c k).0 u in
                g.kept.payload c k x v lo hi
                ∙ t.kept.payload c k x (inr v) lo hi
                ∙ (Kept-grown s bs (growth asize) h w.1 w.2 w.3 room).payload c k x u lo hi;
          };
        })

  refusing :
      find_fit asize s ≡ found s none
      → s.mem_max_addr < s.mem_brk + growth asize
      → mm_malloc size s ≡ ok null s
  unfolding mm_malloc growth
  refusing e full =
      let w = growth_lem asize a.narrow a.eights in
      rw (positive, e, extend_heap-full s bs (growth asize) h w.2 w.3 full)

  -- For a request of 1 to 2^31 - 16 bytes on a well-formed heap, `mm_malloc` returns. Either it
  -- grants a block: the heap is well-formed again, the allocated blocks are the old ones, with
  -- their payloads unchanged, and one new block apart from them with room for the request. Or it
  -- returns NULL, nothing has changed, no free block is large enough and the arena is too full.
  pub mm_malloc-Granted :
      Granted s bs size (mm_malloc size s) ⊎ Refused s bs size (mm_malloc size s)
  mm_malloc-Granted =
      let r = rover s bs h in
      let base = s.mem_start_brk + 8 in
      let e = find_fit-next_fit s bs asize h in
      elim (Option-cases (next_fit base asize r.pre r.post)) [
        | inr (p, y) ↦ inl (
            fitting p (rw y at e) (
              subst (λ l. Suited base l p asize) (sym r.whole)
                (next_fit-Suited base asize r.pre r.post p y)))
        | inl y ↦ elim (dec_lt s.mem_max_addr (s.mem_brk + growth asize)) [
          | yes full ↦ inr (record {
            returns = refusing (rw y at e) full;
            no_fit =
                subst (λ l. Unsuited base l asize) (sym r.whole)
                  (next_fit-Unsuited base asize r.pre r.post y);
            no_room = full;
          })
          | no room ↦ inl (growing (rw y at e) (omega arith))
        ]
      ]
