-- ===== src/Mm/Coalesce/Settle.antt =====
-- After `coalesce` the heap is well-formed again, whatever the neighbours of the free block were.
use malloc_jt.Base.{
  ℕ, ◌+◌, ◌≤◌, ◌≡◌, ◌↔◌, inl, refl, sym, ap, subst, ◌∙◌, arith, Bool, true, false, List, [], ◌∷◌,
  ◌++◌, append_assoc,
}
use malloc_jt.Machine.{Ptr, Bytes, State, ok, Outcome}
use malloc_jt.Heap.{Block, free_block, prologue, total, Layout, StartsAt, Roomy, Compact, IsHeap}
use malloc_jt.Heap.Gap.{gap, widen, head}
use malloc_jt.Heap.Widened.{Used, Swap-gap, Used-Swap, Compact-gap}
use malloc_jt.Heap.Prologue.{Last-of, Headed-gap, Kept, Kept-free}
use malloc_jt.Heap.Segments.{total-append}
use malloc_jt.Mm.{coalesce}
use malloc_jt.Mm.Coalesce.Widen.{coalesce-Coalesced}

-- The list between prologue and epilogue, with a free block of size `n` behind the blocks `f`.
abbrev pub with_free : List Block → ℕ → List Block → List Block
with_free f n post = f ++ (free_block n ∷ post)

-- The outcome `r` of `coalesce` on the free block of `with_free f n post`.
pub record Settled (s : State) (f : List Block) (n : ℕ) (post : List Block) (r : Outcome Ptr)
    : Type 0 where
  pub bytes : Bytes
  pub temp : Ptr
  pub bs : List Block
  pub front : List Block
  pub size : ℕ
  pub back : List Block
  pub returns : r ≡ ok (s.mem_start_brk + 8 + total front) (record s { bytes = bytes; temp = temp })
  pub heap : IsHeap (record s { bytes = bytes; temp = temp }) bs
  pub split : prologue ∷ bs ≡ front ++ (free_block size ∷ back)
  pub wide : n ≤ size
  pub used :
      (c k : ℕ)
      → Used (s.mem_start_brk + 8) (prologue ∷ with_free f n post) c k
        ↔ Used (s.mem_start_brk + 8) (prologue ∷ bs) c k
  pub kept : Kept (s.mem_start_brk + 8) (prologue ∷ bs) s.bytes bytes

le-widen :
    (x y : Bool) (pre : List Block) (p : Block) (n : ℕ) (post : List Block)
    → n ≤ (widen x y pre p n post).size
le-widen true true pre p n post = omega arith
le-widen true false pre p n post = omega arith
le-widen false true pre p n post = omega arith
le-widen false false pre p n post = omega arith

module _ {s : State} (f : List Block) (n : ℕ) (post : List Block) where
  -- `coalesce` of a free block in a row of blocks where no other two free ones are neighbours returns
  -- a free block that is as large at least, in a well-formed heap with the same allocated blocks and
  -- payloads. All four cases of the neighbours are covered.
  pub coalesce-Settled :
      Layout s (prologue ∷ with_free f n post)
      → Roomy f
      → 16 ≤ n
      → Roomy post
      → Compact true f
      → Compact true post
      → StartsAt (s.mem_start_brk + 8) (prologue ∷ with_free f n post) s.temp
      → Settled s f n post (coalesce (s.mem_start_brk + 8 + total (prologue ∷ f)) s)
  coalesce-Settled l rf h rp cf cp st =
      let open_list = Last-of prologue f in
      let pre = open_list.pre in
      let p = open_list.last in
      let e : prologue ∷ f ≡ pre ++ (p ∷ []) = open_list.whole in
      let x = free_block n ∷ post in
      let q : prologue ∷ (f ++ x) ≡ pre ++ (p ∷ x) =
        ap (λ (l : List Block). l ++ x) e ∙ append_assoc pre (p ∷ []) x in
      let base = s.mem_start_brk + 8 in
      let here : base + total (prologue ∷ f) ≡ base + total pre + p.size =
        omega (arith, ap total e, total-append pre (p ∷ [])) in
      let c = coalesce-Coalesced s pre p n post (subst (Layout s) q l) in
      let g = gap pre p n post in
      let hd = Headed-gap f pre p n post e rf h rp in
      record {
        bytes = c.bytes;
        temp = c.temp;
        bs = hd.bs;
        front = g.front;
        size = g.size;
        back = g.back;
        returns = rw here c.returns;
        heap = record {
          layout = subst (Layout (record s { bytes = c.bytes; temp = c.temp })) hd.split c.layout;
          roomy = hd.roomy;
          compact =
              (subst (Compact true) hd.split
                (Compact-gap true pre p n post (subst (Compact true) e (inl refl, cf)) cp)).1;
          rover =
              subst (λ bs. StartsAt base bs c.temp) hd.split
                (c.rover (subst (λ bs. StartsAt base bs s.temp) q st));
        };
        split = sym hd.split;
        wide = le-widen p.alloc (head post).alloc pre p n post;
        used = λ a k.
            subst (λ bs. Used base bs a k ↔ Used base (prologue ∷ hd.bs) a k) (sym q)
              (subst (λ bs. Used base (pre ++ (p ∷ x)) a k ↔ Used base bs a k) hd.split
                (Used-Swap base a k (Swap-gap pre p n post)));
        kept =
            subst (λ bs. Kept base bs s.bytes c.bytes) hd.split
              (Kept-free base g.front g.size g.back c.same);
      }
