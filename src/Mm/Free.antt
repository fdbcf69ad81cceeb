-- ===== src/Mm/Free.antt =====
-- `mm_free` of an allocated block: exactly that block stops being allocated.
use malloc_jt.Base.{ℕ, ◌+◌, ◌≡◌, ◌≢◌, ◌↔◌, inr, refl, sym, subst, ◌∙◌, arith, true, List, ◌∷◌, ◌++◌}
use malloc_jt.Machine.{Ptr, Bytes, State, Outcome, ok, with_bytes}
use malloc_jt.Heap.{Block, free_block, used_block, prologue, first_block, total, IsHeap}
use malloc_jt.Heap.Lists.{At-Holds}
use malloc_jt.Heap.Marked.{Used-mark, StartsAt-replace, Compact-front, Compact-back, Used-tails}
use malloc_jt.Heap.Prologue.{Kept, Kept-free, Roomy-split}
use malloc_jt.Heap.Widened.{Used}
use malloc_jt.Mm.{coalesce, mm_free}
use malloc_jt.Mm.Tags.{tag_bytes}
use malloc_jt.Mm.Retag.{size_of_block, put_tags_at, Same-retag, Layout-retag}
use malloc_jt.Mm.Coalesce.Settle.{with_free, Settled, coalesce-Settled}

-- The outcome of freeing the block at `c`.
pub record Freed (s : State) (bs : List Block) (c : Ptr) (r : Outcome (Unit {0})) : Type 0 where
  pub bytes : Bytes
  pub temp : Ptr
  pub after : List Block
  pub returns : r ≡ ok tt (record s { bytes = bytes; temp = temp })
  pub heap : IsHeap (record s { bytes = bytes; temp = temp }) after
  pub used : (d k : ℕ) → Used (first_block s) after d k ↔ (Used (first_block s) bs d k × (d ≢ c))
  pub kept : Kept (first_block s) after s.bytes bytes

module _ (s : State) (f : List Block) (n : ℕ) (post : List Block) where
  abbrev here : Ptr
  here = s.mem_start_brk + 8 + (8 + total f)

  abbrev bytes : Bytes
  bytes = tag_bytes s.bytes here (free_block n)

  freed_settles :
      IsHeap s (f ++ (used_block n ∷ post))
      → Settled (with_bytes s bytes) f n post (coalesce here (with_bytes s bytes))
  freed_settles h =
      let r = Roomy-split f (used_block n ∷ post) h.roomy in
      coalesce-Settled f n post
        (Layout-retag (prologue ∷ f) (used_block n) post h.layout (free_block n) refl) r.0 r.1.0
        r.1.1 (Compact-front true f (used_block n ∷ post) h.compact)
        (Compact-back true f (used_block n) post h.compact)
        (StartsAt-replace (s.mem_start_brk + 8) (prologue ∷ f) (used_block n) (free_block n) post
          s.temp refl h.rover)

  free_at :
      IsHeap s (f ++ (used_block n ∷ post))
      → Freed s (f ++ (used_block n ∷ post)) here (mm_free here s)
  unfolding mm_free
  free_at h =
      let r = Roomy-split f (used_block n ∷ post) h.roomy in
      let t = freed_settles h in
      rw
        (
          size_of_block (prologue ∷ f) (used_block n) post h.layout,
          put_tags_at (prologue ∷ f) (used_block n) post h.layout (free_block n) refl,
          t.returns,
        )
        (record {
          bytes = t.bytes;
          temp = t.temp;
          after = t.bs;
          returns = refl;
          heap = t.heap;
          used = λ d k.
              let rest = Used-tails base d k (with_free f n post) t.bs (t.used d k) in
              let mark = Used-mark (first_block s) f n post d k r.0 r.1.0 in
              (
                λ u. let v = mark.0 (rest.1 u) in (v.0, subst (λ a. d ≢ a) same_place v.1),
                λ v. rest.0 (mark.1 (v.0, subst (λ a. d ≢ a) (sym same_place) v.1)),
              );
          kept = record {
            payload = λ c k x u h l.
                t.kept.payload c k x (inr u) h l
                ∙ retagged.payload c k x ((t.used c k).1 (inr u)) h l;
          };
        })
    where
      base : Ptr
      base = s.mem_start_brk + 8

      same_place : first_block s + total f ≡ here
      same_place = omega arith

      retagged : Kept base (prologue ∷ with_free f n post) s.bytes bytes
      retagged =
          Kept-free base (prologue ∷ f) n post
            (Same-retag (prologue ∷ f) (used_block n) post h.layout (free_block n) refl)

-- `mm_free` of an allocated block returns and keeps the heap well-formed: no two free blocks are
-- neighbours. The allocated blocks are the same but for the one at `c`, with the same payloads.
pub mm_free-Freed :
    (s : State) (bs : List Block) (c n : ℕ)
    → IsHeap s bs
    → Used (first_block s) bs c n
    → Freed s bs c (mm_free c s)
mm_free-Freed s bs c n h u =
    let at = At-Holds (first_block s) bs c (used_block n) u in
    let e : here s at.front n at.back ≡ c = omega (arith, at.place) in
    subst (λ l. Freed s l c (mm_free c s)) (sym at.whole)
      (subst (λ a. Freed s (at.front ++ (used_block n ∷ at.back)) a (mm_free a s)) e
        (free_at s at.front n at.back (subst (IsHeap s) at.whole h)))
