-- ===== src/Mm/Copy.antt =====
-- The copy that `mm_realloc` makes, and the size in the header of an allocated block.
use malloc_jt.Base.{
  ℕ, ◌+◌, ◌-◌, ◌≤◌, ◌<◌, ◌≡◌, ◌⊎◌, ap, subst, arith, true, ◌&&◌, ◌||◌, List, ◌∷◌, leb, ltb, le→leb,
  lt→ltb, if◌then◌else◌,
}
use malloc_jt.Machine.{Ptr, Bytes, State, ok, with_bytes}
use malloc_jt.Machine.Words.{Same}
use malloc_jt.Heap.{Block, used_block, prologue, Layout, IsHeap, first_block, total}
use malloc_jt.Heap.Lists.{At-Holds}
use malloc_jt.Heap.Widened.{Used}
use malloc_jt.Mm.{get_size, hdrp, memcpy}
use malloc_jt.Mm.Steps.{in_arena-true}
use malloc_jt.Mm.Retag.{size_of_block}

-- The bytes after a `memcpy`.
pub copied : Bytes → Ptr → Ptr → ℕ → Bytes
copied m dst src n x = if leb dst x && ltb x (dst + n) then m (src + (x - dst)) else m x

pub Same-copied : (m : Bytes) (dst src n : ℕ) → Same dst (dst + n) m (copied m dst src n)
unfolding copied
Same-copied m dst src n = record { outside = λ x o. ground arith }

pub copied-inside :
    (m : Bytes) (dst src n i : ℕ) → i < n → copied m dst src n (dst + i) ≡ m (src + i)
unfolding copied
copied-inside m dst src n i h =
    rw (le→leb dst (dst + i) (omega arith), lt→ltb (dst + i) (dst + n) (omega arith))
      (ap m (omega arith))

pub memcpy_lem :
    (s : State) (dst src n : ℕ)
    → s.mem_start_brk ≤ dst
    → dst + n ≤ s.mem_max_addr
    → s.mem_start_brk ≤ src
    → src + n ≤ s.mem_max_addr
    → (dst + n ≤ src) ⊎ (src + n ≤ dst)
    → memcpy dst src n s ≡ ok tt (with_bytes s (copied s.bytes dst src n))
unfolding memcpy copied
memcpy_lem s dst src n a b c d o =
    let y : (leb (dst + n) src || leb (src + n) dst) ≡ true = ground arith in
    rw (in_arena-true s dst n a b, in_arena-true s src n c d, y)

-- How many bytes the code copies: the old block's size, tags included, but no more than asked for.
abbrev pub copy_size : ℕ → ℕ → ℕ
copy_size size k = if ltb size k then size else k

pub copy_bounds : (size k : ℕ) → (copy_size size k ≤ size) × (copy_size size k ≤ k)
copy_bounds size k = ground arith

pub le-copy_size : (size k i : ℕ) → i < size → i < k → i < copy_size size k
le-copy_size size k i h l = ground arith

pub size_of_used :
    (s : State) (bs : List Block) (c k : ℕ)
    → IsHeap s bs
    → Used (first_block s) bs c k
    → get_size (hdrp c) s ≡ ok k s
size_of_used s bs c k h u =
    let at = At-Holds (first_block s) bs c (used_block k) u in
    let e : s.mem_start_brk + 8 + (8 + total at.front) ≡ c = omega (arith, at.place) in
    subst (λ a. get_size (hdrp a) s ≡ ok k s) e
      (size_of_block (prologue ∷ at.front) (used_block k) at.back
        (subst (λ l. Layout s (prologue ∷ l)) at.whole h.layout))
