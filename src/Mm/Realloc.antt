-- ===== src/Mm/Realloc.antt =====
-- `mm_realloc` of an allocated block: the contents move to the new block, and the old one is freed.
use malloc_jt.Base.{
  ℕ, ◌+◌, ◌-◌, ◌^◌, ◌≤◌, ◌<◌, ◌≡◌, ◌≢◌, ◌⊎◌, ◌↔◌, inl, inr, refl, sym, subst, ◌∙◌, arith, false,
  List, ◌==◌,
}
use malloc_jt.Machine.{Ptr, null, State, Outcome, ok, exited, with_bytes}
use malloc_jt.Heap.{Block, IsHeap, first_block}
use malloc_jt.Heap.Payload.{IsHeap-payload, Usable, Used-Usable}
use malloc_jt.Heap.Widened.{Used}
use malloc_jt.Mm.{adjust, memcpy, mm_malloc, mm_free, mm_realloc}
use malloc_jt.Mm.Free.{Freed, mm_free-Freed}
use malloc_jt.Mm.Malloc.{growth, Granted, Refused, mm_malloc-Granted}
use malloc_jt.Mm.Copy.{
  copied, Same-copied, copied-inside, memcpy_lem, copy_size, copy_bounds, le-copy_size,
  size_of_used,
}

-- The outcome of moving the block of `k` bytes at `ptr`.
pub record Moved (s : State) (bs : List Block) (ptr k size : ℕ) (r : Outcome Ptr) : Type 0 where
  pub state : State
  pub block : Ptr
  pub extent : ℕ
  pub after : List Block
  pub returns : r ≡ ok block state
  pub heap : IsHeap state after
  pub same_arena : (state.mem_start_brk ≡ s.mem_start_brk) × (state.mem_max_addr ≡ s.mem_max_addr)
  pub large : size + 8 ≤ extent
  pub grown_by : state.mem_brk ≤ s.mem_brk + growth (adjust size)
  pub used :
      (c n : ℕ)
      → Used (first_block s) after c n
        ↔ ((Used (first_block s) bs c n × (c ≢ ptr)) ⊎ ((c ≡ block) × (n ≡ extent)))
  pub apart : (c n : ℕ) → Used (first_block s) bs c n → (c + n ≤ block) ⊎ (block + extent ≤ c)
  pub contents : (i : ℕ) → i < size → i + 8 < k → state.bytes (block + i) ≡ s.bytes (ptr + i)
  pub kept :
      (c n x : ℕ)
      → Used (first_block s) bs c n
      → c ≢ ptr
      → c ≤ x
      → x + 8 < c + n
      → state.bytes x ≡ s.bytes x

module _ (s : State) (bs : List Block) (ptr k size : ℕ) (h : IsHeap s bs)
    (u : Used (first_block s) bs ptr k) (pos : 0 < size)
    (g : Granted s bs size (mm_malloc size s)) where
  abbrev n : ℕ
  n = copy_size size k

  abbrev mid : State
  mid = with_bytes g.state (copied g.state.bytes g.block ptr n)

  start : g.state.mem_start_brk ≡ s.mem_start_brk
  start = g.same_arena.0

  -- The arena has not moved.
  at_start :
      (l : List Block) (c j : ℕ) → Used (first_block s) l c j → Used (first_block g.state) l c j
  at_start l c j = subst (λ a. Used (a + 8 + 8) l c j) (sym start)

  from_start :
      (l : List Block) (c j : ℕ) → Used (first_block g.state) l c j → Used (first_block s) l c j
  from_start l c j = subst (λ a. Used (a + 8 + 8) l c j) start

  old_used : Used (first_block g.state) g.after ptr k
  old_used = at_start g.after ptr k ((g.used ptr k).1 (inl u))

  new_used : Used (first_block g.state) g.after g.block g.extent
  new_used = at_start g.after g.block g.extent ((g.used g.block g.extent).1 (inr (refl, refl)))

  old-Usable : Usable g.state ptr k
  old-Usable = Used-Usable g.state g.after ptr k g.heap old_used

  new-Usable : Usable g.state g.block g.extent
  new-Usable = Used-Usable g.state g.after g.block g.extent g.heap new_used

  copy_ok : memcpy g.block ptr n g.state ≡ ok tt mid
  copy_ok =
      let b = copy_bounds size k in
      let room = g.heap.layout.room in
      memcpy_lem g.state g.block ptr n (omega (arith, new-Usable.low))
        (omega (arith, new-Usable.high, g.large)) (omega (arith, old-Usable.low))
        (omega (arith, old-Usable.high)) (ground (arith, g.apart ptr k u, g.large))

  mid_IsHeap : IsHeap mid g.after
  mid_IsHeap =
      let b = copy_bounds size k in
      IsHeap-payload g.after g.block g.extent g.heap new_used
        (Same-copied g.state.bytes g.block ptr n)
        (record { low = omega arith; high = omega (arith, g.large) })

  freed : Freed mid g.after ptr (mm_free ptr mid)
  freed = mm_free-Freed mid g.after ptr k mid_IsHeap old_used

  not_null : (g.block == null) ≡ false
  not_null = ground (arith, new-Usable.low)

  realloc_calls :
      mm_realloc ptr size s ≡ ok g.block (record mid { bytes = freed.bytes; temp = freed.temp })
  unfolding mm_realloc
  realloc_calls = rw (
    g.returns,
    not_null,
    size_of_used g.state g.after ptr k g.heap old_used,
    copy_ok,
    freed.returns,
  )

  ne : g.block ≢ ptr
  ne e = absurd (omega (arith, g.apart ptr k u, old-Usable.least, new-Usable.least, e))

  after_both :
      (c j : ℕ)
      → Used (first_block s) freed.after c j
        ↔ ((Used (first_block s) bs c j × (c ≢ ptr)) ⊎ ((c ≡ g.block) × (j ≡ g.extent)))
  after_both c j = (
    λ v.
        let w = (freed.used c j).0 (at_start freed.after c j v) in
        elim ((g.used c j).0 (from_start g.after c j w.0)) [
          | inl old ↦ inl (old, w.1)
          | inr new ↦ inr new
        ],
    λ v. from_start freed.after c j ((freed.used c j).1 (back v)),
  )
    where
      back :
          (Used (first_block s) bs c j × (c ≢ ptr)) ⊎ ((c ≡ g.block) × (j ≡ g.extent))
          → Used (first_block g.state) g.after c j × (c ≢ ptr)
      back (inl (old, apart)) = (at_start g.after c j ((g.used c j).1 (inl old)), apart)
      back (inr new) = (at_start g.after c j ((g.used c j).1 (inr new)), λ e. ne (sym new.0 ∙ e))

  new_contents : (i : ℕ) → i < size → i + 8 < k → freed.bytes (g.block + i) ≡ s.bytes (ptr + i)
  new_contents i a b =
      freed.kept.payload g.block g.extent (g.block + i)
        ((freed.used g.block g.extent).1 (new_used, ne)) (omega arith) (omega (arith, g.large))
      ∙ copied-inside g.state.bytes g.block ptr n i (le-copy_size size k i a (omega arith))
      ∙ g.kept.payload ptr k (ptr + i) u (omega arith) (omega arith)

  others_kept :
      (c j x : ℕ)
      → Used (first_block s) bs c j
      → c ≢ ptr
      → c ≤ x
      → x + 8 < c + j
      → freed.bytes x ≡ s.bytes x
  others_kept c j x v apart lo hi =
      let b = copy_bounds size k in
      let new = at_start g.after c j ((g.used c j).1 (inl v)) in
      freed.kept.payload c j x ((freed.used c j).1 (new, apart)) lo hi
      ∙ (Same-copied g.state.bytes g.block ptr n).outside x (ground (arith, g.apart c j v, g.large))
      ∙ g.kept.payload c j x v lo hi

  realloc_Moved : Moved s bs ptr k size (mm_realloc ptr size s)
  realloc_Moved = record {
    state = record mid { bytes = freed.bytes; temp = freed.temp };
    block = g.block;
    extent = g.extent;
    after = freed.after;
    returns = realloc_calls;
    heap = freed.heap;
    same_arena = g.same_arena;
    large = g.large;
    grown_by = g.grown_by;
    apart = g.apart;
    used = after_both;
    contents = new_contents;
    kept = others_kept;
  }

-- `mm_realloc` of an allocated block, to 1 to 2^31 - 16 bytes, moves it: it returns a block with
-- room for the request that holds the old contents as far as both payloads reach, the old block
-- is no longer allocated, all others are, with their payloads, and the heap is well-formed. Or
-- `mm_malloc` refuses, and then it ends the program.
pub mm_realloc-Moved :
    (s : State) (bs : List Block) (ptr k size : ℕ)
    → IsHeap s bs
    → Used (first_block s) bs ptr k
    → 0 < size
    → size ≤ 2 ^ 31 - 16
    → Moved s bs ptr k size (mm_realloc ptr size s)
      ⊎ (Refused s bs size (mm_malloc size s) × (mm_realloc ptr size s ≡ exited))
unfolding mm_realloc
mm_realloc-Moved s bs ptr k size h u pos fine = elim (mm_malloc-Granted s bs size h pos fine) [
  | inl g ↦ inl (realloc_Moved s bs ptr k size h u pos g)
  | inr r ↦ inr (r, rw r.returns)
]
