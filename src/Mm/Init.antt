-- ===== src/Mm/Init.antt =====
-- `mm_init` on an empty arena makes a well-formed heap in which nothing is allocated.
use malloc_jt.Base.{
  ℕ, ◌+◌, ◌%◌, ◌^◌, ◌≤◌, ◌<◌, ◌≡◌, inl, inr, refl, sym, ap, subst, ◌∙◌, arith, Bool, true, false,
  not, List, [], ◌∷◌, u64, ◌==◌,
}
use native.Mathlib.Decide.{dec_lt}
use malloc_jt.Machine.{
  Ptr, null, minus_one, padd, Bytes, word, write_word, State, Outcome, ok, with_bytes, and_then,
  pure,
}
use malloc_jt.Machine.Words.{word-write_self, word-write_other}
use malloc_jt.Memlib.{max_heap}
use malloc_jt.Heap.{Block, free_block, used_block, prologue, total, IsHeap, Holds, first_block}
use malloc_jt.Heap.Lists.{Holds-At}
use malloc_jt.Heap.Marked.{Used-tails}
use malloc_jt.Heap.Widened.{Used}
use malloc_jt.Mm.{chunksize, mm_init, extend_heap}
use malloc_jt.Mm.Steps.{pack-tag, put_lem}
use malloc_jt.Mm.Extend.{mem_sbrk-room, mem_sbrk-full, extend_heap-Settled, extend_heap-full, grown}

-- What memlib.c gives: an aligned arena of at most MAX_HEAP bytes, and an empty heap.
pub record IsReset (s : State) : Type 0 where
  pub not_low : 8 ≤ s.mem_start_brk
  pub aligned : s.mem_start_brk % 8 ≡ 0
  pub limit : s.mem_max_addr ≤ s.mem_start_brk + max_heap
  pub small : s.mem_max_addr + 2 ^ 32 < u64
  pub empty : s.mem_brk ≡ s.mem_start_brk
  pub inside : s.mem_start_brk ≤ s.mem_max_addr

-- The memory after the four words of the prologue and the epilogue.
pub init_bytes : Bytes → Ptr → Bytes
init_bytes m p =
    write_word (write_word (write_word (write_word m p 0) (p + 4) 9) (p + 8) 9) (p + 12) 1

abbrev pub init_state : State → State
init_state s = record s {
  bytes = init_bytes s.bytes s.mem_start_brk;
  heap_listp = s.mem_start_brk + 8;
  temp = s.mem_start_brk + 8;
  mem_brk = s.mem_start_brk + 16;
}

prologue_words :
    (m : Bytes) (p : Ptr)
    → (word (init_bytes m p) (p + 4) ≡ 9)
      × (word (init_bytes m p) (p + 8) ≡ 9)
      × (word (init_bytes m p) (p + 12) ≡ 1)
unfolding init_bytes
prologue_words m p =
    let m1 = write_word m p 0 in
    let m2 = write_word m1 (p + 4) 9 in
    let m3 = write_word m2 (p + 8) 9 in
    (
      word-write_other m3 (p + 12) 1 (p + 4) (omega arith)
          ∙ word-write_other m2 (p + 8) 9 (p + 4) (omega arith)
          ∙ word-write_self m1 (p + 4) 9 (omega arith),
      word-write_other m3 (p + 12) 1 (p + 8) (omega arith)
          ∙ word-write_self m2 (p + 8) 9 (omega arith),
      word-write_self m3 (p + 12) 1 (omega arith),
    )

module _ (s : State) (i : IsReset s) (room : s.mem_start_brk + 16 ≤ s.mem_max_addr) where
  start_IsHeap : IsHeap (init_state s) []
  start_IsHeap =
      let w = prologue_words s.bytes s.mem_start_brk in
      let at : (n : ℕ) → n ≡ s.mem_start_brk + 4 → word (init_bytes s.bytes s.mem_start_brk) n ≡ 9 =
        λ n e. ap (word (init_bytes s.bytes s.mem_start_brk)) e ∙ w.0 in
      record {
        layout = record {
          not_low = i.not_low;
          aligned = i.aligned;
          limit = i.limit;
          small = i.small;
          listp = refl;
          blocks = (
            record {
              header = ap (word (init_bytes s.bytes s.mem_start_brk)) (omega arith) ∙ w.0;
              footer = ap (word (init_bytes s.bytes s.mem_start_brk)) (omega arith) ∙ w.1;
              least = omega arith;
              eights = refl;
            },
            tt,
          );
          brk = omega arith;
          room = room;
          epilogue = ap (word (init_bytes s.bytes s.mem_start_brk)) (omega arith) ∙ w.2;
        };
        roomy = tt;
        compact = tt;
        rover = (prologue, inl (refl, refl));
      }

  mm_init_calls :
      mm_init s ≡ and_then (extend_heap 1024 (init_state s)) (λ bp. pure (not (bp == null)))
  unfolding mm_init init_bytes
  mm_init_calls =
      let p = s.mem_start_brk in
      let t = record s { heap_listp = p; mem_brk = p + 16 } in
      let m1 = write_word s.bytes p 0 in
      let m2 = write_word m1 (p + 4) 9 in
      let m3 = write_word m2 (p + 8) 9 in
      let ne : (p == minus_one) ≡ false = ground (arith, i.small, room) in
      let a1 : padd p 4 ≡ p + 4 = omega (arith, i.small, room) in
      let a2 : padd p 8 ≡ p + 8 = omega (arith, i.small, room) in
      let a3 : padd p 12 ≡ p + 12 = omega (arith, i.small, room) in
      rw (
        mem_sbrk-room s 16 i.small (omega (arith, i.empty, i.inside)) (omega arith)
            (omega (arith, i.empty, room)),
        i.empty,
        ne,
        put_lem t p 0 (omega arith) (omega (arith, room)),
        a1,
        pack-tag (used_block 8) refl,
        put_lem (with_bytes t m1) (p + 4) 9 (omega arith) (omega (arith, room)),
        a2,
        put_lem (with_bytes t m2) (p + 8) 9 (omega arith) (omega (arith, room)),
        a3,
        pack-tag (used_block 0) refl,
        put_lem (with_bytes t m3) (p + 12) 1 (omega arith) (omega (arith, room)),
      )

-- The outcome of `mm_init`: success, a well-formed heap with nothing allocated, and a free block
-- of CHUNKSIZE bytes at least.
pub record Booted (s : State) (r : Outcome Bool) : Type 0 where
  pub state : State
  pub bs : List Block
  pub returns : r ≡ ok true state
  pub heap : IsHeap state bs
  pub same_arena : (state.mem_start_brk ≡ s.mem_start_brk) × (state.mem_max_addr ≡ s.mem_max_addr)
  pub break_at : state.mem_brk ≡ s.mem_start_brk + 4112
  pub none_used : (c k : ℕ) → ¬ Used (first_block s) bs c k
  pub at : Ptr
  pub size : ℕ
  pub one_free : Holds (s.mem_start_brk + 8) (prologue ∷ bs) at (free_block size)
  pub chunk : chunksize ≤ size

not_null : (p n : ℕ) → (p + 8 + n == null) ≡ false
not_null p n = ground arith

-- On a reset arena with room for 4112 bytes `mm_init` returns 0 and sets up a well-formed heap
-- without allocated blocks and with a free block of at least CHUNKSIZE bytes.
pub mm_init-Booted :
    (s : State) → IsReset s → s.mem_start_brk + 4112 ≤ s.mem_max_addr → Booted s (mm_init s)
mm_init-Booted s i room =
    let h = start_IsHeap s i (omega arith) in
    let t =
      extend_heap-Settled (init_state s) [] 4096 h (omega arith) refl (omega arith) (omega arith) in
    rw (mm_init_calls s i (omega arith), t.returns, not_null s.mem_start_brk (total t.front))
      (record {
        state = record (grown (init_state s) 4096) { bytes = t.bytes; temp = t.temp };
        bs = t.bs;
        returns = refl;
        heap = t.heap;
        same_arena = (refl, refl);
        break_at = omega (arith, i.empty);
        none_used = λ c k u.
            nothing c k
              ((Used-tails (s.mem_start_brk + 8) c k (free_block 4096 ∷ []) t.bs (t.used c k)).1 u);
        at = s.mem_start_brk + 8 + total t.front;
        size = t.size;
        one_free =
            subst
              (λ l.
                Holds (s.mem_start_brk + 8) l (s.mem_start_brk + 8 + total t.front)
                  (free_block t.size))
              (sym t.split) (Holds-At (s.mem_start_brk + 8) t.front t.back (free_block t.size));
        chunk = t.wide;
      })
  where
    nothing : (c k : ℕ) → ¬ Used (first_block s) (free_block 4096 ∷ []) c k
    nothing c k (inl e) = cc (ap (λ (b : Block). b.alloc) e.1)
    nothing c k (inr e) = e

no_prologue :
    (s : State)
    → IsReset s
    → s.mem_max_addr < s.mem_start_brk + 16
    → mm_init s ≡ ok false (record s { heap_listp = minus_one })
unfolding mm_init
no_prologue s i small = rw (
    mem_sbrk-full s 16 i.small (omega (arith, i.empty, i.inside)) (omega arith)
      (omega (arith, i.empty)))

-- On a reset arena with room for fewer than 4112 bytes `mm_init` returns -1 and the arena
-- stays where it is.
pub mm_init-full :
    (s : State)
    → IsReset s
    → s.mem_max_addr < s.mem_start_brk + 4112
    → (t : State) × (mm_init s ≡ ok false t)
      × (t.mem_start_brk ≡ s.mem_start_brk)
      × (t.mem_max_addr ≡ s.mem_max_addr)
mm_init-full s i full = elim (dec_lt s.mem_max_addr (s.mem_start_brk + 16)) [
  | yes small ↦ (record s { heap_listp = minus_one }, no_prologue s i small, refl, refl)
  | no big ↦
      let h = start_IsHeap s i (omega arith) in
      (
        init_state s,
        rw (
          mm_init_calls s i (omega arith),
          extend_heap-full (init_state s) [] 4096 h refl (omega arith) (omega arith),
        ),
        refl,
        refl,
      )
]
