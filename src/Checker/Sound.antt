-- ===== src/Checker/Sound.antt =====
-- `mm_checkheap` in any state of the arena, and what it makes sure of when it reports no error.
use malloc_jt.Base.{
  inl, inr, Bool-cases, ℕ, ◌+◌, ◌-◌, ◌%◌, ◌≤◌, ◌<◌, ◌≡◌, refl, sym, ap, subst, ◌∙◌, arith, Bool,
  true, false, not, ◌||◌, List, [], ◌∷◌, ◌++◌, u64, ◌==◌, if◌then◌else◌,
}
use malloc_jt.Machine.{Ptr, word, State, Outcome, ok, fault}
use malloc_jt.Heap.{Block, prologue, bit, total}
use malloc_jt.Mm.{hdrp}
use malloc_jt.Driver.Valid.Passes.{IsArena}
use malloc_jt.Checker.{heap_at, Message, bad_prologue, bad_epilogue, mm_checkheap}
use malloc_jt.Checker.Readings.{
  Reading, fails, gives, Reading-bind, InArena, get_size-Reading, get_alloc-Reading,
  checkblock-Reading, when-Reading, has_error, has_error-append, if-none,
}
use malloc_jt.Checker.Walked.{Row, hdrp-InArena, Walked, walk-Reading}

-- What `mm_checkheap` reads of a header.
record Header (s : State) (p : Ptr) (size alloc : ℕ) : Type 0 where
  inside : InArena s p
  size_bits : size ≡ word s.bytes p - word s.bytes p % 8
  alloc_bit : alloc ≡ word s.bytes p % 2

module _ (s : State) where
  -- The prologue, blocks and the epilogue follow one another from `heap_listp` to `last`.
  pub record Tiled : Type 0 where
    pub blocks : List Block
    pub last : Ptr
    pub row : Row s s.heap_listp (prologue ∷ blocks)
    pub ends : last ≡ s.heap_listp + total (prologue ∷ blocks)
    pub low : s.mem_start_brk + 4 ≤ last
    pub high : last ≤ s.mem_max_addr
    pub size : word s.bytes (last - 4) - word s.bytes (last - 4) % 8 ≡ 0
    pub alloc : word s.bytes (last - 4) % 2 ≡ 1

  -- How `mm_checkheap` ends: it reads outside the arena, or it changes nothing and reports an error
  -- or finds the row.
  pub data Checks (r : Outcome (List Message)) : Type 0 where
    leaves : r ≡ fault → Checks r
    complains : (ms : List Message) → r ≡ ok ms s → has_error ms ≡ true → Checks r
    passes : (ms : List Message) → r ≡ ok ms s → has_error ms ≡ false → Tiled → Checks r

module _ (s : State) (arena : IsArena s) where
  block-prologue :
      (n : ℕ) (x : Bool)
      → n ≡ 8
      → bit x ≡ 1
      → ◌≡◌ {A = Block} (record { size = n; alloc = x }) prologue
  block-prologue n true e f = rw e refl
  block-prologue n false e f = absurd (omega (arith, f))

  -- The first block is the prologue.
  Row-prologue :
      (a last : Ptr) (bs : List Block)
      → Row s a bs
      → last ≡ a + total bs
      → word s.bytes (a - 4) - word s.bytes (a - 4) % 8 ≡ 8
      → word s.bytes (a - 4) % 2 ≡ 1
      → word s.bytes (last - 4) - word s.bytes (last - 4) % 8 ≡ 0
      → (cs : List Block) × (bs ≡ prologue ∷ cs)
  Row-prologue a last [] row ends size alloc none = absurd (
      omega (
        arith,
        size,
        subst (λ p. word s.bytes (p - 4) - word s.bytes (p - 4) % 8 ≡ 0) {y = a}
            (ends ∙ omega arith) none,
      ))
  Row-prologue a last (b ∷ bs) row ends size alloc none = (
    bs,
    ap (λ b. b ∷ bs)
        (block-prologue b.size b.alloc (sym row.0.size ∙ size) (sym row.0.alloc ∙ alloc)),
  )

  Walked-Tiled :
      (last : Ptr)
      → s.heap_listp < u64
      → Header s (hdrp s.heap_listp) 8 1
      → Header s (hdrp last) 0 1
      → Walked s s.heap_listp last
      → Tiled s
  Walked-Tiled last h first epilogue w =
      let t = hdrp-InArena s arena s.heap_listp h first.inside in
      let z = hdrp-InArena s arena last w.narrow epilogue.inside in
      let size = subst (λ p. word s.bytes p - word s.bytes p % 8 ≡ 8) t.1 (sym first.size_bits) in
      let alloc = subst (λ p. word s.bytes p % 2 ≡ 1) t.1 (sym first.alloc_bit) in
      let c = Row-prologue s.heap_listp last w.blocks w.row w.ends size alloc w.size in
      record {
        blocks = c.0;
        last = last;
        row = subst (Row s s.heap_listp) c.1 w.row;
        ends = w.ends ∙ ap (λ bs. s.heap_listp + total bs) c.1;
        low = w.low;
        high = omega (arith, epilogue.inside.high, z.1, z.0);
        size = w.size;
        alloc = subst (λ p. word s.bytes p % 2 ≡ 1) z.1 (sym epilogue.alloc_bit);
      }

  -- The two tests of `mm_checkheap`, and the messages of the loop.
  Tiled-silent :
      (n a m e : ℕ) (start first lines last : List Message) (bp : Ptr)
      → s.heap_listp < u64
      → Header s (hdrp s.heap_listp) n a
      → (has_error lines ≡ false → Walked s s.heap_listp bp)
      → Header s (hdrp bp) m e
      → has_error (
          start
          ++ ((if not (n == 8) || a == 0 then bad_prologue ∷ [] else [])
              ++ (first
                  ++ (lines
                      ++ (last ++ (if not (m == 0) || e == 0 then bad_epilogue ∷ [] else []))))))
        ≡ false
      → Tiled s
  Tiled-silent n a m e start first lines last bp h header walked epilogue silent =
      let p = (has_error-append start _ silent).1 in
      let q = has_error-append (if not (n == 8) || a == 0 then bad_prologue ∷ [] else []) _ p in
      let t = has_error-append lines _ (has_error-append first _ q.1).1 in
      let x = if-none (not (n == 8) || a == 0) bad_prologue refl q.0 in
      let y = if-none (not (m == 0) || e == 0) bad_epilogue refl (has_error-append last _ t.1).1 in
      let n8 : n ≡ 8 = ground (arith, x) in
      let a1 : a ≡ 1 = ground (arith, x, header.alloc_bit) in
      let m0 : m ≡ 0 = ground (arith, y) in
      let e1 : e ≡ 1 = ground (arith, y, epilogue.alloc_bit) in
      Walked-Tiled bp h (rw⁻¹ (n8, a1) header) (rw⁻¹ (m0, e1) epilogue) (walked t.0)

  mm_checkheap-Reading :
      (verbose : Bool)
      → s.heap_listp < u64
      → Reading s (λ ms. has_error ms ≡ false → Tiled s) (mm_checkheap verbose s)
  unfolding mm_checkheap
  mm_checkheap-Reading verbose h = Reading-bind s _ (get_size-Reading s (hdrp s.heap_listp)) λ n f.
      let t = hdrp-InArena s arena s.heap_listp h f.0 in
      let fuel = s.mem_max_addr - s.mem_start_brk in
      Reading-bind s _ (get_alloc-Reading s (hdrp s.heap_listp)) λ a g.
        Reading-bind s _ (checkblock-Reading s s.heap_listp) λ first c.
          Reading-bind s _
            (walk-Reading s arena verbose fuel s.heap_listp h (omega (arith, f.0.low, f.0.high))
              (omega (arith, t.0, t.1, f.0.low, f.0.high)))
            λ r w. Reading-bind s _ (when-Reading verbose s r.1) λ last u.
              Reading-bind s _ (get_size-Reading s (hdrp r.1)) λ m f'.
                Reading-bind s _ (get_alloc-Reading s (hdrp r.1)) λ e g'. gives _ refl λ silent.
                  Tiled-silent n a m e (if verbose then heap_at s.heap_listp ∷ [] else []) first r.0
                    last r.1 h (record { inside = f.0; size_bits = f.1; alloc_bit = g.1 }) w
                    (record { inside = f'.0; size_bits = f'.1; alloc_bit = g'.1 }) silent

  -- In any state of the arena, whatever the bytes are, `mm_checkheap` ends. It reads outside the
  -- arena, or it returns and has changed nothing. If it then reported no error, the words in memory
  -- are those of a row of blocks: from `heap_listp` on, a prologue of 8 bytes that is allocated, then
  -- blocks of 8 bytes at least, each aligned, inside the arena and with a footer that repeats its
  -- header, up to a header of size 0 that is allocated. `heap_listp` is an address below 2^64.
  -- Whether neighbours are both free, whether the row ends at `mem_brk` and where `temp` points is
  -- not among this.
  pub mm_checkheap-Checks :
      (verbose : Bool) → s.heap_listp < u64 → Checks s (mm_checkheap verbose s)
  mm_checkheap-Checks verbose h = elim (mm_checkheap-Reading verbose h) [
    | fails e ↦ leaves e
    | gives ms e f ↦ elim (Bool-cases (has_error ms)) [
      | inl y ↦ complains ms e y
      | inr y ↦ passes ms e y (f y)
    ]
  ]
