-- ===== src/Checker/Walked.antt =====
-- The loop of `mm_checkheap` ends; if it reported no error, these are the blocks that it went over.
use malloc_jt.Base.{
  ℕ, zero, suc, ◌+◌, ◌-◌, ◌%◌, ◌≤◌, ◌<◌, ◌≡◌, refl, sym, subst, arith, inl, inr, Bool, false, List,
  ◌++◌, [], ◌∷◌, ltb, u64, ◌==◌, Bool-cases,
}
use malloc_jt.Machine.{Ptr, word, State, padd, psub}
use malloc_jt.Machine.Words.{word-lt}
use malloc_jt.Heap.{Block, bit, total}
use malloc_jt.Mm.{hdrp}
use malloc_jt.Driver.Valid.Passes.{IsArena}
use malloc_jt.Checker.{Message, walk}
use malloc_jt.Checker.Readings.{
  Reading, gives, Reading-bind, InArena, get_size-Reading, size_of, next_blkp-Reading, Checked,
  has_error, has_error-append, checkblock-Reading, when-Reading,
}

-- A block as its header has it, with its payload at `a`. The words of the header and the footer are
-- the same, and lie in the arena; the bits 1 and 2 of the word are not looked at.
pub record Matches (s : State) (a : Ptr) (b : Block) : Type 0 where
  pub low : s.mem_start_brk + 4 ≤ a
  pub inside : a + b.size ≤ s.mem_max_addr + 4
  pub aligned : a % 8 ≡ 0
  pub size : word s.bytes (a - 4) - word s.bytes (a - 4) % 8 ≡ b.size
  pub alloc : word s.bytes (a - 4) % 2 ≡ bit b.alloc
  pub footer : word s.bytes (a + b.size - 8) ≡ word s.bytes (a - 4)
  pub least : 8 ≤ b.size

abbrev pub Row : State → Ptr → List Block → Type 0
Row s a [] = Unit {0}
Row s a (b ∷ bs) = Matches s a b × Row s (a + b.size) bs

module _ (s : State) where
  -- The row of blocks from `a` to `last`, where a header has size 0.
  pub record Walked (a last : Ptr) : Type 0 where
    pub blocks : List Block
    pub row : Row s a blocks
    pub ends : last ≡ a + total blocks
    pub low : s.mem_start_brk + 4 ≤ last
    pub narrow : last < u64
    pub size : word s.bytes (last - 4) - word s.bytes (last - 4) % 8 ≡ 0

module _ (s : State) (arena : IsArena s) where
  pub hdrp-InArena : (a : Ptr) → a < u64 → InArena s (hdrp a) → (12 ≤ a) × (hdrp a ≡ a - 4)
  unfolding hdrp
  hdrp-InArena a h i = (
    omega (arith, i.low, i.high, arena.not_low, arena.small),
    omega (arith, i.low, i.high, arena.not_low, arena.small),
  )

  pub Checked-Matches :
      (a : Ptr) (b : Block)
      → a < u64
      → size_of s a ≡ b.size
      → 0 < b.size
      → word s.bytes (hdrp a) % 2 ≡ bit b.alloc
      → Checked s a
      → Matches s a b
  Checked-Matches a b h e pos allocated c =
      let t = hdrp-InArena a h c.header in
      let size = subst (λ p. word s.bytes p - word s.bytes p % 8 ≡ b.size) t.1 e in
      let least : 8 ≤ b.size = omega (arith, size, pos) in
      let footer : psub (padd a (size_of s a)) 8 ≡ a + b.size - 8 =
        omega (arith, e, least, t.0, word-lt s.bytes (hdrp a), c.header.high, arena.small, t.1) in
      record {
        low = omega (arith, c.header.low, t.1, t.0);
        inside = omega (arith, c.footer.high, footer, least);
        aligned = c.aligned;
        size = size;
        alloc = subst (λ p. word s.bytes p % 2 ≡ bit b.alloc) t.1 allocated;
        footer = rw⁻¹ (footer, t.1) c.same;
        least = least;
      }

  abbrev block_of : Ptr → Block
  block_of a = record { size = size_of s a; alloc = word s.bytes (hdrp a) % 2 == 1 }

  Walked-stop : (a : Ptr) → a < u64 → InArena s (hdrp a) → size_of s a ≡ 0 → Walked s a a
  Walked-stop a h i e =
      let t = hdrp-InArena a h i in
      record {
        blocks = [];
        row = tt;
        ends = omega arith;
        low = omega (arith, i.low, t.0, t.1);
        narrow = h;
        size = subst (λ p. word s.bytes p - word s.bytes p % 8 ≡ 0) t.1 e;
      }

  Walked-cons :
      (a last : Ptr)
      → a < u64
      → 0 < size_of s a
      → Checked s a
      → Walked s (padd a (size_of s a)) last
      → Walked s a last
  Walked-cons a last h pos c w =
      let m = Checked-Matches a (block_of a) h refl pos (ground arith) c in
      let next : padd a (size_of s a) ≡ a + size_of s a = omega (arith, m.inside, arena.small) in
      record {
        blocks = block_of a ∷ w.blocks;
        row = (m, subst (λ p. Row s p w.blocks) next w.row);
        ends = omega (arith, w.ends, next);
        low = w.low;
        narrow = w.narrow;
        size = w.size;
      }

  -- Every block takes 8 bytes at least, so the loop leaves the arena before the fuel runs out.
  next_fuel :
      (a k : ℕ)
      → a < u64
      → InArena s (hdrp a)
      → 0 < size_of s a
      → s.mem_max_addr + 2 ≤ a + suc k
      → (0 < k) × (s.mem_max_addr + 2 ≤ padd a (size_of s a) + k)
  next_fuel a k h i pos f =
      let t = hdrp-InArena a h i in
      let small = word-lt s.bytes (hdrp a) in
      (
        omega (arith, i.high, t.0, t.1, f),
        omega (arith, i.high, t.0, t.1, f, pos, small, arena.small),
      )

  -- The loop ends, and if it reported no error it went over a row of blocks.
  pub walk-Reading :
      (verbose : Bool) (fuel : ℕ) (a : Ptr)
      → a < u64
      → 0 < fuel
      → s.mem_max_addr + 2 ≤ a + fuel
      → Reading s
          (λ (r : List Message × Ptr). has_error r.0 ≡ false → Walked s a r.1)
          (walk fuel verbose a s)
  unfolding walk
  walk-Reading verbose zero a h some f = absurd (omega (arith, some))
  walk-Reading verbose (suc k) a h some f = Reading-bind s _ (get_size-Reading s (hdrp a)) λ n q.
      elim (Bool-cases (ltb 0 n)) [
        | inl y ↦
            let pos : 0 < size_of s a = ground (arith, y, q.1) in
            let next = next_fuel a k h q.0 pos f in
            rw y (
              Reading-bind s _ (when-Reading verbose s a) λ printed u.
                Reading-bind s _ (checkblock-Reading s a) λ checked c.
                  Reading-bind s _ (next_blkp-Reading s a) λ p e.
                    Reading-bind s _
                      (subst
                        (λ p.
                          Reading s
                            (λ (r : List Message × Ptr).
                              has_error r.0 ≡ false → Walked s (padd a (size_of s a)) r.1)
                            (walk k verbose p s))
                        (sym e)
                        (walk-Reading verbose k (padd a (size_of s a)) (omega arith) next.0 next.1))
                      λ r w.
                        gives (printed ++ (checked ++ r.0), r.1) refl
                          λ silent.
                            let t = has_error-append printed (checked ++ r.0) silent in
                            let v = has_error-append checked r.0 t.1 in
                            Walked-cons a r.1 h pos (c v.0) (w v.1))
        | inr y ↦ rw y (gives ([], a) refl λ silent. Walked-stop a h q.0 (ground (arith, y, q.1)))
      ]
