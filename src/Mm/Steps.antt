-- ===== src/Mm/Steps.antt =====
-- What each macro of mm.c returns where the word that it reads is a boundary tag in the arena.
use malloc_jt.Base.{ℕ, ◌+◌, ◌-◌, ◌%◌, ◌≤◌, ◌<◌, ◌≡◌, ◌∙◌, ap, Bool, true, false, arith, u64, le→leb}
use malloc_jt.Base.Bits.{bit_and-one, bit_and-size_mask, bit_or-clear, bit_or-set}
use malloc_jt.Machine.{Ptr, word, write_word, State, ok, in_arena, with_bytes, psub}
use malloc_jt.Machine.Words.{word-lt}
use malloc_jt.Heap.{Block, bit, tag}
use malloc_jt.Mm.{pack, get, put, get_size, get_alloc, hdrp, ftrp, next_blkp, prev_blkp}

pub record Tagged (s : State) (p : Ptr) (b : Block) : Type 0 where
  pub low : s.mem_start_brk ≤ p
  pub high : p + 4 ≤ s.mem_max_addr
  pub small : s.mem_max_addr < u64
  pub holds : word s.bytes p ≡ tag b
  pub eights : b.size % 8 ≡ 0

pub in_arena-true :
    (s : State) (p n : ℕ) → s.mem_start_brk ≤ p → p + n ≤ s.mem_max_addr → in_arena s p n ≡ true
in_arena-true s p n h k = rw (le→leb _ _ h, le→leb _ _ k)

pub get_lem :
    (s : State) (p : ℕ)
    → s.mem_start_brk ≤ p
    → p + 4 ≤ s.mem_max_addr
    → get p s ≡ ok (word s.bytes p) s
unfolding get
get_lem s p h k = rw (in_arena-true s p 4 h k)

pub put_lem :
    (s : State) (p v : ℕ)
    → s.mem_start_brk ≤ p
    → p + 4 ≤ s.mem_max_addr
    → put p v s ≡ ok tt (with_bytes s (write_word s.bytes p v))
unfolding put
put_lem s p v h k = rw (in_arena-true s p 4 h k)

pack-bit : (n : ℕ) (b : Bool) → n % 8 ≡ 0 → pack n (bit b) ≡ n + bit b
unfolding pack
pack-bit n true e = bit_or-set n (omega arith)
pack-bit n false e = bit_or-clear n ∙ omega arith

pub pack-tag : (b : Block) → b.size % 8 ≡ 0 → pack b.size (bit b.alloc) ≡ tag b
pack-tag b e = pack-bit b.size b.alloc e

tag_size : (b : Block) → b.size % 8 ≡ 0 → tag b - tag b % 8 ≡ b.size
tag_size b e = ground arith

tag-bit : (b : Block) → b.size % 8 ≡ 0 → tag b % 2 ≡ bit b.alloc
tag-bit b e = ground arith

module _ {s : State} {p : Ptr} {b : Block} (t : Tagged s p b) where
  pub get_size_lem : get_size p s ≡ ok b.size s
  unfolding get_size
  get_size_lem = rw (get_lem s p t.low t.high) (
      ap (λ n. ok n s)
        (bit_and-size_mask (word s.bytes p) (word-lt s.bytes p)
          ∙ ap (λ w. w - w % 8) t.holds
          ∙ tag_size b t.eights))

  pub get_alloc_lem : get_alloc p s ≡ ok (bit b.alloc) s
  unfolding get_alloc
  get_alloc_lem = rw (get_lem s p t.low t.high) (
      ap (λ n. ok n s)
        (bit_and-one (word s.bytes p) ∙ ap (λ w. w % 2) t.holds ∙ tag-bit b t.eights))

pub hdrp_lem : (a : Ptr) → 4 ≤ a → a < u64 → hdrp a ≡ a - 4
unfolding hdrp
hdrp_lem a h k = omega arith

module _ (s : State) (a : Ptr) (b : Block) (t : Tagged s (a - 4) b) (h : 8 ≤ a) where
  at_header : hdrp a ≡ a - 4
  at_header = hdrp_lem a (omega arith) (omega (arith, t.high, t.small))

  pub size_at : get_size (hdrp a) s ≡ ok b.size s
  size_at = rw at_header (get_size_lem t)

  pub alloc_at : get_alloc (hdrp a) s ≡ ok (bit b.alloc) s
  alloc_at = rw at_header (get_alloc_lem t)

  pub ftrp_lem : a + b.size < u64 → ftrp a s ≡ ok (a + b.size - 8) s
  unfolding ftrp
  ftrp_lem k = rw size_at (ap (λ n. ok n s) (omega arith))

  pub next_blkp_lem : a + b.size < u64 → next_blkp a s ≡ ok (a + b.size) s
  unfolding next_blkp
  next_blkp_lem k =
      let e : psub a 4 ≡ a - 4 = omega (arith, t.high, t.small) in
      rw (e, get_size_lem t) (ap (λ n. ok n s) (omega arith))

pub prev_blkp_lem :
    (s : State) (a : Ptr) (b : Block)
    → Tagged s (a - 8) b
    → 8 ≤ a
    → b.size ≤ a
    → a < u64
    → prev_blkp a s ≡ ok (a - b.size) s
unfolding prev_blkp
prev_blkp_lem s a b t h k l =
    let e : psub a 8 ≡ a - 8 = omega arith in
    rw (e, get_size_lem t) (ap (λ n. ok n s) (omega arith))
