-- ===== src/Driver/Contents/Preserved.antt =====
-- The check of the old contents in `eval_mm_valid`, and its blind side: a `char` from 128 on.
use malloc_jt.Base.{
  ℕ, zero, suc, ◌+◌, ◌%◌, ◌≤◌, ◌<◌, ◌≡◌, refl, ap, ◌∙◌, arith, true, false, ◌==◌, bit_and,
}
use malloc_jt.Base.Bits.{bit_and-byte}
use malloc_jt.Machine.{Ptr, State, ok}
use malloc_jt.Mm.Steps.{in_arena-true}
use malloc_jt.Driver.Contents.{char_to_int, read_char, preserved}

read_char_lem :
    (s : State) (p : Ptr)
    → s.mem_start_brk ≤ p
    → p + 1 ≤ s.mem_max_addr
    → read_char p s ≡ ok (char_to_int (s.bytes p % 256)) s
unfolding read_char
read_char_lem s p h k = rw (in_arena-true s p 1 h k)

-- Each of the `k` bytes at `p` is the low byte of `index`.
pub record Filled (s : State) (k index p : ℕ) : Type 0 where
  pub bytes : (i : ℕ) → i < k → s.bytes (p + i) % 256 ≡ index % 256

low_byte :
    (index b : ℕ)
    → index % 256 < 128
    → b ≡ index % 256
    → (char_to_int b == bit_and index 0xFF) ≡ true
unfolding char_to_int
low_byte index b h e = ground (arith, bit_and-byte index)

high_byte :
    (index b : ℕ) → 128 ≤ index % 256 → (char_to_int (b % 256) == bit_and index 0xFF) ≡ false
unfolding char_to_int
high_byte index b h = ground (arith, bit_and-byte index)

-- `k` bytes of the arena that all hold the low byte of `index` pass the check of the old contents
-- when that byte is below 128.
pub preserved-Filled :
    (s : State) (k index : ℕ) (p : Ptr)
    → s.mem_start_brk ≤ p
    → p + k ≤ s.mem_max_addr
    → index % 256 < 128
    → Filled s k index p
    → preserved k index p s ≡ ok true s
unfolding preserved
preserved-Filled s zero index p a b c f = refl
preserved-Filled s (suc k) index p a b c f =
    let now : s.bytes p % 256 ≡ index % 256 =
      ap (λ x. s.bytes x % 256) (omega arith) ∙ f.bytes 0 (omega arith) in
    let later : Filled s k index (p + 1) = record {
      bytes = λ i h. ap (λ x. s.bytes x % 256) (omega arith) ∙ f.bytes (i + 1) (omega arith);
    } in
    rw (
      read_char_lem s p a (omega arith),
      low_byte index (s.bytes p % 256) c now,
      preserved-Filled s k index (p + 1) (omega arith) (omega arith) c later,
    )

-- With a low byte of `index` from 128 on, the check of one byte of the arena or more fails whatever
-- the bytes are, also when they are the right ones.
pub preserved-signed :
    (s : State) (k index : ℕ) (p : Ptr)
    → s.mem_start_brk ≤ p
    → p + suc k ≤ s.mem_max_addr
    → 128 ≤ index % 256
    → preserved (suc k) index p s ≡ ok false s
unfolding preserved
preserved-signed s k index p a b c =
    rw (read_char_lem s p a (omega arith), high_byte index (s.bytes p) c)
