-- ===== src/Driver/Contents.antt =====
-- What `eval_mm_valid` does with the contents of a block: `memset`, and the loop that compares the old
-- contents. A `char` is signed, as on x86.
pub mod Preserved
use malloc_jt.Base.{
  ℕ, zero, suc, ◌+◌, ◌-◌, ◌%◌, Bool, true, false, ◌&&◌, ltb, leb, ◌==◌, if◌then◌else◌, u32, bit_and,
}
use malloc_jt.Machine.{Ptr, ok, fault, Cmd, pure, ◌>>=◌, in_arena, with_bytes}

-- `memset` of bytes of the arena.
unfoldable pub memset : Ptr → ℕ → ℕ → Cmd (Unit {0})
memset p v n s =
    if in_arena s p n
    then ok tt (with_bytes s λ x. if leb p x && ltb x (p + n) then v % 256 else s.bytes x)
    else fault

-- A `char`, promoted to `int`.
unfoldable pub char_to_int : ℕ → ℕ
char_to_int b = if ltb b 128 then b else b + u32 - 256

unfoldable pub read_char : Ptr → Cmd ℕ
read_char p s = if in_arena s p 1 then ok (char_to_int (s.bytes p % 256)) s else fault

-- The loop over the old contents: whether each of the next `k` bytes equals `index & 0xFF`.
unfoldable pub preserved : ℕ → ℕ → Ptr → Cmd Bool
preserved zero index p = pure true
preserved (suc k) index p = do
  b ← read_char p
  if b == bit_and index 0xFF then preserved k index (p + 1) else pure false
