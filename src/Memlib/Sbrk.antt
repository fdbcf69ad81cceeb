-- ===== src/Memlib/Sbrk.antt =====
-- `mem_sbrk` on every increment.
use malloc_jt.Base.{
  ℕ, ◌+◌, ◌^◌, ◌≤◌, ◌<◌, ◌≡◌, ◌⊎◌, inl, inr, arith, true, false, u64, is_neg, le→leb, lt→ltb,
  le→ltb,
}
use native.Mathlib.Decide.{dec_lt}
use malloc_jt.Machine.{State, ok, minus_one, padd}
use malloc_jt.Memlib.{mem_sbrk}

-- For an `int` pattern `incr`, `mem_sbrk` either moves the break up by `incr`, not beyond the arena,
-- and returns the old break, or, when `incr` is negative or there is no room, returns -1 and
-- changes nothing. The break lies in the arena, which ends 2^32 bytes below 2^64 at least.
pub mem_sbrk_lem :
    (s : State) (incr : ℕ)
    → incr < 2 ^ 32
    → s.mem_brk ≤ s.mem_max_addr
    → s.mem_max_addr + 2 ^ 32 < u64
    → ((incr < 2 ^ 31)
        × (s.mem_brk + incr ≤ s.mem_max_addr)
        × (mem_sbrk incr s ≡ ok s.mem_brk (record s { mem_brk = s.mem_brk + incr })))
      ⊎ (((2 ^ 31 ≤ incr) ⊎ (s.mem_max_addr < s.mem_brk + incr))
          × (mem_sbrk incr s ≡ ok minus_one s))
unfolding mem_sbrk
mem_sbrk_lem s incr w room small =
    let sum : padd s.mem_brk incr ≡ s.mem_brk + incr = omega arith in
    elim (dec_lt incr (2 ^ 31)) [
      | no big ↦
          let neg : is_neg incr ≡ true = le→leb _ _ (omega arith) in inr (inl (omega arith), rw neg)
      | yes fits ↦
          let pos : is_neg incr ≡ false = ground arith in
          elim (dec_lt s.mem_max_addr (s.mem_brk + incr)) [
            | yes full ↦
                inr (inr full, rw (pos, sum, lt→ltb s.mem_max_addr (s.mem_brk + incr) full))
            | no fine ↦ inl (
              fits,
              omega arith,
              rw (pos, sum, le→ltb s.mem_max_addr (s.mem_brk + incr) (omega arith)),
            )
          ]
    ]
