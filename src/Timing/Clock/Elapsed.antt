-- ===== src/Timing/Clock/Elapsed.antt =====
-- The subtraction of two counters in clock.c.
use malloc_jt.Base.{ℕ, ◌+◌, ◌-◌, ◌*◌, ◌%◌, ◌<◌, ◌≡◌, arith, u32, u64}
use malloc_jt.Timing.Clock.{difference}

-- The number that two words stand for, the high one first.
abbrev pub joined : ℕ × ℕ → ℕ
joined c = c.0 * u32 + c.1

-- The difference of two counters, of words below 2^32, is that of the 64-bit numbers that they stand
-- for, modulo 2^64: the borrow goes from the low word to the high one.
pub joined-difference :
    (hi lo old_hi old_lo : ℕ)
    → hi < u32
    → lo < u32
    → old_hi < u32
    → old_lo < u32
    → joined (difference (hi, lo) (old_hi, old_lo))
      ≡ (joined (hi, lo) + u64 - joined (old_hi, old_lo)) % u64
unfolding difference
joined-difference hi lo old_hi old_lo a b c d = ground arith
