-- ===== src/Base/Bits.antt =====
-- The masks of mm.c as arithmetic: `w & ~7`, `w & 1` and `size | bit`.
use Prim.Native.Nat.{
  ℕ, zero, suc, ◌+◌, ◌-◌, ◌*◌, ◌/◌, ◌%◌, ◌^◌, ◌≤◌, ◌<◌, min, max, bit_and, bit_or, digits,
  bit_and-bitwise, bit_or-bitwise,
}
use mathlib.Core.Path.{◌≡◌, refl, ◌∙◌, ap}
use native.Mathlib.Omega.{arith}

-- Any operation on digits, from the recursion that the native one stands for.
module _ (rest : ℕ → ℕ) (op : ℕ → ℕ → ℕ) where
  abbrev on_digits : ℕ → ℕ → ℕ → ℕ
  on_digits n a b = digits rest op n a b

  on_digits_fuel : (n m a b : ℕ) → a ≤ n → a ≤ m → on_digits n a b ≡ on_digits m a b
  on_digits_fuel zero zero a b p q = refl
  on_digits_fuel zero (suc m) zero b p q = refl
  on_digits_fuel zero (suc m) (suc a) b p q = absurd (omega arith)
  on_digits_fuel (suc n) zero zero b p q = refl
  on_digits_fuel (suc n) zero (suc a) b p q = absurd (omega arith)
  on_digits_fuel (suc n) (suc m) zero b p q = refl
  on_digits_fuel (suc n) (suc m) (suc a) b p q =
      omega (arith, on_digits_fuel n m (suc a / 2) (b / 2) (omega arith) (omega arith))

zero-bit_and : (b : ℕ) → bit_and 0 b ≡ 0
zero-bit_and b = bit_and-bitwise 0 b

zero-bit_or : (b : ℕ) → bit_or 0 b ≡ b
zero-bit_or b = bit_or-bitwise 0 b

bit_and-halve : (a b : ℕ) → bit_and a b ≡ bit_and (a / 2) (b / 2) * 2 + min (a % 2) (b % 2)
bit_and-halve zero b = omega (arith, zero-bit_and b, zero-bit_and (b / 2))
bit_and-halve (suc a) b = omega (
  arith,
  bit_and-bitwise (suc a) b,
  bit_and-bitwise (suc a / 2) (b / 2),
  on_digits_fuel (λ b. zero) min a (suc a / 2) (suc a / 2) (b / 2) (omega arith) (omega arith),
)

bit_or-halve : (a b : ℕ) → bit_or a b ≡ bit_or (a / 2) (b / 2) * 2 + max (a % 2) (b % 2)
bit_or-halve zero b = omega (arith, zero-bit_or b, zero-bit_or (b / 2))
bit_or-halve (suc a) b = omega (
  arith,
  bit_or-bitwise (suc a) b,
  bit_or-bitwise (suc a / 2) (b / 2),
  on_digits_fuel (λ b. b) max a (suc a / 2) (suc a / 2) (b / 2) (omega arith) (omega arith),
)

bit_and-zero : (n a : ℕ) → a ≤ n → bit_and a 0 ≡ 0
bit_and-zero n zero h = zero-bit_and 0
bit_and-zero zero (suc a) h = absurd (omega arith)
bit_and-zero (suc n) (suc a) h =
    omega (arith, bit_and-halve (suc a) 0, bit_and-zero n (suc a / 2) (omega arith))

bit_or-zero : (n a : ℕ) → a ≤ n → bit_or a 0 ≡ a
bit_or-zero n zero h = zero-bit_or 0
bit_or-zero zero (suc a) h = absurd (omega arith)
bit_or-zero (suc n) (suc a) h =
    omega (arith, bit_or-halve (suc a) 0, bit_or-zero n (suc a / 2) (omega arith))

pub bit_and-one : (a : ℕ) → bit_and a 1 ≡ a % 2
bit_and-one a = omega (arith, bit_and-halve a 1, bit_and-zero (a / 2) (a / 2) (omega arith))

-- `k` ones in a row.
ones : ℕ → ℕ
ones zero = 0
ones (suc k) = 2 * ones k + 1

bit_and-ones : (k a : ℕ) → a ≤ ones k → bit_and a (ones k) ≡ a
unfolding ones
bit_and-ones zero a h = bit_and-zero a a (omega arith) ∙ omega arith
bit_and-ones (suc k) a h = omega (
  arith,
  bit_and-halve a (2 * ones k + 1),
  ap (bit_and (a / 2)) (half (ones k)),
  bit_and-ones k (a / 2) (omega arith),
)
  where
    half : (m : ℕ) → (2 * m + 1) / 2 ≡ m
    half m = omega arith

-- `w & ~7` on 32 bits clears the three low bits.
pub bit_and-size_mask : (w : ℕ) → w < 2 ^ 32 → bit_and w 0xffff_fff8 ≡ w - w % 8
unfolding ones
bit_and-size_mask w h = omega (
  arith,
  bit_and-halve w 0xffff_fff8,
  bit_and-halve (w / 2) 0x7fff_fffc,
  bit_and-halve (w / 2 / 2) 0x3fff_fffe,
  bit_and-ones 29 (w / 2 / 2 / 2) (omega arith),
)

-- `a | 0` and, on an even `a`, `a | 1`.
pub bit_or-clear : (a : ℕ) → bit_or a 0 ≡ a
bit_or-clear a = bit_or-zero a a (omega arith)

pub bit_or-set : (a : ℕ) → a % 2 ≡ 0 → bit_or a 1 ≡ a + 1
bit_or-set a e = omega (arith, bit_or-halve a 1, bit_or-clear (a / 2))

-- The masks of two to seven ones.
low_bits_two : (a : ℕ) → bit_and a 3 ≡ a % 4
low_bits_two a = omega (arith, bit_and-halve a 3, bit_and-one (a / 2))

low_bits_three : (a : ℕ) → bit_and a 7 ≡ a % 8
low_bits_three a = omega (arith, bit_and-halve a 7, low_bits_two (a / 2))

low_bits_four : (a : ℕ) → bit_and a 15 ≡ a % 16
low_bits_four a = omega (arith, bit_and-halve a 15, low_bits_three (a / 2))

low_bits_five : (a : ℕ) → bit_and a 31 ≡ a % 32
low_bits_five a = omega (arith, bit_and-halve a 31, low_bits_four (a / 2))

low_bits_six : (a : ℕ) → bit_and a 63 ≡ a % 64
low_bits_six a = omega (arith, bit_and-halve a 63, low_bits_five (a / 2))

low_bits_seven : (a : ℕ) → bit_and a 127 ≡ a % 128
low_bits_seven a = omega (arith, bit_and-halve a 127, low_bits_six (a / 2))

-- `a & 0xFF`
pub bit_and-byte : (a : ℕ) → bit_and a 0xFF ≡ a % 256
bit_and-byte a = omega (arith, bit_and-halve a 255, low_bits_seven (a / 2))
