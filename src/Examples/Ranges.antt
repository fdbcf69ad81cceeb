-- ===== src/Examples/Ranges.antt =====
-- The theorems on the driver at concrete inputs, with a C library whose `malloc` never fails.
use malloc_jt.Base.{ℕ, zero, suc, ◌+◌, ◌%◌, ◌<◌, ◌≡◌, ◌⊎◌, refl, inr, arith, true, false, [], ◌∷◌}
use malloc_jt.Machine.{null, write_word, ok}
use malloc_jt.Driver.{Libc, Complaint, World, done, ◌>>◌}
use malloc_jt.Driver.Contents.{preserved}
use malloc_jt.Driver.Contents.Preserved.{Filled, preserved-Filled, preserved-signed}
use malloc_jt.Driver.Ranges.{add_range, remove_range}
use malloc_jt.Driver.Ranges.Accept.{
  Clear, AllClear, AllInside, Acceptable, InBounds, with_range, with_complaint,
  add_range-Acceptable, add_range-AllInside, remove_range-add_range,
}
use malloc_jt.Examples.Arena.{small}

-- The next address, which only grows.
abbrev pub bump : Libc ℕ
bump = record {
  malloc = λ n m. (suc m, m + n + 1);
  realloc = λ p n m. (suc m, m + n + 1);
  free = λ p m. m;
}

-- The range of two bytes at 4120 is recorded.
abbrev world : World ℕ
world = record {
  heap = small;
  libc = 100;
  ranges = record { node = 90; lo = 4120; hi = 4121 } ∷ [];
  blocks = 4120 ∷ [];
  block_sizes = 2 ∷ [];
  errors = 0;
  reports = [];
}

bounds : InBounds small 4112 32
bounds = record {
  positive = omega arith;
  int = omega arith;
  address = omega arith;
  brk = omega arith;
  some_heap = omega arith;
}

node : ¬ (101 ≡ null)
node e = omega (arith, e)

add_range-Acceptable_example :
    (Acceptable small world.ranges 4112 32
      × (add_range bump 4112 32 0 1 world ≡ done true (with_range bump 4112 32 world)))
    ⊎ (¬ (Acceptable small world.ranges 4112 32)
        × ((e : Complaint) × (add_range bump 4112 32 0 1 world
              ≡ done false (with_complaint 0 1 e world))))
add_range-Acceptable_example = add_range-Acceptable bump world 4112 32 0 1 bounds node

inside : AllInside 4112 4143 world.ranges
unfolding AllInside
inside = ((omega arith, omega arith), tt)

add_range-AllInside_example :
    add_range bump 4112 32 0 1 world ≡ done true (with_range bump 4112 32 world)
add_range-AllInside_example =
    add_range-AllInside bump world 4112 32 0 1 bounds node refl (omega arith) (omega arith) inside

clear : AllClear 4112 4143 world.ranges
unfolding AllClear Clear
clear = (inr (inr (omega arith, omega arith)), tt)

acceptable : Acceptable small world.ranges 4112 32
acceptable = record { aligned = refl; low = omega arith; high = omega arith; clear = clear }

remove_range-add_range_example :
    (add_range bump 4112 32 0 1 >> remove_range bump 4112) world
    ≡ done tt (record world { libc = 125 })
remove_range-add_range_example =
    remove_range-add_range bump world 4112 32 0 1 bounds node acceptable

blank : Filled small 2 256 4112
unfolding write_word
blank = record { bytes = λ i h. empty i h }
  where
    empty : (i : ℕ) → i < 2 → small.bytes (4112 + i) % 256 ≡ 256 % 256
    empty zero h = refl
    empty (suc zero) h = refl
    empty (suc (suc i)) h = absurd (omega arith)

preserved-Filled_example : preserved 2 256 4112 small ≡ ok true small
preserved-Filled_example =
    preserved-Filled small 2 256 4112 (omega arith) (omega arith) (omega arith) blank

preserved-signed_example : preserved 2 200 4112 small ≡ ok false small
preserved-signed_example =
    preserved-signed small 1 200 4112 (omega arith) (omega arith) (omega arith)
