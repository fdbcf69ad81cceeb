-- ===== src/Machine.antt =====
-- The machine under mm.c and memlib.c: bytes at addresses, the file-scope variables of the two
-- files, and commands that read and write them.
pub mod Words
use malloc_jt.Base.{ℕ, ◌+◌, ◌-◌, ◌*◌, ◌/◌, ◌%◌, Bool, ◌&&◌, leb, ◌==◌, if◌then◌else◌, u64}

abbrev pub Ptr : Type 0
Ptr = ℕ

abbrev pub null : Ptr
null = 0

-- `(void *)-1`
abbrev pub minus_one : Ptr
minus_one = u64 - 1

-- Pointer arithmetic over `char *`, on 64 bits.
abbrev pub padd : Ptr → ℕ → Ptr
padd p n = (p + n) % u64

abbrev pub psub : Ptr → ℕ → Ptr
psub p n = (p + u64 - n) % u64

-- A byte is a number modulo 256.
abbrev pub Bytes : Type 0
Bytes = ℕ → ℕ

-- `*(uint32_t *)p`, low byte first.
unfoldable pub word : Bytes → Ptr → ℕ
word m p =
    m p % 256 + 256 * (m (p + 1) % 256) + 65536 * (m (p + 2) % 256) + 16777216 * (m (p + 3) % 256)

-- The bytes after `*(uint32_t *)p = v`.
unfoldable pub write_word : Bytes → Ptr → ℕ → Bytes
write_word m p v x =
    if x == p
    then v % 256
    else if x == p + 1
    then v / 256 % 256
    else if x == p + 2
    then v / 65536 % 256
    else if x == p + 3
    then v / 16777216 % 256
    else m x

-- `heap_listp` and `temp` of mm.c; `mem_start_brk`, `mem_brk` and `mem_max_addr` of memlib.c.
pub record State : Type 0 where
  pub bytes : Bytes
  pub heap_listp : Ptr
  pub temp : Ptr
  pub mem_start_brk : Ptr
  pub mem_brk : Ptr
  pub mem_max_addr : Ptr

-- How a call ends: it returns; it reads or writes outside the arena that memlib.c owns; it calls
-- `exit(1)`; or the rounds that the model gives its loops run out.
pub data Outcome (A : Type 0) : Type 0 where
  ok : A → State → Outcome A
  fault : Outcome A
  exited : Outcome A
  out_of_fuel : Outcome A

abbrev pub Cmd : Type 0 → Type 0
Cmd A = State → Outcome A

abbrev pub pure : {A : Type 0} → A → Cmd A
pure a = λ s. ok a s

module _ {A B : Type 0} where
  abbrev pub and_then : Outcome A → (A → Cmd B) → Outcome B
  and_then (ok a s) k = k a s
  and_then fault k = fault
  and_then exited k = exited
  and_then out_of_fuel k = out_of_fuel

  infixl 5 ◌>>=◌ ◌>>◌
  abbrev pub ◌>>=◌ : Cmd A → (A → Cmd B) → Cmd B
  m >>= k = λ s. and_then (m s) k

  abbrev pub ◌>>◌ : Cmd A → Cmd B → Cmd B
  m >> k = m >>= λ _. k

-- The arena is the block of MAX_HEAP bytes that `mem_init` gets from `malloc`.
abbrev pub in_arena : State → Ptr → ℕ → Bool
in_arena s p n = leb s.mem_start_brk p && leb (p + n) s.mem_max_addr

abbrev pub with_bytes : State → Bytes → State
with_bytes s m = record s { bytes = m }

abbrev pub get_heap_listp : Cmd Ptr
get_heap_listp = λ s. ok s.heap_listp s

abbrev pub set_heap_listp : Ptr → Cmd (Unit {0})
set_heap_listp p = λ s. ok tt (record s { heap_listp = p })

abbrev pub get_temp : Cmd Ptr
get_temp = λ s. ok s.temp s

abbrev pub set_temp : Ptr → Cmd (Unit {0})
set_temp p = λ s. ok tt (record s { temp = p })
