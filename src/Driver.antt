-- ===== src/Driver.antt =====
-- The types of mdriver.c, its error routines and the state they work on. The functions of the C
-- library, which the driver calls, are the record `Libc`. An `int` is its bit pattern below 2^32.
pub mod Arrays
pub mod Live
pub mod Ranges
pub mod Contents
pub mod Valid
pub mod Util
pub mod Standard
pub mod ReadTrace
use malloc_jt.Base.{
  ℕ, zero, suc, ◌+◌, ◌-◌, Bool, Option, none, some, List, [], ◌∷◌, u32, u64, is_neg, if◌then◌else◌,
}
use malloc_jt.Machine.{Ptr, State, Outcome, ok, fault, exited, out_of_fuel, Cmd}

-- `malloc`, `realloc` and `free` of the C library, over a memory of their own.
pub record Libc (M : Type 0) : Type 0 where
  pub malloc : ℕ → M → Ptr × M
  pub realloc : Ptr → ℕ → M → Ptr × M
  pub free : Ptr → M → M

-- `range_t`, a node of the list at the address `node`.
pub record Range : Type 0 where
  pub node : Ptr
  pub lo : Ptr
  pub hi : Ptr

pub data RequestType : Type 0 where
  alloc : RequestType
  free : RequestType
  realloc : RequestType

pub record TraceOp : Type 0 where
  pub type : RequestType
  pub index : ℕ
  pub size : ℕ

-- `trace_t`, less its two unused fields. The arrays `blocks` and `block_sizes` are in `World`.
pub record Trace : Type 0 where
  pub num_ids : ℕ
  pub ops : List TraceOp

-- What `malloc_error` prints after the numbers of the trace and of the request.
pub data Complaint : Type 0 where
  not_aligned : Ptr → Complaint
  outside_heap : (lo : Ptr) → (hi : Ptr) → Complaint
  overlap : (lo : Ptr) → (hi : Ptr) → Range → Complaint
  init_failed : Complaint
  malloc_failed : Complaint
  realloc_failed : Complaint
  not_preserved : Complaint

pub record Report : Type 0 where
  pub tracenum : ℕ
  pub opnum : ℕ
  pub complaint : Complaint

-- The student's heap, the C library's memory, the range list, the arrays of the trace, and the
-- errors so far, the last one first.
pub record World (M : Type 0) : Type 0 where
  pub heap : State
  pub libc : M
  pub ranges : List Range
  pub blocks : List Ptr
  pub block_sizes : List ℕ
  pub errors : ℕ
  pub reports : List Report

-- How a function of the driver ends: it returns; it leaves the memory it may use; `exit(1)`, with the
-- errors reported up to then, the last one first; a failed `assert`; or a loop of the model runs out of rounds.
pub data Result (M : Type 0) (A : Type 0) : Type 0 where
  done : A → World M → Result M A
  crashed : Result M A
  stopped : List Report → Result M A
  aborted : Result M A
  endless : Result M A

abbrev pub Run : Type 0 → Type 0 → Type 0
Run M A = World M → Result M A

abbrev pub give : {M A : Type 0} → A → Run M A
give a = λ w. done a w

module _ {M A B : Type 0} where
  abbrev pub then_run : Result M A → (A → Run M B) → Result M B
  then_run (done a w) k = k a w
  then_run crashed k = crashed
  then_run (stopped reports) k = stopped reports
  then_run aborted k = aborted
  then_run endless k = endless

  infixl 5 ◌>>=◌ ◌>>◌
  abbrev pub ◌>>=◌ : Run M A → (A → Run M B) → Run M B
  m >>= k = λ w. then_run (m w) k

  abbrev pub ◌>>◌ : Run M A → Run M B → Run M B
  m >> k = m >>= λ _. k

module _ {M A : Type 0} where
  abbrev pub from_student : World M → Outcome A → Result M A
  from_student w (ok a s) = done a (record w { heap = s })
  from_student w fault = crashed
  from_student w exited = stopped w.reports
  from_student w out_of_fuel = endless

  -- A call of a function of mm.c or memlib.c.
  abbrev pub student : Cmd A → Run M A
  student c = λ w. from_student w (c w.heap)

  -- An access to an array: outside it, the behaviour is undefined.
  abbrev pub present : Option A → Run M A
  present none = λ w. crashed
  present (some a) = give a

module _ {A : Type 0} where
  abbrev pub get_elem? : List A → ℕ → Option A
  get_elem? [] i = none
  get_elem? (x ∷ xs) zero = some x
  get_elem? (x ∷ xs) (suc i) = get_elem? xs i

  abbrev pub set_elem? : List A → ℕ → A → Option (List A)
  set_elem? [] i a = none
  set_elem? (x ∷ xs) zero a = some (a ∷ xs)
  set_elem? (x ∷ xs) (suc i) a = elim (set_elem? xs i a) [ none ↦ none | some ys ↦ some (x ∷ ys) ]

-- An `int` as a `size_t`.
unfoldable pub to_size_t : ℕ → ℕ
to_size_t n = if is_neg n then n + (u64 - u32) else n

module _ {M : Type 0} where
  abbrev pub get_block : ℕ → Run M Ptr
  get_block index = λ w. present (get_elem? w.blocks index) w

  abbrev pub get_block_size : ℕ → Run M ℕ
  get_block_size index = λ w. present (get_elem? w.block_sizes index) w

  abbrev pub set_block : ℕ → Ptr → Run M (Unit {0})
  set_block index p = λ w. elim (set_elem? w.blocks index p) [
    | none ↦ crashed
    | some l ↦ done tt (record w { blocks = l })
  ]

  -- `trace->block_sizes[index] = size`
  abbrev pub set_block_size : ℕ → ℕ → Run M (Unit {0})
  set_block_size index size = λ w. elim (set_elem? w.block_sizes index (to_size_t size)) [
    | none ↦ crashed
    | some l ↦ done tt (record w { block_sizes = l })
  ]

  unfoldable pub malloc_error : ℕ → ℕ → Complaint → Run M (Unit {0})
  malloc_error tracenum opnum c w = done tt (record w {
    errors = suc w.errors;
    reports = record { tracenum = tracenum; opnum = opnum; complaint = c } ∷ w.reports;
  })

  -- `app_error` and `unix_error` print their message and end the program.
  abbrev pub app_error : {A : Type 0} → Run M A
  app_error = λ w. stopped w.reports

  abbrev pub unix_error : {A : Type 0} → Run M A
  unix_error = λ w. stopped w.reports

-- `malloc` and the others as commands.
module _ {M : Type 0} (c : Libc M) where
  abbrev pub libc_malloc : ℕ → Run M Ptr
  libc_malloc n = λ w. (let r = c.malloc n w.libc in done r.0 (record w { libc = r.1 }))

  abbrev pub libc_realloc : Ptr → ℕ → Run M Ptr
  libc_realloc p n = λ w. (let r = c.realloc p n w.libc in done r.0 (record w { libc = r.1 }))

  abbrev pub libc_free : Ptr → Run M (Unit {0})
  libc_free p = λ w. done tt (record w { libc = c.free p w.libc })
