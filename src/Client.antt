-- ===== src/Client.antt =====
-- An application of mm.c: it calls `mm_init` once, then `mm_malloc`, `mm_free` and `mm_realloc`, and writes
-- bytes to what it was given. A `Lease` is a payload that it holds, with what it has stored there.
pub mod Keeps
pub mod Leases
pub mod Moves
pub mod Runs
use malloc_jt.Base.{
  ℕ, ◌+◌, ◌-◌, ◌≤◌, ◌<◌, ◌≡◌, ◌⊎◌, ◌^◌, Bool, true, ◌&&◌, List, [], ◌∷◌, ltb, ◌==◌, if◌then◌else◌,
}
use malloc_jt.Machine.{Ptr, null, State, Outcome, ok, with_bytes}
use malloc_jt.Mm.{mm_malloc, mm_free, mm_realloc, mm_init}
use malloc_jt.Mm.Init.{IsReset}

pub record Lease : Type 0 where
  pub ptr : Ptr
  pub size : ℕ
  pub contents : ℕ → ℕ

-- What the memory of a state holds from `p` on.
abbrev pub memory_at : State → Ptr → ℕ → ℕ
memory_at s p i = s.bytes (p + i)

abbrev pub Listed : Lease → List Lease → Type 0
Listed e [] = ⊥
Listed e (x ∷ xs) = (e ≡ x) ⊎ Listed e xs

-- The leases without the one at `p`.
abbrev pub give_back : Ptr → List Lease → List Lease
give_back p [] = []
give_back p (x ∷ xs) = if x.ptr == p then give_back p xs else x ∷ give_back p xs

-- A byte is stored at place `i` of the lease at `p`.
abbrev pub store_in : Ptr → ℕ → ℕ → Lease → Lease
store_in p i v x = record {
  ptr = x.ptr;
  size = x.size;
  contents = λ j. if x.ptr == p && j == i then v else x.contents j;
}

abbrev pub store : Ptr → ℕ → ℕ → List Lease → List Lease
store p i v [] = []
store p i v (x ∷ xs) = store_in p i v x ∷ store p i v xs

-- The leases after `mm_malloc` has returned `p`, which may be NULL.
abbrev pub leased : Ptr → ℕ → State → List Lease → List Lease
leased p size s ls =
    if p == null then ls else record { ptr = p; size = size; contents = memory_at s p } ∷ ls

-- What `mm_realloc` leaves at `p` of the lease `e`: the old contents as far as both reach.
abbrev pub carried : Lease → Ptr → ℕ → State → Lease
carried e p size s = record {
  ptr = p;
  size = size;
  contents = λ i. if ltb i e.size then e.contents i else memory_at s p i;
}

abbrev pub poke : State → ℕ → ℕ → State
poke s a v = with_bytes s (λ x. if x == a then v else s.bytes x)

-- One call of the application, or one write to a payload.
pub data Step (s : State) (ls : List Lease) : State → List Lease → Type 0 where
  mallocs :
      (size p : ℕ) (t : State)
      → 0 < size
      → size ≤ 2 ^ 31 - 16
      → mm_malloc size s ≡ ok p t
      → Step s ls t (leased p size t ls)
  frees :
      (e : Lease) (t : State)
      → Listed e ls
      → mm_free e.ptr s ≡ ok tt t
      → Step s ls t (give_back e.ptr ls)
  reallocs :
      (e : Lease) (size p : ℕ) (t : State)
      → Listed e ls
      → 0 < size
      → size ≤ 2 ^ 31 - 16
      → mm_realloc e.ptr size s ≡ ok p t
      → Step s ls t (carried e p size t ∷ give_back e.ptr ls)
  writes :
      (e : Lease) (i v : ℕ)
      → Listed e ls
      → i < e.size
      → Step s ls (poke s (e.ptr + i) v) (store e.ptr i v ls)

-- What the application can reach from a reset arena.
pub data Reach (r : State) : State → List Lease → Type 0 where
  starts : (s : State) → mm_init r ≡ ok true s → Reach r s []
  then_steps : {s t : State} {ls ms : List Lease} → Reach r s ls → Step s ls t ms → Reach r t ms
