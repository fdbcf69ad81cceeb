-- ===== src/Client/Runs.antt =====
-- What holds of every state that an application of mm.c can reach.
use malloc_jt.Base.{
  ℕ, ◌+◌, ◌-◌, ◌%◌, ◌^◌, ◌≤◌, ◌<◌, ◌≡◌, ◌⊎◌, inl, inr, subst, arith, false, List, [], ◌∷◌,
}
use malloc_jt.Machine.{Ptr, null, State, ok, exited}
use malloc_jt.Heap.{first_block}
use malloc_jt.Heap.Payload.{Used-moved, Usable, Used-disjoint, Used-Usable}
use malloc_jt.Mm.{mm_malloc, mm_free, mm_realloc, mm_init}
use malloc_jt.Mm.Init.{IsReset, Booted, mm_init-Booted}
use malloc_jt.Mm.Malloc.{mm_malloc-Granted}
use malloc_jt.Mm.Free.{mm_free-Freed}
use malloc_jt.Mm.Realloc.{mm_realloc-Moved}
use malloc_jt.Client.{
  Lease, Listed, give_back, leased, carried, Step, mallocs, frees, reallocs, writes, Reach, starts,
  then_steps,
}
use malloc_jt.Client.Keeps.{Keeps, Leads, malloc-Keeps, free-Keeps}
use malloc_jt.Client.Moves.{realloc-Keeps, write-Keeps}
use malloc_jt.Checker.{mm_checkheap}
use malloc_jt.Checker.Clean.{mm_checkheap-clean, clean_report}

Step-Keeps : {s t : State} {ls ms : List Lease} → Step s ls t ms → Keeps s ls → Keeps t ms
Step-Keeps {s} {t} {ls} (mallocs size p _ pos fine e) k =
    subst (Leads (λ p t. Keeps t (leased p size t ls))) e
      (malloc-Keeps k size (mm_malloc-Granted s k.bs size k.heap pos fine))
Step-Keeps {s} {t} {ls} (frees e _ l r) k =
    subst (Leads (λ u t. Keeps t (give_back e.ptr ls))) r (
      free-Keeps k e l
        (mm_free-Freed s k.bs e.ptr (k.backed e l).extent k.heap (k.backed e l).used))
Step-Keeps {s} {t} {ls} (reallocs e size p _ l pos fine r) k =
    let b = k.backed e l in
    subst (Leads (λ p t. Keeps t (carried e p size t ∷ give_back e.ptr ls))) r (
      realloc-Keeps k e size l b
        (mm_realloc-Moved s k.bs e.ptr b.extent size k.heap b.used pos fine))
Step-Keeps (writes e i v l h) k = write-Keeps k e i v l h

-- A heap just set up has nothing allocated.
start-Keeps : (r : State) → Booted r (mm_init r) → Leads (λ b s. Keeps s []) (mm_init r)
start-Keeps r b = rw b.returns (record {
  bs = b.bs;
  heap = b.heap;
  backed = λ e l. absurd l;
  no_leak = λ c k u. absurd (b.none_used c k ((Used-moved r b.state b.bs c k b.same_arena.0).1 u));
  unique = λ e f l. absurd l;
})

-- Whatever an application does, that calls `mm_init` on a reset arena with room for 4112 bytes and then
-- `mm_malloc`, `mm_realloc` and `mm_free` on payloads it holds, with sizes of 1 to 2^31 - 16 bytes, and writes
-- only to these payloads: the heap is well-formed, the allocated blocks are those of its payloads, one
-- for each, and every payload holds what was stored there last, also after `mm_realloc`.
pub Reach-Keeps :
    {r s : State} {ls : List Lease}
    → IsReset r
    → r.mem_start_brk + 4112 ≤ r.mem_max_addr
    → Reach r s ls
    → Keeps s ls
Reach-Keeps {r} reset room (starts s e) =
    subst (Leads (λ b s. Keeps s [])) e (start-Keeps r (mm_init-Booted r reset room))
Reach-Keeps reset room (then_steps p st) = Step-Keeps st (Reach-Keeps reset room p)

-- What an application may count on, with the payloads `ls`: they are aligned to 8 bytes, lie in the heap and
-- have no byte in common; `mm_malloc` and `mm_free` return, and so does `mm_realloc` unless
-- `mm_malloc` refuses; and `mm_checkheap` finds no error.
pub record Serves (s : State) (ls : List Lease) : Type 0 where
  pub aligned : (e : Lease) → Listed e ls → e.ptr % 8 ≡ 0
  pub inside : (e : Lease) → Listed e ls → (s.mem_start_brk ≤ e.ptr) × (e.ptr + e.size ≤ s.mem_brk)
  pub apart :
      (e f : Lease)
      → Listed e ls
      → Listed f ls
      → (e ≡ f) ⊎ ((e.ptr + e.size ≤ f.ptr) ⊎ (f.ptr + f.size ≤ e.ptr))
  pub mallocs_return :
      (size : ℕ)
      → 0 < size
      → size ≤ 2 ^ 31 - 16
      → (p : Ptr) × (t : State) × (mm_malloc size s ≡ ok p t)
  pub frees_return : (e : Lease) → Listed e ls → (t : State) × (mm_free e.ptr s ≡ ok tt t)
  pub reallocs_return :
      (e : Lease) (size : ℕ)
      → Listed e ls
      → 0 < size
      → size ≤ 2 ^ 31 - 16
      → ((p : Ptr) × (t : State) × (mm_realloc e.ptr size s ≡ ok p t))
        ⊎ ((mm_malloc size s ≡ ok null s) × (mm_realloc e.ptr size s ≡ exited))
  pub no_errors : mm_checkheap false s ≡ ok [] s

Keeps-Serves : (s : State) (ls : List Lease) → Keeps s ls → Serves s ls
unfolding clean_report
Keeps-Serves s ls k = record {
  aligned = λ e l. (usable e l).aligned;
  inside = λ e l.
      let b = k.backed e l in
      (omega (arith, (usable e l).low), omega (arith, (usable e l).high, b.large));
  apart = λ e f l m.
      let a = k.backed e l in
      let b = k.backed f m in
      elim (Used-disjoint (first_block s) k.bs e.ptr a.extent f.ptr b.extent a.used b.used) [
        | inl q ↦ inl (k.unique e f l m q.0)
        | inr (inl h) ↦ inr (inl (omega (arith, a.large)))
        | inr (inr h) ↦ inr (inr (omega (arith, b.large)))
      ];
  mallocs_return = λ size pos fine. elim (mm_malloc-Granted s k.bs size k.heap pos fine) [
    | inl g ↦ (g.block, g.state, g.returns)
    | inr r ↦ (null, s, r.returns)
  ];
  frees_return = λ e l.
      let f = mm_free-Freed s k.bs e.ptr (k.backed e l).extent k.heap (k.backed e l).used in
      (_, f.returns);
  reallocs_return = λ e size l pos fine.
      let b = k.backed e l in
      elim (mm_realloc-Moved s k.bs e.ptr b.extent size k.heap b.used pos fine) [
        | inl m ↦ inl (m.block, m.state, m.returns)
        | inr r ↦ inr (r.0.returns, r.1)
      ];
  no_errors = mm_checkheap-clean s k.bs false k.heap;
}
  where
    usable : (e : Lease) (l : Listed e ls) → Usable s e.ptr (k.backed e l).extent
    usable e l = Used-Usable s k.bs e.ptr (k.backed e l).extent k.heap (k.backed e l).used

-- In every state that an application reaches in this way its payloads are aligned, in the heap and apart; the
-- next `mm_malloc` or `mm_free` returns, and the next `mm_realloc` returns or ends the program where
-- `mm_malloc` returns NULL; and `mm_checkheap` reports nothing.
pub Reach-Serves :
    {r s : State} {ls : List Lease}
    → IsReset r
    → r.mem_start_brk + 4112 ≤ r.mem_max_addr
    → Reach r s ls
    → Serves s ls
Reach-Serves {r} {s} {ls} reset room p = Keeps-Serves s ls (Reach-Keeps reset room p)
