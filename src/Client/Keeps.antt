-- ===== src/Client/Keeps.antt =====
-- The invariant of an application of mm.c, and `mm_malloc` and `mm_free`.
use malloc_jt.Base.{
  ℕ, ◌+◌, ◌≤◌, ◌<◌, ◌≡◌, ◌≢◌, ◌⊎◌, inl, inr, refl, sym, ap, subst, ◌∙◌, arith, List, ◌∷◌,
}
use malloc_jt.Machine.{State, Outcome, ok, fault, exited, out_of_fuel}
use malloc_jt.Heap.{Block, first_block, IsHeap}
use malloc_jt.Heap.Widened.{Used}
use malloc_jt.Heap.Payload.{Used-moved, not_null}
use malloc_jt.Mm.{mm_malloc, mm_free}
use malloc_jt.Mm.Malloc.{Granted, Refused}
use malloc_jt.Mm.Free.{Freed}
use malloc_jt.Client.{Lease, memory_at, Listed, give_back, leased}
use malloc_jt.Client.Leases.{Listed-give_back, still-Listed}

-- An allocated block of `extent` bytes stands behind a lease, and holds what was stored.
pub record Backed (s : State) (bs : List Block) (e : Lease) : Type 0 where
  pub extent : ℕ
  pub used : Used (first_block s) bs e.ptr extent
  pub large : e.size + 8 ≤ extent
  pub stored : (i : ℕ) → i < e.size → s.bytes (e.ptr + i) ≡ e.contents i

-- The heap is well-formed, its allocated blocks are those of the leases, and no two leases share one.
pub record Keeps (s : State) (ls : List Lease) : Type 0 where
  pub bs : List Block
  pub heap : IsHeap s bs
  pub backed : (e : Lease) → Listed e ls → Backed s bs e
  pub no_leak : (c k : ℕ) → Used (first_block s) bs c k → (e : Lease) × Listed e ls × (e.ptr ≡ c)
  pub unique : (e f : Lease) → Listed e ls → Listed f ls → e.ptr ≡ f.ptr → e ≡ f

-- A lease on a block of its own, besides the others.
pub Keeps-cons :
    (t : State) (after : List Block) (new : Lease) (ls : List Lease)
    → IsHeap t after
    → Backed t after new
    → ((e : Lease) → Listed e ls → Backed t after e × (e.ptr ≢ new.ptr))
    → ((c k : ℕ)
        → Used (first_block t) after c k
        → (new.ptr ≡ c) ⊎ ((e : Lease) × Listed e ls × (e.ptr ≡ c)))
    → ((e f : Lease) → Listed e ls → Listed f ls → e.ptr ≡ f.ptr → e ≡ f)
    → Keeps t (new ∷ ls)
Keeps-cons t after new ls heap fresh others no_leak unique = record {
  bs = after;
  heap = heap;
  backed = λ e l. elim l [ inl q ↦ subst (Backed t after) (sym q) fresh | inr l ↦ (others e l).0 ];
  no_leak =
      λ c k u. elim (no_leak c k u) [ inl q ↦ (new, inl refl, q) | inr r ↦ (r.0, inr r.1, r.2) ];
  unique = single;
}
  where
    single : (e f : Lease) → Listed e (new ∷ ls) → Listed f (new ∷ ls) → e.ptr ≡ f.ptr → e ≡ f
    single e f (inl a) (inl b) q = a ∙ sym b
    single e f (inl a) (inr b) q = absurd ((others f b).1 (sym q ∙ ap (λ (z : Lease). z.ptr) a))
    single e f (inr a) (inl b) q = absurd ((others e a).1 (q ∙ ap (λ (z : Lease). z.ptr) b))
    single e f (inr a) (inr b) q = unique e f a b q

-- Whatever the command returns has the property; other outcomes are not steps.
abbrev pub Leads : {A : Type 0} → (A → State → Type 0) → Outcome A → Type 0
Leads P (ok a s) = P a s
Leads P fault = Unit {0}
Leads P exited = Unit {0}
Leads P out_of_fuel = Unit {0}

module _ {s : State} {ls : List Lease} (k : Keeps s ls) where
  pub malloc-Keeps :
      (size : ℕ)
      → Granted s k.bs size (mm_malloc size s) ⊎ Refused s k.bs size (mm_malloc size s)
      → Leads (λ p t. Keeps t (leased p size t ls)) (mm_malloc size s)
  malloc-Keeps size (inr r) = rw r.returns k
  malloc-Keeps size (inl g) =
      let moved = λ (c n : ℕ). Used-moved s g.state g.after c n g.same_arena.0 in
      let new = (moved g.block g.extent).0 ((g.used g.block g.extent).1 (inr (refl, refl))) in
      let y = not_null g.state g.after g.block g.extent g.heap new in
      let new_backed : Backed g.state g.after
          (record { ptr = g.block; size = size; contents = memory_at g.state g.block }) =
        record { extent = g.extent; used = new; large = g.large; stored = λ i h. refl } in
      rw (g.returns, y)
        (Keeps-cons g.state g.after _ ls g.heap new_backed
          (λ e l.
            let b = k.backed e l in
            let apart = g.apart e.ptr b.extent b.used in
            (
              record {
                extent = b.extent;
                used = (moved e.ptr b.extent).0 ((g.used e.ptr b.extent).1 (inl b.used));
                large = b.large;
                stored = λ i h.
                    g.kept.payload e.ptr b.extent (e.ptr + i) b.used (omega arith)
                      (omega (arith, b.large))
                    ∙ b.stored i h;
              },
              λ q. omega (arith, q, apart, b.large, g.large),
            ))
          (λ c n u. elim ((g.used c n).0 ((moved c n).1 u)) [
            | inl u ↦ inr (k.no_leak c n u)
            | inr q ↦ inl (sym q.0)
          ])
          k.unique)

  pub free-Keeps :
      (e : Lease)
      → Listed e ls
      → Freed s k.bs e.ptr (mm_free e.ptr s)
      → Leads (λ u t. Keeps t (give_back e.ptr ls)) (mm_free e.ptr s)
  free-Keeps e l f = rw f.returns (record {
    bs = f.after;
    heap = f.heap;
    backed = λ d m.
        let r = Listed-give_back d e.ptr ls m in
        let b = k.backed d r.0 in
        let used = (f.used d.ptr b.extent).1 (b.used, r.1) in
        record {
          extent = b.extent;
          used = used;
          large = b.large;
          stored = λ i h.
              f.kept.payload d.ptr b.extent (d.ptr + i) used (omega arith) (omega (arith, b.large))
              ∙ b.stored i h;
        };
    no_leak = λ c n u.
        let v = (f.used c n).0 u in
        let r = k.no_leak c n v.0 in
        (r.0, still-Listed r.0 e.ptr ls r.1 (λ q. v.1 (sym r.2 ∙ q)), r.2);
    unique =
        λ d g a b. k.unique d g (Listed-give_back d e.ptr ls a).0 (Listed-give_back g e.ptr ls b).0;
  })
