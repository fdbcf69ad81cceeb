-- ===== src/Client/Moves.antt =====
-- The invariant of an application through `mm_realloc` and writes.
use malloc_jt.Base.{
  ℕ, ◌+◌, ◌<◌, ◌≡◌, ◌≢◌, ◌⊎◌, inl, inr, refl, sym, ap, subst, ◌∙◌, arith, true, false, List, ◌∷◌,
  ltb, ◌==◌, Bool-cases, ltb→lt,
}
use malloc_jt.Machine.{State, exited}
use malloc_jt.Machine.Words.{Same}
use malloc_jt.Heap.{first_block}
use malloc_jt.Heap.Payload.{Used-moved, IsHeap-payload, Used-disjoint}
use malloc_jt.Mm.{mm_malloc, mm_realloc}
use malloc_jt.Mm.Malloc.{Refused}
use malloc_jt.Mm.Realloc.{Moved}
use malloc_jt.Client.{Lease, Listed, give_back, store_in, store, carried, poke}
use malloc_jt.Client.Leases.{Listed-give_back, still-Listed, Listed-store, stored-Listed}
use malloc_jt.Client.Keeps.{Backed, Keeps, Keeps-cons, Leads}

module _ {s : State} {ls : List Lease} (k : Keeps s ls) where
  -- The contents that a block has after `mm_realloc`.
  carried-stored :
      (e : Lease) (size : ℕ) (b : Backed s k.bs e)
      → (m : Moved s k.bs e.ptr b.extent size (mm_realloc e.ptr size s)) → (i : ℕ) → i < size
      → m.state.bytes (m.block + i) ≡ (carried e m.block size m.state).contents i
  carried-stored e size b m i h = elim (Bool-cases (ltb i e.size)) [
    | inl y ↦
        let small : i < e.size = ltb→lt i e.size y in
        rw y (m.contents i h (omega (arith, small, b.large)) ∙ b.stored i small)
    | inr y ↦ rw y refl
  ]

  pub realloc-Keeps :
      (e : Lease) (size : ℕ)
      → Listed e ls
      → (b : Backed s k.bs e)
      → Moved s k.bs e.ptr b.extent size (mm_realloc e.ptr size s)
        ⊎ (Refused s k.bs size (mm_malloc size s) × (mm_realloc e.ptr size s ≡ exited))
      → Leads (λ p t. Keeps t (carried e p size t ∷ give_back e.ptr ls)) (mm_realloc e.ptr size s)
  realloc-Keeps e size l b (inr r) = rw r.1 tt
  realloc-Keeps e size l b (inl m) =
      let moved = λ (c n : ℕ). Used-moved s m.state m.after c n m.same_arena.0 in
      let new = (moved m.block m.extent).0 ((m.used m.block m.extent).1 (inr (refl, refl))) in
      let fresh : Backed m.state m.after (carried e m.block size m.state) = record {
        extent = m.extent;
        used = new;
        large = m.large;
        stored = carried-stored e size b m;
      } in
      rw m.returns (
        Keeps-cons m.state m.after _ (give_back e.ptr ls) m.heap fresh
          (λ d n.
            let r = Listed-give_back d e.ptr ls n in
            let o = k.backed d r.0 in
            let apart = m.apart d.ptr o.extent o.used in
            (
              record {
                extent = o.extent;
                used = (moved d.ptr o.extent).0 ((m.used d.ptr o.extent).1 (inl (o.used, r.1)));
                large = o.large;
                stored = λ i h.
                    m.kept d.ptr o.extent (d.ptr + i) o.used r.1 (omega arith)
                      (omega (arith, o.large))
                    ∙ o.stored i h;
              },
              λ q. omega (arith, q, apart, o.large, m.large),
            ))
          (λ c n u. elim ((m.used c n).0 ((moved c n).1 u)) [
            | inl v ↦
                let r = k.no_leak c n v.0 in
                inr (r.0, still-Listed r.0 e.ptr ls r.1 (λ q. v.1 (sym r.2 ∙ q)), r.2)
            | inr q ↦ inl (sym q.0)
          ])
          (λ d g a c.
            k.unique d g (Listed-give_back d e.ptr ls a).0 (Listed-give_back g e.ptr ls c).0))

  -- The byte that was written, and no other one of a lease.
  poke-stored :
      (e d : Lease) (i v j : ℕ)
      → Listed e ls
      → Listed d ls
      → i < e.size
      → j < d.size
      → (poke s (e.ptr + i) v).bytes (d.ptr + j) ≡ (store_in e.ptr i v d).contents j
  poke-stored e d i v j l m h g = elim (Bool-cases (d.ptr == e.ptr)) [
    | inl y ↦
        let q : d.ptr ≡ e.ptr = ground arith in
        elim (Bool-cases (j == i)) [
          | inl z ↦
              let r : j ≡ i = ground arith in
              let here : (d.ptr + j == e.ptr + i) ≡ true = ground (arith, q, r) in
              rw (y, z, here) refl
          | inr z ↦
              let here : (d.ptr + j == e.ptr + i) ≡ false = ground (arith, q) in
              rw (y, z, here) ((k.backed d m).stored j g)
        ]
    | inr y ↦
        let a = k.backed e l in
        let b = k.backed d m in
        let ne : d.ptr ≢ e.ptr = ground arith in
        let here : (d.ptr + j == e.ptr + i) ≡ false =
          elim (Used-disjoint (first_block s) k.bs e.ptr a.extent d.ptr b.extent a.used b.used) [
            | inl q ↦ absurd (ne (sym q.0))
            | inr q ↦ ground (arith, q, a.large, b.large)
          ] in
        rw (y, here) (b.stored j g)
  ]

  pub write-Keeps :
      (e : Lease) (i v : ℕ)
      → Listed e ls
      → i < e.size
      → Keeps (poke s (e.ptr + i) v) (store e.ptr i v ls)
  write-Keeps e i v l h =
      let a = k.backed e l in
      let elsewhere : Same (e.ptr + i) (e.ptr + i + 1) s.bytes (poke s (e.ptr + i) v).bytes =
        record { outside = λ x o. ground arith } in
      record {
        bs = k.bs;
        heap =
            IsHeap-payload k.bs e.ptr a.extent k.heap a.used elsewhere
              (record { low = omega arith; high = omega (arith, a.large) });
        backed = λ f m.
            let r = Listed-store f e.ptr i v ls m in
            let b = k.backed r.0 r.1 in
            subst (Backed (poke s (e.ptr + i) v) k.bs) (sym r.2) (record {
              extent = b.extent;
              used = b.used;
              large = b.large;
              stored = λ j g. poke-stored e r.0 i v j l r.1 h g;
            });
        no_leak = λ c n u.
            let r = k.no_leak c n u in
            (store_in e.ptr i v r.0, stored-Listed r.0 e.ptr i v ls r.1, r.2);
        unique = λ f g m n q.
            let x = Listed-store f e.ptr i v ls m in
            let y = Listed-store g e.ptr i v ls n in
            let same =
              k.unique x.0 y.0 x.1 y.1
                (sym (ap (λ (z : Lease). z.ptr) x.2) ∙ q ∙ ap (λ (z : Lease). z.ptr) y.2) in
            x.2 ∙ ap (store_in e.ptr i v) same ∙ sym y.2;
      }
