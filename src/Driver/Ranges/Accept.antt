-- ===== src/Driver/Ranges/Accept.antt =====
-- What `add_range` accepts, and what its test of overlap lets through.
use malloc_jt.Base.{
  ℕ, suc, ◌+◌, ◌-◌, ◌%◌, ◌^◌, ◌≤◌, ◌<◌, ◌≡◌, ◌⊎◌, inl, inr, refl, sym, ◌∙◌, arith, true, false,
  none, List, [], ◌∷◌, ◌==◌, int_gt, u64, none≢some, true≢false, Option-cases, Bool-cases,
}
use malloc_jt.Machine.{Ptr, null, State}
use malloc_jt.Memlib.{mem_heap_lo, mem_heap_hi}
use malloc_jt.Driver.{
  Libc, Range, Complaint, not_aligned, outside_heap, overlap, World, done, ◌>>◌, to_size_t,
  malloc_error,
}
use malloc_jt.Driver.Ranges.{
  last_byte, overlaps, find_overlap, outside, record_range, add_range, unlink, remove_range,
}

-- The range `r` is not in the way of `[lo, hi]` as far as the code can see: it lies apart from it,
-- or strictly inside it.
unfoldable pub Clear : Ptr → Ptr → Range → Type 0
Clear lo hi r = (hi < r.lo) ⊎ ((r.hi < lo) ⊎ ((lo < r.lo) × (r.hi < hi)))

unfoldable pub AllClear : Ptr → Ptr → List Range → Type 0
AllClear lo hi [] = Unit {0}
AllClear lo hi (r ∷ rs) = Clear lo hi r × AllClear lo hi rs

overlaps-Clear : (lo hi : Ptr) (r : Range) → overlaps lo hi r ≡ false → Clear lo hi r
unfolding overlaps Clear
overlaps-Clear lo hi r e = ground arith

Clear-overlaps : (lo hi : Ptr) (r : Range) → lo ≤ hi → Clear lo hi r → overlaps lo hi r ≡ false
unfolding overlaps Clear
Clear-overlaps lo hi r h c = ground arith

pub find_overlap-AllClear :
    (lo hi : Ptr) (rs : List Range) → find_overlap lo hi rs ≡ none → AllClear lo hi rs
unfolding find_overlap AllClear
find_overlap-AllClear lo hi [] e = tt
find_overlap-AllClear lo hi (r ∷ rs) e = elim (Bool-cases (overlaps lo hi r)) [
  | inl y ↦ absurd (none≢some (sym (rw y at e)))
  | inr y ↦ (overlaps-Clear lo hi r y, find_overlap-AllClear lo hi rs (rw y at e))
]

pub AllClear-find_overlap :
    (lo hi : Ptr) (rs : List Range) → lo ≤ hi → AllClear lo hi rs → find_overlap lo hi rs ≡ none
unfolding find_overlap AllClear
AllClear-find_overlap lo hi [] h c = refl
AllClear-find_overlap lo hi (r ∷ rs) h c =
    rw (Clear-overlaps lo hi r h c.0, AllClear-find_overlap lo hi rs h c.1)

-- A payload that `add_range` is to accept.
pub record Acceptable (s : State) (rs : List Range) (lo size : ℕ) : Type 0 where
  pub aligned : lo % 8 ≡ 0
  pub low : s.mem_start_brk ≤ lo
  pub high : lo + size ≤ s.mem_brk
  pub clear : AllClear lo (lo + size - 1) rs

-- A request size and addresses within the bounds of their types.
pub record InBounds (s : State) (lo size : ℕ) : Type 0 where
  pub positive : 0 < size
  pub int : size < 2 ^ 31
  pub address : lo + size < u64
  pub brk : s.mem_brk < u64
  pub some_heap : 0 < s.mem_brk

last_byte_lem :
    (lo size : ℕ) → 0 < size → size < 2 ^ 31 → lo + size < u64 → last_byte lo size ≡ lo + size - 1
unfolding last_byte to_size_t
last_byte_lem lo size a b c = ground arith

outside-false :
    (s : State) (lo size : ℕ)
    → InBounds s lo size
    → s.mem_start_brk ≤ lo
    → lo + size ≤ s.mem_brk
    → outside (mem_heap_lo s) (mem_heap_hi s) lo (lo + size - 1) ≡ false
unfolding outside mem_heap_lo mem_heap_hi
outside-false s lo size b h k = ground (arith, b.positive, b.brk)

false-outside :
    (s : State) (lo size : ℕ)
    → InBounds s lo size
    → outside (mem_heap_lo s) (mem_heap_hi s) lo (lo + size - 1) ≡ false
    → (s.mem_start_brk ≤ lo) × (lo + size ≤ s.mem_brk)
unfolding outside mem_heap_lo mem_heap_hi
false-outside s lo size b e = ground (arith, b.positive, b.brk, b.some_heap)

-- The world with the new range in front, and the world with one complaint more.
abbrev pub with_range : {M : Type 0} → Libc M → Ptr → ℕ → World M → World M
with_range c lo size w =
    (let r = c.malloc 24 w.libc in
      record w {
        libc = r.1;
        ranges = record { node = r.0; lo = lo; hi = lo + size - 1 } ∷ w.ranges;
      })

abbrev pub with_complaint : {M : Type 0} → ℕ → ℕ → Complaint → World M → World M
with_complaint tracenum opnum e w = record w {
  errors = suc w.errors;
  reports = record { tracenum = tracenum; opnum = opnum; complaint = e } ∷ w.reports;
}

module _ {M : Type 0} (c : Libc M) (w : World M) (lo size tracenum opnum : ℕ)
    (b : InBounds w.heap lo size) (node : ¬ ((c.malloc 24 w.libc).0 ≡ null)) where
  is_int : int_gt size 0 ≡ true
  is_int = ground (arith, b.positive, b.int)

  node_made : ((c.malloc 24 w.libc).0 == null) ≡ false
  node_made = ground arith

  -- The checks hold.
  pub accepted :
      Acceptable w.heap w.ranges lo size
      → add_range c lo size tracenum opnum w ≡ done true (with_range c lo size w)
  unfolding add_range record_range
  accepted a =
      let al : (lo % 8 == 0) ≡ true = ground (arith, a.aligned) in
      rw (
        is_int,
        al,
        last_byte_lem lo size b.positive b.int b.address,
        outside-false w.heap lo size b a.low a.high,
        AllClear-find_overlap lo (lo + size - 1) w.ranges (omega (arith, b.positive)) a.clear,
        node_made,
        last_byte_lem lo size b.positive b.int b.address,
      )

  -- `add_range` returns 1 and puts the range in front of the list when the payload is aligned, lies
  -- in the heap, and each recorded range lies apart from it or strictly inside it; otherwise it
  -- returns 0, the list is the same, and there is one complaint more. The sizes and addresses are in
  -- the bounds of their types, and `malloc` has a node to give.
  pub add_range-Acceptable :
      (Acceptable w.heap w.ranges lo size
        × (add_range c lo size tracenum opnum w ≡ done true (with_range c lo size w)))
      ⊎ (¬ (Acceptable w.heap w.ranges lo size)
          × ((e : Complaint) × (add_range c lo size tracenum opnum w
                ≡ done false (with_complaint tracenum opnum e w))))
  unfolding add_range malloc_error
  add_range-Acceptable =
      let lb = last_byte_lem lo size b.positive b.int b.address in
      elim (Bool-cases (lo % 8 == 0)) [
        | inr y ↦ inr (λ a. absurd (ground (arith, a.aligned)), (not_aligned lo, rw (is_int, y)))
        | inl y ↦
            elim (Bool-cases
              (outside (mem_heap_lo w.heap) (mem_heap_hi w.heap) lo (lo + size - 1))) [
                | inl z ↦ inr (
                  λ a. true≢false (sym z ∙ outside-false w.heap lo size b a.low a.high),
                  (outside_heap lo (lo + size - 1), rw (is_int, y, lb, z)),
                )
                | inr z ↦ elim (Option-cases (find_overlap lo (lo + size - 1) w.ranges)) [
                  | inl f ↦
                      let i = false-outside w.heap lo size b z in
                      let a : Acceptable w.heap w.ranges lo size = record {
                        aligned = ground arith;
                        low = i.0;
                        high = i.1;
                        clear = find_overlap-AllClear lo (lo + size - 1) w.ranges f;
                      } in
                      inl (a, accepted a)
                  | inr (r, f) ↦ inr (
                    λ a. absurd (
                        none≢some (
                          sym (
                            AllClear-find_overlap lo (lo + size - 1) w.ranges
                              (omega (arith, b.positive)) a.clear)
                          ∙ f)),
                    (overlap lo (lo + size - 1) r, rw (is_int, y, lb, z, f, lb)),
                  )
                ]
              ]
      ]

-- Every range of the list lies strictly inside `[lo, hi]`.
unfoldable pub AllInside : Ptr → Ptr → List Range → Type 0
AllInside lo hi [] = Unit {0}
AllInside lo hi (r ∷ rs) = ((lo < r.lo) × (r.hi < hi)) × AllInside lo hi rs

AllInside-AllClear : (lo hi : Ptr) (rs : List Range) → AllInside lo hi rs → AllClear lo hi rs
unfolding AllInside AllClear Clear
AllInside-AllClear lo hi [] a = tt
AllInside-AllClear lo hi (r ∷ rs) a = (inr (inr a.0), AllInside-AllClear lo hi rs a.1)

-- `add_range` accepts an aligned payload in the heap although all the recorded payloads lie strictly
-- inside it. The sizes and addresses are in the bounds of their types, and `malloc` has a node to
-- give.
pub add_range-AllInside :
    {M : Type 0} (c : Libc M) (w : World M) (lo size tracenum opnum : ℕ)
    → InBounds w.heap lo size
    → ¬ ((c.malloc 24 w.libc).0 ≡ null)
    → lo % 8 ≡ 0
    → w.heap.mem_start_brk ≤ lo
    → lo + size ≤ w.heap.mem_brk
    → AllInside lo (lo + size - 1) w.ranges
    → add_range c lo size tracenum opnum w ≡ done true (with_range c lo size w)
add_range-AllInside c w lo size tracenum opnum b node al low high inside =
    accepted c w lo size tracenum opnum b node (record {
      aligned = al;
      low = low;
      high = high;
      clear = AllInside-AllClear lo (lo + size - 1) w.ranges inside;
    })

-- After `add_range` of an acceptable payload, `remove_range` of its address brings back the old list
-- and frees the new node. The sizes and addresses are in the bounds of their types, and `malloc` has
-- a node to give.
pub remove_range-add_range :
    {M : Type 0} (c : Libc M) (w : World M) (lo size tracenum opnum : ℕ)
    → InBounds w.heap lo size
    → ¬ ((c.malloc 24 w.libc).0 ≡ null)
    → Acceptable w.heap w.ranges lo size
    → (add_range c lo size tracenum opnum >> remove_range c lo) w
      ≡ done tt (let r = c.malloc 24 w.libc in record w { libc = c.free r.0 r.1 })
unfolding remove_range unlink
remove_range-add_range c w lo size tracenum opnum b node a =
    let same : (lo == lo) ≡ true = ground arith in
    rw (accepted c w lo size tracenum opnum b node a, remove_range, unlink, same)
