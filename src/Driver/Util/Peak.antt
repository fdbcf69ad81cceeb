-- ===== src/Driver/Util/Peak.antt =====
-- What `eval_mm_util` is to compute: the largest total of the sizes that a trace has in use at once.
use malloc_jt.Base.{
  larger, ℕ, zero, suc, ◌+◌, ◌-◌, ◌^◌, ◌≤◌, ◌<◌, ◌≡◌, refl, arith, ap, Bool, false, List, [], ◌∷◌,
  ◌==◌, if◌then◌else◌, Bool-cases, inl, inr,
}
use native.Mathlib.Decide.{dec_lt}
use malloc_jt.Mm.{adjust}
use malloc_jt.Mm.Malloc.{growth, growth_lem, adjust-Adjusted}
use malloc_jt.Driver.{RequestType, TraceOp}
use malloc_jt.Driver.Valid.Requests.{Allowed, Plays, alive_after, cost, demand}

-- The size in use for each id.
abbrev pub set_size : (ℕ → ℕ) → ℕ → ℕ → ℕ → ℕ
set_size sizes index size i = if i == index then size else sizes i

abbrev pub size_after : RequestType → ℕ → ℕ
size_after RequestType.alloc size = size
size_after RequestType.realloc size = size
size_after RequestType.free size = 0

abbrev pub sizes_after : (ℕ → ℕ) → RequestType → (index size : ℕ) → ℕ → ℕ
sizes_after sizes type index size = set_size sizes index (size_after type size)

-- The total over the ids below `n`.
abbrev pub sum_to : ℕ → (ℕ → ℕ) → ℕ
sum_to zero sizes = 0
sum_to (suc n) sizes = sum_to n sizes + sizes n

-- The largest total along a trace, from the sizes in use and the maximum so far.
abbrev pub peak_from : ℕ → (ℕ → ℕ) → ℕ → List TraceOp → ℕ
peak_from n sizes m [] = m
peak_from n sizes m (op ∷ ops) =
    peak_from n (sizes_after sizes op.type op.index op.size)
      (larger m (sum_to n (sizes_after sizes op.type op.index op.size))) ops

abbrev pub peak : ℕ → List TraceOp → ℕ
peak n ops = peak_from n (λ i. 0) 0 ops

sum_to-elsewhere :
    (n : ℕ) (sizes : ℕ → ℕ) (index size : ℕ)
    → n ≤ index
    → sum_to n (set_size sizes index size) ≡ sum_to n sizes
sum_to-elsewhere zero sizes index size h = refl
sum_to-elsewhere (suc n) sizes index size h =
    let ne : (n == index) ≡ false = ground arith in
    rw (ne, sum_to-elsewhere n sizes index size (omega arith)) refl

pub sum_to-set_size :
    (n : ℕ) (sizes : ℕ → ℕ) (index size : ℕ)
    → index < n
    → sum_to n (set_size sizes index size) + sizes index ≡ sum_to n sizes + size
sum_to-set_size zero sizes index size h = absurd (omega arith)
sum_to-set_size (suc n) sizes index size h = elim (Bool-cases (n == index)) [
  | inl y ↦
      let e : n ≡ index = ground arith in
      rw y (omega (arith, sum_to-elsewhere n sizes index size (omega arith), ap sizes e))
  | inr y ↦
      let below : index < n = ground arith in
      rw y (omega (arith, sum_to-set_size n sizes index size below))
]

pub size-sum_to : (n : ℕ) (sizes : ℕ → ℕ) (index : ℕ) → index < n → sizes index ≤ sum_to n sizes
size-sum_to zero sizes index h = absurd (omega arith)
size-sum_to (suc n) sizes index h = elim (Bool-cases (n == index)) [
  | inl y ↦ (let e : n ≡ index = ground arith in omega (arith, ap sizes e))
  | inr y ↦ let below : index < n = ground arith in omega (arith, size-sum_to n sizes index below)
]

pub le-peak_from :
    (n : ℕ) (sizes : ℕ → ℕ) (m : ℕ) (ops : List TraceOp) → m ≤ peak_from n sizes m ops
le-peak_from n sizes m [] = omega arith
le-peak_from n sizes m (op ∷ ops) =
    let t = sum_to n (sizes_after sizes op.type op.index op.size) in
    let more : m ≤ larger m t = ground arith in
    omega (arith, le-peak_from n (sizes_after sizes op.type op.index op.size) (larger m t) ops)

pub sum_to-zero : (n : ℕ) → sum_to n (λ i. 0) ≡ 0
sum_to-zero zero = refl
sum_to-zero (suc n) = omega (arith, sum_to-zero n)

-- A new size adds itself at most, whatever the id.
pub sum_to-more :
    (n : ℕ) (sizes : ℕ → ℕ) (index size : ℕ)
    → sum_to n (set_size sizes index size) ≤ sum_to n sizes + size
sum_to-more n sizes index size = elim (dec_lt index n) [
  | yes h ↦ omega (arith, sum_to-set_size n sizes index size h)
  | no h ↦ omega (arith, sum_to-elsewhere n sizes index size (omega arith))
]

size-growth : (size : ℕ) → size ≤ 2 ^ 31 - 16 → size ≤ growth (adjust size)
size-growth size h =
    let a = adjust-Adjusted size h in
    let g = growth_lem (adjust size) a.narrow a.eights in omega (arith, a.holds, g.0)

-- A request adds no more to the total than the heap may have to grow by.
size_after-cost :
    (n : ℕ) (alive : ℕ → Bool) (type : RequestType) (index size : ℕ)
    → Allowed n alive type index size
    → size_after type size ≤ cost type size
size_after-cost n alive RequestType.alloc index size a = size-growth size a.2.1
size_after-cost n alive RequestType.realloc index size a = size-growth size a.3.1
size_after-cost n alive RequestType.free index size a = omega arith

pub peak_from-demand :
    (n : ℕ) (alive : ℕ → Bool) (sizes : ℕ → ℕ) (m : ℕ) (ops : List TraceOp)
    → Plays n alive ops
    → sum_to n sizes ≤ m
    → peak_from n sizes m ops ≤ m + demand ops
peak_from-demand n alive sizes m [] p h = omega arith
peak_from-demand n alive sizes m (op ∷ ops) p h =
    let sizes' = sizes_after sizes op.type op.index op.size in
    let more = sum_to-more n sizes op.index (size_after op.type op.size) in
    let paid = size_after-cost n alive op.type op.index op.size p.0 in
    let up : larger m (sum_to n sizes') ≤ m + cost op.type op.size = ground (arith, more, paid) in
    let high : sum_to n sizes' ≤ larger m (sum_to n sizes') = ground arith in
    omega (
      arith,
      up,
      peak_from-demand n (alive_after alive op.type op.index) sizes' (larger m (sum_to n sizes'))
          ops p.1 high,
    )
