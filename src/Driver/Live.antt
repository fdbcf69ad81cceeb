-- ===== src/Driver/Live.antt =====
-- The blocks that a trace holds: what the range list, the arrays and the heap say of each.
use malloc_jt.Base.{
  ℕ, ◌+◌, ◌-◌, ◌%◌, ◌^◌, ◌≤◌, ◌<◌, ◌≡◌, ◌≢◌, ◌⊎◌, inl, inr, sym, ap, ◌∙◌, arith, Bool, true, false,
  some, List, [], ◌∷◌, length, ◌==◌, if◌then◌else◌,
}
use malloc_jt.Machine.{Ptr}
use malloc_jt.Heap.{Block, first_block, IsHeap}
use malloc_jt.Heap.Widened.{Used}
use malloc_jt.Driver.{Range, World, get_elem?}
use malloc_jt.Driver.Ranges.{unlink}

-- A block of `extent` bytes at `ptr` for the id `index`, of which `size` bytes are asked for.
pub record Live : Type 0 where
  pub node : Ptr
  pub ptr : Ptr
  pub index : ℕ
  pub size : ℕ
  pub extent : ℕ

abbrev pub range_of : Live → Range
range_of e = record { node = e.node; lo = e.ptr; hi = e.ptr + e.size - 1 }

abbrev pub ranges_of : List Live → List Range
ranges_of [] = []
ranges_of (e ∷ es) = range_of e ∷ ranges_of es

abbrev pub Listed : Live → List Live → Type 0
Listed e [] = ⊥
Listed e (x ∷ xs) = (e ≡ x) ⊎ Listed e xs

-- No two entries have an address or an id in common.
abbrev pub Distinct : List Live → Type 0
Distinct [] = Unit {0}
Distinct (x ∷ xs) = ((y : Live) → Listed y xs → (x.ptr ≢ y.ptr) × (x.index ≢ y.index)) × Distinct xs

pub record Held {M : Type 0} (w : World M) (bs : List Block) (e : Live) : Type 0 where
  pub used : Used (first_block w.heap) bs e.ptr e.extent
  pub large : e.size + 8 ≤ e.extent
  pub positive : 0 < e.size
  pub fine : e.size ≤ 2 ^ 31 - 16
  pub block : get_elem? w.blocks e.index ≡ some e.ptr
  pub block_size : get_elem? w.block_sizes e.index ≡ some e.size
  pub filled : (i : ℕ) → i < e.size → w.heap.bytes (e.ptr + i) % 256 ≡ e.index % 256

-- The arrays have `n` places, the heap is well-formed, the range list is that of the entries, each of which
-- holds an allocated block that is filled with its id, and `alive` tells the ids of the entries.
pub record Tracks {M : Type 0} (w : World M) (n : ℕ) (alive : ℕ → Bool) (bs : List Block)
    (es : List Live) : Type 0 where
  pub heap : IsHeap w.heap bs
  pub ranges : w.ranges ≡ ranges_of es
  pub blocks : length w.blocks ≡ n
  pub block_sizes : length w.block_sizes ≡ n
  pub held : (e : Live) → Listed e es → Held w bs e
  pub distinct : Distinct es
  pub lives : (i : ℕ) → alive i ≡ true → (e : Live) × Listed e es × (e.index ≡ i)
  pub lived : (e : Live) → Listed e es → alive e.index ≡ true

pub record Tracked {M : Type 0} (w : World M) (n : ℕ) (alive : ℕ → Bool) : Type 0 where
  pub bs : List Block
  pub es : List Live
  pub tracks : Tracks w n alive bs es

abbrev pub set_alive : (ℕ → Bool) → ℕ → Bool → ℕ → Bool
set_alive alive index b j = if j == index then b else alive j

-- The other entries, when one is taken off.
pub record Others (e : Live) (es : List Live) : Type 0 where
  pub rest : List Live
  pub unlinks : unlink e.ptr (ranges_of es) ≡ some (range_of e, ranges_of rest)
  pub listed : (x : Live) → Listed x rest → Listed x es
  pub different : (x : Live) → Listed x rest → (x.ptr ≢ e.ptr) × (x.index ≢ e.index)
  pub all_others : (x : Live) → Listed x es → x.index ≢ e.index → Listed x rest
  pub distinct : Distinct rest

pub Listed-Others : (e : Live) (es : List Live) → Distinct es → Listed e es → Others e es
unfolding unlink
Listed-Others e [] d l = absurd l
Listed-Others e (x ∷ xs) d (inl q) =
    let same : (x.ptr == e.ptr) ≡ true = ground (arith, ap (λ (y : Live). y.ptr) q) in
    record {
      rest = xs;
      unlinks = rw (unlink, same) (ap (λ (y : Live). some (range_of y, ranges_of xs)) (sym q));
      listed = λ y l. inr l;
      different = λ y l.
          let r = d.0 y l in
          (
            λ s. r.0 (sym (ap (λ (y : Live). y.ptr) q) ∙ sym s),
            λ s. r.1 (sym (ap (λ (y : Live). y.index) q) ∙ sym s),
          );
      all_others = λ y l ne. elim l [
        | inl s ↦ absurd (ne (ap (λ (y : Live). y.index) (s ∙ sym q)))
        | inr l ↦ l
      ];
      distinct = d.1;
    }
Listed-Others e (x ∷ xs) d (inr l) =
    let r = Listed-Others e xs d.1 l in
    let ne = d.0 e l in
    let other : (x.ptr == e.ptr) ≡ false = ground arith in
    record {
      rest = x ∷ r.rest;
      unlinks = rw (unlink, other, r.unlinks);
      listed = λ y k. elim k [ inl s ↦ inl s | inr k ↦ inr (r.listed y k) ];
      different = λ y k. elim k [
        | inl s ↦ (
          λ t. ne.0 (ap (λ (y : Live). y.ptr) (sym s) ∙ t),
          λ t. ne.1 (ap (λ (y : Live). y.index) (sym s) ∙ t),
        )
        | inr k ↦ r.different y k
      ];
      all_others = λ y k s. elim k [ inl q ↦ inl q | inr k ↦ inr (r.all_others y k s) ];
      distinct = (λ y k. d.0 y (r.listed y k), r.distinct);
    }
