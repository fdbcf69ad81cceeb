-- ===== src/Driver/Util/Carries.antt =====
-- The heap and the arrays during a run of `eval_mm_util`.
use malloc_jt.Base.{
  larger, ℕ, ◌+◌, ◌-◌, ◌^◌, ◌≤◌, ◌<◌, ◌≡◌, ◌≢◌, inl, inr, refl, sym, ap, ◌∙◌, arith, Bool, true,
  false, some, List, length, ltb, ◌==◌, Bool-cases, int_gt, true≢false,
}
use malloc_jt.Machine.{Ptr}
use malloc_jt.Heap.{Block, first_block, IsHeap}
use malloc_jt.Heap.Widened.{Used}
use malloc_jt.Driver.{World, Result, done, get_elem?, to_size_t}
use malloc_jt.Driver.Arrays.{Written, set_elem?-Written}
use malloc_jt.Driver.Live.{set_alive}
use malloc_jt.Driver.Util.{Usage, raise}
use malloc_jt.Driver.Util.Peak.{set_size, sum_to}

-- The block at `ptr` for the id `index`, and what the arrays say of it.
pub record Carried {M : Type 0} (w : World M) (n : ℕ) (bs : List Block) (ptr size index : ℕ)
    : Type 0 where
  pub extent : ℕ
  pub used : Used (first_block w.heap) bs ptr extent
  pub large : size + 8 ≤ extent
  pub fine : size ≤ 2 ^ 31 - 16
  pub inside : index < n
  pub block : get_elem? w.blocks index ≡ some ptr
  pub block_size : get_elem? w.block_sizes index ≡ some size

-- Each id in use has a block of its own; `at` are the blocks' addresses.
pub record Carries {M : Type 0} (w : World M) (n : ℕ) (alive : ℕ → Bool) (at : ℕ → Ptr)
    (sizes : ℕ → ℕ) : Type 0 where
  pub bs : List Block
  pub heap : IsHeap w.heap bs
  pub blocks : length w.blocks ≡ n
  pub block_sizes : length w.block_sizes ≡ n
  pub held : (i : ℕ) → alive i ≡ true → Carried w n bs (at i) (sizes i) i
  pub apart : (i j : ℕ) → alive i ≡ true → alive j ≡ true → i ≢ j → at i ≢ at j
  pub dead : (i : ℕ) → alive i ≡ false → sizes i ≡ 0

-- A step of `eval_mm_util`.
pub record Counts {M : Type 0} (w : World M) (n : ℕ) (alive : ℕ → Bool) (sizes : ℕ → ℕ)
    (m spent : ℕ) (r : Result M Usage) : Type 0 where
  pub world : World M
  pub returns : r ≡ done (record { total_size = sum_to n sizes; max_total_size = m }) world
  pub at : ℕ → Ptr
  pub carries : Carries world n alive at sizes
  pub same_arena :
      (world.heap.mem_start_brk ≡ w.heap.mem_start_brk)
      × (world.heap.mem_max_addr ≡ w.heap.mem_max_addr)
  pub break_at : world.heap.mem_brk ≤ w.heap.mem_brk + spent
  pub errors : world.errors ≡ w.errors
  pub reports : world.reports ≡ w.reports

pub raise_lem :
    (total total' m : ℕ)
    → total ≡ total'
    → total' < 2 ^ 31
    → m < 2 ^ 31
    → raise total m ≡ record { total_size = total'; max_total_size = larger m total' }
unfolding raise
raise_lem total total' m e h k =
    let y : int_gt total' m ≡ ltb m total' = ground arith in rw (e, y) refl

pub size_kept : (size : ℕ) → size ≤ 2 ^ 31 - 16 → to_size_t size ≡ size
unfolding to_size_t
size_kept size h = ground arith

-- A block that is to be entered in the arrays for the id `index`, apart from those of the other ids.
pub record Entry {M : Type 0} (w : World M) (n : ℕ) (alive : ℕ → Bool) (at : ℕ → Ptr)
    (sizes : ℕ → ℕ) (index p size : ℕ) : Type 0 where
  pub bs : List Block
  pub extent : ℕ
  pub heap : IsHeap w.heap bs
  pub blocks : length w.blocks ≡ n
  pub block_sizes : length w.block_sizes ≡ n
  pub inside : index < n
  pub fine : size ≤ 2 ^ 31 - 16
  pub used : Used (first_block w.heap) bs p extent
  pub large : size + 8 ≤ extent
  pub others : (i : ℕ) → alive i ≡ true → i ≢ index → Carried w n bs (at i) (sizes i) i × (at i ≢ p)
  pub apart : (i j : ℕ) → alive i ≡ true → alive j ≡ true → i ≢ j → at i ≢ at j
  pub dead : (i : ℕ) → alive i ≡ false → sizes i ≡ 0

module _ {M : Type 0} {w : World M} {n : ℕ} {alive : ℕ → Bool} {at : ℕ → Ptr} {sizes : ℕ → ℕ}
    {index p size : ℕ} (e : Entry w n alive at sizes index p size) where
  pub new_block : Written w.blocks index p
  new_block = set_elem?-Written w.blocks index p (omega (arith, e.inside, e.blocks))

  pub new_size : Written w.block_sizes index (to_size_t size)
  new_size =
      set_elem?-Written w.block_sizes index (to_size_t size)
        (omega (arith, e.inside, e.block_sizes))

  abbrev pub entered : World M
  entered = record w { blocks = new_block.array; block_sizes = new_size.array }

  entered-held :
      (i : ℕ)
      → set_alive alive index true i ≡ true
      → Carried entered n e.bs (set_size at index p i) (set_size sizes index size i) i
  entered-held i a = elim (Bool-cases (i == index)) [
    | inl y ↦
        let q : i ≡ index = ground arith in
        rw y (record {
          extent = e.extent;
          used = e.used;
          large = e.large;
          fine = e.fine;
          inside = omega (arith, q, e.inside);
          block = ap (get_elem? new_block.array) q ∙ new_block.here;
          block_size =
              ap (get_elem? new_size.array) q
              ∙ new_size.here
              ∙ ap (λ (k : ℕ). some k) (size_kept size e.fine);
        })
    | inr y ↦
        let ne : i ≢ index = ground arith in
        let o = (e.others i (rw y at a) ne).0 in
        rw y (record {
          extent = o.extent;
          used = o.used;
          large = o.large;
          fine = o.fine;
          inside = o.inside;
          block = new_block.elsewhere i ne ∙ o.block;
          block_size = new_size.elsewhere i ne ∙ o.block_size;
        })
  ]

  entered-apart :
      (i j : ℕ)
      → set_alive alive index true i ≡ true
      → set_alive alive index true j ≡ true
      → i ≢ j
      → set_size at index p i ≢ set_size at index p j
  entered-apart i j a b ne = elim (Bool-cases (i == index)) [
    | inl y ↦ elim (Bool-cases (j == index)) [
      | inl z ↦ absurd (ne (ground arith))
      | inr z ↦ rw (y, z) (λ q. (e.others j (rw z at b) (ground arith)).1 (sym q))
    ]
    | inr y ↦ elim (Bool-cases (j == index)) [
      | inl z ↦ rw (y, z) (e.others i (rw y at a) (ground arith)).1
      | inr z ↦ rw (y, z) (e.apart i j (rw y at a) (rw z at b) ne)
    ]
  ]

  pub entered-Carries :
      Carries entered n
        (set_alive alive index true)
        (set_size at index p)
        (set_size sizes index size)
  entered-Carries = record {
    bs = e.bs;
    heap = e.heap;
    blocks = new_block.size ∙ e.blocks;
    block_sizes = new_size.size ∙ e.block_sizes;
    held = entered-held;
    apart = entered-apart;
    dead = λ i a. elim (Bool-cases (i == index)) [
      | inl y ↦ absurd (true≢false (rw y at a))
      | inr y ↦ rw y (e.dead i (rw y at a))
    ];
  }
