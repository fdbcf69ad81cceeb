-- ===== src/Driver/Valid/Fresh.antt =====
-- A new block in the hands of `eval_mm_valid`: `add_range` accepts it, and after it is filled and its
-- address stored, the driver's records are true again.
use malloc_jt.Base.{
  ℕ, ◌+◌, ◌-◌, ◌%◌, ◌^◌, ◌≤◌, ◌<◌, ◌≡◌, ◌≢◌, ◌⊎◌, inl, inr, refl, sym, ap, subst, ◌∙◌, arith, Bool,
  true, false, ◌&&◌, some, List, [], ◌∷◌, length, ltb, leb, ◌==◌, if◌then◌else◌, le→leb, lt→ltb,
  bit_and, Bool-cases,
}
use malloc_jt.Base.Bits.{bit_and-byte}
use malloc_jt.Machine.{Ptr, Bytes, State, ok, with_bytes}
use malloc_jt.Machine.Words.{Same}
use malloc_jt.Heap.{Block, first_block, IsHeap}
use malloc_jt.Heap.Payload.{IsHeap-payload, Used-Usable}
use malloc_jt.Heap.Widened.{Used}
use malloc_jt.Mm.Steps.{in_arena-true}
use malloc_jt.Driver.{
  Libc, Range, World, done, student, give, ◌>>◌, set_block, set_block_size, to_size_t,
}
use malloc_jt.Driver.Arrays.{Written, set_elem?-Written}
use malloc_jt.Driver.Contents.{memset}
use malloc_jt.Driver.Live.{Live, range_of, ranges_of, Listed, Distinct, Held, Tracks, set_alive}
use malloc_jt.Driver.Ranges.Accept.{Clear, AllClear, Acceptable, InBounds, with_range}

-- The bytes after `memset`.
pub set_bytes : Bytes → Ptr → ℕ → ℕ → Bytes
set_bytes m p v n x = if leb p x && ltb x (p + n) then v % 256 else m x

Same-set_bytes : (m : Bytes) (p v n : ℕ) → Same p (p + n) m (set_bytes m p v n)
unfolding set_bytes
Same-set_bytes m p v n = record { outside = λ x o. ground arith }

set_bytes-inside : (m : Bytes) (p v n i : ℕ) → i < n → set_bytes m p v n (p + i) ≡ v % 256
unfolding set_bytes
set_bytes-inside m p v n i h =
    rw (le→leb p (p + i) (omega arith), lt→ltb (p + i) (p + n) (omega arith))

pub to_size_t_lem : (n : ℕ) → n < 2 ^ 31 → to_size_t n ≡ n
unfolding to_size_t
to_size_t_lem n h = ground arith

-- The block of `extent` bytes at `p` is new in the world `w`: the entries `es` are the others.
pub record Fresh {M : Type 0} (w : World M) (n : ℕ) (alive : ℕ → Bool) (bs : List Block)
    (es : List Live) (p extent size index : ℕ) : Type 0 where
  pub heap : IsHeap w.heap bs
  pub ranges : w.ranges ≡ ranges_of es
  pub blocks : length w.blocks ≡ n
  pub block_sizes : length w.block_sizes ≡ n
  pub inside : index < n
  pub used : Used (first_block w.heap) bs p extent
  pub large : size + 8 ≤ extent
  pub positive : 0 < size
  pub fine : size ≤ 2 ^ 31 - 16
  pub held : (e : Live) → Listed e es → Held w bs e
  pub distinct : Distinct es
  pub apart : (e : Live) → Listed e es → (e.ptr + e.extent ≤ p) ⊎ (p + extent ≤ e.ptr)
  pub other : (e : Live) → Listed e es → e.index ≢ index
  pub lives : (i : ℕ) → i ≢ index → alive i ≡ true → (e : Live) × Listed e es × (e.index ≡ i)
  pub lived : (e : Live) → Listed e es → alive e.index ≡ true

module _ {M : Type 0} (c : Libc M) (w : World M) (n : ℕ) (alive : ℕ → Bool) (bs : List Block)
    (es : List Live) (p extent size index : ℕ) (f : Fresh w n alive bs es p extent size index) where
  pub Fresh-InBounds : InBounds w.heap p size
  Fresh-InBounds =
      let u = Used-Usable w.heap bs p extent f.heap f.used in
      record {
        positive = f.positive;
        int = omega (arith, f.fine);
        address = omega (arith, u.high, f.large, f.heap.layout.room, f.heap.layout.small);
        brk = omega (arith, f.heap.layout.room, f.heap.layout.small);
        some_heap = omega (arith, u.high, u.least);
      }

  clear_of :
      (l : List Live)
      → ((e : Live) → Listed e l → Listed e es)
      → AllClear p (p + size - 1) (ranges_of l)
  unfolding AllClear Clear
  clear_of [] s = tt
  clear_of (e ∷ l) s =
      let h = f.held e (s e (inl refl)) in
      let side : ((p + size - 1 < e.ptr)
          ⊎ ((e.ptr + e.size - 1 < p) ⊎ ((p < e.ptr) × (e.ptr + e.size - 1 < p + size - 1)))) =
        elim (f.apart e (s e (inl refl))) [
          | inl y ↦ inr (inl (omega (arith, h.large, h.positive)))
          | inr y ↦ inl (omega (arith, f.large, f.positive))
        ] in
      (side, clear_of l (λ x k. s x (inr k)))

  pub Fresh-Acceptable : Acceptable w.heap w.ranges p size
  Fresh-Acceptable =
      let u = Used-Usable w.heap bs p extent f.heap f.used in
      record {
        aligned = u.aligned;
        low = omega (arith, u.low);
        high = omega (arith, u.high, f.large);
        clear = subst (AllClear p (p + size - 1)) (sym f.ranges) (clear_of es (λ e l. l));
      }

  abbrev fill_byte : ℕ
  fill_byte = bit_and index 0xFF

  abbrev pub filled_heap : State
  filled_heap = with_bytes w.heap (set_bytes w.heap.bytes p fill_byte size)

  pub memset_fills : memset p (bit_and index 0xFF) (to_size_t size) w.heap ≡ ok tt filled_heap
  unfolding memset set_bytes
  memset_fills =
      let u = Used-Usable w.heap bs p extent f.heap f.used in
      rw (
        to_size_t_lem size (omega (arith, f.fine)),
        in_arena-true w.heap p size (omega (arith, u.low))
            (omega (arith, u.high, f.large, f.heap.layout.room)),
      )

  pub new_block : Written w.blocks index p
  new_block = set_elem?-Written w.blocks index p (omega (arith, f.inside, f.blocks))

  pub new_size : Written w.block_sizes index (to_size_t size)
  new_size =
      set_elem?-Written w.block_sizes index (to_size_t size)
        (omega (arith, f.inside, f.block_sizes))

  abbrev pub final : World M
  final = record (with_range c p size w) {
    heap = filled_heap;
    blocks = new_block.array;
    block_sizes = new_size.array;
  }

  pub tail_returns :
      (student (memset p (bit_and index 0xFF) (to_size_t size))
          >> (set_block index p >> (set_block_size index size >> give true)))
        (with_range c p size w)
      ≡ done true final
  tail_returns = rw (memset_fills, set_block, new_block.returns, set_block_size, new_size.returns)

  abbrev pub entry : Live
  entry = record {
    node = (c.malloc 24 w.libc).0;
    ptr = p;
    index = index;
    size = size;
    extent = extent;
  }

  filled_IsHeap : IsHeap filled_heap bs
  filled_IsHeap =
      IsHeap-payload bs p extent f.heap f.used (Same-set_bytes w.heap.bytes p fill_byte size)
        (record { low = omega arith; high = omega (arith, f.large) })

  entry_Held : Held final bs entry
  entry_Held = record {
    used = f.used;
    large = f.large;
    positive = f.positive;
    fine = f.fine;
    block = new_block.here;
    block_size =
        new_size.here ∙ ap (λ (k : ℕ). some k) (to_size_t_lem size (omega (arith, f.fine)));
    filled = λ i h.
        ap (λ (k : ℕ). k % 256) (set_bytes-inside w.heap.bytes p fill_byte size i h)
        ∙ omega (arith, bit_and-byte index);
  }

  other_Held : (e : Live) → Listed e es → Held final bs e
  other_Held e l =
      let h = f.held e l in
      record {
        used = h.used;
        large = h.large;
        positive = h.positive;
        fine = h.fine;
        block = new_block.elsewhere e.index (f.other e l) ∙ h.block;
        block_size = new_size.elsewhere e.index (f.other e l) ∙ h.block_size;
        filled = λ i k.
            ap (λ (b : ℕ). b % 256)
              ((Same-set_bytes w.heap.bytes p fill_byte size).outside (e.ptr + i)
                (beside e i (f.apart e l) h.large k))
            ∙ h.filled i k;
      }
    where
      beside :
          (e : Live) (i : ℕ)
          → (e.ptr + e.extent ≤ p) ⊎ (p + extent ≤ e.ptr)
          → e.size + 8 ≤ e.extent
          → i < e.size
          → (e.ptr + i < p) ⊎ (p + size ≤ e.ptr + i)
      beside e i (inl y) h k = inl (omega arith)
      beside e i (inr y) h k = inr (omega (arith, f.large))

  pub Fresh-Tracks : Tracks final n (set_alive alive index true) bs (entry ∷ es)
  Fresh-Tracks = record {
    heap = filled_IsHeap;
    ranges = ap (λ (l : List Range). range_of entry ∷ l) f.ranges;
    blocks = new_block.size ∙ f.blocks;
    block_sizes = new_size.size ∙ f.block_sizes;
    held =
        λ e l. elim l [ inl q ↦ subst (Held final bs) (sym q) entry_Held | inr l ↦ other_Held e l ];
    distinct = (λ e l. (new_place e l, λ q. f.other e l (sym q)), f.distinct);
    lives = found;
    lived = λ e l. elim l [
      | inl q ↦
          let y : (e.index == index) ≡ true = ground (arith, ap (λ (x : Live). x.index) q) in rw y
      | inr l ↦
          let ne = f.other e l in
          let y : (e.index == index) ≡ false = ground arith in rw y (f.lived e l)
    ];
  }
    where
      new_place : (e : Live) → Listed e es → p ≢ e.ptr
      new_place e l q =
          let h = f.held e l in absurd (omega (arith, f.apart e l, h.large, f.large, q))

      found :
          (i : ℕ)
          → set_alive alive index true i ≡ true
          → (e : Live) × Listed e (entry ∷ es) × (e.index ≡ i)
      found i a = elim (Bool-cases (i == index)) [
        | inl y ↦ (entry, inl refl, ground arith)
        | inr y ↦ let r = f.lives i (ground arith) (rw y at a) in (r.0, inr r.1, r.2)
      ]
