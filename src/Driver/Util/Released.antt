-- ===== src/Driver/Util/Released.antt =====
-- The request FREE of `eval_mm_util`, with the total and the maximum.
use malloc_jt.Base.{
  larger, ℕ, ◌%◌, ◌^◌, ◌≤◌, ◌<◌, ◌≡◌, inl, inr, refl, sym, arith, Bool, true, false, ◌==◌,
  Bool-cases, u32, sub32, true≢false,
}
use malloc_jt.Machine.{Ptr}
use malloc_jt.Mm.{mm_free}
use malloc_jt.Mm.Free.{Freed}
use malloc_jt.Driver.{World, get_block, get_block_size}
use malloc_jt.Driver.Live.{set_alive}
use malloc_jt.Driver.Util.{util_free}
use malloc_jt.Driver.Util.Carries.{Carried, Carries, Counts}
use malloc_jt.Driver.Util.Peak.{set_size, sum_to, sum_to-set_size}
use malloc_jt.Driver.Util.Counts.{usage}

module _ {M : Type 0} (w : World M) (n : ℕ) (alive : ℕ → Bool) (at : ℕ → Ptr) (sizes : ℕ → ℕ)
    (m index : ℕ) (c : Carries w n alive at sizes) (live : alive index ≡ true)
    (h : Carried w n c.bs (at index) (sizes index) index)
    (f : Freed w.heap c.bs (at index) (mm_free (at index) w.heap)) where
  abbrev freed : World M
  freed = record w { heap = record w.heap { bytes = f.bytes; temp = f.temp } }

  freed-Carries : Carries freed n (set_alive alive index false) at (set_size sizes index 0)
  freed-Carries = record {
    bs = f.after;
    heap = f.heap;
    blocks = c.blocks;
    block_sizes = c.block_sizes;
    held = λ i a. elim (Bool-cases (i == index)) [
      | inl y ↦ absurd (true≢false (sym (rw y at a)))
      | inr y ↦
          let o = c.held i (rw y at a) in
          let other = c.apart i index (rw y at a) live (ground arith) in
          rw y (record {
            extent = o.extent;
            used = (f.used (at i) o.extent).1 (o.used, other);
            large = o.large;
            fine = o.fine;
            inside = o.inside;
            block = o.block;
            block_size = o.block_size;
          })
    ];
    apart = λ i j a b ne. elim (Bool-cases (i == index)) [
      | inl y ↦ absurd (true≢false (sym (rw y at a)))
      | inr y ↦ elim (Bool-cases (j == index)) [
        | inl z ↦ absurd (true≢false (sym (rw z at b)))
        | inr z ↦ c.apart i j (rw y at a) (rw z at b) ne
      ]
    ];
    dead = λ i a. elim (Bool-cases (i == index)) [
      | inl y ↦ rw y refl
      | inr y ↦ rw y (c.dead i (rw y at a))
    ];
  }

  pub free-Counts :
      sum_to n sizes ≤ m
      → m < 2 ^ 31
      → Counts w n
          (set_alive alive index false)
          (set_size sizes index 0)
          (larger m (sum_to n (set_size sizes index 0)))
          0
          (util_free index (usage n sizes m) w)
  unfolding util_free
  free-Counts highest narrow =
      let sums = sum_to-set_size n sizes index 0 h.inside in
      let total : sub32 (sum_to n sizes) (sizes index % u32) ≡ sum_to n (set_size sizes index 0) =
        omega (arith, sums, h.fine) in
      let kept : larger m (sum_to n (set_size sizes index 0)) ≡ m = ground (arith, sums) in
      rw (get_block_size, h.block_size, get_block, h.block, f.returns, total, kept)
        (record {
          world = freed;
          returns = refl;
          at = at;
          carries = freed-Carries;
          same_arena = (refl, refl);
          break_at = omega arith;
          errors = refl;
          reports = refl;
        })
