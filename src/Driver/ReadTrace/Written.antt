-- ===== src/Driver/ReadTrace/Written.antt =====
-- What `read_trace` reads from a file that holds a trace.
use malloc_jt.Base.{
  larger, ℕ, zero, suc, ◌*◌, ◌%◌, ◌^◌, ◌<◌, ◌≡◌, refl, ap, arith, true, false, some, List, [], ◌∷◌,
  length, ◌==◌, u64, sub32,
}
use malloc_jt.Machine.{Ptr, null}
use malloc_jt.Driver.{Libc, TraceOp, Trace, World, Result, done, to_size_t}
use malloc_jt.Driver.ReadTrace.{Scanner, Loaded, new_array, tabulate, set_arrays, read_trace}
use malloc_jt.Driver.Valid.Requests.{Generous}
use malloc_jt.Driver.ReadTrace.Format.{Token, Reads, written, as_stored, top, IsTrace}
use malloc_jt.Driver.ReadTrace.Lines.{read-lines}

pub stored_size :
    (fresh : ℕ → ℕ) (i : ℕ) (ops : List TraceOp) → length (as_stored fresh i ops) ≡ length ops
stored_size fresh i [] = refl
stored_size fresh i (op ∷ ops) = ap (λ (k : ℕ). suc k) (stored_size fresh (suc i) ops)

tabulate_size : (fresh : ℕ → ℕ) (n : ℕ) → length (tabulate fresh n) ≡ n
unfolding tabulate
tabulate_size fresh zero = refl
tabulate_size fresh (suc n) = ap (λ (k : ℕ). suc k) (tabulate_size fresh n)

-- A trace in memory, with arrays of a place for each id, and all else but the C library's memory as before.
pub record Read {M : Type 0} (fresh : ℕ → ℕ) (trace : Trace) (w : World M) (r : Result M Loaded)
    : Type 0 where
  pub loaded : Loaded
  pub world : World M
  pub returns : r ≡ done loaded world
  pub same : loaded.trace ≡ record { num_ids = trace.num_ids; ops = as_stored fresh 0 trace.ops }
  pub blocks : length world.blocks ≡ trace.num_ids
  pub block_sizes : length world.block_sizes ≡ trace.num_ids
  pub heap : world.heap ≡ w.heap
  pub errors : world.errors ≡ w.errors
  pub reports : world.reports ≡ w.reports

new_array-Generous :
    {M : Type 0} (c : Libc M) (n width : ℕ) (w : World M)
    → Generous c
    → (p : Ptr) × (m : M) × (new_array c n width w ≡ done p (record w { libc = m }))
unfolding new_array
new_array-Generous c n width w g =
    let r = c.malloc ((to_size_t n * width) % u64) w.libc in
    let y : (r.0 == null) ≡ false = ground (arith, g ((to_size_t n * width) % u64) w.libc) in
    (r.0, r.1, rw y refl)

-- `read_trace` reads back every trace that was written to a file in the format of the traces, whatever the
-- suggested size of the heap and the weight are: it returns the same ids and requests, but for the
-- sizes of the requests FREE, which keep what the memory held. Fuel for one round more than there are
-- requests is enough. The ids are numbered from 0 without a gap at the end, all numbers
-- fit in an `int`, and the C library's `malloc` never fails.
pub read_trace-written :
    {M F : Type 0} (c : Libc M) (sc : Scanner F) (text : F → List Token) (fresh : ℕ → ℕ)
    (fuel heapsize weight : ℕ) (trace : Trace) (f : F) (w : World M)
    → Generous c
    → Reads sc text
    → IsTrace trace
    → heapsize < 2 ^ 31
    → weight < 2 ^ 31
    → text f ≡ written heapsize weight trace
    → length trace.ops < fuel
    → Read fresh trace w (read_trace c sc fresh fuel (some f) w)
unfolding read_trace set_arrays
read_trace-written c sc text fresh fuel heapsize weight trace f w g reads is a b t enough =
    let r = c.malloc 40 w.libc in
    let y : (r.0 == null) ≡ false = ground (arith, g 40 w.libc) in
    let i1 = reads.ints f heapsize _ a t in
    let i2 = reads.ints i1.0 trace.num_ids _ is.few_ids i1.2 in
    let i3 = reads.ints i2.0 (length trace.ops) _ is.few_ops i2.2 in
    let i4 = reads.ints i3.0 weight _ b i3.2 in
    let w1 = record w { libc = r.1 } in
    let a1 = new_array-Generous c (length trace.ops) 12 w1 g in
    let a2 = new_array-Generous c trace.num_ids 8 (record w { libc = a1.1 }) g in
    let a3 = new_array-Generous c trace.num_ids 8 (record w { libc = a2.1 }) g in
    let places = tabulate fresh trace.num_ids in
    let w4 = record w { libc = a3.1; blocks = places; block_sizes = places } in
    let n = tabulate_size fresh trace.num_ids in
    let loop =
      read-lines sc text reads (length trace.ops) fresh fuel trace.ops enough is.narrow i4.0 0 [] w4
        i4.2 (omega arith) (omega arith) in
    let ids : (larger 0 (top trace.ops) == sub32 trace.num_ids 1) ≡ true =
      ground (arith, is.ids, is.few_ids) in
    let count : (length trace.ops == length (as_stored fresh 0 trace.ops)) ≡ true =
      ground (arith, stored_size fresh 0 trace.ops) in
    rw (y, i1.1, i2.1, i3.1, i4.1, a1.2, a2.2, a3.2, set_arrays, loop, ids, count)
      (record {
        loaded = _;
        world = w4;
        returns = refl;
        same = refl;
        blocks = n;
        block_sizes = n;
        heap = refl;
        errors = refl;
        reports = refl;
      })
