-- ===== src/Driver/Valid/Short.antt =====
-- `eval_mm_valid` whatever room the arena has: what happens when memory runs out.
use malloc_jt.Base.{
  ℕ, suc, ◌+◌, ◌≤◌, ◌<◌, ◌≡◌, refl, sym, ap, subst, ◌∙◌, arith, inl, inr, Bool, true, false, List,
  [], ◌∷◌, ◌++◌, append_assoc, length-append, length,
}
use native.Mathlib.Decide.{dec_lt}
use malloc_jt.Memlib.{mem_reset_brk}
use malloc_jt.Mm.Init.{IsReset, mm_init-Booted, mm_init-full}
use malloc_jt.Mm.Malloc.{mm_malloc-Granted}
use malloc_jt.Mm.Realloc.{mm_realloc-Moved}
use malloc_jt.Driver.{
  Libc, RequestType, TraceOp, Trace, Complaint, malloc_failed, init_failed, World, Report, Result,
  done, stopped, malloc_error,
}
use malloc_jt.Driver.Live.{Tracked}
use malloc_jt.Driver.Ranges.{clear_ranges, free_nodes}
use malloc_jt.Driver.Ranges.Accept.{with_complaint}
use malloc_jt.Driver.Valid.{fail, valid_alloc, valid_realloc, valid_op, valid_ops, eval_mm_valid}
use malloc_jt.Driver.Valid.Alloc.{valid_alloc-Goes}
use malloc_jt.Driver.Valid.Realloc.{valid_realloc-Goes}
use malloc_jt.Driver.Valid.Release.{free-Goes}
use malloc_jt.Driver.Valid.Passes.{IsArena, nobody, started-Tracked}
use malloc_jt.Driver.Valid.Requests.{Allowed, alive_after, Plays, cost, demand, Generous, Goes}

abbrev pub request : RequestType → ℕ → ℕ → TraceOp
request type index size = record { type = type; index = index; size = size }

abbrev pub report : ℕ → ℕ → Complaint → Report
report tracenum opnum complaint = record {
  tracenum = tracenum;
  opnum = opnum;
  complaint = complaint;
}

-- How one request ends.
data Step {M : Type 0} (w : World M) (n : ℕ) (alive : ℕ → Bool) (tracenum i : ℕ)
    (type : RequestType) (size : ℕ) (r : Result M Bool) : Type 0 where
  goes : Goes w n alive (cost type size) r → Step w n alive tracenum i type size r
  refused :
      type ≡ RequestType.alloc
      → w.heap.mem_max_addr < w.heap.mem_brk + cost type size
      → r ≡ done false (with_complaint tracenum i malloc_failed w)
      → Step w n alive tracenum i type size r
  ends :
      type ≡ RequestType.realloc
      → w.heap.mem_max_addr < w.heap.mem_brk + cost type size
      → r ≡ stopped w.reports
      → Step w n alive tracenum i type size r

module _ {M : Type 0} (c : Libc M) (generous : Generous c) (n tracenum : ℕ) where
  valid_op-Step :
      (w : World M) (alive : ℕ → Bool) (i : ℕ) (type : RequestType) (index size : ℕ)
      → Tracked w n alive
      → Allowed n alive type index size
      → Step w n
          (alive_after alive type index)
          tracenum
          i
          type
          size
          (valid_op c tracenum i (request type index size) w)
  unfolding valid_op valid_alloc valid_realloc fail malloc_error
  valid_op-Step w alive i RequestType.alloc index size t a =
      elim (mm_malloc-Granted w.heap t.bs size t.tracks.heap a.2.0 a.2.1) [
        | inl g ↦ goes (
            valid_alloc-Goes c w n alive t.bs t.es index size t.tracks a.0 a.1 a.2 g tracenum i
              generous)
        | inr r ↦ refused refl r.no_room (rw r.returns refl)
      ]
  valid_op-Step w alive i RequestType.realloc index size t a =
      let e = t.tracks.lives index a.0 in
      let h = t.tracks.held e.0 e.1 in
      elim (mm_realloc-Moved w.heap t.bs e.0.ptr e.0.extent size t.tracks.heap h.used a.3.0 a.3.1) [
        | inl m ↦ goes (
            subst
              (λ j.
                Goes w n (alive_after alive RequestType.realloc j) (cost RequestType.realloc size)
                  (valid_realloc c tracenum i j size w))
              e.2
              (valid_realloc-Goes c w n alive t.bs t.es e.0 size t.tracks e.1
                (omega (arith, e.2, a.1)) (omega (arith, e.2, a.2)) a.3 m tracenum i generous))
        | inr r ↦ ends refl r.0.no_room (
            subst (λ j. valid_realloc c tracenum i j size w ≡ stopped w.reports) e.2
              (rw (h.block, r.1) refl))
      ]
  valid_op-Step w alive i RequestType.free index size t a =
      goes (free-Goes c w n alive tracenum index t a)

-- The arena is the same, and the arrays have as many places.
pub record Keeps {M : Type 0} (w v : World M) : Type 0 where
  pub start : v.heap.mem_start_brk ≡ w.heap.mem_start_brk
  pub end : v.heap.mem_max_addr ≡ w.heap.mem_max_addr
  pub blocks : length v.blocks ≡ length w.blocks
  pub block_sizes : length v.block_sizes ≡ length w.block_sizes

Keeps-then : {M : Type 0} (w u v : World M) → Keeps w u → Keeps u v → Keeps w v
Keeps-then w u v k l = record {
  start = l.start ∙ k.start;
  end = l.end ∙ k.end;
  blocks = l.blocks ∙ k.blocks;
  block_sizes = l.block_sizes ∙ k.block_sizes;
}

unchanged : {M : Type 0} (w : World M) → Keeps w w
unchanged w = record { start = refl; end = refl; blocks = refl; block_sizes = refl }

-- How the requests `ops` end, from the request `first` on: every one is served, or memory runs out,
-- which needs `Short`: at the start, at an ALLOC or at a REALLOC.
pub data Ends {M : Type 0} (w : World M) (tracenum first : ℕ) (ops : List TraceOp) (Short : Type 0)
    (r : Result M Bool) : Type 0 where
  passes :
      (v : World M)
      → r ≡ done true v
      → v.errors ≡ w.errors
      → v.reports ≡ w.reports
      → Keeps w v
      → Ends w tracenum first ops Short r
  not_started :
      (v : World M)
      → Short
      → r ≡ done false v
      → v.errors ≡ suc w.errors
      → v.reports ≡ report tracenum 0 init_failed ∷ w.reports
      → Keeps w v
      → Ends w tracenum first ops Short r
  refuses :
      (before after : List TraceOp) (index size opnum : ℕ) (v : World M)
      → Short
      → ops ≡ before ++ (request RequestType.alloc index size ∷ after)
      → opnum ≡ first + length before
      → r ≡ done false v
      → v.errors ≡ suc w.errors
      → v.reports ≡ report tracenum opnum malloc_failed ∷ w.reports
      → Keeps w v
      → Ends w tracenum first ops Short r
  exits :
      (before after : List TraceOp) (index size : ℕ)
      → Short
      → ops ≡ before ++ (request RequestType.realloc index size ∷ after)
      → r ≡ stopped w.reports
      → Ends w tracenum first ops Short r

-- Requests in front that are served.
Ends-append :
    {M : Type 0} (w u : World M) (tracenum first next : ℕ) (front ops : List TraceOp)
    {Later Short : Type 0} (r q : Result M Bool)
    → r ≡ q
    → u.errors ≡ w.errors
    → u.reports ≡ w.reports
    → Keeps w u
    → next ≡ first + length front
    → (Later → Short)
    → Ends u tracenum next ops Later q
    → Ends w tracenum first (front ++ ops) Short r
Ends-append w u tracenum first next front ops r q same e f keeps n short (passes v g h k l) =
    passes v (same ∙ g) (h ∙ e) (k ∙ f) (Keeps-then w u v keeps l)
Ends-append w u tracenum first next front ops r q same e f keeps n short (not_started v x g h k l) =
    not_started v (short x) (same ∙ g) (h ∙ ap suc e)
      (k ∙ ap (λ l. report tracenum 0 init_failed ∷ l) f) (Keeps-then w u v keeps l)
Ends-append w u tracenum first next front ops r q same e f keeps n short
      (refuses before after index size opnum v x o z g h k l) =
    refuses (front ++ before) after index size opnum v (short x)
      (ap (λ l. front ++ l) o ∙ sym (append_assoc front before _))
      (omega (arith, z, n, length-append front before)) (same ∙ g) (h ∙ ap suc e)
      (k ∙ ap (λ l. report tracenum opnum malloc_failed ∷ l) f) (Keeps-then w u v keeps l)
Ends-append w u tracenum first next front ops r q same e f keeps n short
      (exits before after index size x o g) =
    exits (front ++ before) after index size (short x)
      (ap (λ l. front ++ l) o ∙ sym (append_assoc front before _)) (same ∙ g ∙ ap stopped f)

module _ {M : Type 0} (c : Libc M) (generous : Generous c) (n tracenum : ℕ) where
  valid_ops-Ends :
      (w : World M) (alive : ℕ → Bool) (i : ℕ) (ops : List TraceOp)
      → Tracked w n alive
      → Plays n alive ops
      → Ends w tracenum i ops
          (w.heap.mem_max_addr < w.heap.mem_brk + demand ops)
          (valid_ops c tracenum i ops w)
  unfolding valid_ops
  valid_ops-Ends w alive i [] t plays = passes w refl refl refl (unchanged w)
  valid_ops-Ends w alive i (op ∷ ops) t plays =
      elim (valid_op-Step c generous n tracenum w alive i op.type op.index op.size t plays.0) [
        | goes g ↦
            Ends-append w g.world tracenum i (suc i) (op ∷ []) ops _ _
              (rw (valid_ops, g.returns) refl) g.errors g.reports
              (record {
                start = g.same_arena.0;
                end = g.same_arena.1;
                blocks = g.tracked.tracks.blocks ∙ sym t.tracks.blocks;
                block_sizes = g.tracked.tracks.block_sizes ∙ sym t.tracks.block_sizes;
              })
              (omega arith) (λ x. omega (arith, x, g.break_at, g.same_arena.1))
              (valid_ops-Ends g.world (alive_after alive op.type op.index) (suc i) ops g.tracked
                plays.1)
        | refused e x r ↦
            refuses [] ops op.index op.size i (with_complaint tracenum i malloc_failed w)
              (omega (arith, x)) (ap (λ x. request x op.index op.size ∷ ops) e) (omega arith)
              (rw (valid_ops, r) refl) refl refl
              (record { start = refl; end = refl; blocks = refl; block_sizes = refl })
        | ends e x r ↦
            exits [] ops op.index op.size (omega (arith, x))
              (ap (λ x. request x op.index op.size ∷ ops) e) (rw (valid_ops, r) refl)
      ]

-- `eval_mm_valid` on mm.c, with whatever room the arena has: on a trace that allocates before it frees
-- or reallocates, with sizes of 1 to 2^31 - 16 bytes and low bytes below 128 of the ids that it reallocates,
-- it either returns 1 with no error, or memory runs out, which needs an arena with less than 4112 bytes and the
-- growth that the requests may need. Then it returns 0 with one error, that `mm_init` failed or
-- that `mm_malloc` failed at a request ALLOC, under its number in the trace; or the program ends in
-- `mm_realloc` at a request REALLOC. Where it returns, the arena and the sizes of the arrays stay. It never finds fault with a block that mm.c gives out. The arrays have a
-- place for each id, and the C library's `malloc` never fails.
pub eval_mm_valid-Ends :
    {M : Type 0} (c : Libc M) (tracenum n : ℕ) (trace : Trace) (w : World M)
    → Generous c
    → IsArena w.heap
    → w.heap.mem_start_brk ≤ w.heap.mem_max_addr
    → length w.blocks ≡ n
    → length w.block_sizes ≡ n
    → Plays n nobody trace.ops
    → Ends w tracenum 0 trace.ops
        (w.heap.mem_max_addr < w.heap.mem_start_brk + 4112 + demand trace.ops)
        (eval_mm_valid c tracenum trace w)
unfolding eval_mm_valid mem_reset_brk clear_ranges fail malloc_error
eval_mm_valid-Ends c tracenum n trace w generous a inside blocks block_sizes plays =
    let s = record w.heap { mem_brk = w.heap.mem_start_brk } in
    let reset : IsReset s = record {
      not_low = a.not_low;
      aligned = a.aligned;
      limit = a.limit;
      small = a.small;
      empty = refl;
      inside = inside;
    } in
    elim (dec_lt w.heap.mem_max_addr (w.heap.mem_start_brk + 4112)) [
      | yes full ↦
          let i = mm_init-full s reset full in
          let v = record w { heap = i.0; ranges = []; libc = free_nodes c w.ranges w.libc } in
          not_started (with_complaint tracenum 0 init_failed v) (omega arith) (rw i.1 refl) refl
            refl (record { start = i.2; end = i.3; blocks = refl; block_sizes = refl })
      | no roomy ↦
          let b = mm_init-Booted s reset (omega (arith, roomy)) in
          let v = record w { heap = b.state; ranges = []; libc = free_nodes c w.ranges w.libc } in
          Ends-append w v tracenum 0 0 [] trace.ops _ _ (rw b.returns refl) refl refl
            (record {
              start = b.same_arena.0;
              end = b.same_arena.1;
              blocks = refl;
              block_sizes = refl;
            })
            (omega arith) (λ x. omega (arith, x, b.break_at, b.same_arena.1))
            (valid_ops-Ends c generous n tracenum v nobody 0 trace.ops
              (started-Tracked c w n b.state b.bs b.heap blocks block_sizes) plays)
    ]
