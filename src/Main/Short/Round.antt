-- ===== src/Main/Short/Round.antt =====
-- The round for one trace file of `main`'s loop, from `read_trace` to `free_trace`.
use malloc_jt.Base.{
  ℕ, suc, ◌+◌, ◌-◌, ◌^◌, ◌≤◌, ◌<◌, ◌≡◌, refl, sym, ap, subst, ◌∙◌, arith, inl, inr, true, false,
  some, List, ◌∷◌, ◌++◌, length, take,
}
use malloc_jt.Driver.{Libc, Trace, init_failed, malloc_failed, Report, World, done, stopped}
use malloc_jt.Driver.ReadTrace.{read_trace}
use malloc_jt.Driver.ReadTrace.Format.{Token, Reads, IsTrace, written}
use malloc_jt.Driver.ReadTrace.Written.{stored_size, Read, read_trace-written}
use malloc_jt.Driver.Util.Peak.{peak}
use malloc_jt.Driver.Valid.{eval_mm_valid}
use malloc_jt.Driver.Valid.FromFile.{stored_Plays, stored_demand}
use malloc_jt.Driver.Valid.Passes.{IsArena, Stays, nobody}
use malloc_jt.Driver.Valid.Requests.{Generous, Plays, demand}
use malloc_jt.Driver.Valid.Short.{report, Ends, passes, not_started, refuses, eval_mm_valid-Ends}
use malloc_jt.Timing.{Double, Clocks, Timing}
use malloc_jt.Timing.Clock.{Platform}
use malloc_jt.Timing.Wrappers.{configured}
use malloc_jt.Main.{Host, measure_mm}
use malloc_jt.Main.Arguments.{Text}
use malloc_jt.Main.Evaluated.{kept_as, calls-Evaluated, stored_peak}
use malloc_jt.Main.Short.{Placed, Stays-Placed, Lacks, util-Placed, gettod-Placed}
use malloc_jt.Main.Short.Calls.{
  Blames, start_fails, alloc_fails, failed_stats, RoundEnds, evaluated, not_valid, exits,
  round-not_valid, round-stopped, round-util_stopped, round-speed_stopped,
}

module _ {D M F : Type 0} (d : Double D) (c : Libc M) (clocks : Clocks M) (p : Platform)
    (h : Host M F) (fuel i : ℕ) (tracedir filename : Text) (f : F) (t : Timing D) (w : World M)
    (trace : Trace) (opened : h.fopen (take 1023 (tracedir ++ filename)) ≡ some f)
    (r : Read h.fresh trace w (read_trace c h.scanner h.fresh fuel (some f) w))
    (plays : Plays trace.num_ids nobody (kept_as h.fresh trace).ops)
    (narrow : peak trace.num_ids trace.ops ≤ 2 ^ 31 - 16) (start end : ℕ)
    (placed : Placed trace.num_ids start end r.world) (Short : Type 0)
    (less : Lacks start end (kept_as h.fresh trace) → Short) where
  abbrev Outcome : Type 0
  Outcome =
      RoundEnds d trace (kept_as h.fresh trace) i w Short
        (measure_mm d c clocks p configured h fuel tracedir i filename t w)

  -- After a run of `eval_mm_valid` without an error.
  accepted-Ends :
      Stays trace.num_ids r.world true (eval_mm_valid c i (kept_as h.fresh trace) r.world) → Outcome
  accepted-Ends v =
      let n = trace.num_ids in
      let stored = kept_as h.fresh trace in
      let low : peak n stored.ops < 2 ^ 31 =
        omega (arith, stored_peak h.fresh 0 n (λ j. 0) 0 trace.ops, narrow) in
      let checked = Stays-Placed placed v in
      elim (util-Placed n stored start end plays low v.world checked) [
        | inl m ↦
            elim (gettod-Placed n stored start end plays low t d clocks 10 m.stays.world
              (Stays-Placed checked m.stays)) [
                | inl g ↦ evaluated (
                    calls-Evaluated d c clocks p h fuel i tracedir filename trace f t w r v m g.0
                      g.1 opened narrow)
                | inr q ↦ exits (
                  less q.0,
                  round-speed_stopped d c clocks p h fuel i tracedir filename f t w r.world r.loaded
                        stored opened r.returns r.same v.world m.stays.world _ _ v.returns
                        m.stays.returns q.1
                      ∙ ap stopped (m.stays.reports ∙ v.reports ∙ r.reports),
                )
              ]
        | inr q ↦ exits (
          less q.0,
          round-util_stopped d c clocks p h fuel i tracedir filename f t w r.world r.loaded stored
                opened r.returns r.same v.world _ v.returns q.1
              ∙ ap stopped (v.reports ∙ r.reports),
        )
      ]

  refused-Ends :
      (x : World M) (why : Report)
      → Lacks start end (kept_as h.fresh trace)
      → eval_mm_valid c i (kept_as h.fresh trace) r.world ≡ done false x
      → x.errors ≡ suc r.world.errors
      → x.reports ≡ why ∷ r.world.reports
      → Blames i (kept_as h.fresh trace) why
      → (x.heap.mem_start_brk ≡ r.world.heap.mem_start_brk)
        × (x.heap.mem_max_addr ≡ r.world.heap.mem_max_addr)
      → Outcome
  refused-Ends x why short valid errors reports blames same =
      let l = r.loaded in
      let freed : World M = record x {
        libc = c.free l.self (c.free l.block_sizes (c.free l.blocks (c.free l.ops x.libc)));
      } in
      not_valid t freed why (less short)
        (round-not_valid d c clocks p h fuel i tracedir filename f t w r.world r.loaded
            (kept_as h.fresh trace) opened r.returns r.same x valid
          ∙ ap (λ k. done (failed_stats d k, t) freed) (stored_size h.fresh 0 trace.ops))
        (errors ∙ ap suc r.errors) (reports ∙ ap (λ l. why ∷ l) r.reports) blames
        (same.0 ∙ ap (λ s. s.mem_start_brk) r.heap, same.1 ∙ ap (λ s. s.mem_max_addr) r.heap)

  checked-Ends :
      Ends r.world i 0
        (kept_as h.fresh trace).ops
        (Lacks start end (kept_as h.fresh trace))
        (eval_mm_valid c i (kept_as h.fresh trace) r.world)
      → Outcome
  checked-Ends (passes v g e k l) = accepted-Ends (record {
    world = v;
    returns = g;
    errors = e;
    reports = k;
    blocks = l.blocks ∙ r.blocks;
    block_sizes = l.block_sizes ∙ r.block_sizes;
    same_arena = (l.start, l.end);
  })
  checked-Ends (not_started v x g e k l) =
      refused-Ends v (report i 0 init_failed) x g e k (start_fails refl) (l.start, l.end)
  checked-Ends (refuses before after index size opnum v x o z g e k l) =
      let at : opnum ≡ length before = omega (arith, z) in
      refused-Ends v (report i opnum malloc_failed) x g e k
        (alloc_fails before after index size o (ap (λ n. report i n malloc_failed) at))
        (l.start, l.end)
  checked-Ends (Ends.exits before after index size x o g) = RoundEnds.exits (
    less x,
    round-stopped d c clocks p h fuel i tracedir filename f t w r.world r.loaded
          (kept_as h.fresh trace) opened r.returns r.same r.world.reports g
        ∙ ap stopped r.reports,
  )

pub measure_mm-Ends :
    {D M F : Type 0} (d : Double D) (c : Libc M) (clocks : Clocks M) (p : Platform) (h : Host M F)
    (text : F → List Token) (fuel heapsize weight i : ℕ) (tracedir filename : Text) (trace : Trace)
    (f : F) (t : Timing D) (w : World M)
    → Generous c
    → Reads h.scanner text
    → h.fopen (take 1023 (tracedir ++ filename)) ≡ some f
    → text f ≡ written heapsize weight trace
    → IsTrace trace
    → heapsize < 2 ^ 31
    → weight < 2 ^ 31
    → length trace.ops < fuel
    → IsArena w.heap
    → w.heap.mem_start_brk ≤ w.heap.mem_max_addr
    → Plays trace.num_ids nobody trace.ops
    → peak trace.num_ids trace.ops ≤ 2 ^ 31 - 16
    → RoundEnds d trace
        (kept_as h.fresh trace)
        i
        w
        (Lacks w.heap.mem_start_brk w.heap.mem_max_addr trace)
        (measure_mm d c clocks p configured h fuel tracedir i filename t w)
measure_mm-Ends d c clocks p h text fuel heapsize weight i tracedir filename trace f t w g reads
      opened holds is a b enough arena inside plays narrow =
    let r =
      read_trace-written c h.scanner text h.fresh fuel heapsize weight trace f w g reads is a b
        holds enough in
    let stored_plays = stored_Plays h.fresh trace.num_ids 0 nobody trace.ops plays in
    let low = ap (λ s. s.mem_start_brk) r.heap in
    let high = ap (λ s. s.mem_max_addr) r.heap in
    let placed : Placed trace.num_ids w.heap.mem_start_brk w.heap.mem_max_addr r.world = record {
      arena = subst IsArena (sym r.heap) arena;
      inside = inside;
      low = low;
      high = high;
      blocks = r.blocks;
      block_sizes = r.block_sizes;
    } in
    checked-Ends d c clocks p h fuel i tracedir filename f t w trace opened r stored_plays narrow
      w.heap.mem_start_brk w.heap.mem_max_addr placed
      (Lacks w.heap.mem_start_brk w.heap.mem_max_addr trace)
      (λ x. omega (arith, x, stored_demand h.fresh 0 trace.ops))
      (subst
        (λ s.
          Ends r.world i 0 (kept_as h.fresh trace).ops
            (s.mem_max_addr < s.mem_start_brk + 4112 + demand (kept_as h.fresh trace).ops)
            (eval_mm_valid c i (kept_as h.fresh trace) r.world))
        r.heap
        (eval_mm_valid-Ends c i trace.num_ids (kept_as h.fresh trace) r.world g placed.arena
          (omega (arith, inside, low, high)) r.blocks r.block_sizes stored_plays))
