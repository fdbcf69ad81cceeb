-- ===== src/Driver/Util/Agree.antt =====
-- `eval_mm_util` against `eval_mm_speed`: the function that is timed makes the same calls of mm.c.
use malloc_jt.Base.{
  ℕ, ◌≡◌, inl, inr, refl, sym, ◌∙◌, arith, Bool, not, true, false, List, [], ◌∷◌, length, ◌==◌,
  if◌then◌else◌, Bool-cases,
}
use native.Mathlib.Decide.{dec_lt}
use malloc_jt.Machine.{Ptr, null, Outcome, ok, fault, exited, out_of_fuel}
use malloc_jt.Memlib.{mem_reset_brk, mem_heapsize}
use malloc_jt.Mm.{mm_init, mm_malloc, mm_realloc, mm_free}
use malloc_jt.Driver.{
  RequestType, TraceOp, Trace, World, Result, done, crashed, stopped, aborted, endless, Run, give,
  then_run, ◌>>=◌, ◌>>◌, from_student, get_block, get_block_size, set_block, set_block_size,
  app_error, to_size_t,
}
use malloc_jt.Driver.Arrays.{get_elem?-some, get_elem?-none, set_elem?-Written, set_elem?-none}
use malloc_jt.Driver.Util.{
  Usage, util_alloc, util_realloc, util_free, util_op, util_ops, eval_mm_util, speed_alloc,
  speed_realloc, speed_free, speed_op, speed_ops, eval_mm_speed,
}

-- The outcome with the array of sizes as it was, and without the value returned.
unfoldable pub unsized : {M A : Type 0} → List ℕ → Result M A → Result M (Unit {0})
unsized sizes (done a w) = done tt (record w { block_sizes = sizes })
unsized sizes crashed = crashed
unsized sizes (stopped reports) = stopped reports
unsized sizes aborted = aborted
unsized sizes endless = endless

abbrev pub IsEven : {M : Type 0} → World M → Type 0
IsEven w = length w.blocks ≡ length w.block_sizes

-- The arrays are of one length, if the function returns.
abbrev StaysEven : {M A : Type 0} → Result M A → Type 0
StaysEven (done a w) = IsEven w
StaysEven crashed = Unit {0}
StaysEven (stopped reports) = Unit {0}
StaysEven aborted = Unit {0}
StaysEven endless = Unit {0}

-- What a part of `eval_mm_util` and the same part of `eval_mm_speed` return.
record Alike {M A : Type 0} (sizes : List ℕ) (r : Result M A) (q : Result M (Unit {0}))
    : Type 0 where
  same : q ≡ unsized sizes r
  even : StaysEven r

module _ {M : Type 0} (sizes : List ℕ) where
  abbrev with_sizes : World M → World M
  with_sizes w = record w { block_sizes = sizes }

  -- The end of ALLOC and REALLOC: the two writes, or one.
  module _ (index size : ℕ) (u : Usage) where
    abbrev keep : Ptr → Run M Usage
    keep p w =
        (if p == null then app_error else do set_block index p; set_block_size index size; give u) w

    abbrev keep_block : Ptr → Run M (Unit {0})
    keep_block p w = (if p == null then app_error else set_block index p) w

    keep-Alike :
        (p : Ptr) (w : World M) → IsEven w → Alike sizes (keep p w) (keep_block p (with_sizes w))
    unfolding unsized
    keep-Alike p w e = elim (Bool-cases (p == null)) [
      | inl y ↦ rw y (record { same = refl; even = tt })
      | inr y ↦ elim (dec_lt index (length w.blocks)) [
        | yes h ↦
            let b = set_elem?-Written w.blocks index p h in
            let z = set_elem?-Written w.block_sizes index (to_size_t size) (omega (arith, e)) in
            rw (y, set_block, b.returns, set_block_size, z.returns)
              (record { same = refl; even = b.size ∙ e ∙ sym z.size })
        | no h ↦
            rw (y, set_block, set_elem?-none w.blocks index p (omega arith))
              (record { same = refl; even = tt })
      ]
    ]

  then-Alike :
      {A B : Type 0} (r : Result M A) (q : Result M (Unit {0})) (k : A → Run M B)
      (l : Unit {0} → Run M (Unit {0}))
      → Alike sizes r q
      → ((a : A) (w : World M) → IsEven w → Alike sizes (k a w) (l tt (with_sizes w)))
      → Alike sizes (then_run r k) (then_run q l)
  unfolding unsized
  then-Alike (done a w) q k l a' h = rw a'.same (h a w a'.even)
  then-Alike crashed q k l a h = rw a.same (record { same = refl; even = tt })
  then-Alike (stopped reports) q k l a h = rw a.same (record { same = refl; even = tt })
  then-Alike aborted q k l a h = rw a.same (record { same = refl; even = tt })
  then-Alike endless q k l a h = rw a.same (record { same = refl; even = tt })

  -- A call of mm.c, in both.
  call-Alike :
      {A B : Type 0} (o : Outcome A) (w : World M) (k : A → Run M B) (l : A → Run M (Unit {0}))
      → IsEven w
      → ((a : A) (v : World M) → IsEven v → Alike sizes (k a v) (l a (with_sizes v)))
      → Alike sizes (then_run (from_student w o) k) (then_run (from_student (with_sizes w) o) l)
  unfolding unsized
  call-Alike (ok a s) w k l e h = h a (record w { heap = s }) e
  call-Alike fault w k l e h = record { same = refl; even = tt }
  call-Alike exited w k l e h = record { same = refl; even = tt }
  call-Alike out_of_fuel w k l e h = record { same = refl; even = tt }

  freed-Alike :
      (o : Outcome (Unit {0})) (w : World M) (u : Usage)
      → IsEven w
      → Alike sizes (then_run (from_student w o) (λ x. give u)) (from_student (with_sizes w) o)
  unfolding unsized
  freed-Alike (ok a s) w u e = record { same = refl; even = e }
  freed-Alike fault w u e = record { same = refl; even = tt }
  freed-Alike exited w u e = record { same = refl; even = tt }
  freed-Alike out_of_fuel w u e = record { same = refl; even = tt }

  op-Alike :
      (type : RequestType) (index size : ℕ) (u : Usage) (w : World M)
      → IsEven w
      → Alike sizes
          (util_op (record { type = type; index = index; size = size }) u w)
          (speed_op (record { type = type; index = index; size = size }) (with_sizes w))
  unfolding util_op speed_op util_alloc speed_alloc util_realloc speed_realloc util_free speed_free
      unsized
  op-Alike RequestType.alloc index size u w e =
      call-Alike (mm_malloc size w.heap) w _ _ e λ p v g. keep-Alike index size _ p v g
  op-Alike RequestType.realloc index size u w e = elim (dec_lt index (length w.blocks)) [
    | yes h ↦
        let b = get_elem?-some w.blocks index h in
        let z = get_elem?-some w.block_sizes index (omega (arith, e)) in
        rw (get_block_size, z.1, get_block, b.1)
          (call-Alike (mm_realloc b.0 size w.heap) w _ _ e λ p v g. keep-Alike index size _ p v g)
    | no h ↦
        rw
          (
            get_block_size,
            get_elem?-none w.block_sizes index (omega (arith, e)),
            get_block,
            get_elem?-none w.blocks index (omega arith),
          )
          (record { same = refl; even = tt })
  ]
  op-Alike RequestType.free index size u w e = elim (dec_lt index (length w.blocks)) [
    | yes h ↦
        let b = get_elem?-some w.blocks index h in
        let z = get_elem?-some w.block_sizes index (omega (arith, e)) in
        rw (get_block_size, z.1, get_block, b.1) (freed-Alike (mm_free b.0 w.heap) w _ e)
    | no h ↦
        rw
          (
            get_block_size,
            get_elem?-none w.block_sizes index (omega (arith, e)),
            get_block,
            get_elem?-none w.blocks index (omega arith),
          )
          (record { same = refl; even = tt })
  ]

  ops-Alike :
      (ops : List TraceOp) (u : Usage) (w : World M)
      → IsEven w
      → Alike sizes (util_ops ops u w) (speed_ops ops (with_sizes w))
  unfolding util_ops speed_ops unsized
  ops-Alike [] u w e = record { same = refl; even = e }
  ops-Alike (op ∷ ops) u w e =
      then-Alike (util_op op u w) (speed_op op (with_sizes w)) (util_ops ops) (λ x. speed_ops ops)
        (op-Alike op.type op.index op.size u w e) λ a v g. ops-Alike ops a v g

  started-Alike :
      (trace : Trace) (started : Bool) (w : World M)
      → IsEven w
      → Alike {A = ℕ × ℕ} sizes
          ((if not started then app_error else do
            u ← util_ops trace.ops (record { total_size = 0; max_total_size = 0 })
            (λ w. done (u.max_total_size, mem_heapsize w.heap) w))
            w)
          ((if not started then app_error else speed_ops trace.ops) (with_sizes w))
  unfolding unsized
  started-Alike trace false w e = record { same = refl; even = tt }
  started-Alike trace true w e =
      finish (util_ops trace.ops _ w) (speed_ops trace.ops (with_sizes w))
        (ops-Alike trace.ops _ w e)
    where
      finish :
          (r : Result M Usage) (q : Result M (Unit {0}))
          → Alike sizes r q
          → Alike {A = ℕ × ℕ} sizes
              (then_run r (λ u. λ w. done (u.max_total_size, mem_heapsize w.heap) w))
              q
      finish (done u v) q a = rw a.same (record { same = refl; even = a.even })
      finish crashed q a = rw a.same (record { same = refl; even = tt })
      finish (stopped reports) q a = rw a.same (record { same = refl; even = tt })
      finish aborted q a = rw a.same (record { same = refl; even = tt })
      finish endless q a = rw a.same (record { same = refl; even = tt })

-- `eval_mm_speed` ends as `eval_mm_util` does on every trace, in every state whose arrays are of one length:
-- it returns, ends the program or leaves the memory in the same cases, with the same heap and the same
-- blocks, but leaves the array of sizes as it was.
pub eval_mm_speed-unsized :
    {M : Type 0} (trace : Trace) (w : World M)
    → length w.blocks ≡ length w.block_sizes
    → eval_mm_speed trace w ≡ unsized w.block_sizes (eval_mm_util trace w)
unfolding eval_mm_speed eval_mm_util mem_reset_brk
eval_mm_speed-unsized trace w e =
    let v = record w { heap = record w.heap { mem_brk = w.heap.mem_start_brk } } in
    (call-Alike w.block_sizes (mm_init v.heap) v _ _ e
      λ started x g. started-Alike w.block_sizes trace started x g).same
