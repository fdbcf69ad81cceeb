-- ===== src/Driver/Standard/Agree.antt =====
-- `eval_libc_valid` against `eval_libc_speed`: what is timed does what the checked function does, and
-- says less when memory runs out.
use malloc_jt.Base.{
  ℕ, suc, ◌+◌, ◌⊎◌, Option-cases, ◌≡◌, inl, inr, refl, ap, ◌∙◌, arith, true, List, [], ◌∷◌, ◌++◌,
  append_assoc, length, ◌==◌, Bool-cases,
}
use malloc_jt.Machine.{null}
use malloc_jt.Driver.{
  Libc, RequestType, TraceOp, Trace, malloc_failed, realloc_failed, World, Result, done, crashed,
  stopped, give, then_run, get_elem?, set_elem?, set_block, to_size_t, malloc_error,
}
use malloc_jt.Driver.Valid.Short.{request, report}
use malloc_jt.Driver.Standard.{
  libc_valid_op, libc_valid_ops, eval_libc_valid, libc_speed_op, libc_speed_ops, eval_libc_speed,
}

-- How the two functions end on the same requests, from the request `first` on.
pub data Agrees {M A B : Type 0} (w : World M) (tracenum first : ℕ) (ops : List TraceOp) (a : A)
    (b : B) (valid : Result M A) (speed : Result M B) : Type 0 where
  both_return :
      (v : World M)
      → valid ≡ done a v
      → speed ≡ done b v
      → v.reports ≡ w.reports
      → Agrees w tracenum first ops a b valid speed
  both_crash : valid ≡ crashed → speed ≡ crashed → Agrees w tracenum first ops a b valid speed
  malloc_fails :
      (before after : List TraceOp) (index size opnum : ℕ)
      → ops ≡ before ++ (request RequestType.alloc index size ∷ after)
      → opnum ≡ first + length before
      → valid ≡ stopped (report tracenum opnum malloc_failed ∷ w.reports)
      → speed ≡ stopped w.reports
      → Agrees w tracenum first ops a b valid speed
  realloc_fails :
      (before after : List TraceOp) (index size opnum : ℕ)
      → ops ≡ before ++ (request RequestType.realloc index size ∷ after)
      → opnum ≡ first + length before
      → valid ≡ stopped (report tracenum opnum realloc_failed ∷ w.reports)
      → speed ≡ stopped w.reports
      → Agrees w tracenum first ops a b valid speed

-- Both functions go on in the same way.
same-Agrees :
    {M A : Type 0} (w : World M) (tracenum first : ℕ) (ops : List TraceOp) (a : A)
    (valid speed r : Result M A)
    → ((v : World M) × (r ≡ done a v) × (v.reports ≡ w.reports)) ⊎ (r ≡ crashed)
    → valid ≡ r
    → speed ≡ r
    → Agrees w tracenum first ops a a valid speed
same-Agrees w tracenum first ops a valid speed r (inl h) e f =
    both_return h.0 (e ∙ h.1) (f ∙ h.1) h.2
same-Agrees w tracenum first ops a valid speed r (inr h) e f = both_crash (e ∙ h) (f ∙ h)

-- Requests behind those at which memory ran out.
split_front :
    (op : TraceOp) (ops before after : List TraceOp)
    → op ∷ [] ≡ before ++ after
    → op ∷ ops ≡ before ++ (after ++ ops)
split_front op ops before after e = ap (λ l. l ++ ops) e ∙ append_assoc before after ops

-- One request in front, which both functions serve.
Agrees-cons :
    {M A B : Type 0} (w u : World M) (tracenum first : ℕ) (op : TraceOp) (ops : List TraceOp)
    (a : A) (b : B) (valid valid_rest : Result M A) (speed speed_rest : Result M B)
    → valid ≡ valid_rest
    → speed ≡ speed_rest
    → u.reports ≡ w.reports
    → Agrees u tracenum (suc first) ops a b valid_rest speed_rest
    → Agrees w tracenum first (op ∷ ops) a b valid speed
Agrees-cons w u tracenum first op ops a b valid vr speed sr e f k (both_return v g h r) =
    both_return v (e ∙ g) (f ∙ h) (r ∙ k)
Agrees-cons w u tracenum first op ops a b valid vr speed sr e f k (both_crash g h) =
    both_crash (e ∙ g) (f ∙ h)
Agrees-cons w u tracenum first op ops a b valid vr speed sr e f k
      (malloc_fails before after index size opnum o n g h) =
    malloc_fails (op ∷ before) after index size opnum (ap (λ l. op ∷ l) o) (omega (arith, n))
      (e ∙ g ∙ ap (λ l. stopped (report tracenum opnum malloc_failed ∷ l)) k) (f ∙ h ∙ ap stopped k)
Agrees-cons w u tracenum first op ops a b valid vr speed sr e f k
      (realloc_fails before after index size opnum o n g h) =
    realloc_fails (op ∷ before) after index size opnum (ap (λ l. op ∷ l) o) (omega (arith, n))
      (e ∙ g ∙ ap (λ l. stopped (report tracenum opnum realloc_failed ∷ l)) k)
      (f ∙ h ∙ ap stopped k)

module _ {M : Type 0} where
  set_block-cases :
      (index p : ℕ) (w : World M)
      → ((v : World M) × (set_block index p w ≡ done tt v) × (v.reports ≡ w.reports))
        ⊎ (set_block index p w ≡ crashed)
  set_block-cases index p w = elim (Option-cases (set_elem? w.blocks index p)) [
    | inl e ↦ inr (rw (set_block, e) refl)
    | inr f ↦ inl (record w { blocks = f.0 }, rw (set_block, f.1) refl, refl)
  ]

module _ {M : Type 0} (c : Libc M) (tracenum : ℕ) where
  op-Agrees :
      (i : ℕ) (type : RequestType) (index size : ℕ) (w : World M)
      → Agrees w tracenum i
          (request type index size ∷ [])
          tt
          tt
          (libc_valid_op c tracenum i (request type index size) w)
          (libc_speed_op c (request type index size) w)
  unfolding libc_valid_op libc_speed_op malloc_error
  op-Agrees i RequestType.alloc index size w =
      let r = c.malloc (to_size_t size) w.libc in
      elim (Bool-cases (r.0 == null)) [
        | inl y ↦ malloc_fails [] [] index size i refl (omega arith) (rw y refl) (rw y refl)
        | inr y ↦
            same-Agrees w tracenum i _ tt _ _ (set_block index r.0 (record w { libc = r.1 }))
              (set_block-cases index r.0 (record w { libc = r.1 })) (rw y refl) (rw y refl)
      ]
  op-Agrees i RequestType.realloc index size w = elim (Option-cases (get_elem? w.blocks index)) [
    | inl e ↦ both_crash (rw e refl) (rw e refl)
    | inr f ↦
        let r = c.realloc f.0 (to_size_t size) w.libc in
        elim (Bool-cases (r.0 == null)) [
          | inl y ↦
              realloc_fails [] [] index size i refl (omega arith) (rw (f.1, y) refl)
                (rw (f.1, y) refl)
          | inr y ↦
              same-Agrees w tracenum i _ tt _ _ (set_block index r.0 (record w { libc = r.1 }))
                (set_block-cases index r.0 (record w { libc = r.1 })) (rw (f.1, y) refl)
                (rw (f.1, y) refl)
        ]
  ]
  op-Agrees i RequestType.free index size w = elim (Option-cases (get_elem? w.blocks index)) [
    | inl e ↦ both_crash (rw e refl) (rw e refl)
    | inr f ↦ both_return (record w { libc = c.free f.0 w.libc }) (rw f.1 refl) (rw f.1 refl) refl
  ]

  -- What comes after one request.
  next-Agrees :
      (i : ℕ) (op : TraceOp) (ops : List TraceOp) (w : World M) {a : Unit {0}}
      {r q : Result M (Unit {0})}
      → ((u : World M)
          → Agrees u tracenum
              (suc i)
              ops
              tt
              tt
              (libc_valid_ops c tracenum (suc i) ops u)
              (libc_speed_ops c ops u))
      → Agrees w tracenum i (op ∷ []) tt tt r q
      → Agrees w tracenum i
          (op ∷ ops)
          tt
          tt
          (then_run r λ x. libc_valid_ops c tracenum (suc i) ops)
          (then_run q λ x. libc_speed_ops c ops)
  next-Agrees i op ops w rest (both_return v g h r) =
      Agrees-cons w v tracenum i op ops tt tt _ _ _ _ (rw g refl) (rw h refl) r (rest v)
  next-Agrees i op ops w rest (both_crash g h) = both_crash (rw g refl) (rw h refl)
  next-Agrees i op ops w rest (malloc_fails before after index size n o e g h) =
      malloc_fails before (after ++ ops) index size n (split_front op ops before _ o) e (rw g refl)
        (rw h refl)
  next-Agrees i op ops w rest (realloc_fails before after index size n o e g h) =
      realloc_fails before (after ++ ops) index size n (split_front op ops before _ o) e (rw g refl)
        (rw h refl)

  ops-Agrees :
      (i : ℕ) (ops : List TraceOp) (w : World M)
      → Agrees w tracenum i ops tt tt (libc_valid_ops c tracenum i ops w) (libc_speed_ops c ops w)
  unfolding libc_valid_ops libc_speed_ops
  ops-Agrees i [] w = both_return w refl refl refl
  ops-Agrees i (op ∷ ops) w =
      next-Agrees i op ops w (ops-Agrees (suc i) ops) (op-Agrees i op.type op.index op.size w)

-- The answer 1 in the end.
answer-Agrees :
    {M : Type 0} (w : World M) (tracenum first : ℕ) (ops : List TraceOp) (r q : Result M (Unit {0}))
    → Agrees w tracenum first ops tt tt r q
    → Agrees w tracenum first ops true tt (then_run r λ x. give true) q
answer-Agrees w tracenum first ops r q (both_return v g h k) = both_return v (rw g refl) h k
answer-Agrees w tracenum first ops r q (both_crash g h) = both_crash (rw g refl) h
answer-Agrees w tracenum first ops r q (malloc_fails before after index size n o e g h) =
    malloc_fails before after index size n o e (rw g refl) h
answer-Agrees w tracenum first ops r q (realloc_fails before after index size n o e g h) =
    realloc_fails before after index size n o e (rw g refl) h

module _ {M : Type 0} (c : Libc M) (tracenum : ℕ) where
  -- On every trace and in every state the checked function and the timed one end alike: both return, in
  -- the same state and with no report added, `eval_libc_valid` with the answer 1; or both read or write
  -- beyond the arrays of the trace; or the C library refuses an ALLOC or a REALLOC and both end the
  -- program, `eval_libc_valid` after a report that names the trace, the request and the call, and
  -- `eval_libc_speed` with none.
  pub eval_libc_valid-eval_libc_speed :
      (trace : Trace) (w : World M)
      → Agrees w tracenum 0 trace.ops true tt
          (eval_libc_valid c trace tracenum w)
          (eval_libc_speed c trace w)
  unfolding eval_libc_valid eval_libc_speed
  eval_libc_valid-eval_libc_speed trace w =
      answer-Agrees w tracenum 0 trace.ops _ _ (ops-Agrees c tracenum 0 trace.ops w)
