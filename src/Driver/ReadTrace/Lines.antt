-- ===== src/Driver/ReadTrace/Lines.antt =====
-- The loop of `read_trace` over the lines of a trace file.
use malloc_jt.Base.{
  larger, ℕ, zero, suc, ◌+◌, ◌^◌, ◌≤◌, ◌<◌, ◌≡◌, refl, arith, true, List, [], ◌∷◌, ◌++◌,
  append_assoc, append-nil, length, length-append, ltb, if◌then◌else◌, u32, int_gt, lt→ltb,
}
use malloc_jt.Driver.{RequestType, TraceOp, World, done}
use malloc_jt.Driver.ReadTrace.{Scanner, push_op, read_ops}
use malloc_jt.Driver.ReadTrace.Format.{Token, Reads, lines, as_stored, top, Narrow}

stored-append :
    (fresh : ℕ → ℕ) (sofar : List TraceOp) (x : TraceOp) (ops : List TraceOp)
    → (sofar ++ (x ∷ [])) ++ as_stored fresh (length (sofar ++ (x ∷ []))) ops
      ≡ sofar ++ (x ∷ as_stored fresh (suc (length sofar)) ops)
stored-append fresh sofar x ops =
    let e : length (sofar ++ (x ∷ [])) ≡ suc (length sofar) =
      omega (arith, length-append sofar (x ∷ [])) in
    rw e (append_assoc sofar (x ∷ []) (as_stored fresh (suc (length sofar)) ops))

module _ {F : Type 0} (sc : Scanner F) (text : F → List Token) (reads : Reads sc text) (num_ops : ℕ)
    (fresh : ℕ → ℕ) where
  -- The rest of the file is read, from `f` on.
  abbrev ReadsRest : Type 0 → ℕ → List TraceOp → Type 0
  ReadsRest M k ops =
      (f : F) (m : ℕ) (sofar : List TraceOp) (w : World M)
      → text f ≡ lines ops
      → m < 2 ^ 31
      → length sofar + length ops ≤ num_ops
      → read_ops sc num_ops fresh k f m sofar w
        ≡ done (larger m (top ops), sofar ++ as_stored fresh (length sofar) ops) w

  -- After one entry, with the larger maximum.
  read-next :
      {M : Type 0} (k : ℕ) (x : TraceOp) (ops : List TraceOp)
      → ReadsRest M k ops
      → (f : F) (m m' i : ℕ) (sofar : List TraceOp) (w : World M) → text f ≡ lines ops
      → m' < 2 ^ 31
      → m' ≡ larger m i
      → length sofar + suc (length ops) ≤ num_ops
      → read_ops sc num_ops fresh k f m' (sofar ++ (x ∷ [])) w
        ≡ done
            (larger m (larger i (top ops)), sofar ++ (x ∷ as_stored fresh (suc (length sofar)) ops))
            w
  read-next k x ops rest f m m' i sofar w t h e room =
      let maxima : larger m' (top ops) ≡ larger m (larger i (top ops)) = ground (arith, e) in
      rw
        (
          rest f m' (sofar ++ (x ∷ [])) w t h (omega (arith, length-append sofar (x ∷ []))),
          stored-append fresh sofar x ops,
          maxima,
        )
        refl

  -- `%u` and the comparison of two `int`s.
  new_maximum :
      (index m : ℕ)
      → index < 2 ^ 31
      → m < 2 ^ 31
      → ((if int_gt index m then index else m) ≡ larger m index)
        × ((if int_gt index m then index else m) < 2 ^ 31)
  new_maximum index m a b = (ground arith, ground arith)

  read-line :
      {M : Type 0} (k : ℕ) (type : RequestType) (index size : ℕ) (ops : List TraceOp)
      → index < 2 ^ 31
      → size < u32
      → ReadsRest M k ops
      → ReadsRest M (suc k) (record { type = type; index = index; size = size } ∷ ops)
  unfolding read_ops push_op
  read-line k RequestType.alloc index size ops small fine rest f m sofar w t h room =
      let a = reads.words f 97 _ t in
      let b = reads.unsigneds a.0 index _ (omega arith) a.2 in
      let c = reads.unsigneds b.0 size _ fine b.2 in
      let space : ltb (length sofar) num_ops ≡ true = lt→ltb _ _ (omega arith) in
      let n = new_maximum index m small h in
      rw (read_ops, a.1, b.1, c.1, push_op, space)
        (read-next k _ ops rest c.0 m _ index sofar w c.2 n.1 n.0 room)
  read-line k RequestType.realloc index size ops small fine rest f m sofar w t h room =
      let a = reads.words f 114 _ t in
      let b = reads.unsigneds a.0 index _ (omega arith) a.2 in
      let c = reads.unsigneds b.0 size _ fine b.2 in
      let space : ltb (length sofar) num_ops ≡ true = lt→ltb _ _ (omega arith) in
      let n = new_maximum index m small h in
      rw (read_ops, a.1, b.1, c.1, push_op, space)
        (read-next k _ ops rest c.0 m _ index sofar w c.2 n.1 n.0 room)
  read-line k RequestType.free index size ops small fine rest f m sofar w t h room =
      let a = reads.words f 102 _ t in
      let b = reads.unsigned_ds a.0 index _ (omega arith) a.2 in
      let space : ltb (length sofar) num_ops ≡ true = lt→ltb _ _ (omega arith) in
      rw (read_ops, a.1, b.1, push_op, space)
        (read-next k _ ops rest b.0 m m 0 sofar w b.2 h (ground arith) room)

  pub read-lines :
      {M : Type 0} (k : ℕ) (ops : List TraceOp) → length ops < k → Narrow ops → ReadsRest M k ops
  unfolding read_ops
  read-lines zero ops few n = absurd (omega arith)
  read-lines (suc k) [] few n = λ f m sofar w t h room.
      let none_larger : larger m 0 ≡ m = ground arith in
      rw (read_ops, reads.at_end f t, none_larger, append-nil sofar) refl
  read-lines (suc k) (op ∷ ops) few n =
      read-line k op.type op.index op.size ops n.0 n.1 (read-lines k ops (omega arith) n.2)
