-- ===== src/Driver/Standard/Served.antt =====
-- A trace that plays by the rules runs to its end on a C library whose memory does not run out.
use malloc_jt.Base.{
  ℕ, ◌<◌, ◌≡◌, refl, ◌∙◌, arith, inl, inr, Bool, true, false, List, [], ◌∷◌, length, ◌==◌,
  Bool-cases,
}
use malloc_jt.Machine.{null}
use malloc_jt.Driver.{Libc, RequestType, TraceOp, Trace, World, Result, done, to_size_t, set_block}
use malloc_jt.Driver.Arrays.{get_elem?-some, set_elem?-Written}
use malloc_jt.Driver.Live.{set_alive}
use malloc_jt.Driver.Valid.Passes.{Stays, Stays-then, nobody}
use malloc_jt.Driver.Valid.Requests.{Generous, Regrants, Plays, Allowed, alive_after}
use malloc_jt.Driver.Standard.{libc_speed_op, libc_speed_ops, eval_libc_speed, eval_libc_valid}
use malloc_jt.Driver.Standard.Agree.{
  Agrees, both_return, both_crash, malloc_fails, realloc_fails, eval_libc_valid-eval_libc_speed,
}

-- The ids of all requests are below `n`.
abbrev Inside : ℕ → List TraceOp → Type 0
Inside n [] = Unit {0}
Inside n (op ∷ ops) = (op.index < n) × Inside n ops

index-lt :
    (n : ℕ) (alive : ℕ → Bool) (type : RequestType) (index size : ℕ)
    → ((j : ℕ) → alive j ≡ true → j < n)
    → Allowed n alive type index size
    → index < n
index-lt n alive RequestType.alloc index size below a = a.1
index-lt n alive RequestType.realloc index size below a = a.1
index-lt n alive RequestType.free index size below a = below index a

set_alive-lt :
    (n : ℕ) (alive : ℕ → Bool) (index j : ℕ) (b : Bool)
    → ((j : ℕ) → alive j ≡ true → j < n)
    → index < n
    → set_alive alive index b j ≡ true
    → j < n
set_alive-lt n alive index j b below h e = elim (Bool-cases (j == index)) [
  | inl y ↦ ground (arith, y, h)
  | inr y ↦ below j (rw y at e)
]

alive_after-lt :
    (n : ℕ) (alive : ℕ → Bool) (type : RequestType) (index j : ℕ)
    → ((j : ℕ) → alive j ≡ true → j < n)
    → index < n
    → alive_after alive type index j ≡ true
    → j < n
alive_after-lt n alive RequestType.alloc index j below h e =
    set_alive-lt n alive index j true below h e
alive_after-lt n alive RequestType.realloc index j below h e =
    set_alive-lt n alive index j true below h e
alive_after-lt n alive RequestType.free index j below h e =
    set_alive-lt n alive index j false below h e

Plays-Inside :
    (n : ℕ) (alive : ℕ → Bool) (ops : List TraceOp)
    → ((j : ℕ) → alive j ≡ true → j < n)
    → Plays n alive ops
    → Inside n ops
Plays-Inside n alive [] below plays = tt
Plays-Inside n alive (op ∷ ops) below plays =
    let h = index-lt n alive op.type op.index op.size below plays.0 in
    (
      h,
      Plays-Inside n (alive_after alive op.type op.index) ops
          (λ j e. alive_after-lt n alive op.type op.index j below h e) plays.1,
    )

-- Where the timed function returns, the checked one does.
returned-Agrees :
    {M A B : Type 0} (w v : World M) (tracenum first : ℕ) (ops : List TraceOp) (a : A) (b : B)
    (valid : Result M A) (speed : Result M B)
    → Agrees w tracenum first ops a b valid speed
    → speed ≡ done b v
    → valid ≡ done a v
returned-Agrees w v tracenum first ops a b valid speed (both_return u g h k) e = cc (g, h, e)
returned-Agrees w v tracenum first ops a b valid speed (both_crash g h) e = cc (h, e)
returned-Agrees w v tracenum first ops a b valid speed (malloc_fails f l index size n o m g h) e =
    cc (h, e)
returned-Agrees w v tracenum first ops a b valid speed (realloc_fails f l index size n o m g h) e =
    cc (h, e)

-- A step after a call of the C library.
Stays-libc :
    {M A : Type 0} {n : ℕ} {w : World M} (m : M) {a : A} {r q : Result M A}
    → Stays n (record w { libc = m }) a q
    → r ≡ q
    → Stays n w a r
Stays-libc m s e = record {
  world = s.world;
  returns = e ∙ s.returns;
  errors = s.errors;
  reports = s.reports;
  blocks = s.blocks;
  block_sizes = s.block_sizes;
  same_arena = s.same_arena;
}

module _ {M : Type 0} (n : ℕ) where
  set_block-Stays :
      (index p : ℕ) (w : World M)
      → index < n
      → length w.blocks ≡ n
      → length w.block_sizes ≡ n
      → Stays n w tt (set_block index p w)
  set_block-Stays index p w h e f =
      let b = set_elem?-Written w.blocks index p (omega (arith, h, e)) in
      record {
        world = record w { blocks = b.array };
        returns = rw (set_block, b.returns) refl;
        errors = refl;
        reports = refl;
        blocks = b.size ∙ e;
        block_sizes = f;
        same_arena = (refl, refl);
      }

module _ {M : Type 0} (c : Libc M) (generous : Generous c) (regrants : Regrants c) (n : ℕ) where
  libc_speed_op-Stays :
      (type : RequestType) (index size : ℕ) (w : World M)
      → index < n
      → length w.blocks ≡ n
      → length w.block_sizes ≡ n
      → Stays n w tt (libc_speed_op c (record { type = type; index = index; size = size }) w)
  unfolding libc_speed_op
  libc_speed_op-Stays RequestType.alloc index size w h e f =
      let r = c.malloc (to_size_t size) w.libc in
      let y : (r.0 == null) ≡ false = ground (arith, generous (to_size_t size) w.libc) in
      Stays-libc r.1 (set_block-Stays n index r.0 (record w { libc = r.1 }) h e f) (rw y refl)
  libc_speed_op-Stays RequestType.realloc index size w h e f =
      let p = get_elem?-some w.blocks index (omega (arith, h, e)) in
      let r = c.realloc p.0 (to_size_t size) w.libc in
      let y : (r.0 == null) ≡ false = ground (arith, regrants p.0 (to_size_t size) w.libc) in
      Stays-libc r.1 (set_block-Stays n index r.0 (record w { libc = r.1 }) h e f)
        (rw (p.1, y) refl)
  libc_speed_op-Stays RequestType.free index size w h e f =
      let p = get_elem?-some w.blocks index (omega (arith, h, e)) in
      record {
        world = record w { libc = c.free p.0 w.libc };
        returns = rw p.1 refl;
        errors = refl;
        reports = refl;
        blocks = e;
        block_sizes = f;
        same_arena = (refl, refl);
      }

  libc_speed_ops-Stays :
      (ops : List TraceOp) (w : World M)
      → Inside n ops
      → length w.blocks ≡ n
      → length w.block_sizes ≡ n
      → Stays n w tt (libc_speed_ops c ops w)
  unfolding libc_speed_ops
  libc_speed_ops-Stays [] w inside e f = record {
    world = w;
    returns = refl;
    errors = refl;
    reports = refl;
    blocks = e;
    block_sizes = f;
    same_arena = (refl, refl);
  }
  libc_speed_ops-Stays (op ∷ ops) w inside e f =
      let s = libc_speed_op-Stays op.type op.index op.size w inside.0 e f in
      Stays-then s (libc_speed_ops-Stays ops s.world inside.1 s.blocks s.block_sizes)
        (rw (libc_speed_ops, s.returns) refl)

  -- What is timed, and what is checked: both return, and report no error.
  module _ (trace : Trace) (plays : Plays n nobody trace.ops) (w : World M)
      (e : length w.blocks ≡ n) (f : length w.block_sizes ≡ n) where
    pub eval_libc_speed-Stays : Stays n w tt (eval_libc_speed c trace w)
    unfolding eval_libc_speed
    eval_libc_speed-Stays =
        libc_speed_ops-Stays trace.ops w
          (Plays-Inside n nobody trace.ops (λ j e. ground (arith, e)) plays) e f

    pub eval_libc_valid-Stays : (tracenum : ℕ) → Stays n w true (eval_libc_valid c trace tracenum w)
    eval_libc_valid-Stays tracenum =
        let s = eval_libc_speed-Stays in
        record {
          world = s.world;
          returns =
              returned-Agrees w s.world tracenum 0 trace.ops true tt _ _
                (eval_libc_valid-eval_libc_speed c tracenum trace w) s.returns;
          errors = s.errors;
          reports = s.reports;
          blocks = s.blocks;
          block_sizes = s.block_sizes;
          same_arena = s.same_arena;
        }
