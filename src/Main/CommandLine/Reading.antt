-- ===== src/Main/CommandLine/Reading.antt =====
-- The loop of `main` over its options.
use malloc_jt.Base.{
  ℕ, ◌+◌, ◌≤◌, ◌<◌, ◌≡◌, inl, inr, refl, ap, ◌∙◌, arith, Bool, true, false, not, ◌&&◌, ◌||◌, Option,
  none, some, List, [], ◌∷◌, ◌++◌, length, leb, ◌==◌, if◌then◌else◌, Bool-cases, none≢some,
}
use malloc_jt.Machine.{null}
use malloc_jt.Driver.{Libc, World, done}
use malloc_jt.Main.Arguments.{
  Text, codes, Opt, autograde, trace_file, trace_dir, no_team_check, with_libc, breakdowns,
  debug_info, help, unknown, Options, default_tracedir, start_options, last_byte_of, set_tracedir,
  apply_option, parse_options,
}
use malloc_jt.Driver.Valid.Requests.{Regrants}
use malloc_jt.Main.CommandLine.{
  Known, is_autograde, is_with_libc, is_no_team_check, level_of, last_level, file_of, slashed,
  dir_of, Picks, Parsed,
}

-- The last byte, and the slash.
slashed_by :
    (x : ℕ) (xs : Text)
    → (b : ℕ) × (last_byte_of (x ∷ xs) ≡ some b)
      × (slashed (x ∷ xs) ≡ (if b == 47 then x ∷ xs else (x ∷ xs) ++ (47 ∷ [])))
unfolding last_byte_of
slashed_by x [] = (x, refl, refl)
slashed_by x (y ∷ ys) =
    let r = slashed_by y ys in
    (
      r.0,
      r.1,
      elim (Bool-cases (r.0 == 47)) [
        | inl e ↦ rw e (ap (λ (t : Text). x ∷ t) (r.2 ∙ rw e refl))
        | inr e ↦ rw e (ap (λ (t : Text). x ∷ t) (r.2 ∙ rw e refl))
      ],
    )

last_byte_of-cons :
    (x : ℕ) (t : Text) (b : ℕ) → last_byte_of t ≡ some b → last_byte_of (x ∷ t) ≡ some b
unfolding last_byte_of
last_byte_of-cons x [] b e = absurd (none≢some e)
last_byte_of-cons x (y ∷ ys) b e = e

last_byte_of-slashed : (x : ℕ) (xs : Text) → last_byte_of (slashed (x ∷ xs)) ≡ some 47
unfolding last_byte_of
last_byte_of-slashed x [] = elim (Bool-cases (x == 47)) [
  | inl e ↦ (let q : x ≡ 47 = ground arith in rw e (ap (λ (n : ℕ). some n) q))
  | inr e ↦ rw e refl
]
last_byte_of-slashed x (y ∷ ys) =
    last_byte_of-cons x (slashed (y ∷ ys)) 47 (last_byte_of-slashed y ys)

set_tracedir-slashed :
    {M : Type 0} (arg : Text) (o : Options) (w : World M)
    → 0 < length arg
    → length arg ≤ 2046
    → set_tracedir arg o w ≡ done (record o { tracedir = slashed arg }) w
unfolding set_tracedir
set_tracedir-slashed [] o w pos short = absurd (omega arith)
set_tracedir-slashed (x ∷ xs) o w pos short =
    let r = slashed_by x xs in
    let a : leb 2048 (length (x ∷ xs)) ≡ false = ground arith in
    let b : leb 2048 (length (x ∷ xs) + 1) ≡ false = ground arith in
    elim (Bool-cases (r.0 == 47)) [
      | inl e ↦ rw (a, r.1, r.2, e) refl
      | inr e ↦ rw (a, r.1, r.2, e, b) refl
    ]

-- The other options make no difference to the files.
Picks-flags :
    (file : Option Text) (dir : Text) (o : Options) (g l t : Bool) (n : ℕ)
    → Picks file dir o
    → Picks file dir (record o { autograder = g; run_libc = l; team_check = t; verbose = n })
Picks-flags none dir o g l t n p = p
Picks-flags (some x) dir o g l t n p = p

or_step : (p o x t : Bool) → p ≡ (o || x) → (p || t) ≡ (o || (x || t))
or_step p o x t e = ground (arith, e)

and_step : (p o x t : Bool) → p ≡ (o && not x) → (p && not t) ≡ (o && not (x || t))
and_step p o x t e = ground (arith, e)

module _ {M : Type 0} (c : Libc M) (regrants : Regrants c) where
  -- One option more in front.
  Parsed-cons :
      {x : Opt} {os : List Opt} {o p : Options} {file : Option Text} {dir : Text} {w v : World M}
      → apply_option c x o w ≡ done (some p) v
      → (m : M) → v ≡ record w { libc = m }
      → p.autograder ≡ (o.autograder || is_autograde x)
      → p.run_libc ≡ (o.run_libc || is_with_libc x)
      → p.team_check ≡ (o.team_check && not (is_no_team_check x))
      → p.verbose ≡ level_of x o.verbose
      → Parsed os p (file_of x file) (dir_of x dir) v (parse_options c os p v)
      → Parsed (x ∷ os) o file dir w (parse_options c (x ∷ os) o w)
  unfolding parse_options
  Parsed-cons {os = os} e m q g l a n r = record {
    options = r.options;
    memory = r.memory;
    returns = rw (parse_options, e, r.returns, q) refl;
    autograder = r.autograder ∙ or_step _ _ _ _ g;
    run_libc = r.run_libc ∙ or_step _ _ _ _ l;
    team_check = r.team_check ∙ and_step _ _ _ _ a;
    verbose = r.verbose ∙ ap (λ (k : ℕ). last_level k os) n;
    picks = r.picks;
    slash = r.slash;
  }

  parse-Parsed :
      (args : List Opt) (o : Options) (file : Option Text) (dir : Text) (w : World M)
      → Known args
      → Picks file dir o
      → last_byte_of o.tracedir ≡ some 47
      → Parsed args o file dir w (parse_options c args o w)
  unfolding parse_options apply_option Known last_byte_of
  parse-Parsed [] o file dir w k p e = record {
    options = o;
    memory = w.libc;
    returns = refl;
    autograder = ground arith;
    run_libc = ground arith;
    team_check = ground arith;
    verbose = refl;
    picks = p;
    slash = e;
  }
  parse-Parsed (autograde ∷ os) o file dir w k p e =
      let q = record o { autograder = true } in
      Parsed-cons {x = autograde} {o = o} {p = q} refl w.libc refl (ground arith) (ground arith)
        (ground arith) refl
        (parse-Parsed os q file dir w k
          (Picks-flags file dir o true o.run_libc o.team_check o.verbose p) e)
  parse-Parsed (trace_file x ∷ os) o file dir w k p e =
      let r = c.realloc o.tracefiles_at 16 w.libc in
      let fresh = regrants o.tracefiles_at 16 w.libc in
      let y : (r.0 == null) ≡ false = ground (arith, fresh) in
      let q = record o {
        tracefiles_at = r.0;
        tracefile = x;
        num_tracefiles = 1;
        tracedir = codes "./";
      } in
      let v = record w { libc = r.1 } in
      Parsed-cons {x = trace_file x} {o = o} {p = q} {v = v} (rw y refl) r.1 refl (ground arith)
        (ground arith) (ground arith) refl
        (parse-Parsed os q (some x) dir v k (fresh, refl, refl, refl) refl)
  parse-Parsed (trace_dir [] ∷ os) o file dir w k p e = absurd (omega (arith, k.0))
  parse-Parsed (trace_dir (x ∷ xs) ∷ os) o none dir w k p e =
      let q = record o { tracedir = slashed (x ∷ xs) } in
      let y : (o.num_tracefiles == 1) ≡ false = ground (arith, p.1) in
      Parsed-cons {x = trace_dir (x ∷ xs)} {o = o} {p = q}
        (rw (y, set_tracedir-slashed (x ∷ xs) o w k.0 k.1) refl) w.libc refl (ground arith)
        (ground arith) (ground arith) refl
        (parse-Parsed os q none (slashed (x ∷ xs)) w k.2 (p.0, p.1, refl)
          (last_byte_of-slashed x xs))
  parse-Parsed (trace_dir (x ∷ xs) ∷ os) o (some f) dir w k p e =
      let y : (o.num_tracefiles == 1) ≡ true = ground (arith, p.1) in
      Parsed-cons {x = trace_dir (x ∷ xs)} {o = o} {p = o} (rw y refl) w.libc refl (ground arith)
        (ground arith) (ground arith) refl (parse-Parsed os o (some f) (slashed (x ∷ xs)) w k.2 p e)
  parse-Parsed (no_team_check ∷ os) o file dir w k p e =
      let q = record o { team_check = false } in
      Parsed-cons {x = no_team_check} {o = o} {p = q} refl w.libc refl (ground arith) (ground arith)
        (ground arith) refl
        (parse-Parsed os q file dir w k
          (Picks-flags file dir o o.autograder o.run_libc false o.verbose p) e)
  parse-Parsed (with_libc ∷ os) o file dir w k p e =
      let q = record o { run_libc = true } in
      Parsed-cons {x = with_libc} {o = o} {p = q} refl w.libc refl (ground arith) (ground arith)
        (ground arith) refl
        (parse-Parsed os q file dir w k
          (Picks-flags file dir o o.autograder true o.team_check o.verbose p) e)
  parse-Parsed (breakdowns ∷ os) o file dir w k p e =
      let q = record o { verbose = 1 } in
      Parsed-cons {x = breakdowns} {o = o} {p = q} refl w.libc refl (ground arith) (ground arith)
        (ground arith) refl
        (parse-Parsed os q file dir w k
          (Picks-flags file dir o o.autograder o.run_libc o.team_check 1 p) e)
  parse-Parsed (debug_info ∷ os) o file dir w k p e =
      let q = record o { verbose = 2 } in
      Parsed-cons {x = debug_info} {o = o} {p = q} refl w.libc refl (ground arith) (ground arith)
        (ground arith) refl
        (parse-Parsed os q file dir w k
          (Picks-flags file dir o o.autograder o.run_libc o.team_check 2 p) e)
  parse-Parsed (help ∷ os) o file dir w k p e = absurd k
  parse-Parsed (unknown ∷ os) o file dir w k p e = absurd k

  -- The options come out as they stand in the arguments, in whatever order, but for the files: the last -f
  -- wins, and then -t counts for nothing; otherwise the last -t wins. A directory ends with a slash.
  -- No option is -h or unknown, the directories are from 1 to 2046 bytes long, and the C
  -- library's `realloc` never fails.
  pub parse_options-Parsed :
      (args : List Opt) (w : World M)
      → Known args
      → Parsed args start_options none default_tracedir w (parse_options c args start_options w)
  unfolding last_byte_of
  parse_options-Parsed args w k =
      parse-Parsed args start_options none default_tracedir w k (refl, refl, refl) refl
