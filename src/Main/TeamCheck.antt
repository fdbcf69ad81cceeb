-- ===== src/Main/TeamCheck.antt =====
-- The check of the team in `main`, with the team of mm.c.
use malloc_jt.Base.{ℕ, ◌≡◌, inl, inr, refl, true, Option, some, List, [], ◌∷◌, ◌==◌, Bool-cases}
use malloc_jt.Machine.{null}
use malloc_jt.Driver.{Libc, World, Report, Result, done, stopped}
use malloc_jt.Timing.{Double, Clocks, Timing}
use malloc_jt.Timing.Clock.{Platform}
use malloc_jt.Timing.Wrappers.{Method}
use malloc_jt.Main.{Host, main}
use malloc_jt.Main.Arguments.{
  Opt, autograde, trace_file, trace_dir, no_team_check, with_libc, breakdowns, debug_info, help,
  unknown, Options, start_options, apply_option, parse_options, team, team_filled,
}

-- Only -g, -f, -l, -v and -V are among the options.
unfoldable pub Plain : List Opt → Type 0
Plain [] = Unit {0}
Plain (autograde ∷ os) = Plain os
Plain (trace_file x ∷ os) = Plain os
Plain (trace_dir x ∷ os) = ⊥
Plain (no_team_check ∷ os) = ⊥
Plain (with_libc ∷ os) = Plain os
Plain (breakdowns ∷ os) = Plain os
Plain (debug_info ∷ os) = Plain os
Plain (help ∷ os) = ⊥
Plain (unknown ∷ os) = ⊥

-- The options have been read, and the team is to be checked; or the program has ended.
data Checks {M : Type 0} (reports : List Report) (r : Result M (Option Options)) : Type 0 where
  ends : r ≡ stopped reports → Checks reports r
  reads :
      (o : Options) (w : World M)
      → r ≡ done (some o) w
      → o.team_check ≡ true
      → w.reports ≡ reports
      → Checks reports r

module _ {M : Type 0} (c : Libc M) where
  parse-Checks :
      (args : List Opt) (o : Options) (w : World M)
      → Plain args
      → o.team_check ≡ true
      → Checks w.reports (parse_options c args o w)
  unfolding parse_options apply_option Plain
  parse-Checks [] o w h e = reads o w refl e refl
  parse-Checks (autograde ∷ os) o w h e = parse-Checks os (record o { autograder = true }) w h e
  parse-Checks (trace_file x ∷ os) o w h e =
      elim (Bool-cases ((c.realloc o.tracefiles_at 16 w.libc).0 == null)) [
        | inl y ↦ ends (rw y)
        | inr y ↦
            rw y
              (parse-Checks os _ (record w { libc = (c.realloc o.tracefiles_at 16 w.libc).1 }) h e)
      ]
  parse-Checks (trace_dir x ∷ os) o w h e = absurd h
  parse-Checks (no_team_check ∷ os) o w h e = absurd h
  parse-Checks (with_libc ∷ os) o w h e = parse-Checks os (record o { run_libc = true }) w h e
  parse-Checks (breakdowns ∷ os) o w h e = parse-Checks os (record o { verbose = 1 }) w h e
  parse-Checks (debug_info ∷ os) o w h e = parse-Checks os (record o { verbose = 2 }) w h e
  parse-Checks (help ∷ os) o w h e = absurd h
  parse-Checks (unknown ∷ os) o w h e = absurd h

-- With the team of mm.c, whose fields are all empty, and the options -g, -f, -l, -v and -V alone,
-- `main` ends the program before any trace is run.
pub main-Plain :
    {D M F : Type 0} (d : Double D) (c : Libc M) (clocks : Clocks M) (p : Platform)
    (method : Method) (h : Host M F) (fuel : ℕ) (args : List Opt) (t : Timing D) (w : World M)
    → Plain args
    → main d c clocks p method h fuel team args t w ≡ stopped w.reports
unfolding main team_filled
main-Plain d c clocks p method h fuel args t w plain =
    elim (parse-Checks c args start_options w plain refl) [
      | ends e ↦ rw e
      | reads o v e checked same ↦ rw (e, checked, same)
    ]
