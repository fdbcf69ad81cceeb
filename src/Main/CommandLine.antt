-- ===== src/Main/CommandLine.antt =====
-- What the options of `main` come to, described by what stands among them.
pub mod Reading
use malloc_jt.Base.{
  ℕ, ◌≤◌, ◌<◌, ◌≡◌, ◌≢◌, Bool, true, false, not, ◌&&◌, ◌||◌, Option, none, some, List, [], ◌∷◌,
  length, ◌==◌, if◌then◌else◌,
}
use malloc_jt.Machine.{null}
use malloc_jt.Driver.{World, Result, done}
use malloc_jt.Main.Arguments.{
  Text, codes, Opt, autograde, trace_file, trace_dir, no_team_check, with_libc, breakdowns,
  debug_info, help, unknown, Options, last_byte_of,
}

-- No -h and no unknown option; the directories fit in `tracedir` with a slash behind them.
unfoldable pub Known : List Opt → Type 0
Known [] = Unit {0}
Known (autograde ∷ os) = Known os
Known (trace_file x ∷ os) = Known os
Known (trace_dir x ∷ os) = (0 < length x) × (length x ≤ 2046) × Known os
Known (no_team_check ∷ os) = Known os
Known (with_libc ∷ os) = Known os
Known (breakdowns ∷ os) = Known os
Known (debug_info ∷ os) = Known os
Known (help ∷ os) = ⊥
Known (unknown ∷ os) = ⊥

-- Which of the options -g, -l and -a an option is.
abbrev pub is_autograde : Opt → Bool
is_autograde autograde = true
is_autograde other = false

abbrev pub is_with_libc : Opt → Bool
is_with_libc with_libc = true
is_with_libc other = false

abbrev pub is_no_team_check : Opt → Bool
is_no_team_check no_team_check = true
is_no_team_check other = false

abbrev pub has : (Opt → Bool) → List Opt → Bool
has test [] = false
has test (x ∷ os) = test x || has test os

-- The level of the last -v or -V.
abbrev pub level_of : Opt → ℕ → ℕ
level_of breakdowns n = 1
level_of debug_info n = 2
level_of other n = n

abbrev pub last_level : ℕ → List Opt → ℕ
last_level n [] = n
last_level n (x ∷ os) = last_level (level_of x n) os

-- The argument of the last -f.
abbrev pub file_of : Opt → Option Text → Option Text
file_of (trace_file x) f = some x
file_of other f = f

abbrev pub last_file : Option Text → List Opt → Option Text
last_file f [] = f
last_file f (x ∷ os) = last_file (file_of x f) os

-- A path with a slash at its end.
abbrev pub slashed : Text → Text
slashed [] = []
slashed (x ∷ []) = if x == 47 then x ∷ [] else x ∷ 47 ∷ []
slashed (x ∷ y ∷ ys) = x ∷ slashed (y ∷ ys)

-- The argument of the last -t, with a slash.
abbrev pub dir_of : Opt → Text → Text
dir_of (trace_dir x) d = slashed x
dir_of other d = d

abbrev pub last_dir : Text → List Opt → Text
last_dir d [] = d
last_dir d (x ∷ os) = last_dir (dir_of x d) os

-- The traces to run: those of the directory, or the one file of -f, which is relative to the current
-- directory, whatever -t says.
abbrev pub Picks : Option Text → Text → Options → Type 0
Picks none dir o = (o.tracefiles_at ≡ null) × (o.num_tracefiles ≡ 0) × (o.tracedir ≡ dir)
Picks (some x) dir o =
    (o.tracefiles_at ≢ null)
    × (o.num_tracefiles ≡ 1)
    × (o.tracefile ≡ x)
    × (o.tracedir ≡ codes "./")

-- The options that come out, and that only the C library's memory has changed.
pub record Parsed {M : Type 0} (args : List Opt) (o : Options) (file : Option Text) (dir : Text)
    (w : World M) (r : Result M (Option Options)) : Type 0 where
  pub options : Options
  pub memory : M
  pub returns : r ≡ done (some options) (record w { libc = memory })
  pub autograder : options.autograder ≡ (o.autograder || has is_autograde args)
  pub run_libc : options.run_libc ≡ (o.run_libc || has is_with_libc args)
  pub team_check : options.team_check ≡ (o.team_check && not (has is_no_team_check args))
  pub verbose : options.verbose ≡ last_level o.verbose args
  pub picks : Picks (last_file file args) (last_dir dir args) options
  pub slash : last_byte_of options.tracedir ≡ some 47
