-- ===== src/Main/Arguments.antt =====
-- The options of `main` in mdriver.c, as `getopt` hands them over, and the check of the team.
use malloc_jt.Base.{
  ℕ, ◌+◌, Bool, true, false, not, ◌&&◌, ◌||◌, Option, none, some, List, [], ◌∷◌, ◌++◌, length, leb,
  ◌==◌, if◌then◌else◌,
}
use Prim.Native.Char.{code}
use Prim.Native.String.{String}
use malloc_jt.Machine.{Ptr, null}
use malloc_jt.Driver.{Libc, Run, give, crashed, stopped, ◌>>=◌, unix_error, libc_realloc, present}

abbrev pub Text : Type 0
Text = List ℕ

abbrev pub codes : String → Text
codes String.[] = []
codes (String.◌∷◌ c s) = code c ∷ codes s

-- The options -g, -f, -t, -a, -l, -v, -V and -h, with their arguments, and any other.
pub data Opt : Type 0 where
  autograde : Opt
  trace_file : Text → Opt
  trace_dir : Text → Opt
  no_team_check : Opt
  with_libc : Opt
  breakdowns : Opt
  debug_info : Opt
  help : Opt
  unknown : Opt

-- `tracefiles_at` is the array `tracefiles`, NULL at first; it holds one name, the copy that `strdup` makes of
-- the argument: the code does not check it, and here `strdup` always has memory for it.
pub record Options : Type 0 where
  pub tracefiles_at : Ptr
  pub tracefile : Text
  pub num_tracefiles : ℕ
  pub tracedir : Text
  pub team_check : Bool
  pub run_libc : Bool
  pub autograder : Bool
  pub verbose : ℕ

-- TRACEDIR and DEFAULT_TRACEFILES of config.h.
abbrev pub default_tracedir : Text
default_tracedir = codes "./traces/"

abbrev pub default_tracefiles : List Text
default_tracefiles =
    codes "binary-bal.rep"
    ∷ codes "binary2-bal.rep"
    ∷ codes "cccp-bal.rep"
    ∷ codes "coalescing-bal.rep"
    ∷ codes "cp-decl-bal.rep"
    ∷ codes "random-bal.rep"
    ∷ codes "random2-bal.rep"
    ∷ codes "realloc-bal.rep"
    ∷ codes "realloc2-bal.rep"
    ∷ []

abbrev pub start_options : Options
start_options = record {
  tracefiles_at = null;
  tracefile = [];
  num_tracefiles = 0;
  tracedir = default_tracedir;
  team_check = true;
  run_libc = false;
  autograder = false;
  verbose = 0;
}

-- The last byte of a text that is not empty.
unfoldable pub last_byte_of : Text → Option ℕ
last_byte_of [] = none
last_byte_of (x ∷ []) = some x
last_byte_of (x ∷ y ∷ ys) = last_byte_of (y ∷ ys)

-- `-t`: `tracedir` has MAXLINE bytes, and always ends with a slash.
unfoldable pub set_tracedir : {M : Type 0} → Text → Options → Run M Options
set_tracedir arg o = if leb 2048 (length arg) then (λ w. crashed) else do
  last ← present (last_byte_of arg)
  if last == 47
      then give (record o { tracedir = arg })
      else if leb 2048 (length arg + 1)
      then (λ w. crashed)
      else give (record o { tracedir = arg ++ (47 ∷ []) })

module _ {M : Type 0} (c : Libc M) where
  -- One option. Nothing is returned where the program ends with `exit(0)`.
  unfoldable pub apply_option : Opt → Options → Run M (Option Options)
  apply_option autograde o = give (some (record o { autograder = true }))
  apply_option (trace_file arg) o = do
    p ← libc_realloc c o.tracefiles_at 16
    if p == null
        then unix_error
        else give (
            some (record o {
              tracefiles_at = p;
              tracefile = arg;
              num_tracefiles = 1;
              tracedir = codes "./";
            }))
  apply_option (trace_dir arg) o =
      if o.num_tracefiles == 1 then give (some o) else (do o ← set_tracedir arg o; give (some o))
  apply_option no_team_check o = give (some (record o { team_check = false }))
  apply_option with_libc o = give (some (record o { run_libc = true }))
  apply_option breakdowns o = give (some (record o { verbose = 1 }))
  apply_option debug_info o = give (some (record o { verbose = 2 }))
  apply_option help o = give none
  apply_option unknown o = λ w. stopped w.reports

  unfoldable pub parse_options : List Opt → Options → Run M (Option Options)
  parse_options [] o = give (some o)
  parse_options (a ∷ args) o = do
    next ← apply_option a o
    elim next [ none ↦ give none | some o ↦ parse_options args o ]

-- `team_t` of mm.h.
pub record Team : Type 0 where
  pub teamname : Text
  pub name1 : Text
  pub id1 : Text
  pub name2 : Text
  pub id2 : Text

abbrev pub is_empty : Text → Bool
is_empty [] = true
is_empty (x ∷ xs) = false

-- The check of the team passes: a name, a first member, and a second one with all fields or none.
unfoldable pub team_filled : Team → Bool
team_filled t =
    not (is_empty t.teamname)
    && (not (is_empty t.name1 || is_empty t.id1)
        && not (
            (not (is_empty t.name2) && is_empty t.id2)
            || (is_empty t.name2 && not (is_empty t.id2))))

-- `team` of mm.c.
abbrev pub team : Team
team = record { teamname = []; name1 = []; id1 = []; name2 = []; id2 = [] }

-- What is printed of a team that passes.
pub data TeamLine : Type 0 where
  team_name : Text → TeamLine
  member_1 : (name : Text) → (id : Text) → TeamLine
  member_2 : (name : Text) → (id : Text) → TeamLine

unfoldable pub team_lines : Team → List TeamLine
team_lines t =
    team_name t.teamname
    ∷ member_1 t.name1 t.id1
    ∷ (if is_empty t.name2 then [] else member_2 t.name2 t.id2 ∷ [])

-- What `usage` prints, without the tabs at the start of its lines and the ends of lines.
abbrev pub usage : List Text
usage =
    codes "Usage: mdriver [-hvVal] [-f <file>] [-t <dir>]"
    ∷ codes "Options"
    ∷ codes "-a         Don't check the team structure."
    ∷ codes "-f <file>  Use <file> as the trace file."
    ∷ codes "-g         Generate summary info for autograder."
    ∷ codes "-h         Print this message."
    ∷ codes "-l         Run libc malloc as well."
    ∷ codes "-t <dir>   Directory to find default traces."
    ∷ codes "-v         Print per-trace performance breakdowns."
    ∷ codes "-V         Print additional debug info."
    ∷ []
