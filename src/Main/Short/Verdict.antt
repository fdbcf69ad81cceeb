-- ===== src/Main/Short/Verdict.antt =====
-- What `main` prints in the end, when traces may not be valid.
use malloc_jt.Base.{
  ℕ, ◌⊎◌, zero, suc, ◌+◌, ◌≡◌, ◌≢◌, refl, ◌∙◌, ap, arith, inl, inr, Bool, false, Option, none, some,
  List, [], ◌∷◌, length, ◌==◌, ltb, if◌then◌else◌,
}
use malloc_jt.Driver.ReadTrace.Format.{Token}
use malloc_jt.Timing.{Double}
use malloc_jt.Main.{Host, Summary}
use malloc_jt.Main.Arguments.{Text, Options}
use malloc_jt.Main.Results.{
  Stats, perf_index_line, terminated, perf_index, Totals, add_totals, total, verdict_of,
  printresults,
}
use malloc_jt.Main.Short.Scores.{AllPlayed, Scored}

-- The traces that are valid, and those that are not, are all of them.
pub numcorrect-Scored :
    {D M F : Type 0} (d : Double D) (h : Host M F) (text : F → List Token) (fuel : ℕ)
    (tracedir : Text) (names : List Text) (played : AllPlayed h text fuel tracedir names)
    (ss : List (Stats D)) (k : ℕ) (r : Totals D)
    → Scored d h text fuel tracedir names played ss k
    → (add_totals d ss r).numcorrect + k ≡ length names + r.numcorrect
unfolding add_totals
numcorrect-Scored d h text fuel tracedir [] played [] k r scored = omega (arith, scored)
numcorrect-Scored d h text fuel tracedir [] played (s ∷ ss) k r scored = absurd scored
numcorrect-Scored d h text fuel tracedir (name ∷ names) played [] k r scored = absurd scored
numcorrect-Scored d h text fuel tracedir (name ∷ names) played (s ∷ ss) k r (inl a) =
    rw (add_totals, a.0.valid)
      (numcorrect-Scored d h text fuel tracedir names played.1 ss k _ a.1 ∙ omega arith)
numcorrect-Scored d h text fuel tracedir (name ∷ names) played (s ∷ ss) k r (inr a) =
    let valid : s.valid ≡ false = ap (λ s. s.valid) a.1 in
    let j = a.2.0 in
    rw (add_totals, valid, a.2.1)
      (omega (arith, numcorrect-Scored d h text fuel tracedir names played.1 ss j _ a.2.2))

-- What the program prints of `n` traces, of which `failures` are not valid: the index, or the number
-- of errors; with -v the table, with -g the number of valid traces and the index or zero.
pub record Tells {D : Type 0} (d : Double D) (dir : Option Text) (verbose : ℕ) (graded : Bool)
    (n failures : ℕ) (stats : List (Stats D)) (s : Summary D) : Type 0 where
  pub correct : ℕ
  pub all : correct + failures ≡ n
  pub default_dir : s.default_dir ≡ dir
  pub no_libc_lines : s.libc_lines ≡ []
  pub mm_lines : s.mm_lines ≡ (if ltb 0 verbose then printresults d failures stats else [])
  pub verdict :
      ((failures ≡ 0)
        × (s.verdict
            ≡ perf_index_line
                (d.mul (perf_index d n (total d stats)).p1 (d.of_long 100))
                (d.mul (perf_index d n (total d stats)).p2 (d.of_long 100))
                (perf_index d n (total d stats)).perfindex)
        × (s.graded
            ≡ (if graded then some (n, (perf_index d n (total d stats)).perfindex) else none)))
      ⊎ ((failures ≢ 0)
          × (s.verdict ≡ terminated failures)
          × (s.graded ≡ (if graded then some (correct, d.of_long 0) else none)))

abbrev pub told :
    {D : Type 0} (d : Double D)
    → Options
    → Option Text
    → (n failures : ℕ) → List (Stats D)
    → Summary D
told d o dir n failures stats =
    let sums = total d stats in
    let ending = verdict_of d n failures sums in
    record {
      default_dir = dir;
      libc_lines = [];
      mm_lines = if ltb 0 o.verbose then printresults d failures stats else [];
      verdict = ending.0;
      graded = if o.autograder then some (sums.numcorrect, ending.1) else none;
    }

pub told-Tells :
    {D : Type 0} (d : Double D) (o : Options) (dir : Option Text) (n failures : ℕ)
    (stats : List (Stats D))
    → (total d stats).numcorrect + failures ≡ n
    → Tells d dir o.verbose o.autograder n failures stats (told d o dir n failures stats)
unfolding verdict_of
told-Tells d o dir n zero stats all =
    let e : (total d stats).numcorrect ≡ n = omega (arith, all) in
    record {
      correct = (total d stats).numcorrect;
      all = all;
      default_dir = refl;
      no_libc_lines = refl;
      mm_lines = refl;
      verdict = inl (refl, refl, rw e refl);
    }
told-Tells d o dir n (suc k) stats all =
    let y : (suc k == 0) ≡ false = ground arith in
    record {
      correct = (total d stats).numcorrect;
      all = all;
      default_dir = refl;
      no_libc_lines = refl;
      mm_lines = refl;
      verdict = inr (ground arith, rw (verdict_of, y) refl, rw (verdict_of, y) refl);
    }
