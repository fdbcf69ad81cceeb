-- ===== src/Main/Results/Tables.antt =====
-- The table of `printresults` when all traces are valid.
use malloc_jt.Base.{ℕ, suc, ◌≡◌, refl, true, List, [], ◌∷◌, ◌++◌, length}
use malloc_jt.Timing.{Double}
use malloc_jt.Main.Results.{
  Stats, Totals, no_totals, Line, heading, valid_trace, sum_line, kops, percent, add_totals, total,
  valid_totals, trace_lines, printresults,
}

abbrev pub AllValid : {D : Type 0} → List (Stats D) → Type 0
AllValid [] = Unit {0}
AllValid (s ∷ ss) = (s.valid ≡ true) × AllValid ss

module _ {D : Type 0} (d : Double D) where
  -- A line with numbers for each trace, from trace `i` on.
  abbrev pub valid_lines : ℕ → List (Stats D) → List (Line D)
  valid_lines i [] = []
  valid_lines i (s ∷ ss) =
      valid_trace i (percent d s.util) s.ops s.secs (kops d s.ops s.secs) ∷ valid_lines (suc i) ss

  -- The heading, these lines, and the sums of all traces, with the mean of the utilizations.
  abbrev pub full_table : List (Stats D) → List (Line D)
  full_table ss =
      let r = total d ss in
      heading
      ∷ (valid_lines 0 ss
          ++ (sum_line (percent d (d.div r.util (d.of_long (length ss)))) r.ops r.secs
                (kops d r.ops r.secs)
              ∷ []))

  trace_lines-valid_lines :
      (i : ℕ) (ss : List (Stats D)) → AllValid ss → trace_lines d i ss ≡ valid_lines i ss
  unfolding trace_lines
  trace_lines-valid_lines i [] all = refl
  trace_lines-valid_lines i (s ∷ ss) all =
      rw (trace_lines, all.0, trace_lines-valid_lines (suc i) ss all.1) refl

  valid_totals-add_totals :
      (ss : List (Stats D)) (r : Totals D) → AllValid ss → valid_totals d ss r ≡ add_totals d ss r
  unfolding valid_totals add_totals
  valid_totals-add_totals [] r all = refl
  valid_totals-add_totals (s ∷ ss) r all =
      rw (valid_totals, add_totals, all.0) (valid_totals-add_totals ss _ all.1)

  -- Without errors, and with valid traces alone, the sums are those that `main` takes its index from.
  pub printresults-full_table :
      (ss : List (Stats D)) → AllValid ss → printresults d 0 ss ≡ full_table ss
  unfolding printresults total
  printresults-full_table ss all =
      rw
        (
          printresults,
          trace_lines-valid_lines 0 ss all,
          valid_totals-add_totals ss (no_totals d) all,
        )
        refl
