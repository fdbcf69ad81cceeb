-- ===== src/Main/Results.antt =====
-- The statistics of mdriver.c: the totals, the performance index and what `printresults` prints.
pub mod Tables
use malloc_jt.Base.{ℕ, suc, Bool, List, [], ◌∷◌, ◌++◌, length, ◌==◌, if◌then◌else◌}
use malloc_jt.Timing.{Double}

-- `stats_t`
pub record Stats (D : Type 0) : Type 0 where
  pub ops : D
  pub valid : Bool
  pub secs : D
  pub util : D

-- A line of the table that `printresults` prints, with its numbers in the order of the columns.
pub data Line (D : Type 0) : Type 0 where
  heading : Line D
  valid_trace : ℕ → (util : D) → (ops : D) → (secs : D) → (kops : D) → Line D
  invalid_trace : ℕ → Line D
  sum_line : (util : D) → (ops : D) → (secs : D) → (kops : D) → Line D
  no_sums : Line D

pub record Totals (D : Type 0) : Type 0 where
  pub secs : D
  pub ops : D
  pub util : D
  pub numcorrect : ℕ

-- The two parts of the performance index, and the index.
pub record Perf (D : Type 0) : Type 0 where
  pub p1 : D
  pub p2 : D
  pub perfindex : D

-- The line with the performance index, or that with the number of errors.
pub data Verdict (D : Type 0) : Type 0 where
  perf_index_line : (util : D) → (thru : D) → (index : D) → Verdict D
  terminated : (errors : ℕ) → Verdict D

module _ {D : Type 0} (d : Double D) where
  abbrev pub no_totals : Totals D
  no_totals = record { secs = d.of_long 0; ops = d.of_long 0; util = d.of_long 0; numcorrect = 0 }

  -- The loop of `main` over the traces, from the totals so far.
  unfoldable pub add_totals : List (Stats D) → Totals D → Totals D
  add_totals [] r = r
  add_totals (s ∷ ss) r = add_totals ss (record {
    secs = d.add r.secs s.secs;
    ops = d.add r.ops s.ops;
    util = d.add r.util s.util;
    numcorrect = if s.valid then suc r.numcorrect else r.numcorrect;
  })

  unfoldable pub total : List (Stats D) → Totals D
  total ss = add_totals ss no_totals

  -- UTIL_WEIGHT and AVG_LIBC_THRUPUT of config.h.
  abbrev pub util_weight : D
  util_weight = d.decimal 60 2

  abbrev pub avg_libc_thruput : D
  avg_libc_thruput = d.decimal 800000 0

  unfoldable pub perf_index : ℕ → Totals D → Perf D
  perf_index n r =
      let avg_mm_util = d.div r.util (d.of_long n) in
      let avg_mm_throughput = d.div r.ops r.secs in
      let p1 = d.mul util_weight avg_mm_util in
      let rest = d.sub (d.decimal 10 1) util_weight in
      let p2 =
        if d.lt avg_libc_thruput avg_mm_throughput
        then rest
        else d.mul rest (d.div avg_mm_throughput avg_libc_thruput) in
      record { p1 = p1; p2 = p2; perfindex = d.mul (d.add p1 p2) (d.decimal 1000 1) }

  -- The verdict, and the index that -g prints.
  unfoldable pub verdict_of : ℕ → (errors : ℕ) → Totals D → Verdict D × D
  verdict_of n errors sums =
      if errors == 0
      then (let p = perf_index n sums in
          (
            perf_index_line (d.mul p.p1 (d.of_long 100)) (d.mul p.p2 (d.of_long 100)) p.perfindex,
            p.perfindex,
          ))
      else (terminated errors, d.of_long 0)

  abbrev pub kops : D → D → D
  kops ops secs = d.div (d.div ops (d.decimal 1000 0)) secs

  abbrev pub percent : D → D
  percent x = d.mul x (d.decimal 1000 1)

  -- The loop of `printresults`, from trace `i` on.
  unfoldable pub trace_lines : ℕ → List (Stats D) → List (Line D)
  trace_lines i [] = []
  trace_lines i (s ∷ ss) =
      (if s.valid
        then valid_trace i (percent s.util) s.ops s.secs (kops s.ops s.secs)
        else invalid_trace i)
      ∷ trace_lines (suc i) ss

  -- The sums of `printresults`: only valid traces count.
  unfoldable pub valid_totals : List (Stats D) → Totals D → Totals D
  valid_totals [] r = r
  valid_totals (s ∷ ss) r = valid_totals ss (
      if s.valid
      then record {
        secs = d.add r.secs s.secs;
        ops = d.add r.ops s.ops;
        util = d.add r.util s.util;
        numcorrect = suc r.numcorrect;
      }
      else r)

  unfoldable pub printresults : ℕ → List (Stats D) → List (Line D)
  printresults errors ss =
      let r = valid_totals ss no_totals in
      heading
      ∷ (trace_lines 0 ss
          ++ ((if errors == 0
                then sum_line (percent (d.div r.util (d.of_long (length ss)))) r.ops r.secs
                    (kops r.ops r.secs)
                else no_sums)
              ∷ []))
