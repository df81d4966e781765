-- ===== src/Benchmark/Markdown/Verdict.antt =====
-- The verdict in the Markdown of tools/qualification-benchmark.py, and the exit status.
use envoy_modsecurity.Prelude.{
  ℕ, Bool, true, false, ◌≡◌, ◌≢◌, ◌↔◌, refl, ◌∙◌, List, [], ◌∷◌, map, arith, ◌==◌, nat_eq, list_eq,
}
use envoy_modsecurity.Prelude.Equality.{list_beq}
use envoy_modsecurity.Prelude.Lists.{contains, contains-append}
use envoy_modsecurity.Prelude.Text.{Str, codes}
use envoy_modsecurity.Benchmark.Workload.{Workload}
use envoy_modsecurity.Benchmark.Violations.{Floats}
use envoy_modsecurity.Benchmark.Main.{Outside, main, exit_status}
use envoy_modsecurity.Benchmark.Main.Ends.{main_ended}
use envoy_modsecurity.Benchmark.Markdown.{
  BenchmarkResult, benchmark_result, workload_line, violation_line, violation_lines, verdict_line,
  benchmark_lines, closing_lines,
}

abbrev pub pass_line : Str
pass_line = codes "Qualification: **PASS**"

no_pass_violations : (vs : List Str) → contains (map (violation_line) vs) pass_line ≡ false
unfolding contains list_beq
no_pass_violations [] = refl
no_pass_violations (v ∷ vs) = no_pass_violations vs

no_pass_list : (vs : List Str) → contains (violation_lines vs) pass_line ≡ false
unfolding contains list_beq
no_pass_list [] = refl
no_pass_list (v ∷ vs) = no_pass_violations (v ∷ vs)

contains-verdict_line : (b : Bool) → (pass_line == verdict_line b) ≡ b
unfolding list_beq
contains-verdict_line true = refl
contains-verdict_line false = refl

module _ {F : Type 0} (floats : Floats F) (median_ms : ℕ → F) where
  no_pass_workloads :
      (ws : List (Str × Workload F))
      → contains (map (workload_line floats median_ms) ws) pass_line ≡ false
  unfolding contains list_beq
  no_pass_workloads [] = refl
  no_pass_workloads ((name, w) ∷ ws) = no_pass_workloads ws

  contains-closing_lines :
      (result : BenchmarkResult F)
      → contains (closing_lines floats median_ms result) pass_line ≡ result.passed
  unfolding contains list_beq closing_lines
  contains-closing_lines result =
      ground (arith, contains-verdict_line result.passed, no_pass_list result.violations)

  contains-benchmark_lines :
      (result : BenchmarkResult F)
      → contains (benchmark_lines floats median_ms result) pass_line ≡ result.passed
  unfolding contains list_beq benchmark_lines
  contains-benchmark_lines result =
      contains-append (map (workload_line floats median_ms) result.workloads)
        (closing_lines floats median_ms result) pass_line
      ∙ rw (no_pass_workloads result.workloads) (contains-closing_lines result)

module _ {F : Type 0} (median_ms : ℕ → F) (o : Outside F) (generated_at platform : Str) where
  -- Where thresholds are enforced and the benchmark does not fail with status 2, its Markdown has
  -- the line of a pass exactly when the exit status is 0.
  pub verdict_lem :
      o.enforce ≡ true
      → exit_status (main o).0 ≢ 2
      → (contains
            (benchmark_lines o.floats median_ms (benchmark_result o generated_at platform))
            pass_line
          ≡ true)
        ↔ (exit_status (main o).0 ≡ 0)
  unfolding benchmark_result
  verdict_lem enforced e = ground (
    arith,
    contains-benchmark_lines o.floats median_ms (benchmark_result o generated_at platform),
    main_ended o e,
  )
