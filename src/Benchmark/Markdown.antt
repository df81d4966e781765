-- ===== src/Benchmark/Markdown.antt =====
-- `write_markdown` of tools/qualification-benchmark.py, and the result that `main` gives it. The
-- median of a workload is kept doubled, in nanoseconds; `median_ms` makes milliseconds of it.
pub mod Verdict
use envoy_modsecurity.Prelude.{ℕ, Bool, true, false, List, [], ◌∷◌, ◌++◌, map, if◌then◌else◌}
use envoy_modsecurity.Prelude.Lists.{is_empty}
use envoy_modsecurity.Prelude.Text.{Str, codes, decimal, join}
use envoy_modsecurity.Benchmark.Workload.{Workload}
use envoy_modsecurity.Benchmark.Violations.{Floats, message, violations}
use envoy_modsecurity.Benchmark.Main.{Outside, workloads, rss_growth, passed}

-- The dict `result`, where `write_markdown` reads it.
pub record BenchmarkResult (F : Type 0) : Type 0 where
  pub generated_at : Str
  pub platform : Str
  pub workloads : List (Str × Workload F)
  pub baseline_bytes : ℕ
  pub after_soak_bytes : ℕ
  pub growth_bytes : ℕ
  pub violations : List Str
  pub passed : Bool

unfoldable pub benchmark_result :
    {F : Type 0} → Outside F → (generated_at platform : Str) → BenchmarkResult F
unfolding message
benchmark_result o generated_at platform = record {
  generated_at = generated_at;
  platform = platform;
  workloads = workloads o;
  baseline_bytes = o.rss_baseline;
  after_soak_bytes = o.rss_after_soak;
  growth_bytes = rss_growth o;
  violations =
      map (message o.floats) (violations o.floats o.thresholds (workloads o) (rss_growth o));
  passed = passed o;
}

abbrev pub verdict_line : Bool → Str
verdict_line passed =
    if passed then codes "Qualification: **PASS**" else codes "Qualification: **FAIL**"

abbrev pub violation_line : Str → Str
violation_line value = codes "- " ++ value

abbrev pub violation_lines : List Str → List Str
violation_lines [] = []
violation_lines (v ∷ vs) = codes "Violations:" ∷ [] ∷ map violation_line (v ∷ vs)

module _ {F : Type 0} (floats : Floats F) (median_ms : ℕ → F) where
  -- The cells of a line of the table.
  unfoldable pub workload_cells : Str → Workload F → List Str
  workload_cells name w =
      name
      ∷ decimal w.requests
      ∷ decimal w.concurrency
      ∷ floats.fixed w.measured.throughput_rps
      ∷ floats.fixed w.measured.cpu_ms_per_request
      ∷ floats.fixed (median_ms w.doubled_median)
      ∷ floats.fixed (floats.milliseconds w.p95)
      ∷ floats.fixed (floats.milliseconds w.p99)
      ∷ floats.fixed (floats.milliseconds w.maximum)
      ∷ []

  abbrev pub workload_line : Str × Workload F → Str
  workload_line (name, w) = codes "| " ++ (join (codes " | ") (workload_cells name w) ++ codes " |")

  abbrev pub mebibytes : Str → ℕ → Str
  mebibytes label bytes = label ++ (floats.fixed (floats.mib_of_bytes bytes) ++ codes " MiB")

  -- What follows the table.
  unfoldable pub closing_lines : BenchmarkResult F → List Str
  closing_lines result =
      []
      ∷ mebibytes (codes "RSS baseline: ") result.baseline_bytes
      ∷ []
      ∷ mebibytes (codes "RSS after soak: ") result.after_soak_bytes
      ∷ []
      ∷ mebibytes (codes "RSS growth: ") result.growth_bytes
      ∷ []
      ∷ verdict_line result.passed
      ∷ []
      ∷ violation_lines result.violations

  unfoldable pub benchmark_lines : BenchmarkResult F → List Str
  unfolding workload_cells closing_lines
  benchmark_lines result =
      codes "# ModSecurity qualification benchmark"
      ∷ []
      ∷ (codes "Generated: " ++ result.generated_at)
      ∷ []
      ∷ (codes "Platform: `" ++ (result.platform ++ codes "`"))
      ∷ []
      ∷ codes
          "| Workload | Requests | Concurrency | Throughput (rps) | Envoy CPU (ms/request) | p50 (ms) | p95 (ms) | p99 (ms) | Max (ms) |"
      ∷ codes "| --- | ---: | ---: | ---: | ---: | ---: | ---: | ---: | ---: |"
      ∷ (map workload_line result.workloads ++ closing_lines result)

  unfoldable pub benchmark_markdown : BenchmarkResult F → Str
  unfolding benchmark_lines
  benchmark_markdown result = join (codes "\n") (benchmark_lines result)
