-- ===== src/Benchmark/Tests.antt =====
-- Runs of tools/qualification-benchmark.py on small inputs, and its theorems at them. A float is a
-- natural number here.
use envoy_modsecurity.Prelude.{
  ℕ, ◌*◌, ◌/◌, ◌≤◌, ◌≡◌, ◌≢◌, refl, ◌↔◌, true, false, List, [], ◌∷◌, some, ltb, arith, nat_eq,
  list_eq,
}
use envoy_modsecurity.Prelude.Equality.{list_beq}
use envoy_modsecurity.Prelude.Steps.{none_raises}
use envoy_modsecurity.Prelude.Lists.{all}
use envoy_modsecurity.Prelude.Dicts.{set_item}
use envoy_modsecurity.Prelude.Sorting.{sorted, insert}
use envoy_modsecurity.Prelude.Text.{codes, starts_with, decimal}
use envoy_modsecurity.Prelude.Int.{pos}
use envoy_modsecurity.Process.{stop_process}
use envoy_modsecurity.Benchmark.Workload.{
  status, Response, Spec, Fractions, Measured, Workload, reply_outcome, one_request, gather,
  latency_percentile, doubled_median, summary, run_workload,
}
use envoy_modsecurity.Benchmark.Workload.Expected.{all_expected}
use envoy_modsecurity.Benchmark.Violations.{
  Floats, Thresholds, violations, all_violations, workload_violations, flag,
}
use envoy_modsecurity.Benchmark.Violations.Within.{IsWithin, violations-IsWithin}
use envoy_modsecurity.Benchmark.Main.{
  Load, attack, load_spec, scaled, Outside, opening_steps, raises, measure, workloads, rss_growth,
  run_list, finally, leave, run_opened, main, exit_status,
}
use envoy_modsecurity.Benchmark.Main.Ends.{IsReleased, main_opened-IsReleased, main_zero_lem}
use envoy_modsecurity.Prelude.Lists.{contains}
use envoy_modsecurity.Benchmark.Markdown.{benchmark_result, benchmark_lines}
use envoy_modsecurity.Benchmark.Markdown.Verdict.{pass_line, verdict_lem}
use envoy_modsecurity.Benchmark.Envoy.{
  StatsPoll, gauges_from, are_zero, ends_with, zero_modsecurity_gauges,
}
use envoy_modsecurity.Report.Timing.{percentile_index}

abbrev sample_floats : Floats ℕ
sample_floats = record {
  less = ltb;
  milliseconds = λ n. n / 1000000;
  of_nat = λ n. n;
  bytes_of_mib = λ n. n * 1048576;
  mib_of_bytes = λ n. n / 1048576;
  fixed = decimal;
}

abbrev sample_thresholds : Thresholds ℕ
sample_thresholds = record {
  minimum_throughput_rps = 100;
  maximum_p99_ms = 50;
  maximum_pathological_p99_ms = 500;
  maximum_pathological_cpu_ms_per_request = 20;
  maximum_rss_growth_mib = 64;
}

abbrev sample_fractions : Fractions
sample_fractions = record { p95 = λ n. 95 * n / 100; p99 = λ n. 99 * n / 100 }

abbrev sample_measured : Measured ℕ
sample_measured = record { throughput_rps = 900; cpu_ms_per_request = 1 }

abbrev sample_spec : Spec
sample_spec = record {
  name = codes "safe";
  count = 2;
  concurrency = 1;
  method = codes "GET";
  path = codes "/safe";
  expected_status = 200;
}

abbrev sample_responses : List Response
sample_responses =
    record { reply = status 200; elapsed_ns = 3000000 }
    ∷ record { reply = status 200; elapsed_ns = 1000000 }
    ∷ []

some_responses : sample_responses ≢ []
some_responses h = cc

abbrev sample_workload : Workload ℕ
sample_workload = record {
  requests = 2;
  concurrency = 1;
  measured = sample_measured;
  doubled_median = 4000000;
  p95 = 1000000;
  p99 = 1000000;
  maximum = 3000000;
}

sample_run :
    run_workload sample_fractions sample_spec sample_measured sample_responses
    ≡ some sample_workload
unfolding run_workload summary doubled_median latency_percentile percentile_index sorted insert
    gather one_request reply_outcome
sample_run = refl

fractions_ordered : (n : ℕ) → 95 * n / 100 ≤ 99 * n / 100
fractions_ordered n = omega arith

violations-IsWithin_example :
    (violations sample_floats sample_thresholds ((codes "safe_headers", sample_workload) ∷ []) 0
      ≡ [])
    ↔ IsWithin sample_floats sample_thresholds ((codes "safe_headers", sample_workload) ∷ []) 0
violations-IsWithin_example =
    violations-IsWithin sample_floats sample_thresholds
      ((codes "safe_headers", sample_workload) ∷ []) 0

-- The replies of a load whose requests are answered as they should be.
abbrev good_responses : Load → List Response
good_responses attack = record { reply = status 403; elapsed_ns = 2000000 } ∷ []
good_responses l = record { reply = status 200; elapsed_ns = 2000000 } ∷ []

abbrev sample_outside : Outside ℕ
sample_outside = record {
  fails = λ a. false;
  envoy = record { by_itself = false; on_terminate = true; on_kill = true };
  floats = sample_floats;
  fractions = sample_fractions;
  thresholds = sample_thresholds;
  enforce = true;
  concurrency = 8;
  product = λ n. n / 100;
  responses = good_responses;
  measured = λ l. sample_measured;
  rss_baseline = 1000;
  rss_after_soak = 2000;
}

sample_passes : exit_status (main sample_outside).0 ≡ 0
unfolding exit_status main run_opened run_list finally leave raises measure workloads violations
    all_violations workload_violations flag run_workload summary doubled_median latency_percentile
    percentile_index sorted insert gather one_request reply_outcome load_spec scaled list_beq
    stop_process
sample_passes = refl

some_attack : good_responses attack ≢ []
some_attack h = cc

main_zero_lem_example :
    IsWithin sample_floats sample_thresholds (workloads sample_outside) (rss_growth sample_outside)
    × (all_expected (load_spec (λ n. n / 100) 8 attack) (good_responses attack) ≡ true)
main_zero_lem_example = main_zero_lem sample_outside attack refl sample_passes some_attack

all_open : none_raises (raises sample_outside) opening_steps ≡ true
unfolding all raises
all_open = refl

main_opened-IsReleased_example : IsReleased (main sample_outside).1
main_opened-IsReleased_example = main_opened-IsReleased sample_outside refl all_open

sample_ended : exit_status (main sample_outside).0 ≢ 2
sample_ended h = absurd (ground (arith, sample_passes))

verdict_lem_example :
    (contains
        (benchmark_lines sample_floats
          (λ n. n / 2000000)
          (benchmark_result sample_outside (codes "today") (codes "Linux")))
        pass_line
      ≡ true)
    ↔ (exit_status (main sample_outside).0 ≡ 0)
verdict_lem_example =
    verdict_lem (λ n. n / 2000000) sample_outside (codes "today") (codes "Linux") refl sample_ended

abbrev sample_stats : List StatsPoll
sample_stats =
    record { status = 200; stats = (codes "m.active_transactions", pos 3) ∷ [] }
    ∷ record {
      status = 200;
      stats = (codes "m.active_transactions", pos 0) ∷ (codes "m.x", pos 5) ∷ [];
    }
    ∷ []

sample_zero :
    zero_modsecurity_gauges sample_stats ≡ some ((codes "m.active_transactions", pos 0) ∷ [])
unfolding zero_modsecurity_gauges gauges_from are_zero ends_with starts_with set_item list_beq all
sample_zero = refl
