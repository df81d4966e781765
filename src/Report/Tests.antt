-- ===== src/Report/Tests.antt =====
-- Runs of tools/crs-compatibility-report.py on small inputs, and its theorems at them.
use envoy_modsecurity.Prelude.{
  ℕ, ◌+◌, ◌*◌, ◌/◌, ◌≤◌, ◌≡◌, ◌≢◌, refl, ◌↔◌, ◌⊎◌, true, false, List, [], ◌∷◌, map, none, some, Mem,
  Nodup, leb, if◌then◌else◌, ◌==◌, nat_eq, list_eq, pair_eq,
}
use envoy_modsecurity.Prelude.Equality.{list_beq}
use envoy_modsecurity.Prelude.Lists.{length, filter, all, contains, count, sum_of, mem_of_contains}
use envoy_modsecurity.Prelude.Dicts.{Dict}
use envoy_modsecurity.Prelude.Sets.{to_set, difference, set_beq, repeated}
use envoy_modsecurity.Prelude.Sorting.{IsSorted}
use envoy_modsecurity.Prelude.Text.{Str, codes, str_leb, decimal}
use envoy_modsecurity.Prelude.Int.{pos, negsuc, decimal_ℤ}
use envoy_modsecurity.Report.Results.{Results, text, result_test_ids, collect}
use envoy_modsecurity.Report.Qualification.{
  Run, ids, all_results, reviewed_platform_ignores, when_any, completeness_failures,
  ignore_failures, failed_checks, message, qualification_failures,
}
use envoy_modsecurity.Report.Qualification.Accepted.{IsAccepted}
use envoy_modsecurity.Report.Qualification.Decides.{qualification_failures-IsAccepted}
use envoy_modsecurity.Report.Qualification.Complete.{full_run_counts, full_run_succeeds}
use envoy_modsecurity.Report.Rows.{
  passed, tally, row_key, key_of, row_leb, result_rows, result_key, add_statuses, add_results,
  add_result,
}
use envoy_modsecurity.Report.Rows.Counts.{sum_of-result_rows}
use envoy_modsecurity.Report.Rows.Order.{result_rows-IsSorted}
use envoy_modsecurity.Report.Failures.{
  TestMetadata, Classification, failure_detail, metadata_of, missing_expected, triggered,
  classify_failures, failure_details,
}
use envoy_modsecurity.Report.Failures.Meaning.{Fires, stages_of, failure_detail_ids}
use envoy_modsecurity.Report.Failures.Classes.{
  blames_missing, blames_unexpected, failure_detail_blames,
}
use envoy_modsecurity.Report.Timing.{percentile, percentile-rank, rank, at_most, at_least}

abbrev sample_results : Results
sample_results = record {
  status_lists =
      (codes "success", some (text (codes "100-1") ∷ []))
      ∷ (codes "failed", none)
      ∷ (codes "ignored", some (text (codes "920430-5") ∷ []))
      ∷ [];
  triggered_rules = none;
}

abbrev sample_run : Run
sample_run = record {
  results = sample_results;
  returncode = pos 0;
  expected_test_ids = codes "100-1" ∷ codes "920430-5" ∷ [];
  expected_test_count = 2;
  full_run = true;
  apply_platform_overrides = true;
  fail_on_test_failure = true;
}

sample_passes : qualification_failures sample_run ≡ []
unfolding qualification_failures failed_checks when_any completeness_failures ignore_failures to_set
    difference set_beq repeated filter all contains count list_beq result_test_ids collect
sample_passes = refl

killed_run :
    qualification_failures (record sample_run { returncode = negsuc 8; full_run = false })
    ≡ codes "go-ftw exited with status -9" ∷ []
unfolding qualification_failures failed_checks when_any completeness_failures ignore_failures to_set
    difference set_beq repeated filter all contains count list_beq result_test_ids collect message
    decimal_ℤ decimal
killed_run = refl

qualification_failures-IsAccepted_example :
    (qualification_failures sample_run ≡ []) ↔ IsAccepted sample_run
qualification_failures-IsAccepted_example = qualification_failures-IsAccepted sample_run

full_run_counts_example :
    count (codes "100-1") (all_results sample_run)
    ≡ (if contains sample_run.expected_test_ids (codes "100-1") then 1 else 0)
full_run_counts_example = full_run_counts sample_run (codes "100-1") refl sample_passes

ignored_is_expected : Mem (codes "920430-5") sample_run.expected_test_ids
unfolding contains list_beq
ignored_is_expected = mem_of_contains sample_run.expected_test_ids (codes "920430-5") refl

full_run_succeeds_example :
    Mem (codes "920430-5") (ids sample_run (codes "success"))
    ⊎ (Mem (codes "920430-5") (ids sample_run (codes "ignored"))
        × Mem (codes "920430-5") reviewed_platform_ignores)
full_run_succeeds_example =
    full_run_succeeds sample_run (codes "920430-5") refl refl sample_passes ignored_is_expected

abbrev sample_index : Dict Str Str
sample_index =
    (codes "100", codes "REQUEST-920-PROTOCOL-ENFORCEMENT")
    ∷ (codes "200", codes "RESPONSE-950-DATA-LEAKAGES")
    ∷ []

abbrev mixed_results : Results
mixed_results = record {
  status_lists =
      (
        codes "success",
        some (text (codes "200-1") ∷ text (codes "100-1") ∷ text (codes "100-2") ∷ []),
      )
      ∷ (codes "failed", some (text (codes "100-3") ∷ []))
      ∷ [];
  triggered_rules = some ((codes "100-3", some (none ∷ some (920100 ∷ 920200 ∷ []) ∷ [])) ∷ []);
}

mixed_rows :
    map row_key (result_rows mixed_results sample_index)
    ≡ (codes "request", codes "REQUEST-920-PROTOCOL-ENFORCEMENT")
      ∷ (codes "response", codes "RESPONSE-950-DATA-LEAKAGES")
      ∷ []
unfolding result_rows add_statuses add_results add_result key_of result_test_ids list_beq row_leb
    str_leb contains
mixed_rows = refl

sum_of-result_rows_example :
    sum_of
      (λ r. if row_key r == (codes "request", codes "UNMAPPED") then tally passed r else 0)
      (result_rows mixed_results sample_index)
    ≡ sum_of
        (λ id. if key_of sample_index id == (codes "request", codes "UNMAPPED") then 1 else 0)
        (result_test_ids mixed_results (result_key passed))
sum_of-result_rows_example =
    sum_of-result_rows mixed_results sample_index (λ k. k == (codes "request", codes "UNMAPPED"))
      passed

result_rows-IsSorted_example :
    IsSorted row_leb (result_rows mixed_results sample_index)
    × Nodup (map row_key (result_rows mixed_results sample_index))
result_rows-IsSorted_example = result_rows-IsSorted mixed_results sample_index

abbrev sample_metadata : Dict Str TestMetadata
sample_metadata =
    (
      codes "100-3",
      record {
        category = codes "REQUEST-920-PROTOCOL-ENFORCEMENT";
        expected_ids = 920300 ∷ 920100 ∷ [];
        forbidden_ids = 920400 ∷ [];
        input_profile = codes "json";
        has_log_regex = true;
        has_status_assertion = false;
        expects_error = false;
      },
    )
    ∷ []

sample_detail :
    map {B = Classification × List ℕ × List ℕ}
      (λ d. (d.classification, d.missing_ids, d.triggered_ids))
      (classify_failures mixed_results sample_metadata [])
    ≡ (missing_expected, 920300 ∷ [], 920100 ∷ 920200 ∷ []) ∷ []
unfolding classify_failures failure_details failure_detail triggered result_test_ids list_beq
    contains filter
sample_detail = refl

failure_detail_ids_example :
    ((rule : ℕ)
      → Mem rule (failure_detail mixed_results sample_metadata [] (codes "100-3")).missing_ids ↔ (
          Mem rule (metadata_of mixed_results sample_metadata [] (codes "100-3")).expected_ids
          × ¬ Fires rule (stages_of mixed_results (codes "100-3"))))
    × ((rule : ℕ)
        → Mem rule (failure_detail mixed_results sample_metadata [] (codes "100-3")).unexpected_ids
          ↔ (Mem rule (metadata_of mixed_results sample_metadata [] (codes "100-3")).forbidden_ids
              × Fires rule (stages_of mixed_results (codes "100-3"))))
    × IsSorted leb (failure_detail mixed_results sample_metadata [] (codes "100-3")).missing_ids
    × IsSorted leb (failure_detail mixed_results sample_metadata [] (codes "100-3")).unexpected_ids
failure_detail_ids_example = failure_detail_ids mixed_results sample_metadata [] (codes "100-3")

failure_detail_blames_example :
    ((blames_missing
          (failure_detail mixed_results sample_metadata [] (codes "100-3")).classification
        ≡ false)
      ↔ ((rule : ℕ)
          → Mem rule (metadata_of mixed_results sample_metadata [] (codes "100-3")).expected_ids
          → Fires rule (stages_of mixed_results (codes "100-3"))))
    × ((blames_unexpected
            (failure_detail mixed_results sample_metadata [] (codes "100-3")).classification
          ≡ false)
        ↔ ((rule : ℕ)
            → Mem rule (metadata_of mixed_results sample_metadata [] (codes "100-3")).forbidden_ids
            → ¬ Fires rule (stages_of mixed_results (codes "100-3"))))
failure_detail_blames_example =
    failure_detail_blames mixed_results sample_metadata [] (codes "100-3")

abbrev run_times : List ℕ
run_times = 40 ∷ 10 ∷ 30 ∷ 20 ∷ []

some_run_times : run_times ≢ []
some_run_times h = cc

percentile-rank_example :
    (v : ℕ) × (percentile (λ n. 95 * n / 100) run_times ≡ some v)
    × Mem v run_times
    × (rank (λ n. 95 * n / 100) (length run_times) ≤ at_most v run_times)
    × (length run_times + 1 ≤ at_least v run_times + rank (λ n. 95 * n / 100) (length run_times))
percentile-rank_example = percentile-rank (λ n. 95 * n / 100) run_times some_run_times
