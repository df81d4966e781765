-- ===== src/Report/Markdown/Tests.antt =====
-- A small report of tools/crs-compatibility-report.py, and the theorems at it.
use envoy_modsecurity.Prelude.{
  ℕ, ◌≡◌, ◌⊎◌, refl, true, false, List, [], ◌∷◌, map, none, some, arith, leb, ◌==◌, nat_eq, list_eq,
  pair_eq,
}
use envoy_modsecurity.Prelude.Equality.{list_beq}
use envoy_modsecurity.Prelude.Counter.{most_common}
use envoy_modsecurity.Prelude.Lists.{length, all, any, contains, sum_of, filter}
use envoy_modsecurity.Prelude.Dicts.{Dict}
use envoy_modsecurity.Prelude.Sets.{to_set}
use envoy_modsecurity.Prelude.Text.{Str, codes, decimal, str_leb}
use envoy_modsecurity.Prelude.Int.{pos, decimal_ℤ}
use envoy_modsecurity.Report.Results.{Results, text, result_test_ids}
use envoy_modsecurity.Report.Rows.{Row, failed, new_row}
use envoy_modsecurity.Report.Summary.{status_count, add_rows, add_row}
use envoy_modsecurity.Report.Failures.{
  TestMetadata, FailureDetail, failure_detail, failure_details, classify_failures, triggered,
}
use envoy_modsecurity.Report.Markdown.{Metadata, row_line, rows_heading, table_line}
use envoy_modsecurity.Report.Markdown.Failed.{
  Numbers, classification_of, profile_of, id_count_line, missing_heading, report_lines,
  write_report,
}
use envoy_modsecurity.Report.Markdown.Table.{table_below, table_below-write_report}
use envoy_modsecurity.Report.Markdown.Missing.{missing_rules_lem}
use envoy_modsecurity.Report.Markdown.Frequent.{missing_tests, sum-classes}

abbrev sample_metadata : Metadata
sample_metadata = record {
  generated_at = codes "2026";
  platform = codes "Linux";
  qualification = codes "Linux reference candidate.";
  dependencies = (codes "envoy", codes "1.38") ∷ [];
  go_ftw_version = codes "go-ftw\n2.4";
  selection = codes "all enabled tests";
  platform_overrides = codes "not applied";
  reviewed_ignored_tests = codes "none";
  retry_once_normalized = 2;
  configure_capabilities = (codes "YAJL", codes "yes") ∷ [];
}

abbrev sample_numbers : Numbers
sample_numbers = record {
  Duration = ℕ;
  percent = λ n d. decimal n;
  milliseconds = decimal;
  from_ns = λ n. n;
  median = λ ns. 1;
  scaled_95 = λ n. n;
  scaled_99 = λ n. n;
}

abbrev sample_results : Results
sample_results = record {
  status_lists =
      (codes "success", some (text (codes "920170-1") ∷ []))
      ∷ (codes "failed", some (text (codes "920100-1") ∷ text (codes "920100-2") ∷ []))
      ∷ [];
  triggered_rules = none;
}

abbrev sample_row : Row
sample_row = record (new_row (codes "request", codes "REQUEST-920")) { n_passed = 1; n_failed = 2 }

abbrev sample_rows : List Row
sample_rows = sample_row ∷ new_row (codes "response", codes "RESPONSE-950") ∷ []

abbrev sample_tests : Dict Str TestMetadata
sample_tests =
    (
      codes "920100-1",
      record {
        category = codes "REQUEST-920";
        expected_ids = 920100 ∷ 920100 ∷ [];
        forbidden_ids = [];
        input_profile = codes "json";
        has_log_regex = false;
        has_status_assertion = false;
        expects_error = false;
      },
    )
    ∷ []

abbrev sample_failures : List FailureDetail
sample_failures = classify_failures sample_results sample_tests []

qualification_other : (sample_metadata.qualification == rows_heading) ≡ false
unfolding list_beq
qualification_other = refl

no_break :
    any
      (λ l. contains l 0x0a)
      (report_lines sample_numbers sample_metadata sample_results sample_rows sample_failures
        (7 ∷ 5 ∷ [])
        (pos 0))
    ≡ false
unfolding any contains report_lines decimal result_test_ids classify_failures list_beq decimal_ℤ
    add_rows add_row str_leb failure_details failure_detail filter to_set triggered
no_break = refl

table_below-write_report_example :
    table_below rows_heading (
      write_report sample_numbers sample_metadata sample_results sample_rows sample_failures
        (7 ∷ 5 ∷ [])
        (pos 0))
    ≡ map row_line sample_rows
table_below-write_report_example =
    table_below-write_report sample_numbers sample_metadata sample_results sample_rows
      sample_failures (7 ∷ 5 ∷ []) (pos 0) qualification_other no_break

first_row : row_line sample_row ≡ codes "| request | REQUEST-920 | 1 | 2 | 0 | 0 | 0 | 0 |"
unfolding table_line decimal
first_row = refl

sum-classes_example :
    (sum_of (λ p. p.1) (most_common (map classification_of sample_failures))
      ≡ status_count sample_results failed)
    × (sum_of (λ p. p.1) (most_common (map profile_of sample_failures))
        ≡ status_count sample_results failed)
sum-classes_example = sum-classes sample_results sample_tests []

abbrev misses : ℕ
misses =
    missing_tests sample_results sample_tests [] 920100
      (result_test_ids sample_results (codes "failed"))

one_misses : misses ≡ 1
unfolding sum_of result_test_ids failure_detail contains list_beq filter to_set triggered
one_misses = refl

missing_qualification_other : (sample_metadata.qualification == missing_heading) ≡ false
unfolding list_beq
missing_qualification_other = refl

missing_rules_lem_example :
    (ps : List (ℕ × ℕ)) × (table_below missing_heading (
        write_report sample_numbers sample_metadata sample_results sample_rows sample_failures
          (7 ∷ 5 ∷ [])
          (pos 0))
      ≡ map id_count_line ps)
    × (all
          (λ p.
            p.1
            == missing_tests sample_results sample_tests [] p.0
                (result_test_ids sample_results (codes "failed")))
          ps
        ≡ true)
    × ((contains ps (920100, misses) ≡ true)
        ⊎ ((length ps ≡ 20) × (all (λ p. leb misses p.1) ps ≡ true)))
missing_rules_lem_example =
    missing_rules_lem sample_numbers sample_metadata sample_results sample_rows sample_tests []
      (7 ∷ 5 ∷ []) (pos 0) 920100 missing_qualification_other no_break (omega (arith, one_misses))
