-- ===== src/Report/Markdown/Failed.antt =====
-- The failure analysis, the run times and the rest of the report that `write_report` of
-- tools/crs-compatibility-report.py writes.
use envoy_modsecurity.Prelude.{
  ℕ, ◌+◌, Bool, List, [], ◌∷◌, ◌++◌, map, Option, none, some, if◌then◌else◌, ◌==◌, nat_eq, list_eq,
}
use envoy_modsecurity.Prelude.Counter.{most_common, counted, counter}
use envoy_modsecurity.Prelude.Lists.{take, sum_of, is_empty}
use envoy_modsecurity.Prelude.Dicts.{Dict}
use envoy_modsecurity.Prelude.Sorting.{sorted}
use envoy_modsecurity.Prelude.Text.{Str, codes, join, decimal, str_leb}
use envoy_modsecurity.Prelude.Int.{ℤ}
use envoy_modsecurity.Report.Results.{Results}
use envoy_modsecurity.Report.Rows.{failed, Row}
use envoy_modsecurity.Report.Summary.{status_count}
use envoy_modsecurity.Report.Failures.{FailureDetail, classification_text}
use envoy_modsecurity.Report.Timing.{percentile}
use envoy_modsecurity.Report.Markdown.{
  Metadata, table_line, rate_text, environment_lines, summary_lines, sides_lines, rows_lines,
}

-- `Counter(failure["classification"] for failure in failure_details)` and its companions.
abbrev pub classification_of : FailureDetail → Str
classification_of failure = classification_text failure.classification

abbrev pub profile_of : FailureDetail → Str
profile_of failure = failure.input_profile

unfoldable pub all_missing : List FailureDetail → List ℕ
all_missing [] = []
all_missing (failure ∷ rest) = failure.missing_ids ++ all_missing rest

unfoldable pub all_unexpected : List FailureDetail → List ℕ
all_unexpected [] = []
all_unexpected (failure ∷ rest) = failure.unexpected_ids ++ all_unexpected rest

unfoldable pub upstream_override_failures : List FailureDetail → ℕ
unfolding sum_of
upstream_override_failures =
    sum_of (λ failure. if failure.has_upstream_nginx_override then 1 else 0)

-- `failure_profiles["json"] + failure_profiles["xml"]`
unfoldable pub structured_profile_failures : List FailureDetail → ℕ
unfolding counter
structured_profile_failures failures =
    let profiles = counter (map profile_of failures) in
    counted (codes "json") profiles + counted (codes "xml") profiles

-- `Counter(ids).most_common(20)`
abbrev pub frequent : List ℕ → List (ℕ × ℕ)
frequent ids = take 20 (most_common ids)

abbrev pub text_count_line : Str × ℕ → Str
text_count_line (name, count) = table_line (name ∷ decimal count ∷ [])

abbrev pub id_count_line : ℕ × ℕ → Str
id_count_line (rule_id, count) = table_line (decimal rule_id ∷ decimal count ∷ [])

-- The overrides line, which ends with a remark where the overrides were not applied.
unfoldable pub override_line : Metadata → List FailureDetail → Str
unfolding upstream_override_failures
override_line metadata failures =
    if metadata.platform_overrides == codes "not applied"
    then decimal (upstream_override_failures failures)
      ++ codes
          " failed tests also have an entry in the pinned CRS nginx/libmodsecurity3 override file. Overrides were not applied to this run."
    else decimal (upstream_override_failures failures)
      ++ codes
          " remaining failed tests also have an entry in the pinned CRS nginx/libmodsecurity3 override file."

unfoldable pub classes_lines : Metadata → List FailureDetail → List Str
unfolding table_line override_line most_common
classes_lines metadata failures =
    codes "## Failure analysis"
    ∷ []
    ∷ override_line metadata failures
    ∷ []
    ∷ codes "### Assertion type"
    ∷ []
    ∷ codes "| Classification | Count |"
    ∷ codes "| --- | ---: |"
    ∷ (map text_count_line (most_common (map classification_of failures))
        ++ ([]
            ∷ codes "### Input profile"
            ∷ []
            ∷ codes "| Profile | Failed |"
            ∷ codes "| --- | ---: |"
            ∷ (map text_count_line (most_common (map profile_of failures)) ++ ([] ∷ []))))

unfoldable pub correlation_line : (percent : ℕ → ℕ → Str) → Results → List FailureDetail → Str
unfolding structured_profile_failures
correlation_line percent results failures =
    decimal (structured_profile_failures failures)
    ++ (codes " of "
        ++ (decimal (status_count results failed)
            ++ (codes " failures ("
                ++ (rate_text percent (structured_profile_failures failures)
                      (status_count results failed)
                    ++ codes "%) exercised a JSON or XML input profile."))))

abbrev pub missing_heading : Str
missing_heading = codes "### Most frequent missing expected rule IDs"

unfoldable pub ids_lines : (percent : ℕ → ℕ → Str) → Results → List FailureDetail → List Str
unfolding table_line correlation_line most_common all_missing all_unexpected
ids_lines percent results failures =
    codes "### Build correlation"
    ∷ []
    ∷ correlation_line percent results failures
    ∷ codes
        "This concentration should be reviewed alongside the YAJL and LibXML2 Configure results below. It is correlation, not proof that parser availability caused every structured-input failure."
    ∷ []
    ∷ missing_heading
    ∷ []
    ∷ codes "| Rule ID | Tests |"
    ∷ codes "| ---: | ---: |"
    ∷ (map id_count_line (frequent (all_missing failures))
        ++ ([]
            ∷ codes "### Most frequent unexpected forbidden rule IDs"
            ∷ []
            ∷ codes "| Rule ID | Tests |"
            ∷ codes "| ---: | ---: |"
            ∷ (map id_count_line (frequent (all_unexpected failures)) ++ ([] ∷ []))))

module _ {Duration : Type 0} (milliseconds : Duration → Str) where
  unfoldable pub format_duration : Option Duration → Str
  format_duration none = codes "n/a"
  format_duration (some nanoseconds) = milliseconds nanoseconds ++ codes " ms"

  -- A percentile as a number that is formatted.
  abbrev pub duration_at : (from_ns : ℕ → Duration) (scaled : ℕ → ℕ) → List ℕ → Option Duration
  duration_at from_ns scaled runtime_values = elim (percentile scaled runtime_values) [
    | none ↦ none
    | some ns ↦ some (from_ns ns)
  ]

  -- `scaled_95 n` is `int(n * 0.95)`, and `scaled_99` the same with 0.99.
  unfoldable pub runtime_lines :
      (from_ns : ℕ → Duration) (median : List ℕ → Duration) (scaled_95 scaled_99 : ℕ → ℕ)
      → (runtime_values : List ℕ) → List Str
  unfolding format_duration percentile
  runtime_lines from_ns median scaled_95 scaled_99 runtime_values =
      codes "## Runtime observed by go-ftw"
      ∷ []
      ∷ (codes "- Median: "
          ++ format_duration
              (if is_empty runtime_values then none else some (median runtime_values)))
      ∷ (codes "- p95: " ++ format_duration (duration_at from_ns scaled_95 runtime_values))
      ∷ (codes "- p99: " ++ format_duration (duration_at from_ns scaled_99 runtime_values))
      ∷ []
      ∷ codes
          "These timings include client, Envoy, ModSecurity, and test-backend work. They are diagnostic and are not a filter microbenchmark."
      ∷ []
      ∷ []

abbrev pub text_leb : Str × Str → Str × Str → Bool
text_leb a b = if a.0 == b.0 then str_leb a.1 b.1 else str_leb a.0 b.0

abbrev pub capability_line : Str × Str → Str
capability_line (name, value) = table_line (name ∷ value ∷ [])

unfoldable pub capabilities_lines : Dict Str Str → List Str
unfolding table_line sorted
capabilities_lines capabilities =
    codes "## Build capabilities"
    ∷ []
    ∷ ((if is_empty capabilities
          then codes "No libmodsecurity Configure.log was found for this build." ∷ []
          else codes "| Capability | Configure result |"
            ∷ codes "| --- | --- |"
            ∷ map capability_line (sorted text_leb capabilities))
        ++ ([] ∷ []))

abbrev pub constraint_lines : List Str
constraint_lines =
    codes "## Interpretation constraints"
    ∷ []
    ∷ codes
        "- The regression configuration uses DetectionOnly so exact rule matches can be compared without blocking the Albedo backend."
    ∷ codes
        "- Audit logging contains ModSecurity message metadata only; request and response body audit parts are disabled."
    ∷ codes
        "- retry_once is disabled in a temporary corpus copy because go-ftw v2.4.0 aborts without JSON when the retry also fails; those stages are evaluated once and reported normally."
    ∷ codes
        "- The reviewed Envoy/libmodsecurity3 overrides are applied only when explicitly requested; forced and ignored results remain visible in the summary."
    ∷ codes
        "- The CI run verifies that the ignored set exactly matches the project-owned reviewed exclusion list; an added or missing ignored test fails qualification."
    ∷ codes
        "- A supported compatibility declaration requires a complete run in the Linux reference build, without unreviewed ignores or forced results."
    ∷ codes
        "- Protocol behavior that Envoy rejects before the HTTP filter is still reported as a compatibility difference."
    ∷ []
    ∷ []

-- The parts of the report that are texts of Python's numbers.
pub record Numbers : Type 1 where
  pub Duration : Type 0
  pub percent : ℕ → ℕ → Str
  pub milliseconds : Duration → Str
  pub from_ns : ℕ → Duration
  pub median : List ℕ → Duration
  pub scaled_95 : ℕ → ℕ
  pub scaled_99 : ℕ → ℕ

module _ (numbers : Numbers) (metadata : Metadata) (results : Results) (rows : List Row)
    (failures : List FailureDetail) (runtime_values : List ℕ) (returncode : ℤ) where
  -- `lines` before and from the table of rule files on.
  unfoldable pub lines_before_rows : List Str
  unfolding environment_lines summary_lines sides_lines
  lines_before_rows =
      environment_lines metadata
      ++ (summary_lines numbers.percent results returncode ++ sides_lines rows)

  unfoldable pub lines_after_rows : List Str
  unfolding classes_lines ids_lines runtime_lines capabilities_lines
  lines_after_rows =
      classes_lines metadata failures
      ++ (ids_lines numbers.percent results failures
          ++ (runtime_lines numbers.milliseconds numbers.from_ns numbers.median numbers.scaled_95
                numbers.scaled_99 runtime_values
              ++ (capabilities_lines metadata.configure_capabilities ++ constraint_lines)))

  unfoldable pub report_lines : List Str
  unfolding lines_before_rows rows_lines lines_after_rows
  report_lines = lines_before_rows ++ (rows_lines rows ++ lines_after_rows)

  -- The text that is written.
  unfoldable pub write_report : Str
  unfolding join report_lines
  write_report = join (codes "\n") report_lines
