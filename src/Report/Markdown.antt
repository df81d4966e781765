-- ===== src/Report/Markdown.antt =====
-- `write_report` of tools/crs-compatibility-report.py: the text of the Markdown report, by sections.
-- `percent n d` is the text of `n * 100 / d` with two places; `Duration`, `from_ns`, `median` and
-- `milliseconds` are Python's numbers with the median and the text in milliseconds.
pub mod Failed
pub mod Table
pub mod Frequent
pub mod Missing
mod Tests
use envoy_modsecurity.Prelude.{
  ℕ, ◌+◌, Bool, true, false, List, [], ◌∷◌, ◌++◌, map, Option, none, some, if◌then◌else◌, ◌==◌,
  nat_eq, list_eq,
}
use envoy_modsecurity.Prelude.Counter.{most_common, counted, counter}
use envoy_modsecurity.Prelude.Lists.{length, take, sum_of, is_empty}
use envoy_modsecurity.Prelude.Dicts.{Dict, get}
use envoy_modsecurity.Prelude.Sorting.{sorted}
use envoy_modsecurity.Prelude.Text.{Str, codes, join, decimal, str_leb}
use envoy_modsecurity.Prelude.Int.{ℤ, decimal_ℤ}
use envoy_modsecurity.Report.Results.{Results}
use envoy_modsecurity.Report.Rows.{
  Status, passed, failed, skipped, ignored, forced_pass, forced_fail, all_statuses, Row, tally,
  or_default,
}
use envoy_modsecurity.Report.Summary.{status_count, total, evaluated, Side, traffic_side_counts}
use envoy_modsecurity.Report.Failures.{FailureDetail, classification_text}
use envoy_modsecurity.Report.Timing.{percentile}

pub record Metadata : Type 0 where
  pub generated_at : Str
  pub platform : Str
  pub qualification : Str
  pub dependencies : Dict Str Str
  pub go_ftw_version : Str
  pub selection : Str
  pub platform_overrides : Str
  pub reviewed_ignored_tests : Str
  pub retry_once_normalized : ℕ
  pub configure_capabilities : Dict Str Str

-- f"| {a} | {b} |", with any number of cells.
unfoldable pub table_line : List Str → Str
unfolding join
table_line cells = codes "| " ++ (join (codes " | ") cells ++ codes " |")

abbrev pub count_cells : (Status → ℕ) → List Str
count_cells count = map (λ status. decimal (count status)) all_statuses

-- `s.replace(chr(10), "<br>")`
unfoldable pub break_lines : Str → Str
break_lines [] = []
break_lines (c ∷ s) =
    let rest = break_lines s in if c == 0x0a then codes "<br>" ++ rest else c ∷ rest

abbrev pub version_of : Metadata → Str → Str
version_of metadata component = or_default (codes "unknown") (get component metadata.dependencies)

unfoldable pub environment_lines : Metadata → List Str
unfolding table_line break_lines get
environment_lines metadata =
    codes "# OWASP CRS compatibility report"
    ∷ []
    ∷ (codes "Generated: " ++ metadata.generated_at)
    ∷ []
    ∷ codes "## Qualification"
    ∷ []
    ∷ metadata.qualification
    ∷ []
    ∷ codes "## Environment"
    ∷ []
    ∷ codes "| Component | Value |"
    ∷ codes "| --- | --- |"
    ∷ table_line (codes "Host" ∷ metadata.platform ∷ [])
    ∷ table_line (codes "Envoy" ∷ version_of metadata (codes "envoy") ∷ [])
    ∷ table_line (codes "ModSecurity" ∷ version_of metadata (codes "modsecurity") ∷ [])
    ∷ table_line (codes "OWASP CRS" ∷ version_of metadata (codes "coreruleset") ∷ [])
    ∷ table_line (codes "go-ftw" ∷ break_lines metadata.go_ftw_version ∷ [])
    ∷ table_line (codes "Test selection" ∷ metadata.selection ∷ [])
    ∷ table_line (codes "Platform overrides" ∷ metadata.platform_overrides ∷ [])
    ∷ table_line (codes "Reviewed ignored tests" ∷ metadata.reviewed_ignored_tests ∷ [])
    ∷ table_line (
        codes "retry_once normalized"
        ∷ (decimal metadata.retry_once_normalized ++ codes " test stages")
        ∷ [])
    ∷ []
    ∷ []

-- `n * 100 / d if d else 0`, with two places.
abbrev pub rate_text : (ℕ → ℕ → Str) → ℕ → ℕ → Str
rate_text percent n d = if d == 0 then codes "0.00" else percent n d

unfoldable pub summary_lines : (percent : ℕ → ℕ → Str) → Results → (returncode : ℤ) → List Str
unfolding table_line total evaluated
summary_lines percent results returncode =
    codes "## Summary"
    ∷ []
    ∷ codes "| Total | Passed | Failed | Skipped | Ignored | Forced pass | Forced fail |"
    ∷ codes "| ---: | ---: | ---: | ---: | ---: | ---: | ---: |"
    ∷ table_line (decimal (total results) ∷ count_cells (status_count results))
    ∷ []
    ∷ (codes "Evaluated pass rate: **"
        ++ (rate_text percent (status_count results passed) (evaluated results)
            ++ (codes "%** ("
                ++ (decimal (status_count results passed)
                    ++ (codes "/" ++ (decimal (evaluated results) ++ codes ")."))))))
    ∷ []
    ∷ (codes "go-ftw exit status: `" ++ (decimal_ℤ returncode ++ codes "`"))
    ∷ []
    ∷ []

abbrev pub side_leb : Str × Side → Str × Side → Bool
side_leb a b = str_leb a.0 b.0

abbrev pub side_line : Str × Side → Str
side_line (side, counts) = table_line (side ∷ count_cells counts)

unfoldable pub sides_lines : List Row → List Str
unfolding table_line sorted traffic_side_counts
sides_lines rows =
    codes "## Results by traffic side"
    ∷ []
    ∷ codes "| Traffic side | Passed | Failed | Skipped | Ignored | Forced pass | Forced fail |"
    ∷ codes "| --- | ---: | ---: | ---: | ---: | ---: | ---: |"
    ∷ (map side_line (sorted side_leb (traffic_side_counts rows))
        ++ ([]
            ∷ codes
                "Traffic side is derived from the CRS rule-file name; it is not a ModSecurity numeric processing phase."
            ∷ []
            ∷ []))

abbrev pub row_line : Row → Str
row_line row = table_line (row.phase ∷ row.category ∷ count_cells (λ status. tally status row))

abbrev pub rows_heading : Str
rows_heading = codes "## Results by CRS rule file"

unfoldable pub rows_lines : List Row → List Str
unfolding table_line
rows_lines rows =
    rows_heading
    ∷ []
    ∷ codes
        "| Traffic side | Rule file | Passed | Failed | Skipped | Ignored | Forced pass | Forced fail |"
    ∷ codes "| --- | --- | ---: | ---: | ---: | ---: | ---: | ---: |"
    ∷ (map row_line rows ++ ([] ∷ []))
