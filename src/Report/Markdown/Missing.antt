-- ===== src/Report/Markdown/Missing.antt =====
-- The table of missing rules is read back from the report that tools/crs-compatibility-report.py
-- writes.
use envoy_modsecurity.Prelude.{
  ℕ, ◌<◌, ◌≡◌, ◌⊎◌, inl, inr, Bool-cases, refl, ap, ◌∙◌, Bool, true, false, List, [], ◌∷◌, ◌++◌,
  map, arith, leb, ◌==◌, Eq, beq_refl, nat_eq, list_eq, pair_eq,
}
use mathlib.Core.List.{append_assoc}
use envoy_modsecurity.Prelude.Counter.{most_common}
use envoy_modsecurity.Prelude.Dicts.{Dict}
use envoy_modsecurity.Prelude.Equality.{list_beq}
use envoy_modsecurity.Prelude.Lists.{length, all, any, contains}
use envoy_modsecurity.Prelude.Text.{Str, codes, decimal, starts_with, decimal_other}
use envoy_modsecurity.Prelude.Sorting.{sorted}
use envoy_modsecurity.Prelude.Int.{ℤ}
use envoy_modsecurity.Report.Results.{Results, result_test_ids}
use envoy_modsecurity.Report.Rows.{Row}
use envoy_modsecurity.Report.Summary.{Side, traffic_side_counts}
use envoy_modsecurity.Report.Failures.{TestMetadata, FailureDetail, classify_failures}
use envoy_modsecurity.Report.Markdown.{
  Metadata, table_line, environment_lines, summary_lines, sides_lines, side_leb, side_line,
  row_line, rows_lines,
}
use envoy_modsecurity.Report.Markdown.Failed.{
  Numbers, classification_of, profile_of, all_missing, frequent, text_count_line, id_count_line,
  override_line, classes_lines, correlation_line, missing_heading, ids_lines, lines_before_rows,
  lines_after_rows, report_lines, write_report,
}
use envoy_modsecurity.Report.Markdown.Table.{
  lines_below, bar_lines, body_lines, table_below, lines_below-append, any-map, none_in_both,
  read_back,
}
use envoy_modsecurity.Report.Markdown.Frequent.{missing_tests, frequent-row, frequent-missing}

abbrev is_missing_heading : Str → Bool
is_missing_heading l = l == missing_heading

environment_other :
    (metadata : Metadata)
    → is_missing_heading metadata.qualification ≡ false
    → any is_missing_heading (environment_lines metadata) ≡ false
unfolding any environment_lines list_beq
environment_other metadata h = ground arith

summary_other :
    (percent : ℕ → ℕ → Str) (results : Results) (returncode : ℤ)
    → any is_missing_heading (summary_lines percent results returncode) ≡ false
unfolding any summary_lines list_beq
summary_other percent results returncode = refl

side_other : (x : Str × Side) → is_missing_heading (side_line x) ≡ false
unfolding table_line list_beq
side_other x = refl

row_other : (row : Row) → is_missing_heading (row_line row) ≡ false
unfolding table_line list_beq
row_other row = refl

text_count_other : (x : Str × ℕ) → is_missing_heading (text_count_line x) ≡ false
unfolding table_line list_beq
text_count_other x = refl

sides_other : (rows : List Row) → any is_missing_heading (sides_lines rows) ≡ false
unfolding any sides_lines list_beq
sides_other rows =
    none_in_both is_missing_heading (map side_line (sorted side_leb (traffic_side_counts rows))) _
      (any-map is_missing_heading side_line (sorted side_leb (traffic_side_counts rows)) side_other)
      refl

rows_other : (rows : List Row) → any is_missing_heading (rows_lines rows) ≡ false
unfolding any rows_lines list_beq
rows_other rows =
    none_in_both is_missing_heading (map row_line rows) ([] ∷ [])
      (any-map is_missing_heading row_line rows row_other) refl

-- A line that begins with a number.
number_other : (n : ℕ) (s : Str) → is_missing_heading (decimal n ++ s) ≡ false
number_other n s = decimal_other n s b'#' (codes "## Most frequent missing expected rule IDs") refl

override_other :
    (metadata : Metadata) (failures : List FailureDetail)
    → is_missing_heading (override_line metadata failures) ≡ false
unfolding override_line
override_other metadata failures =
    elim (Bool-cases (metadata.platform_overrides == codes "not applied")) [
      | inl none_applied ↦ rw none_applied (number_other _ _)
      | inr applied ↦ rw applied (number_other _ _)
    ]

classes_other :
    (metadata : Metadata) (failures : List FailureDetail)
    → any is_missing_heading (classes_lines metadata failures) ≡ false
unfolding any classes_lines list_beq
classes_other metadata failures =
    let classes = map text_count_line (most_common (map classification_of failures)) in
    let profiles = map text_count_line (most_common (map profile_of failures)) in
    rw (override_other metadata failures) (
      none_in_both is_missing_heading classes _
        (any-map is_missing_heading text_count_line (most_common (map classification_of failures))
          text_count_other)
        (none_in_both is_missing_heading profiles ([] ∷ [])
          (any-map is_missing_heading text_count_line (most_common (map profile_of failures))
            text_count_other)
          refl))

correlation_other :
    (percent : ℕ → ℕ → Str) (results : Results) (failures : List FailureDetail)
    → is_missing_heading (correlation_line percent results failures) ≡ false
unfolding correlation_line
correlation_other percent results failures = number_other _ _

bar_lines-ids :
    (ps : List (ℕ × ℕ)) (more : List Str)
    → bar_lines (map id_count_line ps ++ [] ∷ more) ≡ map id_count_line ps
unfolding bar_lines starts_with table_line
bar_lines-ids [] more = refl
bar_lines-ids (p ∷ ps) more = ap (◌∷◌ (id_count_line p)) (bar_lines-ids ps more)

all_of_contains {ℓ} :
    {A : Type ℓ} ⦃e : Eq A⦄ (p : A → Bool) (xs : List A)
    → ((a : A) → contains xs a ≡ true → p a ≡ true)
    → all p xs ≡ true
unfolding all contains
all_of_contains p [] h = refl
all_of_contains p (x ∷ xs) h =
    ground
      (arith, h x (ground (arith, beq_refl x)), all_of_contains p xs (λ a m. h a (ground arith)))

module _ (numbers : Numbers) (metadata : Metadata) (results : Results) (rows : List Row)
    (failures : List FailureDetail) (runtime_values : List ℕ) (returncode : ℤ) where
  before_other :
      is_missing_heading metadata.qualification ≡ false
      → any is_missing_heading
          (lines_before_rows numbers metadata results rows failures runtime_values returncode)
        ≡ false
  unfolding lines_before_rows
  before_other q =
      none_in_both is_missing_heading (environment_lines metadata) _ (environment_other metadata q)
        (none_in_both is_missing_heading (summary_lines numbers.percent results returncode)
          (sides_lines rows) (summary_other numbers.percent results returncode) (sides_other rows))

  below_ids :
      (more : List Str)
      → body_lines
          (lines_below missing_heading (ids_lines numbers.percent results failures ++ more))
        ≡ map id_count_line (frequent (all_missing failures))
  unfolding ids_lines lines_below list_beq
  below_ids more = rw (correlation_other numbers.percent results failures) (
      ap bar_lines (append_assoc (map id_count_line (frequent (all_missing failures))) _ more)
      ∙ bar_lines-ids (frequent (all_missing failures)) _)

  missing_found :
      is_missing_heading metadata.qualification ≡ false
      → body_lines (
          lines_below missing_heading
            (report_lines numbers metadata results rows failures runtime_values returncode))
        ≡ map id_count_line (frequent (all_missing failures))
  unfolding report_lines lines_after_rows
  missing_found q =
      ap body_lines (
        lines_below-append missing_heading
          (lines_before_rows numbers metadata results rows failures runtime_values returncode) _
          (before_other q)
        ∙ lines_below-append missing_heading (rows_lines rows) _ (rows_other rows)
        ∙ lines_below-append missing_heading (classes_lines metadata failures) _
            (classes_other metadata failures))
      ∙ below_ids _

  table_below-missing :
      is_missing_heading metadata.qualification ≡ false
      → any
          (λ l. contains l 0x0a)
          (report_lines numbers metadata results rows failures runtime_values returncode)
        ≡ false
      → table_below missing_heading
          (write_report numbers metadata results rows failures runtime_values returncode)
        ≡ map id_count_line (frequent (all_missing failures))
  table_below-missing q h =
      ap (λ ls. body_lines (lines_below missing_heading ls))
        (read_back numbers metadata results rows failures runtime_values returncode h)
      ∙ missing_found q

module _ (numbers : Numbers) (metadata : Metadata) (results : Results) (rows : List Row)
    (test_metadata : Dict Str TestMetadata) (override_ids : List Str) (runtime_values : List ℕ)
    (returncode : ℤ) where
  -- How many failed tests miss the rule.
  abbrev pub misses : ℕ → ℕ
  misses rule_id =
      missing_tests results test_metadata override_ids rule_id
        (result_test_ids results (codes "failed"))

  abbrev failures : List FailureDetail
  failures = classify_failures results test_metadata override_ids

  -- From the text of the report, the lines of the table under the heading for missing rules are
  -- read back as one line for each of some rules with counts: every rule with the number of
  -- failed tests that miss it, and a rule that some failed test misses is among them, or there
  -- are 20, each with at least its number. No line of the report holds a line break, and the
  -- qualification is not that heading.
  pub missing_rules_lem :
      (rule_id : ℕ)
      → is_missing_heading metadata.qualification ≡ false
      → any
          (λ l. contains l 0x0a)
          (report_lines numbers metadata results rows failures runtime_values returncode)
        ≡ false
      → 0 < misses rule_id
      → (ps : List (ℕ × ℕ)) × (table_below missing_heading
            (write_report numbers metadata results rows failures runtime_values returncode)
          ≡ map id_count_line ps)
        × (all (λ p. p.1 == misses p.0) ps ≡ true)
        × ((contains ps (rule_id, misses rule_id) ≡ true)
            ⊎ ((length ps ≡ 20) × (all (λ p. leb (misses rule_id) p.1) ps ≡ true)))
  missing_rules_lem rule_id q h some_miss = (
    frequent (all_missing failures),
    table_below-missing numbers metadata results rows failures runtime_values returncode q h,
    all_of_contains (λ p. p.1 == misses p.0) (frequent (all_missing failures))
        (λ (r, n) m.
          (nat_eq.beq_iff n (misses r)).1 (frequent-row results test_metadata override_ids r n m)),
    frequent-missing results test_metadata override_ids rule_id some_miss,
  )
