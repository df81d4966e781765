-- ===== src/Report/Markdown/Table.antt =====
-- The table of rule files is read back from the report that tools/crs-compatibility-report.py writes.
use envoy_modsecurity.Prelude.{
  ℕ, ◌≡◌, refl, ap, ◌∙◌, Bool, false, List, [], ◌∷◌, ◌++◌, map, arith, if◌then◌else◌, ◌==◌, nat_eq,
  list_eq,
}
use mathlib.Core.List.{append_assoc}
use envoy_modsecurity.Prelude.Equality.{list_beq}
use envoy_modsecurity.Prelude.Lists.{any, any-append, contains}
use envoy_modsecurity.Prelude.Text.{Str, codes, starts_with}
use envoy_modsecurity.Prelude.Split.{split, split-join}
use envoy_modsecurity.Prelude.Sorting.{sorted}
use envoy_modsecurity.Prelude.Int.{ℤ}
use envoy_modsecurity.Report.Results.{Results}
use envoy_modsecurity.Report.Rows.{Row}
use envoy_modsecurity.Report.Summary.{Side, traffic_side_counts}
use envoy_modsecurity.Report.Failures.{FailureDetail}
use envoy_modsecurity.Report.Markdown.{
  Metadata, table_line, environment_lines, summary_lines, sides_lines, side_leb, side_line,
  row_line, rows_lines, rows_heading,
}
use envoy_modsecurity.Report.Markdown.Failed.{
  Numbers, lines_before_rows, lines_after_rows, report_lines, write_report,
}

-- The lines after the first that is the heading.
unfoldable pub lines_below : Str → List Str → List Str
lines_below heading [] = []
lines_below heading (line ∷ lines) =
    let rest = lines_below heading lines in if line == heading then lines else rest

-- The leading lines that begin with a bar.
unfoldable pub bar_lines : List Str → List Str
bar_lines [] = []
bar_lines (line ∷ lines) =
    let rest = bar_lines lines in if starts_with line (codes "|") then line ∷ rest else []

-- The rows of a table: after a blank line, the names of the columns and the rule under them.
abbrev pub body_lines : List Str → List Str
body_lines (blank ∷ names ∷ rule ∷ lines) = bar_lines lines
body_lines _ = []

abbrev pub table_below : Str → Str → List Str
table_below heading s = body_lines (lines_below heading (split 0x0a s))

pub lines_below-append :
    (heading : Str) (xs ys : List Str)
    → any (λ l. l == heading) xs ≡ false
    → lines_below heading (xs ++ ys) ≡ lines_below heading ys
unfolding lines_below any
lines_below-append heading [] ys h = refl
lines_below-append heading (x ∷ xs) ys h = ground (arith, lines_below-append heading xs ys)

pub any-map {ℓ} :
    {A : Type ℓ} (p : Str → Bool) (f : A → Str) (xs : List A)
    → ((x : A) → p (f x) ≡ false)
    → any p (map f xs) ≡ false
unfolding any
any-map p f [] h = refl
any-map p f (x ∷ xs) h = ground (arith, h x, any-map p f xs h)

pub none_in_both :
    (p : Str → Bool) (xs ys : List Str)
    → any p xs ≡ false
    → any p ys ≡ false
    → any p (xs ++ ys) ≡ false
none_in_both p xs ys h k = ground (arith, any-append p xs ys)

abbrev is_rows_heading : Str → Bool
is_rows_heading l = l == rows_heading

environment_other :
    (metadata : Metadata)
    → is_rows_heading metadata.qualification ≡ false
    → any is_rows_heading (environment_lines metadata) ≡ false
unfolding any environment_lines list_beq
environment_other metadata h = ground arith

summary_other :
    (percent : ℕ → ℕ → Str) (results : Results) (returncode : ℤ)
    → any is_rows_heading (summary_lines percent results returncode) ≡ false
unfolding any summary_lines list_beq
summary_other percent results returncode = refl

side_other : (x : Str × Side) → is_rows_heading (side_line x) ≡ false
unfolding table_line list_beq
side_other x = refl

sides_other : (rows : List Row) → any is_rows_heading (sides_lines rows) ≡ false
unfolding any sides_lines list_beq
sides_other rows =
    none_in_both is_rows_heading (map side_line (sorted side_leb (traffic_side_counts rows))) _
      (any-map is_rows_heading side_line (sorted side_leb (traffic_side_counts rows)) side_other)
      refl

bar_lines-rows :
    (rows : List Row) (more : List Str)
    → bar_lines (map row_line rows ++ [] ∷ more) ≡ map row_line rows
unfolding bar_lines starts_with table_line
bar_lines-rows [] more = refl
bar_lines-rows (row ∷ rows) more = ap (◌∷◌ (row_line row)) (bar_lines-rows rows more)

module _ (numbers : Numbers) (metadata : Metadata) (results : Results) (rows : List Row)
    (failures : List FailureDetail) (runtime_values : List ℕ) (returncode : ℤ) where
  before_other :
      is_rows_heading metadata.qualification ≡ false
      → any is_rows_heading
          (lines_before_rows numbers metadata results rows failures runtime_values returncode)
        ≡ false
  unfolding lines_before_rows
  before_other q =
      none_in_both is_rows_heading (environment_lines metadata) _ (environment_other metadata q) (
        none_in_both is_rows_heading (summary_lines numbers.percent results returncode)
          (sides_lines rows) (summary_other numbers.percent results returncode) (sides_other rows))

  rows_found :
      is_rows_heading metadata.qualification ≡ false
      → body_lines (
          lines_below rows_heading
            (report_lines numbers metadata results rows failures runtime_values returncode))
        ≡ bar_lines (
            map row_line rows
            ++ []
              ∷ lines_after_rows numbers metadata results rows failures runtime_values returncode)
  unfolding report_lines lines_below rows_lines list_beq
  rows_found q =
      ap body_lines (
        lines_below-append rows_heading
          (lines_before_rows numbers metadata results rows failures runtime_values returncode) _
          (before_other q))
      ∙ ap bar_lines (
          append_assoc (map row_line rows) ([] ∷ [])
            (lines_after_rows numbers metadata results rows failures runtime_values returncode))

  pub read_back :
      any
          (λ l. contains l 0x0a)
          (report_lines numbers metadata results rows failures runtime_values returncode)
        ≡ false
      → split 0x0a (write_report numbers metadata results rows failures runtime_values returncode)
        ≡ report_lines numbers metadata results rows failures runtime_values returncode
  unfolding write_report report_lines lines_before_rows environment_lines
  read_back h = split-join 0x0a _ _ h

  -- From the text of the report, the lines of the table under the heading for rule files are read
  -- back as one line for each row, in the order of the rows, if no line of the report holds a
  -- line break and the qualification is not that heading.
  pub table_below-write_report :
      is_rows_heading metadata.qualification ≡ false
      → any
          (λ l. contains l 0x0a)
          (report_lines numbers metadata results rows failures runtime_values returncode)
        ≡ false
      → table_below rows_heading
          (write_report numbers metadata results rows failures runtime_values returncode)
        ≡ map row_line rows
  unfolding write_report
  table_below-write_report q h =
      ap (λ ls. body_lines (lines_below rows_heading ls)) (read_back h)
      ∙ rows_found q
      ∙ bar_lines-rows rows
          (lines_after_rows numbers metadata results rows failures runtime_values returncode)
