-- ===== src/Report/Summary.antt =====
-- The numbers of `write_report` (tools/crs-compatibility-report.py): the totals, and the table of
-- traffic sides.
pub mod Sides
use envoy_modsecurity.Prelude.{ℕ, ◌+◌, List, [], ◌∷◌, none, some, nat_eq, list_eq}
use envoy_modsecurity.Prelude.Lists.{length}
use envoy_modsecurity.Prelude.Dicts.{Dict, get, set_default, update_item}
use envoy_modsecurity.Prelude.Text.{Str}
use envoy_modsecurity.Report.Results.{Results, result_test_ids}
use envoy_modsecurity.Report.Rows.{
  Status, passed, failed, skipped, ignored, forced_pass, forced_fail, result_key, Row, tally,
}

-- `counts[status]`
abbrev pub status_count : Results → Status → ℕ
status_count results status = length (result_test_ids results (result_key status))

-- `sum(counts.values())`
unfoldable pub total : Results → ℕ
total results =
    status_count results passed
    + (status_count results failed
        + (status_count results skipped
            + (status_count results ignored
                + (status_count results forced_pass + status_count results forced_fail))))

unfoldable pub evaluated : Results → ℕ
evaluated results = status_count results passed + status_count results failed

-- A value of `traffic_side_counts`, whose keys are the six statuses.
abbrev pub Side : Type 0
Side = Status → ℕ

abbrev pub empty_side : Side
empty_side status = 0

-- The body of the loop over the rows.
unfoldable pub add_row : Row → Dict Str Side → Dict Str Side
unfolding set_default update_item
add_row row sides =
    update_item row.phase (λ side status. side status + tally status row)
      (set_default row.phase empty_side sides)

unfoldable pub add_rows : List Row → Dict Str Side → Dict Str Side
add_rows [] sides = sides
add_rows (row ∷ rows) sides = add_rows rows (add_row row sides)

unfoldable pub traffic_side_counts : List Row → Dict Str Side
traffic_side_counts rows = add_rows rows []

-- What the table shows for a side, which has no line where the side is missing.
abbrev pub side_count : Str → Status → Dict Str Side → ℕ
side_count phase status sides = elim (get phase sides) [ none ↦ 0 | some side ↦ side status ]
