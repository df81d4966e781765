-- ===== src/Report/Summary/Sides.antt =====
-- The totals and the table of traffic sides of `write_report` (tools/crs-compatibility-report.py)
-- agree with the results.
use envoy_modsecurity.Prelude.{
  ◌+◌, ◌≡◌, refl, ◌∙◌, true, List, [], ◌∷◌, arith, if◌then◌else◌, ◌==◌, nat_eq, list_eq, pair_eq,
  beq_refl,
}
use envoy_modsecurity.Prelude.Lists.{length, sum_of, length-append}
use envoy_modsecurity.Prelude.Dicts.{
  Dict, get, has_key, set_default, update_item, get-set_default, has_key-set_default, get-none_iff,
}
use envoy_modsecurity.Prelude.Text.{Str, str_beq_iff}
use envoy_modsecurity.Report.Results.{Results, result_test_ids, result_status_keys, collect}
use envoy_modsecurity.Report.Rows.{Status, result_key, Row, tally, key_of, result_rows}
use envoy_modsecurity.Report.Rows.Counts.{sum_of-result_rows}
use envoy_modsecurity.Report.Summary.{
  Side, empty_side, add_row, add_rows, traffic_side_counts, side_count, total,
}

side_count-update :
    (phase key : Str) (c : Status) (row : Row) (sides : Dict Str Side)
    → has_key key sides ≡ true
    → side_count phase c (update_item key (λ side status. side status + tally status row) sides)
      ≡ side_count phase c sides + (if key == phase then tally c row else 0)
unfolding update_item get has_key
side_count-update phase key c row [] h = cc
side_count-update phase key c row ((k, side) ∷ sides) h = ground (
  arith,
  str_beq_iff key k,
  str_beq_iff phase k,
  str_beq_iff key phase,
  side_count-update phase key c row sides,
)

side_count-set_default :
    (phase key : Str) (c : Status) (sides : Dict Str Side)
    → side_count phase c (set_default key empty_side sides) ≡ side_count phase c sides
side_count-set_default phase key c sides = ground (
  arith,
  get-set_default key phase empty_side sides,
  str_beq_iff phase key,
  get-none_iff phase sides,
)

side_count-add_rows :
    (phase : Str) (c : Status) (rows : List Row) (sides : Dict Str Side)
    → side_count phase c (add_rows rows sides)
      ≡ side_count phase c sides
        + sum_of (λ row. if row.phase == phase then tally c row else 0) rows
unfolding add_rows add_row sum_of
side_count-add_rows phase c [] sides = omega arith
side_count-add_rows phase c (row ∷ rows) sides =
    let present : has_key row.phase (set_default row.phase empty_side sides) ≡ true =
      ground
        (arith, has_key-set_default row.phase row.phase empty_side sides, beq_refl row.phase) in
    omega (
      arith,
      side_count-add_rows phase c rows (add_row row sides),
      side_count-update phase row.phase c row (set_default row.phase empty_side sides) present,
      side_count-set_default phase row.phase c sides,
    )

-- For each traffic side and status, what the report's table counts is the number of the status's
-- result entries whose rule file is on that side.
pub traffic_side_counts_lem :
    (results : Results) (rule_index : Dict Str Str) (phase : Str) (c : Status)
    → side_count phase c (traffic_side_counts (result_rows results rule_index))
      ≡ sum_of
          (λ id. if (key_of rule_index id).0 == phase then 1 else 0)
          (result_test_ids results (result_key c))
unfolding traffic_side_counts get
traffic_side_counts_lem results rule_index phase c = omega (
  arith,
  side_count-add_rows phase c (result_rows results rule_index) [],
  sum_of-result_rows results rule_index (λ key. key.0 == phase) c,
)

length-collect :
    (results : Results) (keys : List Str)
    → length (collect results keys) ≡ sum_of (λ key. length (result_test_ids results key)) keys
unfolding collect sum_of
length-collect results [] = refl
length-collect results (key ∷ keys) =
    length-append (result_test_ids results key) (collect results keys)
    ∙ omega (arith, length-collect results keys)

-- The report's total is the number of the results of all statuses that the qualification counts.
pub total_lem : (results : Results) → total results ≡ length (collect results result_status_keys)
unfolding total sum_of
total_lem results = omega (arith, length-collect results result_status_keys)
