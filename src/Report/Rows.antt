-- ===== src/Report/Rows.antt =====
-- `result_rows` of tools/crs-compatibility-report.py: the results counted by status, a row for
-- each traffic side and rule file.
pub mod Steps
pub mod Counts
pub mod Order
use envoy_modsecurity.Prelude.{
  ℕ, suc, Bool, List, [], ◌∷◌, Option, none, some, if◌then◌else◌, ◌==◌, nat_eq, list_eq, pair_eq,
}
use envoy_modsecurity.Prelude.Dicts.{Dict, get, values, set_default, update_item}
use envoy_modsecurity.Prelude.Sorting.{sorted}
use envoy_modsecurity.Prelude.Text.{Str, codes, starts_with, before_last, str_leb}
use envoy_modsecurity.Report.Results.{Results, result_test_ids}

-- The columns of a row, in the order in which the code counts them.
pub data Status : Type 0 where
  passed failed skipped ignored forced_pass forced_fail : Status

abbrev pub all_statuses : List Status
all_statuses = passed ∷ failed ∷ skipped ∷ ignored ∷ forced_pass ∷ forced_fail ∷ []

-- The key of the go-ftw result that a column is read from.
abbrev pub result_key : Status → Str
result_key passed = codes "success"
result_key failed = codes "failed"
result_key skipped = codes "skipped"
result_key ignored = codes "ignored"
result_key forced_pass = codes "forced-pass"
result_key forced_fail = codes "forced-fail"

pub record Row : Type 0 where
  pub phase : Str
  pub category : Str
  pub n_passed : ℕ
  pub n_failed : ℕ
  pub n_skipped : ℕ
  pub n_ignored : ℕ
  pub n_forced_pass : ℕ
  pub n_forced_fail : ℕ

-- `row[status]`
abbrev pub tally : Status → Row → ℕ
tally passed r = r.n_passed
tally failed r = r.n_failed
tally skipped r = r.n_skipped
tally ignored r = r.n_ignored
tally forced_pass r = r.n_forced_pass
tally forced_fail r = r.n_forced_fail

-- `row[status] += 1`
unfoldable pub bump : Status → Row → Row
bump passed r = record r { n_passed = suc r.n_passed }
bump failed r = record r { n_failed = suc r.n_failed }
bump skipped r = record r { n_skipped = suc r.n_skipped }
bump ignored r = record r { n_ignored = suc r.n_ignored }
bump forced_pass r = record r { n_forced_pass = suc r.n_forced_pass }
bump forced_fail r = record r { n_forced_fail = suc r.n_forced_fail }

abbrev pub Key : Type 0
Key = Str × Str

abbrev pub row_key : Row → Key
row_key r = (r.phase, r.category)

abbrev pub new_row : Key → Row
new_row (phase, category) = record {
  phase = phase;
  category = category;
  n_passed = 0;
  n_failed = 0;
  n_skipped = 0;
  n_ignored = 0;
  n_forced_pass = 0;
  n_forced_fail = 0;
}

-- `d.get(key, default)`
abbrev pub or_default {ℓ} : {A : Type ℓ} → A → Option A → A
or_default a none = a
or_default a (some b) = b

-- The traffic side, from the name of the rule file.
unfoldable pub phase_of : Str → Str
phase_of category =
    if starts_with category (codes "REQUEST-")
    then codes "request"
    else if starts_with category (codes "RESPONSE-")
    then codes "response"
    else codes "other"

module _ (rule_index : Dict Str Str) where
  unfoldable pub key_of : Str → Key
  unfolding before_last get phase_of starts_with
  key_of test_id =
      let category = or_default (codes "UNMAPPED") (get (before_last b'-' test_id) rule_index) in
      (phase_of category, category)

  -- The body of the inner loop.
  unfoldable pub add_result : Status → Str → Dict Key Row → Dict Key Row
  unfolding set_default update_item bump
  add_result status test_id rows =
      let key = key_of test_id in update_item key (bump status) (set_default key (new_row key) rows)

  unfoldable pub add_results : Status → List Str → Dict Key Row → Dict Key Row
  add_results status [] rows = rows
  add_results status (test_id ∷ rest) rows =
      add_results status rest (add_result status test_id rows)

  unfoldable pub add_statuses : Results → List Status → Dict Key Row → Dict Key Row
  add_statuses results [] rows = rows
  add_statuses results (status ∷ rest) rows =
      add_statuses results rest
        (add_results status (result_test_ids results (result_key status)) rows)

-- `key(a) <= key(b)`, on pairs of texts.
unfoldable pub row_leb : Row → Row → Bool
row_leb a b = if a.phase == b.phase then str_leb a.category b.category else str_leb a.phase b.phase

unfoldable pub result_rows : Results → Dict Str Str → List Row
unfolding sorted
result_rows results rule_index =
    sorted row_leb (values (add_statuses rule_index results all_statuses []))
