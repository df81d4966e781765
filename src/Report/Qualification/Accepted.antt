-- ===== src/Report/Qualification/Accepted.antt =====
-- What it means that `qualification_failures` (tools/crs-compatibility-report.py) accepts a run.
use envoy_modsecurity.Prelude.{◌≤◌, ◌≡◌, true, false, [], nat_eq, list_eq}
use envoy_modsecurity.Prelude.Lists.{length, contains, count}
use envoy_modsecurity.Prelude.Sets.{to_set}
use envoy_modsecurity.Prelude.Text.{Str, codes}
use envoy_modsecurity.Prelude.Int.{pos}
use envoy_modsecurity.Report.Qualification.{Run, ids, all_results, reviewed_platform_ignores}

-- A run that covers the pinned corpus: as many tests as expected, as many results, and a result
-- for exactly the expected tests.
pub record IsComplete (run : Run) : Type 0 where
  pub corpus : length (to_set run.expected_test_ids) ≡ run.expected_test_count
  pub entries : length (all_results run) ≡ run.expected_test_count
  pub same_ids : (id : Str) → contains run.expected_test_ids id ≡ contains (all_results run) id

-- The ignored tests are reviewed, and are all the reviewed ones in a full run with overrides.
pub record IgnoresAreReviewed (run : Run) : Type 0 where
  pub only_reviewed :
      (id : Str)
      → contains (ids run (codes "ignored")) id ≡ true
      → contains reviewed_platform_ignores id ≡ true
  pub all_reviewed :
      run.apply_platform_overrides ≡ true
      → run.full_run ≡ true
      → (id : Str) → contains (ids run (codes "ignored")) id ≡ contains reviewed_platform_ignores id
  pub none_without_overrides : run.apply_platform_overrides ≡ false → ids run (codes "ignored") ≡ []

pub record IsAccepted (run : Run) : Type 0 where
  pub exited : run.returncode ≡ pos 0
  pub none_skipped : ids run (codes "skipped") ≡ []
  pub none_repeated : (id : Str) → count id (all_results run) ≤ 1
  pub complete : run.full_run ≡ true → IsComplete run
  pub ignores : IgnoresAreReviewed run
  pub none_failed : run.fail_on_test_failure ≡ true → ids run (codes "failed") ≡ []
  pub none_forced_pass : run.fail_on_test_failure ≡ true → ids run (codes "forced-pass") ≡ []
  pub none_forced_fail : run.fail_on_test_failure ≡ true → ids run (codes "forced-fail") ≡ []
