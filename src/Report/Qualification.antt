-- ===== src/Report/Qualification.antt =====
-- `qualification_failures` of tools/crs-compatibility-report.py: the reasons for which a run is
-- not accepted, in the order in which the code appends them.
pub mod Accepted
pub mod Checks
pub mod Decides
pub mod Complete
use envoy_modsecurity.Prelude.{
  ℕ, ◌≡◌, Bool, true, false, not, ◌&&◌, List, [], ◌∷◌, ◌++◌, map, ltb, if◌then◌else◌, ◌==◌, nat_eq,
  list_eq,
}
use envoy_modsecurity.Prelude.Lists.{length, is_empty}
use envoy_modsecurity.Prelude.Sets.{to_set, difference, set_beq, repeated}
use envoy_modsecurity.Prelude.Text.{Str, codes, decimal}
use envoy_modsecurity.Prelude.Int.{ℤ, is_zero, decimal_ℤ}
use envoy_modsecurity.Report.Results.{
  Results, result_test_ids, result_status_keys, collect, summarize_test_ids,
}

-- The keys of REVIEWED_PLATFORM_IGNORES. The reasons beside them are only printed.
abbrev pub reviewed_platform_ignores : List Str
reviewed_platform_ignores = codes "920430-5" ∷ []

-- The arguments of the function.
pub record Run : Type 0 where
  pub results : Results
  pub returncode : ℤ
  pub expected_test_ids : List Str
  pub expected_test_count : ℕ
  pub full_run : Bool
  pub apply_platform_overrides : Bool
  pub fail_on_test_failure : Bool

-- `actual_by_status[key]`
abbrev pub ids : Run → Str → List Str
ids run key = result_test_ids run.results key

abbrev pub all_results : Run → List Str
all_results run = collect run.results result_status_keys

-- One reason, before it is put into words.
pub data Failure : Type 0 where
  exit_status : ℤ → Failure
  skipped_tests duplicate_ids omitted_ids unexpected_ids unreviewed_ignored failed_or_forced :
      List Str → Failure
  corpus_count result_count : (found expected : ℕ) → Failure
  ignored_mismatch ignored_without_overrides : Failure

unfoldable pub message : Failure → Str
message (exit_status n) = codes "go-ftw exited with status " ++ decimal_ℤ n
message (skipped_tests xs) = codes "go-ftw reported skipped tests: " ++ summarize_test_ids xs
message (duplicate_ids xs) = codes "go-ftw reported duplicate test IDs: " ++ summarize_test_ids xs
message (omitted_ids xs) = codes "go-ftw omitted expected test IDs: " ++ summarize_test_ids xs
message (unexpected_ids xs) = codes "go-ftw reported unexpected test IDs: " ++ summarize_test_ids xs
message (unreviewed_ignored xs) =
    codes "go-ftw reported unreviewed ignored tests: " ++ summarize_test_ids xs
message (failed_or_forced xs) =
    codes "go-ftw reported failed or forced tests: " ++ summarize_test_ids xs
message (corpus_count found expected) =
    codes "pinned CRS corpus metadata contains "
    ++ (decimal found ++ (codes " tests; expected " ++ decimal expected))
message (result_count found expected) =
    codes "go-ftw reported "
    ++ (decimal found ++ (codes " result entries; expected " ++ decimal expected))
message ignored_mismatch =
    codes "go-ftw ignored set does not match the reviewed platform exclusions"
message ignored_without_overrides = codes "go-ftw reported ignored tests without platform overrides"

-- `if test: failures.append(failure)`
unfoldable pub when : Bool → Failure → List Failure
when test failure = if test then failure ∷ [] else []

-- `if xs: failures.append(...)`
unfoldable pub when_any : List Str → (List Str → Failure) → List Failure
unfolding when
when_any xs failure = when (not (is_empty xs)) (failure xs)

-- The block under `if full_run`.
unfoldable pub completeness_failures : Run → List Failure
completeness_failures run =
    let expected_ids = to_set run.expected_test_ids in
    let actual_ids = to_set (all_results run) in
    when (not (length expected_ids == run.expected_test_count))
      (corpus_count (length expected_ids) run.expected_test_count)
    ++ (when (not (length (all_results run) == run.expected_test_count))
          (result_count (length (all_results run)) run.expected_test_count)
        ++ (when_any (difference expected_ids actual_ids) omitted_ids
            ++ when_any (difference actual_ids expected_ids) unexpected_ids))

unfoldable pub ignore_failures : Run → List Failure
ignore_failures run =
    let ignored = ids run (codes "ignored") in
    let actual_ignored = to_set ignored in
    let reviewed_ignored = to_set reviewed_platform_ignores in
    when_any (difference actual_ignored reviewed_ignored) unreviewed_ignored
    ++ (when
          (run.apply_platform_overrides
            && run.full_run
            && not (set_beq actual_ignored reviewed_ignored))
          ignored_mismatch
        ++ when (not run.apply_platform_overrides && not (is_empty actual_ignored))
            ignored_without_overrides)

unfoldable pub failed_checks : Run → List Failure
failed_checks run =
    when (not (is_zero run.returncode)) (exit_status run.returncode)
    ++ (when_any (ids run (codes "skipped")) skipped_tests
        ++ (when_any (repeated (all_results run)) duplicate_ids
            ++ ((if run.full_run then completeness_failures run else [])
                ++ (ignore_failures run
                    ++ (if run.fail_on_test_failure
                        then when_any
                            (ids run (codes "failed")
                              ++ (ids run (codes "forced-pass") ++ ids run (codes "forced-fail")))
                            failed_or_forced
                        else [])))))

unfoldable pub qualification_failures : Run → List Str
qualification_failures run = map message (failed_checks run)
