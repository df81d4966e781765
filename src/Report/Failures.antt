-- ===== src/Report/Failures.antt =====
-- `classify_failures` of tools/crs-compatibility-report.py: what is said of each failed test.
pub mod Meaning
pub mod Classes
use envoy_modsecurity.Prelude.{
  ℕ, Bool, true, false, not, ◌&&◌, List, [], ◌∷◌, ◌++◌, Option, none, some, leb, if◌then◌else◌,
  nat_eq, list_eq,
}
use envoy_modsecurity.Prelude.Lists.{contains, is_empty}
use envoy_modsecurity.Prelude.Dicts.{Dict, get}
use envoy_modsecurity.Prelude.Sets.{to_set, difference, intersection}
use envoy_modsecurity.Prelude.Sorting.{sorted}
use envoy_modsecurity.Prelude.Text.{Str, codes}
use envoy_modsecurity.Report.Results.{Results, result_test_ids, or_empty}
use envoy_modsecurity.Report.Rows.{phase_of, or_default}

-- What `create_test_metadata` records of a test.
pub record TestMetadata : Type 0 where
  pub category : Str
  pub expected_ids : List ℕ
  pub forbidden_ids : List ℕ
  pub input_profile : Str
  pub has_log_regex : Bool
  pub has_status_assertion : Bool
  pub expects_error : Bool

-- The defaults that `metadata.get(key, default)` yields for a test that is not in the corpus.
abbrev pub no_metadata : TestMetadata
no_metadata = record {
  category = codes "UNMAPPED";
  expected_ids = [];
  forbidden_ids = [];
  input_profile = codes "unknown";
  has_log_regex = false;
  has_status_assertion = false;
  expects_error = false;
}

pub data Classification : Type 0 where
  missing_and_unexpected missing_expected unexpected_forbidden log_regex_mismatch
        status_or_response_mismatch transport_error_mismatch unclassified :
      Classification

abbrev pub classification_text : Classification → Str
classification_text missing_and_unexpected = codes "missing-and-unexpected-rule-ids"
classification_text missing_expected = codes "missing-expected-rule-id"
classification_text unexpected_forbidden = codes "unexpected-forbidden-rule-id"
classification_text log_regex_mismatch = codes "log-regex-mismatch"
classification_text status_or_response_mismatch = codes "status-or-response-mismatch"
classification_text transport_error_mismatch = codes "transport-error-mismatch"
classification_text unclassified = codes "unclassified-assertion-mismatch"

pub record FailureDetail : Type 0 where
  pub test_id : Str
  pub phase : Str
  pub category : Str
  pub classification : Classification
  pub input_profile : Str
  pub missing_ids : List ℕ
  pub unexpected_ids : List ℕ
  pub triggered_ids : List ℕ
  pub has_upstream_nginx_override : Bool

-- The rule ids of the stages that are not empty or null.
unfoldable pub stage_ids : List (Option (List ℕ)) → List ℕ
stage_ids [] = []
stage_ids (none ∷ stages) = stage_ids stages
stage_ids (some rule_ids ∷ stages) = rule_ids ++ stage_ids stages

-- `triggered`, as a set.
unfoldable pub triggered : Results → Str → List ℕ
unfolding get stage_ids to_set
triggered results test_id =
    to_set (stage_ids (or_empty (get test_id (or_default [] results.triggered_rules))))

unfoldable pub classify : TestMetadata → List ℕ → List ℕ → Classification
classify metadata missing unexpected =
    if not (is_empty missing) && not (is_empty unexpected)
    then missing_and_unexpected
    else if not (is_empty missing)
    then missing_expected
    else if not (is_empty unexpected)
    then unexpected_forbidden
    else if metadata.has_log_regex
    then log_regex_mismatch
    else if metadata.has_status_assertion
    then status_or_response_mismatch
    else if metadata.expects_error
    then transport_error_mismatch
    else unclassified

module _ (results : Results) (test_metadata : Dict Str TestMetadata) (override_ids : List Str) where
  abbrev pub metadata_of : Str → TestMetadata
  metadata_of test_id = or_default no_metadata (get test_id test_metadata)

  -- The body of the loop.
  unfoldable pub failure_detail : Str → FailureDetail
  unfolding classify sorted difference intersection
  failure_detail test_id =
      let metadata = metadata_of test_id in
      let expected = to_set metadata.expected_ids in
      let forbidden = to_set metadata.forbidden_ids in
      let missing = sorted leb (difference expected (triggered results test_id)) in
      let unexpected = sorted leb (intersection forbidden (triggered results test_id)) in
      record {
        test_id = test_id;
        phase = phase_of metadata.category;
        category = metadata.category;
        classification = classify metadata missing unexpected;
        input_profile = metadata.input_profile;
        missing_ids = missing;
        unexpected_ids = unexpected;
        triggered_ids = sorted leb (triggered results test_id);
        has_upstream_nginx_override = contains override_ids test_id;
      }

  unfoldable pub failure_details : List Str → List FailureDetail
  failure_details [] = []
  failure_details (test_id ∷ rest) = failure_detail test_id ∷ failure_details rest

  unfoldable pub classify_failures : List FailureDetail
  classify_failures = failure_details (result_test_ids results (codes "failed"))
