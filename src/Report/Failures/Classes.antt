-- ===== src/Report/Failures/Classes.antt =====
-- The classification of a failed test (`classify_failures`, tools/crs-compatibility-report.py)
-- against the rules that fired.
use mathlib.Core.Bool.{false≢true}
use envoy_modsecurity.Prelude.{
  ℕ, ◌≡◌, refl, sym, ◌∙◌, ◌↔◌, Bool, true, false, not, ◌&&◌, List, [], ◌∷◌, Mem, arith,
  if◌then◌else◌, nat_eq, list_eq,
}
use envoy_modsecurity.Prelude.Tests.{and_iff}
use envoy_modsecurity.Prelude.Lists.{contains, is_empty, contains_of_mem, mem_of_contains}
use envoy_modsecurity.Prelude.Dicts.{Dict}
use envoy_modsecurity.Prelude.Sets.{eq-nil_iff_contains}
use envoy_modsecurity.Prelude.Sorting.{}
use envoy_modsecurity.Prelude.Text.{Str}
use envoy_modsecurity.Report.Results.{Results}
use envoy_modsecurity.Report.Failures.{
  TestMetadata, Classification, missing_and_unexpected, missing_expected, unexpected_forbidden,
  log_regex_mismatch, status_or_response_mismatch, transport_error_mismatch, unclassified, classify,
  metadata_of, failure_detail,
}
use envoy_modsecurity.Report.Failures.Meaning.{
  Fires, stages_of, contains-missing_ids, contains-unexpected_ids, triggered_iff,
}

-- The classifications that blame a rule id.
abbrev pub blames_missing : Classification → Bool
blames_missing missing_and_unexpected = true
blames_missing missing_expected = true
blames_missing _ = false

abbrev pub blames_unexpected : Classification → Bool
blames_unexpected missing_and_unexpected = true
blames_unexpected unexpected_forbidden = true
blames_unexpected _ = false

-- The classifications that the flags of a test choose.
abbrev pub class_of_flags : TestMetadata → Classification
class_of_flags m =
    if m.has_log_regex
    then log_regex_mismatch
    else if m.has_status_assertion
    then status_or_response_mismatch
    else if m.expects_error
    then transport_error_mismatch
    else unclassified

classify_blames :
    (m : TestMetadata) (missing unexpected : List ℕ)
    → (blames_missing (classify m missing unexpected) ≡ not (is_empty missing))
      × (blames_unexpected (classify m missing unexpected) ≡ not (is_empty unexpected))
unfolding classify
classify_blames m missing unexpected = ground arith

classify_flags :
    (m : TestMetadata) (missing unexpected : List ℕ)
    → missing ≡ []
    → unexpected ≡ []
    → classify m missing unexpected ≡ class_of_flags m
unfolding classify
classify_flags m missing unexpected h k = rw (h, k)

contains_of_empty : (xs : List ℕ) (rule : ℕ) → not (is_empty xs) ≡ false → contains xs rule ≡ false
unfolding contains
contains_of_empty [] rule h = refl
contains_of_empty (x ∷ xs) rule h = cc

empty_of_contains :
    (xs : List ℕ) → ((rule : ℕ) → contains xs rule ≡ false) → not (is_empty xs) ≡ false
empty_of_contains xs h = rw ((eq-nil_iff_contains xs).1 h)

member_inv : (c e t : Bool) → (e && not t) ≡ c → c ≡ false → e ≡ true → t ≡ true
member_inv c e t p h k = ground arith

member_lem : (e t : Bool) → (e ≡ true → t ≡ true) → (e && not t) ≡ false
member_lem true t h = ground (arith, h refl)
member_lem false t h = refl

no_member_lem : (e t : Bool) → (e ≡ true → t ≡ true → ⊥) → (e && t) ≡ false
no_member_lem true true h = absurd (h refl refl)
no_member_lem true false h = refl
no_member_lem false t h = refl

module _ (results : Results) (test_metadata : Dict Str TestMetadata) (override_ids : List Str)
    (test_id : Str) where
  blames-missing_ids :
      (blames_missing (failure_detail results test_metadata override_ids test_id).classification
        ≡ not (is_empty (failure_detail results test_metadata override_ids test_id).missing_ids))
      × (blames_unexpected
            (failure_detail results test_metadata override_ids test_id).classification
          ≡ not
              (is_empty (failure_detail results test_metadata override_ids test_id).unexpected_ids))
  unfolding failure_detail
  blames-missing_ids = classify_blames (metadata_of results test_metadata override_ids test_id) _ _

  -- The classification of a failed test leaves the expected rules unblamed exactly when all of
  -- them fired in some stage of the test, and the forbidden rules exactly when none of them
  -- fired.
  pub failure_detail_blames :
      ((blames_missing (failure_detail results test_metadata override_ids test_id).classification
          ≡ false)
        ↔ ((rule : ℕ)
            → Mem rule (metadata_of results test_metadata override_ids test_id).expected_ids
            → Fires rule (stages_of results test_id)))
      × ((blames_unexpected
              (failure_detail results test_metadata override_ids test_id).classification
            ≡ false)
          ↔ ((rule : ℕ)
              → Mem rule (metadata_of results test_metadata override_ids test_id).forbidden_ids
              → ¬ Fires rule (stages_of results test_id)))
  failure_detail_blames =
      let (missing, unexpected) = blames-missing_ids in
      (
        (
          λ h rule m. (triggered_iff results test_id rule).0 (
              member_inv _ _ _
                (sym (contains-missing_ids results test_metadata override_ids test_id rule))
                (contains_of_empty _ rule (sym missing ∙ h)) (contains_of_mem _ rule m)),
          λ h.
              missing
              ∙ empty_of_contains _ λ rule.
                contains-missing_ids results test_metadata override_ids test_id rule
                ∙ member_lem _ _
                    λ e. (triggered_iff results test_id rule).1 (h rule (mem_of_contains _ rule e)),
        ),
        (
          λ h rule m f. false≢true (
              sym (contains_of_empty _ rule (sym unexpected ∙ h))
              ∙ contains-unexpected_ids results test_metadata override_ids test_id rule
              ∙ (and_iff _ _).1
                  (contains_of_mem _ rule m, (triggered_iff results test_id rule).1 f)),
          λ h.
              unexpected
              ∙ empty_of_contains _ λ rule.
                contains-unexpected_ids results test_metadata override_ids test_id rule
                ∙ no_member_lem _ _ λ e t.
                  h rule (mem_of_contains _ rule e) ((triggered_iff results test_id rule).0 t),
        ),
      )
