-- ===== src/Report/Failures/Meaning.antt =====
-- The rule ids and the classification that `classify_failures` (tools/crs-compatibility-report.py)
-- reports for a test, against the ids that the test expects, forbids and triggered.
use envoy_modsecurity.Prelude.{
  ℕ, ◌≡◌, refl, sym, ◌∙◌, ◌↔◌, inl, inr, Bool, true, false, not, ◌&&◌, List, [], ◌∷◌, Mem, Option,
  none, some, arith, leb, nat_eq, list_eq, Bool-cases,
}
use envoy_modsecurity.Prelude.Tests.{and_iff}
use envoy_modsecurity.Prelude.Lists.{contains, contains-append, contains_of_mem, mem_of_contains}
use envoy_modsecurity.Prelude.Dicts.{Dict, get}
use envoy_modsecurity.Prelude.Sets.{
  to_set, difference, intersection, contains-difference, contains-intersection, contains-to_set,
}
use envoy_modsecurity.Prelude.Sorting.{contains-sorted, IsSorted, sorted-IsSorted, leb-TotalOrder}
use envoy_modsecurity.Prelude.Text.{Str}
use envoy_modsecurity.Report.Results.{Results, or_empty}
use envoy_modsecurity.Report.Rows.{or_default}
use envoy_modsecurity.Report.Failures.{
  TestMetadata, FailureDetail, stage_ids, triggered, metadata_of, failure_detail,
}

module _ (results : Results) (test_metadata : Dict Str TestMetadata) (override_ids : List Str)
    (test_id : Str) where
  abbrev pub detail : FailureDetail
  detail = failure_detail results test_metadata override_ids test_id

  abbrev pub meta : TestMetadata
  meta = metadata_of results test_metadata override_ids test_id

  pub contains-missing_ids :
      (rule : ℕ)
      → contains detail.missing_ids rule
        ≡ (contains meta.expected_ids rule && not (contains (triggered results test_id) rule))
  unfolding failure_detail
  contains-missing_ids rule =
      contains-sorted leb _ rule
      ∙ contains-difference _ _ rule
      ∙ ground (arith, contains-to_set meta.expected_ids rule)

  pub contains-unexpected_ids :
      (rule : ℕ)
      → contains detail.unexpected_ids rule
        ≡ (contains meta.forbidden_ids rule && contains (triggered results test_id) rule)
  unfolding failure_detail
  contains-unexpected_ids rule =
      contains-sorted leb _ rule
      ∙ contains-intersection _ _ rule
      ∙ ground (arith, contains-to_set meta.forbidden_ids rule)

  missing-IsSorted : IsSorted leb detail.missing_ids
  unfolding failure_detail
  missing-IsSorted =
      sorted-IsSorted leb leb-TotalOrder
        (difference (to_set meta.expected_ids) (triggered results test_id))

  unexpected-IsSorted : IsSorted leb detail.unexpected_ids
  unfolding failure_detail
  unexpected-IsSorted =
      sorted-IsSorted leb leb-TotalOrder
        (intersection (to_set meta.forbidden_ids) (triggered results test_id))

-- Some stage of the test reported the rule.
pub data Fires (rule : ℕ) : List (Option (List ℕ)) → Type 0 where
  now :
      {ids : List ℕ} {stages : List (Option (List ℕ))}
      → Mem rule ids
      → Fires rule (some ids ∷ stages)
  later :
      {stage : Option (List ℕ)} {stages : List (Option (List ℕ))}
      → Fires rule stages
      → Fires rule (stage ∷ stages)

Fires-stage_ids :
    {rule : ℕ} {stages : List (Option (List ℕ))}
    → Fires rule stages
    → contains (stage_ids stages) rule ≡ true
unfolding stage_ids
Fires-stage_ids {rule} (now {ids} {stages} m) =
    ground (arith, contains-append ids (stage_ids stages) rule, contains_of_mem ids rule m)
Fires-stage_ids {rule} (later {stage = none} f) = Fires-stage_ids f
Fires-stage_ids {rule} (later {stage = some ids} {stages} f) =
    ground (arith, contains-append ids (stage_ids stages) rule, Fires-stage_ids f)

stage_ids-Fires :
    (rule : ℕ) (stages : List (Option (List ℕ)))
    → contains (stage_ids stages) rule ≡ true
    → Fires rule stages
unfolding stage_ids contains
stage_ids-Fires rule [] h = cc
stage_ids-Fires rule (none ∷ stages) h = later (stage_ids-Fires rule stages h)
stage_ids-Fires rule (some ids ∷ stages) h = elim (Bool-cases (contains ids rule)) [
  | inl found ↦ now (mem_of_contains ids rule found)
  | inr other ↦
      later
        (stage_ids-Fires rule stages (ground (arith, contains-append ids (stage_ids stages) rule)))
]

-- The stages that go-ftw reported for a test.
abbrev pub stages_of : Results → Str → List (Option (List ℕ))
stages_of results test_id = or_empty (get test_id (or_default [] results.triggered_rules))

pub triggered_iff :
    (results : Results) (test_id : Str) (rule : ℕ)
    → (contains (triggered results test_id) rule ≡ true) ↔ Fires rule (stages_of results test_id)
unfolding triggered
triggered_iff results test_id rule = (
  λ h. stage_ids-Fires rule _ (sym (contains-to_set _ rule) ∙ h),
  λ f. contains-to_set _ rule ∙ Fires-stage_ids f,
)

and-not_iff : (a b : Bool) → ((a && not b) ≡ true) ↔ ((a ≡ true) × ¬ (b ≡ true))
and-not_iff true true = (λ h. cc, λ h. absurd (h.1 refl))
and-not_iff true false = (λ h. (refl, λ k. cc), λ _. refl)
and-not_iff false b = (λ h. cc, λ h. cc)

module _ (results : Results) (test_metadata : Dict Str TestMetadata) (override_ids : List Str)
    (test_id : Str) where
  -- In the detail of a failed test the missing ids are, in ascending order, the expected rules
  -- that fired in no stage of the test, and the unexpected ids the forbidden rules that fired in
  -- some stage.
  pub failure_detail_ids :
      ((rule : ℕ)
        → Mem rule (failure_detail results test_metadata override_ids test_id).missing_ids ↔ (
            Mem rule (metadata_of results test_metadata override_ids test_id).expected_ids
            × ¬ Fires rule (stages_of results test_id)))
      × ((rule : ℕ)
          → Mem rule (failure_detail results test_metadata override_ids test_id).unexpected_ids ↔ (
              Mem rule (metadata_of results test_metadata override_ids test_id).forbidden_ids
              × Fires rule (stages_of results test_id)))
      × IsSorted leb (failure_detail results test_metadata override_ids test_id).missing_ids
      × IsSorted leb (failure_detail results test_metadata override_ids test_id).unexpected_ids
  failure_detail_ids = (
    λ rule. (
      λ m.
          let (expected, silent) = (and-not_iff _ _).0 (
            sym (contains-missing_ids results test_metadata override_ids test_id rule)
            ∙ contains_of_mem _ rule m) in
          (mem_of_contains _ rule expected, λ f. silent ((triggered_iff results test_id rule).1 f)),
      λ (m, silent). mem_of_contains _ rule (
          contains-missing_ids results test_metadata override_ids test_id rule
          ∙ (and-not_iff _ _).1
              (contains_of_mem _ rule m, λ t. silent ((triggered_iff results test_id rule).0 t))),
    ),
    λ rule. (
      λ m.
          let (forbidden, fired) = (and_iff _ _).0 (
            sym (contains-unexpected_ids results test_metadata override_ids test_id rule)
            ∙ contains_of_mem _ rule m) in
          (mem_of_contains _ rule forbidden, (triggered_iff results test_id rule).0 fired),
      λ (m, fired). mem_of_contains _ rule (
          contains-unexpected_ids results test_metadata override_ids test_id rule
          ∙ (and_iff _ _).1
              (contains_of_mem _ rule m, (triggered_iff results test_id rule).1 fired)),
    ),
    missing-IsSorted results test_metadata override_ids test_id,
    unexpected-IsSorted results test_metadata override_ids test_id,
  )
