-- ===== src/Report/Markdown/Frequent.antt =====
-- What the counts in the failure analysis of tools/crs-compatibility-report.py are.
use envoy_modsecurity.Prelude.{
  ℕ, zero, suc, Eq, ◌<◌, ◌≡◌, subst, not, Bool-cases, ◌⊎◌, refl, ◌∙◌, true, List, [], ◌∷◌, map,
  arith, leb, if◌then◌else◌, nat_eq, list_eq, pair_eq, inl, inr,
}
use envoy_modsecurity.Prelude.Counter.{most_common, contains-most_common}
use envoy_modsecurity.Prelude.Counter.Sums.{sum-most_common}
use envoy_modsecurity.Prelude.Counter.Top.{take-most_common}
use envoy_modsecurity.Prelude.Lists.{
  length, take, all, contains, count, sum_of, count-append, count-zero,
}
use envoy_modsecurity.Prelude.Dicts.{Dict}
use envoy_modsecurity.Prelude.Sets.{
  to_set, difference, count-to_set, count-filter-le, count_of_le-one,
}
use envoy_modsecurity.Prelude.Sorting.{count-sorted}
use envoy_modsecurity.Prelude.Text.{Str, codes}
use envoy_modsecurity.Report.Results.{Results, result_test_ids}
use envoy_modsecurity.Report.Rows.{failed}
use envoy_modsecurity.Report.Summary.{status_count}
use envoy_modsecurity.Report.Failures.{
  TestMetadata, metadata_of, triggered, failure_detail, failure_details, classify_failures,
}
use envoy_modsecurity.Report.Markdown.Failed.{classification_of, profile_of, all_missing, frequent}

length-map {ℓ κ} :
    {A : Type ℓ} {B : Type κ} (f : A → B) (xs : List A) → length (map f xs) ≡ length xs
length-map f [] = refl
length-map f (x ∷ xs) = omega (arith, length-map f xs)

contains_of_take {ℓ} :
    {A : Type ℓ} ⦃e : Eq A⦄ (n : ℕ) (xs : List A) (a : A)
    → contains (take n xs) a ≡ true
    → contains xs a ≡ true
unfolding contains
contains_of_take zero xs a h = cc
contains_of_take (suc n) [] a h = cc
contains_of_take (suc n) (x ∷ xs) a h = ground (arith, contains_of_take n xs a)

module _ (results : Results) (test_metadata : Dict Str TestMetadata) (override_ids : List Str) where
  length-failure_details :
      (test_ids : List Str)
      → length (failure_details results test_metadata override_ids test_ids) ≡ length test_ids
  unfolding failure_details
  length-failure_details [] = refl
  length-failure_details (test_id ∷ rest) = omega (arith, length-failure_details rest)

  -- The counts of the classifications, and those of the input profiles, add up to the failed tests.
  pub sum-classes :
      (sum_of
          (λ p. p.1)
          (most_common
            (map classification_of (classify_failures results test_metadata override_ids)))
        ≡ status_count results failed)
      × (sum_of
            (λ p. p.1)
            (most_common (map profile_of (classify_failures results test_metadata override_ids)))
          ≡ status_count results failed)
  unfolding classify_failures
  sum-classes =
      let details = classify_failures results test_metadata override_ids in
      (
        sum-most_common (map classification_of details)
            ∙ length-map classification_of details
            ∙ length-failure_details (result_test_ids results (codes "failed")),
        sum-most_common (map profile_of details)
            ∙ length-map profile_of details
            ∙ length-failure_details (result_test_ids results (codes "failed")),
      )

  -- The test is a failed one that misses the rule.
  missed_once :
      (test_id : Str) (rule_id : ℕ)
      → let missing = (failure_detail results test_metadata override_ids test_id).missing_ids in
        count rule_id missing ≡ (if contains missing rule_id then 1 else 0)
  unfolding failure_detail difference
  missed_once test_id rule_id =
      let expected = to_set (metadata_of results test_metadata override_ids test_id).expected_ids in
      count_of_le-one (failure_detail results test_metadata override_ids test_id).missing_ids
        rule_id
        (omega (
          arith,
          count-sorted leb (difference expected (triggered results test_id)) rule_id,
          count-filter-le (λ x. not (contains (triggered results test_id) x)) expected rule_id,
          count-to_set (metadata_of results test_metadata override_ids test_id).expected_ids
              rule_id,
        ))

  -- How many of the tests miss the rule.
  abbrev pub missing_tests : ℕ → List Str → ℕ
  missing_tests rule_id = sum_of λ test_id.
      if contains (failure_detail results test_metadata override_ids test_id).missing_ids rule_id
      then 1
      else 0

  count-all_missing :
      (rule_id : ℕ) (test_ids : List Str)
      → count rule_id (all_missing (failure_details results test_metadata override_ids test_ids))
        ≡ missing_tests rule_id test_ids
  unfolding all_missing failure_details sum_of count
  count-all_missing rule_id [] = refl
  count-all_missing rule_id (test_id ∷ rest) = omega (
    arith,
    count-append rule_id (failure_detail results test_metadata override_ids test_id).missing_ids
        (all_missing (failure_details results test_metadata override_ids rest)),
    missed_once test_id rule_id,
    count-all_missing rule_id rest,
  )

  counted_tests :
      (rule_id : ℕ)
      → count rule_id (all_missing (classify_failures results test_metadata override_ids))
        ≡ missing_tests rule_id (result_test_ids results (codes "failed"))
  unfolding classify_failures
  counted_tests rule_id = count-all_missing rule_id (result_test_ids results (codes "failed"))

  missing_somewhere :
      (rule_id : ℕ)
      → 0 < missing_tests rule_id (result_test_ids results (codes "failed"))
      → contains (all_missing (classify_failures results test_metadata override_ids)) rule_id ≡ true
  missing_somewhere rule_id h =
      let ids = all_missing (classify_failures results test_metadata override_ids) in
      elim (Bool-cases (contains ids rule_id)) [
        | inl inside ↦ inside
        | inr outside ↦
            absurd (omega (arith, count-zero rule_id ids outside, counted_tests rule_id))
      ]

  -- Each of them is counted with the failed tests that miss it.
  pub frequent-row :
      (rule_id tests : ℕ)
      → contains
          (frequent (all_missing (classify_failures results test_metadata override_ids)))
          (rule_id, tests)
        ≡ true
      → tests ≡ missing_tests rule_id (result_test_ids results (codes "failed"))
  frequent-row rule_id tests h =
      let ids = all_missing (classify_failures results test_metadata override_ids) in
      let (inside, number) =
        (contains-most_common ids rule_id tests).0
          (contains_of_take 20 (most_common ids) (rule_id, tests) h) in
      number ∙ counted_tests rule_id

  -- What the counter's twenty most frequent say of a rule that some failed test misses.
  pub frequent-missing :
      (rule_id : ℕ)
      → 0 < missing_tests rule_id (result_test_ids results (codes "failed"))
      → let ids = all_missing (classify_failures results test_metadata override_ids) in
        let n = missing_tests rule_id (result_test_ids results (codes "failed")) in
        (contains (frequent ids) (rule_id, n) ≡ true)
        ⊎ ((length (frequent ids) ≡ 20) × (all (λ p. leb n p.1) (frequent ids) ≡ true))
  frequent-missing rule_id h =
      let ids = all_missing (classify_failures results test_metadata override_ids) in
      subst
        (λ n.
          (contains (frequent ids) (rule_id, n) ≡ true)
          ⊎ ((length (frequent ids) ≡ 20) × (all (λ p. leb n p.1) (frequent ids) ≡ true)))
        (counted_tests rule_id) (take-most_common 20 ids rule_id (missing_somewhere rule_id h))
