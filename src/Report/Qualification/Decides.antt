-- ===== src/Report/Qualification/Decides.antt =====
-- The whole of `qualification_failures` (tools/crs-compatibility-report.py) against its meaning.
use envoy_modsecurity.Prelude.{
  ◌≡◌, refl, ◌↔◌, Bool, true, false, List, [], ◌∷◌, map, if◌then◌else◌, nat_eq, list_eq,
}
use envoy_modsecurity.Prelude.Sets.{repeated-eq-nil_iff}
use envoy_modsecurity.Prelude.Int.{is_zero_iff}
use envoy_modsecurity.Report.Qualification.{Run, failed_checks, qualification_failures}
use envoy_modsecurity.Report.Qualification.Accepted.{IsAccepted}
use envoy_modsecurity.Report.Qualification.Checks.{
  append-nil_iff, when-nil_iff, when_any-nil_iff, not-false, completeness_failures-IsComplete,
  IsComplete-completeness_failures, ignore_failures-IgnoresAreReviewed,
  IgnoresAreReviewed-ignore_failures,
}

map-nil_iff {ℓ κ} :
    {A : Type ℓ} {B : Type κ} (f : A → B) (xs : List A) → (map f xs ≡ []) ↔ (xs ≡ [])
map-nil_iff f [] = (λ _. refl, λ _. refl)
map-nil_iff f (x ∷ xs) = (λ h. cc, λ h. cc)

if-nil_iff {ℓ} :
    {A : Type ℓ} (b : Bool) (xs : List A) → ((if b then xs else []) ≡ []) ↔ (b ≡ true → xs ≡ [])
if-nil_iff true xs = (λ h _. h, λ h. h refl)
if-nil_iff false xs = (λ _ h. cc, λ _. refl)

module _ (run : Run) where
  failed_checks-IsAccepted : failed_checks run ≡ [] → IsAccepted run
  unfolding failed_checks
  failed_checks-IsAccepted h =
      let (exited, h₁) = (append-nil_iff _ _).0 h in
      let (skipped, h₂) = (append-nil_iff _ _).0 h₁ in
      let (duplicates, h₃) = (append-nil_iff _ _).0 h₂ in
      let (complete, h₄) = (append-nil_iff _ _).0 h₃ in
      let (ignored, strict) = (append-nil_iff _ _).0 h₄ in
      let forced = λ (o : run.fail_on_test_failure ≡ true).
        (append-nil_iff _ _).0 ((when_any-nil_iff _ _).0 ((if-nil_iff _ _).0 strict o)) in
      record {
        exited = (is_zero_iff _).0 ((not-false _).0 ((when-nil_iff _ _).0 exited));
        none_skipped = (when_any-nil_iff _ _).0 skipped;
        none_repeated = (repeated-eq-nil_iff _).0 ((when_any-nil_iff _ _).0 duplicates);
        complete = λ full. completeness_failures-IsComplete run ((if-nil_iff _ _).0 complete full);
        ignores = ignore_failures-IgnoresAreReviewed run ignored;
        none_failed = λ o. (forced o).0;
        none_forced_pass = λ o. ((append-nil_iff _ _).0 (forced o).1).0;
        none_forced_fail = λ o. ((append-nil_iff _ _).0 (forced o).1).1;
      }

  IsAccepted-failed_checks : IsAccepted run → failed_checks run ≡ []
  unfolding failed_checks
  IsAccepted-failed_checks a = (append-nil_iff _ _).1 (
    (when-nil_iff _ _).1 ((not-false _).1 ((is_zero_iff _).1 a.exited)),
    (append-nil_iff _ _).1 (
      (when_any-nil_iff _ _).1 a.none_skipped,
      (append-nil_iff _ _).1 (
        (when_any-nil_iff _ _).1 ((repeated-eq-nil_iff _).1 a.none_repeated),
        (append-nil_iff _ _).1 (
          (if-nil_iff _ _).1 (λ full. IsComplete-completeness_failures run (a.complete full)),
          (append-nil_iff _ _).1 (
            IgnoresAreReviewed-ignore_failures run a.ignores,
            (if-nil_iff _ _).1 λ o. (when_any-nil_iff _ _).1 (
                (append-nil_iff _ _).1 (
                  a.none_failed o,
                  (append-nil_iff _ _).1 (a.none_forced_pass o, a.none_forced_fail o),
                )),
          ),
        ),
      ),
    ),
  )

-- A run has no qualification failure exactly when it is accepted: go-ftw exited with 0, it
-- skipped no test and reported none twice; in a full run the expected ids are distinctly as many
-- as the pinned count, so are the results, and the reported ids are the expected ones; every
-- ignored test is a reviewed one, a full run with platform overrides ignores all reviewed ones,
-- and without overrides none is ignored; and where test failures count, no test failed or was
-- forced.
pub qualification_failures-IsAccepted :
    (run : Run) → (qualification_failures run ≡ []) ↔ IsAccepted run
unfolding qualification_failures
qualification_failures-IsAccepted run = (
  λ h. failed_checks-IsAccepted run ((map-nil_iff _ _).0 h),
  λ a. (map-nil_iff _ _).1 (IsAccepted-failed_checks run a),
)
