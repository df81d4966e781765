-- ===== src/Report/Qualification/Checks.antt =====
-- Each block of checks in `qualification_failures` (tools/crs-compatibility-report.py) appends
-- nothing exactly when what it checks holds.
use envoy_modsecurity.Prelude.{
  ◌≡◌, refl, sym, ◌∙◌, ◌↔◌, Bool, true, false, not, ◌&&◌, List, [], ◌∷◌, ◌++◌, arith, nat_eq,
  list_eq,
}
use envoy_modsecurity.Prelude.Tests.{nat_beq_iff, Bool-eq_of_iff}
use envoy_modsecurity.Prelude.Lists.{is_empty, contains}
use envoy_modsecurity.Prelude.Sets.{
  to_set, difference, set_beq, set_beq_iff, contains-to_set, contains-difference,
  eq-nil_iff_contains,
}
use envoy_modsecurity.Prelude.Text.{Str, codes}
use envoy_modsecurity.Report.Qualification.{
  Run, ids, reviewed_platform_ignores, Failure, when, when_any, completeness_failures,
  ignore_failures,
}
use envoy_modsecurity.Report.Qualification.Accepted.{IsComplete, IgnoresAreReviewed}

pub append-nil_iff {ℓ} : {A : Type ℓ} (xs ys : List A) → (xs ++ ys ≡ []) ↔ ((xs ≡ []) × (ys ≡ []))
append-nil_iff [] ys = (λ h. (refl, h), λ h. h.1)
append-nil_iff (x ∷ xs) ys = (λ h. cc, λ h. cc)

pub when-nil_iff : (b : Bool) (f : Failure) → (when b f ≡ []) ↔ (b ≡ false)
unfolding when
when-nil_iff b f = ground arith

pub when_any-nil_iff : (xs : List Str) (f : List Str → Failure) → (when_any xs f ≡ []) ↔ (xs ≡ [])
unfolding when_any when
when_any-nil_iff [] f = (λ _. refl, λ _. refl)
when_any-nil_iff (x ∷ xs) f = (λ h. cc, λ h. cc)

pub not-false : (b : Bool) → (not b ≡ false) ↔ (b ≡ true)
not-false b = ground arith

difference-nil_iff :
    (s t : List Str)
    → (difference (to_set s) (to_set t) ≡ [])
      ↔ ((id : Str) → contains s id ≡ true → contains t id ≡ true)
difference-nil_iff s t = (
  λ h id m. ground (
    arith,
    (eq-nil_iff_contains (difference (to_set s) (to_set t))).0 h id,
    contains-difference (to_set s) (to_set t) id,
    contains-to_set s id,
    contains-to_set t id,
  ),
  λ h. (eq-nil_iff_contains (difference (to_set s) (to_set t))).1 λ id. ground (
    arith,
    h id,
    contains-difference (to_set s) (to_set t) id,
    contains-to_set s id,
    contains-to_set t id,
  ),
)

mismatch_inv : (o f b : Bool) → o ≡ true → f ≡ true → (o && f && not b) ≡ false → b ≡ true
mismatch_inv o f b p q h = ground arith

without_inv :
    (o : Bool) (xs : List Str) → o ≡ false → (not o && not (is_empty xs)) ≡ false → xs ≡ []
without_inv o [] p h = refl
without_inv o (x ∷ xs) p h = ground arith

to_set-nil : (xs : List Str) → to_set xs ≡ [] → xs ≡ []
to_set-nil xs h =
    (eq-nil_iff_contains xs).1
      (λ id. sym (contains-to_set xs id) ∙ (eq-nil_iff_contains (to_set xs)).0 h id)

mismatch_lem : (o f b : Bool) → (o ≡ true → f ≡ true → b ≡ true) → (o && f && not b) ≡ false
mismatch_lem false f b h = refl
mismatch_lem true false b h = refl
mismatch_lem true true b h = ground (arith, h refl refl)

without_lem :
    (o : Bool) (xs : List Str) → (o ≡ false → xs ≡ []) → (not o && not (is_empty xs)) ≡ false
without_lem true xs h = refl
without_lem false xs h = rw (h refl)

nil-to_set : (xs : List Str) → xs ≡ [] → to_set xs ≡ []
unfolding to_set
nil-to_set xs h = rw h

module _ (run : Run) where
  pub completeness_failures-IsComplete : completeness_failures run ≡ [] → IsComplete run
  unfolding completeness_failures
  completeness_failures-IsComplete h =
      let (corpus, h₁) = (append-nil_iff _ _).0 h in
      let (entries, h₂) = (append-nil_iff _ _).0 h₁ in
      let (omitted, unexpected) = (append-nil_iff _ _).0 h₂ in
      let missing = (difference-nil_iff _ _).0 ((when_any-nil_iff _ _).0 omitted) in
      let extra = (difference-nil_iff _ _).0 ((when_any-nil_iff _ _).0 unexpected) in
      record {
        corpus = (nat_beq_iff _ _).0 ((not-false _).0 ((when-nil_iff _ _).0 corpus));
        entries = (nat_beq_iff _ _).0 ((not-false _).0 ((when-nil_iff _ _).0 entries));
        same_ids = λ id. Bool-eq_of_iff _ _ (missing id) (extra id);
      }

  pub IsComplete-completeness_failures : IsComplete run → completeness_failures run ≡ []
  unfolding completeness_failures
  IsComplete-completeness_failures c = (append-nil_iff _ _).1 (
    (when-nil_iff _ _).1 ((not-false _).1 ((nat_beq_iff _ _).1 c.corpus)),
    (append-nil_iff _ _).1 (
      (when-nil_iff _ _).1 ((not-false _).1 ((nat_beq_iff _ _).1 c.entries)),
      (append-nil_iff _ _).1 (
        (when_any-nil_iff _ _).1 ((difference-nil_iff _ _).1 (λ id m. sym (c.same_ids id) ∙ m)),
        (when_any-nil_iff _ _).1 ((difference-nil_iff _ _).1 (λ id m. c.same_ids id ∙ m)),
      ),
    ),
  )

  -- The test of the second check on ignored tests.
  abbrev mismatch : Bool
  mismatch =
      run.apply_platform_overrides
      && run.full_run
      && not (set_beq (to_set (ids run (codes "ignored"))) (to_set reviewed_platform_ignores))

  sets_agree :
      set_beq (to_set (ids run (codes "ignored"))) (to_set reviewed_platform_ignores) ≡ true
      → (id : Str) → contains (ids run (codes "ignored")) id ≡ contains reviewed_platform_ignores id
  sets_agree h id =
      sym (contains-to_set (ids run (codes "ignored")) id)
      ∙ (set_beq_iff _ _).0 h id
      ∙ contains-to_set reviewed_platform_ignores id

  pub ignore_failures-IgnoresAreReviewed : ignore_failures run ≡ [] → IgnoresAreReviewed run
  unfolding ignore_failures
  ignore_failures-IgnoresAreReviewed h =
      let (unreviewed, h₁) = (append-nil_iff _ _).0 h in
      let (mismatched, without) = (append-nil_iff _ _).0 h₁ in
      let none_mismatched : mismatch ≡ false = (when-nil_iff _ _).0 mismatched in
      record {
        only_reviewed = (difference-nil_iff _ _).0 ((when_any-nil_iff _ _).0 unreviewed);
        all_reviewed = λ o f. sets_agree (mismatch_inv _ _ _ o f none_mismatched);
        none_without_overrides =
            λ o. to_set-nil _ (without_inv _ _ o ((when-nil_iff _ _).0 without));
      }

  pub IgnoresAreReviewed-ignore_failures : IgnoresAreReviewed run → ignore_failures run ≡ []
  unfolding ignore_failures
  IgnoresAreReviewed-ignore_failures r = (append-nil_iff _ _).1 (
    (when_any-nil_iff _ _).1 ((difference-nil_iff _ _).1 r.only_reviewed),
    (append-nil_iff _ _).1 (
      (when-nil_iff _ _).1 (
          mismatch_lem _ _ _ (λ o f. (set_beq_iff _ _).1 λ id.
            contains-to_set (ids run (codes "ignored")) id
            ∙ r.all_reviewed o f id
            ∙ sym (contains-to_set reviewed_platform_ignores id))),
      (when-nil_iff _ _).1 (without_lem _ _ (λ o. nil-to_set _ (r.none_without_overrides o))),
    ),
  )
