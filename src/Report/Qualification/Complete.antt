-- ===== src/Report/Qualification/Complete.antt =====
-- What a run that passes `qualification_failures` (tools/crs-compatibility-report.py) says of each
-- expected test.
use envoy_modsecurity.Prelude.{
  ◌≡◌, sym, ◌∙◌, ◌⊎◌, inl, inr, Bool, true, false, ◌||◌, List, [], Mem, arith, if◌then◌else◌,
  nat_eq, list_eq,
}
use mathlib.Core.List.{append-nil}
use envoy_modsecurity.Prelude.Lists.{
  contains, count, contains-append, contains_of_mem, mem_of_contains,
}
use envoy_modsecurity.Prelude.Sets.{eq-nil_iff_contains, count_of_le-one}
use envoy_modsecurity.Prelude.Text.{Str, codes}
use envoy_modsecurity.Report.Results.{collect}
use envoy_modsecurity.Report.Qualification.{
  Run, ids, all_results, reviewed_platform_ignores, qualification_failures,
}
use envoy_modsecurity.Report.Qualification.Decides.{qualification_failures-IsAccepted}

-- In a full run without qualification failures every test id is among the results of all statuses
-- exactly once if it is expected, and not at all otherwise.
pub full_run_counts :
    (run : Run) (id : Str)
    → run.full_run ≡ true
    → qualification_failures run ≡ []
    → count id (all_results run) ≡ (if contains run.expected_test_ids id then 1 else 0)
full_run_counts run id full passed =
    let a = (qualification_failures-IsAccepted run).0 passed in
    rw ((a.complete full).same_ids id) (count_of_le-one (all_results run) id (a.none_repeated id))

-- The results are those of the six statuses.
contains-all_results :
    (run : Run) (id : Str)
    → contains (all_results run) id ≡ (
        contains (ids run (codes "success")) id
        || (contains (ids run (codes "failed")) id
            || (contains (ids run (codes "skipped")) id
                || (contains (ids run (codes "ignored")) id
                    || (contains (ids run (codes "forced-pass")) id
                        || contains (ids run (codes "forced-fail")) id)))))
unfolding collect contains
contains-all_results run id = simp (contains-append, append-nil)

-- With four of them empty, two are left.
two_statuses :
    {s f k i p q : Bool}
    → (s || (f || (k || (i || (p || q))))) ≡ true
    → f ≡ false
    → k ≡ false
    → p ≡ false
    → q ≡ false
    → (s ≡ true) ⊎ (i ≡ true)
two_statuses h a b c d = ground arith

contains-nil : (xs : List Str) (id : Str) → xs ≡ [] → contains xs id ≡ false
contains-nil xs id h = (eq-nil_iff_contains xs).0 h id

-- In a full run without qualification failures, where test failures count, every expected test
-- succeeded or is a reviewed platform exclusion that was ignored.
pub full_run_succeeds :
    (run : Run) (id : Str)
    → run.full_run ≡ true
    → run.fail_on_test_failure ≡ true
    → qualification_failures run ≡ []
    → Mem id run.expected_test_ids
    → Mem id (ids run (codes "success"))
      ⊎ (Mem id (ids run (codes "ignored")) × Mem id reviewed_platform_ignores)
full_run_succeeds run id full strict passed m =
    let a = (qualification_failures-IsAccepted run).0 passed in
    let reported =
      sym (contains-all_results run id)
      ∙ sym ((a.complete full).same_ids id)
      ∙ contains_of_mem run.expected_test_ids id m in
    elim (two_statuses reported (contains-nil _ id (a.none_failed strict))
      (contains-nil _ id a.none_skipped) (contains-nil _ id (a.none_forced_pass strict))
      (contains-nil _ id (a.none_forced_fail strict))) [
        | inl ok ↦ inl (mem_of_contains _ id ok)
        | inr ignored ↦ inr (
          mem_of_contains _ id ignored,
          mem_of_contains _ id (a.ignores.only_reviewed id ignored),
        )
      ]
