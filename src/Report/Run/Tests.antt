-- ===== src/Report/Run/Tests.antt =====
-- Runs of `run` (tools/crs-compatibility-report.py), and its theorems at them.
use envoy_modsecurity.Prelude.{
  ℕ, zero, suc, ◌≤◌, ◌≡◌, refl, ap, ◌∙◌, ◌↔◌, ◌⊎◌, inl, inr, true, false, List, [], ◌∷◌, map, none,
  some, Mem, arith, ◌==◌, nat_eq, list_eq, Bool-cases,
}
use mathlib.Core.List.{mem-cons, append-nil}
use mathlib.Core.Logic.Or
use envoy_modsecurity.Prelude.Equality.{list_beq}
use envoy_modsecurity.Prelude.Lists.{length, all, contains, count, count-zero}
use envoy_modsecurity.Prelude.Dicts.{get}
use envoy_modsecurity.Prelude.Sets.{to_set, contains-to_set}
use envoy_modsecurity.Prelude.Text.{Str, codes, str_beq_iff}
use envoy_modsecurity.Prelude.Int.{pos}
use envoy_modsecurity.Report.Results.{text, value_text, result_test_ids, collect}
use envoy_modsecurity.Report.Qualification.{ids, all_results, reviewed_platform_ignores}
use envoy_modsecurity.Report.Qualification.Accepted.{IsAccepted}
use envoy_modsecurity.Report.Run.{
  Args, Outside, validate, exit_status, run, qualification_run, expected_crs_test_count,
}
use envoy_modsecurity.Report.Run.Released.{IsReleased, run-IsReleased}
use envoy_modsecurity.Report.Run.Ends.{Completes, run_zero-IsAccepted, run_zero_succeeds}

abbrev sample_outside : Outside
sample_outside = record {
  fails = elim [ validate ↦ true | _ ↦ false ];
  envoy = record { by_itself = false; on_terminate = true; on_kill = true };
  albedo = record { by_itself = false; on_terminate = false; on_kill = true };
  returncode = pos 0;
  results = record {
    status_lists = (codes "success", some (text (codes "100-1") ∷ [])) ∷ [];
    triggered_rules = none;
  };
  corpus_ids = codes "100-1" ∷ [];
}

abbrev sample_args : Args
sample_args = record {
  include = some (codes "^100");
  exclude = none;
  apply_platform_overrides = false;
  fail_on_test_failure = true;
}

run-IsReleased_example : IsReleased (run sample_outside sample_args).1
run-IsReleased_example = run-IsReleased sample_outside sample_args refl refl

run_zero-IsAccepted_example :
    (exit_status (run sample_outside sample_args).0 ≡ 0)
    ↔ (Completes sample_outside × IsAccepted (qualification_run sample_outside sample_args))
run_zero-IsAccepted_example = run_zero-IsAccepted sample_outside sample_args

-- As many different test ids as the pinned corpus has: the texts of one character.
many_ids : ℕ → List Str
many_ids zero = []
many_ids (suc n) = (n ∷ []) ∷ many_ids n

fresh : (n m : ℕ) → n ≤ m → contains (many_ids n) (m ∷ []) ≡ false
unfolding many_ids contains list_beq
fresh zero m h = refl
fresh (suc n) m h = ground (arith, fresh n m)

length-to_set-many_ids : (n : ℕ) → length (to_set (many_ids n)) ≡ n
unfolding many_ids to_set
length-to_set-many_ids zero = refl
length-to_set-many_ids (suc n) = ground (
  arith,
  contains-to_set (many_ids n) (n ∷ []),
  fresh n n (omega arith),
  length-to_set-many_ids n,
)

length-many_ids : (n : ℕ) → length (many_ids n) ≡ n
unfolding many_ids
length-many_ids zero = refl
length-many_ids (suc n) = omega (arith, length-many_ids n)

count-many_ids : (n : ℕ) (id : Str) → count id (many_ids n) ≤ 1
unfolding many_ids count
count-many_ids zero id = omega arith
count-many_ids (suc n) id = elim (Bool-cases (id == (n ∷ []))) [
  | inl same ↦
      let is_n = (str_beq_iff id (n ∷ [])).0 same in
      let none_left : count id (many_ids n) ≡ 0 =
        count-zero id (many_ids n) (rw is_n (fresh n n (omega arith))) in
      ground arith
  | inr other ↦ ground (arith, count-many_ids n id)
]

abbrev pinned : List Str
pinned = many_ids expected_crs_test_count

abbrev full_outside : Outside
full_outside = record sample_outside {
  fails = λ a. false;
  results = record {
    status_lists = (codes "success", some (map text pinned)) ∷ [];
    triggered_rules = none;
  };
  corpus_ids = pinned;
}

abbrev full_args : Args
full_args = record sample_args { include = none }

text_values : (xs : List Str) → map value_text (map text xs) ≡ xs
text_values [] = refl
text_values (x ∷ xs) = ap (◌∷◌ x) (text_values xs)

full_results : all_results (qualification_run full_outside full_args) ≡ pinned
unfolding collect result_test_ids get list_beq
full_results = append-nil (map value_text (map text pinned)) ∙ text_values pinned

full_outside-IsAccepted : IsAccepted (qualification_run full_outside full_args)
unfolding result_test_ids get list_beq contains
full_outside-IsAccepted = record {
  exited = refl;
  none_skipped = refl;
  none_repeated = λ id. rw full_results (count-many_ids expected_crs_test_count id);
  complete = λ _. record {
    corpus = length-to_set-many_ids expected_crs_test_count;
    entries = rw full_results (length-many_ids expected_crs_test_count);
    same_ids = λ id. rw full_results refl;
  };
  ignores = record {
    only_reviewed = λ id h. cc;
    all_reviewed = λ h. cc;
    none_without_overrides = λ _. refl;
  };
  none_failed = λ _. refl;
  none_forced_pass = λ _. refl;
  none_forced_fail = λ _. refl;
}

full_outside-Completes : Completes full_outside
unfolding all
full_outside-Completes = record {
  first = refl;
  opening = refl;
  body = refl;
  last = refl;
  envoy = refl;
  albedo = refl;
}

full_run_passes : exit_status (run full_outside full_args).0 ≡ 0
full_run_passes =
    (run_zero-IsAccepted full_outside full_args).1 (full_outside-Completes, full_outside-IsAccepted)

first_pinned : (n : ℕ) → Mem (n ∷ []) (many_ids (suc n))
unfolding many_ids
first_pinned n = mem-cons.1 (Or.inl refl)

run_zero_succeeds_example :
    Mem (5002 ∷ []) (ids (qualification_run full_outside full_args) (codes "success"))
    ⊎ (Mem (5002 ∷ []) (ids (qualification_run full_outside full_args) (codes "ignored"))
        × Mem (5002 ∷ []) reviewed_platform_ignores)
run_zero_succeeds_example =
    run_zero_succeeds full_outside full_args (5002 ∷ []) full_run_passes refl refl refl
      (first_pinned 5002)
