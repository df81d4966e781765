-- ===== src/Report/Rows/Counts.antt =====
-- The columns of `result_rows` (tools/crs-compatibility-report.py) count the results.
use mathlib.Core.Logic.{ite}
use envoy_modsecurity.Prelude.{
  ℕ, ◌+◌, ◌≡◌, refl, ◌∙◌, Bool, true, List, [], ◌∷◌, arith, if◌then◌else◌, ◌==◌, nat_eq, list_eq,
  pair_eq,
}
use envoy_modsecurity.Prelude.Lists.{sum_of, length}
use envoy_modsecurity.Prelude.Dicts.{Dict, values}
use envoy_modsecurity.Prelude.Sorting.{sum_of-sorted}
use envoy_modsecurity.Prelude.Text.{Str}
use envoy_modsecurity.Report.Results.{Results, result_test_ids}
use envoy_modsecurity.Report.Rows.{
  Status, passed, failed, skipped, ignored, forced_pass, forced_fail, all_statuses, result_key, Row,
  tally, bump, Key, row_key, new_row, key_of, add_result, add_results, add_statuses, row_leb,
  result_rows,
}
use envoy_modsecurity.Report.Rows.Steps.{IsKeyed, add_result-IsKeyed, sum_of-add_result}

Status-discrete : Discrete Status
Status-discrete = hlevel

-- What a result of status `s` adds to the column `c`.
abbrev hit : Status → Status → ℕ
hit s c = ite (Status-discrete s c) 1 0

tally-bump : (s c : Status) (r : Row) → tally c (bump s r) ≡ tally c r + hit s c
unfolding bump Status-discrete
tally-bump s c r = ground arith

tally-new : (c : Status) (k : Key) → tally c (new_row k) ≡ 0
tally-new c k = ground arith

bump-key : (s : Status) (r : Row) → row_key (bump s r) ≡ row_key r
unfolding bump
bump-key passed r = refl
bump-key _ r = refl

sum_of-one : {A : Type 0} (xs : List A) → sum_of (λ _. 1) xs ≡ length xs
unfolding sum_of
sum_of-one [] = refl
sum_of-one (x ∷ xs) = omega (arith, sum_of-one xs)

abbrev is_one : ℕ → Bool
is_one n = n == 1

-- A column, over the rows that `select` chooses by their key.
module _ (rule_index : Dict Str Str) (select : Key → Bool) (c : Status) where
  abbrev pub selected : Row → ℕ
  selected r = if select (row_key r) then tally c r else 0

  abbrev gain : Status → Str → ℕ
  gain s id = if select (key_of rule_index id) then hit s c else 0

  selected-bump :
      (s : Status) (id : Str) (r : Row)
      → row_key r ≡ key_of rule_index id
      → selected (bump s r) ≡ selected r + gain s id
  selected-bump s id r h = rw (bump-key s r, h) (ground (arith, tally-bump s c r))

  selected-new : (k : Key) → selected (new_row k) ≡ 0
  selected-new k = ground (arith, tally-new c k)

  step :
      (s : Status) (id : Str) (d : Dict Key Row)
      → IsKeyed d
      → sum_of selected (values (add_result rule_index s id d))
        ≡ sum_of selected (values d) + gain s id
  unfolding add_result
  step s id d h =
      sum_of-add_result selected (key_of rule_index id) s (gain s id)
        (selected-new (key_of rule_index id)) (selected-bump s id) d h

  loop :
      (s : Status) (ids : List Str) (d : Dict Key Row)
      → IsKeyed d
      → (sum_of selected (values (add_results rule_index s ids d))
          ≡ sum_of selected (values d) + sum_of (gain s) ids)
        × IsKeyed (add_results rule_index s ids d)
  unfolding add_results sum_of
  loop s [] d h = (omega arith, h)
  loop s (id ∷ ids) d h =
      let (sums, keyed) =
        loop s ids (add_result rule_index s id d) (add_result-IsKeyed rule_index s id d h) in
      (omega (arith, sums, step s id d h), keyed)

  gains : Results → List Status → ℕ
  gains results [] = 0
  gains results (s ∷ rest) =
      sum_of (gain s) (result_test_ids results (result_key s)) + gains results rest

  loops :
      (results : Results) (statuses : List Status) (d : Dict Key Row)
      → IsKeyed d
      → sum_of selected (values (add_statuses rule_index results statuses d))
        ≡ sum_of selected (values d) + gains results statuses
  unfolding add_statuses gains
  loops results [] d h = omega arith
  loops results (s ∷ rest) d h =
      let (sums, keyed) = loop s (result_test_ids results (result_key s)) d h in
      omega (arith, sums, loops results rest _ keyed)

  -- The results of the other statuses add nothing to the column, and each of its own adds one.
  abbrev pub chosen : Str → ℕ
  chosen id = if select (key_of rule_index id) then 1 else 0

  gains_of_hit :
      (s : Status) (ids : List Str)
      → sum_of (gain s) ids ≡ (if is_one (hit s c) then sum_of chosen ids else 0)
  unfolding sum_of Status-discrete
  gains_of_hit s [] = ground arith
  gains_of_hit s (id ∷ ids) = ground (arith, gains_of_hit s ids)

gains_all :
    (rule_index : Dict Str Str) (select : Key → Bool) (c : Status) (results : Results)
    → gains rule_index select c results all_statuses
      ≡ sum_of (chosen rule_index select c) (result_test_ids results (result_key c))
unfolding gains Status-discrete
gains_all rule_index select c results = elim_status c
  where
    of :
        (c s : Status)
        → sum_of (gain rule_index select c s) (result_test_ids results (result_key s)) ≡ (
            if is_one (hit s c)
            then sum_of (chosen rule_index select c) (result_test_ids results (result_key s))
            else 0)
    of c s = gains_of_hit rule_index select c s (result_test_ids results (result_key s))

    elim_status :
        (c : Status)
        → gains rule_index select c results all_statuses
          ≡ sum_of (chosen rule_index select c) (result_test_ids results (result_key c))
    elim_status passed = omega (
      arith,
      of passed passed,
      of passed failed,
      of passed skipped,
      of passed ignored,
      of passed forced_pass,
      of passed forced_fail,
    )
    elim_status c = omega (
      arith,
      of c passed,
      of c failed,
      of c skipped,
      of c ignored,
      of c forced_pass,
      of c forced_fail,
    )

-- For each status, what the report's rows count for the pairs of phase and category that satisfy
-- a test is the number of the status's result entries whose pair satisfies it: no entry is lost,
-- counted twice or counted in another row.
pub sum_of-result_rows :
    (results : Results) (rule_index : Dict Str Str) (select : Key → Bool) (c : Status)
    → sum_of (λ r. if select (row_key r) then tally c r else 0) (result_rows results rule_index)
      ≡ sum_of
          (λ id. if select (key_of rule_index id) then 1 else 0)
          (result_test_ids results (result_key c))
unfolding result_rows sum_of
sum_of-result_rows results rule_index select c =
    sum_of-sorted row_leb (selected rule_index select c)
      (values (add_statuses rule_index results all_statuses []))
    ∙ omega (
      arith,
      loops rule_index select c results all_statuses [] tt,
      gains_all rule_index select c results,
    )

-- A column's total is the number of the results of that status.
pub column_total :
    (results : Results) (rule_index : Dict Str Str) (c : Status)
    → sum_of (tally c) (result_rows results rule_index)
      ≡ length (result_test_ids results (result_key c))
column_total results rule_index c =
    sum_of-result_rows results rule_index (λ _. true) c ∙ sum_of-one _
