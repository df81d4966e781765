-- ===== src/Report/Results.antt =====
-- The decoded go-ftw results (tools/crs-compatibility-report.py), and the lists of test ids that
-- the report reads from them.
use envoy_modsecurity.Prelude.{
  ℕ, List, [], ◌∷◌, ◌++◌, map, Option, none, some, ltb, if◌then◌else◌, nat_eq, list_eq,
}
use envoy_modsecurity.Prelude.Lists.{length, take}
use envoy_modsecurity.Prelude.Dicts.{Dict, get}
use envoy_modsecurity.Prelude.Sorting.{sorted}
use envoy_modsecurity.Prelude.Text.{Str, codes, join, decimal, str_leb}
use envoy_modsecurity.Prelude.Int.{ℤ, decimal_ℤ}

-- An entry of a status list: a test id as text, or a number, which the report turns into text.
pub data ResultValue : Type 0 where
  text : Str → ResultValue
  number : ℤ → ResultValue

-- The parts of the JSON result that the report reads. `none` is a JSON null, and a key that the
-- dict lacks is a key that the JSON lacks.
pub record Results : Type 0 where
  pub status_lists : Dict Str (Option (List ResultValue))
  pub triggered_rules : Option (Dict Str (Option (List (Option (List ℕ)))))

-- `value if isinstance(value, str) else str(value)`
abbrev pub value_text : ResultValue → Str
value_text (text s) = s
value_text (number n) = decimal_ℤ n

-- `d.get(key) or []`
abbrev pub or_empty {ℓ} : {A : Type ℓ} → Option (Option (List A)) → List A
or_empty none = []
or_empty (some none) = []
or_empty (some (some xs)) = xs

unfoldable pub result_test_ids : Results → Str → List Str
unfolding get
result_test_ids results key = map value_text (or_empty (get key results.status_lists))

abbrev pub result_status_keys : List Str
result_status_keys =
    codes "success"
    ∷ codes "failed"
    ∷ codes "skipped"
    ∷ codes "ignored"
    ∷ codes "forced-pass"
    ∷ codes "forced-fail"
    ∷ []

-- `for key in RESULT_STATUS_KEYS for test_id in actual_by_status[key]`
unfoldable pub collect : Results → List Str → List Str
collect results [] = []
collect results (key ∷ rest) = result_test_ids results key ++ collect results rest

unfoldable pub summarize_test_ids : List Str → Str
unfolding sorted join
summarize_test_ids test_ids =
    let ordered = sorted str_leb test_ids in
    let summary = join (codes ", ") (take 10 ordered) in
    if ltb 10 (length ordered)
    then summary ++ (codes ", ... (" ++ (decimal (length ordered) ++ codes " total)"))
    else summary
