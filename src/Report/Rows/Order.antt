-- ===== src/Report/Rows/Order.antt =====
-- The order of the rows of `result_rows` (tools/crs-compatibility-report.py): sorted by traffic
-- side and rule file, with one row for each pair.
use mathlib.Core.List.Perm
use envoy_modsecurity.Prelude.{
  ◌≡◌, refl, sym, subst, true, false, List, [], ◌∷◌, map, Nodup, arith, nat_eq, list_eq, pair_eq,
}
use envoy_modsecurity.Prelude.Dicts.{Dict, keys, values, HasDistinctKeys, keys-Nodup}
use envoy_modsecurity.Prelude.Sorting.{IsSorted, TotalOrder, sorted-IsSorted, sorted-perm}
use envoy_modsecurity.Prelude.Text.{Str, str_leb-TotalOrder, str_leb_antisym, str_beq_iff}
use envoy_modsecurity.Report.Results.{Results}
use envoy_modsecurity.Report.Rows.{
  Status, all_statuses, Row, Key, row_key, add_results, add_statuses, row_leb, result_rows,
}
use envoy_modsecurity.Report.Rows.Steps.{IsKeyed, add_result-IsKeyed, add_result-HasDistinctKeys}

-- The dict of rows is well formed.
abbrev IsRows : Dict Key Row → Type 0
IsRows d = IsKeyed d × HasDistinctKeys d

module _ (rule_index : Dict Str Str) where
  add_results-IsRows :
      (s : Status) (ids : List Str) (d : Dict Key Row)
      → IsRows d
      → IsRows (add_results rule_index s ids d)
  unfolding add_results
  add_results-IsRows s [] d h = h
  add_results-IsRows s (id ∷ ids) d (k, h) =
      add_results-IsRows s ids _
        (add_result-IsKeyed rule_index s id d k, add_result-HasDistinctKeys rule_index s id d h)

  add_statuses-IsRows :
      (results : Results) (statuses : List Status) (d : Dict Key Row)
      → IsRows d
      → IsRows (add_statuses rule_index results statuses d)
  unfolding add_statuses
  add_statuses-IsRows results [] d h = h
  add_statuses-IsRows results (s ∷ rest) d h =
      add_statuses-IsRows results rest _ (add_results-IsRows s _ d h)

keys-values : (d : Dict Key Row) → IsKeyed d → map row_key (values d) ≡ keys d
keys-values [] h = refl
keys-values ((k, row) ∷ d) (p, h) = rw (p, keys-values d h)

row_leb_total : (a b : Row) → row_leb a b ≡ false → row_leb b a ≡ true
unfolding row_leb
row_leb_total a b h = ground (
  arith,
  str_beq_iff a.phase b.phase,
  str_beq_iff b.phase a.phase,
  str_leb-TotalOrder.total a.phase b.phase,
  str_leb-TotalOrder.total a.category b.category,
)

row_leb_trans : (a b c : Row) → row_leb a b ≡ true → row_leb b c ≡ true → row_leb a c ≡ true
unfolding row_leb
row_leb_trans a b c h k = ground (
  arith,
  str_beq_iff a.phase b.phase,
  str_beq_iff b.phase c.phase,
  str_beq_iff a.phase c.phase,
  str_leb-TotalOrder.trans a.phase b.phase c.phase,
  str_leb-TotalOrder.trans a.category b.category c.category,
  str_leb_antisym a.phase b.phase,
)

row_leb-TotalOrder : TotalOrder row_leb
row_leb-TotalOrder = record { total = row_leb_total; trans = row_leb_trans }

-- The report's rows are in ascending order of phase and category, and no two rows are for the
-- same pair.
pub result_rows-IsSorted :
    (results : Results) (rule_index : Dict Str Str)
    → IsSorted row_leb (result_rows results rule_index)
      × Nodup (map row_key (result_rows results rule_index))
unfolding result_rows
result_rows-IsSorted results rule_index =
    let d = add_statuses rule_index results all_statuses [] in
    let (keyed, distinct) = add_statuses-IsRows rule_index results all_statuses [] (tt, tt) in
    (
      sorted-IsSorted row_leb row_leb-TotalOrder (values d),
      Perm.nodup (Perm.symm (Perm.map row_key (sorted-perm row_leb (values d))))
          (subst Nodup (sym (keys-values d keyed)) (keys-Nodup d distinct)),
    )
