-- ===== src/Report/Rows/Steps.antt =====
-- What one result changes in the dict of rows (`result_rows`, tools/crs-compatibility-report.py).
use envoy_modsecurity.Prelude.{
  ℕ, ◌+◌, ◌≡◌, refl, sym, ◌∙◌, true, false, [], ◌∷◌, arith, ◌==◌, nat_eq, list_eq, pair_eq,
  Bool-cases, beq_refl, inl, inr,
}
use envoy_modsecurity.Prelude.Lists.{sum_of}
use envoy_modsecurity.Prelude.Dicts.{
  Dict, values, has_key, set_item, set_default, update_item, has_key-set_default, HasDistinctKeys,
  set_default-HasDistinctKeys, update_item-HasDistinctKeys,
}
use envoy_modsecurity.Prelude.Text.{Str}
use envoy_modsecurity.Report.Rows.{Status, passed, Row, bump, Key, row_key, new_row, add_result}

-- Every row stands under its own key.
abbrev pub IsKeyed : Dict Key Row → Type 0
IsKeyed [] = Unit
IsKeyed ((k, row) ∷ d) = (row_key row ≡ k) × IsKeyed d

bump-row_key : (s : Status) (r : Row) → row_key (bump s r) ≡ row_key r
unfolding bump
bump-row_key passed r = refl
bump-row_key _ r = refl

update_item-IsKeyed :
    (k : Key) (s : Status) (d : Dict Key Row) → IsKeyed d → IsKeyed (update_item k (bump s) d)
unfolding update_item
update_item-IsKeyed k s [] h = tt
update_item-IsKeyed k s ((j, row) ∷ d) (p, h) = elim (Bool-cases (k == j)) [
  | inl same ↦ rw same (bump-row_key s row ∙ p, h)
  | inr other ↦ rw other (p, update_item-IsKeyed k s d h)
]

set_item-IsKeyed : (k : Key) (d : Dict Key Row) → IsKeyed d → IsKeyed (set_item k (new_row k) d)
unfolding set_item
set_item-IsKeyed k [] h = (refl, tt)
set_item-IsKeyed k ((j, row) ∷ d) (p, h) = elim (Bool-cases (k == j)) [
  | inl same ↦ rw same ((pair_eq.beq_iff k j).0 same, h)
  | inr other ↦ rw other (p, set_item-IsKeyed k d h)
]

set_default-IsKeyed :
    (k : Key) (d : Dict Key Row) → IsKeyed d → IsKeyed (set_default k (new_row k) d)
unfolding set_default
set_default-IsKeyed k d h = elim (Bool-cases (has_key k d)) [
  | inl old ↦ rw old h
  | inr new ↦ rw new (set_item-IsKeyed k d h)
]

module _ (rule_index : Dict Str Str) (s : Status) (id : Str) (d : Dict Key Row) where
  pub add_result-IsKeyed : IsKeyed d → IsKeyed (add_result rule_index s id d)
  unfolding add_result
  add_result-IsKeyed h = update_item-IsKeyed _ s _ (set_default-IsKeyed _ d h)

  pub add_result-HasDistinctKeys :
      HasDistinctKeys d → HasDistinctKeys (add_result rule_index s id d)
  unfolding add_result
  add_result-HasDistinctKeys h =
      update_item-HasDistinctKeys _ (bump s) _ (set_default-HasDistinctKeys _ _ d h)

present : (k : Key) (d : Dict Key Row) → has_key k (set_default k (new_row k) d) ≡ true
present k d = ground (arith, has_key-set_default k k (new_row k) d, beq_refl k)

-- A count over the rows: `f` of a row that was bumped is one more if the row is `weighed`.
module _ (f : Row → ℕ) (k : Key) (s : Status) (one : ℕ) (zero_new : f (new_row k) ≡ 0)
    (bumped : (r : Row) → row_key r ≡ k → f (bump s r) ≡ f r + one) where
  sum_of-update :
      (d : Dict Key Row)
      → IsKeyed d
      → has_key k d ≡ true
      → sum_of f (values (update_item k (bump s) d)) ≡ sum_of f (values d) + one
  unfolding update_item has_key sum_of
  sum_of-update [] h m = cc
  sum_of-update ((j, row) ∷ d) (p, h) m = elim (Bool-cases (k == j)) [
    | inl same ↦ rw same (omega (arith, bumped row (p ∙ sym ((pair_eq.beq_iff k j).0 same))))
    | inr other ↦ rw other (omega (arith, sum_of-update d h (ground arith)))
  ]

  sum_of-set_item :
      (d : Dict Key Row)
      → has_key k d ≡ false
      → sum_of f (values (set_item k (new_row k) d)) ≡ sum_of f (values d)
  unfolding set_item has_key sum_of
  sum_of-set_item [] m = omega (arith, zero_new)
  sum_of-set_item ((j, row) ∷ d) m = elim (Bool-cases (k == j)) [
    | inl same ↦ absurd (ground arith)
    | inr other ↦ rw other (omega (arith, sum_of-set_item d (ground arith)))
  ]

  sum_of-set_default :
      (d : Dict Key Row) → sum_of f (values (set_default k (new_row k) d)) ≡ sum_of f (values d)
  unfolding set_default
  sum_of-set_default d = elim (Bool-cases (has_key k d)) [
    | inl old ↦ rw old
    | inr new ↦ rw new (sum_of-set_item d new)
  ]

  pub sum_of-add_result :
      (d : Dict Key Row)
      → IsKeyed d
      → sum_of f (values (update_item k (bump s) (set_default k (new_row k) d)))
        ≡ sum_of f (values d) + one
  sum_of-add_result d h = omega (
    arith,
    sum_of-set_default d,
    sum_of-update (set_default k (new_row k) d) (set_default-IsKeyed k d h) (present k d),
  )
