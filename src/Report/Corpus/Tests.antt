-- ===== src/Report/Corpus/Tests.antt =====
-- A block of the test corpus, and the theorem on it (tools/crs-compatibility-report.py).
use envoy_modsecurity.Prelude.{
  ℕ, ◌-◌, ◌≡◌, refl, ◌&&◌, false, List, [], ◌∷◌, Option, none, some, arith, leb, if◌then◌else◌,
  nat_eq,
}
use envoy_modsecurity.Prelude.Text.{Str, codes, is_space, starts_with}
use envoy_modsecurity.Report.Corpus.{
  skip_spaces, indentation, after_prefix, key_match, skip_quote, leading_number, find_numbers,
  line_values, parse_numeric_list,
}
use envoy_modsecurity.Report.Corpus.Block.{AreItems, EndsList, parse_numeric_list-block}

-- The ASCII digits.
abbrev ascii_digit : ℕ → Option ℕ
ascii_digit c = if leb b'0' c && leb c b'9' then some (c - b'0') else none

flow_style :
    parse_numeric_list ascii_digit
      (codes "expect_ids")
      (codes "  expect_ids: [920100, 920200]" ∷ [])
    ≡ 920100 ∷ 920200 ∷ []
unfolding parse_numeric_list line_values key_match after_prefix skip_spaces indentation is_space
    starts_with find_numbers
flow_style = refl

abbrev sample_items : List (Str × ℕ)
sample_items = (codes "920100", 920100) ∷ (codes "'920200' # second", 920200) ∷ []

abbrev sample_tail : List Str
sample_tail = codes "  no_expect_ids: [1]" ∷ []

items_read : AreItems ascii_digit sample_items
unfolding leading_number skip_quote skip_spaces is_space
items_read = (refl, (refl, tt))

tail_ends : EndsList 2 sample_tail
unfolding skip_spaces indentation is_space
tail_ends = (refl, omega arith)

no_space : is_space b'e' ≡ false
unfolding is_space
no_space = refl

parse_numeric_list-block_example :
    parse_numeric_list ascii_digit
      (codes "expect_ids")
      (codes "  expect_ids:" ∷ codes "    - 920100" ∷ codes "    - '920200' # second" ∷ sample_tail)
    ≡ 920100 ∷ 920200 ∷ parse_numeric_list ascii_digit (codes "expect_ids") sample_tail
parse_numeric_list-block_example =
    parse_numeric_list-block b'e' (codes "xpect_ids") no_space refl ascii_digit 2 4 sample_items
      sample_tail (omega arith) items_read tail_ends
