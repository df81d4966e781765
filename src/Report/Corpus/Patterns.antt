-- ===== src/Report/Corpus/Patterns.antt =====
-- The regular expressions with which tools/crs-compatibility-report.py searches a test file. `^`
-- and `$` are those of `(?m)`, and `\s*` may pass the end of a line. `digit` is as in
-- `parse_numeric_list`.
use envoy_modsecurity.Prelude.{
  ℕ, Bool, true, false, not, ◌&&◌, ◌||◌, [], ◌∷◌, Option, none, some, leb, if◌then◌else◌, ◌==◌,
  nat_eq,
}
use envoy_modsecurity.Prelude.Lists.{is_empty}
use envoy_modsecurity.Prelude.Split.{take_while, drop_while}
use envoy_modsecurity.Prelude.Text.{Str, codes, is_space}
use envoy_modsecurity.Report.Corpus.{skip_spaces, indentation, after_prefix, is_quote, skip_quote}

-- `re.search` of a pattern that begins with `^`: the first line start at which it matches. The flag
-- says that the text begins a line.
unfoldable pub search {ℓ} : {A : Type ℓ} → (Str → Option A) → Bool → Str → Option A
search f begins [] = if begins then f [] else none
search f begins (c ∷ s) =
    let rest = search f (c == b'\n') s in
    if begins then elim (f (c ∷ s)) [ some a ↦ some a | none ↦ rest ] else rest

-- The same for a pattern without groups.
unfoldable pub occurs : (Str → Bool) → Bool → Str → Bool
occurs p begins [] = begins && p []
occurs p begins (c ∷ s) = (begins && p (c ∷ s)) || occurs p (c == b'\n') s

-- `\s*$`
unfoldable pub at_line_end : Str → Bool
at_line_end [] = true
at_line_end (c ∷ s) = let rest = at_line_end s in c == b'\n' || (is_space c && rest)

-- `\s*(?:#.*)?$`
unfoldable pub at_comment : Str → Bool
at_comment [] = true
at_comment (c ∷ s) = let rest = at_comment s in c == b'\n' || c == b'#' || (is_space c && rest)

-- A group with `+`, which has a character.
abbrev pub not_empty : Str → Option Str
not_empty [] = none
not_empty (c ∷ s) = some (c ∷ s)

-- `[^\s"']`
abbrev pub is_id_char : ℕ → Bool
is_id_char c = not (is_space c || is_quote c)

-- The pattern `^rule_id:\s*["']?([^\s"']+)`.
unfoldable pub rule_id_at : Str → Option Str
unfolding skip_spaces after_prefix skip_quote take_while
rule_id_at s = elim (after_prefix (codes "rule_id:") s) [
  | none ↦ none
  | some rest ↦ not_empty (take_while is_id_char (skip_quote (skip_spaces rest)))
]

-- `(?:no_)?`
unfoldable pub skip_no : Str → Str
unfolding after_prefix
skip_no s = elim (after_prefix (codes "no_") s) [ none ↦ s | some rest ↦ rest ]

-- The pattern `^\s*(?:no_)?match_regex:`.
unfoldable pub log_regex_at : Str → Bool
unfolding skip_no skip_spaces after_prefix
log_regex_at s = elim (after_prefix (codes "match_regex:") (skip_no (skip_spaces s))) [
  | none ↦ false
  | some rest ↦ true
]

-- The pattern `^\s*expect_error:\s*true\s*$`.
unfoldable pub expect_error_at : Str → Bool
unfolding skip_spaces after_prefix
expect_error_at s = elim (after_prefix (codes "expect_error:") (skip_spaces s)) [
  | none ↦ false
  | some rest ↦ elim (after_prefix (codes "true") (skip_spaces rest)) [
    | none ↦ false
    | some after ↦ at_line_end after
  ]
]

-- `(?:  - test_id:|    test_id:)`
unfoldable pub after_test_key : Str → Option Str
unfolding after_prefix
after_test_key s = elim (after_prefix (codes "  - test_id:") s) [
  | some rest ↦ some rest
  | none ↦ after_prefix (codes "    test_id:") s
]

module _ (digit : ℕ → Option ℕ) where
  -- `\d`
  abbrev pub is_digit : ℕ → Bool
  is_digit c = elim (digit c) [ none ↦ false | some d ↦ true ]

  -- `(\d+)` at the beginning of the text, and what follows.
  abbrev pub digits_at : Str → Option Str
  digits_at s = not_empty (take_while is_digit s)

  -- `(\d+)\s*(?:#.*)?$`
  unfoldable pub numbered : Str → Option Str
  unfolding take_while drop_while
  numbered s = if at_comment (drop_while is_digit s) then digits_at s else none

  -- The pattern `^(?:  - test_id:|    test_id:)\s*(\d+)\s*(?:#.*)?$`.
  unfoldable pub test_id_at : Str → Option Str
  unfolding after_test_key skip_spaces numbered
  test_id_at s = elim (after_test_key s) [ none ↦ none | some rest ↦ numbered (skip_spaces rest) ]

  -- The pattern `^\s{8,}status:\s*\d+`.
  unfoldable pub status_at : Str → Bool
  unfolding skip_spaces after_prefix take_while
  status_at s = elim (after_prefix (codes "status:") (skip_spaces s)) [
    | none ↦ false
    | some rest ↦ leb 8 (indentation s) && not (is_empty (take_while is_digit (skip_spaces rest)))
  ]
