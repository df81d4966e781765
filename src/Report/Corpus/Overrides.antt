-- ===== src/Report/Corpus/Overrides.antt =====
-- `parse_upstream_override_ids` (tools/crs-compatibility-report.py), on the lines of the file.
use envoy_modsecurity.Prelude.{
  ℕ, Bool, not, List, [], ◌∷◌, ◌++◌, map, Option, none, some, if◌then◌else◌, ◌==◌, nat_eq, list_eq,
}
use mathlib.Core.List.{reverse}
use envoy_modsecurity.Prelude.Lists.{contains}
use envoy_modsecurity.Prelude.Sets.{to_set}
use envoy_modsecurity.Prelude.Split.{take_while}
use envoy_modsecurity.Prelude.Text.{Str, codes}
use envoy_modsecurity.Report.Corpus.{skip_spaces, after_prefix, skip_quote}
use envoy_modsecurity.Report.Corpus.Metadata.{full_test_id}
use envoy_modsecurity.Report.Corpus.Patterns.{not_empty, is_digit, digits_at}

abbrev pub not_bracket : ℕ → Bool
not_bracket c = not (c == b']')

-- The pattern `^\s*test_ids:\s*\[([^]]*)\]`.
unfoldable pub override_tests_at : Str → Option Str
unfolding skip_spaces after_prefix take_while contains
override_tests_at line = elim (after_prefix (codes "test_ids:") (skip_spaces line)) [
  | none ↦ none
  | some rest ↦ elim (after_prefix (codes "[") (skip_spaces rest)) [
    | none ↦ none
    | some inner ↦ if contains inner b']' then some (take_while not_bracket inner) else none
  ]
]

module _ (digit : ℕ → Option ℕ) where
  -- The pattern `^\s*- rule_id:\s*["']?(\d+)`.
  unfoldable pub override_rule_at : Str → Option Str
  unfolding skip_spaces after_prefix skip_quote take_while
  override_rule_at line = elim (after_prefix (codes "- rule_id:") (skip_spaces line)) [
    | none ↦ none
    | some rest ↦ digits_at digit (skip_quote (skip_spaces rest))
  ]

  -- `re.findall(r"\d+", s)`, with the digits of the run so far, last first.
  unfoldable pub find_runs : Str → Str → List Str
  find_runs run [] = elim (not_empty run) [ none ↦ [] | some digits ↦ reverse digits ∷ [] ]
  find_runs run (c ∷ s) =
      let longer = find_runs (c ∷ run) s in
      let later = find_runs [] s in
      if is_digit digit c
      then longer
      else elim (not_empty run) [ none ↦ later | some digits ↦ reverse digits ∷ later ]

  -- What a line adds after the rule that is current.
  unfoldable pub line_overrides : Option Str → Str → List Str
  unfolding override_tests_at find_runs
  line_overrides none line = []
  line_overrides (some rule_id) line = elim (override_tests_at line) [
    | none ↦ []
    | some inner ↦ map (full_test_id rule_id) (find_runs [] inner)
  ]

  -- The ids in the order in which they are added.
  unfoldable pub override_lines : Option Str → List Str → List Str
  unfolding override_rule_at line_overrides
  override_lines current [] = []
  override_lines current (line ∷ lines) = elim (override_rule_at line) [
    | some rule_id ↦ override_lines (some rule_id) lines
    | none ↦ line_overrides current line ++ override_lines current lines
  ]

  unfoldable pub parse_upstream_override_ids : List Str → List Str
  unfolding override_lines to_set
  parse_upstream_override_ids lines = to_set (override_lines none lines)
