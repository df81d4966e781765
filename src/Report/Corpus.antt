-- ===== src/Report/Corpus.antt =====
-- How tools/crs-compatibility-report.py reads the CRS test corpus: `parse_numeric_list`, whose block
-- is the list of its lines here. `digit` is the value of a character that the pattern `\d` matches, by
-- Python's Unicode tables.
pub mod Block
pub mod Patterns
pub mod Metadata
pub mod Overrides
pub mod Retries
pub mod Written
pub mod RuleLine
pub mod Found
mod FileTests
mod Tests
use envoy_modsecurity.Prelude.{
  ℕ, suc, ◌+◌, ◌*◌, Bool, true, false, ◌||◌, List, [], ◌∷◌, ◌++◌, Option, none, some, leb,
  if◌then◌else◌, ◌==◌, nat_eq,
}
use envoy_modsecurity.Prelude.Lists.{is_empty}
use envoy_modsecurity.Prelude.Text.{Str, codes, is_space, starts_with}

-- `s.lstrip()`, and what the pattern `\s*` leaves.
unfoldable pub skip_spaces : Str → Str
skip_spaces [] = []
skip_spaces (c ∷ s) = let rest = skip_spaces s in if is_space c then rest else c ∷ s

-- `len(s) - len(s.lstrip())`
unfoldable pub indentation : Str → ℕ
indentation [] = 0
indentation (c ∷ s) = let rest = indentation s in if is_space c then suc rest else 0

-- The text after a prefix that it has.
unfoldable pub after_prefix : Str → Str → Option Str
after_prefix [] s = some s
after_prefix (d ∷ p) [] = none
after_prefix (d ∷ p) (c ∷ s) = let rest = after_prefix p s in if c == d then rest else none

-- The pattern `^(\s*)key:\s*(.*)$`: the indentation and the remainder.
unfoldable pub key_match : Str → Str → Option (ℕ × Str)
key_match key line = elim (after_prefix (key ++ codes ":") (skip_spaces line)) [
  | none ↦ none
  | some remainder ↦ some (indentation line, skip_spaces remainder)
]

abbrev pub is_quote : ℕ → Bool
is_quote c = c == b'"' || c == b'\''

-- `["']?`
unfoldable pub skip_quote : Str → Str
skip_quote [] = []
skip_quote (c ∷ s) = if is_quote c then s else c ∷ s

-- The number so far with one more digit.
abbrev pub add_digit : Option ℕ → ℕ → Option ℕ
add_digit none d = some d
add_digit (some n) d = some (n * 10 + d)

abbrev pub found {ℓ} : {A : Type ℓ} → Option A → List A
found none = []
found (some a) = a ∷ []

module _ (digit : ℕ → Option ℕ) where
  -- `int` of the digits at the beginning, from the number so far; `none` where there is none.
  unfoldable pub leading_number : Str → Option ℕ → Option ℕ
  leading_number [] so_far = so_far
  leading_number (c ∷ s) so_far = elim (digit c) [
    | none ↦ so_far
    | some d ↦ leading_number s (add_digit so_far d)
  ]

  -- `[int(value) for value in re.findall(r"\d+", s)]`, in a run of digits or not.
  unfoldable pub find_numbers : Str → Option ℕ → List ℕ
  find_numbers [] so_far = found so_far
  find_numbers (c ∷ s) so_far = elim (digit c) [
    | none ↦ found so_far ++ find_numbers s none
    | some d ↦ find_numbers s (add_digit so_far d)
  ]

  -- The pattern `^\s*-\s*["']?(\d+)`.
  unfoldable pub item_match : Str → Option ℕ
  unfolding skip_quote
  item_match line = elim (after_prefix (codes "-") (skip_spaces line)) [
    | none ↦ none
    | some rest ↦ leading_number (skip_quote (skip_spaces rest)) none
  ]

  -- The loop over the following lines.
  unfoldable pub following_items : ℕ → List Str → List ℕ
  following_items indent [] = []
  following_items indent (line ∷ lines) =
      let rest = following_items indent lines in
      if is_empty (skip_spaces line)
      then rest
      else if leb (indentation line) indent
      then []
      else found (item_match line) ++ rest

  unfoldable pub line_values : ℕ → Str → List Str → List ℕ
  line_values indent remainder lines =
      if starts_with remainder (codes "[")
      then find_numbers remainder none
      else following_items indent lines

  unfoldable pub parse_numeric_list : Str → List Str → List ℕ
  parse_numeric_list key [] = []
  parse_numeric_list key (line ∷ lines) =
      let rest = parse_numeric_list key lines in
      elim (key_match key line) [
        | none ↦ rest
        | some (indent, remainder) ↦ line_values indent remainder lines ++ rest
      ]
