-- ===== src/Report/Corpus/Block.antt =====
-- `parse_numeric_list` (tools/crs-compatibility-report.py) reads back a list that is written in
-- block style, with a line for each number.
use envoy_modsecurity.Prelude.{
  ℕ, zero, suc, ◌+◌, ◌<◌, ◌≤◌, ◌≡◌, refl, ◌∙◌, ap, false, List, [], ◌∷◌, map, ◌++◌, Option, none,
  some, arith, leb, ◌==◌, nat_eq,
}
use envoy_modsecurity.Prelude.Lists.{is_empty}
use envoy_modsecurity.Prelude.Text.{Str, codes, is_space, starts_with}
use envoy_modsecurity.Report.Corpus.{
  skip_spaces, indentation, after_prefix, key_match, skip_quote, leading_number, item_match,
  following_items, line_values, parse_numeric_list,
}

abbrev pub spaces : ℕ → Str
spaces zero = []
spaces (suc n) = b' ' ∷ spaces n

skip_spaces-spaces : (n : ℕ) (s : Str) → skip_spaces (spaces n ++ s) ≡ skip_spaces s
unfolding skip_spaces is_space
skip_spaces-spaces zero s = refl
skip_spaces-spaces (suc n) s = skip_spaces-spaces n s

indentation-spaces : (n : ℕ) (s : Str) → indentation (spaces n ++ s) ≡ n + indentation s
unfolding indentation is_space
indentation-spaces zero s = omega arith
indentation-spaces (suc n) s = omega (arith, indentation-spaces n s)

skip_spaces_dash : (s : Str) → skip_spaces (codes "- " ++ s) ≡ codes "- " ++ s
unfolding skip_spaces is_space
skip_spaces_dash s = refl

after_prefix_self : (p : Str) → after_prefix p p ≡ some []
unfolding after_prefix
after_prefix_self [] = refl
after_prefix_self (c ∷ p) = ground (arith, after_prefix_self p)

-- The line of the key, and the line of a number at the indentation.
abbrev pub key_line : ℕ → Str → Str
key_line indent key = spaces indent ++ (key ++ codes ":")

abbrev pub item_line : ℕ → Str → Str
item_line indent text = spaces indent ++ (codes "- " ++ text)

module _ (digit : ℕ → Option ℕ) where
  -- Texts that begin with the numbers, for a list item.
  abbrev pub AreItems : List (Str × ℕ) → Type 0
  AreItems [] = Unit
  AreItems ((text, n) ∷ items) =
      (leading_number digit (skip_quote (skip_spaces text)) none ≡ some n) × AreItems items

-- What follows ends the list: nothing, or a line that is indented no more than the key.
abbrev pub EndsList : ℕ → List Str → Type 0
EndsList indent [] = Unit
EndsList indent (line ∷ lines) = (is_empty (skip_spaces line) ≡ false) × (indentation line ≤ indent)

indentation-key : (first : ℕ) (s : Str) → is_space first ≡ false → indentation (first ∷ s) ≡ 0
unfolding indentation
indentation-key first s h = rw h refl

module _ (digit : ℕ → Option ℕ) where
  item_match-item_line :
      (indent : ℕ) (text : Str)
      → item_match digit (item_line indent text)
        ≡ leading_number digit (skip_quote (skip_spaces text)) none
  unfolding item_match skip_spaces is_space after_prefix
  item_match-item_line indent text = ground (arith, skip_spaces-spaces indent (codes "- " ++ text))

  following_end :
      (indent : ℕ) (tail : List Str) → EndsList indent tail → following_items digit indent tail ≡ []
  unfolding following_items
  following_end indent [] h = refl
  following_end indent (line ∷ tail) (some_text, shallow) = ground arith

  item_line_deep :
      (indent inner : ℕ) (text : Str)
      → indent < inner
      → (is_empty (skip_spaces (item_line inner text)) ≡ false)
        × (leb (indentation (item_line inner text)) indent ≡ false)
  unfolding skip_spaces is_space
  item_line_deep indent inner text deeper = (
    ap is_empty (skip_spaces-spaces inner (codes "- " ++ text)),
    ground (arith, indentation-spaces inner (codes "- " ++ text)),
  )

  following_items-block :
      (indent inner : ℕ) (items : List (Str × ℕ)) (tail : List Str)
      → indent < inner
      → AreItems digit items
      → EndsList indent tail
      → following_items digit indent (map (λ i. item_line inner i.0) items ++ tail)
        ≡ map (λ i. i.1) items
  unfolding following_items
  following_items-block indent inner [] tail deeper reads end = following_end indent tail end
  following_items-block indent inner ((text, n) ∷ items) tail deeper (read, reads) end =
      let (some_text, deep) = item_line_deep indent inner text deeper in
      rw (some_text, deep, item_match-item_line inner text, read)
        (ap (◌∷◌ n) (following_items-block indent inner items tail deeper reads end))

-- A key begins with no white space and no dash.
module _ (first : ℕ) (others : Str) (no_space : is_space first ≡ false)
    (no_dash : (b'-' == first) ≡ false) where
  abbrev key : Str
  key = first ∷ others

  skip_spaces-key : (s : Str) → skip_spaces (first ∷ s) ≡ first ∷ s
  unfolding skip_spaces
  skip_spaces-key s = rw no_space refl

  key_match-key_line : (indent : ℕ) → key_match key (key_line indent key) ≡ some (indent, [])
  unfolding key_match skip_spaces
  key_match-key_line indent =
      let skipped =
        skip_spaces-spaces indent (key ++ codes ":") ∙ skip_spaces-key (others ++ codes ":") in
      let none_after : indentation (first ∷ (others ++ codes ":")) ≡ 0 =
        indentation-key first (others ++ codes ":") no_space in
      let placed : indentation (key_line indent key) ≡ indent =
        omega (arith, indentation-spaces indent (key ++ codes ":")) in
      ground (arith, skipped, after_prefix_self (key ++ codes ":"), placed)

  after_prefix_dash : (s : Str) → after_prefix (key ++ codes ":") (b'-' ∷ s) ≡ none
  unfolding after_prefix
  after_prefix_dash s = rw no_dash refl

  key_match-item_line : (indent : ℕ) (text : Str) → key_match key (item_line indent text) ≡ none
  unfolding key_match
  key_match-item_line indent text = ground (
    arith,
    skip_spaces-spaces indent (codes "- " ++ text) ∙ skip_spaces_dash text,
    after_prefix_dash (codes " " ++ text),
  )

  -- No line of items is read as the key's.
  parse-items :
      (digit : ℕ → Option ℕ) (indent : ℕ) (items : List (Str × ℕ)) (tail : List Str)
      → parse_numeric_list digit key (map (λ i. item_line indent i.0) items ++ tail)
        ≡ parse_numeric_list digit key tail
  unfolding parse_numeric_list
  parse-items digit indent [] tail = refl
  parse-items digit indent ((text, n) ∷ items) tail =
      ground (arith, key_match-item_line indent text, parse-items digit indent items tail)

  -- A list of numbers in block style, under a line with the key and on deeper indented lines of
  -- their own, is read back as the numbers in their order, followed by what the lines after it
  -- give, where those lines are none or begin with one that is not blank and indented no more
  -- than the key. The key begins with no white space and no dash, and the text of each item
  -- begins with its number, in quotes or not.
  pub parse_numeric_list-block :
      (digit : ℕ → Option ℕ) (indent inner : ℕ) (items : List (Str × ℕ)) (tail : List Str)
      → indent < inner
      → AreItems digit items
      → EndsList indent tail
      → parse_numeric_list digit key
          (key_line indent key ∷ (map (λ i. item_line inner i.0) items ++ tail))
        ≡ map (λ i. i.1) items ++ parse_numeric_list digit key tail
  unfolding parse_numeric_list line_values starts_with
  parse_numeric_list-block digit indent inner items tail deeper reads end = ground (
    arith,
    key_match-key_line indent,
    parse-items digit inner items tail,
    following_items-block digit indent inner items tail deeper reads end,
  )
