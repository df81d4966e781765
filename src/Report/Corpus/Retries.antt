-- ===== src/Report/Corpus/Retries.antt =====
-- `prepare_test_corpus` (tools/crs-compatibility-report.py): the texts of the copied files, with
-- every test's second try switched off.
use envoy_modsecurity.Prelude.{
  ℕ, zero, suc, ◌+◌, ◌-◌, Bool, true, false, ◌≡◌, refl, arith, List, [], ◌∷◌, ◌++◌, Option, none,
  some, if◌then◌else◌, ◌==◌, nat_eq,
}
use envoy_modsecurity.Prelude.Lists.{length}
use envoy_modsecurity.Prelude.Text.{Str, codes}
use envoy_modsecurity.Report.Corpus.{skip_spaces, after_prefix}
use envoy_modsecurity.Report.Corpus.Patterns.{occurs, at_line_end}

-- The pattern `^(\s*retry_once:\s*)true(\s*)$`: the length of its first group.
unfoldable pub retry_at : Str → Option ℕ
unfolding skip_spaces after_prefix at_line_end
retry_at s = elim (after_prefix (codes "retry_once:") (skip_spaces s)) [
  | none ↦ none
  | some rest ↦ elim (after_prefix (codes "true") (skip_spaces rest)) [
    | none ↦ none
    | some after ↦ if at_line_end after then some (length s - length (skip_spaces rest)) else none
  ]
]

-- Where the substitution is: between matches, before the `true` of a match with some characters of
-- the first group to go, or in the `true` with some characters after this one. The second group is
-- copied as text between matches: it is white space, and a match that begins in it has the same
-- `true` as one that begins after it.
pub data Place : Type 0 where
  between : (begins : Bool) → Place
  leading : (n : ℕ) → Place
  dropped : (n : ℕ) → Place

-- The place after a character between matches, from the text it begins.
abbrev pub next_place : Bool → ℕ → Str → Place
next_place begins c s =
    let other = between (c == b'\n') in
    if begins then elim (retry_at (c ∷ s)) [ some n ↦ leading (n - 1) | none ↦ other ] else other

abbrev pub copied : ℕ → Str × ℕ → Str × ℕ
copied c (s, n) = (c ∷ s, n)

abbrev pub switched : Str × ℕ → Str × ℕ
switched (s, n) = (codes "false" ++ s, n + 1)

-- `pattern.subn(r"\1false\2", s)`
unfoldable pub switch_from : Place → Str → Str × ℕ
unfolding retry_at
switch_from place [] = ([], 0)
switch_from (between begins) (c ∷ s) = copied c (switch_from (next_place begins c s) s)
switch_from (leading (suc n)) (c ∷ s) = copied c (switch_from (leading n) s)
switch_from (leading zero) (c ∷ s) = switched (switch_from (dropped 2) s)
switch_from (dropped (suc n)) (c ∷ s) = switch_from (dropped n) s
switch_from (dropped zero) (c ∷ s) = switch_from (between false) s

unfoldable pub switch_off : Str → Str × ℕ
unfolding switch_from
switch_off text = switch_from (between true) text

-- A file is written where something is replaced.
unfoldable pub written : Str → Str
unfolding switch_off
written text = let (updated, n) = switch_off text in if n == 0 then text else updated

-- The texts of the copy, and `normalized`.
unfoldable pub prepare_test_corpus : List Str → List Str × ℕ
unfolding written switch_off
prepare_test_corpus [] = ([], 0)
prepare_test_corpus (text ∷ texts) =
    let later = prepare_test_corpus texts in (written text ∷ later.0, (switch_off text).1 + later.1)

-- The pattern matches at the beginning of the text.
abbrev pub has_retry : Str → Bool
has_retry s = elim (retry_at s) [ some n ↦ true | none ↦ false ]

switch_from-none :
    (begins : Bool) (s : Str)
    → occurs has_retry begins s ≡ false
    → switch_from (between begins) s ≡ (s, 0)
unfolding switch_from occurs
switch_from-none begins [] h = refl
switch_from-none true (c ∷ s) h = ground (arith, switch_from-none (c == b'\n') s)
switch_from-none false (c ∷ s) h = ground (arith, switch_from-none (c == b'\n') s)

-- A text in which no test has a second try is copied as it is.
pub switch_off-none : (s : Str) → occurs has_retry true s ≡ false → switch_off s ≡ (s, 0)
unfolding switch_off
switch_off-none s h = switch_from-none true s h
