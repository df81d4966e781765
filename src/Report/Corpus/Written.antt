-- ===== src/Report/Corpus/Written.antt =====
-- `create_test_metadata` (tools/crs-compatibility-report.py) reads back the tests of a file that is
-- written line by line.
use envoy_modsecurity.Prelude.{
  ℕ, true, false, ◌≡◌, refl, sym, ap, ◌∙◌, List, [], ◌∷◌, ◌++◌, map, Option, none, some, arith,
  nat_eq, list_eq,
}
use mathlib.Core.List.{append_assoc, append-nil}
use envoy_modsecurity.Prelude.Lists.{contains, all, is_empty}
use envoy_modsecurity.Prelude.Split.{take_while-stop, drop_while-stop, contains-all}
use envoy_modsecurity.Prelude.Text.{Str, codes, is_space}
use envoy_modsecurity.Report.Corpus.{skip_spaces, after_prefix}
use envoy_modsecurity.Report.Corpus.Patterns.{
  at_comment, is_digit, numbered, after_test_key, test_id_at,
}
use envoy_modsecurity.Report.Corpus.Metadata.{cut_tests}

-- A text of lines, each of which ends with a newline.
abbrev pub unlines : List Str → Str
unlines [] = []
unlines (line ∷ lines) = line ++ (b'\n' ∷ unlines lines)

pub record WrittenTest : Type 0 where
  pub number : Str
  pub body : List Str

abbrev pub test_line : Str → Str
test_line number = codes "  - test_id: " ++ number

abbrev pub test_text : WrittenTest → Str
test_text test = unlines (test_line test.number ∷ test.body)

-- What `cut_tests` makes of a test.
abbrev pub written_block : WrittenTest → Str × Str
written_block test = (test.number, test_text test)

abbrev pub tests_text : List WrittenTest → Str
tests_text [] = []
tests_text (test ∷ tests) = test_text test ++ tests_text tests

-- A line that does not begin a test.
pub record IsPlain (line : Str) : Type 0 where
  pub one_line : contains line b'\n' ≡ false
  pub no_key : after_prefix (codes "  - test_id:") line ≡ none
  pub no_later_key : after_prefix (codes "    test_id:") line ≡ none

abbrev pub ArePlain : List Str → Type 0
ArePlain [] = Unit
ArePlain (line ∷ lines) = IsPlain line × ArePlain lines

-- A text that ends within a line has a prefix only within the line.
after_prefix_in_line :
    (p line s : Str)
    → contains p b'\n' ≡ false
    → after_prefix p line ≡ none
    → after_prefix p (line ++ b'\n' ∷ s) ≡ none
unfolding after_prefix contains
after_prefix_in_line [] line s no_break h = cc
after_prefix_in_line (d ∷ p) [] s no_break h = ground arith
after_prefix_in_line (d ∷ p) (c ∷ line) s no_break h = ground (arith, after_prefix_in_line p line s)

no_break_in_keys :
    (contains (codes "  - test_id:") b'\n' ≡ false)
    × (contains (codes "    test_id:") b'\n' ≡ false)
unfolding contains
no_break_in_keys = (refl, refl)

module _ (digit : ℕ → Option ℕ) where
  -- The texts of the numbers have a digit and nothing else.
  pub record IsNumber (number : Str) : Type 0 where
    pub some_digit : is_empty number ≡ false
    pub all_digits : all (is_digit digit) number ≡ true

  -- The tests of a file have a number and otherwise plain lines.
  abbrev pub AreTests : List WrittenTest → Type 0
  AreTests [] = Unit
  AreTests (test ∷ tests) = IsNumber test.number × ArePlain test.body × AreTests tests

  test_id_at-plain : (line s : Str) → IsPlain line → test_id_at digit (line ++ b'\n' ∷ s) ≡ none
  unfolding test_id_at after_test_key
  test_id_at-plain line s plain = ground (
    arith,
    after_prefix_in_line (codes "  - test_id:") line s no_break_in_keys.0 plain.no_key,
    after_prefix_in_line (codes "    test_id:") line s no_break_in_keys.1 plain.no_later_key,
  )

  cut_tests-within :
      (line s : Str)
      → contains line b'\n' ≡ false
      → cut_tests digit false (line ++ b'\n' ∷ s)
        ≡ (line ++ b'\n' ∷ (cut_tests digit true s).0, (cut_tests digit true s).1)
  unfolding cut_tests contains
  cut_tests-within [] s h = refl
  cut_tests-within (c ∷ line) s h = ground (arith, cut_tests-within line s)

  cut_tests-plain :
      (line s : Str)
      → IsPlain line
      → cut_tests digit true (line ++ b'\n' ∷ s)
        ≡ (line ++ b'\n' ∷ (cut_tests digit true s).0, (cut_tests digit true s).1)
  unfolding cut_tests contains
  cut_tests-plain [] s plain = ground (arith, test_id_at-plain [] s plain)
  cut_tests-plain (c ∷ line) s plain =
      ground (arith, test_id_at-plain (c ∷ line) s plain, plain.one_line, cut_tests-within line s)

  cut_tests-found :
      (c : ℕ) (line s : Str) {number : Str}
      → contains (c ∷ line) b'\n' ≡ false
      → test_id_at digit (c ∷ line ++ b'\n' ∷ s) ≡ some number
      → cut_tests digit true (c ∷ line ++ b'\n' ∷ s) ≡ (
        [],
        (number, c ∷ line ++ b'\n' ∷ (cut_tests digit true s).0) ∷ (cut_tests digit true s).1,
      )
  unfolding cut_tests contains
  cut_tests-found c line s {number} one_line h = ground (arith, cut_tests-within line s)

  pub cut_tests-lines :
      (lines : List Str) (s : Str)
      → ArePlain lines
      → cut_tests digit true (unlines lines ++ s)
        ≡ (unlines lines ++ (cut_tests digit true s).0, (cut_tests digit true s).1)
  cut_tests-lines [] s h = refl
  cut_tests-lines (line ∷ lines) s (plain, h) =
      ap (cut_tests digit true) (append_assoc line (b'\n' ∷ unlines lines) s)
      ∙ cut_tests-plain line (unlines lines ++ s) plain
      ∙ ap (λ r. (line ++ b'\n' ∷ r.0, r.1)) (cut_tests-lines lines s h)
      ∙ ap (λ t. (t, (cut_tests digit true s).1))
          (sym (append_assoc line (b'\n' ∷ unlines lines) (cut_tests digit true s).0))

-- No white space is a digit, as Python's Unicode tables have it.
module _ (digit : ℕ → Option ℕ)
    (no_space : (c : ℕ) → is_space c ≡ true → is_digit digit c ≡ false) where
  newline_no_digit : is_digit digit b'\n' ≡ false
  unfolding is_space
  newline_no_digit = no_space b'\n' refl

  numbered-line :
      (number s : Str) → IsNumber digit number → numbered digit (number ++ b'\n' ∷ s) ≡ some number
  unfolding numbered at_comment
  numbered-line [] s h = absurd (ground (arith, h.some_digit))
  numbered-line (c ∷ number) s h = ground (
    arith,
    take_while-stop (is_digit digit) (c ∷ number) s b'\n' newline_no_digit h.all_digits,
    drop_while-stop (is_digit digit) (c ∷ number) s b'\n' newline_no_digit h.all_digits,
  )

  test_id_at-line :
      (number s : Str)
      → IsNumber digit number
      → test_id_at digit (test_line number ++ b'\n' ∷ s) ≡ some number
  unfolding test_id_at after_test_key after_prefix skip_spaces is_space all
  test_id_at-line [] s h = absurd (ground (arith, h.some_digit))
  test_id_at-line (c ∷ number) s h =
      ground (arith, numbered-line (c ∷ number) s h, no_space c, h.all_digits)

  cut_tests-line :
      (number s : Str)
      → IsNumber digit number
      → cut_tests digit true (test_line number ++ b'\n' ∷ s) ≡ (
        [],
        (number, test_line number ++ b'\n' ∷ (cut_tests digit true s).0)
            ∷ (cut_tests digit true s).1,
      )
  unfolding contains
  cut_tests-line number s h =
      cut_tests-found digit b' ' (codes " - test_id: " ++ number) s
        (contains-all (is_digit digit) number b'\n' newline_no_digit h.all_digits)
        (test_id_at-line number s h)

  pub cut_tests-tests :
      (tests : List WrittenTest)
      → AreTests digit tests
      → cut_tests digit true (tests_text tests) ≡ ([], map written_block tests)
  unfolding cut_tests
  cut_tests-tests [] h = refl
  cut_tests-tests (test ∷ tests) (number, plain, h) =
      ap (cut_tests digit true)
        (append_assoc (test_line test.number) (b'\n' ∷ unlines test.body) (tests_text tests))
      ∙ cut_tests-line test.number (unlines test.body ++ tests_text tests) number
      ∙ ap (λ r. ([], (test.number, test_line test.number ++ b'\n' ∷ r.0) ∷ r.1))
          (cut_tests-lines digit test.body (tests_text tests) plain
            ∙ ap (λ r. (unlines test.body ++ r.0, r.1)) (cut_tests-tests tests h))
      ∙ ap (λ t. ([], (test.number, t) ∷ map written_block tests))
          (ap (λ t. test_line test.number ++ b'\n' ∷ t) (append-nil (unlines test.body)))
