-- ===== src/Report/Corpus/RuleLine.antt =====
-- The line of a test file that names its rule, as `create_rule_index` and `create_test_metadata`
-- (tools/crs-compatibility-report.py) search for it.
use envoy_modsecurity.Prelude.{ℕ, true, false, ◌≡◌, refl, List, [], ◌∷◌, ◌++◌, Option, some, arith}
use envoy_modsecurity.Prelude.Lists.{contains, all, is_empty}
use envoy_modsecurity.Prelude.Split.{take_while-stop, contains-all}
use envoy_modsecurity.Prelude.Text.{Str, codes, is_space}
use envoy_modsecurity.Report.Corpus.{skip_spaces, after_prefix, is_quote, skip_quote}
use envoy_modsecurity.Report.Corpus.Patterns.{search, rule_id_at, is_id_char}
use envoy_modsecurity.Report.Corpus.Written.{unlines, WrittenTest, tests_text, IsPlain}

-- The text of the id of a rule, which can stand without quotes.
pub record IsRuleId (rule_id : Str) : Type 0 where
  pub some_char : is_empty rule_id ≡ false
  pub id_chars : all is_id_char rule_id ≡ true

abbrev pub rule_line : Str → Str
rule_line rule_id = codes "rule_id: " ++ rule_id

-- A file with the rule's line first and its tests last.
abbrev pub file_text : Str → List Str → List WrittenTest → Str
file_text rule_id head tests = unlines (rule_line rule_id ∷ head) ++ tests_text tests

newline_no_id : is_id_char b'\n' ≡ false
unfolding is_space
newline_no_id = refl

pub rule_line-IsPlain : (rule_id : Str) → IsRuleId rule_id → IsPlain (rule_line rule_id)
unfolding contains after_prefix
rule_line-IsPlain rule_id h = record {
  one_line = contains-all is_id_char rule_id b'\n' newline_no_id h.id_chars;
  no_key = refl;
  no_later_key = refl;
}

id_char_plain : (c : ℕ) → is_id_char c ≡ true → (is_space c ≡ false) × (is_quote c ≡ false)
id_char_plain c h = ground arith

skip_spaces-space : (s : Str) → skip_spaces (b' ' ∷ s) ≡ skip_spaces s
unfolding skip_spaces is_space
skip_spaces-space s = refl

pub rule_id_at-line :
    (rule_id s : Str)
    → IsRuleId rule_id
    → rule_id_at (rule_line rule_id ++ b'\n' ∷ s) ≡ some rule_id
unfolding rule_id_at after_prefix skip_spaces skip_quote all
rule_id_at-line [] s h = absurd (ground (arith, h.some_char))
rule_id_at-line (c ∷ rule_id) s h =
    let (no_space, no_quote) = id_char_plain c (ground (arith, h.id_chars)) in
    ground (
      arith,
      skip_spaces-space (c ∷ rule_id ++ b'\n' ∷ s),
      no_space,
      no_quote,
      take_while-stop is_id_char (c ∷ rule_id) s b'\n' newline_no_id h.id_chars,
    )

pub search_here {ℓ} :
    {A : Type ℓ} (f : Str → Option A) (s : Str) {a : A} → f s ≡ some a → search f true s ≡ some a
unfolding search
search_here f [] h = h
search_here f (c ∷ s) h = rw h refl
